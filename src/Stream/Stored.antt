-- ===== src/Stream/Stored.antt =====
-- Bytes that are put behind those in a buffer of stream.c.
use csup.Prelude.{◌+◌, ◌≤◌, ◌≡◌, refl, ◌∙◌, ap₂, arith, le→leb, Bytes, ◌++◌, length}
use csup.Prelude.Run.{done}
use csup.Mux.Word.{add_size}
use csup.Stream.{Buf, Cells, buf_avail, contents, buf_more, store}
use csup.Stream.Memory.{read-store_before, read-store, read_add}
use csup.Stream.Taken.{IsOk, avail_lem}

-- The buffer with bytes copied behind those that it stores, before they are counted.
abbrev pub copied : Buf → Bytes → Buf
copied b src = record b { cells = store b.cells (b.off + b.used) src }

pub record Stored (b : Buf) (src : Bytes) : Type 0 where
  pub more : Buf
  pub result : buf_more (copied b src) (length src) ≡ done more
  pub ok : IsOk more
  pub added : contents more ≡ contents b ++ src
  pub count : more.used ≡ b.used + length src
  pub same_size : more.size ≡ b.size

pub buf_more_lem : (b : Buf) (src : Bytes) → IsOk b → length src ≤ buf_avail b → Stored b src
unfolding buf_more
buf_more_lem b src ok h =
    let f = ok.fits in
    let k = ok.bound in
    let start = ok.start in
    let avail = avail_lem b ok in
    let enough = le→leb (length src) (buf_avail b) h in
    let more : add_size b.used (length src) ≡ b.used + length src = omega (arith, f, k, avail, h) in
    let cells : Cells = store b.cells (b.off + b.used) src in
    record {
      more = record b { cells = cells; used = b.used + length src };
      result = rw (buf_more, enough, more) refl;
      ok = record {
        fits = omega (arith, f, k, avail, h);
        bound = k;
        start = λ e. start (omega (arith, e));
      };
      added =
          read_add cells b.off b.used (length src)
          ∙ ap₂ ◌++◌ (read-store_before b.cells (b.off + b.used) b.off b.used src (omega arith))
              (read-store b.cells (b.off + b.used) src);
      count = refl;
      same_size = refl;
    }

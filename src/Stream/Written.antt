-- ===== src/Stream/Written.antt =====
-- What is written to a stream of stream.c arrives in order.
use csup.Prelude.{
  ℕ, zero, suc, ◌^◌, ◌<◌, ◌≤◌, ◌≡◌, refl, sym, ◌∙◌, ap, arith, Bool, true, false, ltb, ltb→lt, ◌==◌,
  ==_iff, Bool-cases, Option-cases, inl, inr, if◌then◌else◌, Bytes, [], ◌++◌, length, take, Option,
  some, append_assoc, append-nil,
}
use csup.Prelude.Run.{Run, done}
use csup.Stream.{
  buf_avail, contents, Stream, flush_loop, stream_flush, append, write_grown, stream_write,
}
use csup.Stream.Memory.{length-read}
use csup.Stream.Growing.{buf_grow-bounds}
use csup.Stream.Stored.{buf_more_lem}
use csup.Stream.Taken.{IsOk, avail_lem, buf_less_lem}

module _ (writefn : Bytes → Bytes → Option ℕ) where
  -- write() takes no more than it gets.
  abbrev pub IsWrite : Type 0
  IsWrite = (sent s : Bytes) (n : ℕ) → writefn sent s ≡ some n → n ≤ length s

  -- What was sent and what waits in the buffer.
  abbrev pub output : Stream → Bytes
  output s = s.sent ++ contents s.wrbuf

  -- A flush sends from the front and loses nothing.
  record Flushed (s : Stream) (r : Run (Bool × Stream)) : Type 0 where
    answer : Bool
    after : Stream
    result : r ≡ done (answer, after)
    ok : IsOk after.wrbuf
    kept : output after ≡ output s
    same_size : after.wrbuf.size ≡ s.wrbuf.size
    emptied : answer ≡ true → after.wrbuf.used ≡ 0

  module _ (w : IsWrite) where
    flush_loop_lem :
        (f : ℕ) (s : Stream) → IsOk s.wrbuf → s.wrbuf.used < f → Flushed s (flush_loop writefn f s)
    unfolding flush_loop
    flush_loop_lem zero s ok h = absurd (omega arith)
    flush_loop_lem (suc f) s ok h = elim (Bool-cases (s.wrbuf.used == 0)) [
      | inl y ↦ record {
        answer = true;
        after = s;
        result = rw (flush_loop, y) refl;
        ok = ok;
        kept = refl;
        same_size = refl;
        emptied = λ e. (==_iff _ _).0 y;
      }
      | inr y ↦ elim (Option-cases (writefn s.sent (contents s.wrbuf))) [
        | inl e ↦ record {
          answer = false;
          after = s;
          result = rw (flush_loop, y, e) refl;
          ok = ok;
          kept = refl;
          same_size = refl;
          emptied = λ t. absurd (cc);
        }
        | inr (zero, e) ↦ record {
          answer = false;
          after = s;
          result = rw (flush_loop, y, e) refl;
          ok = ok;
          kept = refl;
          same_size = refl;
          emptied = λ t. absurd (cc);
        }
        | inr (suc n, e) ↦
            let taken = w s.sent (contents s.wrbuf) (suc n) e in
            let len = length-read s.wrbuf.cells s.wrbuf.off s.wrbuf.used in
            let l = buf_less_lem s.wrbuf (suc n) ok (omega (arith, taken, len)) in
            let fewer = l.fewer in
            let next : Stream = record {
              wrbuf = l.rest;
              sent = s.sent ++ take (suc n) (contents s.wrbuf);
            } in
            let r = flush_loop_lem f next l.ok (omega (arith, fewer, h)) in
            let order : output next ≡ output s =
              append_assoc s.sent (take (suc n) (contents s.wrbuf)) (contents l.rest)
              ∙ ap (λ t. s.sent ++ t) l.split in
            record {
              answer = r.answer;
              after = r.after;
              result = rw (flush_loop, y, e, l.result) r.result;
              ok = r.ok;
              kept = r.kept ∙ order;
              same_size = r.same_size ∙ l.same_size;
              emptied = r.emptied;
            }
      ]
    ]

  -- The bytes are put behind those in the buffer.
  record Appended (s : Stream) (src : Bytes) (r : Run (Bool × Stream)) : Type 0 where
    after : Stream
    result : r ≡ done (true, after)
    ok : IsOk after.wrbuf
    added : output after ≡ output s ++ src

  append_lem :
      (s : Stream) (src : Bytes)
      → IsOk s.wrbuf
      → ltb (buf_avail s.wrbuf) (length src) ≡ false
      → Appended s src (append writefn s src)
  unfolding append
  append_lem s src ok h =
      let m = buf_more_lem s.wrbuf src ok (ground (arith, h)) in
      record {
        after = record s { wrbuf = m.more };
        result = rw (append, m.result) refl;
        ok = m.ok;
        added = ap (λ t. s.sent ++ t) m.added ∙ sym (append_assoc s.sent (contents s.wrbuf) src);
      }

  -- What a write comes to.
  record Wrote (s : Stream) (src : Bytes) (r : Run (Bool × Stream)) : Type 0 where
    answer : Bool
    after : Stream
    result : r ≡ done (answer, after)
    ok : IsOk after.wrbuf
    kept : output after ≡ output s ++ (if answer then src else [])

  write_grown_lem :
      IsWrite
      → (s : Stream) (src : Bytes) → IsOk s.wrbuf
      → length src ≤ s.wrbuf.size
      → Wrote s src (write_grown writefn s src)
  unfolding write_grown stream_flush
  write_grown_lem w s src ok h = elim (Bool-cases (ltb (buf_avail s.wrbuf) (length src))) [
    | inr y ↦
        let a = append_lem s src ok y in
        record {
          answer = true;
          after = a.after;
          result = rw (write_grown, y) a.result;
          ok = a.ok;
          kept = a.added;
        }
    | inl y ↦
        let f = flush_loop_lem w (suc s.wrbuf.used) s ok (omega arith) in
        elim (Bool-cases f.answer) [
          | inr failed ↦ record {
            answer = false;
            after = f.after;
            result = rw (write_grown, y, stream_flush, f.result, failed) refl;
            ok = f.ok;
            kept = f.kept ∙ sym (append-nil (output s));
          }
          | inl flushed ↦
              let empty = f.emptied flushed in
              let start = f.ok.start empty in
              let same = f.same_size in
              let avail = avail_lem f.after.wrbuf f.ok in
              let fits : ltb (buf_avail f.after.wrbuf) (length src) ≡ false =
                ground (arith, avail, empty, start, same) in
              let a = append_lem f.after src f.ok fits in
              record {
                answer = true;
                after = a.after;
                result = rw (write_grown, y, stream_flush, f.result, flushed) a.result;
                ok = a.ok;
                kept = a.added ∙ ap (λ t. t ++ src) f.kept;
              }
        ]
  ]

  -- With a write function that takes no more than it gets, of a write of fewer than 2^63 bytes: it
  -- ends, no assertion fails and no size wraps; if it succeeds, what was sent and what waits in the
  -- buffer is what it was before with the new bytes behind it, and otherwise it is what it was.
  pub stream_write-output :
      IsWrite
      → (s : Stream) (src : Bytes) → IsOk s.wrbuf
      → length src < 2 ^ 63
      → (ok : Bool) × (after : Stream) × (stream_write writefn s src ≡ done (ok, after))
        × IsOk after.wrbuf
        × (output after ≡ output s ++ (if ok then src else []))
  unfolding stream_write
  stream_write-output w s src ok h = elim (Bool-cases (ltb s.wrbuf.size (length src))) [
    | inl y ↦
        let lt = ltb→lt s.wrbuf.size (length src) y in
        let (n, grown, enough, below) = buf_grow-bounds s.wrbuf (length src) lt h in
        let f = ok.fits in
        let larger : IsOk (record s.wrbuf { size = n }) = record {
          fits = omega (arith, f, lt, enough);
          bound = omega (arith, below, h);
          start = ok.start;
        } in
        let r =
          write_grown_lem w (record s { wrbuf = record s.wrbuf { size = n } }) src larger enough in
        (r.answer, r.after, rw (stream_write, y, grown) r.result, r.ok, r.kept)
    | inr y ↦
        let r = write_grown_lem w s src ok (ground (arith, y)) in
        (r.answer, r.after, rw (stream_write, y) r.result, r.ok, r.kept)
  ]

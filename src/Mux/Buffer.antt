-- ===== src/Mux/Buffer.antt =====
-- mux.c: the circular buffers. `in` and `out` are the indices `in_at` and `out_at`; the block has
-- one byte more than the buffer's size, so that a full buffer differs from an empty one.
use csup.Prelude.{ℕ, ◌-◌, ltb, leb, if◌then◌else◌, Bytes, length, take, drop, ◌++◌}
use csup.Prelude.Run.{Run, done, abort}
use csup.Prelude.Slices.{overwrite}
use csup.Mux.Word.{add_size, sub_size}

-- `struct buf`
pub record Buf : Type 0 where
  pub cells : Bytes
  pub size : ℕ
  pub in_at : ℕ
  pub out_at : ℕ

-- The bytes that xmalloc() returns come from outside: `memory` is the block of size + 1 bytes.
unfoldable pub buf_new : Bytes → ℕ → Buf
buf_new memory size = record { cells = memory; size = size; in_at = 0; out_at = 0 }

-- Number of bytes stored in the buffer.
unfoldable pub buf_count : Buf → ℕ
buf_count buf =
    if leb buf.out_at buf.in_at
    then sub_size buf.in_at buf.out_at
    else sub_size (add_size (add_size buf.size 1) buf.in_at) buf.out_at

-- Number of bytes available in the buffer.
unfoldable pub buf_avail : Buf → ℕ
buf_avail buf =
    if ltb buf.in_at buf.out_at
    then sub_size (sub_size buf.out_at buf.in_at) 1
    else sub_size (add_size buf.size buf.out_at) buf.in_at

-- `i += n; if (i > size) i -= size + 1;`
abbrev pub advance : ℕ → ℕ → ℕ → ℕ
advance size i n =
    if ltb size (add_size i n) then sub_size (add_size i n) (add_size size 1) else add_size i n

-- The bytes from `at` to the end of the block.
abbrev pub room : ℕ → ℕ → ℕ
room size at = sub_size (add_size size 1) at

-- What one or two memcpy() calls leave, the second wrapping around.
abbrev pub put_cells : Buf → Bytes → Bytes
put_cells buf xs =
    if ltb (room buf.size buf.in_at) (length xs)
    then overwrite (overwrite buf.cells buf.in_at (take (room buf.size buf.in_at) xs)) 0
        (drop (room buf.size buf.in_at) xs)
    else overwrite buf.cells buf.in_at xs

unfoldable pub buf_put : Buf → Bytes → Run Buf
buf_put buf xs =
    if leb (length xs) 0
    then abort
    else if ltb (buf_avail buf) (length xs)
    then abort
    else done
        (record buf { cells = put_cells buf xs; in_at = advance buf.size buf.in_at (length xs) })

-- What the memcpy() calls copy out.
abbrev pub got_bytes : Buf → ℕ → Bytes
got_bytes buf n =
    if ltb (room buf.size buf.out_at) n
    then take (room buf.size buf.out_at) (drop buf.out_at buf.cells)
      ++ take (n - room buf.size buf.out_at) buf.cells
    else take n (drop buf.out_at buf.cells)

unfoldable pub buf_get : Buf → ℕ → Run (Bytes × Buf)
buf_get buf n =
    if leb n 0
    then abort
    else if ltb (buf_count buf) n
    then abort
    else done (got_bytes buf n, record buf { out_at = advance buf.size buf.out_at n })

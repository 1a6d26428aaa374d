-- ===== src/Stream.antt =====
-- stream.c: the buffers and the writing side with the default flush method. The bytes of a buffer
-- are a function; what is not written, or beyond the size, may be any byte. The write function of
-- the stream is an argument.
pub mod Memory
pub mod Growing
pub mod Taken
pub mod Stored
pub mod Written
pub mod Reading
pub mod Prepared
pub mod Filled
pub mod Lines
pub mod LineTaken
pub mod Getln
pub mod Files
use csup.Prelude.{
  ℕ, zero, suc, ◌+◌, ◌-◌, ◌*◌, ◌%◌, ◌^◌, Bool, true, false, ltb, leb, ◌==◌, if◌then◌else◌, Bytes,
  [], ◌∷◌, ◌++◌, length, take, Option, none, some,
}
use csup.Prelude.Run.{Run, done, abort, out_of_fuel, ◌>>=◌}
use csup.Mux.Word.{add_size, sub_size}

abbrev pub Cells : Type 0
Cells = ℕ → ℕ

abbrev pub put : Cells → ℕ → ℕ → Cells
put cells i c j = if j == i then c else cells j

-- memcpy() of bytes to an index.
abbrev pub store : Cells → ℕ → Bytes → Cells
store cells at [] = cells
store cells at (c ∷ s) = put (store cells (at + 1) s) at c

-- `n` bytes from an index on.
abbrev pub read : Cells → ℕ → ℕ → Bytes
read cells at zero = []
read cells at (suc n) = cells at ∷ read cells (at + 1) n

-- `struct buf` of stream.c; the field `in` is `used`.
pub record Buf : Type 0 where
  pub cells : Cells
  pub size : ℕ
  pub used : ℕ
  pub off : ℕ

unfoldable pub buf_new : ℕ → Buf
buf_new size = record { cells = λ i. 0; size = size; used = 0; off = 0 }

abbrev pub buf_avail : Buf → ℕ
buf_avail b = sub_size (sub_size b.size b.off) b.used

-- The bytes in the buffer.
abbrev pub contents : Buf → Bytes
contents b = read b.cells b.off b.used

abbrev pub next_size : ℕ → ℕ
next_size size = add_size (size * 2 % 2 ^ 64) 1

-- The loop of buf_grow(), on fuel: a size doubles at most 64 times.
unfoldable pub grow_loop : ℕ → ℕ → ℕ → Run ℕ
grow_loop zero size need = out_of_fuel
grow_loop (suc f) size need =
    let more = grow_loop f (next_size size) need in if ltb size need then more else done size

-- xrealloc() of one byte more than the size; if that is 0, there is no buffer.
abbrev pub resized : Buf → ℕ → Run Buf
resized b size = if add_size size 1 == 0 then abort else done (record b { size = size })

unfoldable pub buf_grow : Buf → ℕ → Run Buf
buf_grow b need =
    if need == 0
    then resized b (next_size b.size)
    else if ltb b.size need
    then (grow_loop 65 b.size need >>= resized b)
    else abort

-- memmove() to the start of the buffer.
abbrev pub moved : Buf → Cells
moved b i = if ltb i b.used then b.cells (b.off + i) else b.cells i

unfoldable pub buf_prewrite : Buf → Run Buf
buf_prewrite b = (if b.used == b.size then buf_grow b 0 else done b) >>= λ grown.
    if ltb 0 grown.used
    then if buf_avail grown == 0
      then done (record grown { cells = moved grown; off = 0 })
      else done grown
    else done grown

unfoldable pub buf_more : Buf → ℕ → Run Buf
buf_more b n = if leb n (buf_avail b) then done (record b { used = add_size b.used n }) else abort

unfoldable pub buf_less : Buf → ℕ → Run Buf
buf_less b n =
    let left : ℕ = sub_size b.used n in
    if leb n b.used
    then done (record b { used = left; off = if left == 0 then 0 else add_size b.off n })
    else abort

-- The writing side of a stream, and the bytes that its write function has taken.
pub record Stream : Type 0 where
  pub wrbuf : Buf
  pub sent : Bytes

-- The write function gets what was sent before and the bytes to write, and answers how many it has
-- taken; `none` stands for -1 with an error other than EINTR, after which the code tries again.
module _ (writefn : Bytes → Bytes → Option ℕ) where
  -- stream_flush_default(), on fuel: each round takes a byte.
  unfoldable pub flush_loop : ℕ → Stream → Run (Bool × Stream)
  flush_loop zero s = out_of_fuel
  flush_loop (suc f) s =
      if s.wrbuf.used == 0 then done (true, s) else elim (writefn s.sent (contents s.wrbuf)) [
        | none ↦ done (false, s)
        | some zero ↦ done (false, s)
        | some (suc n) ↦ buf_less s.wrbuf (suc n) >>= λ b.
            flush_loop f (record { wrbuf = b; sent = s.sent ++ take (suc n) (contents s.wrbuf) })
      ]

  unfoldable pub stream_flush : Stream → Run (Bool × Stream)
  stream_flush s = flush_loop (suc s.wrbuf.used) s

  -- Copy the bytes behind those in the buffer.
  unfoldable pub append : Stream → Bytes → Run (Bool × Stream)
  append s src =
      let b : Buf = s.wrbuf in
      buf_more (record b { cells = store b.cells (b.off + b.used) src }) (length src) >>= λ b'.
      done (true, record s { wrbuf = b' })

  -- With a buffer that is large enough: it is flushed if what is free in it is too small.
  unfoldable pub write_grown : Stream → Bytes → Run (Bool × Stream)
  write_grown s src =
      if ltb (buf_avail s.wrbuf) (length src)
      then (stream_flush s >>= λ (ok, flushed).
          if ok then append flushed src else done (false, flushed))
      else append s src

  -- False if the write function fails.
  unfoldable pub stream_write : Stream → Bytes → Run (Bool × Stream)
  stream_write s src =
      (if ltb s.wrbuf.size (length src) then buf_grow s.wrbuf (length src) else done s.wrbuf)
      >>= λ grown. write_grown (record s { wrbuf = grown }) src

-- ===== src/Tests/Writes.antt =====
-- Writes to a stream.
use csup.Prelude.{
  ℕ, ◌*◌, ◌<◌, ◌≤◌, ◌≡◌, refl, arith, Bool, true, Bytes, [], ◌∷◌, ◌++◌, length, min, if◌then◌else◌,
  Option, some,
}
use csup.Prelude.Run.{done}
use csup.Stream.{
  Buf, put, buf_grow, Stream, stream_write, write_grown, stream_flush, flush_loop, append, buf_more,
  buf_less,
}
use csup.Stream.Growing.{buf_grow-bounds}
use csup.Stream.Taken.{IsOk}
use csup.Stream.Written.{IsWrite, output, stream_write-output}

-- The bytes 1 and 2 in a buffer for three.
abbrev two_bytes : Buf
two_bytes = record { cells = put (put (λ i. 0) 0 1) 1 2; size = 3; used = 2; off = 0 }

-- One byte at a time.
abbrev slow_write : Bytes → Bytes → Option ℕ
slow_write sent s = some (min 1 (length s))

abbrev stream : Stream
stream = record { wrbuf = two_bytes; sent = [] }

-- The two bytes are flushed to make room.
sent_first :
    (after : Stream) × (stream_write slow_write stream (3 ∷ 4 ∷ []) ≡ done (true, after))
    × (after.sent ≡ 1 ∷ 2 ∷ [])
unfolding stream_write write_grown stream_flush flush_loop append buf_more buf_less
sent_first = (_, refl, refl)

slow_write-IsWrite : IsWrite slow_write
slow_write-IsWrite sent s n e = ground arith

two_bytes-IsOk : IsOk two_bytes
two_bytes-IsOk = record { fits = omega arith; bound = omega arith; start = λ e. refl }

stream_write-output_example :
    (ok : Bool) × (after : Stream) × (stream_write slow_write stream (3 ∷ 4 ∷ [])
      ≡ done (ok, after))
    × IsOk after.wrbuf
    × (output slow_write after ≡ output slow_write stream ++ (if ok then 3 ∷ 4 ∷ [] else []))
stream_write-output_example =
    stream_write-output slow_write slow_write-IsWrite stream (3 ∷ 4 ∷ []) two_bytes-IsOk
      (omega arith)

buf_grow-bounds_example :
    (n : ℕ) × (buf_grow two_bytes 9 ≡ done (record two_bytes { size = n })) × (9 ≤ n) × (n < 2 * 9)
buf_grow-bounds_example = buf_grow-bounds two_bytes 9 (omega arith) (omega arith)

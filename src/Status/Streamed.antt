-- ===== src/Status/Streamed.antt =====
-- status.c over stream.c: the lines of the status file are read by stream_getln().
use csup.Prelude.{ℕ, ◌^◌, ◌<◌, false, Bytes, List, [], ◌∷◌, Option, All}
use csup.Status.{World}
use csup.Status.Entries.{Gives}
use csup.Stream.Filled.{IsRead}
use csup.Stream.Files.{IsFile, IsAt, IsText, Reads, text, stream_getln-file}
use csup.Stream.Reading.{Reader, stream_getln}

module _ (readfn : Bytes → ℕ → Option Bytes) (fuel : ℕ) (w : World Reader) where
  -- Reading a line, and the end of the file, of a stream.
  abbrev pub on_stream : World Reader
  on_stream = record w { getln = stream_getln readfn fuel false; at_eof = λ r. r.eof }

  Reads-Gives : (r : Reader) (ls : List Bytes) → Reads readfn fuel r ls → Gives on_stream r ls
  Reads-Gives r [] h = h
  Reads-Gives r (l ∷ ls) (r', e, h) = (r', e, Reads-Gives r' ls h)

  -- A file of lines gives the status file's functions these lines.
  pub file-Gives :
      (limit : ℕ) (file : Bytes) (ls : List Bytes) (r : Reader)
      → limit < 2 ^ 62
      → IsRead readfn limit
      → IsFile readfn file
      → limit < fuel
      → All IsText ls
      → IsAt readfn file limit r (text ls)
      → Gives on_stream r ls
  file-Gives limit file ls r small reads is enough clear at =
      Reads-Gives r ls
        (stream_getln-file readfn file limit fuel ls r small reads is enough clear at)

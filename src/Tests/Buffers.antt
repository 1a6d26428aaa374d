-- ===== src/Tests/Buffers.antt =====
-- mux.c's buffers and packets on concrete bytes.
use csup.Prelude.{◌+◌, ◌≡◌, ◌≤◌, refl, arith, [], ◌∷◌, ◌++◌, take, drop}
use csup.Prelude.Run.{done}
use csup.Prelude.Slices.{overwrite}
use csup.Mux.Buffer.{Buf, buf_put, buf_get, buf_avail, buf_count}
use csup.Mux.BufferCells.{IsValid, contents}
use csup.Mux.BufferQueue.{buf_put_appends, buf_get_takes}
use csup.Mux.Packet.{connect, encode, packet, receive_header}
use csup.Mux.PacketRoundTrip.{receive_header-encode}

-- A buffer of size 4 that stores the two bytes 11 and 12, near the end of its block.
abbrev near_end : Buf
near_end = record { cells = 0 ∷ 0 ∷ 11 ∷ 12 ∷ 0 ∷ []; size = 4; in_at = 4; out_at = 2 }

near_end-IsValid : IsValid near_end
near_end-IsValid = record {
  block = refl;
  in_block = omega arith;
  out_block = omega arith;
  small = omega arith;
}

room_for_two : 2 ≤ buf_avail near_end
unfolding buf_avail
room_for_two = omega arith

two_stored : 2 ≤ buf_count near_end
unfolding buf_count
two_stored = omega arith

wraps :
    buf_put near_end (13 ∷ 14 ∷ [])
    ≡ done (record { cells = 14 ∷ 0 ∷ 11 ∷ 12 ∷ 13 ∷ []; size = 4; in_at = 1; out_at = 2 })
unfolding buf_put buf_avail overwrite
wraps = refl

buf_put_appends_example :
    (buf' : Buf) × (buf_put near_end (13 ∷ 14 ∷ []) ≡ done buf')
    × IsValid buf'
    × (contents buf' ≡ contents near_end ++ (13 ∷ 14 ∷ []))
    × (buf_count buf' ≡ buf_count near_end + 2)
buf_put_appends_example = buf_put_appends (13 ∷ 14 ∷ []) near_end-IsValid (omega arith) room_for_two

buf_get_takes_example :
    (buf' : Buf) × (buf_get near_end 2 ≡ done (take 2 (contents near_end), buf'))
    × IsValid buf'
    × (contents buf' ≡ drop 2 (contents near_end))
    × (buf_count buf' + 2 ≡ buf_count near_end)
buf_get_takes_example = buf_get_takes 2 near_end-IsValid (omega arith) two_stored

receive_header-encode_example :
    receive_header (encode (connect 1 1024 16384) ++ (7 ∷ []))
    ≡ packet (connect 1 1024 16384) (7 ∷ [])
receive_header-encode_example =
    receive_header-encode (connect 1 1024 16384) (7 ∷ []) (omega arith, omega arith, omega arith)

-- ===== src/Mux/PacketRoundTrip.antt =====
-- The receiver reads the header that the sender wrote.
use csup.Prelude.{◌≡◌, ◌<◌, arith, Bytes, ◌++◌}
use csup.Mux.Packet.{
  Header, startup_req, startup_rep, connect, accept, reset, data_of, window, close, encode, packet,
  receive_header,
}

-- The sizes of the fields: uint8_t, uint16_t and uint32_t. The startup packets are exchanged before
-- the receiver runs.
abbrev pub Fits : Header → Type 0
Fits (startup_req v) = ⊥
Fits (startup_rep v) = ⊥
Fits (connect id mss win) = (id < 256) × (mss < 65536) × (win < 4294967296)
Fits (accept id mss win) = (id < 256) × (mss < 65536) × (win < 4294967296)
Fits (reset id) = id < 256
Fits (data_of id len) = (id < 256) × (len < 65536)
Fits (window id win) = (id < 256) × (win < 4294967296)
Fits (close id) = id < 256

-- A header whose fields fit, other than a startup, is read back as it was, and what follows it on
-- the wire is left.
pub receive_header-encode :
    (h : Header) (rest : Bytes) → Fits h → receive_header (encode h ++ rest) ≡ packet h rest
unfolding receive_header encode
receive_header-encode (startup_req v) rest f = absurd f
receive_header-encode (startup_rep v) rest f = absurd f
receive_header-encode (connect id mss win) rest f = ground arith
receive_header-encode (accept id mss win) rest f = ground arith
receive_header-encode (reset id) rest f = ground arith
receive_header-encode (data_of id len) rest f = ground arith
receive_header-encode (window id win) rest f = ground arith
receive_header-encode (close id) rest f = ground arith

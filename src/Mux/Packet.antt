-- ===== src/Mux/Packet.antt =====
-- mux.c: the packets on the wire. `struct mux_header` is packed, its numbers in network order.
use csup.Prelude.{ℕ, ◌+◌, ◌*◌, ◌/◌, ◌%◌, ◌==◌, if◌then◌else◌, Bytes, [], ◌∷◌}

-- Packet types of `struct mux_header`, each with its part of the union. A startup reply has the
-- layout of the request.
pub data Header : Type 0 where
  startup_req : ℕ → Header
  startup_rep : ℕ → Header
  connect : ℕ → ℕ → ℕ → Header
  accept : ℕ → ℕ → ℕ → Header
  reset : ℕ → Header
  data_of : ℕ → ℕ → Header
  window : ℕ → ℕ → Header
  close : ℕ → Header

-- htons() and htonl(), byte by byte.
abbrev pub htons : ℕ → Bytes
htons n = (n / 256) % 256 ∷ n % 256 ∷ []

abbrev pub ntohs : ℕ → ℕ → ℕ
ntohs a b = a * 256 + b

abbrev pub ntohl : ℕ → ℕ → ℕ → ℕ → ℕ
ntohl a b c d = ((a * 256 + b) * 256 + c) * 256 + d

-- The bytes that sock_write() and sock_writev() send for a header: as many as its MUX_...HDRSZ.
unfoldable pub encode : Header → Bytes
encode (startup_req version) = 0 ∷ htons version
encode (startup_rep version) = 1 ∷ htons version
encode (connect id mss win) =
    2
    ∷ (id % 256)
    ∷ ((mss / 256) % 256)
    ∷ (mss % 256)
    ∷ ((win / 16777216) % 256)
    ∷ ((win / 65536) % 256)
    ∷ ((win / 256) % 256)
    ∷ (win % 256)
    ∷ []
encode (accept id mss win) =
    3
    ∷ (id % 256)
    ∷ ((mss / 256) % 256)
    ∷ (mss % 256)
    ∷ ((win / 16777216) % 256)
    ∷ ((win / 65536) % 256)
    ∷ ((win / 256) % 256)
    ∷ (win % 256)
    ∷ []
encode (reset id) = 4 ∷ (id % 256) ∷ []
encode (data_of id len) = 5 ∷ (id % 256) ∷ ((len / 256) % 256) ∷ (len % 256) ∷ []
encode (window id win) =
    6
    ∷ (id % 256)
    ∷ ((win / 16777216) % 256)
    ∷ ((win / 65536) % 256)
    ∷ ((win / 256) % 256)
    ∷ (win % 256)
    ∷ []
encode (close id) = 7 ∷ (id % 256) ∷ []

-- What receiver_loop() reads before it acts on a packet: the type, then the rest of the header.
pub data Received : Type 0 where
  packet : Header → Bytes → Received
  bad_type : Received
  connection_lost : Received

read_connect : (ℕ → ℕ → ℕ → Header) → Bytes → Received
read_connect make (id ∷ m1 ∷ m0 ∷ w3 ∷ w2 ∷ w1 ∷ w0 ∷ rest) =
    packet (make id (ntohs m1 m0) (ntohl w3 w2 w1 w0)) rest
read_connect make _ = connection_lost

read_id : (ℕ → Header) → Bytes → Received
read_id make (id ∷ rest) = packet (make id) rest
read_id make [] = connection_lost

read_data : Bytes → Received
read_data (id ∷ l1 ∷ l0 ∷ rest) = packet (data_of id (ntohs l1 l0)) rest
read_data _ = connection_lost

read_window : Bytes → Received
read_window (id ∷ w3 ∷ w2 ∷ w1 ∷ w0 ∷ rest) = packet (window id (ntohl w3 w2 w1 w0)) rest
read_window _ = connection_lost

-- The stream that runs out within a header stands for sock_readwait() failing. The two startup
-- types are no case of the receiver's switch.
unfoldable pub receive_header : Bytes → Received
unfolding read_connect read_id read_data read_window
receive_header [] = connection_lost
receive_header (type ∷ rest) =
    if type == 2
    then read_connect connect rest
    else if type == 3
    then read_connect accept rest
    else if type == 4
    then read_id reset rest
    else if type == 5
    then read_data rest
    else if type == 6
    then read_window rest
    else if type == 7
    then read_id close rest
    else bad_type

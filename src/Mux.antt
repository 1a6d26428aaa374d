-- ===== src/Mux.antt =====
-- mux.c: several channels over one connection. The state of a channel and of the multiplexer is in
-- `Channel`, its circular buffers in `Buffer`, the packets in `Packet`, the two threads in `Sender`
-- and `Receiver`; the other children prove what these promise.
pub mod Word
pub mod Buffer
pub mod BufferCells
pub mod BufferQueue
pub mod Channel
pub mod State
pub mod Sender
pub mod Receiver
pub mod Packet
pub mod PacketRoundTrip
pub mod Link
pub mod ChannelOps
pub mod LinkInv
pub mod LinkSteps
pub mod Delivery
pub mod Scanning
pub mod Failing
pub mod Shutdown
pub mod Table

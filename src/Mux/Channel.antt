-- ===== src/Mux/Channel.antt =====
-- mux.c: a channel's state, and what the program's threads do with it. A function that holds the
-- channel's lock from its first test to its last write is one step; one that waits on a condition
-- is the pass that it makes over its loop each time that it has the lock.
use csup.Prelude.{
  ℕ, ◌*◌, Bool, true, false, not, leb, if◌then◌else◌, Bytes, [], ◌∷◌, length, take, drop, min,
}
use csup.Prelude.Run.{Run, done, ◌>>=◌}
use csup.Mux.Word.{add_u32}
use csup.Mux.Buffer.{Buf, buf_new, buf_count, buf_avail, buf_put, buf_get}

-- CS_UNUSED to CS_CLOSED.
pub data ChanState : Type 0 where
  unused : ChanState
  listening : ChanState
  connecting : ChanState
  established : ChanState
  rdclosed : ChanState
  wrclosed : ChanState
  closed : ChanState

-- The bits of `flags`: what the sender thread has still to send.
pub record Flags : Type 0 where
  pub cf_connect : Bool
  pub cf_accept : Bool
  pub cf_reset : Bool
  pub cf_window : Bool
  pub cf_data : Bool
  pub cf_close : Bool

abbrev pub no_flags : Flags
no_flags = record {
  cf_connect = false;
  cf_accept = false;
  cf_reset = false;
  cf_window = false;
  cf_data = false;
  cf_close = false;
}

-- `struct chan`, less its locks, its conditions and the pointer to the multiplexer.
pub record Chan : Type 0 where
  pub flags : Flags
  pub state : ChanState
  pub recvbuf : Buf
  pub recvseq : ℕ
  pub recvmss : ℕ
  pub sendbuf : Buf
  pub sendseq : ℕ
  pub sendwin : ℕ
  pub sendmss : ℕ

-- CHAN_SBSIZE and CHAN_RBSIZE
abbrev pub chan_bufsize : ℕ
chan_bufsize = 16 * 1024

abbrev pub chan_maxsegsize : ℕ
chan_maxsegsize = 1024

-- The two blocks come from xmalloc().
unfoldable pub chan_new : Bytes → Bytes → Chan
unfolding buf_new
chan_new sendmem recvmem = record {
  flags = no_flags;
  state = unused;
  recvbuf = buf_new recvmem chan_bufsize;
  recvseq = 0;
  recvmss = chan_maxsegsize;
  sendbuf = buf_new sendmem chan_bufsize;
  sendseq = 0;
  sendwin = 0;
  sendmss = 0;
}

-- The value of chan_close(), and whether it wakes up the sender.
pub data Closing : Type 0 where
  closing : Closing
  already : Closing
  not_open : Closing

unfoldable pub chan_close : Chan → Closing × Chan
chan_close chan = elim chan.state [
  | established ↦
      (closing, record chan { state = wrclosed; flags = record (chan.flags) { cf_close = true } })
  | rdclosed ↦
      (closing, record chan { state = closed; flags = record (chan.flags) { cf_close = true } })
  | wrclosed ↦ (already, chan)
  | closed ↦ (already, chan)
  | unused ↦ (not_open, chan)
  | listening ↦ (not_open, chan)
  | connecting ↦ (not_open, chan)
]

-- A state in which bytes may still come in.
abbrev pub can_receive : ChanState → Bool
can_receive established = true
can_receive wrclosed = true
can_receive _ = false

-- A state in which bytes may still go out.
abbrev pub can_send : ChanState → Bool
can_send established = true
can_send rdclosed = true
can_send _ = false

abbrev pub is_read_end : ChanState → Bool
is_read_end rdclosed = true
is_read_end closed = true
is_read_end _ = false

-- What one pass of chan_read() comes to: end of file, EBADF, a wait, or bytes.
pub data Reading : Type 0 where
  read_eof : Reading
  read_ebadf : Reading
  read_waits : Reading
  read_bytes : Bytes → Chan → Reading

unfoldable pub chan_read : Chan → ℕ → Run Reading
chan_read chan size =
    if is_read_end chan.state
    then done read_eof
    else if not (can_receive chan.state)
    then done read_ebadf
    else if leb (buf_count chan.recvbuf) 0
    then done read_waits
    else buf_get chan.recvbuf (min (buf_count chan.recvbuf) size) >>= λ (got, buf). done (
        read_bytes got (record chan {
          recvbuf = buf;
          recvseq = add_u32 chan.recvseq (min (buf_count chan.recvbuf) size);
          flags = record (chan.flags) { cf_window = true };
        }))

-- What one pass of chan_write() comes to: EPIPE, a wait, or the channel with the bytes that fitted
-- and what is left to write. It succeeds when nothing is left.
pub data Writing : Type 0 where
  write_epipe : Writing
  write_waits : Writing
  wrote : Chan → Bytes → Writing

unfoldable pub chan_write : Chan → Bytes → Run Writing
chan_write chan [] = done (wrote chan [])
chan_write chan (x ∷ rest) =
    let xs : Bytes = x ∷ rest in
    if not (can_send chan.state)
    then done write_epipe
    else if leb (buf_avail chan.sendbuf) 0
    then done write_waits
    else buf_put chan.sendbuf (take (min (buf_avail chan.sendbuf) (length xs)) xs) >>= λ buf.
        done (
          wrote (record chan { sendbuf = buf })
            (drop (min (buf_avail chan.sendbuf) (length xs)) xs))

-- The test of chan_accept()'s loop and what follows it: a wait, ECONNRESET, or the channel.
pub data Accepting : Type 0 where
  accept_waits : Accepting
  accept_reset : Accepting
  accepted : Accepting

unfoldable pub chan_accept : Chan → Accepting
chan_accept chan = elim chan.state [
  | listening ↦ accept_waits
  | established ↦ accepted
  | _ ↦ accept_reset
]

-- chan_connect() up to its wait: only an unused channel is connected.
unfoldable pub chan_connect_start : Chan → Bool × Chan
chan_connect_start chan = elim chan.state [
  | unused ↦
      (true, record chan { state = connecting; flags = record (chan.flags) { cf_connect = true } })
  | _ ↦ (false, chan)
]

-- The wait of chan_connect(), and what follows it.
unfoldable pub chan_connect_wait : Chan → Accepting
chan_connect_wait chan = elim chan.state [
  | connecting ↦ accept_waits
  | established ↦ accepted
  | _ ↦ accept_reset
]

-- The conditions of a channel on which all threads are woken.
pub record Broadcast : Type 0 where
  pub rdready : Bool
  pub wrready : Bool

abbrev pub no_broadcast : Broadcast
no_broadcast = record { rdready = false; wrready = false }

-- What mux_shutdown() does with each channel.
unfoldable pub chan_shutdown : Chan → Chan × Broadcast
chan_shutdown chan = elim chan.state [
  | unused ↦ (chan, no_broadcast)
  | _ ↦
      (record chan { state = closed; flags = no_flags }, record { rdready = true; wrready = true })
]

-- ===== src/Frames/Buffer.antt =====
-- `receive_socket_data` of src/inputs/dnstap/UnixFrameSession.h. The buffer from `pos` on is the
-- suffix that begins there. Each round consumes a byte at least, so the buffer's length is fuel
-- enough.
use pktvisor.Prelude.{ℕ, zero, suc, List, [], ◌∷◌, ◌++◌, length}
use pktvisor.Metrics.Utf8.{Bytes}
use pktvisor.Frames.{
  Fstrm, Session, DnstapError, waits, throws, yields, try_yield_frame, new_session,
}

-- A session and its buffer, or one that an exception ended.
pub data Connection : Type 0 where
  open_with : Session → Bytes → Connection
  closed_by : DnstapError → Session → Connection

-- `while (_try_yield_frame(pos))`: the last of it is `pos < _buffer.size()`.
unfoldable pub drain : Fstrm → ℕ → Session → Bytes → Connection
drain lib zero s buffer = open_with s buffer
drain lib (suc fuel) s buffer = elim (try_yield_frame lib s buffer) [
  | waits ↦ open_with s buffer
  | throws e s' ↦ closed_by e s'
  | yields s' rest ↦ elim rest [ [] ↦ open_with s' [] | b ∷ bs ↦ drain lib fuel s' (b ∷ bs) ]
]

unfoldable pub receive_socket_data : Fstrm → Session → Bytes → Bytes → Connection
unfolding drain
receive_socket_data lib s buffer chunk = drain lib (length (buffer ++ chunk)) s (buffer ++ chunk)

-- A read of the socket; an exception has ended the session for good.
unfoldable pub read : Fstrm → Connection → Bytes → Connection
unfolding receive_socket_data
read lib (open_with s buffer) chunk = receive_socket_data lib s buffer chunk
read lib (closed_by e s) chunk = closed_by e s

unfoldable pub read_all : Fstrm → Connection → List Bytes → Connection
unfolding read
read_all lib c [] = c
read_all lib c (chunk ∷ chunks) = read_all lib (read lib c chunk) chunks

abbrev pub connected : Connection
connected = open_with new_session []

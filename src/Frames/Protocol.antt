-- ===== src/Frames/Protocol.antt =====
-- The protocol of the sessions of src/inputs/dnstap/UnixFrameSession.h, as a relation of its own:
-- what a frame is on the wire, which frames a session takes, and what it leaves.
pub mod Control
pub mod Refines
use pktvisor.Prelude.{
  ℕ, zero, suc, ◌+◌, ◌≤◌, ◌<◌, ◌≡◌, refl, sym, subst, Bool, true, false, none, some, List, [], ◌∷◌,
  ◌++◌, ◌⊎◌, inl, inr, arith, Bool-cases, Option-cases, length, take, drop, leb, ltb, ◌==◌, not,
  ◌&&◌, ◌||◌, length-take, length-append, take-append-drop, if◌then◌else◌,
}
use pktvisor.Metrics.Utf8.{Bytes}
use pktvisor.Frames.{
  Fstrm, DnstapError, Session, FrameState, new, ready, running, finishing, Yield, waits, throws,
  yields, word, is_state, Thrown, data_frame, deliver, send_control_frame, control, ControlType,
  start_frame, ready_frame, stop_frame, accept_frame, finish_frame, decode_control_frame,
  after_control, control_body, control_frame, try_yield_frame, new_session,
}
use pktvisor.Frames.Buffer.{
  Connection, open_with, closed_by, connected, drain, receive_socket_data, read, read_all,
}
use pktvisor.Frames.Chunks.{concat, read_all-concat}

-- A frame on the wire: its kind and its bytes.
pub data Message : Type 0 where
  control_message data_message : Bytes → Message

-- The bytes begin with the message, and the rest follows: the length of a data frame is not 0; a
-- control frame is behind a length of 0, with its own length before it.
abbrev pub Begins : Message → Bytes → Bytes → Type 0
Begins (data_message frame) rest (a ∷ b ∷ c ∷ d ∷ more) =
    (0 < word a b c d) × (word a b c d ≡ length frame) × (more ≡ frame ++ rest)
Begins (control_message frame) rest (a ∷ b ∷ c ∷ d ∷ e ∷ f ∷ g ∷ h ∷ more) =
    (word a b c d ≡ 0) × (word e f g h ≡ length frame) × (more ≡ frame ++ rest)
Begins _ _ _ = ⊥

-- The bytes do not begin with a whole message.
abbrev pub IsPartial : Bytes → Type 0
IsPartial bs = (m : Message) (rest : Bytes) → ¬ Begins m rest bs

module _ (lib : Fstrm) where
  -- One control frame is written to the client.
  abbrev pub Sends : ControlType → Bool → Session → Session → Type 0
  Sends type b s t =
      (frame : Bytes) × (lib.encode type b ≡ some frame)
      × (lib.write s.written frame ≡ true)
      × (t ≡ record s { written = s.written ++ frame ∷ [] })

  -- START is accepted first in a session of one direction, and after READY in one of two. READY is
  -- accepted first, makes the session one of two directions, and is answered by ACCEPT. STOP ends
  -- the session, and is answered by FINISH in one of two directions. ACCEPT and FINISH change
  -- nothing.
  abbrev pub Handles : Session → Bytes → ControlType → Session → Type 0
  Handles s frame start_frame t =
      (lib.match_content_type frame ≡ true)
      × (((s.state ≡ new) × (s.is_bidir ≡ false)) ⊎ ((s.state ≡ ready) × (s.is_bidir ≡ true)))
      × (t ≡ record s { state = running })
  Handles s frame ready_frame t =
      (lib.match_content_type frame ≡ true)
      × (s.state ≡ new)
      × Sends accept_frame true (record s { state = ready; is_bidir = true }) t
  Handles s frame stop_frame t =
      ((s.is_bidir ≡ false) × (t ≡ record s { state = finishing }))
      ⊎ ((s.is_bidir ≡ true) × Sends finish_frame false (record s { state = finishing }) t)
  Handles s frame accept_frame t = t ≡ s
  Handles s frame finish_frame t = t ≡ s

  -- The session takes the message. A data frame is given to the callback, after START and before
  -- STOP; nothing is taken after STOP.
  abbrev pub Takes : Session → Message → Session → Type 0
  Takes s (control_message frame) t =
      (¬ (s.state ≡ finishing))
      × (length frame ≤ lib.max_control)
      × ((type : ControlType) × (lib.decode frame ≡ some type) × Handles s frame type t)
  Takes s (data_message frame) t =
      (s.state ≡ running)
      × (length frame ≤ lib.max_frame)
      × (t ≡ record s { frames = s.frames ++ frame ∷ [] })

  -- Whatever comes behind the bytes, the session takes no message that they begin with.
  abbrev pub IsStuck : Session → Bytes → Type 0
  IsStuck s bs =
      (m : Message) (rest more : Bytes) (t : Session) → Begins m rest (bs ++ more) → ¬ Takes s m t

  -- A session reads bytes: it takes the messages in them, one after the other, until it is left with
  -- part of one, or stuck. If it is stuck an exception ends it, and nothing more is given to the
  -- callback or written.
  pub data Reads : Session → Bytes → Connection → Type 0 where
    leaves : (s : Session) (bs : Bytes) → IsPartial bs → Reads s bs (open_with s bs)
    breaks :
        {s t : Session} {bs : Bytes} {e : DnstapError}
        → IsStuck s bs
        → t.frames ≡ s.frames
        → t.written ≡ s.written
        → Reads s bs (closed_by e t)
    takes :
        {s t : Session} {bs rest : Bytes} {c : Connection} (m : Message)
        → Begins m rest bs
        → Takes s m t
        → Reads t rest c
        → Reads s bs c

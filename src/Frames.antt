-- ===== src/Frames.antt =====
-- src/inputs/dnstap/UnixFrameSession.h: the class `FrameSessionData`, which cuts the bytes that a
-- socket delivers in pieces into frames. What it calls of libfstrm and of the client's socket is a
-- parameter, `Fstrm`. A frame that the callback is given and a frame that is written to the client
-- are added to the session.
pub mod Buffer
pub mod Step
pub mod Chunks
pub mod Protocol
use pktvisor.Prelude.{
  ℕ, zero, suc, ◌+◌, ◌*◌, Bool, true, false, ◌&&◌, ◌||◌, not, Option, none, some, List, [], ◌∷◌,
  ◌++◌, if◌then◌else◌, ltb, leb, ◌==◌, length, take, drop,
}
use pktvisor.Metrics.Utf8.{Bytes}

-- `fstrm_control_type`
pub data ControlType : Type 0 where
  accept_frame start_frame stop_frame ready_frame finish_frame : ControlType

-- `FSTRM_READER_MAX_FRAME_SIZE_DEFAULT`, `FSTRM_CONTROL_FRAME_LENGTH_MAX`; the decoder of a control
-- frame, with its type if it has one; the match of its content type with the session's; the
-- encoding of a frame, with or without the content type; and whether a write succeeds, after those
-- written before.
pub record Fstrm : Type 0 where
  pub max_frame : ℕ
  pub max_control : ℕ
  pub decode : Bytes → Option ControlType
  pub match_content_type : Bytes → Bool
  pub encode : ControlType → Bool → Option Bytes
  pub write : List Bytes → Bytes → Bool

-- `FrameState`
pub data FrameState : Type 0 where
  new ready running finishing : FrameState

abbrev pub is_state : FrameState → FrameState → Bool
is_state new new = true
is_state ready ready = true
is_state running running = true
is_state finishing finishing = true
is_state _ _ = false

-- The causes of a `DnstapException`.
pub data DnstapError : Type 0 where
  start_out_of_order already_started after_stop no_start : DnstapError
  content_type_mismatch data_too_large control_too_large unparsable unable_to_send : DnstapError

pub record Session : Type 0 where
  pub is_bidir : Bool
  pub state : FrameState
  pub frames : List Bytes
  pub written : List Bytes

abbrev pub new_session : Session
new_session = record { is_bidir = false; state = new; frames = []; written = [] }

-- What a method leaves: the session, and the exception if it threw.
abbrev pub Thrown : Type 0
Thrown = Session × Option DnstapError

-- `_try_yield_frame`: it waits for more data, throws, or consumes a frame and leaves the bytes
-- behind it.
pub data Yield : Type 0 where
  waits : Yield
  throws : DnstapError → Session → Yield
  yields : Session → Bytes → Yield

-- `ntohl` of four bytes
unfoldable pub word : ℕ → ℕ → ℕ → ℕ → ℕ
word a b c d = ((a * 256 + b) * 256 + c) * 256 + d

unfoldable pub deliver : Session → Bytes → Session
deliver s frame = record s { frames = s.frames ++ frame ∷ [] }

-- A data frame of `len` bytes, at the start of the bytes after its length.
unfoldable pub data_frame : Fstrm → Session → ℕ → Bytes → Yield
data_frame lib s len more =
    if not (is_state s.state running)
    then throws no_start s
    else if ltb lib.max_frame len
    then throws data_too_large s
    else if leb len (length more)
    then yields (deliver s (take len more)) (drop len more)
    else waits

-- `_send_control_frame`
unfoldable pub send_control_frame : Fstrm → Session → ControlType → Bool → Thrown
send_control_frame lib s type with_content_type = elim (lib.encode type with_content_type) [
  | none ↦ (s, some unable_to_send)
  | some frame ↦
      if lib.write s.written frame
      then (record s { written = s.written ++ frame ∷ [] }, none)
      else (s, some unable_to_send)
]

-- The cases of `_decode_control_frame`.
unfoldable pub control : Fstrm → Session → ControlType → Bytes → Thrown
unfolding send_control_frame
control lib s start_frame frame =
    if (not s.is_bidir && not (is_state s.state new))
      || (s.is_bidir && not (is_state s.state ready))
    then (s, some start_out_of_order)
    else if not (lib.match_content_type frame)
    then (s, some content_type_mismatch)
    else (record s { state = running }, none)
control lib s ready_frame frame =
    if not (is_state s.state new)
    then (s, some already_started)
    else if not (lib.match_content_type frame)
    then (s, some content_type_mismatch)
    else send_control_frame lib (record s { state = ready; is_bidir = true }) accept_frame true
control lib s stop_frame frame =
    let s' : Session = record s { state = finishing } in
    if s.is_bidir then send_control_frame lib s' finish_frame false else (s', none)
control lib s accept_frame frame = (s, none)
control lib s finish_frame frame = (s, none)

unfoldable pub decode_control_frame : Fstrm → Session → Bytes → Thrown
unfolding control
decode_control_frame lib s frame = elim (lib.decode frame) [
  | none ↦ (s, some unparsable)
  | some type ↦ control lib s type frame
]

abbrev pub after_control : Thrown → Bytes → Yield
after_control (s, none) rest = yields s rest
after_control (s, some e) rest = throws e s

-- A control frame of `len` bytes, at the start of the bytes after its length.
unfoldable pub control_body : Fstrm → Session → ℕ → Bytes → Yield
unfolding decode_control_frame
control_body lib s len more =
    if ltb lib.max_control len
    then throws control_too_large s
    else if leb len (length more)
    then after_control (decode_control_frame lib s (take len more)) (drop len more)
    else waits

-- A control frame, at the start of the bytes after the escape code.
unfoldable pub control_frame : Fstrm → Session → Bytes → Yield
unfolding control_body word
control_frame lib s (a ∷ b ∷ c ∷ d ∷ more) = control_body lib s (word a b c d) more
control_frame lib s _ = waits

unfoldable pub try_yield_frame : Fstrm → Session → Bytes → Yield
unfolding data_frame control_frame word
try_yield_frame lib s (a ∷ b ∷ c ∷ d ∷ more) =
    if is_state s.state finishing
    then throws after_stop s
    else if word a b c d == 0
    then control_frame lib s more
    else data_frame lib s (word a b c d) more
try_yield_frame lib s _ = waits

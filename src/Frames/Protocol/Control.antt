-- ===== src/Frames/Protocol/Control.antt =====
-- The control frames of src/inputs/dnstap/UnixFrameSession.h against its protocol.
use pktvisor.Prelude.{
  ◌≤◌, ◌≡◌, refl, sym, subst, Bool, true, false, none, some, ◌⊎◌, inl, inr, Bool-cases,
  Option-cases, length, not, ◌&&◌, ◌||◌, if◌then◌else◌,
}
use pktvisor.Metrics.Utf8.{Bytes}
use pktvisor.Frames.{
  Fstrm, Session, FrameState, new, ready, running, finishing, is_state, Thrown, send_control_frame,
  control, ControlType, start_frame, ready_frame, stop_frame, accept_frame, finish_frame,
  decode_control_frame,
}
use pktvisor.Frames.Protocol.{control_message, Sends, Handles, Takes}

pub is_state_sound : (s t : FrameState) → is_state s t ≡ true → s ≡ t
is_state_sound new new h = refl
is_state_sound ready ready h = refl
is_state_sound running running h = refl
is_state_sound finishing finishing h = refl
is_state_sound new ready h = cc
is_state_sound new running h = cc
is_state_sound new finishing h = cc
is_state_sound ready new h = cc
is_state_sound ready running h = cc
is_state_sound ready finishing h = cc
is_state_sound running new h = cc
is_state_sound running ready h = cc
is_state_sound running finishing h = cc
is_state_sound finishing new h = cc
is_state_sound finishing ready h = cc
is_state_sound finishing running h = cc

is_state_refl : (s : FrameState) → is_state s s ≡ true
is_state_refl new = refl
is_state_refl ready = refl
is_state_refl running = refl
is_state_refl finishing = refl

-- A test that fails tells the states apart.
pub is_state_no : (s t : FrameState) → is_state s t ≡ false → ¬ (s ≡ t)
is_state_no s t h e = absurd (cc (h, subst (λ u. is_state s u ≡ true) e (is_state_refl s)))

module _ (lib : Fstrm) where
  -- What comes of a whole control frame: it is taken, or nothing could take it, and nothing is given
  -- or written.
  abbrev pub DecodeDoes : Session → Bytes → Thrown → Type 0
  DecodeDoes s frame (t, none) = Takes lib s (control_message frame) t
  DecodeDoes s frame (t, some e) =
      ((u : Session) → ¬ Takes lib s (control_message frame) u)
      × (t.frames ≡ s.frames)
      × (t.written ≡ s.written)

  -- The same, of the type that the frame has.
  abbrev ControlDoes : Session → Bytes → ControlType → Thrown → Type 0
  ControlDoes s frame type (t, none) = Handles lib s frame type t
  ControlDoes s frame type (t, some e) =
      ((u : Session) → ¬ Handles lib s frame type u)
      × (t.frames ≡ s.frames)
      × (t.written ≡ s.written)

  -- A control frame is sent, or nothing is written and it cannot be sent.
  abbrev SendDoes : ControlType → Bool → Session → Thrown → Type 0
  SendDoes type b s (t, none) = Sends lib type b s t
  SendDoes type b s (t, some e) =
      ((u : Session) → ¬ Sends lib type b s u) × (t.frames ≡ s.frames) × (t.written ≡ s.written)

  send_control_frame-Sends :
      (s : Session) (type : ControlType) (b : Bool)
      → SendDoes type b s (send_control_frame lib s type b)
  unfolding send_control_frame
  send_control_frame-Sends s type b = elim (Option-cases (lib.encode type b)) [
    | inl e ↦ rw (e, send_control_frame) ((λ u (frame, p, q, r). cc (e, p)), refl, refl)
    | inr (frame, e) ↦ elim (Bool-cases (lib.write s.written frame)) [
      | inl t ↦ rw (e, send_control_frame) (rw t (frame, e, t, refl))
      | inr f ↦
          rw (e, send_control_frame) (rw f ((λ u (frame', p, q, r). cc (e, p, f, q)), refl, refl))
    ]
  ]

  abbrev InOrder : Bool → FrameState → Type 0
  InOrder bidir state = ((state ≡ new) × (bidir ≡ false)) ⊎ ((state ≡ ready) × (bidir ≡ true))

  abbrev out_of_order : Bool → FrameState → Bool
  out_of_order bidir state =
      (not bidir && not (is_state state new)) || (bidir && not (is_state state ready))

  order_cases :
      (bidir : Bool) (state : FrameState)
      → ((out_of_order bidir state ≡ true) × (¬ InOrder bidir state))
        ⊎ ((out_of_order bidir state ≡ false) × InOrder bidir state)
  order_cases false new = inr (refl, inl (refl, refl))
  order_cases true ready = inr (refl, inr (refl, refl))
  order_cases false ready = inl (refl, λ h. elim h [ inl p ↦ cc (p.0) | inr p ↦ cc (p.1) ])
  order_cases false running = inl (refl, λ h. elim h [ inl p ↦ cc (p.0) | inr p ↦ cc (p.1) ])
  order_cases false finishing = inl (refl, λ h. elim h [ inl p ↦ cc (p.0) | inr p ↦ cc (p.1) ])
  order_cases true new = inl (refl, λ h. elim h [ inl p ↦ cc (p.1) | inr p ↦ cc (p.0) ])
  order_cases true running = inl (refl, λ h. elim h [ inl p ↦ cc (p.1) | inr p ↦ cc (p.0) ])
  order_cases true finishing = inl (refl, λ h. elim h [ inl p ↦ cc (p.1) | inr p ↦ cc (p.0) ])

  module _ (s : Session) (frame : Bytes) where
    abbrev stopped : Session
    stopped = record s { state = finishing }

    abbrev StopHandles : Bool → Type 0
    StopHandles b =
        ControlDoes s frame stop_frame
          (if b then send_control_frame lib stopped finish_frame false else (stopped, none))

    -- An answer that is sent, or cannot be.
    both_ways :
        s.is_bidir ≡ true
        → (o : Thrown) → SendDoes finish_frame false stopped o
        → ControlDoes s frame stop_frame o
    both_ways b (t, none) h = inr (b, h)
    both_ways b (t, some e) h =
        ((λ u v. elim v [ inl (f, w) ↦ cc (b, f) | inr (f, w) ↦ h.0 u w ]), h.1, h.2)

    accepts :
        lib.match_content_type frame ≡ true
        → s.state ≡ new
        → (o : Thrown) → SendDoes accept_frame true (record s { state = ready; is_bidir = true }) o
        → ControlDoes s frame ready_frame o
    accepts m n (t, none) h = (m, n, h)
    accepts m n (t, some e) h = ((λ u (_, _, w). h.0 u w), h.1, h.2)

    control-Handles : (type : ControlType) → ControlDoes s frame type (control lib s type frame)
    unfolding control
    control-Handles start_frame = elim (order_cases s.is_bidir s.state) [
      | inl (late, never) ↦ rw (late, control) ((λ u (_, o, _). never o), refl, refl)
      | inr (on_time, order) ↦ elim (Bool-cases (lib.match_content_type frame)) [
        | inr f ↦ rw (on_time, control) (rw f ((λ u (m, _, _). cc (m, f)), refl, refl))
        | inl t ↦ rw (on_time, control) (rw t (t, order, refl))
      ]
    ]
    control-Handles ready_frame = elim (Bool-cases (is_state s.state new)) [
      | inr started ↦
          rw (started, control) ((λ u (_, n, _). is_state_no s.state new started n), refl, refl)
      | inl fresh ↦ elim (Bool-cases (lib.match_content_type frame)) [
        | inr f ↦ rw (fresh, control) (rw f ((λ u (m, _, _). cc (m, f)), refl, refl))
        | inl t ↦
            rw (fresh, control)
              (rw t (
                accepts t (is_state_sound s.state new fresh) _
                  (send_control_frame-Sends _ accept_frame true)))
      ]
    ]
    control-Handles stop_frame = elim (Bool-cases s.is_bidir) [
      | inr f ↦ subst StopHandles (sym f) (inl (f, refl))
      | inl t ↦
          subst StopHandles (sym t)
            (both_ways t _ (send_control_frame-Sends stopped finish_frame false))
    ]
    control-Handles accept_frame = refl
    control-Handles finish_frame = refl

  pub decode_control_frame-Does :
      (s : Session) (frame : Bytes)
      → ¬ (s.state ≡ finishing)
      → length frame ≤ lib.max_control
      → DecodeDoes s frame (decode_control_frame lib s frame)
  unfolding decode_control_frame
  decode_control_frame-Does s frame on le = elim (Option-cases (lib.decode frame)) [
    | inl e ↦ rw (e, decode_control_frame) ((λ u (_, _, (type, p, q)). cc (e, p)), refl, refl)
    | inr (type, e) ↦
        rw (e, decode_control_frame)
          (go (control lib s type frame) type e (control-Handles s frame type))
  ]
    where
      go :
          (o : Thrown) (type : ControlType)
          → lib.decode frame ≡ some type
          → ControlDoes s frame type o
          → DecodeDoes s frame o
      go (t, none) type e h = (on, le, (type, e, h))
      go (t, some x) type e h = (
        (λ u (_, _, (type', p, q)). h.0 u (subst (λ y. Handles lib s frame y u) (cc (p, e)) q)),
        h.1,
        h.2,
      )

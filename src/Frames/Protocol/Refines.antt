-- ===== src/Frames/Protocol/Refines.antt =====
-- The reader of src/inputs/dnstap/UnixFrameSession.h against its protocol.
use pktvisor.Prelude.{
  ℕ, zero, suc, ◌+◌, ◌≤◌, ◌<◌, ◌≡◌, refl, sym, subst, false, none, some, List, [], ◌∷◌, ◌++◌, inl,
  inr, arith, Bool-cases, length, take, drop, leb, ltb, ◌==◌, length-take, length-append,
  take-append-drop,
}
use pktvisor.Metrics.Utf8.{Bytes}
use pktvisor.Frames.{
  Fstrm, Session, running, finishing, Yield, waits, throws, yields, word, is_state, Thrown,
  data_frame, deliver, after_control, control_body, control_frame, try_yield_frame, new_session,
}
use pktvisor.Frames.Buffer.{connected, drain, receive_socket_data, read, read_all}
use pktvisor.Frames.Chunks.{concat, read_all-concat}
use pktvisor.Frames.Protocol.{
  Message, control_message, data_message, Begins, Takes, IsPartial, IsStuck, Reads, leaves, breaks,
  takes,
}
use pktvisor.Frames.Protocol.Control.{
  is_state_sound, is_state_no, DecodeDoes, decode_control_frame-Does,
}

module _ (lib : Fstrm) where
  -- What a round of the reader may do.
  abbrev Does : Session → Bytes → Yield → Type 0
  Does s bs waits = IsPartial bs
  Does s bs (throws e t) = IsStuck lib s bs × (t.frames ≡ s.frames) × (t.written ≡ s.written)
  Does s bs (yields t rest) = (m : Message) × Begins m rest bs × Takes lib s m t

  take_prefix :
      (frame rest more bs : Bytes)
      → length frame ≤ length bs
      → bs ++ more ≡ frame ++ rest
      → take (length frame) bs ≡ frame
  take_prefix [] rest more bs h e = refl
  take_prefix (x ∷ frame) rest more [] h e = absurd (omega arith)
  take_prefix (x ∷ frame) rest more (b ∷ bs) h e =
      let p : b ≡ x = cc in
      let q : bs ++ more ≡ frame ++ rest = cc in
      cc (p, take_prefix frame rest more bs (omega arith) q)

  -- A control frame is behind a length of 0 and a length of its own.
  control_escape :
      (frame rest : Bytes) (a b c d : ℕ) (bs : Bytes)
      → Begins (control_message frame) rest (a ∷ b ∷ c ∷ d ∷ bs)
      → (word a b c d ≡ 0) × (4 ≤ length bs)
  control_escape frame rest a b c d [] h = absurd h
  control_escape frame rest a b c d (e ∷ []) h = absurd h
  control_escape frame rest a b c d (e ∷ f ∷ []) h = absurd h
  control_escape frame rest a b c d (e ∷ f ∷ g ∷ []) h = absurd h
  control_escape frame rest a b c d (e ∷ f ∷ g ∷ i ∷ bs) h = (h.0, omega arith)

  no_length-IsPartial :
      (a b c d : ℕ) (bs : Bytes) → word a b c d ≡ 0 → length bs < 4 → IsPartial (a ∷ b ∷ c ∷ d ∷ bs)
  no_length-IsPartial a b c d bs h short (data_message frame) rest p =
      absurd (omega (arith, p.0, h))
  no_length-IsPartial a b c d bs h short (control_message frame) rest p =
      absurd (omega (arith, short, (control_escape frame rest a b c d bs p).1))

  module _ (s : Session) (a b c d n : ℕ) (bs : Bytes) (size : word a b c d ≡ n) where
    -- Behind a length that is not 0 only a data frame of that length can be taken.
    data-IsStuck :
        0 < n → (s.state ≡ running → ¬ (n ≤ lib.max_frame)) → IsStuck lib s (a ∷ b ∷ c ∷ d ∷ bs)
    data-IsStuck h never (data_message frame) rest more t (p, q, e) (r, le, u) =
        never r (omega (arith, q, size, le))
    data-IsStuck h never (control_message frame) rest more t p q =
        absurd (omega (arith, size, h, (control_escape frame rest a b c d (bs ++ more) p).0))

    data-IsPartial : 0 < n → length bs < n → IsPartial (a ∷ b ∷ c ∷ d ∷ bs)
    data-IsPartial h short (data_message frame) rest (p, q, e) =
        absurd (omega (arith, size, short, q, length_of e))
      where
        length_of : bs ≡ frame ++ rest → length bs ≡ length frame + length rest
        length_of e = rw (e, length-append frame rest)
    data-IsPartial h short (control_message frame) rest p =
        absurd (omega (arith, size, h, (control_escape frame rest a b c d bs p).0))

    data_frame-Does : (n == 0) ≡ false → Does s (a ∷ b ∷ c ∷ d ∷ bs) (data_frame lib s n bs)
    unfolding data_frame deliver
    data_frame-Does h = elim (Bool-cases (is_state s.state running)) [
      | inr idle ↦
          rw (idle, data_frame)
            (
              data-IsStuck (ground arith) (λ r. absurd (is_state_no s.state running idle r)),
              refl,
              refl,
            )
      | inl runs ↦ elim (Bool-cases (ltb lib.max_frame n)) [
        | inl large ↦
            rw (runs, large, data_frame)
              (data-IsStuck (ground arith) (λ r le. absurd (ground arith)), refl, refl)
        | inr small ↦ elim (Bool-cases (leb n (length bs))) [
          | inl whole ↦
              rw (runs, small, whole, data_frame)
                (
                  data_message (take n bs),
                  (
                    ground arith,
                    rw (size, length-take n bs) (ground arith),
                    sym (take-append-drop n bs),
                  ),
                  (is_state_sound s.state running runs, rw (length-take n bs) (ground arith), refl),
                )
          | inr part ↦
              rw (runs, small, part, data_frame) (data-IsPartial (ground arith) (ground arith))
        ]
      ]
    ]

  module _ (s : Session) (a b c d e f g i n : ℕ) (bs : Bytes) (escape : word a b c d ≡ 0)
      (size : word e f g i ≡ n) where
    abbrev frame_bytes : Bytes
    frame_bytes = a ∷ b ∷ c ∷ d ∷ e ∷ f ∷ g ∷ i ∷ bs

    -- Behind the length 0 only a control frame of the length behind it can be taken.
    control-IsStuck :
        ((frame rest more : Bytes) (t : Session)
          → n ≡ length frame
          → bs ++ more ≡ frame ++ rest
          → ¬ Takes lib s (control_message frame) t)
        → IsStuck lib s frame_bytes
    control-IsStuck never (data_message frame) rest more t p q = absurd (omega (arith, p.0, escape))
    control-IsStuck never (control_message frame) rest more t (p, q, u) v =
        never frame rest more t (omega (arith, q, size)) u v

    control-IsPartial : length bs < n → IsPartial frame_bytes
    control-IsPartial short (data_message frame) rest p = absurd (omega (arith, p.0, escape))
    control-IsPartial short (control_message frame) rest (p, q, u) =
        absurd (omega (arith, size, short, q, length_of u))
      where
        length_of : bs ≡ frame ++ rest → length bs ≡ length frame + length rest
        length_of u = rw (u, length-append frame rest)

    after_control-Does :
        (o : Thrown)
        → n ≤ length bs
        → DecodeDoes lib s (take n bs) o
        → Does s frame_bytes (after_control o (drop n bs))
    after_control-Does (t, none) le h = (
      control_message (take n bs),
      (escape, rw (size, length-take n bs) (omega arith), sym (take-append-drop n bs)),
      h,
    )
    after_control-Does (t, some e) le h = (
      control-IsStuck (λ frame rest more u q v.
          subst (λ g. ¬ Takes lib s (control_message g) u) (whole_frame frame rest more q v)
            (h.0 u)),
      h.1,
      h.2,
    )
      where
        whole_frame :
            (frame rest more : Bytes)
            → n ≡ length frame
            → bs ++ more ≡ frame ++ rest
            → take n bs ≡ frame
        whole_frame frame rest more q v =
            rw (q) (take_prefix frame rest more bs (omega (arith, q, le)) v)

    control_body-Does : ¬ (s.state ≡ finishing) → Does s frame_bytes (control_body lib s n bs)
    unfolding control_body
    control_body-Does on = elim (Bool-cases (ltb lib.max_control n)) [
      | inl large ↦
          rw (large, control_body)
            (control-IsStuck (λ frame rest more u q v w. absurd (ground (arith, w.1))), refl, refl)
      | inr small ↦ elim (Bool-cases (leb n (length bs))) [
        | inl whole ↦
            rw (small, whole, control_body)
              (after_control-Does _ (ground arith) (
                decode_control_frame-Does lib s (take n bs) on
                  (rw (length-take n bs) (ground arith))))
        | inr part ↦ rw (small, part, control_body) (control-IsPartial (ground arith))
      ]
    ]

  control_frame-Does :
      (s : Session) (a b c d : ℕ) (bs : Bytes)
      → ¬ (s.state ≡ finishing)
      → word a b c d ≡ 0
      → Does s (a ∷ b ∷ c ∷ d ∷ bs) (control_frame lib s bs)
  unfolding control_frame
  control_frame-Does s a b c d [] on h = no_length-IsPartial a b c d _ h (omega arith)
  control_frame-Does s a b c d (e ∷ []) on h = no_length-IsPartial a b c d _ h (omega arith)
  control_frame-Does s a b c d (e ∷ f ∷ []) on h = no_length-IsPartial a b c d _ h (omega arith)
  control_frame-Does s a b c d (e ∷ f ∷ g ∷ []) on h = no_length-IsPartial a b c d _ h (omega arith)
  control_frame-Does s a b c d (e ∷ f ∷ g ∷ i ∷ bs) on h =
      control_body-Does s a b c d e f g i (word e f g i) bs h refl on

  tiny-IsPartial : (bs : Bytes) → length bs < 4 → IsPartial bs
  tiny-IsPartial [] h (data_message frame) rest p = p
  tiny-IsPartial [] h (control_message frame) rest p = p
  tiny-IsPartial (a ∷ []) h (data_message frame) rest p = p
  tiny-IsPartial (a ∷ []) h (control_message frame) rest p = p
  tiny-IsPartial (a ∷ b ∷ []) h (data_message frame) rest p = p
  tiny-IsPartial (a ∷ b ∷ []) h (control_message frame) rest p = p
  tiny-IsPartial (a ∷ b ∷ c ∷ []) h (data_message frame) rest p = p
  tiny-IsPartial (a ∷ b ∷ c ∷ []) h (control_message frame) rest p = p
  tiny-IsPartial (a ∷ b ∷ c ∷ d ∷ bs) h m rest p = absurd (omega arith)

  finished-IsStuck : (s : Session) (bs : Bytes) → s.state ≡ finishing → IsStuck lib s bs
  finished-IsStuck s bs e (data_message frame) rest more t p q = cc (e, q.0)
  finished-IsStuck s bs e (control_message frame) rest more t p q = q.0 e

  try_yield_frame-Does : (s : Session) (bs : Bytes) → Does s bs (try_yield_frame lib s bs)
  unfolding try_yield_frame
  try_yield_frame-Does s [] = tiny-IsPartial [] (omega arith)
  try_yield_frame-Does s (a ∷ []) = tiny-IsPartial (a ∷ []) (omega arith)
  try_yield_frame-Does s (a ∷ b ∷ []) = tiny-IsPartial (a ∷ b ∷ []) (omega arith)
  try_yield_frame-Does s (a ∷ b ∷ c ∷ []) = tiny-IsPartial (a ∷ b ∷ c ∷ []) (omega arith)
  try_yield_frame-Does s (a ∷ b ∷ c ∷ d ∷ bs) = elim (Bool-cases (is_state s.state finishing)) [
    | inl over ↦
        rw (over, try_yield_frame)
          (
            finished-IsStuck s (a ∷ b ∷ c ∷ d ∷ bs) (is_state_sound s.state finishing over),
            refl,
            refl,
          )
    | inr on ↦ elim (Bool-cases (word a b c d == 0)) [
      | inl escape ↦
          rw (on, escape, try_yield_frame)
            (control_frame-Does s a b c d bs (is_state_no s.state finishing on) (ground arith))
      | inr size ↦
          rw (on, size, try_yield_frame) (data_frame-Does s a b c d (word a b c d) bs refl size)
    ]
  ]

  -- A message takes bytes of its own.
  Begins-length : (m : Message) (rest bs : Bytes) → Begins m rest bs → length rest < length bs
  Begins-length (data_message frame) rest (a ∷ b ∷ c ∷ d ∷ bs) (p, q, e) =
      rw (e, length-append frame rest) (omega arith)
  Begins-length (control_message frame) rest (a ∷ b ∷ c ∷ d ∷ e ∷ f ∷ g ∷ i ∷ bs) (p, q, u) =
      rw (u, length-append frame rest) (omega arith)
  Begins-length m rest bs p = absurd p

  drain-Reads :
      (n : ℕ) (s : Session) (bs : Bytes) → length bs ≤ n → Reads lib s bs (drain lib n s bs)
  unfolding drain
  drain-Reads zero s [] h = leaves s [] (tiny-IsPartial [] (omega arith))
  drain-Reads zero s (b ∷ bs) h = absurd (omega arith)
  drain-Reads (suc n) s bs h =
      go (try_yield_frame lib s bs) refl (try_yield_frame-Does s bs) (λ s' cs. drain-Reads n s' cs)
    where
      go :
          (y : Yield)
          → try_yield_frame lib s bs ≡ y
          → Does s bs y
          → ((s' : Session) (cs : Bytes) → length cs ≤ n → Reads lib s' cs (drain lib n s' cs))
          → Reads lib s bs (drain lib (suc n) s bs)
      go waits e p ih = rw (e, drain) (leaves s bs p)
      go (throws x t) e (p, q, r) ih = rw (e, drain) (breaks p q r)
      go (yields t []) e (m, p, q) ih =
          rw (e, drain) (takes m p q (leaves t [] (tiny-IsPartial [] (omega arith))))
      go (yields t (c ∷ cs)) e (m, p, q) ih =
          rw (e, drain)
            (takes m p q (ih t (c ∷ cs) (omega (arith, h, Begins-length m (c ∷ cs) bs p))))

  -- However the stream of a new session is cut into reads of the socket, the session reads it as the
  -- protocol says: it takes the messages in it one after the other, each as its kind, its state and
  -- its content type allow and with its answer, until the session is left with part of a message, or
  -- until no message that could follow would be taken, or its answer sent; then an exception ends it,
  -- and nothing more is given to the callback or written.
  pub read_all-Reads :
      (chunks : List Bytes) → Reads lib new_session (concat chunks) (read_all lib connected chunks)
  unfolding read receive_socket_data
  read_all-Reads chunks =
      rw (read_all-concat lib chunks) (drain-Reads _ new_session (concat chunks) (omega arith))

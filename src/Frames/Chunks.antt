-- ===== src/Frames/Chunks.antt =====
-- How the bytes of a stream are cut into reads makes no difference to the sessions of
-- src/inputs/dnstap/UnixFrameSession.h.
use pktvisor.Prelude.{
  ℕ, zero, suc, ◌≤◌, ◌<◌, ◌≡◌, refl, sym, ap, ◌∙◌, List, [], ◌∷◌, ◌++◌, arith, length, append-nil,
  append_assoc, subst,
}
use pktvisor.Metrics.Utf8.{Bytes}
use pktvisor.Frames.{Fstrm, Session, Yield, waits, throws, yields, try_yield_frame}
use pktvisor.Frames.Buffer.{
  Connection, open_with, closed_by, drain, receive_socket_data, read, read_all, connected,
}
use pktvisor.Frames.Step.{ThenMore, Shorter, try_yield_frame-append, try_yield_frame-Shorter}

abbrev pub concat : List Bytes → Bytes
concat [] = []
concat (xs ∷ xss) = xs ++ concat xss

module _ (lib : Fstrm) where
  Shorter-mono : (y : Yield) (n k : ℕ) → n ≤ k → Shorter y n → Shorter y k
  Shorter-mono waits n k l h = tt
  Shorter-mono (throws e s) n k l h = tt
  Shorter-mono (yields s rest) n k l h = omega arith

  drain_nil : (n : ℕ) (s : Session) → drain lib n s [] ≡ open_with s []
  unfolding drain try_yield_frame
  drain_nil zero s = refl
  drain_nil (suc n) s = refl

  -- What a round of `drain` does after its step, with `n` rounds left.
  abbrev resume : ℕ → Session → Bytes → Yield → Connection
  resume n s buffer waits = open_with s buffer
  resume n s buffer (throws e s') = closed_by e s'
  resume n s buffer (yields s' []) = open_with s' []
  resume n s buffer (yields s' (c ∷ cs)) = drain lib n s' (c ∷ cs)

  drain-suc :
      (n : ℕ) (s : Session) (bs : Bytes)
      → drain lib (suc n) s bs ≡ resume n s bs (try_yield_frame lib s bs)
  unfolding drain
  drain-suc n s bs = go (try_yield_frame lib s bs) refl
    where
      go :
          (y : Yield)
          → try_yield_frame lib s bs ≡ y
          → drain lib (suc n) s bs ≡ resume n s bs (try_yield_frame lib s bs)
      go waits e = rw (e, drain) refl
      go (throws x s') e = rw (e, drain) refl
      go (yields s' []) e = rw (e, drain) refl
      go (yields s' (c ∷ cs)) e = rw (e, drain) refl

  resume_fuel :
      (n m : ℕ) (s : Session) (bs : Bytes) (y : Yield)
      → ((s' : Session) (cs : Bytes)
          → length cs ≤ n
          → length cs ≤ m
          → drain lib n s' cs ≡ drain lib m s' cs)
      → Shorter y (suc n)
      → Shorter y (suc m)
      → resume n s bs y ≡ resume m s bs y
  resume_fuel n m s bs waits rest l k = refl
  resume_fuel n m s bs (throws x s') rest l k = refl
  resume_fuel n m s bs (yields s' []) rest l k = refl
  resume_fuel n m s bs (yields s' (c ∷ cs)) rest l k = rest s' (c ∷ cs) (omega arith) (omega arith)

  drain_fuel :
      (n m : ℕ) (s : Session) (bs : Bytes)
      → length bs ≤ n
      → length bs ≤ m
      → drain lib n s bs ≡ drain lib m s bs
  drain_fuel n m s [] l k = drain_nil n s ∙ sym (drain_nil m s)
  drain_fuel zero m s (b ∷ bs) l k = absurd (omega arith)
  drain_fuel (suc n) zero s (b ∷ bs) l k = absurd (omega arith)
  drain_fuel (suc n) (suc m) s (b ∷ bs) l k =
      let step = try_yield_frame-Shorter lib s (b ∷ bs) in
      drain-suc n s (b ∷ bs)
      ∙ resume_fuel n m s (b ∷ bs) _ (λ s' cs. drain_fuel n m s' cs) (Shorter-mono _ _ _ l step)
          (Shorter-mono _ _ _ k step)
      ∙ sym (drain-suc m s (b ∷ bs))

  resume-append :
      (n m : ℕ) (s : Session) (bs more : Bytes) (y y' : Yield)
      → ((s' : Session) (cs : Bytes)
          → length cs ≤ n
          → length (cs ++ more) ≤ m
          → drain lib m s' (cs ++ more) ≡ read lib (drain lib n s' cs) more)
      → resume m s (bs ++ more) y' ≡ read lib (open_with s bs) more
      → ThenMore y y' more
      → Shorter y (suc n)
      → Shorter y' (suc m)
      → resume m s (bs ++ more) y' ≡ read lib (resume n s bs y) more
  unfolding read receive_socket_data
  resume-append n m s bs more waits y' rest same t l k = same
  resume-append n m s bs more (throws x s') y' rest same t l k = rw t
  resume-append n m s bs [] (yields s' []) y' rest same t l k = rw (t, drain_nil 0 s') refl
  resume-append n m s bs (x ∷ xs) (yields s' []) y' rest same t l k =
      let more_left : length (x ∷ xs) < suc m = subst (λ z. Shorter z (suc m)) t k in
      rw t (drain_fuel m (length (x ∷ xs)) s' (x ∷ xs) (omega arith) (omega arith))
  resume-append n m s bs more (yields s' (c ∷ cs)) y' rest same t l k =
      let more_left : length (c ∷ cs ++ more) < suc m = subst (λ z. Shorter z (suc m)) t k in
      rw t (rest s' (c ∷ cs) (omega arith) (omega arith))

  drain-append :
      (n m : ℕ) (s : Session) (bs more : Bytes)
      → length bs ≤ n
      → length (bs ++ more) ≤ m
      → drain lib m s (bs ++ more) ≡ read lib (drain lib n s bs) more
  unfolding read receive_socket_data
  drain-append n m s [] more l k =
      drain_fuel m (length more) s more k (omega arith)
      ∙ ap (λ c. read lib c more) (sym (drain_nil n s))
  drain-append zero m s (b ∷ bs) more l k = absurd (omega arith)
  drain-append (suc n) zero s (b ∷ bs) more l k = absurd (omega arith)
  drain-append (suc n) (suc m) s (b ∷ bs) more l k =
      let whole = b ∷ bs ++ more in
      drain-suc m s whole
      ∙ resume-append n m s (b ∷ bs) more _ _ (λ s' cs. drain-append n m s' cs more)
          (sym (drain-suc m s whole) ∙ drain_fuel (suc m) (length whole) s whole k (omega arith))
          (try_yield_frame-append lib s more (b ∷ bs))
          (Shorter-mono _ _ _ l (try_yield_frame-Shorter lib s (b ∷ bs)))
          (Shorter-mono _ _ _ k (try_yield_frame-Shorter lib s whole))
      ∙ ap (λ c. read lib c more) (sym (drain-suc n s (b ∷ bs)))

  read-append :
      (c : Connection) (xs ys : Bytes) → read lib c (xs ++ ys) ≡ read lib (read lib c xs) ys
  unfolding read receive_socket_data
  read-append (open_with s buffer) xs ys =
      ap (λ b. drain lib (length b) s b) (sym (append_assoc buffer xs ys))
      ∙ drain-append _ _ s (buffer ++ xs) ys (omega arith) (omega arith)
  read-append (closed_by e s) xs ys = refl

  read_all_from :
      (c : Connection) (xs : Bytes) (chunks : List Bytes)
      → read_all lib (read lib c xs) chunks ≡ read lib c (xs ++ concat chunks)
  unfolding read_all
  read_all_from c xs [] = ap (read lib c) (sym (append-nil xs))
  read_all_from c xs (chunk ∷ chunks) =
      ap (λ d. read_all lib d chunks) (sym (read-append c xs chunk))
      ∙ read_all_from c (xs ++ chunk) chunks
      ∙ ap (read lib c) (append_assoc xs chunk (concat chunks))

  -- However the bytes of a stream are cut into reads of the socket, the session ends the same: with
  -- the same frames given to the callback, the same frames written, the same state, the same bytes
  -- left over and the same exception, if one ended it.
  pub read_all-concat :
      (chunks : List Bytes) → read_all lib connected chunks ≡ read lib connected (concat chunks)
  unfolding read receive_socket_data drain
  read_all-concat chunks = read_all_from connected [] chunks

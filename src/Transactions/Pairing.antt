-- ===== src/Transactions/Pairing.antt =====
-- Which transactions of libs/visor_transaction/TransactionManager.h an answer finds.
use pktvisor.Prelude.{
  ◌+◌, ◌≤◌, ◌<◌, arith, ◌≡◌, refl, sym, subst, ap, ◌∙◌, Bool, true, false, ◌||◌, Option, none, some,
  List, [], ◌∷◌, inl, inr, Bool-cases, if◌then◌else◌, Key, find, erase, IsUnique, find-erase_same,
  find-erase_other, find-put_same, find-put_other, erase-IsUnique, put-IsUnique,
}
use pktvisor.Metrics.Counter.{Timespec}
use pktvisor.Transactions.{
  Transaction, not_exist, TransactionManager, start_transaction, judge, maybe_end_transaction,
  is_old, old_ids, erase_all, purge_old_transactions,
}

pub data XactCall (I T : Type 0) : Type 0 where
  begins : I → Transaction T → XactCall I T
  answers : I → Timespec → XactCall I T
  purges : Timespec → XactCall I T

module _ {I : Type 0} ⦃key : Key I⦄ where
  abbrev listed : I → List I → Bool
  listed id [] = false
  listed id (j ∷ js) = key.same j id || listed id js

if_none : {A : Type 0} (b : Bool) (o : Option A) → o ≡ none → (if b then none else o) ≡ none
if_none true o h = refl
if_none false o h = h

module _ {I T : Type 0} ⦃key : Key I⦄ where
  unfoldable pub xact_call : TransactionManager I T → XactCall I T → TransactionManager I T
  xact_call m (begins id t) = start_transaction m id t
  xact_call m (answers id end_ts) = (maybe_end_transaction m id end_ts).0
  xact_call m (purges now) = (purge_old_transactions m now).0

  unfoldable pub xact_run : TransactionManager I T → List (XactCall I T) → TransactionManager I T
  unfolding xact_call
  xact_run m [] = m
  xact_run m (c ∷ cs) = xact_run (xact_call m c) cs

  -- The calls concern other transactions, or purge while this one is not old.
  abbrev pub Avoids : TransactionManager I T → I → Transaction T → List (XactCall I T) → Type 0
  Avoids m id t [] = Unit
  Avoids m id t (begins j u ∷ cs) = (key.same j id ≡ false) × Avoids m id t cs
  Avoids m id t (answers j e ∷ cs) = (key.same j id ≡ false) × Avoids m id t cs
  Avoids m id t (purges now ∷ cs) = (is_old m now t ≡ false) × Avoids m id t cs

  find-erase_all :
      (id : I) (ids : List I) (ts : List (I × Transaction T))
      → find id (erase_all ids ts) ≡ (if listed id ids then none else find id ts)
  unfolding erase_all
  find-erase_all id [] ts = refl
  find-erase_all id (j ∷ js) ts = elim (Bool-cases (key.same j id)) [
    | inl t ↦ rw t (
        find-erase_all id js (erase j ts)
        ∙ if_none (listed id js) _ (
            subst (λ i. find id (erase i ts) ≡ none) (sym (key.same_sound j id t))
              (find-erase_same id ts)))
    | inr f ↦ rw f (find-erase_all id js (erase j ts) ∙ rw (find-erase_other j id ts f) refl)
  ]

  erase_all-IsUnique :
      (ids : List I) (ts : List (I × Transaction T)) → IsUnique ts → IsUnique (erase_all ids ts)
  unfolding erase_all
  erase_all-IsUnique [] ts v = v
  erase_all-IsUnique (j ∷ js) ts v = erase_all-IsUnique js (erase j ts) (erase-IsUnique j ts v)

  listed_absent :
      (m : TransactionManager I T) (now : Timespec) (id : I) (ts : List (I × Transaction T))
      → find id ts ≡ none
      → listed id (old_ids m now ts) ≡ false
  unfolding old_ids find
  listed_absent m now id [] h = refl
  listed_absent m now id ((j, u) ∷ ts) h = elim (Bool-cases (key.same j id)) [
    | inl t ↦ absurd (cc (rw (t, find) at h))
    | inr f ↦ elim (Bool-cases (is_old m now u)) [
      | inl old ↦ rw (old, old_ids) (rw f (listed_absent m now id ts (rw (f, find) at h)))
      | inr new ↦ rw (new, old_ids) (listed_absent m now id ts (rw (f, find) at h))
    ]
  ]

  listed_old :
      (m : TransactionManager I T) (now : Timespec) (id : I) (t : Transaction T)
      (ts : List (I × Transaction T))
      → IsUnique ts
      → find id ts ≡ some t
      → listed id (old_ids m now ts) ≡ is_old m now t
  unfolding old_ids find
  listed_old m now id t [] v h = cc
  listed_old m now id t ((j, u) ∷ ts) v h = elim (Bool-cases (key.same j id)) [
    | inl s ↦
        let e : u ≡ t = cc (rw (s, find) at h) in
        let gone = subst (λ i. find i ts ≡ none) (key.same_sound j id s) v.0 in
        elim (Bool-cases (is_old m now u)) [
          | inl old ↦ rw (old, old_ids) (rw s (sym (subst (λ w. is_old m now w ≡ true) e old)))
          | inr new ↦
              rw (new, old_ids)
                (listed_absent m now id ts gone ∙ sym (subst (λ w. is_old m now w ≡ false) e new))
        ]
    | inr f ↦ elim (Bool-cases (is_old m now u)) [
      | inl old ↦ rw (old, old_ids) (rw f (listed_old m now id t ts v.1 (rw (f, find) at h)))
      | inr new ↦ rw (new, old_ids) (listed_old m now id t ts v.1 (rw (f, find) at h))
    ]
  ]

  -- The transaction is open, under the same settings.
  record Open (m m' : TransactionManager I T) (id : I) (t : Transaction T) : Type 0 where
    opened : find id m'.transactions ≡ some t
    unique : IsUnique m'.transactions
    same_secs : m'.ttl_secs ≡ m.ttl_secs
    same_ms : m'.ttl_ms ≡ m.ttl_ms

  answers-Open :
      (m m' : TransactionManager I T) (id j : I) (t : Transaction T) (e : Timespec)
      → key.same j id ≡ false
      → Open m m' id t
      → Open m (maybe_end_transaction m' j e).0 id t
  unfolding maybe_end_transaction
  answers-Open m m' id j t e h v = go (find j m'.transactions) refl
    where
      go :
          (o : Option (Transaction T))
          → find j m'.transactions ≡ o
          → Open m (maybe_end_transaction m' j e).0 id t
      go none q = rw (q, maybe_end_transaction) v
      go (some u) q =
          rw (q, maybe_end_transaction)
            (record {
              opened = find-erase_other j id m'.transactions h ∙ v.opened;
              unique = erase-IsUnique j m'.transactions v.unique;
              same_secs = v.same_secs;
              same_ms = v.same_ms;
            })

  same_is_old :
      (m m' : TransactionManager I T) (now : Timespec) (t : Transaction T)
      → m'.ttl_secs ≡ m.ttl_secs
      → is_old m now t ≡ is_old m' now t
  unfolding is_old
  same_is_old m m' now t h = rw h refl

  xact_run-Open :
      (m m' : TransactionManager I T) (id : I) (t : Transaction T) (cs : List (XactCall I T))
      → Avoids m id t cs
      → Open m m' id t
      → Open m (xact_run m' cs) id t
  unfolding xact_run xact_call start_transaction purge_old_transactions
  xact_run-Open m m' id t [] a v = v
  xact_run-Open m m' id t (begins j u ∷ cs) a v =
      xact_run-Open m (start_transaction m' j u) id t cs a.1 (record {
        opened = find-put_other j id u m'.transactions a.0 ∙ v.opened;
        unique = put-IsUnique j u m'.transactions v.unique;
        same_secs = v.same_secs;
        same_ms = v.same_ms;
      })
  xact_run-Open m m' id t (answers j e ∷ cs) a v =
      xact_run-Open m (maybe_end_transaction m' j e).0 id t cs a.1
        (answers-Open m m' id j t e a.0 v)
  xact_run-Open m m' id t (purges now ∷ cs) a v =
      let ids = old_ids m' now m'.transactions in
      let kept : listed id ids ≡ false =
        listed_old m' now id t m'.transactions v.unique v.opened
        ∙ sym (same_is_old m m' now t v.same_secs)
        ∙ a.0 in
      xact_run-Open m (purge_old_transactions m' now).0 id t cs a.1 (record {
        opened = find-erase_all id ids m'.transactions ∙ rw kept v.opened;
        unique = erase_all-IsUnique ids m'.transactions v.unique;
        same_secs = v.same_secs;
        same_ms = v.same_ms;
      })

  judge_same :
      (m m' : TransactionManager I T) (t : Transaction T) (e : Timespec)
      → m'.ttl_secs ≡ m.ttl_secs
      → m'.ttl_ms ≡ m.ttl_ms
      → judge m' t e ≡ judge m t e
  unfolding judge
  judge_same m m' t e h k = rw (h, k) refl

  -- A started transaction is found by its answer and by no second one: whatever calls come in
  -- between that start and answer other transactions, or purge at a time when this one is not yet
  -- old, the answer gets the transaction that was started, judged by the time to live, and every
  -- later answer finds none.
  pub answered_once :
      (m : TransactionManager I T) (id : I) (t : Transaction T) (cs : List (XactCall I T))
      (first second : Timespec)
      → IsUnique m.transactions
      → Avoids m id t cs
      → let r = maybe_end_transaction (xact_run (start_transaction m id t) cs) id first in
        (r.1 ≡ judge m t first) × ((maybe_end_transaction r.0 id second).1 ≡ not_exist)
  unfolding maybe_end_transaction start_transaction
  answered_once m id t cs first second u a =
      let m' = xact_run (start_transaction m id t) cs in
      let v : Open m m' id t = xact_run-Open m (start_transaction m id t) id t cs a (record {
        opened = find-put_same id t m.transactions;
        unique = put-IsUnique id t m.transactions u;
        same_secs = refl;
        same_ms = refl;
      }) in
      rw (v.opened, maybe_end_transaction)
        (
          judge_same m m' t first v.same_secs v.same_ms,
          rw (find-erase_same id m'.transactions, maybe_end_transaction) refl,
        )

  purged :
      (m : TransactionManager I T) (now : Timespec) (id : I) (t : Transaction T)
      → IsUnique m.transactions
      → find id m.transactions ≡ some t
      → find id (purge_old_transactions m now).0.transactions
        ≡ (if is_old m now t then none else some t)
  unfolding purge_old_transactions
  purged m now id t v h =
      find-erase_all id (old_ids m now m.transactions) m.transactions
      ∙ rw (listed_old m now id t m.transactions v h, h) refl

  -- A purge takes away a transaction, and an answer then finds none, exactly if at the purge the
  -- seconds of the time to live have passed since the second that it started in; otherwise the
  -- answer finds it, judged as if there had been no purge.
  pub maybe_end-purge :
      (m : TransactionManager I T) (now : Timespec) (id : I) (t : Transaction T) (end_ts : Timespec)
      → IsUnique m.transactions
      → find id m.transactions ≡ some t
      → let r = maybe_end_transaction (purge_old_transactions m now).0 id end_ts in
        (t.start_ts.tv_sec + m.ttl_secs ≤ now.tv_sec → r.1 ≡ not_exist)
        × (now.tv_sec < t.start_ts.tv_sec + m.ttl_secs
            → (r.1 ≡ judge m t end_ts) × (r.1 ≡ (maybe_end_transaction m id end_ts).1))
  unfolding maybe_end_transaction is_old
  maybe_end-purge m now id t end_ts v h =
      let m' = (purge_old_transactions m now).0 in
      (
        λ late.
            let old : is_old m now t ≡ true = ground arith in
            let e = purged m now id t v h ∙ ap (λ b. if b then none else some t) old in
            rw (e, maybe_end_transaction) refl,
        λ early.
            let young : is_old m now t ≡ false = ground arith in
            let e = purged m now id t v h ∙ ap (λ b. if b then none else some t) young in
            let same : judge m' t end_ts ≡ judge m t end_ts =
              judge_same m m' t end_ts same_secs same_ms in
            (
              rw (e, maybe_end_transaction) same,
              rw (e, maybe_end_transaction) (rw (h, maybe_end_transaction) same),
            ),
      )
    where
      same_secs : (purge_old_transactions m now).0.ttl_secs ≡ m.ttl_secs
      same_secs = unfold purge_old_transactions in refl

      same_ms : (purge_old_transactions m now).0.ttl_ms ≡ m.ttl_ms
      same_ms = unfold purge_old_transactions in refl

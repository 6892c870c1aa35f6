-- ===== src/Lru.antt =====
-- src/VisorLRUList.h: the class `LRUList`. A node of the list is an entry under its address, and
-- an iterator is that address; a new node gets an address that none had before. The front of the
-- list is the head. A limit of 0 is none. A key is one that the move into `deletedValue` leaves as
-- it was, as it does a number; the map is asked to erase the key after that move.
pub mod Links
pub mod Refines
use pktvisor.Prelude.{
  ℕ, ◌+◌, Bool, true, false, ◌&&◌, Option, none, some, List, [], ◌∷◌, if◌then◌else◌, ltb, length,
  Key, find, erase, put, nat_key,
}
use pktvisor.Window.Manager.{pop_back}

pub record LruList (T V : Type 0) : Type 0 where
  pub items : List (ℕ × (T × V))
  pub index : List (T × ℕ)
  pub fresh : ℕ
  pub max_size : ℕ

abbrev pub new_list : {T V : Type 0} → ℕ → LruList T V
new_list max_size = record { items = []; index = []; fresh = 0; max_size = max_size }

-- `erase` of the list, at the iterator that the map has held.
abbrev pub unlink : {T V : Type 0} → Option ℕ → List (ℕ × (T × V)) → List (ℕ × (T × V))
unlink none items = items
unlink (some old) items = erase old items

abbrev pub value_at : {T V : Type 0} → Option (T × V) → Option V
value_at none = none
value_at (some (k, v)) = some v

module _ {T V : Type 0} ⦃key : Key T⦄ where
  -- `put` up to the test of the limit.
  unfoldable pub push : LruList T V → T → V → LruList T V
  push l element value = record l {
    items = unlink (find element l.index) ((l.fresh, (element, value)) ∷ l.items);
    index = put element l.fresh l.index;
    fresh = l.fresh + 1;
  }

  -- The part of `put` under the test, with the deleted entry.
  abbrev pub evicted :
      LruList T V → List (ℕ × (T × V)) × Option (ℕ × (T × V)) → LruList T V × Option (T × V)
  evicted l (kept, none) = (l, none)
  evicted l (kept, some (address, (k, v))) =
      (record l { items = kept; index = erase k l.index }, some (k, v))

  unfoldable pub evict : LruList T V → LruList T V × Option (T × V)
  unfolding pop_back
  evict l = evicted l (pop_back l.items)

  -- `put`: 1 is the result exactly when an entry was deleted.
  unfoldable pub put_element : LruList T V → T → V → LruList T V × Option (T × V)
  unfolding push evict
  put_element l element value =
      let pushed = push l element value in
      if ltb 0 l.max_size && ltb l.max_size (length pushed.index)
      then evict pushed
      else (pushed, none)

  unfoldable pub get_value : LruList T V → T → Option V
  get_value l element = elim (find element l.index) [
    | none ↦ none
    | some address ↦ value_at (find address l.items)
  ]

  unfoldable pub erase_element : LruList T V → T → LruList T V
  erase_element l element = elim (find element l.index) [
    | none ↦ l
    | some address ↦ record l { items = erase address l.items; index = erase element l.index }
  ]

  unfoldable pub get_size : LruList T V → ℕ
  get_size l = length l.index

-- ===== src/Collections/RecentlyUsed.antt =====
-- `RecentlyUsedContainer` of src/urllib3/_collections.py. Each method runs under the lock, so it is
-- one function from the old container to the new one. The calls of `dispose_func`, which are made
-- after the lock is released, are the list of values that a method hands back.
mod Outcomes
pub mod Bounds
pub mod Entries
pub mod Recency
pub mod Disposal
pub mod Tests
use urllib.Prelude.{
  ℕ, Bool, true, false, Option, none, some, List, [], ◌∷◌, ◌++◌, BEq, ltb, length, if◌then◌else◌,
}
use urllib.Dict.{Dict, get, set, remove, keys, values}

pub record Container {ℓ κ} (K : Type ℓ) (V : Type κ) : Type (ℓ ⊔ κ) where
  pub entries : Dict K V
  pub maxsize : ℕ
  -- `dispose_func` is given
  pub disposes : Bool

module _ {ℓ κ} {K : Type ℓ} {V : Type κ} where
  unfoldable pub init : ℕ → Bool → Container K V
  init maxsize disposes = record { entries = []; maxsize = maxsize; disposes = disposes }

  -- `if self.dispose_func: self.dispose_func(value)` for each value
  abbrev pub disposed : Container K V → List V → List V
  disposed c vs = if c.disposes then vs else []

  unfoldable pub size : Container K V → ℕ
  size c = length c.entries

  -- `popitem(last=False)` on an over-full container; an `OrderedDict` holds its oldest key first.
  unfoldable pub pop_oldest : Container K V → Dict K V → Container K V × List V
  pop_oldest c [] = (c, [])
  pop_oldest c ((j, w) ∷ rest) = (record c { entries = rest }, disposed c (w ∷ []))

  unfoldable pub clear : Container K V → Container K V × List V
  clear c = (record c { entries = [] }, disposed c (values c.entries))

module _ {ℓ κ} {K : Type ℓ} {V : Type κ} ⦃e : BEq K⦄ where
  -- The item is popped and put back, at the end of the eviction line. `none` is a `KeyError`.
  unfoldable pub get_item : Container K V → K → Option (V × Container K V)
  get_item c key = elim (get c.entries key) [
    | none ↦ none
    | some item ↦ some (item, record c { entries = set (remove c.entries key) key item })
  ]

  -- The branch of `__setitem__` for a key that is not there.
  unfoldable pub insert_new : Container K V → K → V → Container K V × List V
  unfolding pop_oldest
  insert_new c key value =
      let entries = set c.entries key value in
      if ltb c.maxsize (length entries)
      then pop_oldest (record c { entries = entries }) entries
      else (record c { entries = entries }, [])

  unfoldable pub set_item : Container K V → K → V → Container K V × List V
  unfolding insert_new
  set_item c key value = elim (get c.entries key) [
    | some old ↦
        (record c { entries = set (remove c.entries key) key value }, disposed c (old ∷ []))
    | none ↦ insert_new c key value
  ]

  -- `none` is a `KeyError`.
  unfoldable pub del_item : Container K V → K → Option (Container K V × List V)
  del_item c key = elim (get c.entries key) [
    | none ↦ none
    | some value ↦ some (record c { entries = remove c.entries key }, disposed c (value ∷ []))
  ]

-- A history of calls, and what it leaves behind: the container, and all the values disposed of.
pub data Call {ℓ κ} (K : Type ℓ) (V : Type κ) : Type (ℓ ⊔ κ) where
  stores : K → V → Call K V
  fetches : K → Call K V
  deletes : K → Call K V
  clears : Call K V

module _ {ℓ κ} {K : Type ℓ} {V : Type κ} ⦃e : BEq K⦄ where
  -- A `KeyError` leaves the container as it was.
  abbrev pub after_fetch : Container K V → Option (V × Container K V) → Container K V × List V
  after_fetch c none = (c, [])
  after_fetch c (some (v, c')) = (c', [])

  abbrev pub after_delete : Container K V → Option (Container K V × List V) → Container K V × List V
  after_delete c none = (c, [])
  after_delete c (some r) = r

  unfoldable pub step : Container K V → Call K V → Container K V × List V
  step c (stores k v) = set_item c k v
  step c (fetches k) = after_fetch c (get_item c k)
  step c (deletes k) = after_delete c (del_item c k)
  step c clears = clear c

  unfoldable pub run : Container K V → List (Call K V) → Container K V × List V
  run c [] = (c, [])
  run c (call ∷ calls) =
      let (c', gone) = step c call in let (c'', later) = run c' calls in (c'', gone ++ later)

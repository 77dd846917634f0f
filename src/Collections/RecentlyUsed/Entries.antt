-- ===== src/Collections/RecentlyUsed/Entries.antt =====
-- A property of the entries of a `RecentlyUsedContainer`.
use urllib.Prelude.{
  Bool, true, false, Option, none, some, [], ◌∷◌, or_else, ◌==◌, BEq, ◌≡◌, refl, sym, subst, ap,
  ==-eq-true, Bool-cases, Option-cases, All, inl, inr, if◌then◌else◌, ltb, length, drop, ◌++◌, ◌∙◌,
  ◌≤◌, arith, ==_refl,
}
use urllib.Dict.{Dict, get, has, set, remove}
use urllib.Dict.Laws.{get-set, get-none, has-remove, get-append}
use urllib.Collections.RecentlyUsed.Outcomes.{set_item_cases}
use urllib.Collections.RecentlyUsed.{Container, get_item, set_item, insert_new, pop_oldest}

-- The entries of a dictionary.
module _ {K V : Type 0} ⦃e : BEq K⦄ (P : K → V → Type 0) where
  abbrev pub Holds : Dict K V → Type 0
  Holds = All (λ item. P item.0 item.1)

  Holds-set : (d : Dict K V) (k : K) (v : V) → Holds d → P k v → Holds (set d k v)
  unfolding set
  Holds-set [] k v h q = (q, tt)
  Holds-set ((j, w) ∷ d) k v h q = elim (Bool-cases (j == k)) [
    | inl same ↦ rw same (subst (λ i. P i v) (sym (==-eq-true j k same)) q, h.1)
    | inr other ↦ rw other (h.0, Holds-set d k v h.1 q)
  ]

  Holds-remove : (d : Dict K V) (k : K) → Holds d → Holds (remove d k)
  unfolding remove
  Holds-remove [] k h = tt
  Holds-remove ((j, w) ∷ d) k h = elim (Bool-cases (j == k)) [
    | inl same ↦ rw same (Holds-remove d k h.1)
    | inr other ↦ rw other (h.0, Holds-remove d k h.1)
  ]

  Holds-get : (d : Dict K V) (k : K) (v : V) → Holds d → get d k ≡ some v → P k v
  unfolding get
  Holds-get [] k v h g = cc
  Holds-get ((j, w) ∷ d) k v h g = by_test (j == k) refl (Holds-get d k v h.1) g
    where
      by_test :
          (b : Bool)
          → (j == k) ≡ b
          → (get d k ≡ some v → P k v)
          → (if b then some w else get d k) ≡ some v
          → P k v
      by_test true same later found =
          subst (λ i. P i v) (==-eq-true j k same) (subst (λ u. P j u) (ap (or_else w) found) h.0)
      by_test false other later found = later found

  -- Of a container.
  abbrev pub Keeps : Container K V → Type 0
  Keeps c = Holds c.entries

  abbrev pub Hits : K → Option (V × Container K V) → Type 0
  Hits k none = Unit
  Hits k (some (v, c)) = P k v × Keeps c

  pub get_item-Hits : (c : Container K V) (k : K) → Keeps c → Hits k (get_item c k)
  unfolding get_item
  get_item-Hits c k h = elim (Option-cases (get c.entries k)) [
    | inl m ↦ rw (m, get_item) tt
    | inr (v, m) ↦
        let q = Holds-get c.entries k v h m in
        rw (m, get_item) (q, Holds-set (remove c.entries k) k v (Holds-remove c.entries k h) q)
  ]

  pop-Keeps : (c : Container K V) (d : Dict K V) → Holds d → Keeps c → Keeps (pop_oldest c d).0
  unfolding pop_oldest
  pop-Keeps c [] h k = k
  pop-Keeps c (item ∷ rest) h k = h.1

  pub set_item-Keeps :
      (c : Container K V) (k : K) (v : V) → Keeps c → P k v → Keeps (set_item c k v).0
  unfolding set_item insert_new
  set_item-Keeps c k v h q = elim (Option-cases (get c.entries k)) [
    | inr (old, m) ↦
        rw (m, set_item) (Holds-set (remove c.entries k) k v (Holds-remove c.entries k h) q)
    | inl m ↦ rw (m, set_item) (by_room (ltb c.maxsize (length (set c.entries k v))))
  ]
    where
      by_room :
          (b : Bool)
          → Keeps
              (if b
                then pop_oldest (record c { entries = set c.entries k v }) (set c.entries k v)
                else (record c { entries = set c.entries k v }, [])).0
      by_room true =
          pop-Keeps (record c { entries = set c.entries k v }) (set c.entries k v)
            (Holds-set c.entries k v h q) (Holds-set c.entries k v h q)
      by_room false = Holds-set c.entries k v h q

-- What is looked up or stored is found, if the container has room for it.
module _ {K V : Type 0} ⦃e : BEq K⦄ where
  get_last : (d : Dict K V) (k : K) (v : V) → has d k ≡ false → get (d ++ (k, v) ∷ []) k ≡ some v
  unfolding get
  get_last d k v fresh = ground (arith, get-append d ((k, v) ∷ []) k, fresh, ==_refl k)

  -- The entry that goes is not the one that came last.
  get_evicted :
      (d : Dict K V) (k j : K) (v w : V) (rest : Dict K V)
      → has d k ≡ false
      → 1 ≤ length d
      → d ++ (k, v) ∷ [] ≡ (j, w) ∷ rest
      → get rest k ≡ some v
  unfolding has
  get_evicted [] k j v w rest fresh some_entry split = ground arith
  get_evicted (item ∷ d) k j v w rest fresh some_entry split =
      subst (λ r. get r k ≡ some v) (ap (drop 1) split) (get_last d k v (ground (arith, fresh)))

  abbrev pub Finds : K → Option (V × Container K V) → Type 0
  Finds k none = Unit
  Finds k (some (v, c)) = get c.entries k ≡ some v

  pub get_item-Finds : (c : Container K V) (k : K) → Finds k (get_item c k)
  unfolding get_item
  get_item-Finds c k = elim (Option-cases (get c.entries k)) [
    | inl m ↦ rw (m, get_item) tt
    | inr (v, m) ↦ rw (m, get_item) (get-set (remove c.entries k) k k v ∙ rw (==_refl k) refl)
  ]

  pub get-set_item :
      (c : Container K V) (k : K) (v : V)
      → 1 ≤ c.maxsize
      → get (set_item c k v).0.entries k ≡ some v
  get-set_item c k v room =
      set_item_cases (λ r. get r.0.entries k ≡ some v) c k v
        (λ old m.
          get_last (remove c.entries k) k v (ground (arith, has-remove c.entries k k, ==_refl k)))
        (λ m under. get_last c.entries k v (get-none c.entries k m))
        (λ j w rest m full split.
          get_evicted c.entries k j v w rest (get-none c.entries k m) (omega (arith, room, full))
            split)

  pub get_item-some :
      (c : Container K V) (k : K) (v : V)
      → get c.entries k ≡ some v
      → get_item c k ≡ some (v, record c { entries = set (remove c.entries k) k v })
  unfolding get_item
  get_item-some c k v h = rw (h, get_item) refl

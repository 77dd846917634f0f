-- ===== src/Collections/RecentlyUsed/Outcomes.antt =====
-- The outcomes of each method of `RecentlyUsedContainer`, as rules for proofs about all of them.
use urllib.Prelude.{
  ◌≤◌, ◌<◌, ◌≡◌, refl, ltb, none, some, Option-cases, Bool-cases, List, [], ◌∷◌, ◌++◌, BEq, ==_refl,
  length, length-append, arith, inl, inr,
}
use urllib.Dict.{Dict, get, set, remove}
use urllib.Dict.Laws.{set_fresh, get-none, has-remove}
use urllib.Collections.RecentlyUsed.{
  Container, disposed, pop_oldest, get_item, insert_new, set_item, del_item, after_fetch,
  after_delete,
}

module _ {ℓ κ} {K : Type ℓ} {V : Type κ} ⦃e : BEq K⦄ where
  -- What a hit writes back: the item, at the end.
  set-remove : (d : Dict K V) (k : K) (v : V) → set (remove d k) k v ≡ remove d k ++ (k, v) ∷ []
  set-remove d k v = set_fresh (remove d k) k v (ground (arith, has-remove d k k, ==_refl k))

  module _ {μ} (P : Container K V × List V → Type μ) (c : Container K V) (k : K) where
    pub get_item_cases :
        (get c.entries k ≡ none → P (c, []))
        → ((w : V)
            → get c.entries k ≡ some w
            → P (record c { entries = remove c.entries k ++ (k, w) ∷ [] }, []))
        → P (after_fetch c (get_item c k))
    unfolding get_item
    get_item_cases missing hit = elim (Option-cases (get c.entries k)) [
      | inl m ↦ rw (m, get_item) (missing m)
      | inr (w, m) ↦ rw (m, get_item, set-remove) (hit w m)
    ]

    pub del_item_cases :
        (get c.entries k ≡ none → P (c, []))
        → ((w : V)
            → get c.entries k ≡ some w
            → P (record c { entries = remove c.entries k }, disposed c (w ∷ [])))
        → P (after_delete c (del_item c k))
    unfolding del_item
    del_item_cases missing hit = elim (Option-cases (get c.entries k)) [
      | inl m ↦ rw (m, del_item) (missing m)
      | inr (w, m) ↦ rw (m, del_item) (hit w m)
    ]

  module _ {μ} (P : Container K V × List V → Type μ) (c : Container K V) (k : K) (v : V) where
    abbrev pub Room : Type (κ ⊔ μ)
    Room =
        get c.entries k ≡ none
        → length c.entries < c.maxsize
        → P (record c { entries = c.entries ++ (k, v) ∷ [] }, [])

    abbrev pub Evict : Type (ℓ ⊔ κ ⊔ μ)
    Evict =
        (j : K) (w : V) (rest : Dict K V)
        → get c.entries k ≡ none
        → c.maxsize ≤ length c.entries
        → c.entries ++ (k, v) ∷ [] ≡ (j, w) ∷ rest
        → P (record c { entries = rest }, disposed c (w ∷ []))

    evict_cases :
        (d : Dict K V)
        → get c.entries k ≡ none
        → c.maxsize ≤ length c.entries
        → c.entries ++ (k, v) ∷ [] ≡ d
        → Evict
        → P (pop_oldest (record c { entries = d }) d)
    unfolding pop_oldest
    evict_cases [] m full q evict =
        absurd (omega (arith, ap_length q, length-append c.entries ((k, v) ∷ [])))
      where
        ap_length : c.entries ++ (k, v) ∷ [] ≡ [] → length (c.entries ++ (k, v) ∷ []) ≡ 0
        ap_length p = λ i. length (p i)
    evict_cases ((j, w) ∷ rest) m full q evict = evict j w rest m full q

    insert_new_cases : get c.entries k ≡ none → Room → Evict → P (insert_new c k v)
    unfolding insert_new
    insert_new_cases m room evict =
        rw (set_fresh c.entries k v (get-none c.entries k m), insert_new)
          (elim (Bool-cases (ltb c.maxsize (length (c.entries ++ (k, v) ∷ [])))) [
            | inl over ↦ rw over (
                evict_cases (c.entries ++ (k, v) ∷ []) m
                  (ground (arith, length-append c.entries ((k, v) ∷ []))) refl evict)
            | inr under ↦ rw under (room m (ground (arith, length-append c.entries ((k, v) ∷ []))))
          ])

    pub set_item_cases :
        ((old : V)
          → get c.entries k ≡ some old
          → P (record c { entries = remove c.entries k ++ (k, v) ∷ [] }, disposed c (old ∷ [])))
        → Room
        → Evict
        → P (set_item c k v)
    unfolding set_item
    set_item_cases hit room evict = elim (Option-cases (get c.entries k)) [
      | inl m ↦ rw (m, set_item) (insert_new_cases m room evict)
      | inr (w, m) ↦ rw (m, set_item, set-remove) (hit w m)
    ]

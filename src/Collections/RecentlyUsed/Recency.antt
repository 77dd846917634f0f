-- ===== src/Collections/RecentlyUsed/Recency.antt =====
-- What the container keeps: the keys that were used last. The specification is an unbounded list
-- of keys in order of their last use, which knows nothing of eviction.
use urllib.Prelude.{
  ℕ, suc, ◌+◌, ◌≤◌, ◌<◌, ◌≡◌, refl, ◌⊎◌, inl, inr, Bool, true, false, none, some, List, [], ◌∷◌,
  ◌++◌, append_assoc, BEq, ◌==◌, ◌||◌, length, length-append, arith, if◌then◌else◌, ap, sym, ◌∙◌,
  subst, drop, ◌-◌, zero, length-map, All,
}
use mathlib.Core.List.{map-append}
use urllib.Dict.{Dict, get, has, remove, keys}
use urllib.Dict.Laws.{get-none, length-remove, has-is_some, remove_fresh}
use urllib.Collections.RecentlyUsed.{
  Container, init, Call, stores, fetches, deletes, clears, step, run,
}
use urllib.Collections.RecentlyUsed.Outcomes.{get_item_cases, set_item_cases}
use urllib.Collections.RecentlyUsed.Bounds.{IsValid, step-IsValid, init-IsValid}

module _ {ℓ} {K : Type ℓ} ⦃e : BEq K⦄ where
  abbrev pub member : List K → K → Bool
  member [] k = false
  member (j ∷ js) k = j == k || member js k

  abbrev pub without : List K → K → List K
  without [] k = []
  without (j ∷ js) k = let rest = without js k in if j == k then rest else j ∷ rest

  -- A used key is moved to the end.
  abbrev pub touch : List K → K → List K
  touch js k = without js k ++ k ∷ []

  without-append : (is js : List K) (k : K) → without (is ++ js) k ≡ without is k ++ without js k
  without-append [] js k = refl
  without-append (i ∷ is) js k = ground (arith, without-append is js k)

module _ {ℓ κ} {K : Type ℓ} {V : Type κ} ⦃e : BEq K⦄ where
  keys-remove : (d : Dict K V) (k : K) → keys (remove d k) ≡ without (keys d) k
  unfolding remove
  keys-remove [] k = refl
  keys-remove ((i, w) ∷ d) k = ground (arith, keys-remove d k)

  member-keys : (d : Dict K V) (k : K) → member (keys d) k ≡ has d k
  unfolding has
  member-keys [] k = refl
  member-keys ((i, w) ∷ d) k = ground (arith, member-keys d k)

-- The last `n` of a list.
abbrev pub last_n {ℓ} : {A : Type ℓ} → ℕ → List A → List A
last_n n xs = drop (length xs - n) xs

drop-append {ℓ} : {A : Type ℓ} (xs ys : List A) → drop (length xs) (xs ++ ys) ≡ ys
drop-append [] ys = refl
drop-append (x ∷ xs) ys = drop-append xs ys

drop_none {ℓ} : {A : Type ℓ} (t : ℕ) (ys : List A) → t ≡ 0 → drop t ys ≡ ys
drop_none zero ys h = refl
drop_none (suc t) ys h = absurd (omega arith)

last_n-append {ℓ} :
    {A : Type ℓ} (n : ℕ) (xs ys : List A)
    → length ys ≤ n
    → (xs ≡ []) ⊎ (length ys ≡ n)
    → last_n n (xs ++ ys) ≡ ys
last_n-append n xs ys h (inl p) = rw p (drop_none (length ys - n) ys (omega arith))
last_n-append n xs ys h (inr p) =
    let whole : length (xs ++ ys) - n ≡ length xs = omega (arith, length-append xs ys) in
    ap (λ t. drop t (xs ++ ys)) whole ∙ drop-append xs ys

without-nil {ℓ} :
    {K : Type ℓ} ⦃e : BEq K⦄ (older : List K) (k : K) → older ≡ [] → without older k ≡ []
without-nil older k q = rw q

module _ {ℓ κ} {K : Type ℓ} {V : Type κ} ⦃e : BEq K⦄ where
  -- The calls that use a key.
  abbrev pub IsUse : Call K V → Type 0
  IsUse (stores k v) = Unit
  IsUse (fetches k) = Unit
  IsUse (deletes k) = ⊥
  IsUse clears = ⊥

  -- A lookup uses a key if the key is among the `n` that were used last.
  abbrev pub recency_step : ℕ → List K → Call K V → List K
  recency_step n js (stores k v) = touch js k
  recency_step n js (fetches k) = if member (last_n n js) k then touch js k else js
  recency_step n js (deletes k) = js
  recency_step n js clears = js

  abbrev pub recency : ℕ → List K → List (Call K V) → List K
  recency n js [] = js
  recency n js (call ∷ calls) = recency n (recency_step n js call) calls

  -- `js` ends in the keys that `c` holds, and begins with those that it evicted for want of room.
  record Tracks (n : ℕ) (js : List K) (c : Container K V) : Type ℓ where
    capacity : c.maxsize ≡ n
    bounded : length c.entries ≤ n
    older : List K
    split : js ≡ older ++ keys c.entries
    full : (older ≡ []) ⊎ (length c.entries ≡ n)

  Tracks-last_n :
      (n : ℕ) (js : List K) (c : Container K V) → Tracks n js c → last_n n js ≡ keys c.entries
  Tracks-last_n n js c t = rw t.split (
      last_n-append n t.older (keys c.entries)
        (omega (arith, length-map c.entries (λ p. p.0), t.bounded))
        (ground (arith, length-map c.entries (λ p. p.0), t.full)))

  split_touch :
      (js older : List K) (d : Dict K V) (k : K) (v : V)
      → js ≡ older ++ keys d
      → touch js k ≡ without older k ++ keys (remove d k ++ (k, v) ∷ [])
  split_touch js older d k v q =
      rw (q, without-append older (keys d) k, map-append, keys-remove d k)
        (append_assoc (without older k) (without (keys d) k) (k ∷ []))

  split_touch_fresh :
      (js older : List K) (d : Dict K V) (k : K) (v : V)
      → get d k ≡ none
      → js ≡ older ++ keys d
      → touch js k ≡ without older k ++ keys (d ++ (k, v) ∷ [])
  split_touch_fresh js older d k v m q =
      subst (λ r. touch js k ≡ without older k ++ keys (r ++ (k, v) ∷ []))
        (remove_fresh d k (get-none d k m)) (split_touch js older d k v q)

  hit-Tracks :
      (n : ℕ) (js : List K) (c : Container K V) (k : K) (v w : V)
      → IsValid c
      → get c.entries k ≡ some w
      → Tracks n js c
      → Tracks n (touch js k) (record c { entries = remove c.entries k ++ (k, v) ∷ [] })
  hit-Tracks n js c k v w h m t =
      let same : length (remove c.entries k ++ (k, v) ∷ []) ≡ length c.entries = omega (
        arith,
        length-append (remove c.entries k) ((k, v) ∷ []),
        length-remove c.entries k w h.unique m,
      ) in
      record {
        capacity = t.capacity;
        bounded = omega (arith, same, t.bounded);
        older = without t.older k;
        split = split_touch js t.older c.entries k v t.split;
        full = ground (arith, same, t.full, without-nil t.older k);
      }

  room-Tracks :
      (n : ℕ) (js : List K) (c : Container K V) (k : K) (v : V)
      → get c.entries k ≡ none
      → length c.entries < c.maxsize
      → Tracks n js c
      → Tracks n (touch js k) (record c { entries = c.entries ++ (k, v) ∷ [] })
  room-Tracks n js c k v m room t = record {
    capacity = t.capacity;
    bounded = omega (arith, length-append c.entries ((k, v) ∷ []), t.capacity);
    older = without t.older k;
    split = split_touch_fresh js t.older c.entries k v m t.split;
    full = ground (arith, t.full, t.capacity, without-nil t.older k);
  }

  evict-Tracks :
      (n : ℕ) (js : List K) (c : Container K V) (k j : K) (v w : V) (rest : Dict K V)
      → get c.entries k ≡ none
      → c.maxsize ≤ length c.entries
      → c.entries ++ (k, v) ∷ [] ≡ (j, w) ∷ rest
      → Tracks n js c
      → Tracks n (touch js k) (record c { entries = rest })
  evict-Tracks n js c k j v w rest m over q t =
      let size : suc (length rest) ≡ length c.entries + 1 =
        omega (arith, ap length q, length-append c.entries ((k, v) ∷ [])) in
      record {
        capacity = t.capacity;
        bounded = omega (arith, size, t.bounded);
        older = without t.older k ++ j ∷ [];
        split =
            split_touch_fresh js t.older c.entries k v m t.split
            ∙ ap (λ d. without t.older k ++ keys d) q
            ∙ sym (append_assoc (without t.older k) (j ∷ []) (keys rest));
        full = inr (omega (arith, size, t.bounded, t.capacity));
      }

  unused : (d : Dict K V) (k : K) → get d k ≡ none → member (keys d) k ≡ false
  unused d k m = member-keys d k ∙ get-none d k m

  used : (d : Dict K V) (k : K) (w : V) → get d k ≡ some w → member (keys d) k ≡ true
  used d k w m = ground (arith, member-keys d k, has-is_some d k)

  step-Tracks :
      (n : ℕ) (js : List K) (c : Container K V) (call : Call K V)
      → IsUse call
      → IsValid c
      → Tracks n js c
      → Tracks n (recency_step n js call) (step c call).0
  unfolding step
  step-Tracks n js c (stores k v) use_it h t =
      set_item_cases (λ r. Tracks n (touch js k) r.0) c k v
        (λ old m. hit-Tracks n js c k v old h m t) (λ m room. room-Tracks n js c k v m room t)
        (λ j w rest m over q. evict-Tracks n js c k j v w rest m over q t)
  step-Tracks n js c (fetches k) use_it h t = rw (Tracks-last_n n js c t) (
      get_item_cases (λ r. Tracks n (if member (keys c.entries) k then touch js k else js) r.0) c k
        (λ m. rw (unused c.entries k m) t)
        (λ w m. rw (used c.entries k w m) (hit-Tracks n js c k w w h m t)))
  step-Tracks n js c (deletes k) use_it h t = absurd use_it
  step-Tracks n js c clears use_it h t = absurd use_it

  run-Tracks :
      (n : ℕ) (js : List K) (c : Container K V) (calls : List (Call K V))
      → All IsUse calls
      → IsValid c
      → Tracks n js c
      → Tracks n (recency n js calls) (run c calls).0
  unfolding run
  run-Tracks n js c [] uses h t = t
  run-Tracks n js c (call ∷ calls) uses h t =
      run-Tracks n (recency_step n js call) (step c call).0 calls uses.1 (step-IsValid c call h)
        (step-Tracks n js c call uses.0 h t)

  -- After any history of stores and lookups from an empty container of capacity `n`, the container
  -- holds exactly the `n` keys that were used last, in order of their last use.
  pub keys-run :
      (n : ℕ) (d : Bool) (calls : List (Call K V))
      → All IsUse calls
      → keys (run (init n d) calls).0.entries ≡ last_n n (recency n [] calls)
  keys-run n d calls uses = sym (
      Tracks-last_n n (recency n [] calls) (run (init n d) calls).0
        (run-Tracks n [] (init n d) calls uses (init-IsValid n d) start))
    where
      start : Tracks n [] (init n d)
      start =
          unfold init in
          record {
            capacity = refl;
            bounded = omega arith;
            older = [];
            split = refl;
            full = inl refl;
          }

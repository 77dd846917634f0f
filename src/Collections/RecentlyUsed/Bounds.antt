-- ===== src/Collections/RecentlyUsed/Bounds.antt =====
-- The container holds each key once and never more than `maxsize` keys.
use urllib.Prelude.{
  ℕ, ◌≤◌, ◌≡◌, List, [], ◌∷◌, ◌++◌, BEq, length, length-append, arith, Bool, none, subst, ap, refl,
  ◌∙◌,
}
use urllib.Dict.{get, remove, Unique}
use urllib.Dict.Laws.{
  get-none, length-remove, set_fresh, set-Unique, remove-Unique, move_to_end-Unique,
}
use urllib.Collections.RecentlyUsed.{
  Container, init, size, clear, Call, stores, fetches, deletes, clears, step, run,
}
use urllib.Collections.RecentlyUsed.Outcomes.{get_item_cases, set_item_cases, del_item_cases}

pub record IsValid {ℓ κ} {K : Type ℓ} {V : Type κ} ⦃e : BEq K⦄ (c : Container K V) : Type 0 where
  pub unique : Unique c.entries
  pub bounded : length c.entries ≤ c.maxsize

module _ {ℓ κ} {K : Type ℓ} {V : Type κ} ⦃e : BEq K⦄ where
  pub init-IsValid : (n : ℕ) (d : Bool) → IsValid (init {K = K} {V = V} n d)
  unfolding init
  init-IsValid n d = record { unique = tt; bounded = omega arith }

  append_fresh-Unique :
      (c : Container K V) (k : K) (v : V)
      → IsValid c
      → get c.entries k ≡ none
      → Unique (c.entries ++ (k, v) ∷ [])
  append_fresh-Unique c k v h m =
      subst Unique (set_fresh c.entries k v (get-none c.entries k m))
        (set-Unique c.entries k v h.unique)

  -- Every call keeps the keys distinct and at most `maxsize` of them.
  pub step-IsValid : (c : Container K V) (call : Call K V) → IsValid c → IsValid (step c call).0
  unfolding step clear
  step-IsValid c (stores k v) h =
      set_item_cases (λ r. IsValid r.0) c k v
        (λ old m. record {
          unique = move_to_end-Unique c.entries k v h.unique;
          bounded = omega (
            arith,
            length-append (remove c.entries k) ((k, v) ∷ []),
            length-remove c.entries k old h.unique m,
          );
        })
        (λ m room. record {
          unique = append_fresh-Unique c k v h m;
          bounded = omega (arith, length-append c.entries ((k, v) ∷ []));
        })
        (λ j w rest m full q. record {
          unique = (subst Unique q (append_fresh-Unique c k v h m)).1;
          bounded = omega (arith, ap length q, length-append c.entries ((k, v) ∷ []), h.bounded);
        })
  step-IsValid c (fetches k) h =
      get_item_cases (λ r. IsValid r.0) c k (λ m. h)
        (λ w m. record {
          unique = move_to_end-Unique c.entries k w h.unique;
          bounded = omega (
            arith,
            length-append (remove c.entries k) ((k, w) ∷ []),
            length-remove c.entries k w h.unique m,
            h.bounded,
          );
        })
  step-IsValid c (deletes k) h =
      del_item_cases (λ r. IsValid r.0) c k (λ m. h)
        (λ w m. record {
          unique = remove-Unique c.entries k h.unique;
          bounded = omega (arith, length-remove c.entries k w h.unique m, h.bounded);
        })
  step-IsValid c clears h = record { unique = tt; bounded = omega arith }

  pub run-IsValid :
      (c : Container K V) (calls : List (Call K V)) → IsValid c → IsValid (run c calls).0
  unfolding run
  run-IsValid c [] h = h
  run-IsValid c (call ∷ calls) h = run-IsValid (step c call).0 calls (step-IsValid c call h)

  pub maxsize-step : (c : Container K V) (call : Call K V) → (step c call).0.maxsize ≡ c.maxsize
  unfolding step clear
  maxsize-step c (stores k v) =
      set_item_cases (λ r. r.0.maxsize ≡ c.maxsize) c k v (λ w m. refl) (λ m room. refl)
        (λ j w rest m full q. refl)
  maxsize-step c (fetches k) =
      get_item_cases (λ r. r.0.maxsize ≡ c.maxsize) c k (λ m. refl) (λ w m. refl)
  maxsize-step c (deletes k) =
      del_item_cases (λ r. r.0.maxsize ≡ c.maxsize) c k (λ m. refl) (λ w m. refl)
  maxsize-step c clears = refl

  pub maxsize-run :
      (c : Container K V) (calls : List (Call K V)) → (run c calls).0.maxsize ≡ c.maxsize
  unfolding run
  maxsize-run c [] = refl
  maxsize-run c (call ∷ calls) = maxsize-run (step c call).0 calls ∙ maxsize-step c call

  -- After any history of stores, lookups, deletions and clears from an empty container of capacity
  -- `n`, each key is held once and `len` is at most `n`.
  pub run-init_bounds :
      (n : ℕ) (d : Bool) (calls : List (Call K V))
      → Unique (run (init n d) calls).0.entries × (size (run (init n d) calls).0 ≤ n)
  unfolding size
  run-init_bounds n d calls =
      let h = run-IsValid (init n d) calls (init-IsValid n d) in
      (h.unique, rw maxsize-run-init at h.bounded)
    where
      maxsize-run-init : (run (init n d) calls).0.maxsize ≡ n
      maxsize-run-init = maxsize-run (init n d) calls ∙ (unfold init in refl)

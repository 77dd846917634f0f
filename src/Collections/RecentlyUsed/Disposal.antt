-- ===== src/Collections/RecentlyUsed/Disposal.antt =====
-- Nothing that was put into the container is lost: it is there, or it was disposed of, once.
use mathlib.Core.List.{Perm, perm_append_singleton, perm_append_comm}
use mathlib.Core.List.Perm
use urllib.Prelude.{
  ◌≡◌, refl, true, some, List, [], ◌∷◌, ◌++◌, append_assoc, append-nil, BEq, Bool-cases, inl, inr,
  ◌==◌, false, ==-eq-true, ap, sym, subst, ◌∙◌,
}
use mathlib.Core.List.{map-append}
use urllib.Dict.{Dict, get, has, remove, values, Unique}
use urllib.Dict.Laws.{remove_fresh, remove_hit, remove_miss, get_hit, get_miss}
use urllib.Collections.RecentlyUsed.{
  Container, clear, Call, stores, fetches, deletes, clears, step, run,
}
use urllib.Collections.RecentlyUsed.Outcomes.{get_item_cases, set_item_cases, del_item_cases}
use urllib.Collections.RecentlyUsed.Bounds.{IsValid, step-IsValid}

-- The values that one call leaves, then those of the later calls.
chain {ℓ} :
    {V : Type ℓ} (new later old mid end gone gone' : List V)
    → Perm (new ++ old) (mid ++ gone)
    → Perm (later ++ mid) (end ++ gone')
    → Perm ((new ++ later) ++ old) (end ++ (gone ++ gone'))
chain new later old mid end gone gone' first rest =
    Perm.trans (Perm.append_right old (perm_append_comm new later)) (
      rw append_assoc (
        Perm.trans (Perm.append_left later first) (
          rw (← append_assoc later mid gone) (
            Perm.trans (Perm.append_right gone rest) (
              rw (append_assoc end gone' gone)
                (Perm.append_left end (perm_append_comm gone' gone)))))))

module _ {ℓ κ} {K : Type ℓ} {V : Type κ} ⦃e : BEq K⦄ where
  -- The values that a history puts in.
  abbrev pub stored : List (Call K V) → List V
  stored [] = []
  stored (stores k v ∷ calls) = v ∷ stored calls
  stored (fetches k ∷ calls) = stored calls
  stored (deletes k ∷ calls) = stored calls
  stored (clears ∷ calls) = stored calls

  values-remove_hit :
      (i k : K) (w v : V) (d : Dict K V)
      → (i == k) ≡ true
      → has d i ≡ false
      → w ≡ v
      → values (remove ((i, w) ∷ d) k) ≡ values d
  values-remove_hit i k w v d hit fresh q =
      rw (remove_hit i k w d hit, ← ==-eq-true i k hit, remove_fresh d i fresh)

  values-remove :
      (d : Dict K V) (k : K) (v : V)
      → Unique d
      → get d k ≡ some v
      → Perm (values d) (v ∷ values (remove d k))
  values-remove [] k v u h = absurd (unfold get in cc)
  values-remove ((i, w) ∷ d) k v u h = elim (Bool-cases (i == k)) [
    | inl hit ↦
        let q : w ≡ v = cc (get_hit i k w d hit) in
        rw (values-remove_hit i k w v d hit u.0 q) (Perm.cons' q Perm.rfl)
    | inr miss ↦ rw (remove_miss i k w d miss) (
        Perm.trans (Perm.cons w (values-remove d k v u.1 (cc (get_miss i k w d miss))))
          (Perm.swap v w _))
  ]

  to_end :
      (d : Dict K V) (k : K) (v : V)
      → Unique d
      → get d k ≡ some v
      → Perm (values d) (values (remove d k) ++ v ∷ [])
  to_end d k v u h =
      Perm.trans (values-remove d k v u h)
        (Perm.symm (perm_append_singleton v (values (remove d k))))

  replaced :
      (d : Dict K V) (k : K) (old v : V)
      → Unique d
      → get d k ≡ some old
      → Perm (v ∷ values d) ((values (remove d k) ++ v ∷ []) ++ old ∷ [])
  replaced d k old v u h =
      let kept = values (remove d k) in
      Perm.symm (
        Perm.trans (perm_append_singleton old (kept ++ v ∷ [])) (
          Perm.trans (Perm.cons old (perm_append_singleton v kept)) (
            Perm.trans (Perm.swap v old kept)
              (Perm.cons v (Perm.symm (values-remove d k old u h))))))

  evicted :
      (d rest : Dict K V) (k j : K) (v w : V)
      → d ++ (k, v) ∷ [] ≡ (j, w) ∷ rest
      → Perm (v ∷ values d) (values rest ++ w ∷ [])
  evicted d rest k j v w q = Perm.trans (Perm.symm (perm_append_singleton v (values d))) (
      subst (λ l. Perm l (values rest ++ w ∷ [])) (sym (sym (map-append _ d _) ∙ ap values q))
        (Perm.symm (perm_append_singleton w (values rest))))

  -- What one call puts in.
  abbrev incoming : Call K V → List V
  incoming (stores k v) = v ∷ []
  incoming (fetches k) = []
  incoming (deletes k) = []
  incoming clears = []

  abbrev Balanced : Container K V → List V → Container K V × List V → Type κ
  Balanced c vs r = Perm (vs ++ values c.entries) (values r.0.entries ++ r.1)

  step-Balanced :
      (c : Container K V) (call : Call K V)
      → c.disposes ≡ true
      → IsValid c
      → Balanced c (incoming call) (step c call)
  unfolding step clear
  step-Balanced c (stores k v) d h =
      set_item_cases (Balanced c (v ∷ [])) c k v
        (λ old m. rw (d, map-append) (replaced c.entries k old v h.unique m))
        (λ m room.
          rw (map-append, append-nil) (Perm.symm (perm_append_singleton v (values c.entries))))
        (λ j w rest m full q. rw d (evicted c.entries rest k j v w q))
  step-Balanced c (fetches k) d h =
      get_item_cases (Balanced c []) c k (λ m. rw append-nil (Perm.refl _))
        (λ w m. rw (map-append, append-nil) (to_end c.entries k w h.unique m))
  step-Balanced c (deletes k) d h =
      del_item_cases (Balanced c []) c k (λ m. rw append-nil (Perm.refl _))
        (λ w m. rw d (to_end c.entries k w h.unique m))
  step-Balanced c clears d h = rw d (Perm.refl _)

  disposes-step : (c : Container K V) (call : Call K V) → (step c call).0.disposes ≡ c.disposes
  unfolding step clear
  disposes-step c (stores k v) =
      set_item_cases (λ r. r.0.disposes ≡ c.disposes) c k v (λ w m. refl) (λ m room. refl)
        (λ j w rest m full q. refl)
  disposes-step c (fetches k) =
      get_item_cases (λ r. r.0.disposes ≡ c.disposes) c k (λ m. refl) (λ w m. refl)
  disposes-step c (deletes k) =
      del_item_cases (λ r. r.0.disposes ≡ c.disposes) c k (λ m. refl) (λ w m. refl)
  disposes-step c clears = refl

  stored_cons :
      (call : Call K V) (calls : List (Call K V))
      → stored (call ∷ calls) ≡ incoming call ++ stored calls
  stored_cons (stores k v) calls = refl
  stored_cons (fetches k) calls = refl
  stored_cons (deletes k) calls = refl
  stored_cons clears calls = refl

  -- With a `dispose_func`, whatever the history, every value that is in the container at the start
  -- or is stored by a call is in the container at the end or has been disposed of, exactly once.
  pub run-conserves :
      (c : Container K V) (calls : List (Call K V))
      → c.disposes ≡ true
      → IsValid c
      → Perm (stored calls ++ values c.entries) (values (run c calls).0.entries ++ (run c calls).1)
  unfolding run
  run-conserves c [] d h = rw append-nil (Perm.refl _)
  run-conserves c (call ∷ calls) d h = rw stored_cons (
      chain (incoming call) (stored calls) (values c.entries) _ _ (step c call).1 _
        (step-Balanced c call d h)
        (run-conserves (step c call).0 calls (disposes-step c call ∙ d) (step-IsValid c call h)))

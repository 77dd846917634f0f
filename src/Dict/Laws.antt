-- ===== src/Dict/Laws.antt =====
-- Laws of dictionaries: lookups after each operation, and keys that stay distinct.
use urllib.Prelude.{
  ◌≡◌, refl, true, false, none, some, is_some, [], ◌∷◌, ◌++◌, arith, BEq, ◌==◌, ==_refl,
  if◌then◌else◌, ◌||◌, suc, length,
}
use urllib.Dict.{Dict, get, has, set, remove, Unique}

module _ {ℓ κ} {K : Type ℓ} {V : Type κ} ⦃e : BEq K⦄ where
  pub get-set :
      (d : Dict K V) (k j : K) (v : V) → get (set d k v) j ≡ (if k == j then some v else get d j)
  unfolding get set
  get-set [] k j v = refl
  get-set ((i, w) ∷ d) k j v =
      ground (arith, e.test_iff i k, e.test_iff i j, e.test_iff k j, get-set d k j v)

  pub get-remove :
      (d : Dict K V) (k j : K) → get (remove d k) j ≡ (if k == j then none else get d j)
  unfolding get remove
  get-remove [] k j = ground arith
  get-remove ((i, w) ∷ d) k j =
      ground (arith, e.test_iff i k, e.test_iff i j, e.test_iff k j, get-remove d k j)

  pub has-is_some : (d : Dict K V) (k : K) → has d k ≡ is_some (get d k)
  unfolding has get
  has-is_some [] k = refl
  has-is_some ((i, w) ∷ d) k = ground (arith, has-is_some d k)

  pub has-set : (d : Dict K V) (k j : K) (v : V) → has (set d k v) j ≡ (k == j || has d j)
  unfolding has set
  has-set [] k j v = refl
  has-set ((i, w) ∷ d) k j v =
      ground (arith, e.test_iff i k, e.test_iff i j, e.test_iff k j, has-set d k j v)

  pub has-remove :
      (d : Dict K V) (k j : K) → has (remove d k) j ≡ (if k == j then false else has d j)
  unfolding has remove
  has-remove [] k j = ground arith
  has-remove ((i, w) ∷ d) k j =
      ground (arith, e.test_iff i k, e.test_iff i j, e.test_iff k j, has-remove d k j)

  pub remove_fresh : (d : Dict K V) (k : K) → has d k ≡ false → remove d k ≡ d
  unfolding has remove
  remove_fresh [] k h = refl
  remove_fresh ((i, w) ∷ d) k h = ground (arith, remove_fresh d k)

  pub set_fresh : (d : Dict K V) (k : K) (v : V) → has d k ≡ false → set d k v ≡ d ++ (k, v) ∷ []
  unfolding has set
  set_fresh [] k v h = refl
  set_fresh ((i, w) ∷ d) k v h = ground (arith, set_fresh d k v)

  pub has-append : (c d : Dict K V) (k : K) → has (c ++ d) k ≡ (has c k || has d k)
  unfolding has
  has-append [] d k = refl
  has-append ((i, w) ∷ c) d k = ground (arith, has-append c d k)

  pub set-Unique : (d : Dict K V) (k : K) (v : V) → Unique d → Unique (set d k v)
  unfolding set has
  set-Unique [] k v u = (refl, tt)
  set-Unique ((i, w) ∷ d) k v u =
      ground (arith, has-set d k i v, e.test_iff i k, e.test_iff k i, set-Unique d k v)

  pub remove-Unique : (d : Dict K V) (k : K) → Unique d → Unique (remove d k)
  unfolding remove
  remove-Unique [] k u = tt
  remove-Unique ((i, w) ∷ d) k u = ground (arith, has-remove d k i, remove-Unique d k)

  -- Removing a key and adding it at the end: how a recently used key is moved.
  pub move_to_end-Unique :
      (d : Dict K V) (k : K) (v : V) → Unique d → Unique (remove d k ++ (k, v) ∷ [])
  move_to_end-Unique d k v u =
      let fresh = has-remove d k k in
      let kept = set-Unique (remove d k) k v (remove-Unique d k u) in
      rw (set_fresh (remove d k) k v (ground (arith, ==_refl k))) at kept

  pub get-append :
      (c d : Dict K V) (k : K) → get (c ++ d) k ≡ (if has c k then get c k else get d k)
  unfolding get has
  get-append [] d k = refl
  get-append ((i, w) ∷ c) d k = ground (arith, get-append c d k)

  pub remove_hit :
      (i k : K) (w : V) (d : Dict K V) → (i == k) ≡ true → remove ((i, w) ∷ d) k ≡ remove d k
  unfolding remove
  remove_hit i k w d h = rw h

  pub remove_miss :
      (i k : K) (w : V) (d : Dict K V)
      → (i == k) ≡ false
      → remove ((i, w) ∷ d) k ≡ (i, w) ∷ remove d k
  unfolding remove
  remove_miss i k w d h = rw h

  pub get_miss : (i k : K) (w : V) (d : Dict K V) → (i == k) ≡ false → get ((i, w) ∷ d) k ≡ get d k
  unfolding get
  get_miss i k w d h = rw h

  pub get_hit : (i k : K) (w : V) (d : Dict K V) → (i == k) ≡ true → get ((i, w) ∷ d) k ≡ some w
  unfolding get
  get_hit i k w d h = rw h

  pub set_append_right :
      (c d : Dict K V) (k : K) (v : V) → has c k ≡ false → set (c ++ d) k v ≡ c ++ set d k v
  unfolding has set
  set_append_right [] d k v h = refl
  set_append_right ((i, w) ∷ c) d k v h = ground (arith, set_append_right c d k v)

  pub length-remove :
      (d : Dict K V) (k : K) (v : V)
      → Unique d
      → get d k ≡ some v
      → length d ≡ suc (length (remove d k))
  unfolding get remove
  length-remove [] k v u h = cc
  length-remove ((i, w) ∷ d) k v u h =
      ground (arith, length-remove d k v, remove_fresh d i, e.test_iff i k)

  pub get-none : (d : Dict K V) (k : K) → get d k ≡ none → has d k ≡ false
  get-none d k h = ground (arith, has-is_some d k)

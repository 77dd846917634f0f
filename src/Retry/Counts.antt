-- ===== src/Retry/Counts.antt =====
-- Retry counts: `None`, a `bool`, which counts as 0 or 1, or an `int`.
use urllib.Prelude.{
  ◌≡◌, refl, Bool, true, false, not, List, [], ◌∷◌, any, ◌||◌, arith, if◌then◌else◌,
}
use urllib.Prelude.Int.{ℤ, pos, negsuc, pred_ℤ, is_zero, is_negative, min_ℤ}

pub data Count : Type 0 where
  unset : Count
  flag : Bool → Count
  num : ℤ → Count

-- `c is b`
abbrev pub is_flag : Bool → Count → Bool
is_flag b unset = false
is_flag true (flag c) = c
is_flag false (flag c) = not c
is_flag b (num z) = false

abbrev pub truthy : Count → Bool
truthy unset = false
truthy (flag b) = b
truthy (num z) = not (is_zero z)

-- `if c is not None: c -= 1`; a `bool` becomes an `int`.
abbrev pub decrement : Count → Count
decrement unset = unset
decrement (flag true) = num (pos 0)
decrement (flag false) = num (negsuc 0)
decrement (num z) = num (pred_ℤ z)

-- The counts that are truthy, as integers: `[x for x in counts if x]`.
abbrev pub truthy_counts : List Count → List ℤ
truthy_counts [] = []
truthy_counts (unset ∷ cs) = truthy_counts cs
truthy_counts (flag true ∷ cs) = pos 1 ∷ truthy_counts cs
truthy_counts (flag false ∷ cs) = truthy_counts cs
truthy_counts (num z ∷ cs) = let rest = truthy_counts cs in if is_zero z then rest else z ∷ rest

-- `min(z, *zs)`
abbrev pub minimum : ℤ → List ℤ → ℤ
minimum m [] = m
minimum m (z ∷ zs) = minimum (min_ℤ m z) zs

-- The body of `is_exhausted`, over the list of counts.
unfoldable pub out_of_retries : List Count → Bool
out_of_retries cs = elim (truthy_counts cs) [ [] ↦ false | z ∷ zs ↦ is_negative (minimum z zs) ]

-- A count that has been used up.
abbrev pub is_spent : Count → Bool
is_spent (num (negsuc n)) = true
is_spent c = false

minimum-is_negative :
    (m : ℤ) (zs : List ℤ) → is_negative (minimum m zs) ≡ (is_negative m || any is_negative zs)
minimum-is_negative m [] = ground arith
minimum-is_negative m (z ∷ zs) = ground (arith, minimum-is_negative (min_ℤ m z) zs)

any-truthy_counts : (cs : List Count) → any is_negative (truthy_counts cs) ≡ any is_spent cs
any-truthy_counts [] = refl
any-truthy_counts (c ∷ cs) = ground (arith, any-truthy_counts cs)

-- The minimum of the truthy counts is negative exactly when some count is.
pub out_of_retries-any : (cs : List Count) → out_of_retries cs ≡ any is_spent cs
unfolding out_of_retries
out_of_retries-any cs = go (truthy_counts cs) (any-truthy_counts cs)
  where
    go :
        (zs : List ℤ)
        → any is_negative zs ≡ any is_spent cs
        → (elim zs [ [] ↦ false | z ∷ rest ↦ is_negative (minimum z rest) ]) ≡ any is_spent cs
    go [] h = h
    go (z ∷ rest) h = ground (arith, minimum-is_negative z rest)

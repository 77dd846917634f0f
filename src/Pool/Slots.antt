-- ===== src/Pool/Slots.antt =====
-- Who has a connection: counts over the queue, the leases and the record of closes.
use urllib.Prelude.{
  ℕ, zero, suc, ◌+◌, ◌≤◌, Option, none, some, List, [], ◌∷◌, ◌++◌, ◌=ℕ◌, length, if◌then◌else◌, ◌≡◌,
  refl, arith,
}
use urllib.Pool.{Queue, drain, fill}

unfoldable pub count : ℕ → List ℕ → ℕ
count c [] = 0
count c (x ∷ xs) = (if c =ℕ x then 1 else 0) + count c xs

-- The first `c` is taken out.
unfoldable pub drop_one : ℕ → List ℕ → List ℕ
drop_one c [] = []
drop_one c (x ∷ xs) = if c =ℕ x then xs else x ∷ drop_one c xs

abbrev pub slots : Option Queue → Queue
slots none = []
slots (some q) = q

-- How often the connection is in the queue.
unfoldable pub pooled : ℕ → Option Queue → ℕ
unfolding count drain
pooled c q = count c (drain (slots q))

pub count-append : (c : ℕ) (xs ys : List ℕ) → count c (xs ++ ys) ≡ count c xs + count c ys
unfolding count
count-append c [] ys = ground arith
count-append c (x ∷ xs) ys = ground (arith, count-append c xs ys)

pub count-drop_one :
    (c d : ℕ) (xs : List ℕ)
    → 1 ≤ count c xs
    → count d xs ≡ (if d =ℕ c then 1 else 0) + count d (drop_one c xs)
unfolding count drop_one
count-drop_one c d [] h = ground arith
count-drop_one c d (x ∷ xs) h = ground (arith, count-drop_one c d xs)

pub length-drop_one :
    (c : ℕ) (xs : List ℕ) → 1 ≤ count c xs → length xs ≡ 1 + length (drop_one c xs)
unfolding count drop_one
length-drop_one c [] h = ground arith
length-drop_one c (x ∷ xs) h = ground (arith, length-drop_one c xs)

pub drain-fill : (n : ℕ) → drain (fill n) ≡ []
unfolding drain fill
drain-fill zero = refl
drain-fill (suc n) = drain-fill n

pub length-fill : (n : ℕ) → length (fill n) ≡ n
unfolding fill
length-fill zero = refl
length-fill (suc n) = ground (arith, length-fill n)

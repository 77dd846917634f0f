-- ===== src/Response/Buffer/Flat.antt =====
-- The buffer against its contents, one list of bytes.
use urllib.Prelude.{
  ◌≢◌, Bool-cases, ℕ, zero, suc, ◌-◌, ◌≤◌, ◌<◌, false, ◌&&◌, List, [], ◌∷◌, ◌++◌, ltb, ◌=ℕ◌, length,
  take, drop, ◌≡◌, refl, arith, ap, ◌∙◌, sym, append-nil, append_assoc, length-append, ◌⊎◌, inl,
  inr,
}
use urllib.Prelude.Int.{ℤ, pos, negsuc}
use urllib.Exceptions.{Outcome, ok, raises, plain, value_error, runtime_error}
use urllib.Response.Buffer.{
  Bytes, Chunk, Buffer, init, fetch, get_from, get_negative, get, joined, take_all, get_all,
}

abbrev pub contents : Buffer → Bytes
contents b = joined b.chunks

abbrev pub IsValid : Buffer → Type 0
IsValid b = b.size ≡ length (contents b)

-- What is taken are the first `n` bytes, or all there are; the others stay.
abbrev pub Takes : ℕ → List Chunk → Bytes × Buffer → Type 0
Takes n chunks r =
    (r.0 ≡ take n (joined chunks)) × (contents r.1 ≡ drop n (joined chunks)) × IsValid r.1

take-append : (n : ℕ) (xs ys : Bytes) → take n (xs ++ ys) ≡ take n xs ++ take (n - length xs) ys
take-append zero xs ys = ground arith
take-append (suc n) [] ys = ground arith
take-append (suc n) (x ∷ xs) ys = ground (arith, take-append n xs ys)

drop-append : (n : ℕ) (xs ys : Bytes) → drop n (xs ++ ys) ≡ drop n xs ++ drop (n - length xs) ys
drop-append zero xs ys = ground arith
drop-append (suc n) [] ys = ground arith
drop-append (suc n) (x ∷ xs) ys = ground (arith, drop-append n xs ys)

pub length-drop : (n : ℕ) (xs : Bytes) → length (drop n xs) ≡ length xs - n
length-drop zero xs = ground arith
length-drop (suc n) [] = ground arith
length-drop (suc n) (x ∷ xs) = ground (arith, length-drop n xs)

take_whole : (n : ℕ) (xs : Bytes) → length xs ≤ n → take n xs ≡ xs
take_whole zero [] h = refl
take_whole zero (x ∷ xs) h = ground arith
take_whole (suc n) [] h = refl
take_whole (suc n) (x ∷ xs) h = ground (arith, take_whole n xs)

drop_whole : (n : ℕ) (xs : Bytes) → length xs ≤ n → drop n xs ≡ []
drop_whole zero [] h = refl
drop_whole zero (x ∷ xs) h = ground arith
drop_whole (suc n) [] h = refl
drop_whole (suc n) (x ∷ xs) h = ground (arith, drop_whole n xs)

-- The first chunk is more than enough, or it is taken whole.
pub take-within : (n : ℕ) (xs ys : Bytes) → n < length xs → take n (xs ++ ys) ≡ take n xs
take-within n xs ys h =
    let nothing : n - length xs ≡ 0 = omega arith in
    take-append n xs ys ∙ ap (λ k. take n xs ++ take k ys) nothing ∙ append-nil (take n xs)

pub drop-within : (n : ℕ) (xs ys : Bytes) → n < length xs → drop n (xs ++ ys) ≡ drop n xs ++ ys
drop-within n xs ys h =
    let nothing : n - length xs ≡ 0 = omega arith in
    drop-append n xs ys ∙ ap (λ k. drop n xs ++ drop k ys) nothing

take-beyond :
    (n : ℕ) (xs ys : Bytes) → length xs ≤ n → take n (xs ++ ys) ≡ xs ++ take (n - length xs) ys
take-beyond n xs ys h =
    take-append n xs ys ∙ ap (λ k. k ++ take (n - length xs) ys) (take_whole n xs h)

drop-beyond : (n : ℕ) (xs ys : Bytes) → length xs ≤ n → drop n (xs ++ ys) ≡ drop (n - length xs) ys
drop-beyond n xs ys h =
    drop-append n xs ys ∙ ap (λ k. k ++ drop (n - length xs) ys) (drop_whole n xs h)

fetch-Takes :
    (n : ℕ) (chunks : List Chunk) (size : ℕ)
    → size ≡ length (joined chunks)
    → Takes n chunks (fetch n chunks size)
unfolding fetch
fetch-Takes n [] size v =
    (sym (take_whole n [] (omega arith)), sym (drop_whole n [] (omega arith)), v)
fetch-Takes zero (chunk ∷ rest) size v = (refl, refl, v)
fetch-Takes (suc n) (chunk ∷ rest) size v =
    let xs = chunk.bytes in
    let ys = joined rest in
    let all = length-append xs ys in
    let tail = fetch-Takes (suc n - length xs) rest (size - length xs) (omega (arith, v, all)) in
    let go : (suc n =ℕ 0) ≡ false = ground arith in
    elim (Bool-cases (ltb (suc n) (length xs))) [
      | inl part ↦
          let h : suc n < length xs = ground arith in
          rw (go, part)
            (
              sym (take-within (suc n) xs ys h),
              sym (drop-within (suc n) xs ys h),
              omega (arith, v, all, length-append (drop (suc n) xs) ys, length-drop (suc n) xs),
            )
      | inr whole ↦
          let h : length xs ≤ suc n = ground arith in
          rw (go, whole)
            (
              ap (λ k. xs ++ k) tail.0 ∙ sym (take-beyond (suc n) xs ys h),
              tail.1 ∙ sym (drop-beyond (suc n) xs ys h),
              tail.2,
            )
    ]

exact-Takes :
    (n : ℕ) (chunk : Chunk) (rest : List Chunk) (size : ℕ)
    → size ≡ length (joined (chunk ∷ rest))
    → length chunk.bytes ≡ n
    → Takes n (chunk ∷ rest) (chunk.bytes, record { chunks = rest; size = size - n })
exact-Takes n chunk rest size v same =
    let xs = chunk.bytes in
    let ys = joined rest in
    let nothing : n - length xs ≡ 0 = omega (arith, same) in
    (
      sym (
          take-beyond n xs ys (omega (arith, same))
          ∙ ap (λ k. xs ++ take k ys) nothing
          ∙ append-nil xs),
      sym (drop-beyond n xs ys (omega (arith, same)) ∙ ap (λ k. drop k ys) nothing),
      omega (arith, v, same, length-append xs ys),
    )

-- A buffer with a chunk in it gives for any positive `n`.
pub get_from-Takes :
    (n : ℕ) (chunk : Chunk) (rest : List Chunk) (size : ℕ)
    → size ≡ length (joined (chunk ∷ rest))
    → (r : Bytes × Buffer) × (get_from (chunk ∷ rest) size n ≡ ok r) × Takes n (chunk ∷ rest) r
unfolding get_from
get_from-Takes n chunk rest size v =
    elim (Bool-cases ((length chunk.bytes =ℕ n) && chunk.is_bytes)) [
      | inl fits ↦ rw fits (_, refl, exact-Takes n chunk rest size v (ground arith))
      | inr other ↦ rw other (_, refl, fetch-Takes n (chunk ∷ rest) size v)
    ]

abbrev pub Gets : Buffer → ℤ → Outcome (Bytes × Buffer) → Type 0
Gets b (pos zero) o = o ≡ ok ([], b)
Gets b (pos (suc n)) o =
    ((b.chunks ≡ []) × (o ≡ raises (plain runtime_error)))
    ⊎ ((b.chunks ≢ []) × ((r : Bytes × Buffer) × (o ≡ ok r) × Takes (suc n) b.chunks r))
Gets b (negsuc n) o =
    ((b.chunks ≡ []) × (o ≡ raises (plain runtime_error)))
    ⊎ ((b.chunks ≢ []) × (o ≡ raises (plain value_error)))

get_positive :
    (n : ℕ) (b : Buffer) (chunks : List Chunk)
    → b.chunks ≡ chunks
    → IsValid b
    → Gets b (pos (suc n)) (get_from b.chunks b.size (suc n))
get_positive n b [] h v = inl (h, unfold get_from in rw h refl)
get_positive n b (chunk ∷ rest) h v = inr (
  ground (arith, h),
  rw h (get_from-Takes (suc n) chunk rest b.size (v ∙ ap (λ k. length (joined k)) h)),
)

get_below :
    (b : Buffer) (chunks : List Chunk)
    → b.chunks ≡ chunks
    → ((b.chunks ≡ []) × (get_negative b.chunks ≡ raises (plain runtime_error)))
      ⊎ ((b.chunks ≢ []) × (get_negative b.chunks ≡ raises (plain value_error)))
get_below b [] h = inl (h, ap get_negative h)
get_below b (chunk ∷ rest) h = inr (ground (arith, h), ap get_negative h)

-- `get(n)` of a valid buffer takes the first `n` bytes of the contents, or all if there are fewer, and
-- leaves a valid buffer with the others. For 0 it takes nothing. It raises a `RuntimeError` exactly if
-- `n` is not 0 and no chunk is there, and a `ValueError` exactly if one is there and `n` is negative.
pub get-Gets : (b : Buffer) (n : ℤ) → IsValid b → Gets b n (get b n)
unfolding get
get-Gets b (pos zero) v = refl
get-Gets b (pos (suc n)) v = get_positive n b b.chunks refl v
get-Gets b (negsuc n) v = get_below b b.chunks refl

-- The joined bytes of a longer list of chunks.
pub joined-append : (xs ys : List Chunk) → joined (xs ++ ys) ≡ joined xs ++ joined ys
joined-append [] ys = refl
joined-append (x ∷ xs) ys =
    ap (λ k. x.bytes ++ k) (joined-append xs ys)
    ∙ sym (append_assoc x.bytes (joined xs) (joined ys))

take_all-contents :
    (b : Buffer) (chunks : List Chunk)
    → b.chunks ≡ chunks
    → IsValid b
    → (take_all chunks b ≡ ok (contents b, init))
unfolding init
take_all-contents b [] h v =
    let nothing : b.size ≡ 0 = v ∙ ap (λ k. length (joined k)) h in rw (h, nothing) refl
take_all-contents b (chunk ∷ []) h v = rw (h, append-nil chunk.bytes) refl
take_all-contents b (chunk ∷ next ∷ rest) h v = rw h refl

-- `get_all()` of a valid buffer hands out the contents and leaves an empty buffer; its assertion never
-- fails.
pub get_all-contents : (b : Buffer) → IsValid b → get_all b ≡ ok (contents b, init)
unfolding get_all
get_all-contents b v = take_all-contents b b.chunks refl v

-- ===== src/Prelude/Hex/Laws.antt =====
-- A number that is printed in hexadecimal is read back.
use urllib.Prelude.{
  ℕ, zero, suc, ◌+◌, ◌*◌, ◌/◌, ◌%◌, ◌<◌, Bool, true, false, some, [], ◌∷◌, ◌++◌, ltb, ◌=ℕ◌, ◌≡◌,
  ◌≢◌, refl, ap, ◌∙◌, arith, Bool-cases, All, inl, inr,
}
use urllib.Prelude.Text.{Text}
use urllib.Prelude.Int.{pos}
use urllib.Prelude.Hex.{
  hex_digit, hex_from, hex, digit_value, digits_from, is_byte_space, skip_space, kept_before,
  cut_space, skip_prefix, map_value, signed, int_16,
}

-- One of the characters that `%x` prints.
abbrev pub IsHex : ℕ → Type 0
IsHex c = (d : ℕ) × (d < 16) × (c ≡ hex_digit d)

digit_value-hex_digit : (d : ℕ) → d < 16 → digit_value (hex_digit d) ≡ some d
unfolding digit_value hex_digit
digit_value-hex_digit d h = ground arith

digits_from-hex_digit :
    (b : Bool) (d n : ℕ) (s : Text)
    → d < 16
    → digits_from b n (hex_digit d ∷ s) ≡ digits_from false (n * 16 + d) s
unfolding digits_from
digits_from-hex_digit b d n s h = rw (digit_value-hex_digit d h) refl

hex_from-IsHex :
    (fuel n : ℕ) (after : Text) → n < fuel → All IsHex after → All IsHex (hex_from fuel n after)
unfolding hex_from
hex_from-IsHex zero n after h a = a
hex_from-IsHex (suc fuel) n after h a = elim (Bool-cases (ltb n 16)) [
  | inl small ↦ rw small ((n, ground arith, refl), a)
  | inr large ↦ rw large (
      hex_from-IsHex fuel (n / 16) (hex_digit (n % 16) ∷ after) (ground arith)
        ((n % 16, omega arith, refl), a))
]

-- The digits before `after` count for `n`.
digits_from-hex_from :
    (b : Bool) (fuel n : ℕ) (after : Text)
    → n < fuel
    → digits_from b 0 (hex_from fuel n after) ≡ digits_from false n after
unfolding hex_from
digits_from-hex_from b zero n after h = ground arith
digits_from-hex_from b (suc fuel) n after h = elim (Bool-cases (ltb n 16)) [
  | inl small ↦ rw small (
      digits_from-hex_digit b n 0 after (ground arith)
      ∙ ap (λ k. digits_from false k after) (omega arith))
  | inr large ↦ rw large (
      digits_from-hex_from b fuel (n / 16) (hex_digit (n % 16) ∷ after) (ground arith)
      ∙ digits_from-hex_digit false (n % 16) (n / 16) after (omega arith)
      ∙ ap (λ k. digits_from false k after) (omega arith))
]

hex_digit_not_space : (d : ℕ) → d < 16 → is_byte_space (hex_digit d) ≡ false
unfolding is_byte_space hex_digit
hex_digit_not_space d h = ground arith

skip_space-hex : (s t : Text) → All IsHex s → s ≢ [] → skip_space (s ++ t) ≡ s ++ t
unfolding skip_space
skip_space-hex [] t a some_digit = absurd (some_digit refl)
skip_space-hex (c ∷ s) t ((d, h, e), a) some_digit = rw e (rw (hex_digit_not_space d h) refl)

kept-hex : (d : ℕ) (s : Text) → d < 16 → kept_before (hex_digit d) s ≡ hex_digit d ∷ s
kept-hex d [] h = rw (hex_digit_not_space d h) refl
kept-hex d (c ∷ s) h = refl

cut_space-hex : (s t : Text) → All IsHex s → cut_space t ≡ [] → cut_space (s ++ t) ≡ s
unfolding cut_space
cut_space-hex [] t a q = q
cut_space-hex (c ∷ s) t ((d, h, e), a) q = rw (e, cut_space-hex s t a q) (kept-hex d s h)

hex_plain :
    (c : ℕ)
    → IsHex c
    → ((c =ℕ b'-') ≡ false) × ((c =ℕ b'+') ≡ false) × ((c =ℕ b'x') ≡ false) × ((c =ℕ b'X') ≡ false)
unfolding hex_digit
hex_plain c (d, h, e) = (ground arith, ground arith, ground arith, ground arith)

pub hex_in_line : (c : ℕ) → IsHex c → ((c =ℕ b';') ≡ false) × ((c =ℕ 10) ≡ false)
unfolding hex_digit
hex_in_line c (d, h, e) = (ground arith, ground arith)

skip_prefix-hex : (s : Text) → All IsHex s → skip_prefix s ≡ s
unfolding skip_prefix
skip_prefix-hex [] a = refl
skip_prefix-hex (c ∷ []) a = refl
skip_prefix-hex (c ∷ b ∷ s) (_, (i, _)) = let p = hex_plain b i in rw (p.2, p.3) (ground arith)

signed-hex : (s : Text) → All IsHex s → signed s ≡ map_value pos (digits_from true 0 s)
unfolding signed digits_from
signed-hex [] a = refl
signed-hex (c ∷ s) (i, a) =
    let p = hex_plain c i in
    rw (p.0, p.1) (ap (λ k. map_value pos (digits_from true 0 k)) (skip_prefix-hex (c ∷ s) (i, a)))

pub hex-IsHex : (n : ℕ) → All IsHex (hex n)
unfolding hex
hex-IsHex n = hex_from-IsHex (suc n) n [] (omega arith) tt

digits_from-hex : (n : ℕ) → digits_from true 0 (hex n) ≡ some n
unfolding hex digits_from
digits_from-hex n = digits_from-hex_from true (suc n) n [] (omega arith)

hex_not_empty : (n : ℕ) → hex n ≢ []
unfolding digits_from
hex_not_empty n e = cc (e, digits_from-hex n)

-- A printed number and white space after it is read as the number.
pub int_16-hex : (n : ℕ) (t : Text) → cut_space t ≡ [] → int_16 (hex n ++ t) ≡ some (pos n)
unfolding int_16
int_16-hex n t r =
    ap (λ k. signed (cut_space k)) (skip_space-hex (hex n) t (hex-IsHex n) (hex_not_empty n))
    ∙ ap signed (cut_space-hex (hex n) t (hex-IsHex n) r)
    ∙ signed-hex (hex n) (hex-IsHex n)
    ∙ ap (map_value pos) (digits_from-hex n)

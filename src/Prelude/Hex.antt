-- ===== src/Prelude/Hex.antt =====
-- Hexadecimal numbers: Python's `b"%x" % n` and `int(line, 16)` of bytes.
pub mod Laws
use urllib.Prelude.{
  ℕ, zero, suc, ◌+◌, ◌-◌, ◌*◌, ◌/◌, ◌%◌, Bool, true, false, not, ◌&&◌, ◌||◌, Option, none, some,
  List, [], ◌∷◌, leb, ltb, ◌=ℕ◌, if◌then◌else◌,
}
use urllib.Prelude.Text.{Text}
use urllib.Prelude.Int.{ℤ, pos, negsuc}

unfoldable pub hex_digit : ℕ → ℕ
hex_digit d = if ltb d 10 then b'0' + d else b'a' + (d - 10)

-- The digits of `n` before those of `after`; one unit of fuel for each.
unfoldable pub hex_from : ℕ → ℕ → Text → Text
hex_from zero n after = after
hex_from (suc fuel) n after =
    let more = hex_from fuel (n / 16) (hex_digit (n % 16) ∷ after) in
    if ltb n 16 then hex_digit n ∷ after else more

-- Fuel `suc n` is more than the number of digits.
unfoldable pub hex : ℕ → Text
unfolding hex_from
hex n = hex_from (suc n) n []

unfoldable pub digit_value : ℕ → Option ℕ
digit_value c =
    if leb b'0' c && leb c b'9'
    then some (c - b'0')
    else if leb b'a' c && leb c b'f'
    then some (c - b'a' + 10)
    else if leb b'A' c && leb c b'F'
    then some (c - b'A' + 10)
    else none

-- One character of a number, and `later` for those after it; `bare` where a digit must come.
abbrev pub next_digit : (Bool → ℕ → Option ℕ) → Bool → ℕ → ℕ → Option ℕ → Option ℕ
next_digit later bare n c (some d) = later false (n * 16 + d)
next_digit later bare n c none = if c =ℕ b'_' && not bare then later true n else none

-- Digits with single underscores between them.
unfoldable pub digits_from : Bool → ℕ → Text → Option ℕ
unfolding digit_value
digits_from bare n [] = if bare then none else some n
digits_from bare n (c ∷ s) = next_digit (λ b m. digits_from b m s) bare n c (digit_value c)

-- The white space that `int` skips on both sides.
unfoldable pub is_byte_space : ℕ → Bool
is_byte_space c = (leb 9 c && leb c 13) || c =ℕ 32

unfoldable pub skip_space : Text → Text
skip_space [] = []
skip_space (c ∷ s) = let rest = skip_space s in if is_byte_space c then rest else c ∷ s

abbrev pub kept_before : ℕ → Text → Text
kept_before c [] = if is_byte_space c then [] else c ∷ []
kept_before c (d ∷ s) = c ∷ d ∷ s

unfoldable pub cut_space : Text → Text
cut_space [] = []
cut_space (c ∷ s) = kept_before c (cut_space s)

abbrev pub skip_underscore : Text → Text
skip_underscore [] = []
skip_underscore (c ∷ s) = if c =ℕ b'_' then s else c ∷ s

-- `0x`, and an underscore after it.
unfoldable pub skip_prefix : Text → Text
skip_prefix [] = []
skip_prefix (a ∷ []) = a ∷ []
skip_prefix (a ∷ b ∷ s) =
    if (a =ℕ b'0') && (b =ℕ b'x' || b =ℕ b'X') then skip_underscore s else a ∷ b ∷ s

abbrev pub minus : ℕ → ℤ
minus zero = pos 0
minus (suc n) = negsuc n

abbrev pub map_value : (ℕ → ℤ) → Option ℕ → Option ℤ
map_value f none = none
map_value f (some n) = some (f n)

abbrev pub magnitude : Text → Option ℕ
magnitude s = digits_from true 0 (skip_prefix s)

unfoldable pub signed : Text → Option ℤ
unfolding digits_from skip_prefix
signed [] = none
signed (c ∷ s) =
    if c =ℕ b'-'
    then map_value minus (magnitude s)
    else if c =ℕ b'+'
    then map_value pos (magnitude s)
    else map_value pos (magnitude (c ∷ s))

-- `int(s, 16)`, and `none` for its `ValueError`
unfoldable pub int_16 : Text → Option ℤ
unfolding signed skip_space cut_space
int_16 s = signed (cut_space (skip_space s))

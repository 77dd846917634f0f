-- ===== src/Retry/Backoff.antt =====
-- `Retry.get_backoff_time`: the pause after a run of errors.
use urllib.Prelude.{
  ℕ, suc, zero, ◌-◌, ◌*◌, ◌^◌, ◌≡◌, refl, ap, inl, inr, true, false, List, [], ◌∷◌, ◌++◌, arith,
  length, leb, if◌then◌else◌, is_some, Bool-cases,
}
use mathlib.Core.List.{reverse, reverse-append}
use urllib.Prelude.Int.{ℤ, pos, negsuc, min_ℤ, max_ℤ, scale_ℤ, is_zero, ◌+ℤ◌, ◌≤ℤ◌}
use native.Mathlib.Nat.{pow-suc}
use urllib.Retry.{Retry, RequestHistory}

-- `takewhile(lambda x: x.redirect_location is None, …)`
unfoldable pub take_errors : List RequestHistory → List RequestHistory
take_errors [] = []
take_errors (h ∷ hs) =
    let rest = take_errors hs in if is_some h.redirect_location then [] else h ∷ rest

unfoldable pub consecutive_errors_len : List RequestHistory → ℕ
unfolding take_errors
consecutive_errors_len history = length (take_errors (reverse history))

-- `draw` is the value of `random.random() * self.backoff_jitter`.
unfoldable pub backoff_value : Retry → ℤ → ℕ → ℤ
backoff_value r draw n =
    let value = scale_ℤ r.backoff_factor (2 ^ (n - 1)) in
    if is_zero r.backoff_jitter then value else value +ℤ draw

-- `max(0, min(limit, value))`
unfoldable pub clamp : ℤ → ℤ → ℤ
clamp limit value = max_ℤ (pos 0) (min_ℤ limit value)

unfoldable pub get_backoff_time : Retry → ℤ → ℤ
unfolding backoff_value clamp
get_backoff_time r draw =
    if leb (consecutive_errors_len r.history) 1
    then pos 0
    else clamp r.backoff_max (backoff_value r draw (consecutive_errors_len r.history))

clamp_bounds :
    (limit value : ℤ) → (pos 0 ≤ℤ clamp limit value) × (pos 0 ≤ℤ limit → clamp limit value ≤ℤ limit)
unfolding clamp
clamp_bounds limit value = (ground arith, λ h. ground arith)

clamp_mono : (limit a b : ℤ) → a ≤ℤ b → clamp limit a ≤ℤ clamp limit b
unfolding clamp
clamp_mono limit a b h = ground arith

-- The pause in terms of the number of errors in a row.
pause : Retry → ℤ → ℕ → ℤ
pause r draw n = if leb n 1 then pos 0 else clamp r.backoff_max (backoff_value r draw n)

pause-get_backoff_time :
    (r : Retry) (draw : ℤ)
    → get_backoff_time r draw ≡ pause r draw (consecutive_errors_len r.history)
pause-get_backoff_time r draw = unfold pause get_backoff_time in refl

pause_bounds :
    (r : Retry) (draw : ℤ) (n : ℕ)
    → (pos 0 ≤ℤ pause r draw n) × (pos 0 ≤ℤ r.backoff_max → pause r draw n ≤ℤ r.backoff_max)
unfolding pause
pause_bounds r draw n = elim (Bool-cases (leb n 1)) [
  | inl few ↦ rw few (omega arith, λ h. h)
  | inr many ↦ rw many (clamp_bounds r.backoff_max (backoff_value r draw n))
]

-- The pause is never negative, whatever the settings, and never above a non-negative `backoff_max`.
pub backoff_bounds :
    (r : Retry) (draw : ℤ)
    → (pos 0 ≤ℤ get_backoff_time r draw)
      × (pos 0 ≤ℤ r.backoff_max → get_backoff_time r draw ≤ℤ r.backoff_max)
backoff_bounds r draw =
    rw (pause-get_backoff_time r draw) (pause_bounds r draw (consecutive_errors_len r.history))

scale_pos : (f k : ℕ) → scale_ℤ (pos f) k ≡ pos (f * k)
unfolding scale_ℤ
scale_pos f k = ground arith

scale_double : (z : ℤ) (m : ℕ) → pos 0 ≤ℤ z → scale_ℤ z (2 ^ m) ≤ℤ scale_ℤ z (2 ^ suc m)
scale_double (pos f) m h =
    rw (scale_pos f (2 ^ m), scale_pos f (2 ^ suc m), pow-suc 2 m) (omega arith)
scale_double (negsuc f) m h = absurd (omega arith)

value_double :
    (r : Retry) (m : ℕ)
    → is_zero r.backoff_jitter ≡ true
    → pos 0 ≤ℤ r.backoff_factor
    → backoff_value r (pos 0) (suc m) ≤ℤ backoff_value r (pos 0) (suc (suc m))
unfolding backoff_value
value_double r m nojit h =
    let here : suc m - 1 ≡ m = omega arith in
    let next : suc (suc m) - 1 ≡ suc m = omega arith in
    rw nojit (rw (here, next) (scale_double r.backoff_factor m h))

pause_mono :
    (r : Retry) (n : ℕ)
    → is_zero r.backoff_jitter ≡ true
    → pos 0 ≤ℤ r.backoff_factor
    → pause r (pos 0) n ≤ℤ pause r (pos 0) (suc n)
unfolding pause
pause_mono r zero nojit h = omega arith
pause_mono r (suc zero) nojit h = (clamp_bounds r.backoff_max (backoff_value r (pos 0) 2)).0
pause_mono r (suc (suc m)) nojit h = ground (
  arith,
  clamp_mono r.backoff_max (backoff_value r (pos 0) (suc (suc m)))
      (backoff_value r (pos 0) (suc (suc (suc m)))) (value_double r (suc m) nojit h),
)

take_errors_snoc :
    (hs : List RequestHistory) (h : RequestHistory)
    → consecutive_errors_len (hs ++ h ∷ [])
      ≡ (if is_some h.redirect_location then 0 else suc (consecutive_errors_len hs))
unfolding consecutive_errors_len
take_errors_snoc hs h = rw (reverse-append hs (h ∷ [])) (ground arith)

-- The pause after one more entry.
abbrev pub extended : Retry → RequestHistory → Retry
extended r h = record r { history = r.history ++ h ∷ [] }

get_backoff_time-extended :
    (r : Retry) (h : RequestHistory) (draw : ℤ)
    → get_backoff_time (extended r h) draw
      ≡ pause r draw
          (if is_some h.redirect_location then 0 else suc (consecutive_errors_len r.history))
get_backoff_time-extended r h draw =
    unfold pause get_backoff_time in
    ap (λ n. if leb n 1 then pos 0 else clamp r.backoff_max (backoff_value r draw n))
      (take_errors_snoc r.history h)

-- A redirect resets the pause, and one more error never shortens it, if no jitter is set and the
-- factor is not negative.
pub backoff_history :
    (r : Retry) (h : RequestHistory)
    → is_zero r.backoff_jitter ≡ true
    → pos 0 ≤ℤ r.backoff_factor
    → (is_some h.redirect_location ≡ true → get_backoff_time (extended r h) (pos 0) ≡ pos 0)
      × (is_some h.redirect_location ≡ false
          → get_backoff_time r (pos 0) ≤ℤ get_backoff_time (extended r h) (pos 0))
backoff_history r h nojit factor = (
  λ red. rw (get_backoff_time-extended r h (pos 0), red) (unfold pause in refl),
  λ err.
      rw (get_backoff_time-extended r h (pos 0), pause-get_backoff_time r (pos 0), err)
        (pause_mono r (consecutive_errors_len r.history) nojit factor),
)

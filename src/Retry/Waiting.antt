-- ===== src/Retry/Waiting.antt =====
-- How long `Retry.sleep` sleeps: the server's `Retry-After`, or the pause of the backoff.
use urllib.Prelude.{
  ℕ, refl, sym, true, ◌*◌, ◌≡◌, subst, ◌⊎◌, inl, inr, Bool, false, Option, none, some, [], ◌∷◌,
  arith, if◌then◌else◌, Bool-cases, all,
}
use urllib.Prelude.Int.{ℤ, pos, max_ℤ, min_ℤ, is_zero, ◌-ℤ◌, ◌≤ℤ◌, ltb_ℤ, leb_ℤ}
use urllib.Prelude.Text.{Text, codes, strip, is_digit, decimal}
use urllib.Collections.HeaderDict.{get_item}
use urllib.Exceptions.{plain, invalid_header}
use urllib.Retry.{Retry, Response, second}
use urllib.Exceptions.{Outcome, ok, raises}
use urllib.Retry.Backoff.{get_backoff_time, backoff_bounds}

-- `re.match(r"^\s*[0-9]+\s*$", value)`: digits, with white space around them.
abbrev pub is_number : Text → Bool
is_number [] = false
is_number (c ∷ s) = all is_digit (c ∷ s)

-- `seconds = max(seconds, 0)`, then the limit.
unfoldable pub limited : ℤ → ℤ → ℤ
limited limit seconds =
    let seconds' = max_ℤ seconds (pos 0) in if ltb_ℤ limit seconds' then limit else seconds'

limited_bounds :
    (limit s : ℤ) → pos 0 ≤ℤ limit → (pos 0 ≤ℤ limited limit s) × (limited limit s ≤ℤ limit)
unfolding limited
limited_bounds limit s h = (ground arith, ground arith)

abbrev pub some_seconds : Outcome ℤ → Outcome (Option ℤ)
some_seconds (ok s) = ok (some s)
some_seconds (raises e) = raises e

-- The time slept for, if it slept: `if retry_after: time.sleep(retry_after)`.
abbrev pub slept_for : Outcome (Option ℤ) → Outcome (Option ℤ)
slept_for (raises e) = raises e
slept_for (ok none) = ok none
slept_for (ok (some s)) = if is_zero s then ok none else ok (some s)

-- The backoff where the header did not make it sleep.
abbrev pub or_backoff : Option ℤ → Outcome (Option ℤ) → Outcome (Option ℤ)
or_backoff backoff (raises e) = raises e
or_backoff backoff (ok none) = ok backoff
or_backoff backoff (ok (some s)) = ok (some s)

unfoldable pub sleep_backoff : Retry → ℤ → Option ℤ
sleep_backoff r draw =
    let backoff = get_backoff_time r draw in if leb_ℤ backoff (pos 0) then none else some backoff

slept_for-some :
    (o : Outcome (Option ℤ)) (s : ℤ)
    → slept_for o ≡ ok (some s)
    → (o ≡ ok (some s)) × (is_zero s ≡ false)
slept_for-some (raises e) s h = cc
slept_for-some (ok none) s h = cc
slept_for-some (ok (some t)) s h = (ground arith, ground arith)

some_seconds-some : (o : Outcome ℤ) (s : ℤ) → some_seconds o ≡ ok (some s) → o ≡ ok s
some_seconds-some (ok t) s h = ground arith
some_seconds-some (raises e) s h = cc

or_backoff-some :
    (backoff : Option ℤ) (o : Outcome (Option ℤ)) (s : ℤ)
    → or_backoff backoff o ≡ ok (some s)
    → (o ≡ ok (some s)) ⊎ (backoff ≡ some s)
or_backoff-some backoff (raises e) s h = cc
or_backoff-some backoff (ok none) s h = inr (ground arith)
or_backoff-some backoff (ok (some t)) s h = inl h

-- What the standard library and the clock answer: the date that a text stands for, as
-- `parsedate_tz` and `mktime_tz` read it (`ok none` where the first finds no date; the second raises a
-- `ValueError` for a year out of range), and `time.time()`.
module _ (parse_date : Text → Outcome (Option ℤ)) (now : ℤ) where
  -- A date, as the time that is left until then.
  abbrev pub until : Retry → Outcome (Option ℤ) → Outcome ℤ
  until r (raises e) = raises e
  until r (ok none) = raises (plain invalid_header)
  until r (ok (some retry_date)) = ok (limited r.retry_after_max (retry_date -ℤ now))

  unfoldable pub parse_retry_after : Retry → Text → Outcome ℤ
  parse_retry_after r retry_after =
      if is_number (strip retry_after)
      then ok (limited r.retry_after_max (pos (decimal 0 (strip retry_after) * second)))
      else until r (parse_date retry_after)

  abbrev pub header_seconds : Retry → Option Text → Outcome (Option ℤ)
  header_seconds r none = ok none
  header_seconds r (some retry_after) = some_seconds (parse_retry_after r retry_after)

  unfoldable pub get_retry_after : Retry → Response → Outcome (Option ℤ)
  get_retry_after r response = header_seconds r (get_item response.headers (codes "Retry-After"))

  unfoldable pub sleep_for_retry : Retry → Response → Outcome (Option ℤ)
  unfolding get_retry_after
  sleep_for_retry r response = slept_for (get_retry_after r response)

  unfoldable pub sleep : Retry → ℤ → Option Response → Outcome (Option ℤ)
  sleep r draw none = ok (sleep_backoff r draw)
  sleep r draw (some response) =
      if r.respect_retry_after_header
      then or_backoff (sleep_backoff r draw) (sleep_for_retry r response)
      else ok (sleep_backoff r draw)

  -- The seconds of a number, or those until a date but not below 0, cut at the limit.
  abbrev pub Times : Retry → Text → ℤ → Type 0
  Times r value s =
      ((is_number (strip value) ≡ true)
        × (s ≡ min_ℤ (pos (decimal 0 (strip value) * second)) r.retry_after_max))
      ⊎ ((is_number (strip value) ≡ false)
          × ((date : ℤ) × (parse_date value ≡ ok (some date))
              × (s ≡ min_ℤ (max_ℤ (date -ℤ now) (pos 0)) r.retry_after_max)))

  abbrev pub Reads : Retry → Text → Outcome ℤ → Type 0
  Reads r value (ok s) = (pos 0 ≤ℤ s) × (s ≤ℤ r.retry_after_max) × Times r value s
  Reads r value (raises e) =
      (is_number (strip value) ≡ false)
      × (((parse_date value ≡ ok none) × (e ≡ plain invalid_header))
          ⊎ (parse_date value ≡ raises e))

  limited-min : (limit : ℤ) (n : ℕ) → limited limit (pos n) ≡ min_ℤ (pos n) limit
  unfolding limited
  limited-min limit n = ground arith

  limited_date : (limit s : ℤ) → limited limit s ≡ min_ℤ (max_ℤ s (pos 0)) limit
  unfolding limited
  limited_date limit s = refl

  until-Reads :
      (r : Retry) (value : Text) (o : Outcome (Option ℤ))
      → pos 0 ≤ℤ r.retry_after_max
      → is_number (strip value) ≡ false
      → parse_date value ≡ o
      → Reads r value (until r o)
  until-Reads r value (raises e) h other q = (other, inr q)
  until-Reads r value (ok none) h other q = (other, inl (q, refl))
  until-Reads r value (ok (some date)) h other q =
      let (low, high) = limited_bounds r.retry_after_max (date -ℤ now) h in
      (low, high, inr (other, (date, q, limited_date r.retry_after_max (date -ℤ now))))

  -- If `retry_after_max` is not negative, a `Retry-After` value is read as a time between 0 and
  -- `retry_after_max`: the number of seconds, if it is a number, or else the time until the date that it
  -- stands for, and not below 0, cut at `retry_after_max`. It is refused exactly if it is no number and
  -- either no date, as an invalid header, or a date that the standard library fails on, with that error.
  pub parse_retry_after-Reads :
      (r : Retry) (value : Text)
      → pos 0 ≤ℤ r.retry_after_max
      → Reads r value (parse_retry_after r value)
  unfolding parse_retry_after
  parse_retry_after-Reads r value h = elim (Bool-cases (is_number (strip value))) [
    | inl digits ↦
        let (low, high) =
          limited_bounds r.retry_after_max (pos (decimal 0 (strip value) * second)) h in
        subst
          (λ b. Reads r value (
            if b
            then ok (limited r.retry_after_max (pos (decimal 0 (strip value) * second)))
            else until r (parse_date value)))
          (sym digits)
          (
            low,
            high,
            inl (digits, limited-min r.retry_after_max (decimal 0 (strip value) * second)),
          )
    | inr other ↦
        subst
          (λ b. Reads r value (
            if b
            then ok (limited r.retry_after_max (pos (decimal 0 (strip value) * second)))
            else until r (parse_date value)))
          (sym other) (until-Reads r value (parse_date value) h other refl)
  ]

  backoff_time :
      (r : Retry) (draw s : ℤ)
      → pos 0 ≤ℤ r.backoff_max
      → sleep_backoff r draw ≡ some s
      → (pos 1 ≤ℤ s) × (s ≤ℤ r.backoff_max)
  unfolding sleep_backoff
  backoff_time r draw s h q =
      let (low, high) = backoff_bounds r draw in let top = high h in (ground arith, ground arith)

  parsed_time :
      (r : Retry) (value : Text) (s : ℤ)
      → pos 0 ≤ℤ r.retry_after_max
      → parse_retry_after r value ≡ ok s
      → (pos 0 ≤ℤ s) × (s ≤ℤ r.retry_after_max)
  parsed_time r value s h q =
      let read = subst (λ o. Reads r value o) q (parse_retry_after-Reads r value h) in
      (read.0, read.1)

  header_seconds_time :
      (r : Retry) (value : Option Text) (s : ℤ)
      → pos 0 ≤ℤ r.retry_after_max
      → header_seconds r value ≡ ok (some s)
      → (pos 0 ≤ℤ s) × (s ≤ℤ r.retry_after_max)
  header_seconds_time r none s h q = cc
  header_seconds_time r (some value) s h q =
      parsed_time r value s h (some_seconds-some (parse_retry_after r value) s q)

  header_time :
      (r : Retry) (response : Response) (s : ℤ)
      → pos 0 ≤ℤ r.retry_after_max
      → sleep_for_retry r response ≡ ok (some s)
      → (pos 1 ≤ℤ s) × (s ≤ℤ r.retry_after_max)
  unfolding sleep_for_retry
  header_time r response s h q =
      let (got, nonzero) = slept_for-some (get_retry_after r response) s q in
      let (low, high) =
        header_seconds_time r (get_item response.headers (codes "Retry-After")) s h got in
      (ground arith, high)

  -- If `retry_after_max` and `backoff_max` are not negative, a sleep before a retry is positive and
  -- at most one of these two limits.
  pub sleep_bounds :
      (r : Retry) (draw : ℤ) (response : Option Response) (s : ℤ)
      → pos 0 ≤ℤ r.retry_after_max
      → pos 0 ≤ℤ r.backoff_max
      → sleep r draw response ≡ ok (some s)
      → (pos 1 ≤ℤ s) × ((s ≤ℤ r.retry_after_max) ⊎ (s ≤ℤ r.backoff_max))
  unfolding sleep
  sleep_bounds r draw none s h k q =
      let (low, high) = backoff_time r draw s k (ground arith) in (low, inr high)
  sleep_bounds r draw (some response) s h k q = elim (Bool-cases r.respect_retry_after_header) [
    | inl on ↦
        elim (or_backoff-some (sleep_backoff r draw) (sleep_for_retry r response) s
          (ground arith)) [
            | inl p ↦ let (low, high) = header_time r response s h p in (low, inl high)
            | inr p ↦ let (low, high) = backoff_time r draw s k p in (low, inr high)
          ]
    | inr off ↦ let (low, high) = backoff_time r draw s k (ground arith) in (low, inr high)
  ]

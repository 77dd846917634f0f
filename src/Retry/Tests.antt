-- ===== src/Retry/Tests.antt =====
-- Runs of `Retry`, and the theorems at them.
use urllib.Prelude.{
  ℕ, ◌≤◌, ◌-◌, ◌≡◌, ◌≢◌, refl, ◌⊎◌, inl, inr, Bool, true, false, not, Option, none, some, List, [],
  ◌∷◌, ◌++◌, any, arith, is_some, ◌||◌, ◌&&◌, if◌then◌else◌, length,
}
use urllib.Prelude.Int.{ℤ, pos, negsuc, ◌≤ℤ◌, is_zero}
use urllib.Prelude.Text.{Text, codes, strip}
use urllib.Collections.HeaderDict.Fields.{one}
use urllib.Prelude.{◌==◌}
use urllib.Prelude.Text.{text_eq}
use urllib.Exceptions.{
  Error, plain, exhausted, caused, read_timeout_error, connect_timeout_error, invalid_header,
  too_many_redirects, generic_error,
}
use urllib.Retry.{
  Retry, Params, Response, RequestHistory, default_params, init, new, is_connection_error,
  is_read_error, is_method_retryable, get_redirect_location, second, from_int, count, object,
  default_retry, is_exhausted,
}
use urllib.Retry.Counts.{unset, num, decrement}
use urllib.Exceptions.{Outcome, ok, raises}
use urllib.Retry.Increment.{Attempt, charge, reason, next, unsafe, increment, Charge}
use urllib.Retry.Exhaustion.{Judged, increment-Judged, increment_final}
use urllib.Retry.Termination.{
  start, again, Allowed-le-total, increment_effect, redirect-init, counters, charged, kind,
}
use urllib.Retry.Settings.{new-init}
use urllib.Retry.Backoff.{get_backoff_time, backoff_bounds, backoff_history, extended}
use urllib.Retry.Waiting.{
  parse_retry_after, parse_retry_after-Reads, Reads, is_number, sleep, sleep_bounds,
}

-- `Retry(total=1, backoff_factor=0.5)`
abbrev params_1 : Params
params_1 = record default_params { total = num (pos 1); backoff_factor = pos 500000 }

abbrev retry_1 : Retry
retry_1 = init params_1

abbrev timed_out : Attempt
timed_out = record {
  method = some (codes "GET");
  url = some (codes "/");
  response = none;
  error = some (plain read_timeout_error);
}

abbrev redirected : Attempt
redirected = record {
  method = some (codes "GET");
  url = some (codes "/");
  response = some (record {
    status = 302;
    headers = (codes "location", record { name = codes "Location"; held = one (codes "/a") }) ∷ [];
  });
  error = none;
}

abbrev posted : Attempt
posted = record timed_out { method = some (codes "POST") }

-- The object after one time-out.
abbrev retry_0 : Retry
retry_0 = next retry_1 timed_out (record {
  connect = unset;
  read = unset;
  redirect = unset;
  status_count = unset;
  other = unset;
  cause = generic_error;
  status = none;
  redirect_location = none;
})

first_timeout : increment retry_1 timed_out ≡ ok retry_0
unfolding increment init urllib.Retry.Increment.finish charge urllib.Retry.Increment.charge_error
    is_connection_error urllib.Exceptions.is_subclass is_read_error is_method_retryable
    urllib.Prelude.Text.upper is_exhausted next
first_timeout = refl

second_timeout :
    increment retry_0 timed_out ≡ raises (exhausted (some (codes "/")) (plain read_timeout_error))
unfolding increment init next urllib.Retry.Increment.finish charge
    urllib.Retry.Increment.charge_error is_connection_error urllib.Exceptions.is_subclass
    is_read_error is_method_retryable urllib.Prelude.Text.upper is_exhausted
second_timeout = refl

redirect_exhausted :
    increment retry_0 redirected ≡ raises (exhausted (some (codes "/")) (caused too_many_redirects))
unfolding increment init urllib.Retry.Increment.finish charge is_exhausted next
    urllib.Retry.Increment.charge_response get_redirect_location
    urllib.Collections.HeaderDict.get_item urllib.Dict.get urllib.Prelude.Text.lower
redirect_exhausted = refl

increment-Judged_example : Judged retry_0 timed_out (increment retry_0 timed_out)
increment-Judged_example = increment-Judged retry_0 timed_out

increment_final_example : increment retry_1 posted ≡ raises (plain read_timeout_error)
unfolding is_connection_error is_read_error init urllib.Exceptions.is_subclass is_method_retryable
    urllib.Prelude.Text.upper
increment_final_example =
    increment_final retry_1 posted (plain read_timeout_error) refl refl refl refl

Allowed-le-total_example : (1 ≤ 1) × (retry_0.total ≡ num (pos (1 - 1)))
Allowed-le-total_example =
    Allowed-le-total 1 (again timed_out start first_timeout) (unfold init in refl)

increment_effect_example :
    (retry_0.total ≡ decrement retry_1.total)
    × (counters retry_0 ≡ charged (kind timed_out.error timed_out.response) (counters retry_1))
    × ((h : RequestHistory) × (retry_0.history ≡ retry_1.history ++ h ∷ [])
        × (h.method ≡ timed_out.method)
        × (h.url ≡ timed_out.url)
        × (h.error ≡ timed_out.error))
increment_effect_example =
    increment_effect retry_1 retry_0 timed_out (redirect-init params_1) first_timeout

new-init_example : new (λ q. q) (init params_1) ≡ init params_1
new-init_example = new-init params_1

backoff_bounds_example :
    (pos 0 ≤ℤ get_backoff_time retry_0 (pos 0))
    × (pos 0 ≤ℤ retry_0.backoff_max → get_backoff_time retry_0 (pos 0) ≤ℤ retry_0.backoff_max)
backoff_bounds_example = backoff_bounds retry_0 (pos 0)

abbrev failure : RequestHistory
failure = record {
  method = none;
  url = none;
  error = none;
  status = none;
  redirect_location = none;
}

backoff_history_example :
    (is_some failure.redirect_location ≡ true
      → get_backoff_time (extended retry_0 failure) (pos 0) ≡ pos 0)
    × (is_some failure.redirect_location ≡ false
        → get_backoff_time retry_0 (pos 0) ≤ℤ get_backoff_time (extended retry_0 failure) (pos 0))
unfolding init next
backoff_history_example = backoff_history retry_0 failure refl (omega arith)

-- A clock at second 100, and one date, at second 160.
abbrev one_date : Text → Outcome (Option ℤ)
one_date t = ok (if t == codes "Sat" then some (pos 160000000) else none)

read_date : parse_retry_after one_date (pos 100000000) retry_1 (codes "Sat") ≡ ok (pos 60000000)
unfolding parse_retry_after init strip urllib.Prelude.Text.is_digit urllib.Retry.Waiting.limited
    urllib.Prelude.Int.◌-ℤ◌
read_date = refl

read_number : parse_retry_after one_date (pos 0) retry_1 (codes " 120 ") ≡ ok (pos 120000000)
unfolding parse_retry_after init strip urllib.Prelude.Text.is_digit urllib.Retry.Waiting.limited
    urllib.Prelude.Text.decimal
read_number = refl

parse_retry_after-Reads_example :
    Reads one_date
      (pos 0)
      retry_1
      (codes "Sat")
      (parse_retry_after one_date (pos 0) retry_1 (codes "Sat"))
unfolding init
parse_retry_after-Reads_example =
    parse_retry_after-Reads one_date (pos 0) retry_1 (codes "Sat") (omega arith)

abbrev unavailable : Response
unavailable = record {
  status = 503;
  headers =
      (codes "retry-after", record { name = codes "Retry-After"; held = one (codes "9") }) ∷ [];
}

sleep_bounds_example :
    (pos 1 ≤ℤ pos 9000000)
    × ((pos 9000000 ≤ℤ retry_1.retry_after_max) ⊎ (pos 9000000 ≤ℤ retry_1.backoff_max))
unfolding sleep init urllib.Retry.Waiting.sleep_for_retry urllib.Collections.HeaderDict.get_item
    urllib.Dict.get urllib.Prelude.Text.lower parse_retry_after strip urllib.Prelude.Text.is_digit
    urllib.Retry.Waiting.limited urllib.Prelude.Text.decimal
sleep_bounds_example =
    sleep_bounds one_date (pos 0) retry_1 (pos 0) (some unavailable) (pos 9000000) (omega arith)
      (omega arith) refl

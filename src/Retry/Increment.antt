-- ===== src/Retry/Increment.antt =====
-- `Retry.increment`: what one more attempt costs, or the error that it ends in.
use urllib.Prelude.{
  ℕ, Bool, true, false, not, Option, none, some, [], ◌∷◌, ◌++◌, ◌||◌, ◌=ℕ◌, if◌then◌else◌,
}
use urllib.Prelude.Text.{Text}
use urllib.Exceptions.{
  Outcome, ok, raises, Error, exhausted, caused, Cause, too_many_redirects, generic_error,
  specific_error,
}
use urllib.Retry.{
  Retry, Params, Response, RequestHistory, filled, get_redirect_location, new, is_connection_error,
  is_read_error, is_method_retryable, is_exhausted,
}
use urllib.Retry.Counts.{Count, is_flag, decrement}

-- The arguments of `increment`.
pub record Attempt : Type 0 where
  pub method : Option Text
  pub url : Option Text
  pub response : Option Response
  pub error : Option Error

-- The local variables of `increment` when the branches have met again.
pub record Charge : Type 0 where
  pub connect : Count
  pub read : Count
  pub redirect : Count
  pub status_count : Count
  pub other : Count
  pub cause : Cause
  pub status : Option ℕ
  pub redirect_location : Option Text

-- No counter is charged yet. (The cause is read only if there is no error.)
abbrev pub uncharged : Retry → Charge
uncharged r = record {
  connect = r.connect;
  read = r.read;
  redirect = r.redirect;
  status_count = r.status;
  other = r.other;
  cause = generic_error;
  status = none;
  redirect_location = none;
}

-- `method is None or not self._is_method_retryable(method)`
abbrev pub unsafe : Retry → Option Text → Bool
unsafe r none = true
unsafe r (some method) = not (is_method_retryable r method)

unfoldable pub charge_error : Retry → Option Text → Error → Outcome Charge
charge_error r method e =
    if is_connection_error e
    then (if is_flag false r.connect
        then raises e
        else ok (record (uncharged r) { connect = decrement r.connect }))
    else if is_read_error e
    then (if is_flag false r.read || unsafe r method
        then raises e
        else ok (record (uncharged r) { read = decrement r.read }))
    else ok (record (uncharged r) { other = decrement r.other })

unfoldable pub charge_response : Retry → Option Response → Charge
charge_response r none = uncharged r
charge_response r (some response) =
    if filled (get_redirect_location response)
    then record (uncharged r) {
      redirect = decrement r.redirect;
      cause = too_many_redirects;
      status = some response.status;
      redirect_location = get_redirect_location response;
    }
    else if response.status =ℕ 0
    then uncharged r
    else record (uncharged r) {
      status_count = decrement r.status;
      cause = specific_error response.status;
      status = some response.status;
    }

abbrev pub charge_for : Retry → Attempt → Option Error → Outcome Charge
charge_for r a (some e) = charge_error r a.method e
charge_for r a none = ok (charge_response r a.response)

unfoldable pub charge : Retry → Attempt → Outcome Charge
charge r a = charge_for r a a.error

abbrev pub entry : Attempt → Charge → RequestHistory
entry a c = record {
  method = a.method;
  url = a.url;
  error = a.error;
  status = c.status;
  redirect_location = c.redirect_location;
}

-- The keyword arguments of `self.new(…)`.
abbrev pub updated : Retry → Attempt → Charge → Params → Params
updated r a c p = record p {
  total = decrement r.total;
  connect = c.connect;
  read = c.read;
  redirect = c.redirect;
  status = c.status_count;
  other = c.other;
  history = some (r.history ++ entry a c ∷ []);
}

-- `error or ResponseError(cause)`
abbrev pub reason : Attempt → Charge → Error
reason a c = elim a.error [ some e ↦ e | none ↦ caused c.cause ]

unfoldable pub next : Retry → Attempt → Charge → Retry
unfolding new
next r a c = new (updated r a c) r

unfoldable pub finish : Retry → Attempt → Outcome Charge → Outcome Retry
finish r a (raises e) = raises e
finish r a (ok c) =
    if is_exhausted (next r a c) then raises (exhausted a.url (reason a c)) else ok (next r a c)

-- `if self.total is False and error: raise reraise(…)`
abbrev pub unless_disabled : Retry → Option Error → Outcome Retry → Outcome Retry
unless_disabled r none o = o
unless_disabled r (some e) o = if is_flag false r.total then raises e else o

unfoldable pub increment : Retry → Attempt → Outcome Retry
increment r a = unless_disabled r a.error (finish r a (charge r a))

-- ===== src/Retry.antt =====
-- `Retry` of src/urllib3/util/retry.py. A retry count is `None`, a `bool` or an `int`. Times are
-- whole numbers of a fixed unit of time (microseconds), where the source computes with floats.
pub mod Counts
pub mod Backoff
pub mod Increment
pub mod Exhaustion
pub mod Termination
pub mod Settings
pub mod Waiting
pub mod Tests
use urllib.Prelude.{
  ℕ, ◌-◌, ◌+◌, Bool, true, false, not, Option, none, some, is_some, List, [], ◌∷◌, ◌++◌, map, any,
  ◌==◌, ◌&&◌, ◌||◌, if◌then◌else◌, nat_eq,
}
use urllib.Prelude.Int.{ℤ, pos}
use urllib.Prelude.Text.{Text, codes, lower, upper, text_eq}
use urllib.Collections.HeaderDict.{HeaderDict, get_item}
use urllib.Exceptions.{
  Error, exhausted, caused, Cause, too_many_redirects, generic_error, specific_error, is_instance,
  original_error, proxy_error, connect_timeout_error, read_timeout_error, protocol_error,
}
use Counts.{Count, unset, flag, num, is_flag, decrement, out_of_retries, truthy}

-- The attributes of a response that the retry logic reads.
pub record Response : Type 0 where
  pub status : ℕ
  pub headers : HeaderDict

abbrev pub redirect_statuses : List ℕ
redirect_statuses = 301 ∷ 302 ∷ 303 ∷ 307 ∷ 308 ∷ []

abbrev pub among : ℕ → List ℕ → Bool
among n ns = any (λ m. m == n) ns

-- `get_redirect_location`; `None` and `False` are both `none`.
unfoldable pub get_redirect_location : Response → Option Text
get_redirect_location r =
    if among r.status redirect_statuses then get_item r.headers (codes "location") else none

-- A text that is there and not empty.
abbrev pub filled : Option Text → Bool
filled none = false
filled (some []) = false
filled (some (c ∷ t)) = true

pub record RequestHistory : Type 0 where
  pub method : Option Text
  pub url : Option Text
  pub error : Option Error
  pub status : Option ℕ
  pub redirect_location : Option Text

-- The parameters of `__init__`, and the object that it makes.
pub record Params : Type 0 where
  pub total : Count
  pub connect : Count
  pub read : Count
  pub redirect : Count
  pub status : Count
  pub other : Count
  pub allowed_methods : Option (List Text)
  pub status_forcelist : Option (List ℕ)
  pub backoff_factor : ℤ
  pub backoff_max : ℤ
  pub raise_on_redirect : Bool
  pub raise_on_status : Bool
  pub history : Option (List RequestHistory)
  pub respect_retry_after_header : Bool
  pub remove_headers_on_redirect : List Text
  pub backoff_jitter : ℤ
  pub retry_after_max : ℤ

pub record Retry : Type 0 where
  pub total : Count
  pub connect : Count
  pub read : Count
  pub redirect : Count
  pub status : Count
  pub other : Count
  pub allowed_methods : Option (List Text)
  pub status_forcelist : List ℕ
  pub backoff_factor : ℤ
  pub backoff_max : ℤ
  pub raise_on_redirect : Bool
  pub raise_on_status : Bool
  pub history : List RequestHistory
  pub respect_retry_after_header : Bool
  pub remove_headers_on_redirect : List Text
  pub backoff_jitter : ℤ
  pub retry_after_max : ℤ

abbrev pub or_empty {ℓ} : {A : Type ℓ} → Option (List A) → List A
or_empty none = []
or_empty (some xs) = xs

abbrev pub second : ℕ
second = 1000000

abbrev pub default_params : Params
default_params = record {
  total = num (pos 10);
  connect = unset;
  read = unset;
  redirect = unset;
  status = unset;
  other = unset;
  allowed_methods = some (
      codes "HEAD"
      ∷ codes "GET"
      ∷ codes "PUT"
      ∷ codes "DELETE"
      ∷ codes "OPTIONS"
      ∷ codes "TRACE"
      ∷ []);
  status_forcelist = none;
  backoff_factor = pos 0;
  backoff_max = pos 120000000;
  raise_on_redirect = true;
  raise_on_status = true;
  history = none;
  respect_retry_after_header = true;
  remove_headers_on_redirect =
      codes "Cookie" ∷ codes "Authorization" ∷ codes "Proxy-Authorization" ∷ [];
  backoff_jitter = pos 0;
  retry_after_max = pos 21600000000;
}

-- `redirect is False or total is False`
abbrev pub redirects_off : Params → Bool
redirects_off p = is_flag false p.redirect || is_flag false p.total

unfoldable pub init : Params → Retry
init p = record {
  total = p.total;
  connect = p.connect;
  read = p.read;
  redirect = if redirects_off p then num (pos 0) else p.redirect;
  status = p.status;
  other = p.other;
  allowed_methods = p.allowed_methods;
  status_forcelist = or_empty p.status_forcelist;
  backoff_factor = p.backoff_factor;
  backoff_max = p.backoff_max;
  raise_on_redirect = if redirects_off p then false else p.raise_on_redirect;
  raise_on_status = p.raise_on_status;
  history = or_empty p.history;
  respect_retry_after_header = p.respect_retry_after_header;
  remove_headers_on_redirect = map lower p.remove_headers_on_redirect;
  backoff_jitter = p.backoff_jitter;
  retry_after_max = p.retry_after_max;
}

-- The `params` of `new`, before `params.update(kw)`.
unfoldable pub params : Retry → Params
params r = record {
  total = r.total;
  connect = r.connect;
  read = r.read;
  redirect = r.redirect;
  status = r.status;
  other = r.other;
  allowed_methods = r.allowed_methods;
  status_forcelist = some r.status_forcelist;
  backoff_factor = r.backoff_factor;
  backoff_max = r.backoff_max;
  raise_on_redirect = r.raise_on_redirect;
  raise_on_status = r.raise_on_status;
  history = some r.history;
  respect_retry_after_header = r.respect_retry_after_header;
  remove_headers_on_redirect = r.remove_headers_on_redirect;
  backoff_jitter = r.backoff_jitter;
  retry_after_max = r.retry_after_max;
}

-- `new(**kw)`, where `kw` is what changes in the parameters.
unfoldable pub new : (Params → Params) → Retry → Retry
unfolding init params
new kw r = init (kw (params r))

-- What a caller may pass for retries.
pub data Retries : Type 0 where
  object : Retry → Retries
  count : Count → Retries

-- `Retry.DEFAULT`
unfoldable pub default_retry : Retry
unfolding init
default_retry = init (record default_params { total = num (pos 3) })

-- `cls(retries, redirect=bool(redirect) and None)`
unfoldable pub from_count : Count → Count → Retry
unfolding init
from_count retries redirect = init (record default_params {
  total = retries;
  redirect = if truthy redirect then unset else flag false;
})

-- The first argument, or the default if it is `None`.
abbrev pub or_default : Retries → Option Retries → Retries
or_default (object r) default = object r
or_default (count unset) none = object default_retry
or_default (count unset) (some d) = d
or_default (count (flag b)) default = count (flag b)
or_default (count (num z)) default = count (num z)

unfoldable pub from_int : Retries → Count → Option Retries → Retry
unfolding from_count
from_int retries redirect default = elim (or_default retries default) [
  | object r ↦ r
  | count c ↦ from_count c redirect
]

unfoldable pub is_connection_error : Error → Bool
is_connection_error err =
    is_instance (if is_instance err proxy_error then original_error err else err)
      connect_timeout_error

unfoldable pub is_read_error : Error → Bool
is_read_error err = is_instance err read_timeout_error || is_instance err protocol_error

-- An empty collection allows every method, as `None` does.
abbrev pub allows : Option (List Text) → Text → Bool
allows none m = true
allows (some []) m = true
allows (some (a ∷ as_)) m = any (λ b. b == m) (a ∷ as_)

unfoldable pub is_method_retryable : Retry → Text → Bool
is_method_retryable r method = allows r.allowed_methods (upper method)

abbrev pub retry_after_status_codes : List ℕ
retry_after_status_codes = 413 ∷ 429 ∷ 503 ∷ []

unfoldable pub is_retry : Retry → Text → ℕ → Bool → Bool
is_retry r method status_code has_retry_after =
    if not (is_method_retryable r method)
    then false
    else if among status_code r.status_forcelist
    then true
    else truthy r.total
      && r.respect_retry_after_header
      && has_retry_after
      && among status_code retry_after_status_codes

unfoldable pub is_exhausted : Retry → Bool
unfolding out_of_retries
is_exhausted r =
    out_of_retries (r.total ∷ r.connect ∷ r.read ∷ r.redirect ∷ r.status ∷ r.other ∷ [])

-- ===== src/Exceptions.antt =====
-- src/urllib3/exceptions.py: the classes of exceptions and their bases, and the exception objects
-- that the retry logic tells apart. Messages are not modelled.
use urllib.Prelude.{ℕ, zero, suc, Bool, true, Option, List, [], ◌∷◌, any, ◌||◌, ◌=ℕ◌, ◌≡◌, refl}
use urllib.Prelude.Text.{Text}

-- The classes of exceptions.py, and below them the classes of Python that they and their callers
-- name. `TimeoutError` and `HTTPException` of Python carry the prefix `python`.
pub data Class : Type 0 where
  http_error http_warning pool_error request_error ssl_error proxy_error decode_error : Class
  protocol_error max_retry_error host_changed_error timeout_state_error timeout_error : Class
  read_timeout_error connect_timeout_error new_connection_error name_resolution_error : Class
  empty_pool_error full_pool_error closed_pool_error location_value_error : Class
  location_parse_error url_scheme_unknown response_error security_warning : Class
  insecure_request_warning not_open_ssl_warning system_time_warning : Class
  insecure_platform_warning dependency_warning response_not_chunked : Class
  body_not_httplib_compatible incomplete_read invalid_chunk_length invalid_header : Class
  proxy_scheme_unknown proxy_scheme_unsupported header_parsing_error : Class
  unrewindable_body_error : Class
  exception warning value_error assertion_error os_error : Class
  python_timeout_error python_http_exception python_incomplete_read base_ssl_error : Class
  certificate_error other_exception type_error runtime_error : Class

-- The bases in a `class` line.
unfoldable pub bases : Class → List Class
bases http_error = exception ∷ []
bases http_warning = warning ∷ []
bases pool_error = http_error ∷ []
bases request_error = pool_error ∷ []
bases ssl_error = http_error ∷ []
bases proxy_error = http_error ∷ []
bases decode_error = http_error ∷ []
bases protocol_error = http_error ∷ []
bases max_retry_error = request_error ∷ []
bases host_changed_error = request_error ∷ []
bases timeout_state_error = http_error ∷ []
bases timeout_error = http_error ∷ []
bases read_timeout_error = timeout_error ∷ request_error ∷ []
bases connect_timeout_error = timeout_error ∷ []
bases new_connection_error = connect_timeout_error ∷ http_error ∷ []
bases name_resolution_error = new_connection_error ∷ []
bases empty_pool_error = pool_error ∷ []
bases full_pool_error = pool_error ∷ []
bases closed_pool_error = pool_error ∷ []
bases location_value_error = value_error ∷ http_error ∷ []
bases location_parse_error = location_value_error ∷ []
bases url_scheme_unknown = location_value_error ∷ []
bases response_error = http_error ∷ []
bases security_warning = http_warning ∷ []
bases insecure_request_warning = security_warning ∷ []
bases not_open_ssl_warning = security_warning ∷ []
bases system_time_warning = security_warning ∷ []
bases insecure_platform_warning = security_warning ∷ []
bases dependency_warning = http_warning ∷ []
bases response_not_chunked = protocol_error ∷ value_error ∷ []
bases body_not_httplib_compatible = http_error ∷ []
bases incomplete_read = http_error ∷ python_incomplete_read ∷ []
bases invalid_chunk_length = http_error ∷ python_incomplete_read ∷ []
bases invalid_header = http_error ∷ []
bases proxy_scheme_unknown = assertion_error ∷ url_scheme_unknown ∷ []
bases proxy_scheme_unsupported = value_error ∷ []
bases header_parsing_error = http_error ∷ []
bases unrewindable_body_error = http_error ∷ []
bases exception = []
bases warning = exception ∷ []
bases value_error = exception ∷ []
bases assertion_error = exception ∷ []
bases os_error = exception ∷ []
bases python_timeout_error = os_error ∷ []
bases python_http_exception = exception ∷ []
bases python_incomplete_read = python_http_exception ∷ []
bases base_ssl_error = os_error ∷ []
bases certificate_error = value_error ∷ []
bases other_exception = exception ∷ []
bases type_error = exception ∷ []
bases runtime_error = exception ∷ []

-- The place of a class in the list above, to compare classes by.
abbrev pub index : Class → ℕ
index http_error = 0
index http_warning = 1
index pool_error = 2
index request_error = 3
index ssl_error = 4
index proxy_error = 5
index decode_error = 6
index protocol_error = 7
index max_retry_error = 8
index host_changed_error = 9
index timeout_state_error = 10
index timeout_error = 11
index read_timeout_error = 12
index connect_timeout_error = 13
index new_connection_error = 14
index name_resolution_error = 15
index empty_pool_error = 16
index full_pool_error = 17
index closed_pool_error = 18
index location_value_error = 19
index location_parse_error = 20
index url_scheme_unknown = 21
index response_error = 22
index security_warning = 23
index insecure_request_warning = 24
index not_open_ssl_warning = 25
index system_time_warning = 26
index insecure_platform_warning = 27
index dependency_warning = 28
index response_not_chunked = 29
index body_not_httplib_compatible = 30
index incomplete_read = 31
index invalid_chunk_length = 32
index invalid_header = 33
index proxy_scheme_unknown = 34
index proxy_scheme_unsupported = 35
index header_parsing_error = 36
index unrewindable_body_error = 37
index exception = 38
index warning = 39
index value_error = 40
index assertion_error = 41
index os_error = 42
index python_timeout_error = 43
index python_http_exception = 44
index python_incomplete_read = 45
index base_ssl_error = 46
index certificate_error = 47
index other_exception = 48
index type_error = 49
index runtime_error = 50

-- `issubclass`. No class is more than seven bases away from `Exception`.
unfoldable pub subclass_within : ℕ → Class → Class → Bool
subclass_within zero c d = index c =ℕ index d
subclass_within (suc n) c d = index c =ℕ index d || any (λ b. subclass_within n b d) (bases c)

unfoldable pub is_subclass : Class → Class → Bool
unfolding subclass_within bases
is_subclass = subclass_within 7

-- The reason of a `MaxRetryError` that no exception caused: `ResponseError(cause)`.
pub data Cause : Type 0 where
  too_many_redirects generic_error : Cause
  specific_error : ℕ → Cause

-- The `errno` of an `OSError`.
pub data Errno : Type 0 where
  would_block broken_pipe wrong_protocol_type connection_reset : Errno
  other_errno : ℕ → Errno

-- An exception object: its class, and the attributes that the program reads again.
pub data Error : Type 0 where
  plain : Class → Error
  -- an `OSError` with an `errno`; a `BrokenPipeError` is the one with `broken_pipe`
  system : Errno → Error
  -- `original_error`
  proxied : Error → Error
  caused : Cause → Error
  -- the url and the reason
  exhausted : Option Text → Error → Error
  -- `ProtocolError("Connection aborted.", err)` and `SSLError(err)`
  aborted secured : Error → Error
  -- `ProtocolError("Connection broken", err)` of a response
  broken : Error → Error

abbrev pub class_of : Error → Class
class_of (plain c) = c
class_of (system errno) = os_error
class_of (proxied e) = proxy_error
class_of (caused c) = response_error
class_of (exhausted url e) = max_retry_error
class_of (aborted e) = protocol_error
class_of (secured e) = ssl_error
class_of (broken e) = protocol_error

-- What a call returns, or the exception that it raises.
pub data Outcome {ℓ} (A : Type ℓ) : Type ℓ where
  ok : A → Outcome A
  raises : Error → Outcome A

-- `isinstance(e, c)`
abbrev pub is_instance : Error → Class → Bool
is_instance e c = is_subclass (class_of e) c

-- `e.original_error` of a `ProxyError`, which is given one; any other error is left as it is.
abbrev pub original_error : Error → Error
original_error (proxied e) = e
original_error e = e

name_resolution_is_timeout : is_subclass name_resolution_error timeout_error ≡ true
unfolding is_subclass
name_resolution_is_timeout = refl

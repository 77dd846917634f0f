-- ===== src/Request/Exchange.antt =====
-- One exchange on a connection: `_get_timeout`, `_raise_timeout` and `_make_request` of
-- src/urllib3/connectionpool.py, and what `urlopen` makes of the errors that end it.
use urllib.Prelude.{
  ℕ, Bool, true, false, not, ◌&&◌, ◌||◌, Option, none, some, List, [], ◌∷◌, any, if◌then◌else◌,
}
use urllib.Prelude.Int.{ℤ, is_zero}
use urllib.Exceptions.{
  Class, Error, Outcome, ok, raises, plain, system, proxied, aborted, secured, is_instance,
  would_block, broken_pipe, wrong_protocol_type, connection_reset, os_error, base_ssl_error,
  certificate_error, ssl_error, timeout_error, new_connection_error, python_timeout_error,
  python_http_exception, protocol_error, proxy_error, read_timeout_error,
}
use urllib.Timeout.{
  Timeout, Given, from_float, clone, start_connect, connect_timeout, read_timeout, ◌>>=◌,
}
use urllib.Retry.{Response}

-- The `timeout` argument of a request.
pub data TimeoutArg : Type 0 where
  unspecified : TimeoutArg
  object : Timeout → TimeoutArg
  number : Given → TimeoutArg

-- The first argument is the pool's own timeout.
unfoldable pub get_timeout : Timeout → TimeoutArg → Outcome Timeout
unfolding clone from_float
get_timeout own unspecified = clone own
get_timeout own (object t) = clone t
get_timeout own (number n) = from_float n

-- The error has an `errno` that says that a call would block.
abbrev pub blocks : Error → Bool
blocks (system would_block) = true
blocks e = false

-- `_raise_timeout` and the `raise` after it.
unfoldable pub raise_timeout : Error → Error
raise_timeout e =
    if is_instance e python_timeout_error || blocks e then plain read_timeout_error else e

abbrev pub instance_of : List Class → Error → Bool
instance_of classes e = any (λ c. is_instance e c) classes

-- `SSLError(e)` for an error of the ssl module or a bad certificate.
abbrev pub as_ssl_error : Error → Error
as_ssl_error e = if instance_of (base_ssl_error ∷ certificate_error ∷ []) e then secured e else e

-- `_wrap_proxy_error`, if the connection did not reach its proxy and the error is of these classes.
abbrev pub as_proxy_error : Bool → List Class → Error → Error
as_proxy_error unreached classes e = if instance_of classes e && unreached then proxied e else e

-- The environment's part in one attempt. The connection is code of connection.py on top of
-- http.client; what its methods do is given by what they return or raise.
pub record Turn : Type 0 where
  -- `is_connection_dropped`
  pub dropped : ℕ → Bool
  -- `conn.is_closed` before the request, and after it is sent
  pub closed_before : Bool
  pub closed_after : Bool
  -- `conn.proxy and not conn.has_connected_to_proxy`, where an error is handled
  pub unreached_proxy : Bool
  -- the errors of `_prepare_proxy`, `_validate_conn` and `conn.request`
  pub prepared : Option Error
  pub validated : Option Error
  pub requested : Option Error
  pub answer : Outcome Response
  -- `time.monotonic()` when the clock is started, and when the request is sent
  pub began : ℤ
  pub sent_at : ℤ
  -- `time.time()` and the random draw, for a sleep
  pub now : ℤ
  pub draw : ℤ
  -- where the file of the body stands after the attempt
  pub stands : ℕ

abbrev pub nothing_raised : Option Error → Outcome (Unit {0})
nothing_raised none = ok tt
nothing_raised (some e) = raises e

-- The errors of `_validate_conn`.
abbrev pub validation_error : Bool → Error → Error
validation_error unreached e =
    let e' =
      if instance_of (python_timeout_error ∷ base_ssl_error ∷ []) e then raise_timeout e else e in
    if instance_of
      (os_error ∷ new_connection_error ∷ timeout_error ∷ base_ssl_error ∷ certificate_error
        ∷ ssl_error ∷ [])
      e'
    then as_proxy_error unreached (os_error ∷ new_connection_error ∷ timeout_error ∷ ssl_error ∷ [])
        (as_ssl_error e')
    else e'

-- The errors of `conn.request` that are let pass, since a response may have come before them.
abbrev pub is_swallowed : Error → Bool
is_swallowed (system broken_pipe) = true
is_swallowed (system wrong_protocol_type) = true
is_swallowed (system connection_reset) = true
is_swallowed e = false

abbrev pub unless_swallowed : Option Error → Option Error
unless_swallowed none = none
unless_swallowed (some e) = if is_swallowed e then none else some e

-- `read_timeout == 0` on an open connection.
abbrev pub no_time_left : Bool → Option ℤ → Bool
no_time_left closed none = false
no_time_left closed (some limit) = not closed && is_zero limit

-- The errors of `conn.getresponse()`.
abbrev pub received : Outcome Response → Outcome Response
received (ok response) = ok response
received (raises e) =
    if instance_of (base_ssl_error ∷ os_error ∷ []) e then raises (raise_timeout e) else raises e

abbrev pub in_time : Bool → Outcome Response → Outcome Response
in_time late answer = if late then raises (plain read_timeout_error) else received answer

abbrev pub validation : Turn → Option Error
validation t = elim t.validated [
  | none ↦ none
  | some e ↦ some (validation_error t.unreached_proxy e)
]

-- `default` is the default timeout of sockets, `own` that of the pool.
unfoldable pub make_request : Option ℤ → Timeout → Turn → Timeout → Outcome Response
unfolding get_timeout start_connect connect_timeout read_timeout raise_timeout
make_request default own t timeout = do
  copy ← get_timeout own (object timeout)
  (began, timeout_obj) ← start_connect copy t.began
  limit ← connect_timeout timeout_obj
  checked ← nothing_raised (validation t)
  sent ← nothing_raised (unless_swallowed t.requested)
  left ← read_timeout default timeout_obj t.sent_at
  in_time (no_time_left t.closed_after left) t.answer

-- The errors after which `urlopen` may try again.
abbrev pub handled : Error → Bool
handled = instance_of (
    timeout_error ∷ python_http_exception ∷ os_error ∷ protocol_error ∷ base_ssl_error ∷ ssl_error
    ∷ certificate_error ∷ proxy_error ∷ [])

-- `ProtocolError("Connection aborted.", e)`
abbrev pub as_protocol_error : Error → Error
as_protocol_error e = if instance_of (os_error ∷ python_http_exception ∷ []) e then aborted e else e

-- `new_e`, which is charged to the retries.
unfoldable pub translated : Bool → Error → Error
translated unreached e =
    let new_e = as_ssl_error e in
    if instance_of
        (os_error ∷ new_connection_error ∷ timeout_error ∷ ssl_error ∷ python_http_exception ∷ [])
        new_e
      && unreached
    then proxied new_e
    else as_protocol_error new_e

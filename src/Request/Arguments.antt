-- ===== src/Request/Arguments.antt =====
-- The arguments of `HTTPConnectionPool.urlopen`, src/urllib3/connectionpool.py, and what it does with
-- them before it asks for a connection.
use urllib.Prelude.{
  ℕ, Bool, false, not, ◌&&◌, Option, none, some, List, [], ◌∷◌, any, ◌==◌, if◌then◌else◌,
}
use urllib.Prelude.Int.{ℤ}
use urllib.Prelude.Text.{Text, codes, lower, text_eq}
use urllib.Collections.HeaderDict.{HeaderDict, set_item, discard, itermerged}
use urllib.Exceptions.{Outcome, ok, raises, plain, host_changed_error}
use urllib.Timeout.{Timeout, ◌>>=◌}
use urllib.Retry.{Retry, Retries, Response}
use urllib.Pool.{Pool}
use urllib.Request.Body.{Body, Position, set_file_position}
use urllib.Request.Exchange.{TimeoutArg, get_timeout}

-- What urlopen asks of the URL component: the target to send and the scheme of an absolute URL, or a
-- parse error; and whether a URL is on the pool's host, or a parse error.
pub record Urls : Type 0 where
  pub normalise : Text → Outcome (Text × Option Text)
  pub is_same_host : Text → Outcome Bool

-- The attributes of the pool that requests read.
pub record Settings : Type 0 where
  -- the scheme of the proxy's URL
  pub proxy : Option Text
  -- `proxy_config` is given and has `use_forwarding_for_https`
  pub forwards_https : Bool
  pub proxy_headers : HeaderDict
  pub headers : HeaderDict
  pub retries : Option Retries
  pub timeout : Timeout
  -- `socket.getdefaulttimeout()`
  pub system_timeout : Option ℤ

-- The arguments of a call of `urlopen`, as far as they change the loop.
pub record Request : Type 0 where
  pub method : Text
  pub url : Text
  pub body : Body
  pub headers : HeaderDict
  pub retries : Retry
  pub redirect : Bool
  pub assert_same_host : Bool
  pub timeout : TimeoutArg
  pub release_conn : Bool
  pub body_pos : Option Position

-- A call of `_make_request`: the connection, and what is sent.
pub record Sent : Type 0 where
  pub conn : ℕ
  pub request : Request
  -- where the file of the body stands
  pub stands : ℕ

pub record State : Type 0 where
  pub pool : Pool
  pub stands : ℕ
  pub sent : List Sent

-- A response, and the connection that it holds, which it gives back when it is drained.
pub record Answer : Type 0 where
  pub response : Response
  pub connection : Option ℕ

-- How an attempt ends: with the result of the whole call, or with another attempt.
pub data Next : Type 0 where
  finished : Outcome Answer → Next
  again : Request → Next

-- `connection_requires_http_tunnel`
unfoldable pub connection_requires_http_tunnel : Option Text → Bool → Option Text → Bool
connection_requires_http_tunnel none forwards_https destination_scheme = false
connection_requires_http_tunnel (some scheme) forwards_https none =
    not (scheme == codes "https" && forwards_https)
connection_requires_http_tunnel (some scheme) forwards_https (some destination) =
    if destination == codes "http" then false else not (scheme == codes "https" && forwards_https)

-- `headers.update(other)`: each field of the other is set, with its merged value.
unfoldable pub update_all : HeaderDict → List (Text × Text) → HeaderDict
update_all h [] = h
update_all h ((key, val) ∷ rest) = update_all (set_item h key val) rest

unfoldable pub update : HeaderDict → HeaderDict → HeaderDict
unfolding update_all
update h other = update_all h (itermerged other)

-- The loop over the headers before a redirect to another host.
unfoldable pub strip_headers : List Text → List Text → HeaderDict → HeaderDict
strip_headers unsafe [] h = h
strip_headers unsafe (name ∷ rest) h =
    strip_headers unsafe rest (if any (λ u. u == lower name) unsafe then discard h name else h)

-- An attempt up to the `try`: the request with its final target, headers and body position, whether
-- it needs a tunnel, and its timeouts.
pub record Prepared : Type 0 where
  pub request : Request
  pub tunnel : Bool
  pub timeout : Timeout

abbrev pub host_checked : Bool → Outcome (Unit {0})
host_checked changed = if changed then raises (plain host_changed_error) else ok tt

abbrev pub negated : Outcome Bool → Outcome Bool
negated (ok b) = ok (not b)
negated (raises e) = raises e

-- `assert_same_host and not self.is_same_host(url)`
abbrev pub host_changed : Urls → Bool → Text → Outcome Bool
host_changed u asserts url = if asserts then negated (u.is_same_host url) else ok false

abbrev pub with_proxy_headers : Settings → Bool → HeaderDict → HeaderDict
with_proxy_headers c tunnel headers = if tunnel then headers else update headers c.proxy_headers

module _ (u : Urls) (c : Settings) where
  -- Everything that may fail before the file of the body is touched: the target and the tunnel.
  abbrev pub checked : Request → Outcome (Text × Bool)
  checked q = do
    (url, scheme) ← u.normalise q.url
    changed ← host_changed u q.assert_same_host url
    same ← host_checked changed
    ok (url, connection_requires_http_tunnel c.proxy c.forwards_https scheme)

  abbrev pub timed : Request → Bool → Outcome Timeout → Outcome Prepared
  timed q tunnel (raises e) = raises e
  timed q tunnel (ok t) = ok (record { request = q; tunnel = tunnel; timeout = t })

  abbrev pub positioned : Request → Bool → Outcome (Option Position) → Outcome Prepared
  positioned q tunnel (raises e) = raises e
  positioned q tunnel (ok pos) =
      timed (record q { body_pos = pos }) tunnel (get_timeout c.timeout q.timeout)

  abbrev pub targeted : Request → Outcome (Text × Bool) → ℕ → Outcome Prepared × ℕ
  targeted q (raises e) stands = (raises e, stands)
  targeted q (ok (url, tunnel)) stands =
      let moved = set_file_position q.body q.body_pos stands in
      let q' = record q { url = url; headers = with_proxy_headers c tunnel q.headers } in
      (positioned q' tunnel moved.0, moved.1)

  unfoldable pub prepare : Request → ℕ → Outcome Prepared × ℕ
  unfolding set_file_position get_timeout
  prepare q stands = targeted q (checked q) stands

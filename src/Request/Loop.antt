-- ===== src/Request/Loop.antt =====
-- `HTTPConnectionPool.urlopen` of src/urllib3/connectionpool.py. One call of it is one attempt; where
-- it calls itself, the next attempt follows with the arguments of that call. An attempt meets one
-- `Turn` of the environment.
use urllib.Prelude.{
  ℕ, Bool, false, not, ◌&&◌, Option, none, some, List, [], ◌∷◌, ◌++◌, ◌=ℕ◌, if◌then◌else◌,
}
use urllib.Prelude.Int.{ℤ}
use urllib.Prelude.Text.{Text, codes, text_eq}
use urllib.Collections.HeaderDict.{HeaderDict, get_item, names, prepare_for_method_change}
use urllib.Exceptions.{
  Error, Outcome, ok, raises, is_instance, max_retry_error, empty_pool_error, os_error,
  base_ssl_error, python_timeout_error,
}
use urllib.Timeout.{connect_timeout, ◌>>=◌}
use urllib.Retry.{Retry, Retries, Response, from_int, is_retry, get_redirect_location, filled}
use urllib.Retry.Counts.{flag}
use urllib.Retry.Increment.{increment}
use urllib.Retry.Waiting.{sleep, sleep_for_retry}
use urllib.Pool.{Pool, Done, get_conn, put_conn, close_conn}
use urllib.Request.Body.{absent}
use urllib.Request.Exchange.{Turn, raise_timeout, instance_of, make_request, handled, translated}
use urllib.Request.Arguments.{
  Urls, Settings, Request, State, Answer, Next, finished, again, strip_headers, negated, Prepared,
  prepare,
}

abbrev pub tunnel_error : Error → Error
tunnel_error e =
    if instance_of (base_ssl_error ∷ os_error ∷ python_timeout_error ∷ []) e
    then raise_timeout e
    else e

-- `_prepare_proxy`, for a closed connection that needs a tunnel.
abbrev pub tunnelled : Settings → Turn → Bool → Option Error → Outcome (Unit {0})
tunnelled c t tunnel none = ok tt
tunnelled c t tunnel (some e) = if tunnel && t.closed_before then raises (tunnel_error e) else ok tt

-- `if response holds its connection`: what `release_conn` of a response does.
abbrev pub give_back : Option ℕ → Pool → Pool
give_back none p = p
give_back (some conn) p = (put_conn (some conn) p).1

-- `drain_conn`: the response is read to its end, and gives its connection back.
unfoldable pub drain : Answer → State → State
drain a s = record s { pool = give_back a.connection s.pool }

-- A connection that is closed, and the empty slot put back in its place.
unfoldable pub discard : Option ℕ → Pool → Done
unfolding close_conn put_conn
discard conn p = put_conn none (close_conn conn p)

-- The `finally` block: an error of `_put_conn` replaces how the attempt ends.
abbrev pub ended : State → Done → Next → Next × State
ended s (raises e, p) next = (finished (raises e), record s { pool = p })
ended s (ok _, p) next = (next, record s { pool = p })

-- The end of an attempt whose error was charged to the retries, by `increment`.
abbrev pub retried : Request → Outcome Retry → Next
retried q (raises e) = finished (raises e)
retried q (ok r) = again (record q { retries = r })

-- The `except` clauses but that for an empty pool.
unfoldable pub after_error : Turn → Request → Error → Next
after_error t q e =
    if handled e
    then retried q (
        increment q.retries (record {
          method = some q.method;
          url = some q.url;
          response = none;
          error = some (translated t.unreached_proxy e);
        }))
    else finished (raises e)

unfoldable pub failed : Turn → Request → Option ℕ → Error → State → Next × State
unfolding after_error discard
failed t q conn e s = ended s (discard conn s.pool) (after_error t q e)

-- `_get_conn` raised. There is no connection to give back to an empty pool.
abbrev pub no_conn : Turn → Request → Error → State → Next × State
no_conn t q e s =
    if is_instance e empty_pool_error then (finished (raises e), s) else failed t q none e s

-- The request of the next attempt after a redirect: for a 303, a `GET` without a body.
abbrev pub see_other : Response → Request → Request
see_other response q =
    if response.status =ℕ 303
    then record q {
      method = codes "GET";
      body = absent;
      headers = prepare_for_method_change q.headers;
    }
    else q

abbrev pub unless_empty : List Text → Outcome Bool → Outcome Bool
unless_empty [] b = ok false
unless_empty (x ∷ xs) b = b

-- Retries ran out on a response: it is returned, or drained and the error raised.
abbrev pub gave_up : Bool → Answer → Error → State → Next × State
gave_up raising a e s =
    if is_instance e max_retry_error && not raising
    then (finished (ok a), s)
    else (finished (raises e), if is_instance e max_retry_error then drain a s else s)

-- What follows a sleep, which fails on a `Retry-After` that cannot be read.
abbrev pub slept : Outcome (Option ℤ) → Request → State → Next × State
slept (raises e) q s = (finished (raises e), s)
slept (ok time) q s = (again q, s)

abbrev pub charged : Request → Text → Answer → Outcome Retry
charged q url a =
    increment q.retries
      (record { method = some q.method; url = some url; response = some a.response; error = none })

-- Whether headers are stripped; `is_same_host` may refuse the location.
abbrev pub is_foreign : Urls → Retry → Text → Outcome Bool
is_foreign u r location =
    unless_empty r.remove_headers_on_redirect (negated (u.is_same_host location))

abbrev pub stripped : Bool → Request → Request
stripped foreign q =
    if foreign
    then record q {
      headers = strip_headers q.retries.remove_headers_on_redirect (names q.headers) q.headers;
    }
    else q

module _ (parse_date : Text → Outcome (Option ℤ)) where
  abbrev pub redirect_to : Turn → Request → Answer → State → Outcome Retry → Next × State
  redirect_to t q a s (raises e) = gave_up q.retries.raise_on_redirect a e s
  redirect_to t q a s (ok r) =
      slept (sleep_for_retry parse_date t.now r a.response) (record q { retries = r }) (drain a s)

  abbrev pub retry_after_status : Turn → Request → Answer → State → Outcome Retry → Next × State
  retry_after_status t q a s (raises e) = gave_up q.retries.raise_on_status a e s
  retry_after_status t q a s (ok r) =
      slept (sleep parse_date t.now r t.draw (some a.response)) (record q { retries = r })
        (drain a s)

  -- The response is there, and the connection is back in the pool or held by the response.
  unfoldable pub judge_status : Turn → Request → Answer → State → Next × State
  unfolding sleep drain
  judge_status t q a s =
      if is_retry q.retries q.method a.response.status
        (filled (get_item a.response.headers (codes "Retry-After")))
      then retry_after_status t q a s (charged q q.url a)
      else (finished (ok a), s)

  -- The error of `is_same_host` leaves the connection with the response.
  abbrev pub followed : Turn → Request → Text → Answer → State → Outcome Bool → Next × State
  followed t q location a s (raises e) = (finished (raises e), s)
  followed t q location a s (ok foreign) =
      let q' = stripped foreign (see_other a.response q) in
      redirect_to t (record q' { url = location }) a s (charged q' q.url a)

  unfoldable pub follow : Urls → Turn → Request → Text → Answer → State → Next × State
  unfolding sleep_for_retry drain strip_headers
  follow u t q location a s = followed t q location a s (is_foreign u q.retries location)

  abbrev pub judge_location : Urls → Turn → Request → Answer → State → Option Text → Next × State
  judge_location u t q a s none = judge_status t q a s
  judge_location u t q a s (some location) =
      if q.redirect && filled (some location)
      then follow u t q location a s
      else judge_status t q a s

  unfoldable pub judge : Urls → Turn → Request → Answer → State → Next × State
  unfolding judge_status follow
  judge u t q a s = judge_location u t q a s (get_redirect_location a.response)

  module _ (u : Urls) (c : Settings) where
    -- The body of the `try`, once there is a connection.
    unfoldable pub exchange : Turn → Prepared → Outcome Response
    unfolding make_request
    exchange t p = do
      limit ← connect_timeout p.timeout
      through ← tunnelled c t p.tunnel t.prepared
      make_request c.system_timeout c.timeout t p.timeout

    abbrev pub released : Turn → Request → ℕ → Response → State → Done → Next × State
    released t q conn response s (raises e, p) = (finished (raises e), record s { pool = p })
    released t q conn response s (ok _, p) =
        judge u t q (record { response = response; connection = none }) (record s { pool = p })

    -- The clause for an `EmptyPoolError` covers the whole `try`; it neither closes the connection nor
    -- gives it back.
    abbrev pub concluded : Turn → Request → ℕ → State → Outcome Response → Next × State
    concluded t q conn s (raises e) =
        if is_instance e empty_pool_error
        then (finished (raises e), s)
        else failed t q (some conn) e s
    concluded t q conn s (ok response) =
        if q.release_conn
        then released t q conn response s (put_conn (some conn) s.pool)
        else judge u t q (record { response = response; connection = some conn }) s

    abbrev pub with_conn : Turn → Prepared → State → Outcome ℕ × Pool → Next × State
    with_conn t p s (raises e, pool) = no_conn t p.request e (record s { pool = pool })
    with_conn t p s (ok conn, pool) =
        concluded t p.request conn
          (record {
            pool = pool;
            stands = t.stands;
            sent = s.sent ++ (record { conn = conn; request = p.request; stands = s.stands }) ∷ [];
          })
          (exchange t p)

    abbrev pub prepared : Turn → State → Outcome Prepared × ℕ → Next × State
    prepared t s (raises e, stands) = (finished (raises e), record s { stands = stands })
    prepared t s (ok p, stands) =
        with_conn t p (record s { stands = stands }) (get_conn t.dropped s.pool)

    unfoldable pub attempt : Turn → Request → State → Next × State
    unfolding prepare get_conn exchange judge failed put_conn
    attempt t q s = prepared t s (prepare u c q s.stands)

    abbrev pub continue :
        (Request → State → Option (Outcome Answer × State))
        → Next × State
        → Option (Outcome Answer × State)
    continue rest (finished o, s) = some (o, s)
    continue rest (again q, s) = rest q s

    -- `none`: the turns ran out.
    unfoldable pub loop : List Turn → Request → State → Option (Outcome Answer × State)
    unfolding attempt
    loop [] q s = none
    loop (t ∷ turns) q s = continue (loop turns) (attempt t q s)

    -- The call from outside: defaults are put in once, and passed on from attempt to attempt.
    unfoldable pub urlopen :
        List Turn
        → Retries
        → Option HeaderDict
        → Option Bool
        → Bool
        → Request
        → State
        → Option (Outcome Answer × State)
    unfolding loop from_int
    urlopen turns retries headers release_conn preload_content q s =
        loop turns
          (record q {
            headers = elim headers [ none ↦ c.headers | some h ↦ h ];
            retries = from_int retries (flag q.redirect) c.retries;
            release_conn = elim release_conn [ none ↦ preload_content | some b ↦ b ];
          })
          s

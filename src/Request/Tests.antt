-- ===== src/Request/Tests.antt =====
-- Requests on a pool of one connection.
use urllib.Prelude.{
  if◌then◌else◌, ℕ, Bool, true, false, Option, none, some, List, [], ◌∷◌, All, ◌=ℕ◌, ◌≡◌, refl, ap,
  sym, inl, arith, or_else,
}
use urllib.Prelude.Int.{ℤ, pos}
use urllib.Prelude.Text.{Text, codes, text_eq, lower, lower_char, upper, upper_char}
use urllib.Dict
use urllib.Collections.HeaderDict.{
  set_item, get_item, names, discard, del_item, itermerged, discard_all, prepare_for_method_change,
}
use urllib.Collections.HeaderDict.Valid.{set_item-IsValid}
use urllib.Exceptions.{Outcome, ok, raises, plain, value_error, python_timeout_error, is_subclass}
use urllib.Timeout.{never}
use urllib.Retry.{
  Response, default_retry, is_connection_error, is_read_error, is_method_retryable,
  get_redirect_location, is_retry, is_exhausted,
}
use urllib.Retry.Increment.{increment, charge, charge_error, charge_response, finish, next}
use urllib.Retry.Waiting.{get_retry_after, sleep_for_retry}
use urllib.Pool.{Pool}
use urllib.Pool
use urllib.Request.Body.{Body, absent, file}
use urllib.Request.Exchange.{unspecified, Turn, translated}
use urllib.Request.Arguments.{
  strip_headers, update, connection_requires_http_tunnel, Urls, Settings, Request, Sent, State,
  Answer, Next, finished, again,
}
use urllib.Request.Loop.{attempt, loop}
use urllib.Request.Slots.{world}
use urllib.Request.Client.{Settles, loop-Settles}
use urllib.Request.Ends.{Returns, loop-Returns}
use urllib.Request.Unsafe.{KeepsHost, IsSafe, Guarded}
use urllib.Request.Redirects.{loop-Safe}
use urllib.Request.Bodies.{rewindable, SentAt, loop-SentAt}
use urllib.Request.SeeOther.{IsLost, see_other_fails}

abbrev no_date : Text → Outcome (Option ℤ)
no_date t = ok none

abbrev starts_with_slash : Text → Bool
starts_with_slash [] = false
starts_with_slash (c ∷ url) = c =ℕ 47

-- Paths are on the host, and nothing else is.
abbrev urls : Urls
urls = record {
  normalise = λ url. ok (url, none);
  is_same_host = λ url. ok (starts_with_slash url);
}

abbrev settings : Settings
settings = record {
  proxy = none;
  forwards_https = false;
  proxy_headers = [];
  headers = [];
  retries = none;
  timeout = record { connect = never; read = never; total = never; started = none };
  system_timeout = none;
}

abbrev turn : Outcome Response → Turn
turn answer = record {
  dropped = λ conn. false;
  closed_before = false;
  closed_after = false;
  unreached_proxy = false;
  prepared = none;
  validated = none;
  requested = none;
  answer = answer;
  began = pos 0;
  sent_at = pos 1;
  now = pos 0;
  draw = pos 0;
  stands = 9;
}

abbrev located : ℕ → Text → Response
located status location = record {
  status = status;
  headers = set_item [] (codes "Location") location;
}

abbrev plain_response : ℕ → Response
plain_response status = record { status = status; headers = [] }

abbrev post : Body → Request
post body = record {
  method = codes "PUT";
  url = codes "/upload";
  body = body;
  headers = set_item [] (codes "Authorization") (codes "secret");
  retries = default_retry;
  redirect = true;
  assert_same_host = false;
  timeout = unspecified;
  release_conn = true;
  body_pos = none;
}

abbrev idle : State
idle = record { pool = Pool.init 1 true; stands = 4; sent = [] }

-- A timeout, a redirect to another host, and a response.
abbrev turns : List Turn
turns =
    turn (raises (plain python_timeout_error))
    ∷ turn (ok (located 307 (codes "http://other/")))
    ∷ turn (ok (plain_response 200))
    ∷ turn (ok (plain_response 500))
    ∷ []

abbrev sent_all : List Sent → List (Text × Option Text × ℕ)
sent_all [] = []
sent_all (e ∷ rest) =
    (e.request.url, get_item e.request.headers (codes "authorization"), e.stands) ∷ sent_all rest

abbrev sends : Option (Outcome Answer × State) → List (Text × Option Text × ℕ)
sends none = []
sends (some (o, s)) = sent_all s.sent

abbrev upload : Request
upload = post (file rewindable)

abbrev final : Outcome Answer × State
final = or_else (raises (plain value_error), idle) (loop no_date urls settings turns upload idle)

three_sent :
    sends (loop no_date urls settings turns upload idle)
    ≡ (codes "/upload", some (codes "secret"), 4)
      ∷ (codes "/upload", some (codes "secret"), 4)
      ∷ (codes "http://other/", none, 4)
      ∷ []
unfolding loop default_retry Pool.init set_item get_item lower lower_char upper upper_char names
    discard del_item Dict.get Dict.set Dict.has Dict.remove is_subclass is_connection_error
    is_read_error is_method_retryable get_redirect_location is_retry is_exhausted increment charge
    charge_error charge_response finish next get_retry_after sleep_for_retry translated
    strip_headers update connection_requires_http_tunnel itermerged
three_sent = refl

upload_returns : loop no_date urls settings turns upload idle ≡ some final
unfolding loop default_retry Pool.init set_item get_item lower lower_char upper upper_char names
    discard del_item Dict.get Dict.set Dict.has Dict.remove is_subclass is_connection_error
    is_read_error is_method_retryable get_redirect_location is_retry is_exhausted increment charge
    charge_error charge_response finish next get_retry_after sleep_for_retry translated
    strip_headers update connection_requires_http_tunnel itermerged
upload_returns = refl

-- A host that cannot be read.
abbrev strict_urls : Urls
strict_urls = record urls {
  is_same_host = λ url. if starts_with_slash url then ok true else raises (plain value_error);
}

abbrev streamed : Request
streamed = record (post absent) { release_conn = false }

abbrev left_over : Option (Outcome Answer × State) → Option (Option Pool.Queue)
left_over none = none
left_over (some (o, s)) = some s.pool.queue

-- The response of the redirect has the connection, and nothing gives it back.
held_back :
    left_over (
      loop no_date strict_urls settings
        (turn (ok (located 307 (codes "http://host:99999/"))) ∷ [])
        streamed
        idle)
    ≡ some (some [])
unfolding loop default_retry Pool.init set_item get_item lower lower_char Dict.get Dict.set
    get_redirect_location
held_back = refl

loop-Settles_example : Settles no_date urls settings (world idle.pool []) [] final.0 final.1
loop-Settles_example =
    loop-Settles no_date urls settings turns upload idle [] final.0 final.1 upload_returns

loop-Returns_example :
    Returns no_date urls settings 3 idle (loop no_date urls settings turns upload idle)
loop-Returns_example =
    loop-Returns no_date urls settings turns upload idle 3 (unfold default_retry in refl)
      (omega arith)

upload-Guarded : Guarded urls (codes "AUTHORIZATION") upload
upload-Guarded = record {
  safe = inl refl;
  valid =
      set_item-IsValid [] (codes "Authorization") (codes "secret")
        (record { unique = tt; named = tt });
  unsafe = unfold default_retry lower lower_char in refl;
}

keeps_host : KeepsHost urls
keeps_host url target scheme h =
    let same : url ≡ target = cc in ap (λ t. ok (starts_with_slash t)) (sym same)

loop-Safe_example : All (λ (e : Sent). IsSafe urls (codes "AUTHORIZATION") e.request) final.1.sent
loop-Safe_example =
    loop-Safe urls settings (codes "AUTHORIZATION") keeps_host (unfold itermerged names in tt)
      no_date turns upload idle final.0 final.1 upload-Guarded tt upload_returns

loop-SentAt_example : All (λ (e : Sent). SentAt 4 e) final.1.sent
loop-SentAt_example =
    loop-SentAt urls 4 settings no_date turns upload idle final.0 final.1
      (inl (refl, inl (refl, refl))) tt upload_returns

-- A 303 for the upload, and the request that follows it.
abbrev see_other_turn : Turn
see_other_turn = turn (ok (located 303 (codes "/done")))

abbrev next_or : Request → Next → Request
next_or q (finished o) = q
next_or q (again q') = q'

abbrev done : Request
done = next_or upload (attempt no_date urls settings see_other_turn upload idle).0

sees_other : (attempt no_date urls settings see_other_turn upload idle).0 ≡ again done
unfolding attempt discard_all prepare_for_method_change default_retry Pool.init set_item get_item
    lower lower_char upper upper_char names discard del_item Dict.get Dict.set Dict.has Dict.remove
    is_subclass is_connection_error is_read_error is_method_retryable get_redirect_location is_retry
    is_exhausted increment charge charge_error charge_response finish next get_retry_after
    sleep_for_retry translated strip_headers update connection_requires_http_tunnel itermerged
sees_other = refl

body_gone : done.body ≡ absent
unfolding attempt discard_all prepare_for_method_change default_retry Pool.init set_item get_item
    lower lower_char upper upper_char names discard del_item Dict.get Dict.set Dict.has Dict.remove
    is_subclass is_connection_error is_read_error is_method_retryable get_redirect_location is_retry
    is_exhausted increment charge charge_error charge_response finish next get_retry_after
    sleep_for_retry translated strip_headers update connection_requires_http_tunnel itermerged
body_gone = refl

see_other_fails_example :
    IsLost urls settings idle (attempt no_date urls settings see_other_turn done idle)
see_other_fails_example =
    see_other_fails urls settings no_date see_other_turn see_other_turn upload done idle idle
      rewindable refl refl sees_other body_gone

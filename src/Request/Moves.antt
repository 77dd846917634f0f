-- ===== src/Request/Moves.antt =====
-- How one attempt of the request loop leads to the next: what of the request stays, and what was paid.
use urllib.Prelude.{
  ℕ, Bool, true, false, Option, none, some, ◌≡◌, refl, arith, Bool-cases, inl, inr, if◌then◌else◌,
}
use urllib.Prelude.Int.{ℤ}
use urllib.Prelude.Text.{Text}
use urllib.Exceptions.{Error, Outcome, ok, raises}
use urllib.Retry.{Retry, Response, get_redirect_location}
use urllib.Retry.Increment.{Attempt, increment}
use urllib.Pool.{Done, put_conn}
use urllib.Request.Exchange.{Turn, handled}
use urllib.Request.Arguments.{Urls, Settings, Request, State, Answer, Next, finished, again}
use urllib.Request.Loop.{
  drain, discard, ended, retried, after_error, failed, no_conn, gave_up, slept, redirect_to,
  retry_after_status, charged, judge_status, judge_location, follow, followed, is_foreign, stripped,
  see_other, judge, released, concluded,
}

-- The next request: the same after an error or a status, or that of a redirect.
pub data Follows (u : Urls) : Request → Request → Type 0 where
  repeats :
      (q q' : Request) (r : Retry) (a : Attempt)
      → increment q.retries a ≡ ok r
      → q' ≡ record q { retries = r }
      → Follows u q q'
  redirects :
      (q q' : Request) (response : Response) (location : Text) (foreign : Bool) (r : Retry)
      (a : Attempt)
      → get_redirect_location response ≡ some location
      → is_foreign u q.retries location ≡ ok foreign
      → increment (stripped foreign (see_other response q)).retries a ≡ ok r
      → q' ≡ record (stripped foreign (see_other response q)) { url = location; retries = r }
      → Follows u q q'

abbrev pub FollowsNext : Urls → Request → Next → Type 0
FollowsNext u q (finished o) = Unit
FollowsNext u q (again q') = Follows u q q'

-- Nothing more is sent, the body's file is left where it is, and the next request is as it should be.
abbrev pub Keeps : Urls → Request → State → Next × State → Type 0
Keeps u q s r = (r.1.sent ≡ s.sent) × (r.1.stands ≡ s.stands) × FollowsNext u q r.0

module _ (u : Urls) (q : Request) where
  after_error-Follows : (t : Turn) (e : Error) → FollowsNext u q (after_error t q e)
  unfolding after_error
  after_error-Follows t e = elim (Bool-cases (handled e)) [
    | inl on ↦ rw on (outcome _ (increment q.retries _) refl)
    | inr off ↦ rw off tt
  ]
    where
      outcome :
          (a : Attempt) (o : Outcome Retry)
          → increment q.retries a ≡ o
          → FollowsNext u q (retried q o)
      outcome a (ok r) h = repeats q _ r a h refl
      outcome a (raises x) h = tt

  ended-Keeps : (s : State) (d : Done) (n : Next) → FollowsNext u q n → Keeps u q s (ended s d n)
  ended-Keeps s (raises e, p) n f = (refl, refl, tt)
  ended-Keeps s (ok v, p) n f = (refl, refl, f)

  failed-Keeps :
      (t : Turn) (conn : Option ℕ) (e : Error) (s : State) → Keeps u q s (failed t q conn e s)
  unfolding failed
  failed-Keeps t conn e s =
      ended-Keeps s (discard conn s.pool) (after_error t q e) (after_error-Follows t e)

  either :
      (s : State) (b : Bool) (x y : Next × State)
      → Keeps u q s x
      → Keeps u q s y
      → Keeps u q s (if b then x else y)
  either s true x y h k = h
  either s false x y h k = k

  pub no_conn-Keeps : (t : Turn) (e : Error) (s : State) → Keeps u q s (no_conn t q e s)
  no_conn-Keeps t e s = either s _ _ _ (refl, refl, tt) (failed-Keeps t none e s)

  drain-sent :
      (a : Answer) (s : State) → ((drain a s).sent ≡ s.sent) × ((drain a s).stands ≡ s.stands)
  unfolding drain
  drain-sent a s = (refl, refl)

  gave_up-Keeps :
      (raising : Bool) (a : Answer) (e : Error) (s : State) → Keeps u q s (gave_up raising a e s)
  unfolding drain
  gave_up-Keeps raising a e s = ground arith

  slept-Keeps :
      (o : Outcome (Option ℤ)) (q' : Request) (a : Answer) (s : State)
      → Follows u q q'
      → Keeps u q s (slept o q' (drain a s))
  unfolding drain
  slept-Keeps (raises e) q' a s f = (refl, refl, tt)
  slept-Keeps (ok time) q' a s f = (refl, refl, f)

  module _ (parse_date : Text → Outcome (Option ℤ)) where
    redirect_to-Keeps :
        (t : Turn) (response : Response) (location : Text) (foreign : Bool) (a : Answer) (s : State)
        (at : Attempt) (o : Outcome Retry)
        → get_redirect_location response ≡ some location
        → is_foreign u q.retries location ≡ ok foreign
        → increment (stripped foreign (see_other response q)).retries at ≡ o
        → Keeps u q s (
            redirect_to parse_date t
              (record (stripped foreign (see_other response q)) { url = location })
              a
              s
              o)
    redirect_to-Keeps t response location foreign a s at (raises e) l m h = gave_up-Keeps _ a e s
    redirect_to-Keeps t response location foreign a s at (ok r) l m h =
        slept-Keeps _ _ a s (redirects q _ response location foreign r at l m h refl)

    retry_after_status-Keeps :
        (t : Turn) (a : Answer) (s : State) (at : Attempt) (o : Outcome Retry)
        → increment q.retries at ≡ o
        → Keeps u q s (retry_after_status parse_date t q a s o)
    retry_after_status-Keeps t a s at (raises e) h = gave_up-Keeps _ a e s
    retry_after_status-Keeps t a s at (ok r) h = slept-Keeps _ _ a s (repeats q _ r at h refl)

    judge_status-Keeps :
        (t : Turn) (a : Answer) (s : State) → Keeps u q s (judge_status parse_date t q a s)
    unfolding judge_status
    judge_status-Keeps t a s =
        either s _ _ _ (retry_after_status-Keeps t a s _ (charged q q.url a) refl) (refl, refl, tt)

    followed-Keeps :
        (t : Turn) (a : Answer) (s : State) (location : Text) (o : Outcome Bool)
        → get_redirect_location a.response ≡ some location
        → is_foreign u q.retries location ≡ o
        → Keeps u q s (followed parse_date t q location a s o)
    followed-Keeps t a s location (raises e) h m = (refl, refl, tt)
    followed-Keeps t a s location (ok foreign) h m =
        redirect_to-Keeps t a.response location foreign a s _
          (charged (stripped foreign (see_other a.response q)) q.url a) h m refl

    judge_location-Keeps :
        (t : Turn) (a : Answer) (s : State) (location : Option Text)
        → get_redirect_location a.response ≡ location
        → Keeps u q s (judge_location parse_date u t q a s location)
    unfolding follow
    judge_location-Keeps t a s none h = judge_status-Keeps t a s
    judge_location-Keeps t a s (some location) h =
        either s _ _ _ (followed-Keeps t a s location _ h refl) (judge_status-Keeps t a s)

    judge-Keeps : (t : Turn) (a : Answer) (s : State) → Keeps u q s (judge parse_date u t q a s)
    unfolding judge
    judge-Keeps t a s = judge_location-Keeps t a s _ refl

    module _ (c : Settings) where
      released-Keeps :
          (t : Turn) (conn : ℕ) (response : Response) (s : State) (d : Done)
          → Keeps u q s (released parse_date u c t q conn response s d)
      released-Keeps t conn response s (raises e, p) = (refl, refl, tt)
      released-Keeps t conn response s (ok v, p) = judge-Keeps t _ (record s { pool = p })

      pub concluded-Keeps :
          (t : Turn) (conn : ℕ) (s : State) (o : Outcome Response)
          → Keeps u q s (concluded parse_date u c t q conn s o)
      concluded-Keeps t conn s (raises e) =
          either s _ _ _ (refl, refl, tt) (failed-Keeps t (some conn) e s)
      concluded-Keeps t conn s (ok response) =
          either s _ _ _ (released-Keeps t conn response s (put_conn (some conn) s.pool))
            (judge-Keeps t _ s)

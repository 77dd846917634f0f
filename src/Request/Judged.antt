-- ===== src/Request/Judged.antt =====
-- How an attempt ends, once it has a connection: with every connection given back but one that the
-- response holds, or with one left over.
use urllib.Prelude.{
  ℕ, Bool, true, false, Option, none, some, List, [], ◌∷◌, ◌++◌, ◌≡◌, refl, ◌∙◌, inl, inr, ◌⊎◌,
  if◌then◌else◌,
}
use urllib.Prelude.Int.{ℤ}
use urllib.Prelude.Text.{Text}
use urllib.Exceptions.{Error, Outcome, ok, raises, is_instance, empty_pool_error, max_retry_error}
use urllib.Retry.{Retry, Response}
use urllib.Pool.{Done, put_conn}
use urllib.Pool.Leases.{World}
use urllib.Request.Slots.{
  Steps, world, with_held, Behaves, put_back, drain-Steps, failed-Behaves, charged-raises,
}
use urllib.Request.Exchange.{Turn}
use urllib.Request.Arguments.{Urls, Settings, Request, State, Sent, Answer, Next, finished, negated}
use urllib.Request.Loop.{
  drain, gave_up, slept, redirect_to, retry_after_status, charged, judge_status, judge_location,
  follow, stripped, see_other, judge, released, concluded, followed, is_foreign, unless_empty,
}

-- The errors after which nothing gives the connection of the attempt back: one for an empty pool,
-- raised while there is a connection, and one of `is_same_host` on a location.
abbrev pub IsLeak : Urls → Error → Type 0
IsLeak u e =
    (is_instance e empty_pool_error ≡ true)
    ⊎ ((location : Text) × (u.is_same_host location ≡ raises e))

-- The last request was sent on this connection.
abbrev pub LastOn : ℕ → State → Type 0
LastOn conn s =
    (before : List Sent) × (last : Sent) × (s.sent ≡ before ++ last ∷ []) × (last.conn ≡ conn)

abbrev pub Leaks : Urls → World → List ℕ → Next × State → Type 0
Leaks u w leased r =
    (conn : ℕ) × (e : Error) × (r.0 ≡ finished (raises e))
    × IsLeak u e
    × LastOn conn r.1
    × Steps w (world r.1.pool (conn ∷ leased))

-- How an attempt may end.
abbrev pub Ends : Urls → World → List ℕ → Next × State → Type 0
Ends u w leased r = Behaves w leased r ⊎ Leaks u w leased r

unless_empty-raises :
    (u : Urls) (location : Text) (names : List Text) (o : Outcome Bool) (e : Error)
    → u.is_same_host location ≡ o
    → unless_empty names (negated o) ≡ raises e
    → IsLeak u e
unless_empty-raises u location [] o e h q = cc
unless_empty-raises u location (name ∷ names) (ok b) e h q = cc
unless_empty-raises u location (name ∷ names) (raises x) e h q = inr (location, h ∙ q)

-- A connection that is still held is that of the last request.
abbrev IsHeld : Option ℕ → State → Type 0
IsHeld none s = Unit
IsHeld (some conn) s = LastOn conn s

module _ {w : World} (leased : List ℕ) where
  gave_up-Behaves :
      (raising : Bool) (a : Answer) (e : Error) (s : State)
      → is_instance e max_retry_error ≡ true
      → Steps w (world s.pool (with_held a.connection leased))
      → Behaves w leased (gave_up raising a e s)
  gave_up-Behaves true a e s m st = rw m (drain-Steps a s leased st)
  gave_up-Behaves false a e s m st = rw m st

  slept-Behaves :
      (o : Outcome (Option ℤ)) (q : Request) (s : State)
      → Steps w (world s.pool leased)
      → Behaves w leased (slept o q s)
  slept-Behaves (raises e) q s st = st
  slept-Behaves (ok time) q s st = st

  module _ (parse_date : Text → Outcome (Option ℤ)) where
    redirect_to-Behaves :
        (t : Turn) (q : Request) (a : Answer) (s : State) (o : Outcome Retry)
        → ((e : Error) → o ≡ raises e → is_instance e max_retry_error ≡ true)
        → Steps w (world s.pool (with_held a.connection leased))
        → Behaves w leased (redirect_to parse_date t q a s o)
    redirect_to-Behaves t q a s (raises e) m st =
        gave_up-Behaves q.retries.raise_on_redirect a e s (m e refl) st
    redirect_to-Behaves t q a s (ok r) m st =
        slept-Behaves _ _ (drain a s) (drain-Steps a s leased st)

    retry_after_status-Behaves :
        (t : Turn) (q : Request) (a : Answer) (s : State) (o : Outcome Retry)
        → ((e : Error) → o ≡ raises e → is_instance e max_retry_error ≡ true)
        → Steps w (world s.pool (with_held a.connection leased))
        → Behaves w leased (retry_after_status parse_date t q a s o)
    retry_after_status-Behaves t q a s (raises e) m st =
        gave_up-Behaves q.retries.raise_on_status a e s (m e refl) st
    retry_after_status-Behaves t q a s (ok r) m st =
        slept-Behaves _ _ (drain a s) (drain-Steps a s leased st)

    either :
        (b : Bool) (x y : Next × State)
        → Behaves w leased x
        → Behaves w leased y
        → Behaves w leased (if b then x else y)
    either true x y p q = p
    either false x y p q = q

    judge_status-Behaves :
        (t : Turn) (q : Request) (a : Answer) (s : State)
        → Steps w (world s.pool (with_held a.connection leased))
        → Behaves w leased (judge_status parse_date t q a s)
    unfolding judge_status
    judge_status-Behaves t q a s st =
        either _ _ _
          (retry_after_status-Behaves t q a s (charged q q.url a) (charged-raises q q.url a) st) st

    either_way :
        (u : Urls) (b : Bool) (x y : Next × State)
        → (b ≡ true → Ends u w leased x)
        → Ends u w leased y
        → Ends u w leased (if b then x else y)
    either_way u true x y p q = p refl
    either_way u false x y p q = q

    lost-Ends :
        (u : Urls) (e : Error) (held : Option ℕ) (s : State)
        → IsLeak u e
        → IsHeld held s
        → Steps w (world s.pool (with_held held leased))
        → Ends u w leased (finished (raises e), s)
    lost-Ends u e none s why on st = inl st
    lost-Ends u e (some conn) s why on st = inr (conn, e, refl, why, on, st)

    followed-Ends :
        (u : Urls) (t : Turn) (q : Request) (location : Text) (a : Answer) (s : State)
        (o : Outcome Bool)
        → is_foreign u q.retries location ≡ o
        → IsHeld a.connection s
        → Steps w (world s.pool (with_held a.connection leased))
        → Ends u w leased (followed parse_date t q location a s o)
    followed-Ends u t q location a s (raises e) m on st =
        lost-Ends u e a.connection s
          (unless_empty-raises u location q.retries.remove_headers_on_redirect
            (u.is_same_host location) e refl m)
          on st
    followed-Ends u t q location a s (ok foreign) m on st =
        let q' = stripped foreign (see_other a.response q) in
        inl (
          redirect_to-Behaves t (record q' { url = location }) a s (charged q' q.url a)
            (charged-raises q' q.url a) st)

    judge_location-Ends :
        (u : Urls) (t : Turn) (q : Request) (a : Answer) (s : State) (location : Option Text)
        → IsHeld a.connection s
        → Steps w (world s.pool (with_held a.connection leased))
        → Ends u w leased (judge_location parse_date u t q a s location)
    unfolding follow
    judge_location-Ends u t q a s none on st = inl (judge_status-Behaves t q a s st)
    judge_location-Ends u t q a s (some location) on st =
        either_way u _ _ _
          (λ _. followed-Ends u t q location a s (is_foreign u q.retries location) refl on st)
          (inl (judge_status-Behaves t q a s st))

    judge-Ends :
        (u : Urls) (t : Turn) (q : Request) (a : Answer) (s : State)
        → IsHeld a.connection s
        → Steps w (world s.pool (with_held a.connection leased))
        → Ends u w leased (judge parse_date u t q a s)
    unfolding judge
    judge-Ends u t q a s on st = judge_location-Ends u t q a s _ on st

    module _ (u : Urls) (c : Settings) where
      released-Ends :
          (t : Turn) (q : Request) (conn : ℕ) (response : Response) (s : State) (d : Done)
          → Steps w (world d.1 leased)
          → Ends u w leased (released parse_date u c t q conn response s d)
      released-Ends t q conn response s (raises e, p) st = inl st
      released-Ends t q conn response s (ok v, p) st = judge-Ends u t q _ _ tt st

      pub concluded-Ends :
          (t : Turn) (q : Request) (conn : ℕ) (s : State) (o : Outcome Response)
          → LastOn conn s
          → Steps w (world s.pool (conn ∷ leased))
          → Ends u w leased (concluded parse_date u c t q conn s o)
      concluded-Ends t q conn s (raises e) on st =
          either_way u _ _ _ (λ empty. inr (conn, e, refl, inl empty, on, st))
            (inl (failed-Behaves t q conn e s leased st))
      concluded-Ends t q conn s (ok response) on st =
          either_way u _ _ _
            (λ on.
              released-Ends t q conn response s (put_conn (some conn) s.pool)
                (put_back conn s.pool leased st))
            (judge-Ends u t q (record { response = response; connection = some conn }) s on st)

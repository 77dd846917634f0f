-- ===== src/Request/Attempts.antt =====
-- One attempt of the request loop: what it makes of the request, what it sends, and what may follow.
use urllib.Prelude.{ℕ, Bool, Option, [], ◌∷◌, ◌++◌, ◌≡◌, refl, ap, sym, arith, inl, inr, ◌⊎◌}
use urllib.Prelude.Int.{ℤ}
use urllib.Prelude.Text.{Text}
use urllib.Exceptions.{Outcome, ok, raises}
use urllib.Retry.{Response}
use urllib.Pool.{Pool}
use urllib.Request.Exchange.{Turn}
use urllib.Timeout.{Timeout}
use urllib.Request.Body.{Position, set_file_position}
use urllib.Request.Moves.{Keeps, no_conn-Keeps, concluded-Keeps}
use urllib.Request.Arguments.{
  checked, timed, positioned, targeted, with_proxy_headers, Urls, Settings, Request, State, Answer,
  Next, finished, Prepared, prepare,
}
use urllib.Request.Loop.{stripped, see_other, exchange, with_conn, prepared, attempt}

-- A preparation that succeeded, taken apart.
abbrev pub IsPrepared : Urls → Settings → Request → ℕ → Prepared → Type 0
IsPrepared u c q stands p =
    (url : Text) × (tunnel : Bool) × (pos : Option Position) × (checked u c q ≡ ok (url, tunnel))
    × ((set_file_position q.body q.body_pos stands).0 ≡ ok pos)
    × (p.request
        ≡ record q { url = url; headers = with_proxy_headers c tunnel q.headers; body_pos = pos })

module _ (u : Urls) (c : Settings) where
  timed-ok :
      (q : Request) (tunnel : Bool) (o : Outcome Timeout) (p : Prepared)
      → timed u c q tunnel o ≡ ok p
      → p.request ≡ q
  timed-ok q tunnel (raises e) p h = cc
  timed-ok q tunnel (ok t) p h = sym (ap (request_or q) h)
    where
      request_or : Request → Outcome Prepared → Request
      request_or q (ok p) = p.request
      request_or q (raises e) = q

  positioned-ok :
      (q : Request) (tunnel : Bool) (o : Outcome (Option Position)) (p : Prepared)
      → positioned u c q tunnel o ≡ ok p
      → (pos : Option Position) × (o ≡ ok pos) × (p.request ≡ record q { body_pos = pos })
  positioned-ok q tunnel (raises e) p h = cc
  positioned-ok q tunnel (ok pos) p h =
      (pos, refl, timed-ok (record q { body_pos = pos }) tunnel _ p h)

  targeted-ok :
      (q : Request) (o : Outcome (Text × Bool)) (stands : ℕ) (p : Prepared)
      → checked u c q ≡ o
      → (targeted u c q o stands).0 ≡ ok p
      → IsPrepared u c q stands p
  targeted-ok q (raises e) stands p k h = cc
  targeted-ok q (ok (url, tunnel)) stands p k h =
      let (pos, moved, same) =
        positioned-ok (record q { url = url; headers = with_proxy_headers c tunnel q.headers })
          tunnel (set_file_position q.body q.body_pos stands).0 p h in
      (url, tunnel, pos, k, moved, same)

  pub prepare-ok :
      (q : Request) (stands : ℕ) (p : Prepared)
      → (prepare u c q stands).0 ≡ ok p
      → IsPrepared u c q stands p
  unfolding prepare
  prepare-ok q stands p h = targeted-ok q (checked u c q) stands p refl h

-- What an attempt does to the record of what is sent: nothing, if it ends before it has a connection;
-- else one request is added.
abbrev pub log : State → ℕ → Request → ℕ → State
log s conn q stands = record s {
  sent = s.sent ++ (record { conn = conn; request = q; stands = stands }) ∷ [];
}

abbrev pub Ended : State → Next × State → Type 0
Ended s r = (o : Outcome Answer) × (r.0 ≡ finished o) × (r.1.sent ≡ s.sent)

abbrev pub Moves : Urls → Settings → Turn → Request → State → Next × State → Type 0
Moves u c t q s r =
    Ended s r
    ⊎ ((p : Prepared) × IsPrepared u c q s.stands p
        × (((s' : State) × (s'.sent ≡ s.sent) × Keeps u p.request s' r)
            ⊎ ((conn : ℕ) × Keeps u p.request
                  (log (record s { stands = t.stands }) conn p.request (prepare u c q s.stands).1)
                  r)))

module _ (parse_date : Text → Outcome (Option ℤ)) (u : Urls) (c : Settings) where
  with_conn-Moves :
      (t : Turn) (q : Request) (s : State) (p : Prepared) (r : Outcome ℕ × Pool)
      → IsPrepared u c q s.stands p
      → Moves u c t q s
          (with_conn parse_date u c t p (record s { stands = (prepare u c q s.stands).1 }) r)
  with_conn-Moves t q s p (raises e, pool) i =
      let s' = record s { stands = (prepare u c q s.stands).1; pool = pool } in
      inr (p, i, inl (s', refl, no_conn-Keeps u p.request t e s'))
  with_conn-Moves t q s p (ok conn, pool) i = inr (
    p,
    i,
    inr (conn, concluded-Keeps u p.request parse_date c t conn _ (exchange parse_date u c t p)),
  )

  prepared-Moves :
      (t : Turn) (q : Request) (s : State) (o : Outcome Prepared)
      → (prepare u c q s.stands).0 ≡ o
      → Moves u c t q s (prepared parse_date u c t s (o, (prepare u c q s.stands).1))
  prepared-Moves t q s (raises e) h = inl (raises e, refl, refl)
  prepared-Moves t q s (ok p) h = with_conn-Moves t q s p _ (prepare-ok u c q s.stands p h)

  pub attempt-Moves :
      (t : Turn) (q : Request) (s : State) → Moves u c t q s (attempt parse_date u c t q s)
  unfolding attempt
  attempt-Moves t q s = prepared-Moves t q s _ refl

-- A redirect and its headers leave the retries to be charged as they are.
pub retries-stripped :
    (foreign : Bool) (response : Response) (q : Request)
    → (stripped foreign (see_other response q)).retries ≡ q.retries
retries-stripped foreign response q = ground arith

-- ===== src/Request/Client.antt =====
-- The request loop, step by step, as a client of the pool.
use urllib.Prelude.{
  ℕ, Option, none, some, List, [], ◌∷◌, ◌≡◌, refl, ap, ◌∙◌, sym, subst, inl, inr, ◌⊎◌, or_else,
}
use urllib.Prelude.Int.{ℤ}
use urllib.Prelude.Text.{Text}
use urllib.Exceptions.{Error, Outcome, ok, raises, plain, empty_pool_error}
use urllib.Pool.{Pool, get_conn}
use urllib.Pool.Leases.{World, gets}
use urllib.Request.Slots.{Steps, here, next, world, leases_after, get_from-raises, no_conn-Behaves}
use urllib.Request.Exchange.{Turn}
use urllib.Request.Arguments.{
  Urls, Settings, Request, State, Answer, Next, finished, again, Prepared, prepare,
}
use urllib.Request.Loop.{exchange, with_conn, prepared, attempt, continue, loop}
use urllib.Request.Judged.{Ends, Leaks, concluded-Ends}

module _ (parse_date : Text → Outcome (Option ℤ)) (u : Urls) (c : Settings) where
  closed_or_empty :
      (p p' : Pool) (e : Error)
      → p' ≡ p
      → (p.queue ≡ none) ⊎ (e ≡ plain empty_pool_error)
      → (p'.queue ≡ none) ⊎ (e ≡ plain empty_pool_error)
  closed_or_empty p p' e same (inl closed) = inl (ap (λ v. v.queue) same ∙ closed)
  closed_or_empty p p' e same (inr empty) = inr empty

  with_conn-Ends :
      (leased : List ℕ) (t : Turn) (p : Prepared) (s : State) (o : Outcome ℕ) (pool : Pool)
      → get_conn t.dropped s.pool ≡ (o, pool)
      → Ends u (world s.pool leased) leased (with_conn parse_date u c t p s (o, pool))
  with_conn-Ends leased t p s (raises e) pool got =
      let (same, why) =
        get_from-raises t.dropped s.pool.queue s.pool pool e (unfold get_conn in got) in
      inl (
        no_conn-Behaves t p.request e (record s { pool = pool }) leased
          (closed_or_empty s.pool pool e same why)
          (subst (λ v. Steps (world s.pool leased) (world v leased)) (sym same) here))
  with_conn-Ends leased t p s (ok conn) pool got =
      concluded-Ends leased parse_date u c t p.request conn _ (exchange parse_date u c t p)
        (s.sent, record { conn = conn; request = p.request; stands = s.stands }, refl, refl)
        (subst (λ v. Steps (world s.pool leased) (world v (conn ∷ leased))) (ap (λ r. r.1) got)
          (next here (gets t.dropped (world s.pool leased) conn (ap (λ r. r.0) got))))

  prepared-Ends :
      (leased : List ℕ) (t : Turn) (s : State) (r : Outcome Prepared × ℕ)
      → Ends u (world s.pool leased) leased (prepared parse_date u c t s r)
  prepared-Ends leased t s (raises e, stands) = inl here
  prepared-Ends leased t s (ok p, stands) =
      with_conn-Ends leased t p (record s { stands = stands }) _ _ refl

  attempt-Ends :
      (leased : List ℕ) (t : Turn) (q : Request) (s : State)
      → Ends u (world s.pool leased) leased (attempt parse_date u c t q s)
  unfolding attempt
  attempt-Ends leased t q s = prepared-Ends leased t s (prepare u c q s.stands)

  Steps-trans : {w v x : World} → Steps w v → Steps v x → Steps w x
  Steps-trans st here = st
  Steps-trans st (next rest step) = next (Steps-trans st rest) step

  -- The connection that a leak left behind, after further attempts.
  abbrev pub Lost : World → List ℕ → Outcome Answer → State → Type 0
  Lost w leased o s = Leaks u w leased (finished o, s)

  abbrev pub Settles : World → List ℕ → Outcome Answer → State → Type 0
  Settles w leased o s = Steps w (world s.pool (leases_after o leased)) ⊎ Lost w leased o s

  continue-Settles :
      (turns : List Turn) (leased : List ℕ) (w : World) (r : Next × State) (o : Outcome Answer)
      (s' : State)
      → Ends u w leased r
      → ((q : Request) (s : State)
          → loop parse_date u c turns q s ≡ some (o, s')
          → Settles (world s.pool leased) leased o s')
      → continue parse_date u c (loop parse_date u c turns) r ≡ some (o, s')
      → Settles w leased o s'
  continue-Settles turns leased w (finished o', s) o s' b ih h =
      let same : (o', s) ≡ (o, s') = ap (or_else (o', s)) h in
      subst (λ (r : Outcome Answer × State). Settles w leased r.0 r.1) same b
  continue-Settles turns leased w (again q, s) o s' (inl st) ih h = after st (ih q s h)
    where
      after :
          Steps w (world s.pool leased)
          → Settles (world s.pool leased) leased o s'
          → Settles w leased o s'
      after st (inl rest) = inl (Steps-trans st rest)
      after st (inr (conn, e, same, why, on, rest)) =
          inr (conn, e, same, why, on, Steps-trans st rest)
  continue-Settles turns leased w (again q, s) o s' (inr (conn, e, same, why, on, st)) ih h =
      cc same

  -- Whatever happens to the requests, `urlopen` uses the pool as a client should: it takes connections
  -- and gives each back, or closes it and gives its empty slot back. When it is done, with a response or
  -- an error, it has none any more but the one that the response holds, unless it ends in an error for
  -- an empty pool or in one that `is_same_host` raised for a location: then it may have one connection
  -- left that it has not given back, that of the last request, and no more than this one.
  pub loop-Settles :
      (turns : List Turn) (q : Request) (s : State) (leased : List ℕ) (o : Outcome Answer)
      (s' : State)
      → loop parse_date u c turns q s ≡ some (o, s')
      → Settles (world s.pool leased) leased o s'
  unfolding loop
  loop-Settles [] q s leased o s' h = cc
  loop-Settles (t ∷ turns) q s leased o s' h =
      continue-Settles turns leased (world s.pool leased) (attempt parse_date u c t q s) o s'
        (attempt-Ends leased t q s) (λ q' s'' h'. loop-Settles turns q' s'' leased o s' h') h

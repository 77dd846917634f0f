-- ===== src/Request/Redirects.antt =====
-- Unsafe headers on redirects: once a redirect leads to another host they are gone for good.
use urllib.Prelude.{
  ℕ, Bool, true, Option, none, some, List, [], ◌∷◌, ◌++◌, All, ◌≡◌, ap, ◌∙◌, sym, subst, inl, inr,
  ◌⊎◌, or_else,
}
use urllib.Prelude.Int.{ℤ}
use urllib.Prelude.Text.{Text, text_eq}
use urllib.Collections.HeaderDict.{get_item}
use urllib.Exceptions.{Outcome, ok, raises}
use urllib.Timeout.{>>=-ok}
use urllib.Request.Exchange.{Turn}
use urllib.Request.Arguments.{
  Urls, Settings, Request, Sent, State, Answer, Next, finished, again, Prepared, prepare,
  with_proxy_headers, checked, host_checked, host_changed,
}
use urllib.Request.Loop.{attempt, continue, loop}
use urllib.Request.Moves.{Keeps}
use urllib.Request.Attempts.{Moves, IsPrepared, log, attempt-Moves}
use urllib.Request.Unsafe.{KeepsHost, IsSafe, Guarded, Follows-Guarded}
use urllib.Request.Headers.{Lacks, with_proxy_headers-none, with_proxy_headers-IsValid}

-- The target of a request that passed its checks.
checked-normalise :
    (u : Urls) (c : Settings) (q : Request) (target : Text) (tunnel : Bool)
    → checked u c q ≡ ok (target, tunnel)
    → (scheme : Option Text) × (u.normalise q.url ≡ ok (target, scheme))
checked-normalise u c q target tunnel h =
    let ((url, scheme), named, rest) = >>=-ok (u.normalise q.url) _ h in
    let (changed, asked, checks) = >>=-ok (host_changed u q.assert_same_host url) _ rest in
    let (same, on_host, result) = >>=-ok (host_checked changed) _ checks in
    (scheme, named ∙ ap (λ t. ok (t, scheme)) (ap (target_or url) result))
  where
    target_or : Text → Outcome (Text × Bool) → Text
    target_or url (ok r) = r.0
    target_or url (raises e) = url

module _ (u : Urls) (c : Settings) (k : Text) (keeps : KeepsHost u)
    (lacks : Lacks k c.proxy_headers) where
  prepared-Guarded :
      (q : Request) (stands : ℕ) (p : Prepared)
      → IsPrepared u c q stands p
      → Guarded u k q
      → Guarded u k p.request
  prepared-Guarded q stands p (url, tunnel, place, h, moved, same) g =
      let (scheme, named) = checked-normalise u c q url tunnel h in
      subst (λ x. Guarded u k x) (sym same)
        (record {
          safe = safe_there url scheme named g.safe;
          valid = with_proxy_headers-IsValid c tunnel q.headers g.valid;
          unsafe = g.unsafe;
        })
    where
      safe_there :
          (url : Text) (scheme : Option Text)
          → u.normalise q.url ≡ ok (url, scheme)
          → IsSafe u k q
          → (u.is_same_host url ≡ ok true)
            ⊎ (get_item (with_proxy_headers c tunnel q.headers) k ≡ none)
      safe_there url scheme named (inl here) = inl (keeps q.url url scheme named ∙ here)
      safe_there url scheme named (inr gone) =
          inr (with_proxy_headers-none c tunnel q.headers k lacks gone)

  abbrev AllSafe : List Sent → Type 0
  AllSafe = All λ (e : Sent). IsSafe u k e.request

  AllSafe-append :
      (xs : List Sent) (e : Sent) → AllSafe xs → IsSafe u k e.request → AllSafe (xs ++ e ∷ [])
  AllSafe-append [] e a h = (h, tt)
  AllSafe-append (x ∷ xs) e a h = (a.0, AllSafe-append xs e a.1 h)

  abbrev GuardedNext : Next → Type 0
  GuardedNext (finished o) = Unit
  GuardedNext (again q) = Guarded u k q

  Keeps-Guarded :
      (q : Request) (s : State) (r : Next × State)
      → Guarded u k q
      → AllSafe s.sent
      → Keeps u q s r
      → AllSafe r.1.sent × GuardedNext r.0
  Keeps-Guarded q s (finished o, s') g a h = (subst (λ l. AllSafe l) (sym h.0) a, tt)
  Keeps-Guarded q s (again q', s') g a h =
      (subst (λ l. AllSafe l) (sym h.0) a, Follows-Guarded u k q q' h.2 g)

  Moves-Guarded :
      (t : Turn) (q : Request) (s : State) (r : Next × State)
      → Guarded u k q
      → AllSafe s.sent
      → Moves u c t q s r
      → AllSafe r.1.sent × GuardedNext r.0
  Moves-Guarded t q s (finished o', s') g a (inl (o, h, same)) =
      (subst (λ l. AllSafe l) (sym same) a, tt)
  Moves-Guarded t q s (again q', s') g a (inl (o, h, same)) = cc
  Moves-Guarded t q s r g a (inr (p, i, inl (s1, same, h))) =
      Keeps-Guarded p.request s1 r (prepared-Guarded q s.stands p i g)
        (subst (λ l. AllSafe l) (sym same) a) h
  Moves-Guarded t q s r g a (inr (p, i, inr (conn, h))) =
      let g' = prepared-Guarded q s.stands p i g in
      Keeps-Guarded p.request
        (log (record s { stands = t.stands }) conn p.request (prepare u c q s.stands).1) r g'
        (AllSafe-append s.sent _ a g'.safe) h

  module _ (parse_date : Text → Outcome (Option ℤ)) where
    continue-Safe :
        (turns : List Turn) (r : Next × State) (o : Outcome Answer) (s' : State)
        → AllSafe r.1.sent × GuardedNext r.0
        → ((q : Request) (s : State)
            → Guarded u k q
            → AllSafe s.sent
            → loop parse_date u c turns q s ≡ some (o, s')
            → AllSafe s'.sent)
        → continue parse_date u c (loop parse_date u c turns) r ≡ some (o, s')
        → AllSafe s'.sent
    continue-Safe turns (finished o', s) o s' a ih h =
        let same : (o', s) ≡ (o, s') = ap (or_else (o', s)) h in
        subst (λ (r : Outcome Answer × State). AllSafe r.1.sent) same a.0
    continue-Safe turns (again q, s) o s' a ih h = ih q s a.1 a.0 h

    -- A header that the retries call unsafe is sent to no other host: every request that is sent goes to
    -- the pool's own host, or does not have the header, provided that the first request is so, its
    -- headers are well formed, no proxy header has the name, and normalising a URL keeps its host.
    pub loop-Safe :
        (turns : List Turn) (q : Request) (s : State) (o : Outcome Answer) (s' : State)
        → Guarded u k q
        → All (λ (e : Sent). IsSafe u k e.request) s.sent
        → loop parse_date u c turns q s ≡ some (o, s')
        → All (λ (e : Sent). IsSafe u k e.request) s'.sent
    unfolding loop
    loop-Safe [] q s o s' g a h = cc
    loop-Safe (t ∷ turns) q s o s' g a h =
        continue-Safe turns (attempt parse_date u c t q s) o s'
          (Moves-Guarded t q s (attempt parse_date u c t q s) g a
            (attempt-Moves parse_date u c t q s))
          (λ q' s'' g' a' h'. loop-Safe turns q' s'' o s' g' a' h') h

-- ===== src/Request/Ends.antt =====
-- The request loop ends: every attempt after the first is paid for with one of `total`.
use urllib.Prelude.{
  ℕ, suc, ◌+◌, ◌≤◌, ◌<◌, Option, some, List, [], ◌∷◌, length, length-append, ◌≡◌, refl, ap, ◌∙◌,
  arith, inl, inr,
}
use urllib.Prelude.Int.{ℤ, pos}
use urllib.Prelude.Text.{Text}
use urllib.Exceptions.{Outcome}
use urllib.Retry.Counts.{num}
use urllib.Retry.Termination.{total-increment}
use urllib.Request.Exchange.{Turn}
use urllib.Request.Arguments.{
  Urls, Settings, Request, Sent, State, Answer, Next, finished, again, Prepared, prepare,
}
use urllib.Request.Loop.{attempt, continue, loop}
use urllib.Request.Moves.{Follows, repeats, redirects, Keeps}
use urllib.Request.Attempts.{Moves, IsPrepared, log, attempt-Moves, retries-stripped}

Follows-total :
    (u : Urls) (q q' : Request) (n : ℕ)
    → Follows u q q'
    → q.retries.total ≡ num (pos n)
    → (m : ℕ) × (n ≡ suc m) × (q'.retries.total ≡ num (pos m))
Follows-total u q q' n (repeats _ _ r a h same) t =
    let (m, p, left) = total-increment q.retries r a n h t in
    (m, p, ap (λ v. v.retries.total) same ∙ left)
Follows-total u q q' n (redirects _ _ response location foreign r a l m h same) t =
    let kept = retries-stripped foreign response q in
    let (m, p, left) = total-increment _ r a n h (ap (λ v. v.total) kept ∙ t) in
    (m, p, ap (λ v. v.retries.total) same ∙ left)

-- An attempt sends at most one request, and is over or has paid for the next.
abbrev Paid : ℕ → State → Next × State → Type 0
Paid n s (finished o, s') = length s'.sent ≤ suc (length s.sent)
Paid n s (again q', s') =
    (length s'.sent ≤ suc (length s.sent))
    × ((m : ℕ) × (n ≡ suc m) × (q'.retries.total ≡ num (pos m)))

sent_length : {xs ys : List Sent} → xs ≡ ys → length xs ≡ length ys
sent_length h = ap (λ l. length l) h

module _ (parse_date : Text → Outcome (Option ℤ)) (u : Urls) (c : Settings) where
  Keeps-Paid :
      (n : ℕ) (q : Request) (s s1 : State) (r : Next × State)
      → q.retries.total ≡ num (pos n)
      → length s1.sent ≤ suc (length s.sent)
      → Keeps u q s1 r
      → Paid n s r
  Keeps-Paid n q s s1 (finished o, s') t few k = omega (arith, sent_length k.0)
  Keeps-Paid n q s s1 (again q', s') t few k =
      (omega (arith, sent_length k.0), Follows-total u q q' n k.2 t)

  prepared_total :
      (n : ℕ) (q : Request) (stands : ℕ) (p : Prepared)
      → q.retries.total ≡ num (pos n)
      → IsPrepared u c q stands p
      → p.request.retries.total ≡ num (pos n)
  prepared_total n q stands p t (url, tunnel, place, k, moved, same) =
      ap (λ v. v.retries.total) same ∙ t

  Moves-Paid :
      (n : ℕ) (t : Turn) (q : Request) (s : State) (r : Next × State)
      → q.retries.total ≡ num (pos n)
      → Moves u c t q s r
      → Paid n s r
  Moves-Paid n t q s (finished o', s') h (inl (o, p, same)) = omega (arith, sent_length same)
  Moves-Paid n t q s (again q', s') h (inl (o, p, same)) = cc
  Moves-Paid n t q s r h (inr (p, i, inl (s1, same, k))) =
      Keeps-Paid n p.request s s1 r (prepared_total n q s.stands p h i)
        (omega (arith, sent_length same)) k
  Moves-Paid n t q s r h (inr (p, i, inr (conn, k))) =
      Keeps-Paid n p.request s
        (log (record s { stands = t.stands }) conn p.request (prepare u c q s.stands).1) r
        (prepared_total n q s.stands p h i) (omega (arith, length-append s.sent _)) k

  abbrev pub Returns : ℕ → State → Option (Outcome Answer × State) → Type 0
  Returns n s result =
      (o : Outcome Answer) × (s' : State) × (result ≡ some (o, s'))
      × (length s'.sent ≤ suc n + length s.sent)

  continue-Returns :
      (turns : List Turn) (n : ℕ) (s : State) (r : Next × State)
      → n ≤ length turns
      → Paid n s r
      → ((q : Request) (s : State) (m : ℕ)
          → q.retries.total ≡ num (pos m)
          → m < length turns
          → Returns m s (loop parse_date u c turns q s))
      → Returns n s (continue parse_date u c (loop parse_date u c turns) r)
  continue-Returns turns n s (finished o, s') le paid ih = (o, s', refl, omega (arith, paid))
  continue-Returns turns n s (again q', s') le (few, (m, p, t)) ih =
      let (o, s'', q, bound) = ih q' s' m t (omega (arith, p)) in
      (o, s'', q, omega (arith, bound, few, p))

  -- If `total` of the retries is the number `n`, `urlopen` ends after at most `n + 1` attempts, whatever
  -- the environment does, and sends at most `n + 1` requests.
  pub loop-Returns :
      (turns : List Turn) (q : Request) (s : State) (n : ℕ)
      → q.retries.total ≡ num (pos n)
      → n < length turns
      → Returns n s (loop parse_date u c turns q s)
  unfolding loop
  loop-Returns [] q s n t h = absurd (omega arith)
  loop-Returns (turn ∷ turns) q s n t h =
      continue-Returns turns n s (attempt parse_date u c turn q s) (omega arith)
        (Moves-Paid n turn q s _ t (attempt-Moves parse_date u c turn q s))
        (λ q' s' m t' h'. loop-Returns turns q' s' m t' h')

-- ===== src/Retry/Termination.antt =====
-- Retrying ends: each success of `increment` uses up one of `total`, and exactly one other counter.
use urllib.Prelude.{
  ℕ, suc, zero, ◌-◌, ◌≤◌, ◌≡◌, ◌≢◌, refl, ◌∙◌, sym, ap, subst, false, Option, none, some, [], ◌∷◌,
  ◌++◌, arith, if◌then◌else◌, ◌=ℕ◌,
}
use urllib.Prelude.Int.{pos, negsuc}
use urllib.Exceptions.{Error}
use urllib.Retry.{
  Retry, Params, init, Response, RequestHistory, is_exhausted, is_connection_error, is_read_error,
  get_redirect_location, filled,
}
use urllib.Retry.Counts.{Count, flag, num, is_flag, decrement, is_spent}
use urllib.Exceptions.{ok}
use urllib.Retry.Increment.{
  Attempt, Charge, charge, charge_for, charge_error, charge_response, entry, next, increment,
}
use urllib.Retry.Exhaustion.{increment-ok, is_exhausted-any}

total-next : (r : Retry) (a : Attempt) (c : Charge) → (next r a c).total ≡ decrement r.total
unfolding next
total-next r a c = refl

-- A returned object has no counter below zero.
not_spent_total : (r : Retry) → is_exhausted r ≡ false → is_spent r.total ≡ false
not_spent_total r h = ground (arith, is_exhausted-any r)

pub total-increment :
    (r r' : Retry) (a : Attempt) (n : ℕ)
    → increment r a ≡ ok r'
    → r.total ≡ num (pos n)
    → (m : ℕ) × (n ≡ suc m) × (r'.total ≡ num (pos m))
total-increment r r' a zero h t =
    let (c, charged, q, alive) = increment-ok r r' a h in
    absurd (
      spent (r'.total) (ap (λ x. x.total) q ∙ total-next r a c ∙ ap decrement t)
        (not_spent_total r' alive))
  where
    spent : (c : Count) → c ≡ num (negsuc 0) → is_spent c ≡ false → ⊥
    spent c p h = ground arith
total-increment r r' a (suc n) h t =
    let (c, charged, q, alive) = increment-ok r r' a h in
    (n, refl, ap (λ x. x.total) q ∙ total-next r a c ∙ ap decrement t)

-- `k` attempts in a row were allowed, and left `s` of `r`.
pub data Allowed (r : Retry) : ℕ → Retry → Type 0 where
  start : Allowed r 0 r
  again :
      {k : ℕ} {s t : Retry} (a : Attempt)
      → Allowed r k s
      → increment s a ≡ ok t
      → Allowed r (suc k) t

-- Whatever happens to the requests, an object with `total` equal to `n` allows at most `n` attempts
-- more, and after `k` of them its total is `n - k`.
pub Allowed-le-total :
    {r : Retry} {k : ℕ} {s : Retry} (n : ℕ)
    → Allowed r k s
    → r.total ≡ num (pos n)
    → (k ≤ n) × (s.total ≡ num (pos (n - k)))
Allowed-le-total n start t = (omega arith, t ∙ ap (λ m. num (pos m)) (omega arith))
Allowed-le-total n (again {k} {s = s} {t = u} a before h) t =
    let (le, left) = Allowed-le-total n before t in
    let (m, p, q) = total-increment s u a (n - k) h left in
    (omega arith, q ∙ ap (λ j. num (pos j)) (omega arith))

-- How one attempt changes the counters: exactly one kind is charged, or, for a response with no
-- status and no redirect, none is.
abbrev pub Counters : Type 0
Counters = Count × Count × Count × Count × Count

abbrev pub counters : Retry → Counters
counters r = (r.connect, r.read, r.redirect, r.status, r.other)

pub data Kind : Type 0 where
  connects reads redirects statuses others nothing : Kind

abbrev pub charged : Kind → Counters → Counters
charged connects (c, r, d, s, o) = (decrement c, r, d, s, o)
charged reads (c, r, d, s, o) = (c, decrement r, d, s, o)
charged redirects (c, r, d, s, o) = (c, r, decrement d, s, o)
charged statuses (c, r, d, s, o) = (c, r, d, decrement s, o)
charged others (c, r, d, s, o) = (c, r, d, s, decrement o)
charged nothing cs = cs

abbrev error_kind : Error → Kind
error_kind e = if is_connection_error e then connects else if is_read_error e then reads else others

abbrev response_kind : Option Response → Kind
response_kind none = nothing
response_kind (some p) =
    if filled (get_redirect_location p)
    then redirects
    else if p.status =ℕ 0
    then nothing
    else statuses

-- The kind of an attempt: of its error, and where it has none, of its response.
abbrev pub kind : Option Error → Option Response → Kind
kind (some e) response = error_kind e
kind none response = response_kind response

charge_counters : Charge → Counters
charge_counters c = (c.connect, c.read, c.redirect, c.status_count, c.other)

charge_for-charged :
    (r : Retry) (a : Attempt) (error : Option Error) (c : Charge)
    → charge_for r a error ≡ ok c
    → charge_counters c ≡ charged (kind error a.response) (counters r)
unfolding charge_error charge_response charge_counters
charge_for-charged r a none c h = ground arith
charge_for-charged r a (some e) c h = ground arith

-- The counters as `__init__` leaves them: a redirect count is never `False`.
pub redirect-init : (p : Params) → is_flag false (init p).redirect ≡ false
unfolding init
redirect-init p = ground arith

charged-redirect :
    (k : Kind) (cs : Counters) → is_flag false cs.2 ≡ false → is_flag false (charged k cs).2 ≡ false
charged-redirect k cs h = ground arith

counters-next :
    (r : Retry) (a : Attempt) (c : Charge)
    → is_flag false c.redirect ≡ false
    → counters (next r a c) ≡ charge_counters c
unfolding next charge_counters
counters-next r a c h = ground arith

history-next :
    (r : Retry) (a : Attempt) (c : Charge) → (next r a c).history ≡ r.history ++ entry a c ∷ []
unfolding next
history-next r a c = refl

-- A success charges `total` and exactly the counter of the attempt's kind (none for a response
-- with neither a redirect nor a status), and adds one entry, with the attempt's method, url and
-- error, to the history.
pub increment_effect :
    (r r' : Retry) (a : Attempt)
    → is_flag false r.redirect ≡ false
    → increment r a ≡ ok r'
    → (r'.total ≡ decrement r.total)
      × (counters r' ≡ charged (kind a.error a.response) (counters r))
      × ((h : RequestHistory) × (r'.history ≡ r.history ++ h ∷ [])
          × (h.method ≡ a.method)
          × (h.url ≡ a.url)
          × (h.error ≡ a.error))
unfolding charge charge_counters
increment_effect r r' a red h =
    let (c, ok_charge, q, alive) = increment-ok r r' a h in
    let same = charge_for-charged r a a.error c ok_charge in
    let kept : is_flag false c.redirect ≡ false =
      subst (λ cs. is_flag false cs.2 ≡ false) (sym same)
        (charged-redirect (kind a.error a.response) (counters r) red) in
    (
      ap (λ x. x.total) q ∙ total-next r a c,
      ap counters q ∙ counters-next r a c kept ∙ same,
      (entry a c, ap (λ x. x.history) q ∙ history-next r a c, refl, refl, refl),
    )

-- With `total` set to `False` no attempt is ever allowed: an error is raised again, and a response
-- ends in a `MaxRetryError`.
disabled_never_retries : (r r' : Retry) (a : Attempt) → r.total ≡ flag false → increment r a ≢ ok r'
disabled_never_retries r r' a t h =
    let (c, charged_ok, q, alive) = increment-ok r r' a h in
    spent r'.total (ap (λ x. x.total) q ∙ total-next r a c ∙ ap decrement t)
      (not_spent_total r' alive)
  where
    spent : (c : Count) → c ≡ num (negsuc 0) → is_spent c ≡ false → ⊥
    spent c p h = ground arith

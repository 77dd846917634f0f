-- ===== src/Retry/Exhaustion.antt =====
-- When `increment` gives up: exactly when a counter has fallen below zero, or the error may not be
-- retried at all.
use urllib.Prelude.{
  ◌≡◌, refl, ◌∙◌, sym, ap, subst, ◌⊎◌, inl, inr, true, false, Option, none, some, List, [], ◌∷◌,
  any, ◌||◌, arith, Bool-cases,
}
use urllib.Exceptions.{Error, exhausted}
use urllib.Retry.{Retry, is_exhausted, is_connection_error, is_read_error}
use urllib.Retry.Counts.{Count, is_flag, is_spent, out_of_retries-any}
use urllib.Exceptions.{Outcome, ok, raises}
use urllib.Retry.Increment.{
  Attempt, Charge, charge, charge_error, unsafe, next, finish, increment, reason, charge_for,
  unless_disabled,
}

-- A retry object is exhausted exactly when one of its six counts is negative: counts that are
-- `None`, `False`, `True` or 0 do not matter.
pub is_exhausted-any :
    (r : Retry)
    → is_exhausted r
      ≡ any is_spent (r.total ∷ r.connect ∷ r.read ∷ r.redirect ∷ r.status ∷ r.other ∷ [])
unfolding is_exhausted
is_exhausted-any r =
    out_of_retries-any (r.total ∷ r.connect ∷ r.read ∷ r.redirect ∷ r.status ∷ r.other ∷ [])

finish-ok :
    (r r' : Retry) (a : Attempt) (o : Outcome Charge)
    → finish r a o ≡ ok r'
    → (c : Charge) × (o ≡ ok c) × (r' ≡ next r a c) × (is_exhausted r' ≡ false)
unfolding finish
finish-ok r r' a (raises e) h = cc
finish-ok r r' a (ok c) h = (c, refl, ground arith, ground arith)

unless_disabled-cases :
    (r : Retry) (error : Option Error) (o : Outcome Retry)
    → ((e : Error) × (error ≡ some e)
        × (is_flag false r.total ≡ true)
        × (unless_disabled r error o ≡ raises e))
      ⊎ (unless_disabled r error o ≡ o)
unless_disabled-cases r none o = inr refl
unless_disabled-cases r (some e) o = elim (Bool-cases (is_flag false r.total)) [
  | inl off ↦ inl (e, refl, off, rw off)
  | inr on ↦ inr (rw on)
]

increment-cases :
    (r : Retry) (a : Attempt)
    → ((e : Error) × (a.error ≡ some e)
        × (is_flag false r.total ≡ true)
        × (increment r a ≡ raises e))
      ⊎ (increment r a ≡ finish r a (charge r a))
unfolding increment
increment-cases r a = unless_disabled-cases r a.error (finish r a (charge r a))

-- A success of `increment`, taken apart.
pub increment-ok :
    (r r' : Retry) (a : Attempt)
    → increment r a ≡ ok r'
    → (c : Charge) × (charge r a ≡ ok c) × (r' ≡ next r a c) × (is_exhausted r' ≡ false)
increment-ok r r' a h = elim (increment-cases r a) [
  | inl (e, m, off, q) ↦ cc
  | inr q ↦ finish-ok r r' a (charge r a) (sym q ∙ h)
]

-- Errors that are handed back to the caller as they came: a connection error where connection
-- retries are switched off, and a read error where read retries are switched off or the method
-- may not be repeated.
abbrev pub IsFinal : Retry → Attempt → Error → Type 0
IsFinal r a e =
    (is_flag false r.total ≡ true)
    ⊎ ((is_connection_error e ≡ true) × (is_flag false r.connect ≡ true))
    ⊎ ((is_read_error e ≡ true) × ((is_flag false r.read || unsafe r a.method) ≡ true))

charge_error-raises :
    (r : Retry) (a : Attempt) (x e : Error)
    → charge_error r a.method x ≡ raises e
    → (x ≡ e) × IsFinal r a e
unfolding charge_error
charge_error-raises r a x e h =
    let same : x ≡ e = ground arith in
    let final : IsFinal r a x = ground arith in (same, subst (IsFinal r a) same final)

charge_for-raises :
    (r : Retry) (a : Attempt) (error : Option Error) (e : Error)
    → charge_for r a error ≡ raises e
    → (error ≡ some e) × IsFinal r a e
charge_for-raises r a none e h = cc
charge_for-raises r a (some x) e h =
    let (q, final) = charge_error-raises r a x e h in (ap some q, final)

finish-raises :
    (r : Retry) (a : Attempt) (e : Error) (o : Outcome Charge)
    → finish r a o ≡ raises e
    → (o ≡ raises e)
      ⊎ ((c : Charge) × (o ≡ ok c)
          × (e ≡ exhausted a.url (reason a c))
          × (is_exhausted (next r a c) ≡ true))
unfolding finish
finish-raises r a e (raises x) h = inl (ground arith)
finish-raises r a e (ok c) h = inr (c, refl, ground arith, ground arith)

-- When `increment` raises, it either hands back the error it was given, which must be one that is
-- not retried, or raises a `MaxRetryError` for the url, and then a counter of the object that it
-- would have returned is below zero.
pub increment-raises :
    (r : Retry) (a : Attempt) (e : Error)
    → increment r a ≡ raises e
    → ((a.error ≡ some e) × IsFinal r a e)
      ⊎ ((c : Charge) × (charge r a ≡ ok c)
          × (e ≡ exhausted a.url (reason a c))
          × (is_exhausted (next r a c) ≡ true))
increment-raises r a e h = elim (increment-cases r a) [
  | inl (x, m, off, q) ↦ inl (ground arith, inl off)
  | inr q ↦ elim (finish-raises r a e (charge r a) (sym q ∙ h)) [
    | inl p ↦ inl (charge_for-raises r a a.error e (unfold charge in p))
    | inr p ↦ inr p
  ]
]

abbrev pub counts : Retry → List Count
counts r = r.total ∷ r.connect ∷ r.read ∷ r.redirect ∷ r.status ∷ r.other ∷ []

abbrev pub Judged : Retry → Attempt → Outcome Retry → Type 0
Judged r a (raises e) =
    ((a.error ≡ some e) × IsFinal r a e)
    ⊎ ((c : Charge) × (charge r a ≡ ok c)
        × (e ≡ exhausted a.url (reason a c))
        × (any is_spent (counts (next r a c)) ≡ true))
Judged r a (ok r') =
    (c : Charge) × (charge r a ≡ ok c)
    × (r' ≡ next r a c)
    × (any is_spent (counts (next r a c)) ≡ false)

raised-Judged :
    (r : Retry) (a : Attempt) (e : Error) → increment r a ≡ raises e → Judged r a (raises e)
raised-Judged r a e q = elim (increment-raises r a e q) [
  | inl given ↦ inl given
  | inr (c, m, same, out) ↦ inr (c, m, same, sym (is_exhausted-any (next r a c)) ∙ out)
]

allowed-Judged : (r r' : Retry) (a : Attempt) → increment r a ≡ ok r' → Judged r a (ok r')
allowed-Judged r r' a q =
    let (c, m, same, left) = increment-ok r r' a q in
    (c, m, same, sym (is_exhausted-any (next r a c)) ∙ sym (ap is_exhausted same) ∙ left)

judged : (r : Retry) (a : Attempt) (o : Outcome Retry) → increment r a ≡ o → Judged r a o
judged r a (raises e) q = raised-Judged r a e q
judged r a (ok r') q = allowed-Judged r r' a q

-- If `increment` raises, it hands back the error that it was given, which must be one that is not
-- retried, or it raises a `MaxRetryError` for the url with the error or the response's fault as its
-- reason, and then one of the six counts of the object with the charges of this attempt is below
-- zero. If it returns, it returns this object, and none of its counts is below zero.
pub increment-Judged : (r : Retry) (a : Attempt) → Judged r a (increment r a)
increment-Judged r a = judged r a (increment r a) refl

-- The converse: an error that is not retried is raised again, whatever the counters are.
pub increment_final :
    (r : Retry) (a : Attempt) (e : Error)
    → a.error ≡ some e
    → is_connection_error e ≡ false
    → is_read_error e ≡ true
    → unsafe r a.method ≡ true
    → increment r a ≡ raises e
increment_final r a e m nc rd us = elim (increment-cases r a) [
  | inl (x, m', off, q) ↦ cc
  | inr q ↦ q ∙ unfold finish charge charge_error in ground arith
]

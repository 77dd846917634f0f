-- ===== src/Request/Unsafe.antt =====
-- Unsafe headers on one redirect: they go before it leads to another host.
use urllib.Prelude.{
  Bool, true, false, Option, none, List, [], ◌∷◌, map, ◌==◌, ◌=ℕ◌, ◌≡◌, refl, ap, ◌∙◌, sym, subst,
  arith, Bool-cases, inl, inr, ◌⊎◌, ==-eq-true, ==_refl,
}
use urllib.Prelude.Text.{Text, lower, lower_idem, text_eq}
use urllib.Collections.HeaderDict.{get_item, names}
use urllib.Collections.HeaderDict.Valid.{IsValid}
use urllib.Exceptions.{Outcome, ok, raises}
use urllib.Retry.{Retry, Response}
use urllib.Retry.Increment.{Attempt, increment, Charge, next}
use urllib.Retry.Exhaustion.{increment-ok}
use urllib.Request.Arguments.{Urls, Request, negated}
use urllib.Request.Loop.{stripped, is_foreign, unless_empty, see_other}
use urllib.Request.Moves.{Follows, repeats, redirects}
use urllib.Request.Attempts.{retries-stripped}
use urllib.Request.Headers.{is_unsafe, strip-unsafe, prepare-none, strip-IsValid, prepare-IsValid}

-- A target that is sent is on the host that the URL names.
abbrev pub KeepsHost : Urls → Type 0
KeepsHost u =
    (url target : Text) (scheme : Option Text)
    → u.normalise url ≡ ok (target, scheme)
    → u.is_same_host target ≡ u.is_same_host url

-- The request goes to the pool's own host, or does not have the header.
abbrev pub IsSafe : Urls → Text → Request → Type 0
IsSafe u k q = (u.is_same_host q.url ≡ ok true) ⊎ (get_item q.headers k ≡ none)

pub record Guarded (u : Urls) (k : Text) (q : Request) : Type 0 where
  pub safe : IsSafe u k q
  pub valid : IsValid q.headers
  pub unsafe : is_unsafe q.retries.remove_headers_on_redirect k ≡ true

unsafe-map : (ts : List Text) (k : Text) → is_unsafe ts k ≡ true → is_unsafe (map lower ts) k ≡ true
unsafe-map [] k h = h
unsafe-map (t ∷ ts) k h = elim (Bool-cases (t == lower k)) [
  | inl same ↦
      let eq : lower t ≡ lower k = ap lower (==-eq-true t (lower k) same) ∙ lower_idem k in
      let here : (lower t == lower k) ≡ true = rw eq (==_refl (lower k)) in ground arith
  | inr other ↦ ground (arith, unsafe-map ts k)
]

remove-next :
    (r : Retry) (a : Attempt) (c : Charge)
    → (next r a c).remove_headers_on_redirect ≡ map lower r.remove_headers_on_redirect
unfolding next
remove-next r a c = refl

unsafe-increment :
    (r r' : Retry) (a : Attempt) (k : Text)
    → increment r a ≡ ok r'
    → is_unsafe r.remove_headers_on_redirect k ≡ true
    → is_unsafe r'.remove_headers_on_redirect k ≡ true
unsafe-increment r r' a k h bad =
    let (c, charged, q, alive) = increment-ok r r' a h in
    subst (λ ts. is_unsafe ts k ≡ true)
      (sym (ap (λ x. x.remove_headers_on_redirect) q ∙ remove-next r a c))
      (unsafe-map r.remove_headers_on_redirect k bad)

see_other-Valid :
    (response : Response) (q : Request) → IsValid q.headers → IsValid (see_other response q).headers
see_other-Valid response q v = elim (Bool-cases (response.status =ℕ 303)) [
  | inl on ↦ rw on (prepare-IsValid q.headers v)
  | inr off ↦ rw off v
]

see_other-none :
    (response : Response) (q : Request) (k : Text)
    → get_item q.headers k ≡ none
    → get_item (see_other response q).headers k ≡ none
see_other-none response q k m = elim (Bool-cases (response.status =ℕ 303)) [
  | inl on ↦ rw on (prepare-none q.headers k m)
  | inr off ↦ rw off m
]

retries-see_other : (response : Response) (q : Request) → (see_other response q).retries ≡ q.retries
retries-see_other response q = ground arith

unless_empty-unsafe :
    (ts : List Text) (k : Text) (b : Outcome Bool) → is_unsafe ts k ≡ true → unless_empty ts b ≡ b
unless_empty-unsafe [] k b h = cc
unless_empty-unsafe (t ∷ ts) k b h = refl

stripped-Valid :
    (foreign : Bool) (q : Request) → IsValid q.headers → IsValid (stripped foreign q).headers
stripped-Valid true q v =
    strip-IsValid q.retries.remove_headers_on_redirect (names q.headers) q.headers v
stripped-Valid false q v = v

-- Where the headers are not stripped, the location is on the same host.
kept-here : (o : Outcome Bool) → negated o ≡ ok false → o ≡ ok true
kept-here (ok true) h = refl
kept-here (ok false) h = cc
kept-here (raises e) h = cc

-- After a redirect the header is gone, unless the new location is on the same host.
stripped-safe :
    (u : Urls) (location : Text) (k : Text) (foreign : Bool) (q : Request)
    → IsValid q.headers
    → is_unsafe q.retries.remove_headers_on_redirect k ≡ true
    → is_foreign u q.retries location ≡ ok foreign
    → (u.is_same_host location ≡ ok true) ⊎ (get_item (stripped foreign q).headers k ≡ none)
stripped-safe u location k true q v bad h =
    inr (strip-unsafe q.retries.remove_headers_on_redirect q.headers k v bad)
stripped-safe u location k false q v bad h = inl (
    kept-here (u.is_same_host location)
      (sym (unless_empty-unsafe q.retries.remove_headers_on_redirect k _ bad) ∙ h))

module _ (u : Urls) (k : Text) where
  pub Follows-Guarded : (q q' : Request) → Follows u q q' → Guarded u k q → Guarded u k q'
  Follows-Guarded q q' (repeats _ _ r a h same) g =
      subst (λ x. Guarded u k x) (sym same)
        (record {
          safe = g.safe;
          valid = g.valid;
          unsafe = unsafe-increment q.retries r a k h g.unsafe;
        })
  Follows-Guarded q q' (redirects _ _ response location foreign r a l m h same) g =
      let other = see_other response q in
      let bad : is_unsafe other.retries.remove_headers_on_redirect k ≡ true =
        subst (λ x. is_unsafe x.remove_headers_on_redirect k ≡ true)
          (sym (retries-see_other response q)) g.unsafe in
      let v = see_other-Valid response q g.valid in
      subst (λ x. Guarded u k x) (sym same)
        (record {
          safe =
              stripped-safe u location k foreign other v bad
                (ap (λ x. is_foreign u x location) (retries-see_other response q) ∙ m);
          valid = stripped-Valid foreign other v;
          unsafe = unsafe-increment (stripped foreign other).retries r a k h (
              subst (λ x. is_unsafe x.remove_headers_on_redirect k ≡ true)
                (sym (retries-stripped foreign response q)) g.unsafe);
        })

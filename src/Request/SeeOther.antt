-- ===== src/Request/SeeOther.antt =====
-- A 303 after a request with a file for its body. The next request has no body, but it is given the
-- position that was recorded for the file.
use urllib.Prelude.{
  ℕ, Bool, true, Option, none, some, if◌then◌else◌, ◌≡◌, refl, ap, ◌∙◌, sym, subst, arith, inl, inr,
}
use urllib.Prelude.Int.{ℤ}
use urllib.Prelude.Text.{Text}
use urllib.Exceptions.{Error, Outcome, ok, raises}
use urllib.Request.Body.{
  Body, absent, file, File, Position, at, failed_tell, rewind_body, set_file_position,
}
use urllib.Request.Exchange.{Turn}
use urllib.Request.Arguments.{
  Urls, Settings, Request, State, Next, finished, again, Prepared, prepare, checked, targeted,
}
use urllib.Request.Loop.{attempt, prepared}
use urllib.Request.Moves.{Follows, repeats, redirects, FollowsNext}
use urllib.Request.Attempts.{Moves, IsPrepared, attempt-Moves}
use urllib.Request.Bodies.{pos-stripped}

-- Something was recorded for a file with `tell`, if no more than that it failed.
recorded_some :
    (f : File) (pos : Option Position) (stands : ℕ) (place : Option Position)
    → f.has_tell ≡ true
    → (set_file_position (file f) pos stands).0 ≡ ok place
    → (x : Position) × (place ≡ some x)
unfolding set_file_position rewind_body
recorded_some f none stands place t h =
    (if f.tell_fails then failed_tell else at stands, ground arith)
recorded_some f (some (at n)) stands place t h = (at n, ground arith)
recorded_some f (some failed_tell) stands place t h = cc

no_rewind :
    (x : Position) (stands : ℕ) → (e : Error) × (rewind_body absent x stands ≡ (raises e, stands))
unfolding rewind_body
no_rewind (at n) stands = (_, refl)
no_rewind failed_tell stands = (_, refl)

set_absent :
    (b : Body) (pos : Option Position) (x : Position) (stands : ℕ)
    → b ≡ absent
    → pos ≡ some x
    → (e : Error) × (set_file_position b pos stands ≡ (raises e, stands))
unfolding set_file_position
set_absent b pos x stands h k =
    let (e, q) = no_rewind x stands in
    (
      e,
      ap (λ y. set_file_position y pos stands) h
          ∙ ap (λ y. set_file_position absent y stands) k
          ∙ q,
    )

module _ (u : Urls) (c : Settings) where
  pub lost_body :
      (q : Request) (x : Position) (stands : ℕ)
      → q.body ≡ absent
      → q.body_pos ≡ some x
      → (e : Error) × (prepare u c q stands ≡ (raises e, stands))
  unfolding prepare
  lost_body q x stands b p = go (checked u c q) refl
    where
      go :
          (o : Outcome (Text × Bool))
          → checked u c q ≡ o
          → (e : Error) × (targeted u c q o stands ≡ (raises e, stands))
      go (raises e) k = (e, refl)
      go (ok (url, tunnel)) k =
          let (e, h) = set_absent q.body q.body_pos x stands b p in (e, rw h refl)

  -- What such a request ends in: an error, with nothing sent and no connection asked for.
  abbrev pub IsLost : State → Next × State → Type 0
  IsLost s r = (e : Error) × (r ≡ (finished (raises e), s))

  module _ (parse_date : Text → Outcome (Option ℤ)) where
    attempt-IsLost :
        (t : Turn) (q : Request) (x : Position) (s : State)
        → q.body ≡ absent
        → q.body_pos ≡ some x
        → IsLost s (attempt parse_date u c t q s)
    unfolding attempt
    attempt-IsLost t q x s b p =
        let (e, h) = lost_body q x s.stands b p in (e, ap (λ r. prepared parse_date u c t s r) h)

    Keeps-pos : (q q' : Request) → Follows u q q' → q'.body_pos ≡ q.body_pos
    Keeps-pos q q' (repeats _ _ r a h same) = ap (λ v. v.body_pos) same
    Keeps-pos q q' (redirects _ _ response location foreign r a l m h same) =
        ap (λ v. v.body_pos) same ∙ pos-stripped foreign response q

    -- After an attempt with a file for a body, a next request without a body always fails: it raises an
    -- error before it asks for a connection.
    pub see_other_fails :
        (t t' : Turn) (q q' : Request) (s s' : State) (f : File)
        → q.body ≡ file f
        → f.has_tell ≡ true
        → (attempt parse_date u c t q s).0 ≡ again q'
        → q'.body ≡ absent
        → IsLost s' (attempt parse_date u c t' q' s')
    see_other_fails t t' q q' s s' f b tells h gone =
        go (attempt parse_date u c t q s) h (attempt-Moves parse_date u c t q s)
      where
        place_of :
            (p : Prepared)
            → IsPrepared u c q s.stands p
            → Follows u p.request q'
            → IsLost s' (attempt parse_date u c t' q' s')
        place_of p (url, tunnel, place, k, set, same) fol =
            let (x, there) =
              recorded_some f q.body_pos s.stands place tells
                (ap (λ y. (set_file_position y q.body_pos s.stands).0) (sym b) ∙ set) in
            attempt-IsLost t' q' x s' gone
              (Keeps-pos p.request q' fol ∙ ap (λ v. v.body_pos) same ∙ there)

        go :
            (r : Next × State)
            → r.0 ≡ again q'
            → Moves u c t q s r
            → IsLost s' (attempt parse_date u c t' q' s')
        go (finished o, s1) e m = cc
        go (again q1, s1) e (inl (o, h1, same)) = cc
        go (again q1, s1) e (inr (p, i, inl (s2, same, k))) =
            place_of p i (subst (λ n. FollowsNext u p.request n) e k.2)
        go (again q1, s1) e (inr (p, i, inr (conn, k))) =
            place_of p i (subst (λ n. FollowsNext u p.request n) e k.2)

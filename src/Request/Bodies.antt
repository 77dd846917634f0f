-- ===== src/Request/Bodies.antt =====
-- The body of a request in all attempts of one call.
use urllib.Prelude.{
  ℕ, Bool, true, false, Option, none, some, List, [], ◌∷◌, ◌++◌, All, ◌≡◌, ◌≢◌, refl, ap, ◌∙◌, sym,
  subst, arith, inl, inr, ◌⊎◌, or_else,
}
use urllib.Prelude.Int.{ℤ}
use urllib.Prelude.Text.{Text}
use urllib.Exceptions.{Outcome, ok}
use urllib.Retry.{Response}
use urllib.Request.Body.{Body, absent, file, File, Position, at, rewind_body, set_file_position}
use urllib.Request.Exchange.{Turn}
use urllib.Request.Arguments.{
  Urls, Settings, Request, Sent, State, Answer, Next, finished, again, prepare, checked, targeted,
}
use urllib.Request.Loop.{attempt, continue, loop, stripped, see_other}
use urllib.Request.Moves.{Follows, repeats, redirects, Keeps}
use urllib.Request.Attempts.{Moves, log, attempt-Moves}

-- A file whose position can be read and set.
abbrev pub rewindable : File
rewindable = record { has_tell = true; tell_fails = false; has_seek = true; seek_fails = false }

-- The position that the file is at, or will be put back to, is `n`; or the body is gone.
abbrev pub BodyAt : ℕ → Request → ℕ → Type 0
BodyAt n q stands =
    ((q.body ≡ file rewindable)
      × (((q.body_pos ≡ none) × (stands ≡ n)) ⊎ (q.body_pos ≡ some (at n))))
    ⊎ ((q.body ≡ absent) × (q.body_pos ≡ some (at n)))

-- What was sent: the file, from position `n`.
abbrev pub SentAt : ℕ → Sent → Type 0
SentAt n e = (e.request.body ≡ file rewindable) × (e.stands ≡ n)

moved :
    {b b' : Body} {p p' : Option Position}
    → b ≡ b'
    → p ≡ p'
    → (stands : ℕ) → set_file_position b p stands ≡ set_file_position b' p' stands
moved {b} {b'} {p} {p'} h k stands =
    ap (λ x. set_file_position x p stands) h ∙ ap (λ x. set_file_position b' x stands) k

got :
    (x : Position) (place : Option Position)
    → ◌≡◌ {A = Outcome (Option Position)} (ok (some x)) (ok place)
    → place ≡ some x
got x place h = cc

recorded_here :
    (stands : ℕ) → (set_file_position (file rewindable) none stands).0 ≡ ok (some (at stands))
unfolding set_file_position
recorded_here stands = refl

stays : (stands : ℕ) → (set_file_position (file rewindable) none stands).1 ≡ stands
unfolding set_file_position
stays stands = refl

back :
    (n stands : ℕ) → (set_file_position (file rewindable) (some (at n)) stands).0 ≡ ok (some (at n))
unfolding set_file_position rewind_body
back n stands = refl

back_at : (n stands : ℕ) → (set_file_position (file rewindable) (some (at n)) stands).1 ≡ n
unfolding set_file_position rewind_body
back_at n stands = refl

refused :
    (n stands : ℕ) (place : Option Position)
    → (set_file_position absent (some (at n)) stands).0 ≢ ok place
unfolding set_file_position rewind_body
refused n stands place h = cc

positioned_at :
    (n : ℕ) (q : Request) (stands : ℕ) (place : Option Position)
    → BodyAt n q stands
    → (set_file_position q.body q.body_pos stands).0 ≡ ok place
    → (q.body ≡ file rewindable)
      × (place ≡ some (at n))
      × ((set_file_position q.body q.body_pos stands).1 ≡ n)
positioned_at n q stands place (inl (b, inl (p, same))) h =
    let e = moved b p stands in
    (
      b,
      got (at stands) place (sym (ap (λ m. m.0) e ∙ recorded_here stands) ∙ h)
          ∙ ap (λ m. some (at m)) same,
      ap (λ m. m.1) e ∙ stays stands ∙ same,
    )
positioned_at n q stands place (inl (b, inr p)) h =
    let e = moved b p stands in
    (
      b,
      got (at n) place (sym (ap (λ m. m.0) e ∙ back n stands) ∙ h),
      ap (λ m. m.1) e ∙ back_at n stands,
    )
positioned_at n q stands place (inr (b, p)) h =
    absurd (refused n stands place (sym (ap (λ m. m.0) (moved b p stands)) ∙ h))

body-stripped :
    (foreign : Bool) (response : Response) (q : Request)
    → ((stripped foreign (see_other response q)).body ≡ q.body)
      ⊎ ((stripped foreign (see_other response q)).body ≡ absent)
body-stripped foreign response q = ground arith

pub pos-stripped :
    (foreign : Bool) (response : Response) (q : Request)
    → (stripped foreign (see_other response q)).body_pos ≡ q.body_pos
pos-stripped foreign response q = ground arith

pos-prepare :
    (u : Urls) (c : Settings) (q : Request) (stands : ℕ) (url : Text) (tunnel : Bool)
    → checked u c q ≡ ok (url, tunnel)
    → (prepare u c q stands).1 ≡ (set_file_position q.body q.body_pos stands).1
unfolding prepare
pos-prepare u c q stands url tunnel h = ap (λ o. (targeted u c q o stands).1) h

module _ (u : Urls) (n : ℕ) where
  Follows-BodyAt :
      (q q' : Request) (stands : ℕ)
      → Follows u q q'
      → q.body ≡ file rewindable
      → q.body_pos ≡ some (at n)
      → BodyAt n q' stands
  Follows-BodyAt q q' stands (repeats _ _ r a h same) b p =
      inl (ap (λ x. x.body) same ∙ b, inr (ap (λ x. x.body_pos) same ∙ p))
  Follows-BodyAt q q' stands (redirects _ _ response location foreign r a l m h same) b p =
      let place = ap (λ x. x.body_pos) same ∙ pos-stripped foreign response q ∙ p in
      elim (body-stripped foreign response q) [
        | inl kept ↦ inl (ap (λ x. x.body) same ∙ kept ∙ b, inr place)
        | inr gone ↦ inr (ap (λ x. x.body) same ∙ gone, place)
      ]

  abbrev BodyNext : Next × State → Type 0
  BodyNext (finished o, s) = Unit
  BodyNext (again q, s) = BodyAt n q s.stands

  abbrev AllAt : List Sent → Type 0
  AllAt = All λ (e : Sent). SentAt n e

  AllAt-append : (xs : List Sent) (e : Sent) → AllAt xs → SentAt n e → AllAt (xs ++ e ∷ [])
  AllAt-append [] e a h = (h, tt)
  AllAt-append (x ∷ xs) e a h = (a.0, AllAt-append xs e a.1 h)

  Keeps-BodyAt :
      (q : Request) (s : State) (r : Next × State)
      → q.body ≡ file rewindable
      → q.body_pos ≡ some (at n)
      → AllAt s.sent
      → Keeps u q s r
      → AllAt r.1.sent × BodyNext r
  Keeps-BodyAt q s (finished o, s') b p a h = (subst (λ l. AllAt l) (sym h.0) a, tt)
  Keeps-BodyAt q s (again q', s') b p a h =
      (subst (λ l. AllAt l) (sym h.0) a, Follows-BodyAt q q' s'.stands h.2 b p)

  module _ (c : Settings) where
    Moves-BodyAt :
        (t : Turn) (q : Request) (s : State) (r : Next × State)
        → BodyAt n q s.stands
        → AllAt s.sent
        → Moves u c t q s r
        → AllAt r.1.sent × BodyNext r
    Moves-BodyAt t q s (finished o', s') g a (inl (o, h, same)) =
        (subst (λ l. AllAt l) (sym same) a, tt)
    Moves-BodyAt t q s (again q', s') g a (inl (o, h, same)) = cc
    Moves-BodyAt t q s r g a (inr (p, (url, tunnel, place, h, set, same), how)) =
        let (b, there, stood) = positioned_at n q s.stands place g set in
        let body = ap (λ x. x.body) same ∙ b in
        let pos_n = ap (λ x. x.body_pos) same ∙ there in
        elim how [
          | inl (s1, kept, k) ↦
              Keeps-BodyAt p.request s1 r body pos_n (subst (λ l. AllAt l) (sym kept) a) k
          | inr (conn, k) ↦
              Keeps-BodyAt p.request
                (log (record s { stands = t.stands }) conn p.request (prepare u c q s.stands).1) r
                body pos_n
                (AllAt-append s.sent _ a (body, pos-prepare u c q s.stands url tunnel h ∙ stood)) k
        ]

    module _ (parse_date : Text → Outcome (Option ℤ)) where
      continue-BodyAt :
          (turns : List Turn) (r : Next × State) (o : Outcome Answer) (s' : State)
          → AllAt r.1.sent × BodyNext r
          → ((q : Request) (s : State)
              → BodyAt n q s.stands
              → AllAt s.sent
              → loop parse_date u c turns q s ≡ some (o, s')
              → AllAt s'.sent)
          → continue parse_date u c (loop parse_date u c turns) r ≡ some (o, s')
          → AllAt s'.sent
      continue-BodyAt turns (finished o', s) o s' a ih h =
          let same : (o', s) ≡ (o, s') = ap (or_else (o', s)) h in
          subst (λ (r : Outcome Answer × State). AllAt r.1.sent) same a.0
      continue-BodyAt turns (again q, s) o s' a ih h = ih q s a.1 a.0 h

      -- A body that is a file with `tell` and `seek` is sent from the same position in every attempt,
      -- wherever the attempts before have left the file.
      pub loop-SentAt :
          (turns : List Turn) (q : Request) (s : State) (o : Outcome Answer) (s' : State)
          → BodyAt n q s.stands
          → All (λ (e : Sent). SentAt n e) s.sent
          → loop parse_date u c turns q s ≡ some (o, s')
          → All (λ (e : Sent). SentAt n e) s'.sent
      unfolding loop
      loop-SentAt [] q s o s' g a h = cc
      loop-SentAt (t ∷ turns) q s o s' g a h =
          continue-BodyAt turns (attempt parse_date u c t q s) o s'
            (Moves-BodyAt t q s (attempt parse_date u c t q s) g a
              (attempt-Moves parse_date u c t q s))
            (λ q' s'' g' a' h'. loop-SentAt turns q' s'' o s' g' a' h') h

-- ===== src/Url/Path/Segments.antt =====
-- Splitting and joining undo each other.
use urllib.Prelude.{
  ℕ, false, List, [], ◌∷◌, ◌++◌, ◌=ℕ◌, All, ◌≡◌, refl, ap, ◌∙◌, sym, arith, Bool-cases, inl, inr,
}
use urllib.Prelude.Text.{Text}
use urllib.Url.Path.{slash, onto_first, split, join}

abbrev pub NoSlash : Text → Type 0
NoSlash s = All (λ c. (c =ℕ slash) ≡ false) s

first-All :
    (c : ℕ) (segments : List Text)
    → (c =ℕ slash) ≡ false
    → All NoSlash segments
    → All NoSlash (onto_first c segments)
unfolding onto_first
first-All c [] h a = ((h, tt), tt)
first-All c (s ∷ segments) h a = ((h, a.0), a.1)

pub split-NoSlash : (path : Text) → All NoSlash (split path)
unfolding split
split-NoSlash [] = (tt, tt)
split-NoSlash (c ∷ path) = elim (Bool-cases (c =ℕ slash)) [
  | inl same ↦ rw same (tt, split-NoSlash path)
  | inr other ↦ rw other (first-All c (split path) other (split-NoSlash path))
]

pub split-nonempty : (path : Text) → (s : Text) × (rest : List Text) × (split path ≡ s ∷ rest)
unfolding split
split-nonempty [] = ([], [], refl)
split-nonempty (c ∷ path) =
    let (s, rest, q) = split-nonempty path in
    elim (Bool-cases (c =ℕ slash)) [
      | inl same ↦ rw same ([], split path, refl)
      | inr other ↦ rw (other, q) (c ∷ s, rest, unfold onto_first in refl)
    ]

join-first :
    (c : ℕ) (s : Text) (rest : List Text) → join (onto_first c (s ∷ rest)) ≡ c ∷ join (s ∷ rest)
unfolding onto_first join
join-first c s [] = refl
join-first c s (t ∷ rest) = refl

join-root : (s : Text) (rest : List Text) → join ([] ∷ s ∷ rest) ≡ slash ∷ join (s ∷ rest)
unfolding join
join-root s rest = refl

pub join-split : (path : Text) → join (split path) ≡ path
unfolding split
join-split [] = unfold join in refl
join-split (c ∷ path) =
    let (s, rest, q) = split-nonempty path in
    elim (Bool-cases (c =ℕ slash)) [
      | inl same ↦
          let here : slash ≡ c = ground arith in
          rw same (
            ap (λ k. join ([] ∷ k)) q
            ∙ join-root s rest
            ∙ ap (λ k. slash ∷ join k) (sym q)
            ∙ ap (λ k. slash ∷ k) (join-split path)
            ∙ ap (λ k. k ∷ path) here)
      | inr other ↦ rw other (
          ap (λ k. join (onto_first c k)) q
          ∙ join-first c s rest
          ∙ ap (λ k. c ∷ k) (ap join (sym q) ∙ join-split path))
    ]

pub split-plain : (s : Text) → NoSlash s → split s ≡ s ∷ []
unfolding split
split-plain [] a = refl
split-plain (c ∷ s) a = rw (a.0, split-plain s a.1) (unfold onto_first in refl)

split-step : (s path : Text) → NoSlash s → split (s ++ slash ∷ path) ≡ s ∷ split path
unfolding split
split-step [] path a = refl
split-step (c ∷ s) path a = rw (a.0, split-step s path a.1) (unfold onto_first in refl)

pub split-join :
    (s : Text) (rest : List Text) → All NoSlash (s ∷ rest) → split (join (s ∷ rest)) ≡ s ∷ rest
unfolding join
split-join s [] a = split-plain s a.0
split-join s (t ∷ rest) a =
    split-step s (join (t ∷ rest)) a.0 ∙ ap (λ k. s ∷ k) (split-join t rest a.1)

-- ===== src/Url/Path/Dots.antt =====
-- What is left of the dot segments of a path: nothing.
use urllib.Prelude.{
  ℕ, Bool, true, false, ◌&&◌, ◌||◌, List, [], ◌∷◌, ◌++◌, ◌=ℕ◌, ◌==◌, if◌then◌else◌, All, ◌≡◌, refl,
  ap, ◌∙◌, sym, subst, arith, Bool-cases, inl, inr, ◌⊎◌, ==-eq-true, ==_refl, append_assoc,
  append-nil,
}
use urllib.Prelude.Text.{Text, text_eq}
use urllib.Url.Path.{
  slash, dot, dots, onto_first, split, join, ends_with, pop, visit, walk, lacks_root, is_absolute,
  rooted, ends_in_dots, closed, remove_path_dot_segments,
}
use urllib.Url.Path.Segments.{
  NoSlash, split-NoSlash, split-nonempty, join-split, split-join, split-plain,
}

-- Neither `.` nor `..`.
abbrev pub NotDots : Text → Type 0
NotDots s = ((s == dot) ≡ false) × ((s == dots) ≡ false)

module _ (P : Text → Type 0) where
  All-push : (output : List Text) (s : Text) → All P output → P s → All P (output ++ s ∷ [])
  All-push [] s a p = (p, tt)
  All-push (t ∷ output) s a p = (a.0, All-push output s a.1 p)

  All-pop : (output : List Text) → All P output → All P (pop output)
  unfolding pop
  All-pop [] a = tt
  All-pop (s ∷ []) a = tt
  All-pop (s ∷ t ∷ output) a = (a.0, All-pop (t ∷ output) a.1)

abbrev Good : Text → Type 0
Good s = NoSlash s × NotDots s

visit-Good :
    (output : List Text) (s : Text) → All Good output → NoSlash s → All Good (visit output s)
unfolding visit
visit-Good output s a p = elim (Bool-cases (s == dot)) [
  | inl one ↦ rw one a
  | inr not_one ↦ elim (Bool-cases (s == dots)) [
    | inl two ↦ rw (not_one, two) (All-pop Good output a)
    | inr not_two ↦ rw (not_one, not_two) (All-push Good output s a (p, (not_one, not_two)))
  ]
]

walk-Good :
    (output segments : List Text)
    → All Good output
    → All NoSlash segments
    → All Good (walk output segments)
unfolding walk
walk-Good output [] a h = a
walk-Good output (s ∷ segments) a h =
    walk-Good (visit output s) segments (visit-Good output s a h.0) h.1

if-All :
    (b : Bool) (xs ys : List Text) → All Good xs → All Good ys → All Good (if b then xs else ys)
if-All true xs ys p q = p
if-All false xs ys p q = q

plain : (output : List Text) → All Good output → All NoSlash output
plain [] a = tt
plain (s ∷ output) a = (a.0.0, plain output a.1)

undotted : (output : List Text) → All Good output → All NotDots output
undotted [] a = tt
undotted (s ∷ output) a = (a.0.1, undotted output a.1)

split-joined : (output : List Text) → All Good output → All Good (split (join output))
split-joined [] a = unfold split join in ((tt, (refl, refl)), tt)
split-joined (s ∷ rest) a = subst (λ k. All Good k) (sym (split-join s rest (plain (s ∷ rest) a))) a

root-Good : Good []
root-Good = (tt, (refl, refl))

-- No segment of a path that went through is `.` or `..`.
pub remove_path_dot_segments-NotDots :
    (path : Text) → All NotDots (split (remove_path_dot_segments path))
unfolding remove_path_dot_segments
remove_path_dot_segments-NotDots path =
    let output = walk [] (split path) in
    let kept : All Good output = walk-Good [] (split path) tt (split-NoSlash path) in
    let start : All Good (rooted path output) =
      if-All (is_absolute path && lacks_root output) ([] ∷ output) output (root-Good, kept) kept in
    undotted _ (
      split-joined (closed path (rooted path output)) (
        if-All (ends_in_dots path) _ _ (All-push Good (rooted path output) [] start root-Good)
          start))

walk-kept :
    (output segments : List Text) → All NotDots segments → walk output segments ≡ output ++ segments
unfolding walk visit
walk-kept output [] a = sym (append-nil output)
walk-kept output (s ∷ segments) a =
    rw (a.0.0, a.0.1)
      (walk-kept (output ++ s ∷ []) segments a.1 ∙ append_assoc output (s ∷ []) segments)

abbrev rest_of : List Text → List Text
rest_of [] = []
rest_of (s ∷ segments) = segments

rest-onto_first :
    (c : ℕ) (s : Text) (segments : List Text) → rest_of (onto_first c (s ∷ segments)) ≡ segments
unfolding onto_first
rest-onto_first c s segments = refl

split-slash : (c : ℕ) (path : Text) → (c =ℕ slash) ≡ true → split (c ∷ path) ≡ [] ∷ split path
unfolding split
split-slash c path h = rw h refl

split-other :
    (c : ℕ) (path : Text) → (c =ℕ slash) ≡ false → split (c ∷ path) ≡ onto_first c (split path)
unfolding split
split-other c path h = rw h refl

rest_of-split :
    (P : Text → Type 0) (c : ℕ) (path : Text)
    → All P (rest_of (split (c ∷ path)))
    → All P (rest_of (split path))
rest_of-split P c path a =
    let (s, rest, q) = split-nonempty path in
    elim (Bool-cases (c =ℕ slash)) [
      | inl same ↦
          let all : All P (s ∷ rest) =
            subst (λ k. All P k) q (subst (λ k. All P (rest_of k)) (split-slash c path same) a) in
          subst (λ k. All P (rest_of k)) (sym q) all.1
      | inr other ↦
          let all : All P (rest_of (onto_first c (s ∷ rest))) =
            subst (λ k. All P (rest_of k)) (split-other c path other ∙ ap (onto_first c) q) a in
          subst (λ k. All P (rest_of k)) (sym q)
            (subst (λ k. All P k) (rest-onto_first c s rest) all)
    ]

or_right : (a b : Bool) → a ≡ false → (a || b) ≡ true → b ≡ true
or_right a b h e = ground arith

-- A path that ends in a slash and `d` has a segment `d` after the first.
ends_with-segment :
    (d path : Text)
    → NoSlash d
    → ends_with (slash ∷ d) path ≡ true
    → All (λ s. (s == d) ≡ false) (rest_of (split path))
    → ⊥
unfolding ends_with
ends_with-segment d [] h e a = ground arith
ends_with-segment d (c ∷ path) h e a = elim (Bool-cases ((slash ∷ d) == (c ∷ path))) [
  | inl same ↦
      let p = ==-eq-true (slash ∷ d) (c ∷ path) same in
      let all : All (λ s. (s == d) ≡ false) (d ∷ []) =
        subst (λ k. All (λ s. (s == d) ≡ false) (rest_of k))
          (ap split (sym p) ∙ split-slash slash d refl ∙ ap (λ k. [] ∷ k) (split-plain d h)) a in
      ground (arith, all.0, ==_refl d)
  | inr other ↦
      ends_with-segment d path h (or_right _ _ other e)
        (rest_of-split (λ s. (s == d) ≡ false) c path a)
]

never_true : (b : Bool) → (b ≡ true → ⊥) → b ≡ false
never_true b h = ground arith

after_first :
    (d : Text) (segments : List Text)
    → (d ≡ dot) ⊎ (d ≡ dots)
    → All NotDots segments
    → All (λ s. (s == d) ≡ false) segments
after_first d [] w a = tt
after_first d (s ∷ segments) (inl p) a = (rw p a.0.0, after_first d segments (inl p) a.1)
after_first d (s ∷ segments) (inr p) a = (rw p a.0.1, after_first d segments (inr p) a.1)

undotted_end :
    (d path : Text)
    → NoSlash d
    → (d ≡ dot) ⊎ (d ≡ dots)
    → All NotDots (split path)
    → ends_with (slash ∷ d) path ≡ false
undotted_end d path h w a =
    let (s, rest, q) = split-nonempty path in
    let all : All NotDots (s ∷ rest) = subst (λ k. All NotDots k) q a in
    never_true _ (λ e.
      ends_with-segment d path h e
        (subst (λ k. All (λ t. (t == d) ≡ false) (rest_of k)) (sym q) (after_first d rest w all.1)))

rooted_already : (path : Text) → (is_absolute path && lacks_root (split path)) ≡ false
unfolding split
rooted_already [] = refl
rooted_already (c ∷ path) = elim (Bool-cases (c =ℕ slash)) [
  | inl same ↦ rw same refl
  | inr other ↦ rw other refl
]

undotted_path : (path : Text) → All NotDots (split path) → remove_path_dot_segments path ≡ path
unfolding remove_path_dot_segments
undotted_path path a =
    rw
      (
        undotted_end dot path (refl, tt) (inl refl) a,
        undotted_end dots path (refl, (refl, tt)) (inr refl) a,
        walk-kept [] (split path) a,
        rooted_already path,
      )
      (join-split path)

-- A second pass changes nothing.
pub remove_path_dot_segments_idem :
    (path : Text)
    → remove_path_dot_segments (remove_path_dot_segments path) ≡ remove_path_dot_segments path
remove_path_dot_segments_idem path =
    undotted_path (remove_path_dot_segments path) (remove_path_dot_segments-NotDots path)

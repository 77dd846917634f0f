-- ===== src/Collections/HeaderDict/Equality.antt =====
-- `==` of header dictionaries compares the merged values of all fields, in any spelling and order.
use mathlib.Core.Option
use urllib.Prelude.{
  ◌≡◌, ◌∙◌, refl, sym, ap, ◌↔◌, ◌≢◌, Option-cases, subst, true, false, none, some, Option,
  Bool-cases, inl, inr, List, [], ◌∷◌, arith, All, ◌==◌, if◌then◌else◌, length, all, nat_eq,
}
use urllib.Prelude.Text.{Text, lower, text_eq, text_beq_iff, lower_idem}
use urllib.Dict
use urllib.Dict.{Dict, Unique}
use urllib.Dict.Laws.{
  has-is_some, get-remove, remove-Unique, get-set, set-Unique, length-remove, get-none,
}
use urllib.Collections.HeaderDict.{
  HeaderDict, headers, merged, merged_of, itermerged, get_item, eq, same_merged, dict_eq, holds,
  lowered, ensure_can_construct_http_header_dict,
}
use urllib.Collections.HeaderDict.Valid.{IsValid, Named, get-Named}
use urllib.Collections.HeaderDict.Items.{rows, itermerged-rows}
use urllib.Collections.HeaderDict.Merge.{init-headers}

holds-get : (d : Dict Text Text) (k v : Text) → holds d (k, v) ≡ true → Dict.get d k ≡ some v
holds-get d k v h = go (Dict.get d k) h
  where
    go : (o : Option Text) → (elim o [ none ↦ false | some w ↦ w == v ]) ≡ true → o ≡ some v
    go none q = cc
    go (some w) q = ap some ((text_beq_iff w v).0 q)

get-holds : (d : Dict Text Text) (k v : Text) → Dict.get d k ≡ some v → holds d (k, v) ≡ true
get-holds d k v h = ground (arith, text_beq_iff v v)

holds-remove :
    (d : Dict Text Text) (k : Text) (p : Text × Text)
    → (p.0 == k) ≡ false
    → holds d p ≡ true
    → holds (Dict.remove d k) p ≡ true
holds-remove d k (i, w) ne h =
    get-holds (Dict.remove d k) i w
      (ground (arith, get-remove d k i, text_beq_iff k i, text_beq_iff i k, holds-get d i w h))

all-holds-remove :
    (c d : Dict Text Text) (k : Text)
    → Dict.has c k ≡ false
    → all (holds d) c ≡ true
    → all (holds (Dict.remove d k)) c ≡ true
unfolding Dict.has
all-holds-remove [] d k fresh h = refl
all-holds-remove (p ∷ c) d k fresh h = ground (arith, all-holds-remove c d k, holds-remove d k p)

holds_of_remove :
    (d : Dict Text Text) (k : Text) (p : Text × Text)
    → holds (Dict.remove d k) p ≡ true
    → holds d p ≡ true
holds_of_remove d k (i, w) h =
    get-holds d i w (ground (arith, get-remove d k i, holds-get (Dict.remove d k) i w h))

all-holds_of_remove :
    (c d : Dict Text Text) (k : Text)
    → all (holds (Dict.remove d k)) c ≡ true
    → all (holds d) c ≡ true
all-holds_of_remove [] d k h = refl
all-holds_of_remove (p ∷ c) d k h = ground (arith, all-holds_of_remove c d k, holds_of_remove d k p)

-- Two dictionaries, less a key of the first.
rest_lookups :
    (c d : Dict Text Text) (i v : Text)
    → Dict.has c i ≡ false
    → ((k : Text) → Dict.get ((i, v) ∷ c) k ≡ Dict.get d k)
    → (k : Text) → Dict.get c k ≡ Dict.get (Dict.remove d i) k
unfolding Dict.get
rest_lookups c d i v fresh h k =
    ground (arith, h k, get-remove d i k, get-none c i, has-is_some c i, text_beq_iff i k)

first_lookup :
    (c d : Dict Text Text) (i v : Text)
    → ((k : Text) → Dict.get ((i, v) ∷ c) k ≡ Dict.get d k)
    → Dict.get d i ≡ some v
unfolding Dict.get
first_lookup c d i v h = ground (arith, h i, text_beq_iff i i)

same_length_sound :
    (c d : Dict Text Text)
    → Unique c
    → Unique d
    → length c ≡ length d
    → all (holds d) c ≡ true
    → (k : Text) → Dict.get c k ≡ Dict.get d k
unfolding Dict.get
same_length_sound [] [] uc ud len h k = refl
same_length_sound [] (p ∷ d) uc ud len h k = absurd (omega arith)
same_length_sound ((i, v) ∷ c) d uc ud len h k =
    let found : Dict.get d i ≡ some v = holds-get d i v (ground arith) in
    ground (
      arith,
      found,
      get-remove d i k,
      text_beq_iff i k,
      same_length_sound c (Dict.remove d i) uc.1 (remove-Unique d i ud)
          (omega (arith, length-remove d i v ud found)) (all-holds-remove c d i uc.0 (ground arith))
          k,
    )

lookups-length :
    (c d : Dict Text Text)
    → Unique c
    → Unique d
    → ((k : Text) → Dict.get c k ≡ Dict.get d k)
    → length c ≡ length d
lookups-length [] [] uc ud h = refl
lookups-length [] ((i, w) ∷ d) uc ud h = unfold Dict.get in ground (arith, h i, text_beq_iff i i)
lookups-length ((i, v) ∷ c) d uc ud h = omega (
  arith,
  length-remove d i v ud (first_lookup c d i v h),
  lookups-length c (Dict.remove d i) uc.1 (remove-Unique d i ud) (rest_lookups c d i v uc.0 h),
)

lookups-holds :
    (c d : Dict Text Text)
    → Unique c
    → ((k : Text) → Dict.get c k ≡ Dict.get d k)
    → all (holds d) c ≡ true
lookups-holds [] d uc h = refl
lookups-holds ((i, v) ∷ c) d uc h =
    let first = get-holds d i v (first_lookup c d i v h) in
    let others =
      all-holds_of_remove c d i
        (lookups-holds c (Dict.remove d i) uc.1 (rest_lookups c d i v uc.0 h)) in
    ground arith

dict_eq_iff :
    (c d : Dict Text Text)
    → Unique c
    → Unique d
    → (dict_eq c d ≡ true) ↔ ((k : Text) → Dict.get c k ≡ Dict.get d k)
unfolding dict_eq
dict_eq_iff c d uc ud = (
  λ h. same_length_sound c d uc ud (ground arith) (ground arith),
  λ h. ground (arith, lookups-length c d uc ud h, lookups-holds c d uc h),
)

lowered-Unique : (d : Dict Text Text) (ps : List (Text × Text)) → Unique d → Unique (lowered d ps)
unfolding lowered
lowered-Unique d [] u = u
lowered-Unique d ((key, val) ∷ ps) u =
    lowered-Unique (Dict.set d (lower key) val) ps (set-Unique d (lower key) val u)

get-lowered :
    (d : Dict Text Text) (t : HeaderDict) (k : Text)
    → Unique t
    → All Named t
    → Dict.get (lowered d (rows merged_of t)) k
      ≡ (if Dict.has t k then Option.map merged (Dict.get t k) else Dict.get d k)
unfolding lowered Dict.has Dict.get
get-lowered d [] k u n = refl
get-lowered d ((j, f) ∷ t) k u n = ground (
  arith,
  get-lowered (Dict.set d (lower f.name) (merged f)) t k,
  get-set d (lower f.name) k (merged f),
  text_beq_iff j k,
  n.0,
)

-- The dictionary that `__eq__` builds holds the merged value of each stored field.
get-lowered_self :
    (h : HeaderDict) (k : Text)
    → IsValid h
    → Dict.get (lowered [] (itermerged h)) k ≡ Option.map merged (Dict.get h k)
get-lowered_self h k v =
    ap (λ ps. Dict.get (lowered [] ps) k) (itermerged-rows h v)
    ∙ get-lowered [] h k v.unique v.named
    ∙ unfold Dict.get in ground (arith, has-is_some h k)

-- A name with an upper-case letter is no key.
get_not_lower : (h : HeaderDict) (k : Text) → IsValid h → lower k ≢ k → Dict.get h k ≡ none
get_not_lower h k v ne = elim (Option-cases (Dict.get h k)) [
  | inl m ↦ m
  | inr (f, m) ↦
      let q = get-Named h k f v.named m in absurd (ne (ap lower q ∙ lower_idem f.name ∙ sym q))
]

get_item-stored :
    (h o : HeaderDict)
    → IsValid h
    → IsValid o
    → ((k : Text) → get_item h k ≡ get_item o k)
    → (k : Text) → Option.map merged (Dict.get h k) ≡ Option.map merged (Dict.get o k)
unfolding get_item
get_item-stored h o v w same k = elim (Bool-cases (lower k == k)) [
  | inl hit ↦
      subst (λ j. Option.map merged (Dict.get h j) ≡ Option.map merged (Dict.get o j))
        ((text_beq_iff (lower k) k).0 hit) (same k)
  | inr miss ↦
      let ne : lower k ≢ k = ground (arith, text_beq_iff (lower k) k) in
      ap (Option.map merged) (get_not_lower h k v ne ∙ sym (get_not_lower o k w ne))
]

same_merged_iff :
    (h o : HeaderDict)
    → IsValid h
    → IsValid o
    → (same_merged h o ≡ true) ↔ ((k : Text) → get_item h k ≡ get_item o k)
unfolding same_merged get_item
same_merged_iff h o v w =
    let c = lowered [] (itermerged h) in
    let d = lowered [] (itermerged o) in
    let both = dict_eq_iff c d (lowered-Unique [] _ tt) (lowered-Unique [] _ tt) in
    (
      λ q k.
          sym (get-lowered_self h (lower k) v)
          ∙ both.0 q (lower k)
          ∙ get-lowered_self o (lower k) w,
      λ same. both.1 (λ k.
          get-lowered_self h k v ∙ get_item-stored h o v w same k ∙ sym (get-lowered_self o k w)),
    )

-- Two valid header dictionaries are equal exactly when every name, in any spelling, has the same
-- merged value in both, or is missing from both.
pub eq_iff :
    (h other : HeaderDict)
    → IsValid h
    → IsValid other
    → (eq h (headers other) ≡ true) ↔ ((k : Text) → get_item h k ≡ get_item other k)
unfolding eq ensure_can_construct_http_header_dict
eq_iff h other v w = rw (init-headers other w) (same_merged_iff h other v w)

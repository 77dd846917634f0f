-- ===== src/Collections/HeaderDict/Items.antt =====
-- Iteration lists the fields in order of insertion, and the listing determines the dictionary.
use urllib.Prelude.{
  ◌≡◌, ◌∙◌, refl, sym, ap, subst, is_some, false, none, some, Option, List, [], ◌∷◌, ◌++◌, arith,
  All, map, append_assoc, append-nil,
}
use urllib.Prelude.Text.{Text, lower, text_eq, text_beq_iff}
use urllib.Dict
use urllib.Dict.{Dict, Unique}
use urllib.Dict.Laws.{set_fresh, has-is_some, has-append, get-append, set_append_right}
use urllib.Collections.HeaderDict.Fields.{Values, one, more, to_list, append_value}
use urllib.Collections.HeaderDict.{
  HeaderDict, Field, names, add, add_value, lines_of, merged_of, each, iteritems, itermerged,
  copy_name, copy_names, copy_from, copy, add_all,
}
use urllib.Collections.HeaderDict.Valid.{IsValid, Named}

-- A field is held by `pre` in no spelling.
abbrev Fresh : HeaderDict → HeaderDict → Type 0
Fresh pre t = All (λ p. Dict.has pre p.0 ≡ false) t

-- The rows of the fields one by one, with no lookup.
abbrev pub rows : (Option Field → List (Text × Text)) → HeaderDict → List (Text × Text)
rows row [] = []
rows row ((k, f) ∷ h) = row (some f) ++ rows row h

-- Each name of `t` is found in `h`, as it stands in `t`.
abbrev Found : HeaderDict → HeaderDict → Type 0
Found h t = All (λ p. Dict.get h (lower p.1.name) ≡ some p.1) t

Found-cons :
    (k : Text) (f : Field) (h t : HeaderDict)
    → Dict.has t k ≡ false
    → All Named t
    → Found h t
    → Found ((k, f) ∷ h) t
unfolding Dict.has Dict.get
Found-cons k f h [] fresh n q = tt
Found-cons k f h ((j, g) ∷ t) fresh n q = (
  ground (arith, n.0, q.0, text_beq_iff k j, text_beq_iff j k),
  Found-cons k f h t (ground arith) n.1 q.1,
)

Found-self : (h : HeaderDict) → Unique h → All Named h → Found h h
unfolding Dict.get
Found-self [] u n = tt
Found-self ((k, f) ∷ h) u n =
    (ground (arith, n.0, text_beq_iff k k), Found-cons k f h h u.0 n.1 (Found-self h u.1 n.1))

each-rows :
    (row : Option Field → List (Text × Text)) (h t : HeaderDict)
    → Found h t
    → each h row (names t) ≡ rows row t
unfolding names
each-rows row h [] q = refl
each-rows row h ((k, f) ∷ t) q = rw (q.0, each-rows row h t q.1)

pub iteritems-rows : (h : HeaderDict) → IsValid h → iteritems h ≡ rows lines_of h
unfolding iteritems
iteritems-rows h v = each-rows lines_of h h (Found-self h v.unique v.named)

pub itermerged-rows : (h : HeaderDict) → IsValid h → itermerged h ≡ rows merged_of h
unfolding itermerged
itermerged-rows h v = each-rows merged_of h h (Found-self h v.unique v.named)

abbrev append_all : Values → Values → Values
append_all a (one v) = append_value a v
append_all a (more v vs) = append_all (append_value a v) vs

append_all-more : (u : Text) (a vs : Values) → append_all (more u a) vs ≡ more u (append_all a vs)
append_all-more u a (one v) = refl
append_all-more u a (more v vs) = append_all-more u (append_value a v) vs

append_all-one : (v : Text) (vs : Values) → append_all (one v) vs ≡ more v vs
append_all-one v (one w) = refl
append_all-one v (more w vs) = append_all-more v (one w) vs ∙ ap (more v) (append_all-one w vs)

abbrev field : Text → Values → Field
field name held = record { name = name; held = held }

abbrev snoc : HeaderDict → Text → Values → HeaderDict
snoc pre name held = pre ++ (lower name, field name held) ∷ []

get-snoc :
    (pre : HeaderDict) (name : Text) (held : Values)
    → Dict.has pre (lower name) ≡ false
    → Dict.get (snoc pre name held) (lower name) ≡ some (field name held)
unfolding Dict.get
get-snoc pre name held fresh = ground (
  arith,
  get-append pre ((lower name, field name held) ∷ []) (lower name),
  text_beq_iff (lower name) (lower name),
)

set-snoc :
    (pre : HeaderDict) (name : Text) (held held' : Values)
    → Dict.has pre (lower name) ≡ false
    → Dict.set (snoc pre name held) (lower name) (field name held') ≡ snoc pre name held'
unfolding Dict.set
set-snoc pre name held held' fresh =
    set_append_right pre ((lower name, field name held) ∷ []) (lower name) (field name held') fresh
    ∙ ground (arith, text_beq_iff (lower name) (lower name))

add-snoc :
    (pre : HeaderDict) (name val : Text) (held : Values)
    → Dict.has pre (lower name) ≡ false
    → add false (snoc pre name held) name val ≡ snoc pre name (append_value held val)
unfolding add add_value
add-snoc pre name val held fresh =
    rw (get-snoc pre name held fresh, add) (set-snoc pre name held (append_value held val) fresh)

add_fresh :
    (pre : HeaderDict) (name val : Text)
    → Dict.has pre (lower name) ≡ false
    → add false pre name val ≡ snoc pre name (one val)
unfolding add
add_fresh pre name val fresh =
    rw (get_fresh (Dict.get pre (lower name)) (sym (has-is_some pre (lower name)) ∙ fresh), add)
      (set_fresh pre (lower name) (field name (one val)) fresh)
  where
    get_fresh : (o : Option Field) → is_some o ≡ false → o ≡ none
    get_fresh none h = refl
    get_fresh (some f) h = cc

-- The lines of one field, after its first value.
add_rest :
    (pre : HeaderDict) (name : Text) (held vs : Values) (rest : List (Text × Text))
    → Dict.has pre (lower name) ≡ false
    → add_all (snoc pre name held) (map (λ v. (name, v)) (to_list vs) ++ rest)
      ≡ add_all (snoc pre name (append_all held vs)) rest
unfolding add_all
add_rest pre name held (one v) rest fresh = rw (add-snoc pre name v held fresh)
add_rest pre name held (more v vs) rest fresh =
    ap (λ h. add_all h (map (λ w. (name, w)) (to_list vs) ++ rest)) (add-snoc pre name v held fresh)
    ∙ add_rest pre name (append_value held v) vs rest fresh

add_field :
    (pre : HeaderDict) (name : Text) (held : Values) (rest : List (Text × Text))
    → Dict.has pre (lower name) ≡ false
    → add_all pre (map (λ v. (name, v)) (to_list held) ++ rest) ≡ add_all (snoc pre name held) rest
unfolding add_all
add_field pre name (one v) rest fresh = rw (add_fresh pre name v fresh)
add_field pre name (more v vs) rest fresh =
    ap (λ h. add_all h (map (λ w. (name, w)) (to_list vs) ++ rest)) (add_fresh pre name v fresh)
    ∙ add_rest pre name (one v) vs rest fresh
    ∙ ap (λ held. add_all (snoc pre name held) rest) (append_all-one v vs)

Fresh-snoc :
    (pre t : HeaderDict) (k : Text) (f : Field)
    → Fresh pre t
    → Dict.has t k ≡ false
    → Fresh (pre ++ (k, f) ∷ []) t
unfolding Dict.has
Fresh-snoc pre [] k f q fresh = tt
Fresh-snoc pre ((j, g) ∷ t) k f q fresh = (
  ground (arith, q.0, has-append pre ((k, f) ∷ []) j, text_beq_iff k j, text_beq_iff j k),
  Fresh-snoc pre t k f q.1 (ground arith),
)

add_all-rows :
    (pre t : HeaderDict)
    → Fresh pre t
    → Unique t
    → All Named t
    → add_all pre (rows lines_of t) ≡ pre ++ t
add_all-rows pre [] q u n = unfold add_all in sym (append-nil pre)
add_all-rows pre ((k, f) ∷ t) q u n =
    add_field pre f.name f.held (rows lines_of t) (subst (λ j. Dict.has pre j ≡ false) n.0 q.0)
    ∙ ap (λ j. add_all (pre ++ (j, f) ∷ []) (rows lines_of t)) (sym n.0)
    ∙ add_all-rows (pre ++ (k, f) ∷ []) t (Fresh-snoc pre t k f q.1 u.0) u.1 n.1
    ∙ append_assoc pre ((k, f) ∷ []) t

Fresh-nil : (t : HeaderDict) → Fresh [] t
unfolding Dict.has
Fresh-nil [] = tt
Fresh-nil (p ∷ t) = (refl, Fresh-nil t)

-- Adding the lines of `iteritems` one by one to an empty dictionary gives the dictionary back:
-- names in their spelling, values, and both orders.
pub add_all-iteritems : (h : HeaderDict) → IsValid h → add_all [] (iteritems h) ≡ h
add_all-iteritems h v =
    ap (add_all []) (iteritems-rows h v) ∙ add_all-rows [] h (Fresh-nil h) v.unique v.named

copy_names_self :
    (pre h t : HeaderDict)
    → Fresh pre t
    → Unique t
    → All Named t
    → Found h t
    → copy_names pre h (names t) ≡ pre ++ t
unfolding names
copy_names_self pre h [] q u n fd = sym (append-nil pre)
copy_names_self pre h ((k, f) ∷ t) q u n fd =
    ap (λ o. copy_names (copy_name pre f.name o) h (names t)) fd.0
    ∙ ap (λ j. copy_names (Dict.set pre j f) h (names t)) (sym n.0)
    ∙ ap (λ p. copy_names p h (names t)) (set_fresh pre k f q.0)
    ∙ copy_names_self (pre ++ (k, f) ∷ []) h t (Fresh-snoc pre t k f q.1 u.0) u.1 n.1 fd.1
    ∙ append_assoc pre ((k, f) ∷ []) t

-- A copy equals its original.
pub copy_lem : (h : HeaderDict) → IsValid h → copy h ≡ h
unfolding copy copy_from
copy_lem h v = copy_names_self [] h h (Fresh-nil h) v.unique v.named (Found-self h v.unique v.named)

-- ===== src/Collections/HeaderDict/Lookup.antt =====
-- What a lookup returns after each operation. Names are compared in lower case throughout.
use mathlib.Core.Option
use urllib.Prelude.{
  ◌≡◌, refl, sym, Bool, true, false, none, some, Option, Option-cases, inl, inr, List, [], ◌∷◌,
  ◌++◌, arith, ◌==◌, if◌then◌else◌, any, append_assoc, append-nil,
}
use urllib.Prelude.Text.{Text, codes, lower, text_eq, text_beq_iff}
use urllib.Dict
use urllib.Dict.Laws.{get-set, get-remove, has-is_some}
use urllib.Collections.HeaderDict.Fields.{
  one, to_list, to_list-append_value, join-append_value, join-extend_last,
}
use urllib.Collections.HeaderDict.{
  HeaderDict, Field, merged, get_item, del_item, discard, add, add_value, getlist, add_all,
  discard_all, prepare_for_method_change, content_specific_headers,
}

-- The merged value when `val` is added to what was there.
abbrev pub appended : Option Text → Text → Text
appended none val = val
appended (some old) val = old ++ (codes ", " ++ val)

merged-add_value :
    (combine : Bool) (f : Field) (val : Text)
    → merged (add_value combine f val) ≡ merged f ++ (codes ", " ++ val)
unfolding add_value
merged-add_value true f val = join-extend_last f.held val
merged-add_value false f val = join-append_value (codes ", ") f.held val

abbrev added : Bool → Text → Text → Option Field → Field
added combine key val none = record { name = key; held = one val }
added combine key val (some f) = add_value combine f val

get-add :
    (combine : Bool) (h : HeaderDict) (key val k : Text)
    → Dict.get (add combine h key val) k ≡ (
        if lower key == k
        then some (added combine key val (Dict.get h (lower key)))
        else Dict.get h k)
unfolding add
get-add combine h key val k = elim (Option-cases (Dict.get h (lower key))) [
  | inl m ↦ rw (m, add) (get-set h (lower key) k _)
  | inr (f, m) ↦ rw (m, add) (get-set h (lower key) k (add_value combine f val))
]

merged-added :
    (combine : Bool) (key val : Text) (o : Option Field)
    → merged (added combine key val o) ≡ appended (Option.map merged o) val
merged-added combine key val none = refl
merged-added combine key val (some f) = merged-add_value combine f val

-- `add`, combining or not, appends to the merged value of its field, and changes no other field.
pub get_item-add :
    (combine : Bool) (h : HeaderDict) (key val j : Text)
    → get_item (add combine h key val) j
      ≡ (if lower key == lower j then some (appended (get_item h j) val) else get_item h j)
unfolding get_item
get_item-add combine h key val j = ground (
  arith,
  get-add combine h key val (lower j),
  text_beq_iff (lower key) (lower j),
  merged-added combine key val (Dict.get h (lower key)),
)

abbrev listed : Option Field → List Text
listed none = []
listed (some f) = to_list f.held

held-added :
    (key val : Text) (o : Option Field)
    → to_list (added false key val o).held ≡ listed o ++ val ∷ []
unfolding add_value
held-added key val none = refl
held-added key val (some f) = to_list-append_value f.held val

-- Without `combine` the value is one more of the field's list, at its end.
pub getlist-add :
    (h : HeaderDict) (key val j : Text)
    → getlist (add false h key val) j none
      ≡ (if lower key == lower j then getlist h j none ++ val ∷ [] else getlist h j none)
unfolding getlist
getlist-add h key val j = ground (
  arith,
  get-add false h key val (lower j),
  text_beq_iff (lower key) (lower j),
  held-added key val (Dict.get h (lower key)),
)

-- What a list of pairs holds for one name.
abbrev pub values_for : Text → List (Text × Text) → List Text
values_for j [] = []
values_for j ((key, val) ∷ pairs) =
    let rest = values_for j pairs in if lower key == lower j then val ∷ rest else rest

pub getlist-add_all :
    (h : HeaderDict) (pairs : List (Text × Text)) (j : Text)
    → getlist (add_all h pairs) j none ≡ getlist h j none ++ values_for j pairs
unfolding add_all
getlist-add_all h [] j = sym (append-nil _)
getlist-add_all h ((key, val) ∷ pairs) j = ground (
  arith,
  getlist-add_all (add false h key val) pairs j,
  getlist-add h key val j,
  append_assoc (getlist h j none) (val ∷ []) (values_for j pairs),
)

get-discard :
    (h : HeaderDict) (key k : Text)
    → Dict.get (discard h key) k ≡ (if lower key == k then none else Dict.get h k)
unfolding discard del_item
get-discard h key k =
    ground
      (arith, get-remove h (lower key) k, has-is_some h (lower key), text_beq_iff (lower key) k)

pub get_item-discard :
    (h : HeaderDict) (key j : Text)
    → get_item (discard h key) j ≡ (if lower key == lower j then none else get_item h j)
unfolding get_item
get_item-discard h key j = ground (arith, get-discard h key (lower j))

get_item-discard_all :
    (h : HeaderDict) (ks : List Text) (j : Text)
    → get_item (discard_all h ks) j
      ≡ (if any (λ k. lower k == lower j) ks then none else get_item h j)
unfolding discard_all
get_item-discard_all h [] j = refl
get_item-discard_all h (k ∷ ks) j =
    ground (arith, get_item-discard_all (discard h k) ks j, get_item-discard h k j)

-- Before a change of method the seven content headers go, in any spelling, and no other field does.
pub get_item-prepare :
    (h : HeaderDict) (j : Text)
    → get_item (prepare_for_method_change h) j
      ≡ (if any (λ k. lower k == lower j) content_specific_headers then none else get_item h j)
unfolding prepare_for_method_change
get_item-prepare h j = get_item-discard_all h content_specific_headers j

-- ===== src/Collections/HeaderDict/Merge.antt =====
-- `|`, `|=` and `extend`: the fields of two header dictionaries, field by field.
use mathlib.Core.Option
use urllib.Prelude.{
  ◌≡◌, ◌∙◌, refl, ap, false, none, some, List, [], ◌∷◌, ◌++◌, arith, All, ◌==◌, if◌then◌else◌, map,
  append-nil,
}
use urllib.Prelude.Text.{Text, lower, text_eq, text_beq_iff}
use urllib.Dict
use urllib.Dict.{Dict, Unique}
use urllib.Collections.HeaderDict.Fields.{to_list}
use urllib.Collections.HeaderDict.{
  HeaderDict, headers, lines_of, iteritems, add_all, getlist, or, ror, ior, extend_source, copy,
  init, init_source, ensure_can_construct_http_header_dict,
}
use urllib.Collections.HeaderDict.Valid.{IsValid, Named}
use urllib.Collections.HeaderDict.Lookup.{values_for, getlist-add_all}
use urllib.Collections.HeaderDict.Items.{rows, iteritems-rows, copy_lem}

values_for-append :
    (j : Text) (ps qs : List (Text × Text))
    → values_for j (ps ++ qs) ≡ values_for j ps ++ values_for j qs
values_for-append j [] qs = refl
values_for-append j ((key, val) ∷ ps) qs = ground (arith, values_for-append j ps qs)

values_for-lines :
    (j name : Text) (vs : List Text)
    → values_for j (map (λ v. (name, v)) vs) ≡ (if lower name == lower j then vs else [])
values_for-lines j name [] = ground arith
values_for-lines j name (v ∷ vs) = ground (arith, values_for-lines j name vs)

values_for_none :
    (j : Text) (h : HeaderDict)
    → Dict.has h (lower j) ≡ false
    → All Named h
    → values_for j (rows lines_of h) ≡ []
unfolding Dict.has
values_for_none j [] fresh n = refl
values_for_none j ((k, f) ∷ h) fresh n = ground (
  arith,
  values_for-append j (map (λ v. (f.name, v)) (to_list f.held)) (rows lines_of h),
  values_for-lines j f.name (to_list f.held),
  values_for_none j h,
  n.0,
)

values_for-rows :
    (j : Text) (h : HeaderDict)
    → Unique h
    → All Named h
    → values_for j (rows lines_of h) ≡ getlist h j none
unfolding getlist Dict.get
values_for-rows j [] u n = refl
values_for-rows j ((k, f) ∷ h) u n = ground (
  arith,
  values_for-append j (map (λ v. (f.name, v)) (to_list f.held)) (rows lines_of h),
  values_for-lines j f.name (to_list f.held),
  values_for_none j h,
  values_for-rows j h,
  append-nil (to_list f.held),
  text_beq_iff k (lower j),
  n.0,
)

getlist-extend :
    (h other : HeaderDict) (j : Text)
    → IsValid other
    → getlist (extend_source h (headers other)) j none ≡ getlist h j none ++ getlist other j none
unfolding extend_source
getlist-extend h other j v =
    getlist-add_all h (iteritems other) j
    ∙ ap (λ ps. getlist h j none ++ values_for j ps) (iteritems-rows other v)
    ∙ ap (λ vs. getlist h j none ++ vs) (values_for-rows j other v.unique v.named)

pub init-headers : (other : HeaderDict) → IsValid other → init (some (headers other)) [] ≡ other
unfolding init init_source copy add_all
init-headers other w = copy_lem other w

-- The merge of two valid dictionaries is always defined. `h | other` and `h |= other` list for each
-- name the values of `h`, then those of `other`; `other | h` through `__ror__` the other way round.
pub getlist-merges :
    (h other : HeaderDict) (j : Text)
    → IsValid h
    → IsValid other
    → (Option.map (λ m. getlist m j none) (or h (headers other))
        ≡ some (getlist h j none ++ getlist other j none))
      × (Option.map (λ m. getlist m j none) (ior h (headers other))
          ≡ some (getlist h j none ++ getlist other j none))
      × (Option.map (λ m. getlist m j none) (ror h (headers other))
          ≡ some (getlist other j none ++ getlist h j none))
unfolding or ior ror ensure_can_construct_http_header_dict
getlist-merges h other j v w = (
  rw (copy_lem h v) (ap some (getlist-extend h other j w)),
  ap some (getlist-extend h other j w),
  rw (init-headers other w) (ap some (getlist-extend other h j v)),
)

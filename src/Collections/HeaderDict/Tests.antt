-- ===== src/Collections/HeaderDict/Tests.antt =====
-- The examples of the doc strings of `HTTPHeaderDict`, and the theorems at concrete headers.
use mathlib.Core.Option
use urllib.Prelude.{◌≡◌, ◌↔◌, refl, true, false, none, some, List, [], ◌∷◌, ◌++◌, if◌then◌else◌}
use urllib.Prelude.Text.{Text, codes, lower, text_eq}
use urllib.Dict
use urllib.Collections.HeaderDict.{
  HeaderDict, Source, mapping, headers, init, add, get_item, getlist, iteritems, itermerged, eq, or,
  ior, ror, add_all, copy, prepare_for_method_change, set_item, names,
}
use urllib.Collections.HeaderDict.Valid.{IsValid, init-IsValid}
use urllib.Collections.HeaderDict.Edits.{Edit, adds, deletes, unions, edit_all, edit_all-init-names}
use urllib.Collections.HeaderDict.Lookup.{get_item-add, getlist-add, get_item-prepare}
use urllib.Collections.HeaderDict.Items.{add_all-iteritems, copy_lem}
use urllib.Collections.HeaderDict.Merge.{getlist-merges}
use urllib.Collections.HeaderDict.Equality.{eq_iff}

abbrev pairs : List (Text × Text)
pairs =
    (codes "foo", codes "bar")
    ∷ (codes "Foo", codes "baz")
    ∷ (codes "Content-Type", codes "text")
    ∷ []

-- `HTTPHeaderDict(pairs)`
abbrev sample : HeaderDict
sample = init (some (mapping pairs)) []

abbrev other : HeaderDict
other =
    init (some (mapping ((codes "CONTENT-TYPE", codes "text") ∷ [])))
      ((codes "FOO", codes "bar, baz") ∷ [])

sample-IsValid : IsValid sample
sample-IsValid = init-IsValid (some (mapping pairs)) []

other-IsValid : IsValid other
other-IsValid =
    init-IsValid (some (mapping ((codes "CONTENT-TYPE", codes "text") ∷ [])))
      ((codes "FOO", codes "bar, baz") ∷ [])

merged_value : get_item sample (codes "FOO") ≡ some (codes "bar, baz")
unfolding init add_all add lower Dict.get Dict.set get_item
    urllib.Collections.HeaderDict.extend_source
merged_value = refl

listed_lines :
    iteritems sample
    ≡ (codes "foo", codes "bar")
      ∷ (codes "foo", codes "baz")
      ∷ (codes "Content-Type", codes "text")
      ∷ []
unfolding init add_all add lower Dict.get Dict.set iteritems
    urllib.Collections.HeaderDict.extend_source
listed_lines = refl

combined_line :
    iteritems (add true sample (codes "foo") (codes "quz"))
    ≡ (codes "foo", codes "bar")
      ∷ (codes "foo", codes "baz, quz")
      ∷ (codes "Content-Type", codes "text")
      ∷ []
unfolding init add_all add lower Dict.get Dict.set iteritems
    urllib.Collections.HeaderDict.extend_source
combined_line = refl

equal_headers : eq sample (headers other) ≡ true
unfolding init add_all add lower Dict.get Dict.set eq
    urllib.Collections.HeaderDict.ensure_can_construct_http_header_dict
    urllib.Collections.HeaderDict.same_merged urllib.Collections.HeaderDict.dict_eq
    urllib.Collections.HeaderDict.lowered itermerged urllib.Collections.HeaderDict.extend_source
    urllib.Collections.HeaderDict.copy_from
equal_headers = refl

abbrev edits : List Edit
edits = adds true (codes "foo") (codes "quz") ∷ deletes (codes "X") ∷ unions (headers other) ∷ []

-- The dictionary that they leave.
abbrev edited : HeaderDict
edited = edit_all (init (some (mapping pairs)) []) edits

edit_all-init-names_example :
    IsValid edited
    × (names (add false edited (codes "FOO") (codes "new")) ≡ (
        if Dict.has edited (lower (codes "FOO"))
        then names edited
        else names edited ++ codes "FOO" ∷ []))
edit_all-init-names_example =
    edit_all-init-names (some (mapping pairs)) [] edits false (codes "FOO") (codes "new")

get_item-add_example :
    get_item (add true sample (codes "FOO") (codes "quz")) (codes "foo")
    ≡ some (codes "bar, baz, quz")
unfolding init add_all add lower Dict.get Dict.set get_item
    urllib.Collections.HeaderDict.extend_source
get_item-add_example = get_item-add true sample (codes "FOO") (codes "quz") (codes "foo")

getlist-add_example :
    getlist (add false sample (codes "FOO") (codes "quz")) (codes "foo") none
    ≡ codes "bar" ∷ codes "baz" ∷ codes "quz" ∷ []
unfolding init add_all add lower Dict.get Dict.set getlist
    urllib.Collections.HeaderDict.extend_source
getlist-add_example = getlist-add sample (codes "FOO") (codes "quz") (codes "foo")

get_item-prepare_example : get_item (prepare_for_method_change sample) (codes "content-type") ≡ none
unfolding lower
get_item-prepare_example = get_item-prepare sample (codes "content-type")

add_all-iteritems_example : add_all [] (iteritems sample) ≡ sample
add_all-iteritems_example = add_all-iteritems sample sample-IsValid

copy_lem_example : copy other ≡ other
copy_lem_example = copy_lem other other-IsValid

getlist-merges_example :
    (Option.map (λ m. getlist m (codes "Foo") none) (or sample (headers other))
      ≡ some (getlist sample (codes "Foo") none ++ getlist other (codes "Foo") none))
    × (Option.map (λ m. getlist m (codes "Foo") none) (ior sample (headers other))
        ≡ some (getlist sample (codes "Foo") none ++ getlist other (codes "Foo") none))
    × (Option.map (λ m. getlist m (codes "Foo") none) (ror sample (headers other))
        ≡ some (getlist other (codes "Foo") none ++ getlist sample (codes "Foo") none))
getlist-merges_example = getlist-merges sample other (codes "Foo") sample-IsValid other-IsValid

eq_iff_example :
    (eq sample (headers other) ≡ true) ↔ ((k : Text) → get_item sample k ≡ get_item other k)
eq_iff_example = eq_iff sample other sample-IsValid other-IsValid

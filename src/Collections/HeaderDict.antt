-- ===== src/Collections/HeaderDict.antt =====
-- `HTTPHeaderDict` of src/urllib3/_collections.py. Field names and values are texts; a `bytes` key
-- is the same text, decoded as Latin-1.
pub mod Fields
pub mod Valid
pub mod Edits
pub mod Lookup
pub mod Items
pub mod Equality
pub mod Merge
pub mod Tests
use urllib.Prelude.{
  ℕ, Bool, true, false, not, Option, none, some, is_some, List, [], ◌∷◌, ◌++◌, map, ◌==◌, any, all,
  ◌&&◌, nat_eq, length, if◌then◌else◌,
}
use mathlib.Core.Option
use urllib.Prelude.Text.{Text, codes, lower, text_eq}
use urllib.Dict
use urllib.Dict.{Dict}
use Fields.{Values, one, to_list, append_value, extend_last, join}

-- What is stored under a lower-case name: the list `[name, value, …]`. `Values` is a list with at
-- least one value, which is the assertion of `add`.
pub record Field : Type 0 where
  pub name : Text
  pub held : Values

abbrev pub HeaderDict : Type 0
HeaderDict = Dict Text Field

unfoldable pub set_item : HeaderDict → Text → Text → HeaderDict
set_item h key val = Dict.set h (lower key) (record { name = key; held = one val })

-- `", ".join(val[1:])`; `none` is a `KeyError`.
abbrev pub merged : Field → Text
merged f = join (codes ", ") (to_list f.held)

unfoldable pub get_item : HeaderDict → Text → Option Text
get_item h key = Option.map merged (Dict.get h (lower key))

unfoldable pub del_item : HeaderDict → Text → Option HeaderDict
del_item h key = if Dict.has h (lower key) then some (Dict.remove h (lower key)) else none

unfoldable pub contains : HeaderDict → Text → Bool
contains h key = Dict.has h (lower key)

-- `MutableMapping.setdefault`: `self[key]`, or the default, which is then stored.
unfoldable pub setdefault : HeaderDict → Text → Text → Text × HeaderDict
setdefault h key default = elim (get_item h key) [
  | some val ↦ (val, h)
  | none ↦ (default, set_item h key default)
]

unfoldable pub len : HeaderDict → ℕ
len h = length h

-- `__iter__`: the names, as first spelled.
unfoldable pub names : HeaderDict → List Text
names = map λ p. p.1.name

unfoldable pub discard : HeaderDict → Text → HeaderDict
discard h key = elim (del_item h key) [ none ↦ h | some h' ↦ h' ]

unfoldable pub add_value : Bool → Field → Text → Field
add_value true f val = record f { held = extend_last f.held val }
add_value false f val = record f { held = append_value f.held val }

-- `setdefault(key_lower, [key, val])`, and a new value for a field that was there.
unfoldable pub add : Bool → HeaderDict → Text → Text → HeaderDict
unfolding add_value
add combine h key val = elim (Dict.get h (lower key)) [
  | none ↦ Dict.set h (lower key) (record { name = key; held = one val })
  | some f ↦ Dict.set h (lower key) (add_value combine f val)
]

-- `getlist(key, default)`; without a default a missing field is the empty list.
unfoldable pub getlist : HeaderDict → Text → Option (List Text) → List Text
getlist h key default = elim (Dict.get h (lower key)) [
  | some f ↦ to_list f.held
  | none ↦ elim default [ none ↦ [] | some vals ↦ vals ]
]

-- One name of `iteritems` and of `itermerged`. The loop runs over `self`, so the key is there.
abbrev pub lines_of : Option Field → List (Text × Text)
lines_of none = []
lines_of (some f) = map (λ val. (f.name, val)) (to_list f.held)

abbrev pub merged_of : Option Field → List (Text × Text)
merged_of none = []
merged_of (some f) = (f.name, merged f) ∷ []

abbrev pub each : HeaderDict → (Option Field → List (Text × Text)) → List Text → List (Text × Text)
each h row [] = []
each h row (key ∷ rest) = row (Dict.get h (lower key)) ++ each h row rest

unfoldable pub iteritems : HeaderDict → List (Text × Text)
unfolding names
iteritems h = each h lines_of (names h)

unfoldable pub itermerged : HeaderDict → List (Text × Text)
unfolding names
itermerged h = each h merged_of (names h)

-- `self._container[key.lower()] = [key, *other.getlist(key)]` for each name of `other`.
abbrev pub copy_name : HeaderDict → Text → Option Field → HeaderDict
copy_name h key none = h
copy_name h key (some f) = Dict.set h (lower key) (record { name = key; held = f.held })

abbrev pub copy_names : HeaderDict → HeaderDict → List Text → HeaderDict
copy_names h other [] = h
copy_names h other (key ∷ rest) =
    copy_names (copy_name h key (Dict.get other (lower key))) other rest

unfoldable pub copy_from : HeaderDict → HeaderDict → HeaderDict
unfolding names
copy_from h other = copy_names h other (names other)

unfoldable pub copy : HeaderDict → HeaderDict
unfolding copy_from
copy h = copy_from [] h

-- The kinds of object that may be merged into a header dictionary. All but the last yield pairs:
-- a mapping its `items()`, an iterable its elements, an object with `keys` and `__getitem__` each
-- key with its value.
pub data Source : Type 0 where
  headers : HeaderDict → Source
  mapping iterable keyed : List (Text × Text) → Source
  unsupported : Source

unfoldable pub ensure_can_construct_http_header_dict : Source → Option Source
ensure_can_construct_http_header_dict unsupported = none
ensure_can_construct_http_header_dict source = some source

-- `for key, val in pairs: self.add(key, val)`
unfoldable pub add_all : HeaderDict → List (Text × Text) → HeaderDict
add_all h [] = h
add_all h ((key, val) ∷ pairs) = add_all (add false h key val) pairs

unfoldable pub extend_source : HeaderDict → Source → HeaderDict
extend_source h (headers other) = add_all h (iteritems other)
extend_source h (mapping pairs) = add_all h pairs
extend_source h (iterable pairs) = add_all h pairs
extend_source h (keyed pairs) = add_all h pairs
extend_source h unsupported = h

-- `extend(*args, **kwargs)`; `none` is the `TypeError` of a second positional argument.
unfoldable pub extend : HeaderDict → List Source → List (Text × Text) → Option HeaderDict
unfolding extend_source
extend h [] kwargs = some (add_all h kwargs)
extend h (source ∷ []) kwargs = some (add_all (extend_source h source) kwargs)
extend h (source ∷ other ∷ rest) kwargs = none

-- `HTTPHeaderDict(headers, **kwargs)`
unfoldable pub init_source : Option Source → HeaderDict
init_source none = []
init_source (some (headers other)) = copy_from [] other
init_source (some source) = extend_source [] source

unfoldable pub init : Option Source → List (Text × Text) → HeaderDict
unfolding init_source
init source kwargs = add_all (init_source source) kwargs

-- `{k.lower(): v for k, v in pairs}`
unfoldable pub lowered : Dict Text Text → List (Text × Text) → Dict Text Text
lowered d [] = d
lowered d ((key, val) ∷ pairs) = lowered (Dict.set d (lower key) val) pairs

-- `==` of two dictionaries of texts
abbrev pub holds : Dict Text Text → Text × Text → Bool
holds d (key, val) = elim (Dict.get d key) [ none ↦ false | some v ↦ v == val ]

unfoldable pub dict_eq : Dict Text Text → Dict Text Text → Bool
dict_eq c d = (length c == length d) && all (holds d) c

unfoldable pub same_merged : HeaderDict → HeaderDict → Bool
same_merged h other = dict_eq (lowered [] (itermerged h)) (lowered [] (itermerged other))

unfoldable pub eq : HeaderDict → Source → Bool
eq h source = elim (ensure_can_construct_http_header_dict source) [
  | none ↦ false
  | some good ↦ same_merged h (init (some good) [])
]

unfoldable pub ne : HeaderDict → Source → Bool
ne h source = not (eq h source)

-- `none` is `NotImplemented`.
unfoldable pub ior : HeaderDict → Source → Option HeaderDict
ior h source = Option.map (extend_source h) (ensure_can_construct_http_header_dict source)

unfoldable pub or : HeaderDict → Source → Option HeaderDict
or h source = Option.map (extend_source (copy h)) (ensure_can_construct_http_header_dict source)

unfoldable pub ror : HeaderDict → Source → Option HeaderDict
ror h source =
    Option.map (λ good. extend_source (init (some good) []) (headers h))
      (ensure_can_construct_http_header_dict source)

abbrev pub content_specific_headers : List Text
content_specific_headers =
    codes "Content-Encoding"
    ∷ codes "Content-Language"
    ∷ codes "Content-Location"
    ∷ codes "Content-Type"
    ∷ codes "Content-Length"
    ∷ codes "Digest"
    ∷ codes "Last-Modified"
    ∷ []

unfoldable pub discard_all : HeaderDict → List Text → HeaderDict
discard_all h [] = h
discard_all h (key ∷ rest) = discard_all (discard h key) rest

unfoldable pub prepare_for_method_change : HeaderDict → HeaderDict
unfolding discard_all
prepare_for_method_change h = discard_all h content_specific_headers

unfoldable pub has_value_for_header : HeaderDict → Text → Text → Bool
has_value_for_header h header_name potential_value = elim (Dict.get h (lower header_name)) [
  | none ↦ false
  | some f ↦ any (λ val. potential_value == val) (to_list f.held)
]

-- `HTTPHeaderDictItemView`: `len(h.items())` and `(name, value) in h.items()`
unfoldable pub items_len : HeaderDict → ℕ
items_len h = length (iteritems h)

-- ===== src/Collections/HeaderDict/Edits.antt =====
-- Histories of the methods that change a header dictionary: the invariant, and the names as they are
-- spelled.
use urllib.Prelude.{
  ◌≡◌, ◌∙◌, refl, ap, Bool, false, none, some, Option, Option-cases, is_some, Bool-cases, inl, inr,
  List, [], ◌∷◌, ◌++◌, if◌then◌else◌, arith, ◌==◌,
}
use mathlib.Core.Option
use urllib.Prelude.Text.{Text, lower, text_eq}
use urllib.Dict
use urllib.Collections.HeaderDict.Fields
use urllib.Dict.{Dict, Unique}
use urllib.Dict.Laws.{get-none, has-is_some}
use urllib.Collections.HeaderDict.{
  HeaderDict, Field, set_item, del_item, setdefault, names, discard, add, add_value, copy, Source,
  headers, mapping, iterable, keyed, unsupported, extend_source, init, ior, or, ror,
  ensure_can_construct_http_header_dict, prepare_for_method_change,
}
use urllib.Collections.HeaderDict.Valid.{
  IsValid, add-IsValid, add_value-name, copy_from-IsValid, discard-IsValid, extend_source-IsValid,
  init-IsValid, nil-IsValid, prepare-IsValid, set_item-IsValid, setdefault-IsValid,
}

-- The operations that change a header dictionary, or make a new one from it.
pub data Edit : Type 0 where
  sets defaults : Text → Text → Edit
  deletes discards : Text → Edit
  adds : Bool → Text → Text → Edit
  extends unions : Source → Edit
  right_unions : Source → Edit
  copies prepares : Edit

-- A `KeyError` or `NotImplemented` leaves the dictionary as it was.
abbrev pub or_same : HeaderDict → Option HeaderDict → HeaderDict
or_same h none = h
or_same h (some h') = h'

pub edit : HeaderDict → Edit → HeaderDict
edit h (sets key val) = set_item h key val
edit h (defaults key val) = (setdefault h key val).1
edit h (deletes key) = or_same h (del_item h key)
edit h (discards key) = discard h key
edit h (adds combine key val) = add combine h key val
edit h (extends source) = or_same h (ior h source)
edit h (unions source) = or_same h (or h source)
edit h (right_unions source) = or_same h (ror h source)
edit h copies = copy h
edit h prepares = prepare_for_method_change h

pub edit_all : HeaderDict → List Edit → HeaderDict
edit_all h [] = h
edit_all h (e ∷ es) = edit_all (edit h e) es

constructed :
    (source : Source) (k : Source → HeaderDict) (h : HeaderDict)
    → IsValid h
    → ((s : Source) → IsValid (k s))
    → IsValid (or_same h (Option.map k (ensure_can_construct_http_header_dict source)))
unfolding ensure_can_construct_http_header_dict
constructed (headers other) k h v f = f (headers other)
constructed (mapping pairs) k h v f = f (mapping pairs)
constructed (iterable pairs) k h v f = f (iterable pairs)
constructed (keyed pairs) k h v f = f (keyed pairs)
constructed unsupported k h v f = v

pub copy-IsValid : (h : HeaderDict) → IsValid (copy h)
unfolding copy
copy-IsValid h = copy_from-IsValid [] h nil-IsValid

-- Deleting a field that is there is discarding it.
discard-del_item : (h : HeaderDict) (key : Text) → or_same h (del_item h key) ≡ discard h key
unfolding discard
discard-del_item h key = ground arith

edit-IsValid : (h : HeaderDict) (e : Edit) → IsValid h → IsValid (edit h e)
unfolding edit ior or ror
edit-IsValid h (sets key val) v = set_item-IsValid h key val v
edit-IsValid h (defaults key val) v = setdefault-IsValid h key val v
edit-IsValid h (deletes key) v = rw (discard-del_item h key) (discard-IsValid h key v)
edit-IsValid h (discards key) v = discard-IsValid h key v
edit-IsValid h (adds combine key val) v = add-IsValid combine h key val v
edit-IsValid h (extends source) v =
    constructed source (extend_source h) h v (λ s. extend_source-IsValid h s v)
edit-IsValid h (unions source) v =
    constructed source (extend_source (copy h)) h v
      (λ s. extend_source-IsValid (copy h) s (copy-IsValid h))
edit-IsValid h (right_unions source) v =
    constructed source (λ s. extend_source (init (some s) []) (headers h)) h v
      (λ s. extend_source-IsValid (init (some s) []) (headers h) (init-IsValid (some s) []))
edit-IsValid h copies v = copy-IsValid h
edit-IsValid h prepares v = prepare-IsValid h v

edit_all-IsValid : (h : HeaderDict) (es : List Edit) → IsValid h → IsValid (edit_all h es)
unfolding edit_all
edit_all-IsValid h [] v = v
edit_all-IsValid h (e ∷ es) v = edit_all-IsValid (edit h e) es (edit-IsValid h e v)

held-names :
    (h : HeaderDict) (k : Text) (f g : Field)
    → Dict.get h k ≡ some g
    → f.name ≡ g.name
    → names (Dict.set h k f) ≡ names h
unfolding names Dict.get Dict.set
held-names [] k f g m q = cc
held-names ((j, w) ∷ h) k f g m q = elim (Bool-cases (j == k)) [
  | inl hit ↦ ground arith
  | inr miss ↦ rw miss (ap (λ ns. w.name ∷ ns) (held-names h k f g (ground arith) q))
]

new-names :
    (h : HeaderDict) (k : Text) (f : Field)
    → Dict.has h k ≡ false
    → names (Dict.set h k f) ≡ names h ++ f.name ∷ []
unfolding names Dict.has Dict.set
new-names [] k f m = refl
new-names ((j, w) ∷ h) k f m = elim (Bool-cases (j == k)) [
  | inl hit ↦ ground arith
  | inr miss ↦ rw miss (ap (λ ns. w.name ∷ ns) (new-names h k f (ground arith)))
]

-- `add` lists the name as it was spelled first, or a new name at the end.
add-names :
    (combine : Bool) (h : HeaderDict) (key val : Text)
    → names (add combine h key val)
      ≡ (if Dict.has h (lower key) then names h else names h ++ key ∷ [])
unfolding add
add-names combine h key val = elim (Option-cases (Dict.get h (lower key))) [
  | inl m ↦
      let missing = get-none h (lower key) m in
      rw (m, missing, add)
        (new-names h (lower key) (record { name = key; held = Fields.one val }) missing)
  | inr (f, m) ↦
      rw (m, has-is_some h (lower key) ∙ ap is_some m, add)
        (held-names h (lower key) (add_value combine f val) f m (add_value-name combine f val))
]

-- However it is constructed and whatever operations follow, a header dictionary holds each field
-- once, under its listed name in lower case. Adding a line to it, combined with the last or not, keeps
-- the listed names with their spelling if the field is there in any spelling, and else lists the new
-- name at the end.
pub edit_all-init-names :
    (source : Option Source) (kwargs : List (Text × Text)) (es : List Edit) (combine : Bool)
    (key val : Text)
    → let h = edit_all (init source kwargs) es in
      IsValid h
      × (names (add combine h key val)
          ≡ (if Dict.has h (lower key) then names h else names h ++ key ∷ []))
edit_all-init-names source kwargs es combine key val = (
  edit_all-IsValid (init source kwargs) es (init-IsValid source kwargs),
  add-names combine (edit_all (init source kwargs) es) key val,
)

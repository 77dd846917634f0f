-- ===== src/Collections/HeaderDict/Valid.antt =====
-- The invariant of `HTTPHeaderDict`, that each field stands once, under its own name in lower case,
-- and that every operation keeps it.
use urllib.Prelude.{
  ◌≡◌, ◌∙◌, refl, sym, ap, Bool, true, false, none, some, Option, Option-cases, Bool-cases, inl,
  inr, List, [], ◌∷◌, arith, All, ◌==◌, ==-eq-true,
}
use urllib.Prelude.Text.{Text, lower, text_eq}
use urllib.Dict
use urllib.Dict.{Dict, Unique}
use urllib.Dict.Laws.{set-Unique, remove-Unique}
use urllib.Collections.HeaderDict.{
  HeaderDict, Field, set_item, get_item, del_item, setdefault, names, discard, add, add_value,
  copy_name, copy_names, copy_from, Source, headers, mapping, iterable, keyed, unsupported, add_all,
  extend_source, init_source, init, discard_all, prepare_for_method_change,
  content_specific_headers,
}

abbrev pub Named : Text × Field → Type 0
Named p = p.0 ≡ lower p.1.name

pub record IsValid (h : HeaderDict) : Type 0 where
  pub unique : Unique h
  pub named : All Named h

set-Named :
    (h : HeaderDict) (k : Text) (f : Field)
    → k ≡ lower f.name
    → All Named h
    → All Named (Dict.set h k f)
unfolding Dict.set
set-Named [] k f q n = (q, tt)
set-Named ((j, g) ∷ h) k f q n = elim (Bool-cases (j == k)) [
  | inl hit ↦ rw hit (==-eq-true j k hit ∙ q, n.1)
  | inr miss ↦ rw miss (n.0, set-Named h k f q n.1)
]

remove-Named : (h : HeaderDict) (k : Text) → All Named h → All Named (Dict.remove h k)
unfolding Dict.remove
remove-Named [] k n = tt
remove-Named ((j, g) ∷ h) k n = elim (Bool-cases (j == k)) [
  | inl hit ↦ rw hit (remove-Named h k n.1)
  | inr miss ↦ rw miss (n.0, remove-Named h k n.1)
]

pub get-Named :
    (h : HeaderDict) (k : Text) (f : Field) → All Named h → Dict.get h k ≡ some f → k ≡ lower f.name
unfolding Dict.get
get-Named [] k f n q = cc
get-Named ((j, g) ∷ h) k f n q = ground (arith, get-Named h k f, text_eq.test_iff j k)

pub set-IsValid :
    (h : HeaderDict) (k : Text) (f : Field)
    → k ≡ lower f.name
    → IsValid h
    → IsValid (Dict.set h k f)
set-IsValid h k f q v = record {
  unique = set-Unique h k f v.unique;
  named = set-Named h k f q v.named;
}

pub set_item-IsValid : (h : HeaderDict) (key val : Text) → IsValid h → IsValid (set_item h key val)
unfolding set_item
set_item-IsValid h key val v = set-IsValid h (lower key) _ refl v

pub discard-IsValid : (h : HeaderDict) (key : Text) → IsValid h → IsValid (discard h key)
unfolding discard del_item
discard-IsValid h key v = elim (Bool-cases (Dict.has h (lower key))) [
  | inl held ↦
      rw (held, discard, del_item)
        (record {
          unique = remove-Unique h (lower key) v.unique;
          named = remove-Named h (lower key) v.named;
        })
  | inr missing ↦ rw (missing, discard, del_item) v
]

pub add_value-name :
    (combine : Bool) (f : Field) (val : Text) → (add_value combine f val).name ≡ f.name
unfolding add_value
add_value-name true f val = refl
add_value-name false f val = refl

pub add-IsValid :
    (combine : Bool) (h : HeaderDict) (key val : Text) → IsValid h → IsValid (add combine h key val)
unfolding add
add-IsValid combine h key val v = elim (Option-cases (Dict.get h (lower key))) [
  | inl m ↦ rw (m, add) (set-IsValid h (lower key) _ refl v)
  | inr (f, m) ↦
      rw (m, add)
        (set-IsValid h (lower key) (add_value combine f val)
          (get-Named h (lower key) f v.named m ∙ ap lower (sym (add_value-name combine f val))) v)
]

pub add_all-IsValid :
    (h : HeaderDict) (pairs : List (Text × Text)) → IsValid h → IsValid (add_all h pairs)
unfolding add_all
add_all-IsValid h [] v = v
add_all-IsValid h ((key, val) ∷ pairs) v =
    add_all-IsValid (add false h key val) pairs (add-IsValid false h key val v)

copy_names-IsValid :
    (h other : HeaderDict) (ks : List Text) → IsValid h → IsValid (copy_names h other ks)
copy_names-IsValid h other [] v = v
copy_names-IsValid h other (key ∷ ks) v =
    copy_names-IsValid (copy_name h key (Dict.get other (lower key))) other ks
      (one_name (Dict.get other (lower key)))
  where
    one_name : (f : Option Field) → IsValid (copy_name h key f)
    one_name none = v
    one_name (some f) = set-IsValid h (lower key) _ refl v

pub nil-IsValid : IsValid []
nil-IsValid = record { unique = tt; named = tt }

pub copy_from-IsValid : (h other : HeaderDict) → IsValid h → IsValid (copy_from h other)
unfolding copy_from
copy_from-IsValid h other v = copy_names-IsValid h other (names other) v

pub extend_source-IsValid :
    (h : HeaderDict) (source : Source) → IsValid h → IsValid (extend_source h source)
unfolding extend_source
extend_source-IsValid h (headers other) v = add_all-IsValid h _ v
extend_source-IsValid h (mapping pairs) v = add_all-IsValid h pairs v
extend_source-IsValid h (iterable pairs) v = add_all-IsValid h pairs v
extend_source-IsValid h (keyed pairs) v = add_all-IsValid h pairs v
extend_source-IsValid h unsupported v = v

init_source-IsValid : (source : Option Source) → IsValid (init_source source)
unfolding init_source extend_source
init_source-IsValid none = nil-IsValid
init_source-IsValid (some (headers other)) = copy_from-IsValid [] other nil-IsValid
init_source-IsValid (some (mapping pairs)) = extend_source-IsValid [] (mapping pairs) nil-IsValid
init_source-IsValid (some (iterable pairs)) = extend_source-IsValid [] (iterable pairs) nil-IsValid
init_source-IsValid (some (keyed pairs)) = extend_source-IsValid [] (keyed pairs) nil-IsValid
init_source-IsValid (some unsupported) = nil-IsValid

pub init-IsValid :
    (source : Option Source) (kwargs : List (Text × Text)) → IsValid (init source kwargs)
unfolding init
init-IsValid source kwargs =
    add_all-IsValid (init_source source) kwargs (init_source-IsValid source)

discard_all-IsValid : (h : HeaderDict) (ks : List Text) → IsValid h → IsValid (discard_all h ks)
unfolding discard_all
discard_all-IsValid h [] v = v
discard_all-IsValid h (key ∷ ks) v =
    discard_all-IsValid (discard h key) ks (discard-IsValid h key v)

pub prepare-IsValid : (h : HeaderDict) → IsValid h → IsValid (prepare_for_method_change h)
unfolding prepare_for_method_change
prepare-IsValid h v = discard_all-IsValid h content_specific_headers v

pub setdefault-IsValid :
    (h : HeaderDict) (key val : Text) → IsValid h → IsValid (setdefault h key val).1
unfolding setdefault
setdefault-IsValid h key val v = elim (Option-cases (get_item h key)) [
  | inl m ↦ rw (m, setdefault) (set_item-IsValid h key val v)
  | inr (w, m) ↦ rw (m, setdefault) v
]

-- ===== src/Request/Headers.antt =====
-- What the loop does to a single header: proxy headers come in, and unsafe ones go before a redirect to
-- another host.
use mathlib.Core.Option
use urllib.Prelude.{
  Bool, true, false, ◌&&◌, none, List, [], ◌∷◌, any, All, ◌==◌, if◌then◌else◌, ◌≡◌, refl, ap, ◌∙◌,
  arith, Bool-cases, inl, inr, ==-eq-true,
}
use urllib.Prelude.Text.{Text, lower, text_eq, text_beq_iff}
use urllib.Dict
use urllib.Dict.Laws.{get-set}
use urllib.Collections.HeaderDict.Fields.{one}
use urllib.Collections.HeaderDict.{
  HeaderDict, get_item, names, discard, set_item, prepare_for_method_change, itermerged, merged,
  discard_all, content_specific_headers,
}
use urllib.Collections.HeaderDict.Valid.{Named, IsValid, set_item-IsValid, discard-IsValid}
use urllib.Collections.HeaderDict.Lookup.{get_item-discard, get_item-prepare}
use urllib.Request.Arguments.{Settings, strip_headers, update_all, update, with_proxy_headers}

abbrev pub same_name : Text → Text → Bool
same_name k n = lower n == lower k

abbrev pub is_unsafe : List Text → Text → Bool
is_unsafe unsafe k = any (λ u. u == lower k) unsafe

get_item-strip :
    (unsafe ns : List Text) (h : HeaderDict) (k : Text)
    → get_item (strip_headers unsafe ns h) k
      ≡ (if any (same_name k) ns && is_unsafe unsafe k then none else get_item h k)
unfolding strip_headers
get_item-strip unsafe [] h k = refl
get_item-strip unsafe (name ∷ ns) h k = elim (Bool-cases (lower name == lower k)) [
  | inl same ↦
      let eq : lower name ≡ lower k = ==-eq-true (lower name) (lower k) same in
      let agree : is_unsafe unsafe name ≡ is_unsafe unsafe k =
        ap (λ t. any (λ u. u == t) unsafe) eq in
      ground (
        arith,
        agree,
        get_item-discard h name k,
        get_item-strip unsafe ns h k,
        get_item-strip unsafe ns (discard h name) k,
      )
  | inr other ↦ ground (
    arith,
    get_item-discard h name k,
    get_item-strip unsafe ns h k,
    get_item-strip unsafe ns (discard h name) k,
  )
]

-- Every field is found under its own name.
names-Named :
    (h : HeaderDict) (k : Text)
    → All Named h
    → any (same_name k) (names h) ≡ false
    → get_item h k ≡ none
unfolding get_item names Dict.get
names-Named [] k a h = refl
names-Named ((j, f) ∷ d) k a h =
    ground
      (arith, names-Named d k a.1, text_beq_iff j (lower k), text_beq_iff (lower f.name) (lower k))

pub strip-unsafe :
    (unsafe : List Text) (h : HeaderDict) (k : Text)
    → IsValid h
    → is_unsafe unsafe k ≡ true
    → get_item (strip_headers unsafe (names h) h) k ≡ none
strip-unsafe unsafe h k v bad = elim (Bool-cases (any (same_name k) (names h))) [
  | inl there ↦ get_item-strip unsafe (names h) h k ∙ rw (there, bad) refl
  | inr gone ↦ get_item-strip unsafe (names h) h k ∙ rw gone (names-Named h k v.named gone)
]

-- A header that is not there does not come in by what the loop does.
pub strip-none :
    (unsafe ns : List Text) (h : HeaderDict) (k : Text)
    → get_item h k ≡ none
    → get_item (strip_headers unsafe ns h) k ≡ none
strip-none unsafe ns h k m = ground (arith, get_item-strip unsafe ns h k)

pub prepare-none :
    (h : HeaderDict) (k : Text)
    → get_item h k ≡ none
    → get_item (prepare_for_method_change h) k ≡ none
prepare-none h k m = ground (arith, get_item-prepare h k)

abbrev pub Lacks : Text → HeaderDict → Type 0
Lacks k h = All (λ (p : Text × Text). same_name k p.0 ≡ false) (itermerged h)

get_item-set_item :
    (h : HeaderDict) (key val k : Text)
    → same_name k key ≡ false
    → get_item (set_item h key val) k ≡ get_item h k
unfolding get_item set_item
get_item-set_item h key val k other =
    ap (Option.map merged)
      (get-set h (lower key) (lower k) (record { name = key; held = one val }) ∙ rw other refl)

update_all-none :
    (h : HeaderDict) (items : List (Text × Text)) (k : Text)
    → All (λ (p : Text × Text). same_name k p.0 ≡ false) items
    → get_item h k ≡ none
    → get_item (update_all h items) k ≡ none
unfolding update_all
update_all-none h [] k a m = m
update_all-none h ((key, val) ∷ items) k a m =
    update_all-none (set_item h key val) items k a.1 (get_item-set_item h key val k a.0 ∙ m)

pub with_proxy_headers-none :
    (c : Settings) (tunnel : Bool) (h : HeaderDict) (k : Text)
    → Lacks k c.proxy_headers
    → get_item h k ≡ none
    → get_item (with_proxy_headers c tunnel h) k ≡ none
unfolding update
with_proxy_headers-none c true h k a m = m
with_proxy_headers-none c false h k a m = update_all-none h (itermerged c.proxy_headers) k a m

-- All of it keeps a dictionary valid.
update_all-IsValid :
    (h : HeaderDict) (items : List (Text × Text)) → IsValid h → IsValid (update_all h items)
unfolding update_all
update_all-IsValid h [] v = v
update_all-IsValid h ((key, val) ∷ items) v =
    update_all-IsValid (set_item h key val) items (set_item-IsValid h key val v)

pub with_proxy_headers-IsValid :
    (c : Settings) (tunnel : Bool) (h : HeaderDict)
    → IsValid h
    → IsValid (with_proxy_headers c tunnel h)
unfolding update
with_proxy_headers-IsValid c true h v = v
with_proxy_headers-IsValid c false h v = update_all-IsValid h (itermerged c.proxy_headers) v

pub strip-IsValid :
    (unsafe ns : List Text) (h : HeaderDict) → IsValid h → IsValid (strip_headers unsafe ns h)
unfolding strip_headers
strip-IsValid unsafe [] h v = v
strip-IsValid unsafe (name ∷ ns) h v = elim (Bool-cases (is_unsafe unsafe name)) [
  | inl bad ↦ rw bad (strip-IsValid unsafe ns (discard h name) (discard-IsValid h name v))
  | inr good ↦ rw good (strip-IsValid unsafe ns h v)
]

discard_all-IsValid : (h : HeaderDict) (keys : List Text) → IsValid h → IsValid (discard_all h keys)
unfolding discard_all
discard_all-IsValid h [] v = v
discard_all-IsValid h (k ∷ ks) v = discard_all-IsValid (discard h k) ks (discard-IsValid h k v)

pub prepare-IsValid : (h : HeaderDict) → IsValid h → IsValid (prepare_for_method_change h)
unfolding prepare_for_method_change
prepare-IsValid h v = discard_all-IsValid h content_specific_headers v

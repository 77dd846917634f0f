-- ===== src/Timeout/Limits.antt =====
-- What a `Timeout` guarantees: only positive limits are stored, and neither the connect nor the
-- read timeout goes beyond the total.
use urllib.Prelude.{◌≡◌, refl, Option, none, some, arith, ◌⊎◌, Bool-cases, inl, inr, ap, ◌∙◌}
use urllib.Prelude.Int.{ℤ, pos, ◌≤ℤ◌, ◌-ℤ◌, ◌+ℤ◌, min_ℤ, max_ℤ, leb_ℤ}
use urllib.Exceptions.{Outcome, ok, raises, plain, value_error, type_error}
use urllib.Timeout.{
  Setting, never, default, after, Given, setting, boolean, not_a_number, Timeout, validate_timeout,
  init, connect_timeout, connect_limit, get_connect_duration, left_of, read_limit, read_timeout,
  clone,
}

abbrev pub IsPositive : Setting → Type 0
IsPositive never = Unit
IsPositive default = Unit
IsPositive (after s) = pos 1 ≤ℤ s

pub record IsValid (t : Timeout) : Type 0 where
  pub connect : IsPositive t.connect
  pub read : IsPositive t.read
  pub total : IsPositive t.total

-- What may be stored: no limit, the default, or a positive number.
abbrev pub IsAllowed : Given → Type 0
IsAllowed (setting s) = IsPositive s
IsAllowed (boolean b) = ⊥
IsAllowed not_a_number = ⊥

abbrev pub stored : Given → Setting
stored (setting s) = s
stored (boolean b) = never
stored not_a_number = never

-- One argument is stored as it is, or refused.
abbrev Checked : Given → Type 0
Checked g =
    (IsAllowed g × (validate_timeout g ≡ ok (stored g)))
    ⊎ ((IsAllowed g → ⊥) × (validate_timeout g ≡ raises (plain value_error)))

validated : (g : Given) → Checked g
unfolding validate_timeout
validated (setting never) = inl (tt, refl)
validated (setting default) = inl (tt, refl)
validated (setting (after s)) = elim (Bool-cases (leb_ℤ s (pos 0))) [
  | inl low ↦ inr (λ h. ground arith, rw low)
  | inr high ↦ inl (ground arith, rw high)
]
validated (boolean b) = inr (λ h. h, refl)
validated not_a_number = inr (λ h. h, refl)

-- The constructor accepts its three arguments exactly if each is `None`, the default or a positive
-- number, and stores them as they are; otherwise it raises a `ValueError`.
pub init-IsAllowed :
    (total connect read : Given)
    → ((IsAllowed total × IsAllowed connect × IsAllowed read)
        × (init total connect read
            ≡ ok (record {
              connect = stored connect;
              read = stored read;
              total = stored total;
              started = none;
            })))
      ⊎ (((IsAllowed total × IsAllowed connect × IsAllowed read) → ⊥)
          × (init total connect read ≡ raises (plain value_error)))
unfolding init
init-IsAllowed total connect read = elim (validated connect) [
  | inr (bad, q) ↦ inr (λ h. bad h.1, rw q)
  | inl (c, p) ↦ elim (validated read) [
    | inr (bad, q) ↦ inr (λ h. bad h.2, rw (p, q))
    | inl (r, q) ↦ elim (validated total) [
      | inr (bad, z) ↦ inr (λ h. bad h.0, rw (p, q, z))
      | inl (t, z) ↦ inl ((t, c, r), rw (p, q, z))
    ]
  ]
]

-- A copy has the settings of its original and a clock that is not started.
clone_lem : (t : Timeout) → IsValid t → clone t ≡ ok (record t { started = none })
unfolding clone
clone_lem t v = elim (init-IsAllowed (setting t.total) (setting t.connect) (setting t.read)) [
  | inl (h, q) ↦ q
  | inr (bad, q) ↦ absurd (bad (v.total, v.connect, v.read))
]

-- `s` is no later than `t`.
abbrev pub Within : Setting → Setting → Type 0
Within s never = Unit
Within (after z) default = Unit
Within (after z) (after t) = z ≤ℤ t
Within default default = Unit
Within default (after t) = ⊥
Within never default = ⊥
Within never (after t) = ⊥

abbrev pub Limited : Setting → Setting → Outcome Setting → Type 0
Limited total connect o =
    ((s : Setting) × (o ≡ ok s) × IsPositive s × Within s total × Within s connect)
    ⊎ ((total ≡ default) × ((z : ℤ) × (connect ≡ after z)) × (o ≡ raises (plain type_error)))

connect_limit-Limited :
    (total connect : Setting)
    → IsPositive total
    → IsPositive connect
    → Limited total connect (connect_limit total connect)
connect_limit-Limited never never p q = inl (never, refl, tt, tt, tt)
connect_limit-Limited never default p q = inl (default, refl, tt, tt, tt)
connect_limit-Limited never (after c) p q = inl (after c, refl, q, tt, omega arith)
connect_limit-Limited default never p q = inl (default, refl, tt, tt, tt)
connect_limit-Limited default default p q = inl (default, refl, tt, tt, tt)
connect_limit-Limited default (after c) p q = inr (refl, (c, refl), refl)
connect_limit-Limited (after t) never p q = inl (after t, refl, p, omega arith, tt)
connect_limit-Limited (after t) default p q = inl (after t, refl, p, omega arith, tt)
connect_limit-Limited (after t) (after c) p q =
    inl (after (min_ℤ c t), refl, ground arith, ground arith, ground arith)

-- The connect timeout is positive, where it is a number, and no later than the total and the connect
-- setting allow. Only where the total is the default sentinel and the connect setting is a number
-- there is none, and a `TypeError` is raised.
pub connect_timeout-Limited :
    (t : Timeout) → IsValid t → Limited t.total t.connect (connect_timeout t)
unfolding connect_timeout
connect_timeout-Limited t v = connect_limit-Limited t.total t.connect v.total v.connect

left_value : ℤ → ℤ → ℤ → Setting → ℤ
left_value began now total (after r) = max_ℤ (pos 0) (min_ℤ (total -ℤ (now -ℤ began)) r)
left_value began now total other = max_ℤ (pos 0) (total -ℤ (now -ℤ began))

left_of-left_value :
    (t : Timeout) (began now total : ℤ) (r : Setting)
    → t.started ≡ some began
    → left_of t now total r ≡ ok (some (left_value began now total r))
unfolding get_connect_duration left_value
left_of-left_value t began now total never h = ground arith
left_of-left_value t began now total default h = ground arith
left_of-left_value t began now total (after r) h = ground arith

-- Nothing is left, or the time fits into what is left.
spare :
    (total spent : ℤ)
    → (max_ℤ (pos 0) (total -ℤ spent) ≡ pos 0) ⊎ (spent +ℤ max_ℤ (pos 0) (total -ℤ spent) ≤ℤ total)
unfolding ◌-ℤ◌ ◌+ℤ◌
spare total spent = ground arith

spare_min :
    (left r spent total : ℤ)
    → spent +ℤ left ≤ℤ total
    → (max_ℤ (pos 0) (min_ℤ left r) ≡ pos 0) ⊎ (spent +ℤ max_ℤ (pos 0) (min_ℤ left r) ≤ℤ total)
unfolding ◌+ℤ◌
spare_min left r spent total h = ground arith

sub_fits : (total spent : ℤ) → spent +ℤ (total -ℤ spent) ≤ℤ total
unfolding ◌-ℤ◌ ◌+ℤ◌
sub_fits total spent = ground arith

abbrev pub Fits : ℤ → ℤ → Setting → ℤ → Type 0
Fits spent total read s =
    (pos 0 ≤ℤ s) × Within (after s) read × ((s ≡ pos 0) ⊎ (spent +ℤ s ≤ℤ total))

left_value-Fits :
    (began now total : ℤ) (r : Setting)
    → IsPositive r
    → Fits (now -ℤ began) total r (left_value began now total r)
unfolding left_value
left_value-Fits began now total never p = (ground arith, tt, spare total (now -ℤ began))
left_value-Fits began now total default p = (ground arith, tt, spare total (now -ℤ began))
left_value-Fits began now total (after r) p = (
  ground arith,
  ground arith,
  spare_min (total -ℤ (now -ℤ began)) r (now -ℤ began) total (sub_fits total (now -ℤ began)),
)

-- For a total that is a number, once the clock is started the read timeout is never negative, is at
-- most the read setting, and fits into what is left of the total, unless nothing is left and it is 0.
pub read_timeout-Fits :
    (system : Option ℤ) (t : Timeout) (began now total : ℤ)
    → IsValid t
    → t.started ≡ some began
    → t.total ≡ after total
    → (s : ℤ) × (read_timeout system t now ≡ ok (some s)) × Fits (now -ℤ began) total t.read s
unfolding read_timeout
read_timeout-Fits system t began now total v st tot = (
  left_value began now total t.read,
  ap (read_limit system t now) tot ∙ left_of-left_value t began now total t.read st,
  left_value-Fits began now total t.read v.read,
)

-- ===== src/Timeout.antt =====
-- `Timeout` of src/urllib3/util/timeout.py. Times are whole numbers of a fixed unit of time, where
-- the source has floats; the clock's reading and the system's default are arguments.
pub mod Limits
pub mod Timer
pub mod Tests
use urllib.Prelude.{Bool, true, false, Option, none, some, if◌then◌else◌, ◌≡◌, refl}
use urllib.Prelude.Int.{ℤ, pos, leb_ℤ, min_ℤ, max_ℤ, ◌-ℤ◌}
use urllib.Exceptions.{Outcome, ok, raises, plain, value_error, type_error, timeout_state_error}

-- A timeout as it is stored: `None`, the sentinel for the system's default, or a number.
pub data Setting : Type 0 where
  never default : Setting
  after : ℤ → Setting

-- What a caller may pass: a setting, a `bool`, or an object that is no number.
pub data Given : Type 0 where
  setting : Setting → Given
  boolean : Bool → Given
  not_a_number : Given

pub record Timeout : Type 0 where
  pub connect : Setting
  pub read : Setting
  pub total : Setting
  -- `_start_connect`
  pub started : Option ℤ

infixl 5 ◌>>=◌
abbrev pub ◌>>=◌ {ℓ κ} : {A : Type ℓ} {B : Type κ} → Outcome A → (A → Outcome B) → Outcome B
ok x >>= k = k x
raises e >>= k = raises e

-- A chain that succeeds, taken apart.
pub >>=-ok {ℓ κ} :
    {A : Type ℓ} {B : Type κ} (m : Outcome A) (k : A → Outcome B) {b : B}
    → (m >>= k) ≡ ok b
    → (a : A) × (m ≡ ok a) × (k a ≡ ok b)
>>=-ok (ok a) k h = (a, refl, h)
>>=-ok (raises e) k h = cc

unfoldable pub validate_timeout : Given → Outcome Setting
validate_timeout (setting never) = ok never
validate_timeout (setting default) = ok default
validate_timeout (setting (after s)) =
    if leb_ℤ s (pos 0) then raises (plain value_error) else ok (after s)
validate_timeout (boolean b) = raises (plain value_error)
validate_timeout not_a_number = raises (plain value_error)

-- `Timeout(total, connect, read)`
unfoldable pub init : Given → Given → Given → Outcome Timeout
unfolding validate_timeout
init total connect read = do
  c ← validate_timeout connect
  r ← validate_timeout read
  t ← validate_timeout total
  ok (record { connect = c; read = r; total = t; started = none })

unfoldable pub from_float : Given → Outcome Timeout
unfolding init
from_float timeout = init (setting never) timeout timeout

unfoldable pub clone : Timeout → Outcome Timeout
unfolding init
clone t = init (setting t.total) (setting t.connect) (setting t.read)

-- `now` is `time.monotonic()`.
unfoldable pub start_connect : Timeout → ℤ → Outcome (ℤ × Timeout)
start_connect t now = elim t.started [
  | some s ↦ raises (plain timeout_state_error)
  | none ↦ ok (now, record t { started = some now })
]

unfoldable pub get_connect_duration : Timeout → ℤ → Outcome ℤ
get_connect_duration t now = elim t.started [
  | none ↦ raises (plain timeout_state_error)
  | some s ↦ ok (now -ℤ s)
]

-- `min(connect, total)` of a number and the sentinel is a `TypeError`.
abbrev pub lower_limit : ℤ → Setting → Outcome Setting
lower_limit c never = ok (after c)
lower_limit c default = raises (plain type_error)
lower_limit c (after t) = ok (after (min_ℤ c t))

abbrev pub connect_limit : Setting → Setting → Outcome Setting
connect_limit never connect = ok connect
connect_limit total never = ok total
connect_limit total default = ok total
connect_limit total (after c) = lower_limit c total

unfoldable pub connect_timeout : Timeout → Outcome Setting
connect_timeout t = connect_limit t.total t.connect

-- `system` is `socket.getdefaulttimeout()`.
unfoldable pub resolve_default_timeout : Option ℤ → Setting → Option ℤ
resolve_default_timeout system never = none
resolve_default_timeout system default = system
resolve_default_timeout system (after s) = some s

-- What is left of a total for a read, with and without a read limit of its own.
abbrev pub left_of : Timeout → ℤ → ℤ → Setting → Outcome (Option ℤ)
left_of t now total (after r) = elim t.started [
  | none ↦ ok (some r)
  | some s ↦ ok (some (max_ℤ (pos 0) (min_ℤ (total -ℤ (now -ℤ s)) r)))
]
left_of t now total other = do
  duration ← get_connect_duration t now
  ok (some (max_ℤ (pos 0) (total -ℤ duration)))

abbrev pub read_limit : Option ℤ → Timeout → ℤ → Setting → Outcome (Option ℤ)
read_limit system t now (after total) = left_of t now total t.read
read_limit system t now other = ok (resolve_default_timeout system t.read)

unfoldable pub read_timeout : Option ℤ → Timeout → ℤ → Outcome (Option ℤ)
unfolding get_connect_duration resolve_default_timeout
read_timeout system t now = read_limit system t now t.total

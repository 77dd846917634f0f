-- ===== src/Timeout/Timer.antt =====
-- The connect clock of a `Timeout`: it is started at most once, and the copy that each request gets
-- has a clock of its own.
use urllib.Prelude.{◌≡◌, ◌∙◌, ap, refl, none, some, List, [], ◌∷◌, arith}
use urllib.Prelude.Int.{ℤ, ◌-ℤ◌}
use urllib.Exceptions.{Outcome, ok, raises, plain, timeout_state_error}
use urllib.Timeout.{Timeout, start_connect, get_connect_duration}

-- The clock after a list of readings at which `start_connect` was called; a failed call changes
-- nothing.
abbrev pub or_same : Timeout → Outcome (ℤ × Timeout) → Timeout
or_same t (ok (now, t')) = t'
or_same t (raises e) = t

unfoldable pub start_all : Timeout → List ℤ → Timeout
start_all t [] = t
start_all t (now ∷ later) = start_all (or_same t (start_connect t now)) later

start_all_started :
    (t : Timeout) (began : ℤ) (times : List ℤ) → t.started ≡ some began → start_all t times ≡ t
unfolding start_all
start_all_started t began [] h = refl
start_all_started t began (now ∷ later) h =
    let same : or_same t (start_connect t now) ≡ t = unfold start_connect in ground arith in
    ap (λ u. start_all u later) same ∙ start_all_started t began later h

begun :
    (t : Timeout) (first : ℤ) (times : List ℤ)
    → t.started ≡ none
    → start_all t (first ∷ times) ≡ record t { started = some first }
unfolding start_all
begun t first times h =
    let one : or_same t (start_connect t first) ≡ record t { started = some first } =
      unfold start_connect in ground arith in
    ap (λ u. start_all u times) one
    ∙ start_all_started (record t { started = some first }) first times refl

-- However often a fresh clock is started, the duration is measured from the first start, each later
-- start is refused, and before the first there is no duration.
pub clock_runs_once :
    (t : Timeout) (first now : ℤ) (times : List ℤ)
    → t.started ≡ none
    → (get_connect_duration (start_all t (first ∷ times)) now ≡ ok (now -ℤ first))
      × (start_connect (start_all t (first ∷ times)) now ≡ raises (plain timeout_state_error))
      × (get_connect_duration t now ≡ raises (plain timeout_state_error))
clock_runs_once t first now times h =
    rw (begun t first times h)
      (unfold get_connect_duration start_connect in (refl, refl, ground arith))

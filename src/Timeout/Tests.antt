-- ===== src/Timeout/Tests.antt =====
-- `Timeout` at concrete settings.
use urllib.Prelude.{true, ◌≡◌, refl, ◌⊎◌, none, some, [], ◌∷◌, arith}
use urllib.Prelude.Int.{ℤ, pos, ◌-ℤ◌}
use urllib.Exceptions.{ok, raises, plain, value_error, type_error, timeout_state_error}
use urllib.Timeout.{
  never, default, after, setting, boolean, Timeout, init, connect_timeout, read_timeout,
  get_connect_duration, start_connect,
}
use urllib.Timeout.Limits.{
  IsValid, IsAllowed, init-IsAllowed, Limited, connect_timeout-Limited, Fits, read_timeout-Fits,
}
use urllib.Timeout.Timer.{start_all, clock_runs_once}

-- `Timeout(total=10, connect=3, read=8)`, started at 100.
abbrev running : Timeout
running = record {
  connect = after (pos 3);
  read = after (pos 8);
  total = after (pos 10);
  started = some (pos 100);
}

running-IsValid : IsValid running
running-IsValid = omega arith

abbrev sentinel_total : Timeout
sentinel_total = record running { total = default }

left_to_read : read_timeout none running (pos 104) ≡ ok (some (pos 6))
unfolding read_timeout ◌-ℤ◌
left_to_read = refl

nothing_left : read_timeout none running (pos 111) ≡ ok (some (pos 0))
unfolding read_timeout ◌-ℤ◌
nothing_left = refl

sentinel_fails : connect_timeout sentinel_total ≡ raises (plain type_error)
unfolding connect_timeout
sentinel_fails = refl

init-IsAllowed_example :
    ((IsAllowed (boolean true) × IsAllowed (setting never) × IsAllowed (setting default))
      × (init (boolean true) (setting never) (setting default)
          ≡ ok (record { connect = never; read = default; total = never; started = none })))
    ⊎ (((IsAllowed (boolean true) × IsAllowed (setting never) × IsAllowed (setting default)) → ⊥)
        × (init (boolean true) (setting never) (setting default) ≡ raises (plain value_error)))
init-IsAllowed_example = init-IsAllowed (boolean true) (setting never) (setting default)

connect_timeout-Limited_example : Limited (after (pos 10)) (after (pos 3)) (connect_timeout running)
connect_timeout-Limited_example = connect_timeout-Limited running running-IsValid

read_timeout-Fits_example :
    (s : ℤ) × (read_timeout none running (pos 104) ≡ ok (some s))
    × Fits (pos 104 -ℤ pos 100) (pos 10) (after (pos 8)) s
read_timeout-Fits_example =
    read_timeout-Fits none running (pos 100) (pos 104) (pos 10) running-IsValid refl refl

clock_runs_once_example :
    (get_connect_duration
        (start_all (record running { started = none }) (pos 5 ∷ pos 7 ∷ []))
        (pos 9)
      ≡ ok (pos 9 -ℤ pos 5))
    × (start_connect (start_all (record running { started = none }) (pos 5 ∷ pos 7 ∷ [])) (pos 9)
        ≡ raises (plain timeout_state_error))
    × (get_connect_duration (record running { started = none }) (pos 9)
        ≡ raises (plain timeout_state_error))
clock_runs_once_example =
    clock_runs_once (record running { started = none }) (pos 5) (pos 9) (pos 7 ∷ []) refl

-- ===== src/Collections/RecentlyUsed/Tests.antt =====
-- Runs of `RecentlyUsedContainer` and the theorems at them.
use mathlib.Core.List.{Perm}
use urllib.Prelude.{ℕ, ◌≤◌, ◌≡◌, refl, true, List, [], ◌∷◌, ◌++◌, nat_eq, arith}
use urllib.Dict.{keys, values, Unique, get, set, remove}
use urllib.Collections.RecentlyUsed.{
  Container, Call, stores, fetches, deletes, clears, init, size, run, step,
}
use urllib.Collections.RecentlyUsed.Bounds.{run-init_bounds, init-IsValid}
use urllib.Collections.RecentlyUsed.Recency.{keys-run}
use urllib.Collections.RecentlyUsed.Disposal.{run-conserves}

-- Capacity 2: key 1 is read before key 3 comes in, so key 2 is evicted.
abbrev uses : List (Call ℕ ℕ)
uses = stores 1 10 ∷ stores 2 20 ∷ fetches 1 ∷ stores 3 30 ∷ []

abbrev calls : List (Call ℕ ℕ)
calls =
    stores 1 10 ∷ stores 2 20 ∷ stores 1 11 ∷ deletes 2 ∷ stores 4 40 ∷ clears ∷ stores 5 50 ∷ []

history_run : (run (init 2 true) uses).0.entries ≡ (1, 10) ∷ (3, 30) ∷ []
unfolding run init step get set remove urllib.Collections.RecentlyUsed.set_item
    urllib.Collections.RecentlyUsed.get_item
history_run = refl

uses_disposed : (run (init 2 true) uses).1 ≡ 20 ∷ []
unfolding run init step get set remove urllib.Collections.RecentlyUsed.set_item
    urllib.Collections.RecentlyUsed.get_item
uses_disposed = refl

zero_capacity : (run (init {K = ℕ} {V = ℕ} 0 true) (stores 1 10 ∷ [])).1 ≡ 10 ∷ []
unfolding run init step get set remove urllib.Collections.RecentlyUsed.set_item
zero_capacity = refl

run-init_bounds_example :
    Unique (run (init {K = ℕ} {V = ℕ} 2 true) calls).0.entries
    × (size (run (init {K = ℕ} {V = ℕ} 2 true) calls).0 ≤ 2)
run-init_bounds_example = run-init_bounds 2 true calls

keys-run_example : keys (run (init {K = ℕ} {V = ℕ} 2 true) uses).0.entries ≡ 1 ∷ 3 ∷ []
keys-run_example = keys-run 2 true uses (omega arith)

run-conserves_example :
    Perm
      (10 ∷ 20 ∷ 11 ∷ 40 ∷ 50 ∷ [])
      (values (run (init {K = ℕ} {V = ℕ} 2 true) calls).0.entries ++ (run (init 2 true) calls).1)
unfolding init
run-conserves_example = run-conserves (init 2 true) calls refl (init-IsValid 2 true)

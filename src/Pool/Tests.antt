-- ===== src/Pool/Tests.antt =====
-- A pool of two connections at work.
use urllib.Prelude.{ℕ, ◌+◌, ◌≤◌, Bool, true, false, none, some, [], ◌∷◌, ◌≡◌, refl, arith}
use urllib.Exceptions.{ok, raises, plain, closed_pool_error, full_pool_error}
use urllib.Pool.{init, get_conn, put_conn, close_conn, close}
use urllib.Pool.Slots.{count, drop_one}
use urllib.Pool.Leases.{World, gets, puts, closes, Reach, start, later, IsSound}
use urllib.Pool.Sharing.{Reach-IsSound}
use urllib.Pool.Limits.{
  get_conn-unleased, put_conn-ok, Available, get_conn-Available, closed_pool-kept,
}

abbrev alive : ℕ → Bool
alive c = false

abbrev dead : ℕ → Bool
dead c = true

-- `HTTPConnectionPool(host, maxsize=2, block=True)`
abbrev fresh : World
fresh = record { pool = init 2 true; leased = [] }

abbrev one_out : World
one_out = record { pool = (get_conn alive fresh.pool).1; leased = 1 ∷ [] }

abbrev two_out : World
two_out = record { pool = (get_conn alive one_out.pool).1; leased = 2 ∷ 1 ∷ [] }

abbrev one_back : World
one_back = record { pool = (put_conn (some 1) two_out.pool).1; leased = drop_one 1 (2 ∷ 1 ∷ []) }

abbrev shut : World
shut = record one_back { pool = close one_back.pool }

one_out-Reach : Reach 2 true one_out
unfolding get_conn init
one_out-Reach = later start (gets alive fresh 1 refl)

two_out-Reach : Reach 2 true two_out
unfolding get_conn init
two_out-Reach = later one_out-Reach (gets alive one_out 2 refl)

one_back-Reach : Reach 2 true one_back
unfolding count
one_back-Reach = later two_out-Reach (puts two_out 1 (ground arith))

shut-Reach : Reach 2 true shut
shut-Reach = later one_back-Reach (closes one_back)

-- A dropped connection is closed, and handed out again.
reused :
    get_conn dead (record (init 1 false) { queue = some (some 7 ∷ []) })
    ≡ (ok 7, record (init 1 false) { queue = some []; closes = 7 ∷ [] })
unfolding get_conn init
reused = refl

-- One connection too many is closed twice in a pool that does not block, else it is an error.
overflows :
    ((put_conn (some 9) (init 1 false)).1.closes ≡ 9 ∷ 9 ∷ [])
    × ((put_conn (some 9) (init 1 true)).0 ≡ raises (plain full_pool_error))
unfolding put_conn init
overflows = (refl, refl)

Reach-IsSound_example : IsSound 2 true shut
Reach-IsSound_example = Reach-IsSound shut-Reach

get_conn-unleased_example : count 2 one_out.leased ≡ 0
get_conn-unleased_example = get_conn-unleased alive 2 one_out-Reach (unfold get_conn init in refl)

put_conn-ok_example :
    ((put_conn (some 1) two_out.pool).0 ≡ ok tt)
    × ((put_conn none (close_conn (some 1) two_out.pool)).0 ≡ ok tt)
put_conn-ok_example = put_conn-ok 1 (omega arith) two_out-Reach (unfold count in ground arith)

get_conn-Available_example : Available alive 2 two_out
get_conn-Available_example =
    get_conn-Available alive [] (omega arith) two_out-Reach (unfold get_conn init in refl)

closed_pool-kept_example :
    ((c : ℕ)
      → 1 ≤ c
      → c ≤ shut.pool.num_connections
      → 1 ≤ count c shut.leased + count c shut.pool.closes)
    × (get_conn alive shut.pool ≡ (raises (plain closed_pool_error), shut.pool))
    × ((conn : ℕ) → put_conn (some conn) shut.pool ≡ (ok tt, close_conn (some conn) shut.pool))
closed_pool-kept_example =
    closed_pool-kept alive shut-Reach (unfold close put_conn get_conn init in refl)

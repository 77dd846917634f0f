-- ===== src/Pool/Leases.antt =====
-- A pool and the clients that share it, any number of them: each takes connections, gives back those
-- that it has, or closes one and gives its empty slot back. The pool may be closed at any time.
use urllib.Prelude.{ℕ, ◌+◌, ◌≤◌, ◌<◌, Bool, true, Option, none, some, List, [], ◌∷◌, length, ◌≡◌}
use urllib.Exceptions.{ok}
use urllib.Pool.{Pool, Queue, init, get_conn, put_conn, close_conn, close}
use urllib.Pool.Slots.{count, drop_one, pooled}

pub record World : Type 0 where
  pub pool : Pool
  -- the connections that clients have
  pub leased : List ℕ

pub data Step : World → World → Type 0 where
  gets :
      (dropped : ℕ → Bool) (w : World) (conn : ℕ)
      → (get_conn dropped w.pool).0 ≡ ok conn
      → Step w (record { pool = (get_conn dropped w.pool).1; leased = conn ∷ w.leased })
  puts :
      (w : World) (conn : ℕ)
      → 1 ≤ count conn w.leased
      → Step w (record { pool = (put_conn (some conn) w.pool).1; leased = drop_one conn w.leased })
  discards :
      (w : World) (conn : ℕ)
      → 1 ≤ count conn w.leased
      → Step w (record {
        pool = (put_conn none (close_conn (some conn) w.pool)).1;
        leased = drop_one conn w.leased;
      })
  closes : (w : World) → Step w (record w { pool = close w.pool })

pub data Reach (maxsize : ℕ) (block : Bool) : World → Type 0 where
  start : Reach maxsize block (record { pool = init maxsize block; leased = [] })
  later : {w v : World} → Reach maxsize block w → Step w v → Reach maxsize block v

-- The queue is within its capacity, and in blocking mode a slot is in it or stands for a lease.
abbrev pub Fits : ℕ → Bool → Option Queue → List ℕ → Type 0
Fits maxsize block none leased = Unit
Fits maxsize block (some q) leased =
    (1 ≤ maxsize → length q ≤ maxsize)
    × (block ≡ true → 1 ≤ maxsize → length q + length leased ≡ maxsize)

-- How often a connection is in the queue or leased.
abbrev pub held : ℕ → World → ℕ
held c w = pooled c w.pool.queue + count c w.leased

pub record IsSound (maxsize : ℕ) (block : Bool) (w : World) : Type 0 where
  pub capacity : w.pool.maxsize ≡ maxsize
  pub mode : w.pool.block ≡ block
  pub fits : Fits maxsize block w.pool.queue w.leased
  pub one_holder : (c : ℕ) → held c w ≤ 1
  pub numbered : (c : ℕ) → w.pool.num_connections < c → held c w ≡ 0
  -- no connection is lost: it is held, or it was closed
  pub kept : (c : ℕ) → 1 ≤ c → c ≤ w.pool.num_connections → 1 ≤ held c w + count c w.pool.closes

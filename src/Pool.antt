-- ===== src/Pool.antt =====
-- The queue of connections of `HTTPConnectionPool`, src/urllib3/connectionpool.py. Each method is
-- one step: a `get` that waits takes its step when a slot is there, or when its time is up. A
-- connection is the number that it was created with; closing it is recorded, since it stays usable.
pub mod Slots
pub mod Leases
pub mod Taking
pub mod Sharing
pub mod Limits
pub mod Tests
use urllib.Prelude.{
  ℕ, zero, suc, ◌+◌, Bool, true, false, not, ◌&&◌, Option, none, some, List, [], ◌∷◌, ◌++◌, leb,
  ◌=ℕ◌, length, if◌then◌else◌,
}
use urllib.Exceptions.{
  Outcome, ok, raises, plain, closed_pool_error, empty_pool_error, full_pool_error,
}

-- `LifoQueue`, its next item first; an item is `None` or a connection.
abbrev pub Queue : Type 0
Queue = List (Option ℕ)

pub record Pool : Type 0 where
  -- `self.pool`; `none` when the pool is closed
  pub queue : Option Queue
  -- the capacity of the queue; 0 (or less in Python) stands for no limit
  pub maxsize : ℕ
  pub block : Bool
  pub num_connections : ℕ
  -- the calls of `close()` on connections, in their order
  pub closes : List ℕ

-- `for _ in range(maxsize): self.pool.put(None)`
unfoldable pub fill : ℕ → Queue
fill zero = []
fill (suc n) = none ∷ fill n

unfoldable pub init : ℕ → Bool → Pool
unfolding fill
init maxsize block = record {
  queue = some (fill maxsize);
  maxsize = maxsize;
  block = block;
  num_connections = 0;
  closes = [];
}

-- `if conn: conn.close()`
unfoldable pub close_conn : Option ℕ → Pool → Pool
close_conn none p = p
close_conn (some conn) p = record p { closes = p.closes ++ conn ∷ [] }

unfoldable pub new_conn : Pool → ℕ × Pool
new_conn p = (p.num_connections + 1, record p { num_connections = p.num_connections + 1 })

-- What `_get_conn` makes of the item; `dropped` is `is_connection_dropped`.
unfoldable pub refresh : (ℕ → Bool) → Option ℕ → Pool → ℕ × Pool
unfolding close_conn new_conn
refresh dropped none p = new_conn p
refresh dropped (some conn) p = (conn, if dropped conn then close_conn (some conn) p else p)

abbrev pub succeeds : ℕ × Pool → Outcome ℕ × Pool
succeeds r = (ok r.0, r.1)

abbrev pub get_from : (ℕ → Bool) → Option Queue → Pool → Outcome ℕ × Pool
get_from dropped none p = (raises (plain closed_pool_error), p)
get_from dropped (some []) p =
    if p.block then (raises (plain empty_pool_error), p) else succeeds (refresh dropped none p)
get_from dropped (some (item ∷ rest)) p =
    succeeds (refresh dropped item (record p { queue = some rest }))

unfoldable pub get_conn : (ℕ → Bool) → Pool → Outcome ℕ × Pool
unfolding refresh
get_conn dropped p = get_from dropped p.queue p

-- `None`, or a `FullPoolError`, and the pool after the call.
abbrev pub Done : Type 0
Done = Outcome Unit × Pool

abbrev pub is_full : Pool → Queue → Bool
is_full p q = not (p.maxsize =ℕ 0) && leb p.maxsize (length q)

-- `queue.Full`: after a warning a connection is closed a second time.
abbrev pub overflow : Option ℕ → Pool → Done
overflow conn p =
    if p.block
    then (raises (plain full_pool_error), close_conn conn p)
    else (ok tt, close_conn conn (close_conn conn p))

abbrev pub put_to : Option Queue → Option ℕ → Pool → Done
put_to none conn p = (ok tt, close_conn conn p)
put_to (some q) conn p =
    if is_full p q then overflow conn p else (ok tt, record p { queue = some (conn ∷ q) })

unfoldable pub put_conn : Option ℕ → Pool → Done
unfolding close_conn
put_conn conn p = put_to p.queue conn p

-- `_close_pool_connections`
unfoldable pub drain : Queue → List ℕ
drain [] = []
drain (none ∷ q) = drain q
drain (some conn ∷ q) = conn ∷ drain q

abbrev pub close_all : Option Queue → Pool → Pool
close_all none p = p
close_all (some q) p = record p { queue = none; closes = p.closes ++ drain q }

unfoldable pub close : Pool → Pool
unfolding drain
close p = close_all p.queue p

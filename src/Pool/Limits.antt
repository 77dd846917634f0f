-- ===== src/Pool/Limits.antt =====
-- What clients of a shared pool can rely on. Each gives back only what it took, or an empty slot in
-- its place (`Reach`).
use urllib.Prelude.{
  ℕ, ◌+◌, ◌≤◌, ◌<◌, Bool, true, false, Option, none, some, [], ◌∷◌, length, ◌≡◌, refl, arith, ap,
  subst, ◌⊎◌, inl, inr,
}
use urllib.Exceptions.{ok, raises, plain, empty_pool_error, closed_pool_error}
use urllib.Pool.{Pool, Queue, get_conn, get_from, put_conn, put_to, is_full, close_conn, drain}
use urllib.Pool.Slots.{count, pooled}
use urllib.Pool.Leases.{World, Reach, Fits}
use urllib.Pool.Taking.{get_conn-IsSound}
use urllib.Pool.Sharing.{Reach-IsSound, has_room}

-- A connection that a pool hands out is in no client's hands, whatever clients, each giving back only
-- what it took or an empty slot in its place, did before.
pub get_conn-unleased :
    {maxsize : ℕ} {block : Bool} {w : World} (dropped : ℕ → Bool) (conn : ℕ)
    → Reach maxsize block w
    → (get_conn dropped w.pool).0 ≡ ok conn
    → count conn w.leased ≡ 0
get_conn-unleased dropped conn r e =
    let after = get_conn-IsSound (Reach-IsSound r) dropped conn e in
    unfold count in ground (arith, after.one_holder conn)

put_to-ok :
    (q : Option Queue) (item : Option ℕ) (p : Pool)
    → ((q' : Queue) → q ≡ some q' → is_full p q' ≡ false)
    → (put_to q item p).0 ≡ ok tt
put_to-ok none item p room = refl
put_to-ok (some q) item p room = rw (room q refl) refl

-- In blocking mode with a `maxsize`, a client that gives back what it took, or an empty slot in its
-- place, as all clients do, never meets a `FullPoolError`.
pub put_conn-ok :
    {maxsize : ℕ} {w : World} (conn : ℕ)
    → 1 ≤ maxsize
    → Reach maxsize true w
    → 1 ≤ count conn w.leased
    → ((put_conn (some conn) w.pool).0 ≡ ok tt)
      × ((put_conn none (close_conn (some conn) w.pool)).0 ≡ ok tt)
unfolding put_conn close_conn
put_conn-ok {w = w} conn k r mine =
    let room : (q : Queue) → w.pool.queue ≡ some q → is_full w.pool q ≡ false =
      λ q h. has_room (Reach-IsSound r) conn mine q h refl k in
    (put_to-ok w.pool.queue (some conn) w.pool room, put_to-ok w.pool.queue none _ room)

abbrev pub Available : (ℕ → Bool) → ℕ → World → Type 0
Available dropped maxsize w =
    ((length w.leased < maxsize) × ((conn : ℕ) × ((get_conn dropped w.pool).0 ≡ ok conn)))
    ⊎ ((length w.leased ≡ maxsize)
        × (get_conn dropped w.pool ≡ (raises (plain empty_pool_error), w.pool)))

-- An open pool in blocking mode with a `maxsize`, which clients share and give back only what they
-- took or an empty slot in its place, hands out a connection exactly while fewer than `maxsize` are
-- leased; when all are, it raises an `EmptyPoolError` and is left as it was.
pub get_conn-Available :
    {maxsize : ℕ} {w : World} (dropped : ℕ → Bool) (q : Queue)
    → 1 ≤ maxsize
    → Reach maxsize true w
    → w.pool.queue ≡ some q
    → Available dropped maxsize w
unfolding get_conn
get_conn-Available {maxsize} {w} dropped [] k r h =
    let s = Reach-IsSound r in
    let fit : Fits maxsize true (some []) w.leased =
      subst (λ q. Fits maxsize true q w.leased) h s.fits in
    inr (ground (arith, fit.1 refl k), rw (h, s.mode) refl)
get_conn-Available {maxsize} {w} dropped (item ∷ rest) k r h =
    let s = Reach-IsSound r in
    let fit : Fits maxsize true (some (item ∷ rest)) w.leased =
      subst (λ q. Fits maxsize true q w.leased) h s.fits in
    inl (ground (arith, fit.1 refl k), (_, ap (λ q. (get_from dropped q w.pool).0) h))

-- In a closed pool, to which clients give back only what they took or an empty slot in its place, no
-- connection is left behind: each one that was ever made is with a client or was closed. A new request is refused with a `ClosedPoolError`, and what is given back is closed.
pub closed_pool-kept :
    {maxsize : ℕ} {block : Bool} {w : World} (dropped : ℕ → Bool)
    → Reach maxsize block w
    → w.pool.queue ≡ none
    → ((c : ℕ) → 1 ≤ c → c ≤ w.pool.num_connections → 1 ≤ count c w.leased + count c w.pool.closes)
      × (get_conn dropped w.pool ≡ (raises (plain closed_pool_error), w.pool))
      × ((conn : ℕ) → put_conn (some conn) w.pool ≡ (ok tt, close_conn (some conn) w.pool))
unfolding get_conn put_conn
closed_pool-kept {w} dropped r h = (
  λ c a b.
      unfold pooled drain count in ground (arith, (Reach-IsSound r).kept c a b, ap (pooled c) h),
  ap (λ q. get_from dropped q w.pool) h,
  λ conn. ap (λ q. put_to q (some conn) w.pool) h,
)

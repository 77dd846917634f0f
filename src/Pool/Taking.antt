-- ===== src/Pool/Taking.antt =====
-- Taking a connection keeps the invariant of a shared pool, whichever slot it comes from.
use urllib.Prelude.{
  ℕ, ◌+◌, ◌≤◌, Bool, true, false, Option, none, some, [], ◌∷◌, ◌≡◌, refl, arith, ap, ◌∙◌, subst,
  sym, if◌then◌else◌, ◌=ℕ◌,
}
use urllib.Exceptions.{Outcome, ok, raises, plain, empty_pool_error}
use urllib.Pool.{
  Pool, succeeds, Queue, init, get_from, get_conn, close_conn, drain, refresh, new_conn,
}
use urllib.Pool.Slots.{count, pooled, count-append, drain-fill, length-fill}
use urllib.Pool.Leases.{World, Fits, held, IsSound}

pub init-IsSound :
    (maxsize : ℕ) (block : Bool)
    → IsSound maxsize block (record { pool = init maxsize block; leased = [] })
unfolding init pooled count
init-IsSound maxsize block = record {
  capacity = refl;
  mode = refl;
  fits = (λ h. ground (arith, length-fill maxsize), λ h k. ground (arith, length-fill maxsize));
  one_holder = λ c. rw (drain-fill maxsize) (ground arith);
  numbered = λ c h. rw (drain-fill maxsize) (ground arith);
  kept = λ c h k. ground arith;
}

abbrev given : ℕ → Outcome ℕ → ℕ
given other (ok conn) = conn
given other (raises e) = other

-- What a step must account for: who has each connection before and after it, and what is closed.
pub IsSound-step :
    {maxsize : ℕ} {block : Bool} {w v : World}
    → IsSound maxsize block w
    → v.pool.maxsize ≡ w.pool.maxsize
    → v.pool.block ≡ w.pool.block
    → Fits maxsize block v.pool.queue v.leased
    → v.pool.num_connections ≡ w.pool.num_connections
    → ((c : ℕ)
        → (held c v ≤ held c w)
          × (held c w + count c w.pool.closes ≤ held c v + count c v.pool.closes))
    → IsSound maxsize block v
IsSound-step s m b fit n same = record {
  capacity = m ∙ s.capacity;
  mode = b ∙ s.mode;
  fits = fit;
  one_holder = λ c. ground (arith, same c, s.one_holder c);
  numbered = λ c h. ground (arith, same c, s.numbered c);
  kept = λ c h k. ground (arith, same c, s.kept c);
}

-- A new connection has a number that no other has.
IsSound-fresh :
    {maxsize : ℕ} {block : Bool} {w v : World}
    → IsSound maxsize block w
    → v.pool.maxsize ≡ w.pool.maxsize
    → v.pool.block ≡ w.pool.block
    → Fits maxsize block v.pool.queue v.leased
    → v.pool.num_connections ≡ w.pool.num_connections + 1
    → v.pool.closes ≡ w.pool.closes
    → ((c : ℕ) → held c v ≡ (if c =ℕ (w.pool.num_connections + 1) then 1 else 0) + held c w)
    → IsSound maxsize block v
IsSound-fresh s m b fit n q same = record {
  capacity = m ∙ s.capacity;
  mode = b ∙ s.mode;
  fits = fit;
  one_holder = λ c. ground (arith, same c, s.one_holder c, s.numbered c);
  numbered = λ c h. ground (arith, same c, s.numbered c);
  kept = λ c h k. rw q (ground (arith, same c, s.kept c));
}

module _ {maxsize : ℕ} {block : Bool} {w : World} (s : IsSound maxsize block w) where
  empty_slot-IsSound :
      (rest : Queue)
      → w.pool.queue ≡ some (none ∷ rest)
      → IsSound maxsize block (record {
        pool = (new_conn (record w.pool { queue = some rest })).1;
        leased = (w.pool.num_connections + 1) ∷ w.leased;
      })
  unfolding new_conn
  empty_slot-IsSound rest h =
      let fit : Fits maxsize block (some (none ∷ rest)) w.leased =
        subst (λ q. Fits maxsize block q w.leased) h s.fits in
      IsSound-fresh s refl refl (λ k. ground (arith, fit.0 k), λ b k. ground (arith, fit.1 b k))
        refl refl (λ c. unfold pooled count drain in rw h ground arith)

  -- Beyond the capacity: only in a pool that does not block, or has none.
  extra-IsSound :
      w.pool.queue ≡ some []
      → w.pool.block ≡ false
      → IsSound maxsize block
          (record { pool = (new_conn w.pool).1; leased = (w.pool.num_connections + 1) ∷ w.leased })
  unfolding new_conn
  extra-IsSound h n =
      let off : block ≡ false = sym s.mode ∙ n in
      IsSound-fresh s refl refl (rw h (λ k. ground arith, λ b k. ground arith)) refl refl
        (λ c. unfold pooled count drain in rw h ground arith)

  full_slot-Fits :
      (x : ℕ) (rest : Queue)
      → w.pool.queue ≡ some (some x ∷ rest)
      → Fits maxsize block (some rest) (x ∷ w.leased)
  full_slot-Fits x rest h =
      let fit : Fits maxsize block (some (some x ∷ rest)) w.leased =
        subst (λ q. Fits maxsize block q w.leased) h s.fits in
      (λ k. ground (arith, fit.0 k), λ b k. ground (arith, fit.1 b k))

  full_slot-IsSound :
      (b : Bool) (x : ℕ) (rest : Queue)
      → w.pool.queue ≡ some (some x ∷ rest)
      → IsSound maxsize block (record {
        pool =
            if b
            then close_conn (some x) (record w.pool { queue = some rest })
            else record w.pool { queue = some rest };
        leased = x ∷ w.leased;
      })
  unfolding close_conn
  full_slot-IsSound true x rest h = IsSound-step s refl refl (full_slot-Fits x rest h) refl (λ c.
      unfold pooled count drain in
      rw h (ground arith, rw (count-append c w.pool.closes (x ∷ [])) ground arith))
  full_slot-IsSound false x rest h =
      IsSound-step s refl refl (full_slot-Fits x rest h) refl
        (λ c. unfold pooled count drain in rw h (ground arith, ground arith))

  renamed :
      {x conn : ℕ} (p : Pool)
      → IsSound maxsize block (record { pool = p; leased = x ∷ w.leased })
      → ok x ≡ ok conn
      → IsSound maxsize block (record { pool = p; leased = conn ∷ w.leased })
  renamed {x} {conn} p t e =
      subst (λ c. IsSound maxsize block (record { pool = p; leased = c ∷ w.leased }))
        (ap (given x) e) t

  empty_queue-IsSound :
      (b : Bool) (conn : ℕ)
      → w.pool.queue ≡ some []
      → w.pool.block ≡ b
      → (if b then (raises (plain empty_pool_error), w.pool) else succeeds (new_conn w.pool)).0
        ≡ ok conn
      → IsSound maxsize block (record {
        pool =
            (if b then (raises (plain empty_pool_error), w.pool) else succeeds (new_conn w.pool)).1;
        leased = conn ∷ w.leased;
      })
  empty_queue-IsSound true conn h n e = ground arith
  empty_queue-IsSound false conn h n e =
      unfold new_conn in renamed (new_conn w.pool).1 (extra-IsSound h n) e

  get_from-IsSound :
      (dropped : ℕ → Bool) (q : Option Queue) (conn : ℕ)
      → w.pool.queue ≡ q
      → (get_from dropped q w.pool).0 ≡ ok conn
      → IsSound maxsize block
          (record { pool = (get_from dropped q w.pool).1; leased = conn ∷ w.leased })
  unfolding refresh
  get_from-IsSound dropped none conn h e = ground arith
  get_from-IsSound dropped (some []) conn h e = empty_queue-IsSound w.pool.block conn h refl e
  get_from-IsSound dropped (some (none ∷ rest)) conn h e =
      renamed (new_conn (record w.pool { queue = some rest })).1 (empty_slot-IsSound rest h) e
  get_from-IsSound dropped (some (some x ∷ rest)) conn h e =
      renamed (refresh dropped (some x) (record w.pool { queue = some rest })).1
        (full_slot-IsSound (dropped x) x rest h) e

  pub get_conn-IsSound :
      (dropped : ℕ → Bool) (conn : ℕ)
      → (get_conn dropped w.pool).0 ≡ ok conn
      → IsSound maxsize block
          (record { pool = (get_conn dropped w.pool).1; leased = conn ∷ w.leased })
  unfolding get_conn
  get_conn-IsSound dropped conn e = get_from-IsSound dropped w.pool.queue conn refl e

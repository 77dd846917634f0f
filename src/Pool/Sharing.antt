-- ===== src/Pool/Sharing.antt =====
-- The invariant of a shared pool is kept by every step, and what follows for the clients.
use urllib.Prelude.{
  ℕ, ◌+◌, ◌≤◌, Bool, true, false, Option, none, some, List, [], ◌∷◌, ◌++◌, ◌≡◌, refl, arith, ◌∙◌,
  subst, if◌then◌else◌, ◌=ℕ◌,
}
use urllib.Pool.{Done, Queue, put_conn, put_to, is_full, close_conn, close, close_all, drain}
use urllib.Pool.Slots.{
  count, drop_one, slots, pooled, count-append, count-drop_one, length-drop_one,
}
use urllib.Pool.Leases.{
  World, Step, gets, puts, discards, closes, Reach, start, later, Fits, IsSound,
}
use urllib.Pool.Taking.{init-IsSound, IsSound-step, get_conn-IsSound}

module _ {maxsize : ℕ} {block : Bool} {w : World} (s : IsSound maxsize block w) where
  close-IsSound :
      (q : Option Queue)
      → w.pool.queue ≡ q
      → IsSound maxsize block (record w { pool = close_all q w.pool })
  close-IsSound none h = s
  close-IsSound (some q) h = IsSound-step s refl refl tt refl (λ c.
      unfold pooled count drain in
      rw (count-append c w.pool.closes (drain q)) (rw h (ground arith, ground arith)))

  module _ (conn : ℕ) (mine : 1 ≤ count conn w.leased) where
    -- A lease ends; the connection is in the queue or closed, or both.
    give_back :
        (q : Option Queue) (cl : List ℕ)
        → Fits maxsize block q (drop_one conn w.leased)
        → ((c : ℕ) → pooled c q ≤ (if c =ℕ conn then 1 else 0) + pooled c w.pool.queue)
        → ((c : ℕ)
            → (if c =ℕ conn then 1 else 0) + pooled c w.pool.queue + count c w.pool.closes
              ≤ pooled c q + count c cl)
        → IsSound maxsize block (record {
          pool = record w.pool { queue = q; closes = cl };
          leased = drop_one conn w.leased;
        })
    give_back q cl fit less more = IsSound-step s refl refl fit refl (λ c. (
      ground (arith, less c, count-drop_one conn c w.leased mine),
      ground (arith, more c, count-drop_one conn c w.leased mine),
    ))

    here-Fits : (q : Queue) → w.pool.queue ≡ some q → Fits maxsize block (some q) w.leased
    here-Fits q h = subst (λ q. Fits maxsize block q w.leased) h s.fits

    -- There is room in blocking mode, since the lease's slot is free.
    pub has_room :
        (q : Queue) → w.pool.queue ≡ some q → block ≡ true → 1 ≤ maxsize → is_full w.pool q ≡ false
    has_room q h b k =
        ground (arith, s.capacity, (here-Fits q h).1 b k, length-drop_one conn w.leased mine)

    stored-Fits :
        (item : Option ℕ) (q : Queue)
        → w.pool.queue ≡ some q
        → is_full w.pool q ≡ false
        → Fits maxsize block (some (item ∷ q)) (drop_one conn w.leased)
    stored-Fits item q h room = (
      λ k. ground (arith, s.capacity),
      λ b k. ground (arith, (here-Fits q h).1 b k, length-drop_one conn w.leased mine),
    )

    full-Fits :
        (q : Queue)
        → w.pool.queue ≡ some q
        → is_full w.pool q ≡ true
        → Fits maxsize block w.pool.queue (drop_one conn w.leased)
    full-Fits q h full = rw h ((here-Fits q h).0, λ b k. ground (arith, has_room q h b k))

    shut-Fits : w.pool.queue ≡ none → Fits maxsize block w.pool.queue (drop_one conn w.leased)
    shut-Fits h = rw h tt

    -- One close of the connection, or two, account for it.
    once :
        (c : ℕ)
        → count c (w.pool.closes ++ conn ∷ [])
          ≡ count c w.pool.closes + (if c =ℕ conn then 1 else 0)
    once c = count-append c w.pool.closes (conn ∷ []) ∙ (unfold count in ground arith)

    twice :
        (c : ℕ)
        → count c ((w.pool.closes ++ conn ∷ []) ++ conn ∷ [])
          ≡ count c (w.pool.closes ++ conn ∷ []) + (if c =ℕ conn then 1 else 0)
    twice c =
        count-append c (w.pool.closes ++ conn ∷ []) (conn ∷ []) ∙ (unfold count in ground arith)

    -- The queue is as it was.
    left_out :
        (cl : List ℕ)
        → Fits maxsize block w.pool.queue (drop_one conn w.leased)
        → ((c : ℕ) → (if c =ℕ conn then 1 else 0) + count c w.pool.closes ≤ count c cl)
        → IsSound maxsize block
            (record { pool = record w.pool { closes = cl }; leased = drop_one conn w.leased })
    left_out cl fit more =
        give_back w.pool.queue cl fit (λ c. ground arith) (λ c. ground (arith, more c))

    either_way :
        (on : Bool) (x y : Done)
        → IsSound maxsize block (record { pool = x.1; leased = drop_one conn w.leased })
        → IsSound maxsize block (record { pool = y.1; leased = drop_one conn w.leased })
        → IsSound maxsize block
            (record { pool = (if on then x else y).1; leased = drop_one conn w.leased })
    either_way true x y p q = p
    either_way false x y p q = q

    put_to-IsSound :
        (q : Option Queue) (full : Bool)
        → w.pool.queue ≡ q
        → is_full w.pool (slots q) ≡ full
        → IsSound maxsize block
            (record { pool = (put_to q (some conn) w.pool).1; leased = drop_one conn w.leased })
    unfolding close_conn
    put_to-IsSound none full h f = left_out _ (shut-Fits h) (λ c. ground (arith, once c))
    put_to-IsSound (some q) true h f = rw f (
        either_way w.pool.block _ _ (left_out _ (full-Fits q h f) (λ c. ground (arith, once c)))
          (left_out _ (full-Fits q h f) (λ c. ground (arith, once c, twice c))))
    put_to-IsSound (some q) false h f = rw f (
        give_back (some (some conn ∷ q)) w.pool.closes (stored-Fits (some conn) q h f)
          (λ c. unfold pooled count drain in rw h ground arith)
          (λ c. unfold pooled count drain in rw h ground arith))

    discard_to-IsSound :
        (q : Option Queue) (full : Bool)
        → w.pool.queue ≡ q
        → is_full w.pool (slots q) ≡ full
        → IsSound maxsize block (record {
          pool = (put_to q none (close_conn (some conn) w.pool)).1;
          leased = drop_one conn w.leased;
        })
    unfolding close_conn
    discard_to-IsSound none full h f = left_out _ (shut-Fits h) (λ c. ground (arith, once c))
    discard_to-IsSound (some q) true h f = rw f (
        either_way w.pool.block _ _ (left_out _ (full-Fits q h f) (λ c. ground (arith, once c)))
          (left_out _ (full-Fits q h f) (λ c. ground (arith, once c))))
    discard_to-IsSound (some q) false h f = rw f (
        give_back (some (none ∷ q)) (w.pool.closes ++ conn ∷ []) (stored-Fits none q h f)
          (λ c. unfold pooled count drain in rw h ground arith)
          (λ c. unfold pooled count drain in rw h ground (arith, once c)))

Step-IsSound :
    {maxsize : ℕ} {block : Bool} {w v : World}
    → IsSound maxsize block w
    → Step w v
    → IsSound maxsize block v
unfolding put_conn close
Step-IsSound s (gets dropped w conn e) = get_conn-IsSound s dropped conn e
Step-IsSound s (puts w conn mine) = put_to-IsSound s conn mine w.pool.queue _ refl refl
Step-IsSound s (discards w conn mine) =
    unfold close_conn in discard_to-IsSound s conn mine w.pool.queue _ refl refl
Step-IsSound s (closes w) = close-IsSound s w.pool.queue refl

-- However clients share a pool, each giving back only what it took or an empty slot in its place:
-- while the pool is open its queue keeps to `maxsize`, if that is not 0, and a blocking pool with a
-- `maxsize` has exactly that many slots in the queue and leases together; no connection is at two
-- places of the queue and the leases; none that was made is lost, that is, neither of them has it nor
-- was it closed.
pub Reach-IsSound :
    {maxsize : ℕ} {block : Bool} {w : World} → Reach maxsize block w → IsSound maxsize block w
Reach-IsSound {maxsize} {block} start = init-IsSound maxsize block
Reach-IsSound (later r step) = Step-IsSound (Reach-IsSound r) step

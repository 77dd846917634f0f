-- ===== src/Response/Chunked/Closing.antt =====
-- What `read_chunked` does with the connection of the response.
use urllib.Prelude.{
  ℕ, zero, suc, Bool, not, true, false, ◌||◌, Option, none, some, [], ◌≡◌, refl, ◌∙◌, sym, subst,
  arith, Bool-cases, ◌⊎◌, inl, inr, if◌then◌else◌,
}
use urllib.Prelude.Int.{ℤ, pos, negsuc}
use urllib.Exceptions.{ok, raises, plain, response_not_chunked, body_not_httplib_compatible}
use urllib.Response.Stream.{Stream, Coding, leave, release_conn}
use urllib.Response.Chunked.{Run, read_amount, leaving, guarded, read_chunked}
use urllib.Response.Chunked.Ends.{Ended, loop-Ended}

module _ {D : Type 0} where
  abbrev pub Closes : Stream D → Option (Run D) → Type 0
  Closes s none = Unit
  Closes s (some (pieces, (raises e, t))) =
      (t.is_open ≡ false)
      × (t.has_connection ≡ false)
      × (s.has_connection ≡ true → t.conn_closed ≡ true)
  Closes s (some (pieces, (ok u, t))) =
      (t.conn_closed ≡ s.conn_closed)
      × ((t ≡ s) ⊎ ((t.is_open ≡ false) × (t.has_connection ≡ false)))

  leaving-Closes : (s : Stream D) (r : Option (Run D)) → Ended s r → Closes s (leaving r)
  unfolding leave
  leaving-Closes s none h = tt
  leaving-Closes s (some (pieces, (raises e, t))) h = (refl, refl, λ held. closed t (h ∙ held))
    where
      closed : (t : Stream D) → t.has_connection ≡ true → (t.conn_closed || t.has_connection) ≡ true
      closed t h = ground (arith, h)
  leaving-Closes s (some (pieces, (ok u, t))) h =
      subst (λ b. Closes s (some (pieces, (ok u, if b then t else release_conn t)))) (sym h.2)
        (h.1, inr (h.2, refl))

  -- Where nothing is read.
  untouched : (s : Stream D) → Closes s (leaving (some ([], (ok tt, s))))
  unfolding leave
  untouched s = elim (Bool-cases s.is_open) [
    | inl still ↦
        subst (λ b. Closes s (some ([], (ok tt, if b then s else release_conn s)))) (sym still)
          (refl, inl refl)
    | inr shut ↦
        subst (λ b. Closes s (some ([], (ok tt, if b then s else release_conn s)))) (sym shut)
          (refl, inr (shut, refl))
  ]

  amount-Closes :
      (c : Coding D) (amt : Option ℤ) (d : Bool) (n : ℕ) (s : Stream D)
      → Closes s (leaving (read_amount c amt d n s))
  amount-Closes c none d n s = leaving-Closes s _ (loop-Ended c none tt d n s)
  amount-Closes c (some (pos zero)) d n s = untouched s
  amount-Closes c (some (pos (suc k))) d n s =
      leaving-Closes s _ (loop-Ended c (some (suc k)) (omega arith) d n s)
  amount-Closes c (some (negsuc k)) d n s = leaving-Closes s _ (loop-Ended c none tt d n s)

  guarded-Closes :
      (c : Coding D) (amt : Option ℤ) (d : Bool) (n : ℕ) (s : Stream D)
      → Closes s (leaving (guarded c amt d n s))
  unfolding leave
  guarded-Closes c amt d n s = by_head s.is_head
    where
      by_open :
          (b : Bool)
          → Closes s (leaving (if b then read_amount c amt d n s else some ([], (ok tt, s))))
      by_open true = amount-Closes c amt d n s
      by_open false = untouched s

      by_head :
          (b : Bool)
          → Closes s (
              leaving (
                if b
                then some ([], (ok tt, record s { is_open = false }))
                else if s.is_open
                then read_amount c amt d n s
                else some ([], (ok tt, s))))
      by_head true = (refl, inr (refl, refl))
      by_head false = by_open s.is_open

  -- Whatever comes from the connection and whatever the decoder does, `read_chunked` of a response in
  -- chunks that ends with an error has closed the response, and the connection too if it had one, and has
  -- let go of it; without an error it has not closed the connection, and it has either left all as it was
  -- or closed the response and let go of the connection.
  pub read_chunked-Closes :
      (c : Coding D) (amt : Option ℤ) (d : Bool) (n : ℕ) (s : Stream D)
      → s.chunked ≡ true
      → s.has_fp ≡ true
      → Closes s (read_chunked c amt d n s)
  unfolding read_chunked
  read_chunked-Closes c amt d n s chunked fp =
      subst (λ b. Closes s (read_if b s.has_fp)) (sym chunked)
        (subst (λ b. Closes s (read_if true b)) (sym fp) (guarded-Closes c amt d n s))
    where
      read_if : Bool → Bool → Option (Run D)
      read_if chunked fp =
          if not chunked
          then some ([], (raises (plain response_not_chunked), s))
          else if not fp
          then some ([], (raises (plain body_not_httplib_compatible), s))
          else leaving (guarded c amt d n s)

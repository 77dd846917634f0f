-- ===== src/Response/Chunked/Roundtrip.antt =====
-- A body that a connection sends in chunks, read by a response.
use urllib.Prelude.{
  ℕ, zero, suc, ◌<◌, Bool, true, false, Option, none, some, List, ◌++◌, length, concat, ◌≡◌, ◌≢◌,
  refl, ap, arith,
}
use urllib.Prelude.Int.{ℤ, pos, negsuc}
use urllib.Exceptions.{Error, ok}
use urllib.Response.Buffer.{Bytes}
use urllib.Response.Stream.{Stream, Coding, leave}
use urllib.Response.Chunked.{Run, read_amount, read_chunked, leaving}
use urllib.Response.Chunked.Framed.{receiving}
use urllib.Response.Chunked.Reading.{IsLimit, at_end, Reads}
use urllib.Response.Chunked.Content.{body_Gives}
use urllib.Connection.{body_sends}

module _ {D : Type 0} (c : Coding D) (e : Option Error) (conn closed : Bool) (d : Bool)
    (extra : Bytes) where
  -- The end of the body is read, the response is closed, and the connection is given back as it was.
  abbrev pub at_end_released : Stream D
  at_end_released = record (at_end c e conn closed d extra) { has_connection = false }

  abbrev pub Delivers : Option (Run D) → Bytes → Type 0
  Delivers r content =
      (pieces : List Bytes) × (r ≡ some (pieces, (ok tt, at_end_released)))
      × (concat pieces ≡ content)

  amount_Reads :
      (amt : Option ℤ) (fuel : ℕ) (s : Stream D) (content : Bytes)
      → amt ≢ some (pos 0)
      → ((limit : Option ℕ) → IsLimit limit → Reads c e conn closed d extra limit fuel s content)
      → Delivers (leaving (read_amount c amt d fuel s)) content
  unfolding leave
  amount_Reads none fuel s content some_bytes reads =
      let (pieces, q, r) = reads none tt in (pieces, ap leaving q, r)
  amount_Reads (some (pos zero)) fuel s content some_bytes reads = absurd (some_bytes refl)
  amount_Reads (some (pos (suc n))) fuel s content some_bytes reads =
      let (pieces, q, r) = reads (some (suc n)) (omega arith) in (pieces, ap leaving q, r)
  amount_Reads (some (negsuc n)) fuel s content some_bytes reads =
      let (pieces, q, r) = reads none tt in (pieces, ap leaving q, r)

  -- A body sent in chunks, with any bytes after it, is read back by `read_chunked`, for any amount but
  -- 0, if the response has no decoder: with more fuel than there are bytes it ends without an error, its
  -- pieces together are the body, what came after the body is left, and the connection is given back
  -- and has not been closed.
  pub read_chunked-body_sends :
      (amt : Option ℤ) (chunks : List Bytes) (fuel : ℕ)
      → amt ≢ some (pos 0)
      → length (concat (body_sends true (some chunks)) ++ extra) < fuel
      → Delivers
          (read_chunked c amt d fuel
            (receiving e conn closed none (concat (body_sends true (some chunks)) ++ extra)))
          (concat chunks)
  unfolding read_chunked
  read_chunked-body_sends amt chunks fuel some_bytes enough =
      amount_Reads amt fuel
        (receiving e conn closed none (concat (body_sends true (some chunks)) ++ extra))
        (concat chunks) some_bytes
        (λ limit h. body_Gives c e conn closed d extra limit h chunks fuel enough)

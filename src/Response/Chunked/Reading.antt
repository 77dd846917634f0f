-- ===== src/Response/Chunked/Reading.antt =====
-- The loop of `read_chunked` on a body in chunks.
use urllib.Prelude.{
  ℕ, suc, ◌+◌, ◌-◌, ◌≤◌, ◌<◌, Bool, true, false, Option, none, some, List, [], ◌∷◌, ◌++◌, length,
  take, drop, concat, leb, ◌≡◌, refl, ap, ◌∙◌, sym, subst, arith, length-append, Bool-cases, inl,
  inr, if◌then◌else◌, or_else,
}
use urllib.Prelude.Int.{ℤ, pos, negsuc, ◌-ℤ◌, ltb_ℤ}
use urllib.Prelude.Hex.{hex}
use urllib.Exceptions.{Error, ok, raises, plain, python_incomplete_read}
use urllib.Response.Buffer.{Bytes}
use urllib.Response.Buffer.Flat.{take-within, drop-within}
use urllib.Response.Stream.{Stream, Coding, then_read, safe_read, decode, has_tail}
use urllib.Response.Chunked.{
  update_chunk_length, handle_chunk, whole_chunk, part_chunk, chunk_of, next_chunk, yielded,
  max_length, yields, before, turn, read_loop,
}
use urllib.Response.Chunked.Framed.{receiving, then_read-ok, update-frame, whole-frame}
use urllib.Connection.{crlf}

-- No limit, or one of at least a byte.
abbrev pub IsLimit : Option ℕ → Type 0
IsLimit none = Unit
IsLimit (some a) = 1 ≤ a

concat-yielded :
    (piece : Bytes) (more : List Bytes) → concat (yielded piece more) ≡ piece ++ concat more
concat-yielded [] more = refl
concat-yielded (b ∷ piece) more = refl

minus_pos : (m a : ℕ) → a ≤ m → pos m -ℤ pos a ≡ pos (m - a)
unfolding ◌-ℤ◌
minus_pos m a h =
    let fits : leb (0 + a) (m + 0) ≡ true = ground arith in
    ap (λ b. if b then pos (m + 0 - (0 + a)) else negsuc (0 + a - (m + 0) - 1)) fits
    ∙ ap pos (omega arith)

module _ {D : Type 0} (c : Coding D) (e : Option Error) (conn closed : Bool) (d : Bool)
    (extra : Bytes) where
  abbrev pub rx : Option ℤ → Bytes → Stream D
  rx left bytes = receiving e conn closed left bytes

  -- The state after the last chunk.
  abbrev pub at_end : Stream D
  at_end = record (receiving e conn closed (some (pos 0)) extra) { is_open = false }

  -- With more fuel than there are bytes, the loop yields the content in pieces and comes to the end.
  abbrev pub Reads : Option ℕ → ℕ → Stream D → Bytes → Type 0
  Reads amt fuel s content =
      (pieces : List Bytes) × (read_loop c amt d fuel s ≡ some (pieces, (ok tt, at_end)))
      × (concat pieces ≡ content)

  abbrev pub Good : Option ℕ → Stream D → Bytes → Type 0
  Good amt s content = (fuel : ℕ) → length s.rest < fuel → Reads amt fuel s content

  decode-receiving :
      (chunk : Bytes) (n : ℤ) (left : Option ℤ) (more : Bytes)
      → decode c chunk d n (rx left more) ≡ (ok chunk, rx left more)
  unfolding decode
  decode-receiving chunk n left more = elim (Bool-cases d) [ inl h ↦ rw h refl | inr h ↦ rw h refl ]

  -- A turn that gets a piece.
  pub turn-Reads :
      (amt : Option ℕ) (fuel : ℕ) (s : Stream D) (chunk : Bytes) (left : Option ℤ)
      (more content : Bytes)
      → next_chunk c amt d s ≡ (ok (some chunk), rx left more)
      → Reads amt fuel (rx left more) content
      → Reads amt (suc fuel) s (chunk ++ content)
  unfolding read_loop
  turn-Reads amt fuel s chunk left more content h (pieces, q, r) = (
    yielded chunk pieces,
    ap (turn c amt d (read_loop c amt d fuel) fuel) h
        ∙ ap (yields c amt d (read_loop c amt d fuel))
            (decode-receiving chunk (max_length c amt d amt) left more)
        ∙ ap (before chunk) q,
    concat-yielded chunk pieces ∙ ap (λ k. chunk ++ k) r,
  )

  safe_read-part :
      (a : ℕ) (left : Option ℤ) (bytes : Bytes)
      → leb a (length bytes) ≡ true
      → safe_read (pos a) (rx left bytes) ≡ (ok (take a bytes), rx left (drop a bytes))
  unfolding safe_read
  safe_read-part a left bytes h =
      ap
        (λ b.
          if b
          then (ok (take a bytes), rx left (drop a bytes))
          else (raises (or_else (plain python_incomplete_read) e), rx left []))
        h

  next-update :
      (amt : Option ℕ) (n : ℕ) (s t : Stream D)
      → has_tail c s ≡ false
      → update_chunk_length s ≡ (ok (pos (suc n)), t)
      → next_chunk c amt d s
        ≡ then_read (handle_chunk amt (pos (suc n)) t) (λ chunk s. (ok (some chunk), s))
  unfolding next_chunk
  next-update amt n s t tail h = rw tail (ap (chunk_of c amt d) h)

  pub next-frame :
      (amt : Option ℕ) (n : ℕ) (more : Bytes)
      → next_chunk c amt d (rx none (hex (suc n) ++ crlf ++ more))
        ≡ next_chunk c amt d (rx (some (pos (suc n))) more)
  unfolding update_chunk_length
  next-frame amt n more =
      next-update amt n (rx none (hex (suc n) ++ crlf ++ more)) (rx (some (pos (suc n))) more) refl
        (update-frame e conn closed (suc n) more)
      ∙ sym (
          next-update amt n (rx (some (pos (suc n))) more) (rx (some (pos (suc n))) more) refl refl)

  module _ (amt : Option ℕ) (n : ℕ) (chunk more : Bytes) (same : length chunk ≡ suc n) where
    abbrev pub inside : Stream D
    inside = rx (some (pos (suc n))) (chunk ++ (crlf ++ more))

    handle-part :
        (a : ℕ)
        → a < suc n
        → handle_chunk (some a) (pos (suc n)) inside
          ≡ (ok (take a chunk), rx (some (pos (suc n - a))) (drop a chunk ++ (crlf ++ more)))
    unfolding handle_chunk
    handle-part a less =
        let enough : a < length chunk = omega (arith, same, less) in
        let short : ltb_ℤ (pos a) (pos (suc n)) ≡ true = ground arith in
        ap (λ b. if b then part_chunk a (pos (suc n)) inside else whole_chunk (pos (suc n)) inside)
          short
        ∙ then_read-ok e conn closed _
            (λ value s. (ok value, record s { chunk_left = some (pos (suc n) -ℤ pos a) }))
            (take a (chunk ++ (crlf ++ more)))
            (rx (some (pos (suc n))) (drop a (chunk ++ (crlf ++ more))))
            (safe_read-part a (some (pos (suc n))) (chunk ++ (crlf ++ more))
              (ground (arith, length-append chunk (crlf ++ more))))
        ∙ rw
            (
              minus_pos (suc n) a (omega (arith, less)),
              take-within a chunk (crlf ++ more) enough,
              drop-within a chunk (crlf ++ more) enough,
            )
            refl

    -- The chunk is read to its end, or the first `a` bytes of it are.
    pub next-whole :
        handle_chunk amt (pos (suc n)) inside ≡ whole_chunk (pos (suc n)) inside
        → next_chunk c amt d inside ≡ (ok (some chunk), rx none more)
    unfolding update_chunk_length
    next-whole h =
        next-update amt n inside inside refl refl
        ∙ ap (λ r. then_read r (λ chunk s. (ok (some chunk), s))) h
        ∙ then_read-ok e conn closed _ (λ chunk s. (ok (some chunk), s)) chunk (rx none more)
            (subst
              (λ k.
                whole_chunk (pos k) (rx (some (pos (suc n))) (chunk ++ (crlf ++ more)))
                ≡ (ok chunk, rx none more))
              same (whole-frame e conn closed (some (pos (suc n))) chunk more))

    pub next-part :
        (a : ℕ)
        → a < suc n
        → amt ≡ some a
        → next_chunk c amt d inside
          ≡ (ok (some (take a chunk)), rx (some (pos (suc n - a))) (drop a chunk ++ (crlf ++ more)))
    unfolding update_chunk_length
    next-part a less h =
        next-update amt n inside inside refl refl
        ∙ ap (λ r. then_read r (λ chunk s. (ok (some chunk), s)))
            (ap (λ o. handle_chunk o (pos (suc n)) inside) h ∙ handle-part a less)

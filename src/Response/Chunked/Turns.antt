-- ===== src/Response/Chunked/Turns.antt =====
-- A turn of the loop of `read_chunked`, and what comes after the last chunk.
use urllib.Prelude.{
  ℕ, zero, suc, Bool, true, false, Option, none, some, [], ◌≡◌, refl, sym, subst, arith, Bool-cases,
  Option-cases, inl, inr, if◌then◌else◌,
}
use urllib.Prelude.Int.{ℤ, pos, negsuc}
use urllib.Exceptions.{Outcome, ok, raises, plain, runtime_error}
use urllib.Response.Buffer.{Bytes}
use urllib.Response.Stream.{
  Stream, Coding, Result, then_read, decode, decode_with, decompressed, flush_decoder, flush_with,
  flushed, drained, has_tail,
}
use urllib.Response.Chunked.{update_chunk_length, handle_chunk, chunk_of, next_chunk}
use urllib.Response.Chunked.Reading.{IsLimit}
use urllib.Response.Chunked.Moves.{
  Moves, Moves-on, fewer, then_read-Moves, update-unknown, update-known, handle-Moves,
}

module _ {D : Type 0} where
  -- At least `k` bytes for a chunk.
  abbrev pub MovesNext : ℕ → Stream D → Result D (Option Bytes) → Type 0
  MovesNext k s (raises e, t) = Moves {A = Option Bytes} 0 s (raises e, t)
  MovesNext k s (ok none, t) = Moves {A = Option Bytes} 0 s (ok none, t)
  MovesNext k s (ok (some chunk), t) = Moves {A = Option Bytes} k s (ok (some chunk), t)

  next_on : (k : ℕ) (s : Stream D) (r : Result D (Option Bytes)) → Moves k s r → MovesNext k s r
  next_on k s (raises e, t) m = m
  next_on k s (ok none, t) m = (m.0, m.1, omega (arith, m.2))
  next_on k s (ok (some chunk), t) m = m

  module _ (c : Coding D) (amt : Option ℕ) (limit : IsLimit amt) (d : Bool) where
    chunk_from :
        (s t : Stream D) (left : ℤ)
        → Moves 0 s (ok left, t)
        → MovesNext 1 s (then_read (handle_chunk amt left t) (λ chunk u. (ok (some chunk), u)))
    chunk_from s t left m = next_on 1 s _ (
        Moves-on 0 1 s t left _ m (
          then_read-Moves 1 0 t (handle_chunk amt left t) _ (handle-Moves amt left t limit)
            (λ chunk u. (refl, refl, omega arith))))

    chunk_of-MovesNext :
        (s : Stream D) (r : Result D ℤ) → Moves 0 s r → MovesNext 1 s (chunk_of c amt d r)
    chunk_of-MovesNext s (raises e, t) m = m
    chunk_of-MovesNext s (ok (pos zero), t) m = m
    chunk_of-MovesNext s (ok (pos (suc n)), t) m = chunk_from s t (pos (suc n)) m
    chunk_of-MovesNext s (ok (negsuc n), t) m = chunk_from s t (negsuc n) m

    update-Moves : (s : Stream D) → Moves 0 s (update_chunk_length s)
    update-Moves s = elim (Option-cases s.chunk_left) [
      | inl unknown ↦ fewer 0 1 s (update_chunk_length s) (omega arith) (update-unknown s unknown)
      | inr (n, known) ↦
          subst (λ r. Moves 0 s r) (sym (update-known s n known)) (refl, refl, omega arith)
    ]

    -- A turn takes a byte, unless the decoder has something left to give.
    pub next_chunk-MovesNext :
        (s : Stream D) → has_tail c s ≡ false → MovesNext 1 s (next_chunk c amt d s)
    unfolding next_chunk
    next_chunk-MovesNext s tail =
        subst
          (λ b.
            MovesNext 1 s
              (if b then (ok (some []), s) else chunk_of c amt d (update_chunk_length s)))
          (sym tail) (chunk_of-MovesNext s (update_chunk_length s) (update-Moves s))

    next_fewer : (s : Stream D) (r : Result D (Option Bytes)) → MovesNext 1 s r → MovesNext 0 s r
    next_fewer s (raises e, t) m = m
    next_fewer s (ok none, t) m = m
    next_fewer s (ok (some chunk), t) m = (m.0, m.1, omega (arith, m.2))

    pub next_chunk-Keeps : (s : Stream D) → MovesNext 0 s (next_chunk c amt d s)
    unfolding next_chunk
    next_chunk-Keeps s = elim (Bool-cases (has_tail c s)) [
      | inl tail ↦
          subst
            (λ b.
              MovesNext 0 s
                (if b then (ok (some []), s) else chunk_of c amt d (update_chunk_length s)))
            (sym tail) (refl, refl, omega arith)
      | inr none_left ↦ next_fewer s (next_chunk c amt d s) (next_chunk-MovesNext s none_left)
    ]

  module _ (c : Coding D) where
    decompressed-Moves : (s : Stream D) (r : Outcome Bytes × D) → Moves 0 s (decompressed c r s)
    decompressed-Moves s (ok bytes, d) = (refl, refl, omega arith)
    decompressed-Moves s (raises e, d) = refl

    decode_with-Moves :
        (bytes : Bytes) (n : ℤ) (o : Option D) (s : Stream D)
        → Moves 0 s (decode_with c bytes n o s)
    decode_with-Moves bytes n none s = (refl, refl, omega arith)
    decode_with-Moves bytes n (some d) s = decompressed-Moves s (c.decompress d bytes n)

    pub decode-Moves :
        (bytes : Bytes) (d : Bool) (n : ℤ) (s : Stream D) → Moves 0 s (decode c bytes d n s)
    unfolding decode
    decode-Moves bytes true n s = decode_with-Moves bytes n s.decoder s
    decode-Moves bytes false n s = raw s.has_decoded_content
      where
        raw :
            (b : Bool)
            → Moves {A = Bytes} 0 s (if b then (raises (plain runtime_error), s) else (ok bytes, s))
        raw true = refl
        raw false = (refl, refl, omega arith)

    flushed-Moves :
        (bytes : Bytes) (s : Stream D) (r : Outcome Bytes × D) → Moves 0 s (flushed c bytes r s)
    flushed-Moves bytes s (ok more, d) = (refl, refl, omega arith)
    flushed-Moves bytes s (raises e, d) = refl

    drained-Moves : (s : Stream D) (r : Outcome Bytes × D) → Moves 0 s (drained c r s)
    drained-Moves s (ok bytes, d) = flushed-Moves bytes s (c.flush d)
    drained-Moves s (raises e, d) = refl

    flush_with-Moves : (o : Option D) (s : Stream D) → Moves 0 s (flush_with c o s)
    flush_with-Moves none s = (refl, refl, omega arith)
    flush_with-Moves (some d) s = drained-Moves s (c.decompress d [] (negsuc 0))

    pub flush-Moves : (s : Stream D) → Moves 0 s (flush_decoder c s)
    unfolding flush_decoder
    flush-Moves s = flush_with-Moves s.decoder s

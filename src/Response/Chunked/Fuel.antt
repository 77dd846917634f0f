-- ===== src/Response/Chunked/Fuel.antt =====
-- `read_chunked` comes to an end.
use urllib.Prelude.{
  ℕ, zero, suc, ◌≤◌, ◌<◌, Bool, not, true, false, Option, none, some, [], ◌∷◌, length, ◌≡◌, refl,
  arith, is_some, if◌then◌else◌,
}
use urllib.Prelude.Text.{text_beq}
use urllib.Prelude.Int.{ℤ, pos, negsuc}
use urllib.Exceptions.{ok, raises, plain, response_not_chunked, body_not_httplib_compatible}
use urllib.Response.Buffer.{Bytes}
use urllib.Response.Stream.{Stream, Coding, Result, readline, decode, flush_decoder, has_tail}
use urllib.Response.Chunked.{
  Run, next_chunk, after_line, skip_trailer, closing, before, flushing, finishing, max_length,
  yields, turn, read_loop, read_amount, leaving, guarded, read_chunked,
}
use urllib.Response.Chunked.Reading.{IsLimit}
use urllib.Response.Chunked.Moves.{Moves, MovesLine, readline-MovesLine}
use urllib.Response.Chunked.Turns.{MovesNext, next_chunk-MovesNext, decode-Moves, flush-Moves}

abbrev pub Returns : {A : Type 0} → Option A → Type 0
Returns o = is_some o ≡ true

module _ {D : Type 0} where
  -- Any state with at most `n` bytes to come.
  abbrev Works : {A : Type 0} → ℕ → (Stream D → Option A) → Type 0
  Works n f = (t : Stream D) → length t.rest ≤ n → Returns (f t)

  after_line-Returns :
      (s : Stream D) (later : Stream D → Option (Result D (Unit {0}))) (r : Result D Bytes)
      → ((t : Stream D) → length t.rest < length s.rest → Returns (later t))
      → MovesLine s r
      → Returns (after_line later r)
  after_line-Returns s later (raises e, t) h m = refl
  after_line-Returns s later (ok [], t) h m = refl
  after_line-Returns s later (ok (b ∷ line), t) h m = go (text_beq (b ∷ line) (13 ∷ 10 ∷ []))
    where
      go : (e : Bool) → Returns (if e then some (ok tt, t) else later t)
      go true = refl
      go false = h t (omega (arith, m.2))

  skip_trailer-Returns : (n : ℕ) → Works n (skip_trailer (suc n))
  unfolding skip_trailer
  skip_trailer-Returns zero s h =
      after_line-Returns s (skip_trailer 0) (readline s) (λ t less. ground arith)
        (readline-MovesLine s)
  skip_trailer-Returns (suc n) s h =
      after_line-Returns s (skip_trailer (suc n)) (readline s)
        (λ t less. skip_trailer-Returns n t (omega (arith, h, less))) (readline-MovesLine s)

  closing-Returns : (r : Option (Result D (Unit {0}))) → Returns r → Returns (closing r)
  closing-Returns none h = h
  closing-Returns (some (raises e, t)) h = refl
  closing-Returns (some (ok u, t)) h = refl

  before-Returns : (piece : Bytes) (r : Option (Run D)) → Returns r → Returns (before piece r)
  before-Returns piece none h = h
  before-Returns piece (some (pieces, t)) h = refl

  flushing-Returns :
      (n : ℕ) (s : Stream D) (r : Result D Bytes)
      → length s.rest ≤ n
      → Moves 0 s r
      → Returns (flushing (suc n) r)
  flushing-Returns n s (raises e, t) h m = refl
  flushing-Returns n s (ok decoded, t) h m =
      before-Returns decoded (closing (skip_trailer (suc n) t)) (
        closing-Returns (skip_trailer (suc n) t) (skip_trailer-Returns n t (omega (arith, h, m.2))))

  module _ (c : Coding D) (amt : Option ℕ) (limit : IsLimit amt)
      (no_tail : (x : D) → c.has_unconsumed_tail x ≡ false) where
    finishing-Returns : (d : Bool) (n : ℕ) → Works n (finishing c amt d (suc n))
    finishing-Returns true n s h = flushing-Returns n s (flush_decoder c s) h (flush-Moves c s)
    finishing-Returns false n s h = flushing-Returns n s (ok [], s) h (refl, refl, omega arith)

    yields-Returns :
        (d : Bool) (n : ℕ) (s : Stream D) (later : Stream D → Option (Run D)) (r : Result D Bytes)
        → Works n later
        → length s.rest ≤ n
        → Moves 0 s r
        → Returns (yields c amt d later r)
    yields-Returns d n s later (raises e, t) h small m = refl
    yields-Returns d n s later (ok decoded, t) h small m =
        before-Returns decoded (later t) (h t (omega (arith, small, m.2)))

    turn-Returns :
        (d : Bool) (n : ℕ) (s : Stream D) (later : Stream D → Option (Run D))
        (r : Result D (Option Bytes))
        → ((t : Stream D) → length t.rest < length s.rest → Returns (later t))
        → length s.rest ≤ n
        → MovesNext 1 s r
        → Returns (turn c amt d later (suc n) r)
    turn-Returns d n s later (raises e, t) h small m = refl
    turn-Returns d n s later (ok none, t) h small m =
        finishing-Returns d n t (omega (arith, small, m.2))
    turn-Returns d n s later (ok (some chunk), t) h small m =
        yields-Returns d (length t.rest) t later (decode c chunk d (max_length c amt d amt) t)
          (λ u k. h u (omega (arith, k, m.2))) (omega arith)
          (decode-Moves c chunk d (max_length c amt d amt) t)

    tail_empty : (s : Stream D) (o : Option D) → s.decoder ≡ o → has_tail c s ≡ false
    tail_empty s none h = rw h refl
    tail_empty s (some x) h = rw h (no_tail x)

    loop-Returns : (d : Bool) (n : ℕ) → Works n (read_loop c amt d (suc (suc n)))
    unfolding read_loop
    loop-Returns d zero s small =
        turn-Returns d 0 s (read_loop c amt d 1) (next_chunk c amt d s) (λ t less. ground arith)
          small (next_chunk-MovesNext c amt limit d s (tail_empty s s.decoder refl))
    loop-Returns d (suc n) s small =
        turn-Returns d (suc n) s (read_loop c amt d (suc (suc n))) (next_chunk c amt d s)
          (λ t less. loop-Returns d n t (omega (arith, small, less))) small
          (next_chunk-MovesNext c amt limit d s (tail_empty s s.decoder refl))

  leaving-Returns : (r : Option (Run D)) → Returns r → Returns (leaving r)
  leaving-Returns none h = h
  leaving-Returns (some (pieces, t)) h = refl

  module _ (c : Coding D) (no_tail : (x : D) → c.has_unconsumed_tail x ≡ false) where
    amount-Returns :
        (amt : Option ℤ) (d : Bool) (n : ℕ) → Works n (read_amount c amt d (suc (suc n)))
    amount-Returns none d n s small = loop-Returns c none tt no_tail d n s small
    amount-Returns (some (pos zero)) d n s small = refl
    amount-Returns (some (pos (suc k))) d n s small =
        loop-Returns c (some (suc k)) (omega arith) no_tail d n s small
    amount-Returns (some (negsuc k)) d n s small = loop-Returns c none tt no_tail d n s small

    guarded-Returns : (amt : Option ℤ) (d : Bool) (n : ℕ) → Works n (guarded c amt d (suc (suc n)))
    guarded-Returns amt d n s small = go s.is_head s.is_open
      where
        go :
            (head still : Bool)
            → Returns (
                if head
                then some ([], (ok tt, record s { is_open = false }))
                else if still
                then read_amount c amt d (suc (suc n)) s
                else some ([], (ok tt, s)))
        go true still = refl
        go false true = amount-Returns amt d n s small
        go false false = refl

    -- With a decoder that never holds input back, or none, `read_chunked` returns, whatever the bytes that
    -- come and however they end: fuel of two more than the number of these bytes is enough.
    pub read_chunked-Returns :
        (amt : Option ℤ) (d : Bool) (s : Stream D)
        → Returns (read_chunked c amt d (suc (suc (length s.rest))) s)
    unfolding read_chunked
    read_chunked-Returns amt d s = go s.chunked s.has_fp
      where
        go :
            (chunked fp : Bool)
            → Returns (
                if not chunked
                then some ([], (raises (plain response_not_chunked), s))
                else if not fp
                then some ([], (raises (plain body_not_httplib_compatible), s))
                else leaving (guarded c amt d (suc (suc (length s.rest))) s))
        go false fp = refl
        go true false = refl
        go true true = leaving-Returns _ (guarded-Returns amt d (length s.rest) s (omega arith))

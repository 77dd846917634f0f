-- ===== src/Response/Chunked/Ends.antt =====
-- How `read_chunked` ends.
use urllib.Prelude.{
  ℕ, zero, suc, Bool, true, false, Option, none, some, [], ◌∷◌, ◌≡◌, refl, ◌∙◌, arith,
  if◌then◌else◌,
}
use urllib.Prelude.Text.{text_beq}
use urllib.Exceptions.{ok, raises}
use urllib.Response.Buffer.{Bytes}
use urllib.Response.Stream.{Stream, Coding, Result, readline, decode, flush_decoder}
use urllib.Response.Chunked.{
  Run, next_chunk, after_line, skip_trailer, closing, before, flushing, finishing, max_length,
  yields, turn, read_loop,
}
use urllib.Response.Chunked.Reading.{IsLimit}
use urllib.Response.Chunked.Moves.{Moves, MovesLine, readline-MovesLine}
use urllib.Response.Chunked.Turns.{MovesNext, next_chunk-Keeps, decode-Moves, flush-Moves}

module _ {D : Type 0} where
  -- The connection is still there; if there is no error, it is as it was, and the response is closed.
  abbrev pub Ended : Stream D → Option (Run D) → Type 0
  Ended s none = Unit
  Ended s (some (pieces, (raises e, t))) = t.has_connection ≡ s.has_connection
  Ended s (some (pieces, (ok u, t))) =
      (t.has_connection ≡ s.has_connection) × (t.conn_closed ≡ s.conn_closed) × (t.is_open ≡ false)

  -- After a part that has not failed.
  abbrev Same : Stream D → Stream D → Type 0
  Same s t = (t.has_connection ≡ s.has_connection) × (t.conn_closed ≡ s.conn_closed)

  Ended-on : (s t : Stream D) (r : Option (Run D)) → Same s t → Ended t r → Ended s r
  Ended-on s t none k h = tt
  Ended-on s t (some (pieces, (raises e, u))) k h = h ∙ k.0
  Ended-on s t (some (pieces, (ok v, u))) k h = (h.0 ∙ k.0, h.1 ∙ k.1, h.2)

  before-Ended :
      (s : Stream D) (piece : Bytes) (r : Option (Run D)) → Ended s r → Ended s (before piece r)
  before-Ended s piece none h = tt
  before-Ended s piece (some (pieces, (raises e, t))) h = h
  before-Ended s piece (some (pieces, (ok u, t))) h = h

  abbrev Skipped : Stream D → Option (Result D (Unit {0})) → Type 0
  Skipped s none = Unit
  Skipped s (some (raises e, t)) = t.has_connection ≡ s.has_connection
  Skipped s (some (ok u, t)) = Same s t

  Skipped-on :
      (s t : Stream D) (r : Option (Result D (Unit {0}))) → Same s t → Skipped t r → Skipped s r
  Skipped-on s t none k h = tt
  Skipped-on s t (some (raises e, u)) k h = h ∙ k.0
  Skipped-on s t (some (ok v, u)) k h = (h.0 ∙ k.0, h.1 ∙ k.1)

  after_line-Skipped :
      (s : Stream D) (later : Stream D → Option (Result D (Unit {0}))) (r : Result D Bytes)
      → ((t : Stream D) → Skipped t (later t))
      → MovesLine s r
      → Skipped s (after_line later r)
  after_line-Skipped s later (raises e, t) h m = m
  after_line-Skipped s later (ok [], t) h m = (m.0, m.1)
  after_line-Skipped s later (ok (b ∷ line), t) h m = go (text_beq (b ∷ line) (13 ∷ 10 ∷ []))
    where
      go : (e : Bool) → Skipped s (if e then some (ok tt, t) else later t)
      go true = (m.0, m.1)
      go false = Skipped-on s t (later t) (m.0, m.1) (h t)

  skip_trailer-Skipped : (n : ℕ) (s : Stream D) → Skipped s (skip_trailer n s)
  unfolding skip_trailer
  skip_trailer-Skipped zero s = tt
  skip_trailer-Skipped (suc n) s =
      after_line-Skipped s (skip_trailer n) (readline s) (skip_trailer-Skipped n)
        (readline-MovesLine s)

  closing-Ended :
      (s : Stream D) (r : Option (Result D (Unit {0}))) → Skipped s r → Ended s (closing r)
  closing-Ended s none h = tt
  closing-Ended s (some (raises e, t)) h = h
  closing-Ended s (some (ok u, t)) h = (h.0, h.1, refl)

  flushing-Ended :
      (n : ℕ) (s : Stream D) (r : Result D Bytes) → Moves 0 s r → Ended s (flushing n r)
  flushing-Ended n s (raises e, t) m = m
  flushing-Ended n s (ok decoded, t) m = before-Ended s decoded (closing (skip_trailer n t)) (
      Ended-on s t (closing (skip_trailer n t)) (m.0, m.1)
        (closing-Ended t (skip_trailer n t) (skip_trailer-Skipped n t)))

  module _ (c : Coding D) (amt : Option ℕ) (limit : IsLimit amt) where
    finishing-Ended : (d : Bool) (n : ℕ) (s : Stream D) → Ended s (finishing c amt d n s)
    finishing-Ended true n s = flushing-Ended n s (flush_decoder c s) (flush-Moves c s)
    finishing-Ended false n s = flushing-Ended n s (ok [], s) (refl, refl, omega arith)

    yields-Ended :
        (d : Bool) (s : Stream D) (later : Stream D → Option (Run D)) (r : Result D Bytes)
        → ((t : Stream D) → Ended t (later t))
        → Moves 0 s r
        → Ended s (yields c amt d later r)
    yields-Ended d s later (raises e, t) h m = m
    yields-Ended d s later (ok decoded, t) h m =
        before-Ended s decoded (later t) (Ended-on s t (later t) (m.0, m.1) (h t))

    turn-Ended :
        (d : Bool) (n : ℕ) (s : Stream D) (later : Stream D → Option (Run D))
        (r : Result D (Option Bytes))
        → ((t : Stream D) → Ended t (later t))
        → MovesNext 0 s r
        → Ended s (turn c amt d later n r)
    turn-Ended d n s later (raises e, t) h m = m
    turn-Ended d n s later (ok none, t) h m =
        Ended-on s t (finishing c amt d n t) (m.0, m.1) (finishing-Ended d n t)
    turn-Ended d n s later (ok (some chunk), t) h m =
        let r = decode c chunk d (max_length c amt d amt) t in
        Ended-on s t (yields c amt d later r) (m.0, m.1)
          (yields-Ended d t later r h (decode-Moves c chunk d (max_length c amt d amt) t))

    pub loop-Ended : (d : Bool) (n : ℕ) (s : Stream D) → Ended s (read_loop c amt d n s)
    unfolding read_loop
    loop-Ended d zero s = tt
    loop-Ended d (suc n) s =
        turn-Ended d n s (read_loop c amt d n) (next_chunk c amt d s) (loop-Ended d n)
          (next_chunk-Keeps c amt limit d s)

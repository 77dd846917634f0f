-- ===== src/Response/Chunked/Moves.antt =====
-- What the steps of `read_chunked` keep of a stream: the connection that it has, and, unless they fail,
-- whether that connection is closed. They only take bytes.
use urllib.Prelude.{
  ℕ, zero, suc, ◌+◌, ◌≤◌, Option, none, some, [], ◌∷◌, length, leb, ◌=ℕ◌, ◌≡◌, refl, ap, ◌∙◌, sym,
  subst, arith, Bool-cases, Option-cases, inl, inr, if◌then◌else◌,
}
use urllib.Prelude.Int.{ℤ, pos, negsuc, ltb_ℤ}
use urllib.Prelude.Hex.{int_16}
use urllib.Exceptions.{ok, raises}
use urllib.Response.Buffer.{Bytes}
use urllib.Response.Buffer.Flat.{length-drop}
use urllib.Response.Stream.{
  Stream, Result, then_read, safe_read, put_first, split_line, line_of, readline, close,
}
use urllib.Response.Chunked.{
  before_semicolon, unless_known, measured, measure, update_chunk_length, whole_chunk, part_chunk,
  handle_chunk,
}
use urllib.Response.Chunked.Reading.{IsLimit}

-- A line takes at least a byte.
abbrev Shorter : Bytes → Option (Bytes × Bytes) → Type 0
Shorter bytes none = Unit
Shorter bytes (some (line, rest)) = (1 ≤ length line) × (1 + length rest ≤ length bytes)

put_first-Shorter :
    (b : ℕ) (bytes : Bytes) (o : Option (Bytes × Bytes))
    → Shorter bytes o
    → Shorter (b ∷ bytes) (put_first b o)
put_first-Shorter b bytes none h = tt
put_first-Shorter b bytes (some (line, rest)) h = (omega arith, omega (arith, h.1))

split_line-Shorter : (bytes : Bytes) → Shorter bytes (split_line bytes)
unfolding split_line
split_line-Shorter [] = tt
split_line-Shorter (b ∷ bytes) = elim (Bool-cases (b =ℕ 10)) [
  | inl newline ↦ rw newline (omega arith, omega arith)
  | inr other ↦ rw other (put_first-Shorter b bytes (split_line bytes) (split_line-Shorter bytes))
]

-- A line that is not empty takes at least a byte.
abbrev pub taken : Bytes → ℕ
taken [] = 0
taken (b ∷ line) = 1

taken_bound : (line : Bytes) → (taken line ≤ length line) × (taken line ≤ 1)
taken_bound [] = (omega arith, omega arith)
taken_bound (b ∷ line) = (omega arith, omega arith)

module _ {D : Type 0} where
  -- At least `k` bytes are taken.
  abbrev pub Moves : {A : Type 0} → ℕ → Stream D → Result D A → Type 0
  Moves k s (raises e, t) = t.has_connection ≡ s.has_connection
  Moves k s (ok a, t) =
      (t.has_connection ≡ s.has_connection)
      × (t.conn_closed ≡ s.conn_closed)
      × (k + length t.rest ≤ length s.rest)

  pub Moves-on :
      {A B : Type 0} (j k : ℕ) (s t : Stream D) (a : A) (r : Result D B)
      → Moves j s (ok a, t)
      → Moves k t r
      → Moves (j + k) s r
  Moves-on j k s t a (raises e, u) m h = h ∙ m.0
  Moves-on j k s t a (ok b, u) m h = (h.0 ∙ m.0, h.1 ∙ m.1, omega (arith, m.2, h.2))

  pub then_read-Moves :
      {A B : Type 0} (j k : ℕ) (s : Stream D) (r : Result D A) (f : A → Stream D → Result D B)
      → Moves j s r
      → ((a : A) (t : Stream D) → Moves k t (f a t))
      → Moves (j + k) s (then_read r f)
  then_read-Moves j k s (raises e, t) f m h = m
  then_read-Moves j k s (ok a, t) f m h = Moves-on j k s t a (f a t) m (h a t)

  pub fewer :
      {A : Type 0} (j k : ℕ) (s : Stream D) (r : Result D A) → j ≤ k → Moves k s r → Moves j s r
  fewer j k s (raises e, t) h m = m
  fewer j k s (ok a, t) h m = (m.0, m.1, omega (arith, h, m.2))

  safe_read-pos : (n : ℕ) (s : Stream D) → Moves n s (safe_read (pos n) s)
  unfolding safe_read
  safe_read-pos n s = elim (Bool-cases (leb n (length s.rest))) [
    | inl all ↦ rw all (refl, refl, ground (arith, length-drop n s.rest))
    | inr short ↦ rw short refl
  ]

  safe_read-Moves : (n : ℤ) (s : Stream D) → Moves 0 s (safe_read n s)
  unfolding safe_read
  safe_read-Moves (pos n) s = fewer 0 n s (safe_read (pos n) s) (omega arith) (safe_read-pos n s)
  safe_read-Moves (negsuc zero) s = elim (Option-cases s.ending) [
    | inl end ↦ rw end (refl, refl, omega arith)
    | inr (e, error) ↦ rw error refl
  ]
  safe_read-Moves (negsuc (suc n)) s = refl

  abbrev pub MovesLine : Stream D → Result D Bytes → Type 0
  MovesLine s (raises e, t) = t.has_connection ≡ s.has_connection
  MovesLine s (ok line, t) = Moves {A = Bytes} (taken line) s (ok line, t)

  line_of-MovesLine :
      (s : Stream D) (o : Option (Bytes × Bytes)) → Shorter s.rest o → MovesLine s (line_of o s)
  line_of-MovesLine s (some (line, rest)) h = (refl, refl, omega (arith, h.1, taken_bound line))
  line_of-MovesLine s none h = elim (Option-cases s.ending) [
    | inl end ↦ rw end (refl, refl, omega (arith, taken_bound s.rest))
    | inr (e, error) ↦ rw error refl
  ]

  pub readline-MovesLine : (s : Stream D) → MovesLine s (readline s)
  unfolding readline
  readline-MovesLine s = line_of-MovesLine s (split_line s.rest) (split_line-Shorter s.rest)

  -- The length of a chunk takes at least a byte, unless it was read before.
  measure-Moves :
      (s : Stream D) (r : Result D Bytes)
      → MovesLine s r
      → Moves 1 s (then_read r (λ line. measure (before_semicolon line)))
  unfolding before_semicolon int_16 close
  measure-Moves s (raises e, t) m = m
  measure-Moves s (ok [], t) m = m.0
  measure-Moves s (ok (b ∷ line), t) m = of_length (int_16 (before_semicolon (b ∷ line)))
    where
      of_length : (o : Option ℤ) → Moves 1 s (measured (before_semicolon (b ∷ line)) o t)
      of_length none = m.0
      of_length (some n) = m

  pub update-unknown : (s : Stream D) → s.chunk_left ≡ none → Moves 1 s (update_chunk_length s)
  unfolding update_chunk_length
  update-unknown s h =
      subst (λ o. Moves 1 s (unless_known o s)) (sym h)
        (measure-Moves s (readline s) (readline-MovesLine s))

  pub update-known :
      (s : Stream D) (n : ℤ) → s.chunk_left ≡ some n → update_chunk_length s ≡ (ok n, s)
  unfolding update_chunk_length
  update-known s n h = ap (λ o. unless_known o s) h

  whole-Moves : (left : ℤ) (s : Stream D) → Moves 2 s (whole_chunk left s)
  whole-Moves left s =
      then_read-Moves 0 2 s (safe_read left s) _ (safe_read-Moves left s) (λ chunk t.
        then_read-Moves 2 0 t (safe_read (pos 2) t) _ (safe_read-pos 2 t)
          (λ crlf u. (refl, refl, omega arith)))

  part-Moves : (amt : ℕ) (left : ℤ) (s : Stream D) → Moves amt s (part_chunk amt left s)
  part-Moves amt left s =
      subst (λ k. Moves k s (part_chunk amt left s)) (omega arith)
        (then_read-Moves amt 0 s (safe_read (pos amt) s) _ (safe_read-pos amt s)
          (λ v t. (refl, refl, omega arith)))

  pub handle-Moves :
      (amt : Option ℕ) (left : ℤ) (s : Stream D) → IsLimit amt → Moves 1 s (handle_chunk amt left s)
  unfolding handle_chunk
  handle-Moves none left s limit =
      fewer 1 2 s (whole_chunk left s) (omega arith) (whole-Moves left s)
  handle-Moves (some amt) left s limit = elim (Bool-cases (ltb_ℤ (pos amt) left)) [
    | inl short ↦
        subst (λ b. Moves 1 s (if b then part_chunk amt left s else whole_chunk left s)) (sym short)
          (fewer 1 amt s (part_chunk amt left s) limit (part-Moves amt left s))
    | inr long ↦
        subst (λ b. Moves 1 s (if b then part_chunk amt left s else whole_chunk left s)) (sym long)
          (fewer 1 2 s (whole_chunk left s) (omega arith) (whole-Moves left s))
  ]

-- ===== src/Response/Chunked/Content.antt =====
-- A body in chunks is read to its end.
use urllib.Prelude.{
  ℕ, zero, suc, ◌-◌, ◌≤◌, ◌<◌, Bool, true, false, Option, none, some, List, [], ◌∷◌, ◌++◌, length,
  take, drop, concat, concat-append, ◌≡◌, refl, ap, ◌∙◌, sym, subst, arith, append_assoc,
  length-append, take-append-drop, Bool-cases, ◌⊎◌, inl, inr, if◌then◌else◌,
}
use urllib.Prelude.Int.{ℤ, pos, ltb_ℤ}
use urllib.Prelude.Hex.{hex, int_16, is_byte_space}
use urllib.Exceptions.{Error, ok}
use urllib.Response.Buffer.{Bytes}
use urllib.Response.Buffer.Flat.{length-drop}
use urllib.Response.Stream.{Stream, Coding, readline, flush_decoder}
use urllib.Response.Chunked.{
  handle_chunk, whole_chunk, part_chunk, read_loop, next_chunk, turn, update_chunk_length,
  before_semicolon, finishing, skip_trailer, chunk_of,
}
use urllib.Response.Chunked.Reading.{
  IsLimit, rx, at_end, Good, turn-Reads, next-frame, inside, next-whole, next-part,
}
use urllib.Connection.{crlf, frame, sends_of, last_send, body_sends}

limit_cases :
    {D : Type 0} (amt : Option ℕ) (n : ℕ) (s : Stream D)
    → (handle_chunk amt (pos (suc n)) s ≡ whole_chunk (pos (suc n)) s)
      ⊎ ((a : ℕ) × (amt ≡ some a) × (a < suc n))
unfolding handle_chunk
limit_cases none n s = inl refl
limit_cases (some a) n s = elim (Bool-cases (ltb_ℤ (pos a) (pos (suc n)))) [
  | inl short ↦ inr (a, refl, ground arith)
  | inr long ↦
      inl (ap (λ b. if b then part_chunk a (pos (suc n)) s else whole_chunk (pos (suc n)) s) long)
]

module _ {D : Type 0} (c : Coding D) (e : Option Error) (conn closed : Bool) (d : Bool)
    (extra : Bytes) (amt : Option ℕ) (limit : IsLimit amt) where
  abbrev at : Option ℤ → Bytes → Stream D
  at left bytes = rx c e conn closed d extra left bytes

  abbrev Gives : Option ℤ → Bytes → Bytes → Type 0
  Gives left bytes content = Good c e conn closed d extra amt (at left bytes) content

  positive : (a : ℕ) → amt ≡ some a → 1 ≤ a
  positive a h = subst IsLimit h limit

  -- What is left of a chunk, in pieces.
  chunk_Gives :
      (k n : ℕ) (chunk more content : Bytes)
      → n < k
      → length chunk ≡ suc n
      → Gives none more content
      → Gives (some (pos (suc n))) (chunk ++ (crlf ++ more)) (chunk ++ content)
  chunk_Gives zero n chunk more content small same later fuel enough = ground arith
  chunk_Gives (suc k) n chunk more content small same later zero enough = ground arith
  chunk_Gives (suc k) n chunk more content small same later (suc fuel) enough =
      let s = inside c e conn closed d extra amt n chunk more same in
      let all = length-append chunk (crlf ++ more) in
      elim (limit_cases amt n s) [
        | inl whole ↦
            turn-Reads c e conn closed d extra amt fuel s chunk none more content
              (next-whole c e conn closed d extra amt n chunk more same whole)
              (later fuel (omega (arith, enough, all)))
        | inr (a, h, less) ↦
            let later_part : Gives (some (pos (suc n - a))) (drop a chunk ++ (crlf ++ more))
                (drop a chunk ++ content) =
              subst
                (λ m.
                  Gives (some (pos m)) (drop a chunk ++ (crlf ++ more)) (drop a chunk ++ content))
                (omega (arith, less))
                (chunk_Gives k (n - a) (drop a chunk) more content
                  (omega (arith, small, less, positive a h))
                  (omega (arith, length-drop a chunk, same, less)) later) in
            let (pieces, q, r) =
              turn-Reads c e conn closed d extra amt fuel s (take a chunk) (some (pos (suc n - a)))
                (drop a chunk ++ (crlf ++ more)) (drop a chunk ++ content)
                (next-part c e conn closed d extra amt n chunk more same a less h)
                (later_part fuel (
                  omega (
                    arith,
                    enough,
                    all,
                    length-append (drop a chunk) (crlf ++ more),
                    length-drop a chunk,
                    positive a h,
                    same,
                    less,
                  ))) in
            (
              pieces,
              q,
              r
                  ∙ sym (append_assoc (take a chunk) (drop a chunk) content)
                  ∙ ap (λ k. k ++ content) (take-append-drop a chunk),
            )
      ]

  frame_layout :
      (n : ℕ) (chunk more : Bytes)
      → length chunk ≡ suc n
      → frame chunk ++ more ≡ hex (suc n) ++ crlf ++ (chunk ++ (crlf ++ more))
  unfolding frame
  frame_layout n chunk more same =
      append_assoc (hex (length chunk) ++ crlf ++ chunk) crlf more
      ∙ append_assoc (hex (length chunk) ++ crlf) chunk (crlf ++ more)
      ∙ ap (λ m. hex m ++ crlf ++ (chunk ++ (crlf ++ more))) same

  frame-Gives :
      (n : ℕ) (chunk more content : Bytes)
      → length chunk ≡ suc n
      → Gives none more content
      → Gives none (frame chunk ++ more) (chunk ++ content)
  unfolding read_loop
  frame-Gives n chunk more content same later zero enough = ground arith
  frame-Gives n chunk more content same later (suc fuel) enough =
      let longer = ap length (frame_layout n chunk more same) in
      let (pieces, q, r) =
        chunk_Gives (suc n) n chunk more content (omega arith) same later (suc fuel) (
          omega (
            arith,
            enough,
            longer,
            length-append (hex (suc n) ++ crlf) (chunk ++ (crlf ++ more)),
          )) in
      (
        pieces,
        ap (λ bytes. read_loop c amt d (suc fuel) (at none bytes)) (frame_layout n chunk more same)
            ∙ ap (turn c amt d (read_loop c amt d fuel) fuel)
                (next-frame c e conn closed d extra amt n (chunk ++ (crlf ++ more)))
            ∙ q,
        r,
      )

  last_length :
      update_chunk_length (at none (b'0' ∷ 13 ∷ 10 ∷ 13 ∷ 10 ∷ extra))
      ≡ (ok (pos 0), at (some (pos 0)) (13 ∷ 10 ∷ extra))
  unfolding update_chunk_length readline before_semicolon int_16 is_byte_space
  last_length = refl

  last_lines :
      (b : Bool) (fuel : ℕ)
      → finishing c amt b (suc fuel) (at (some (pos 0)) (13 ∷ 10 ∷ extra))
        ≡ some ([], (ok tt, at_end c e conn closed d extra))
  unfolding skip_trailer readline flush_decoder
  last_lines true fuel = refl
  last_lines false fuel = refl

  end_Gives : Gives none (concat (last_send true) ++ extra) []
  unfolding last_send read_loop next_chunk
  end_Gives zero enough = ground arith
  end_Gives (suc zero) enough = ground arith
  end_Gives (suc (suc fuel)) enough = (
    [],
    ap (λ r. turn c amt d (read_loop c amt d (suc fuel)) (suc fuel) (chunk_of c amt d r))
          last_length
        ∙ last_lines d fuel,
    refl,
  )

  frames_Gives :
      (chunks : List Bytes) (more : Bytes)
      → Gives none more []
      → Gives none (concat (sends_of true chunks) ++ more) (concat chunks)
  unfolding sends_of
  frames_Gives [] more later = later
  frames_Gives ([] ∷ chunks) more later = frames_Gives chunks more later
  frames_Gives ((b ∷ chunk) ∷ chunks) more later =
      subst (λ bytes. Gives none bytes (concat ((b ∷ chunk) ∷ chunks)))
        (sym (append_assoc (frame (b ∷ chunk)) (concat (sends_of true chunks)) more))
        (frame-Gives (length chunk) (b ∷ chunk) (concat (sends_of true chunks) ++ more)
          (concat chunks) refl (frames_Gives chunks more later))

  -- The loop on all that is sent.
  pub body_Gives :
      (chunks : List Bytes)
      → Gives none (concat (body_sends true (some chunks)) ++ extra) (concat chunks)
  unfolding body_sends
  body_Gives chunks =
      subst (λ bytes. Gives none bytes (concat chunks))
        (sym (append_assoc (concat (sends_of true chunks)) (concat (last_send true)) extra)
          ∙ ap (λ k. k ++ extra) (sym (concat-append (sends_of true chunks) (last_send true))))
        (frames_Gives chunks (concat (last_send true) ++ extra) end_Gives)

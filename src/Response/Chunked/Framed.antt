-- ===== src/Response/Chunked/Framed.antt =====
-- Reading what `request` sends in chunks.
use urllib.Prelude.{
  ℕ, Bool, true, false, Option, none, some, [], ◌∷◌, ◌++◌, length, leb, ◌≡◌, refl, ap, ◌∙◌, arith,
  All, length-append, take-length, drop-length,
}
use urllib.Prelude.Int.{ℤ, pos}
use urllib.Prelude.Hex.{hex, cut_space, is_byte_space, int_16}
use urllib.Prelude.Hex.Laws.{IsHex, hex-IsHex, hex_in_line, int_16-hex}
use urllib.Exceptions.{Error, ok}
use urllib.Response.Buffer.{Bytes}
use urllib.Response.Stream.{Stream, Result, then_read, safe_read, split_line, line_of, readline}
use urllib.Response.Chunked.{before_semicolon, measured, measure, update_chunk_length, whole_chunk}
use urllib.Connection.{crlf}

split_line-hex :
    (s : Bytes) (more : Bytes)
    → All IsHex s
    → split_line (s ++ crlf ++ more) ≡ some (s ++ crlf, more)
unfolding split_line
split_line-hex [] more a = refl
split_line-hex (c ∷ s) more (i, a) = rw ((hex_in_line c i).1, split_line-hex s more a) refl

before_semicolon-hex : (s : Bytes) → All IsHex s → before_semicolon (s ++ crlf) ≡ s ++ crlf
unfolding before_semicolon
before_semicolon-hex [] a = refl
before_semicolon-hex (c ∷ s) (i, a) = rw ((hex_in_line c i).0, before_semicolon-hex s a) refl

int_16-line : (n : ℕ) → int_16 (before_semicolon (hex n ++ crlf)) ≡ some (pos n)
unfolding cut_space is_byte_space
int_16-line n = ap int_16 (before_semicolon-hex (hex n) (hex-IsHex n)) ∙ int_16-hex n crlf refl

-- A state in which nothing has failed, of a response without a decoder.
module _ {D : Type 0} (e : Option Error) (conn closed : Bool) where
  abbrev pub receiving : Option ℤ → Bytes → Stream D
  receiving left bytes = record {
    rest = bytes;
    ending = e;
    is_open = true;
    chunk_left = left;
    decoder = none;
    has_decoded_content = false;
    has_connection = conn;
    conn_closed = closed;
    chunked = true;
    has_fp = true;
    is_head = false;
  }

  safe_read-append :
      (left : Option ℤ) (xs ys : Bytes)
      → safe_read (pos (length xs)) (receiving left (xs ++ ys)) ≡ (ok xs, receiving left ys)
  unfolding safe_read
  safe_read-append left xs ys =
      let all : leb (length xs) (length (xs ++ ys)) ≡ true = ground (arith, length-append xs ys) in
      rw (all, take-length xs ys, drop-length xs ys) refl

  pub then_read-ok :
      {A B : Type 0} (r : Result D A) (k : A → Stream D → Result D B) (a : A) (s : Stream D)
      → r ≡ (ok a, s)
      → then_read r k ≡ k a s
  then_read-ok r k a s h = ap (λ q. then_read q k) h

  readline-hex :
      (n : ℕ) (more : Bytes)
      → readline (receiving none (hex n ++ crlf ++ more))
        ≡ (ok (hex n ++ crlf), receiving none more)
  unfolding readline
  readline-hex n more =
      ap (λ o. line_of o (receiving none (hex n ++ crlf ++ more)))
        (split_line-hex (hex n) more (hex-IsHex n))

  -- The length line of a frame.
  pub update-frame :
      (n : ℕ) (more : Bytes)
      → update_chunk_length (receiving none (hex n ++ crlf ++ more))
        ≡ (ok (pos n), receiving (some (pos n)) more)
  unfolding update_chunk_length
  update-frame n more =
      then_read-ok _ (λ line. measure (before_semicolon line)) (hex n ++ crlf) (receiving none more)
        (readline-hex n more)
      ∙ ap (λ o. measured (before_semicolon (hex n ++ crlf)) o (receiving none more))
          (int_16-line n)

  pub whole-frame :
      (left : Option ℤ) (chunk more : Bytes)
      → whole_chunk (pos (length chunk)) (receiving left (chunk ++ (crlf ++ more)))
        ≡ (ok chunk, receiving none more)
  whole-frame left chunk more =
      then_read-ok _
        (λ chunk s.
          then_read (safe_read (pos 2) s) (λ _ s. (ok chunk, record s { chunk_left = none })))
        chunk (receiving left (crlf ++ more)) (safe_read-append left chunk (crlf ++ more))
      ∙ then_read-ok _ (λ _ s. (ok chunk, record s { chunk_left = none })) crlf
          (receiving left more) (safe_read-append left crlf more)

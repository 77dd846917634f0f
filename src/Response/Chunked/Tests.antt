-- ===== src/Response/Chunked/Tests.antt =====
-- Bodies in chunks that are read.
use urllib.Prelude.{
  ℕ, zero, suc, ◌<◌, Bool, true, false, Option, none, some, List, [], ◌∷◌, ◌++◌, length, concat,
  ◌≡◌, ◌≢◌, refl, arith,
}
use urllib.Prelude.Text.{codes}
use urllib.Prelude.Hex.{hex, hex_digit, int_16, hex_from}
use urllib.Prelude.Int.{ℤ, pos, negsuc}
use urllib.Exceptions.{
  Error, Outcome, ok, raises, plain, broken, protocol_error, invalid_chunk_length,
  python_incomplete_read, value_error, python_timeout_error, read_timeout_error,
}
use urllib.Response.Buffer.{Bytes}
use urllib.Response.Stream.{Stream, Coding, Result}
use urllib.Response.Chunked.{Run, read_chunked}
use urllib.Response.Chunked.Framed.{receiving}
use urllib.Response.Chunked.Roundtrip.{Delivers, read_chunked-body_sends}
use urllib.Response.Chunked.Closing.{Closes, read_chunked-Closes}
use urllib.Response.Chunked.Fuel.{Returns, read_chunked-Returns}
use urllib.Connection.{body_sends, crlf}

-- A decoder without a state that passes its input on.
abbrev identity : Coding (Unit {0})
identity = record {
  decompress = λ d bytes n. (ok bytes, d);
  flush = λ d. (ok [], d);
  has_unconsumed_tail = λ d. false;
  is_decoder_error = λ e. false;
}

abbrev start : Bytes → Stream (Unit {0})
start bytes = receiving none true false none bytes

abbrev outcome : Option (Run (Unit {0})) → Option (List Bytes × Outcome (Unit {0}))
outcome none = none
outcome (some (pieces, (o, s))) = some (pieces, o)

int_16_runs :
    (int_16 (codes " 0x1F ") ≡ some (pos 31))
    × (int_16 (codes "-5") ≡ some (negsuc 4))
    × (int_16 (codes "1_0") ≡ some (pos 16))
    × (int_16 (codes "") ≡ none)
    × (int_16 (codes "1__0") ≡ none)
    × (hex 255 ≡ codes "ff")
unfolding int_16 hex urllib.Prelude.Hex.is_byte_space urllib.Prelude.Hex.hex_digit
int_16_runs = (refl, refl, refl, refl, refl, refl)

-- A chunk in pieces of two bytes.
in_pieces :
    outcome (
      read_chunked identity
        (some (pos 2))
        false
        20
        (start (codes "3" ++ crlf ++ codes "abc" ++ crlf ++ codes "0" ++ crlf ++ crlf)))
    ≡ some (codes "ab" ∷ codes "c" ∷ [], ok tt)
unfolding read_chunked urllib.Response.Stream.readline int_16 urllib.Prelude.Hex.is_byte_space
    urllib.Response.Stream.safe_read urllib.Response.Stream.decode urllib.Prelude.Int.◌-ℤ◌
    urllib.Response.Chunked.skip_trailer urllib.Response.Stream.leave
in_pieces = refl

-- The bytes end within a chunk, a length is no number, and there is none.
failures :
    (outcome (read_chunked identity none false 20 (start (codes "5" ++ crlf ++ codes "abc")))
      ≡ some ([], raises (broken (plain python_incomplete_read))))
    × (outcome (read_chunked identity none false 20 (start (codes "zz" ++ crlf)))
        ≡ some ([], raises (broken (plain invalid_chunk_length))))
    × (outcome (read_chunked identity none false 20 (start []))
        ≡ some ([], raises (plain protocol_error)))
unfolding read_chunked urllib.Response.Stream.readline int_16 urllib.Prelude.Hex.is_byte_space
    urllib.Response.Stream.safe_read urllib.Response.Stream.leave urllib.Exceptions.is_subclass
failures = (refl, refl, refl)

-- A length of -5 is no error of the protocol.
negative_length :
    outcome (read_chunked identity none false 20 (start (codes "-5" ++ crlf ++ codes "abc")))
    ≡ some ([], raises (plain value_error))
unfolding read_chunked urllib.Response.Stream.readline int_16 urllib.Prelude.Hex.is_byte_space
    urllib.Response.Stream.safe_read urllib.Response.Stream.leave urllib.Exceptions.is_subclass
negative_length = refl

abbrev parts : List Bytes
parts = codes "abc" ∷ [] ∷ codes "de" ∷ []

read_chunked-body_sends_example :
    Delivers identity none true false false
      (codes "HTTP")
      (read_chunked identity
        (some (pos 2))
        false
        60
        (start (concat (body_sends true (some parts)) ++ codes "HTTP")))
      (codes "abcde")
unfolding body_sends hex_digit
read_chunked-body_sends_example =
    read_chunked-body_sends identity none true false false (codes "HTTP") (some (pos 2)) parts 60
      (ground arith) (omega arith)

read_chunked-Closes_example :
    Closes
      (start (codes "5" ++ crlf ++ codes "abc"))
      (read_chunked identity none false 20 (start (codes "5" ++ crlf ++ codes "abc")))
read_chunked-Closes_example =
    read_chunked-Closes identity none false 20 (start (codes "5" ++ crlf ++ codes "abc")) refl refl

read_chunked-Returns_example :
    Returns
      (read_chunked identity (some (pos 2)) false 8 (start (codes "5" ++ crlf ++ codes "abc")))
read_chunked-Returns_example =
    read_chunked-Returns identity (λ d. refl) (some (pos 2)) false
      (start (codes "5" ++ crlf ++ codes "abc"))

-- ===== src/Response/Chunked.antt =====
-- `read_chunked` of src/urllib3/response.py, a generator that is run to its end: what it yields, how
-- it ends, and the state after it. `none` says that the fuel was too small.
pub mod Framed
pub mod Reading
pub mod Content
pub mod Roundtrip
pub mod Moves
pub mod Turns
pub mod Ends
pub mod Closing
pub mod Fuel
pub mod Pieces
pub mod Tests
use urllib.Prelude.{
  ℕ, zero, suc, Bool, true, false, not, Option, none, some, List, [], ◌∷◌, ◌++◌, map, leb, ltb,
  ◌=ℕ◌, if◌then◌else◌,
}
use urllib.Prelude.Text.{text_beq}
use urllib.Prelude.Int.{ℤ, pos, negsuc, ltb_ℤ, ◌-ℤ◌}
use urllib.Prelude.Hex.{int_16}
use urllib.Exceptions.{
  Class, Outcome, ok, raises, plain, protocol_error, invalid_chunk_length, response_not_chunked,
  body_not_httplib_compatible,
}
use urllib.Response.Buffer.{Bytes}
use urllib.Response.Stream.{
  Coding, Stream, Result, then_read, safe_read, readline, close, release_conn, leave, decode,
  flush_decoder, has_tail,
}

-- `line.split(b";", 1)[0]`
unfoldable pub before_semicolon : Bytes → Bytes
before_semicolon [] = []
before_semicolon (c ∷ cs) = let later = before_semicolon cs in if c =ℕ b';' then [] else c ∷ later

abbrev pub bad_length : Bytes → Class
bad_length [] = protocol_error
bad_length (c ∷ line) = invalid_chunk_length

module _ {D : Type 0} where
  abbrev pub measured : Bytes → Option ℤ → Stream D → Result D ℤ
  measured line (some n) s = (ok n, record s { chunk_left = some n })
  measured line none s = (raises (plain (bad_length line)), close s)

  abbrev pub measure : Bytes → Stream D → Result D ℤ
  measure line s = measured line (int_16 line) s

  abbrev pub unless_known : Option ℤ → Stream D → Result D ℤ
  unless_known (some n) s = (ok n, s)
  unless_known none s = then_read (readline s) (λ line. measure (before_semicolon line))

  -- It returns the length that it leaves in `chunk_left`.
  unfoldable pub update_chunk_length : Stream D → Result D ℤ
  unfolding before_semicolon
  update_chunk_length s = unless_known s.chunk_left s

  -- A chunk that is read up to its end, and the CRLF after it.
  abbrev pub whole_chunk : ℤ → Stream D → Result D Bytes
  whole_chunk left s = then_read (safe_read left s) (λ chunk s.
      then_read (safe_read (pos 2) s) (λ crlf s. (ok chunk, record s { chunk_left = none })))

  abbrev pub part_chunk : ℕ → ℤ → Stream D → Result D Bytes
  part_chunk amt left s =
      then_read (safe_read (pos amt) s)
        (λ value s. (ok value, record s { chunk_left = some (left -ℤ pos amt) }))

  -- For `chunk_left` of `left`; the third and the fourth branch read the same bytes.
  unfoldable pub handle_chunk : Option ℕ → ℤ → Stream D → Result D Bytes
  handle_chunk none left s = whole_chunk left s
  handle_chunk (some amt) left s =
      if ltb_ℤ (pos amt) left then part_chunk amt left s else whole_chunk left s

-- The pieces that the generator yields, and how it ends.
abbrev pub Run : Type 0 → Type 0
Run D = List Bytes × Result D (Unit {0})

-- An empty piece is not yielded.
abbrev pub yielded : Bytes → List Bytes → List Bytes
yielded [] more = more
yielded (c ∷ cs) more = (c ∷ cs) ∷ more

module _ {D : Type 0} where
  abbrev pub before : Bytes → Option (Run D) → Option (Run D)
  before piece none = none
  before piece (some r) = some (yielded piece r.0, r.1)

  abbrev pub after_line :
      (Stream D → Option (Result D (Unit {0}))) → Result D Bytes → Option (Result D (Unit {0}))
  after_line later (raises e, s) = some (raises e, s)
  after_line later (ok [], s) = some (ok tt, s)
  after_line later (ok (c ∷ line), s) =
      if text_beq (c ∷ line) (13 ∷ 10 ∷ []) then some (ok tt, s) else later s

  -- The lines after the last chunk, up to an empty one or the end.
  unfoldable pub skip_trailer : ℕ → Stream D → Option (Result D (Unit {0}))
  unfolding readline
  skip_trailer zero s = none
  skip_trailer (suc n) s = after_line (skip_trailer n) (readline s)

  -- The original response is closed at the end.
  abbrev pub closing : Option (Result D (Unit {0})) → Option (Run D)
  closing none = none
  closing (some (raises e, s)) = some ([], (raises e, s))
  closing (some (ok u, s)) = some ([], (ok tt, record s { is_open = false }))

  abbrev pub flushing : ℕ → Result D Bytes → Option (Run D)
  flushing n (raises e, s) = some ([], (raises e, s))
  flushing n (ok decoded, s) = before decoded (closing (skip_trailer n s))

  module _ (c : Coding D) (amt : Option ℕ) (decode_content : Bool) where
    abbrev pub finishing : ℕ → Stream D → Option (Run D)
    finishing n s = flushing n (if decode_content then flush_decoder c s else (ok [], s))

    -- The next chunk, or a part of it, and `none` for the last one.
    abbrev pub chunk_of : Result D ℤ → Result D (Option Bytes)
    chunk_of (raises e, s) = (raises e, s)
    chunk_of (ok (pos zero), s) = (ok none, s)
    chunk_of (ok left, s) = then_read (handle_chunk amt left s) (λ chunk s. (ok (some chunk), s))

    unfoldable pub next_chunk : Stream D → Result D (Option Bytes)
    unfolding update_chunk_length handle_chunk
    next_chunk s = if has_tail c s then (ok (some []), s) else chunk_of (update_chunk_length s)

    abbrev pub max_length : Option ℕ → ℤ
    max_length none = negsuc 0
    max_length (some n) = pos n

    abbrev pub yields : (Stream D → Option (Run D)) → Result D Bytes → Option (Run D)
    yields later (raises e, s) = some ([], (raises e, s))
    yields later (ok decoded, s) = before decoded (later s)

    abbrev pub turn : (Stream D → Option (Run D)) → ℕ → Result D (Option Bytes) → Option (Run D)
    turn later n (raises e, s) = some ([], (raises e, s))
    turn later n (ok none, s) = finishing n s
    turn later n (ok (some chunk), s) =
        yields later (decode c chunk decode_content (max_length amt) s)

    -- The `while True` loop and what comes after it.
    unfoldable pub read_loop : ℕ → Stream D → Option (Run D)
    unfolding next_chunk
    read_loop zero s = none
    read_loop (suc n) s = turn (read_loop n) n (next_chunk s)

  -- A negative number is treated as `None`; for 0 nothing is read.
  abbrev pub read_amount : Coding D → Option ℤ → Bool → ℕ → Stream D → Option (Run D)
  read_amount c none d n s = read_loop c none d n s
  read_amount c (some (pos zero)) d n s = some ([], (ok tt, s))
  read_amount c (some (pos (suc k))) d n s = read_loop c (some (suc k)) d n s
  read_amount c (some (negsuc k)) d n s = read_loop c none d n s

  abbrev pub leaving : Option (Run D) → Option (Run D)
  leaving none = none
  leaving (some (pieces, r)) = some (pieces, leave r)

  abbrev pub guarded : Coding D → Option ℤ → Bool → ℕ → Stream D → Option (Run D)
  guarded c amt d n s =
      if s.is_head
      then some ([], (ok tt, record s { is_open = false }))
      else if s.is_open
      then read_amount c amt d n s
      else some ([], (ok tt, s))

  unfoldable pub read_chunked : Coding D → Option ℤ → Bool → ℕ → Stream D → Option (Run D)
  unfolding read_loop
  read_chunked c amt d n s =
      if not s.chunked
      then some ([], (raises (plain response_not_chunked), s))
      else if not s.has_fp
      then some ([], (raises (plain body_not_httplib_compatible), s))
      else leaving (guarded c amt d n s)

-- ===== src/Response/Stream.antt =====
-- src/urllib3/response.py: what an `HTTPResponse` reads from, its decoder, and `_error_catcher`. The
-- response is the one that `HTTPConnection.getresponse` makes: `_fp` and `_original_response` are one
-- response of http.client.
use urllib.Prelude.{
  ℕ, suc, zero, Bool, true, false, ◌||◌, Option, none, some, [], ◌∷◌, ◌++◌, leb, ◌=ℕ◌, length, take,
  drop, if◌then◌else◌, or_else,
}
use urllib.Prelude.Int.{ℤ, pos, negsuc}
use urllib.Exceptions.{
  Error, Outcome, ok, raises, plain, broken, secured, is_instance, value_error, runtime_error,
  python_timeout_error, read_timeout_error, base_ssl_error, incomplete_read, python_http_exception,
  os_error, python_incomplete_read, decode_error,
}
use urllib.Response.Buffer.{Bytes}

-- A decoder of the content, as src/urllib3/response.py calls it; the compression libraries raise the
-- errors of `DECODER_ERROR_CLASSES`.
pub record Coding (D : Type 0) : Type 0 where
  pub decompress : D → Bytes → ℤ → Outcome Bytes × D
  pub flush : D → Outcome Bytes × D
  pub has_unconsumed_tail : D → Bool
  pub is_decoder_error : Error → Bool

pub record Stream (D : Type 0) : Type 0 where
  -- the bytes that still come, and what comes after them: the end, or an error of the socket
  pub rest : Bytes
  pub ending : Option Error
  -- `_fp` is open
  pub is_open : Bool
  pub chunk_left : Option ℤ
  pub decoder : Option D
  pub has_decoded_content : Bool
  -- the response still has its `_connection`; that connection has been closed
  pub has_connection : Bool
  pub conn_closed : Bool
  pub chunked : Bool
  -- `supports_chunked_reads`, and an answer to a HEAD request
  pub has_fp : Bool
  pub is_head : Bool

-- What a method returns or raises, and the state after it.
abbrev pub Result : Type 0 → Type 0 → Type 0
Result D A = Outcome A × Stream D

abbrev pub put_first : ℕ → Option (Bytes × Bytes) → Option (Bytes × Bytes)
put_first b none = none
put_first b (some (line, rest)) = some (b ∷ line, rest)

-- A line with its `\n`, and the bytes after it; `none` if there is no `\n`.
unfoldable pub split_line : Bytes → Option (Bytes × Bytes)
split_line [] = none
split_line (b ∷ bytes) =
    let later = put_first b (split_line bytes) in if b =ℕ 10 then some (b ∷ [], bytes) else later

unfoldable pub caught : Error → Error
caught e =
    if is_instance e python_timeout_error
    then plain read_timeout_error
    else if is_instance e base_ssl_error
    then secured e
    else if is_instance e incomplete_read
    then broken e
    else if is_instance e python_http_exception || is_instance e os_error
    then broken e
    else e

module _ {D : Type 0} where
  abbrev pub then_read : {A B : Type 0} → Result D A → (A → Stream D → Result D B) → Result D B
  then_read (ok a, s) k = k a s
  then_read (raises e, s) k = (raises e, s)

  -- `_safe_read` of http.client: all of the bytes, or an error. -1 reads up to the end.
  unfoldable pub safe_read : ℤ → Stream D → Result D Bytes
  safe_read (pos n) s =
      if leb n (length s.rest)
      then (ok (take n s.rest), record s { rest = drop n s.rest })
      else (raises (or_else (plain python_incomplete_read) s.ending), record s { rest = [] })
  safe_read (negsuc zero) s = elim s.ending [
    | none ↦ (ok s.rest, record s { rest = [] })
    | some e ↦ (raises e, record s { rest = [] })
  ]
  safe_read (negsuc (suc n)) s = (raises (plain value_error), s)

  abbrev pub line_of : Option (Bytes × Bytes) → Stream D → Result D Bytes
  line_of (some (line, rest)) s = (ok line, record s { rest = rest })
  line_of none s = elim s.ending [
    | none ↦ (ok s.rest, record s { rest = [] })
    | some e ↦ (raises e, record s { rest = [] })
  ]

  -- `readline` of the socket's file.
  unfoldable pub readline : Stream D → Result D Bytes
  unfolding split_line
  readline s = line_of (split_line s.rest) s

  -- `self.close()`; it is also what `_error_catcher` does after an error.
  unfoldable pub close : Stream D → Stream D
  close s = record s { is_open = false; conn_closed = s.conn_closed || s.has_connection }

  -- `release_conn`, which gives the connection back to the pool.
  unfoldable pub release_conn : Stream D → Stream D
  release_conn s = record s { has_connection = false }

  unfoldable pub leave : {A : Type 0} → Result D A → Result D A
  unfolding close release_conn caught
  leave (ok a, s) = (ok a, if s.is_open then s else release_conn s)
  leave (raises e, s) = (raises (caught e), release_conn (close s))

  module _ (c : Coding D) where
    abbrev pub decode_failed : Error → Error
    decode_failed e = if c.is_decoder_error e then plain decode_error else e

    abbrev pub decompressed : Outcome Bytes × D → Stream D → Result D Bytes
    decompressed (ok bytes, d) s =
        (ok bytes, record s { decoder = some d; has_decoded_content = true })
    decompressed (raises e, d) s = (raises (decode_failed e), record s { decoder = some d })

    abbrev pub decode_with : Bytes → ℤ → Option D → Stream D → Result D Bytes
    decode_with bytes max_length none s = (ok bytes, s)
    decode_with bytes max_length (some d) s = decompressed (c.decompress d bytes max_length) s

    -- `_decode` of a chunk, with `flush_decoder=False`
    unfoldable pub decode : Bytes → Bool → ℤ → Stream D → Result D Bytes
    decode bytes decode_content max_length s =
        if decode_content
        then decode_with bytes max_length s.decoder s
        else if s.has_decoded_content
        then (raises (plain runtime_error), s)
        else (ok bytes, s)

    abbrev pub flushed : Bytes → Outcome Bytes × D → Stream D → Result D Bytes
    flushed bytes (ok more, d) s = (ok (bytes ++ more), record s { decoder = some d })
    flushed bytes (raises e, d) s = (raises e, record s { decoder = some d })

    abbrev pub drained : Outcome Bytes × D → Stream D → Result D Bytes
    drained (ok bytes, d) s = flushed bytes (c.flush d) s
    drained (raises e, d) s = (raises e, record s { decoder = some d })

    abbrev pub flush_with : Option D → Stream D → Result D Bytes
    flush_with none s = (ok [], s)
    flush_with (some d) s = drained (c.decompress d [] (negsuc 0)) s

    unfoldable pub flush_decoder : Stream D → Result D Bytes
    flush_decoder s = flush_with s.decoder s

    abbrev pub has_tail : Stream D → Bool
    has_tail s = elim s.decoder [ none ↦ false | some d ↦ c.has_unconsumed_tail d ]

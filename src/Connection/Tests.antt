-- ===== src/Connection/Tests.antt =====
-- Requests that are sent.
use urllib.Prelude.{
  nat_eq, any, some, ◌==◌, if◌then◌else◌, true, false, List, [], ◌∷◌, ◌++◌, ◌≡◌, refl,
}
use urllib.Prelude.Text.{codes}
use urllib.Exceptions.{ok, raises, plain, value_error, other_exception}
use urllib.Response.Buffer.{Bytes}
use urllib.Connection.{
  HttpClient, object, object_sends, last_send, chunk_sends, absent, iterable, Headers,
  transfer_encoding_chunked, given, request,
}

abbrev custom : Headers
custom = (codes "X-Trace", codes "1") ∷ (codes "User-Agent", codes "me") ∷ []

-- One that refuses targets with a space in them.
abbrev no_spaces : HttpClient
no_spaces = record {
  putrequest = λ method url skip_host skip_accept_encoding.
      if any (λ c. c == b' ') url then raises (plain other_exception) else ok tt;
  put = λ h. ok tt;
  transmit = λ s. ok tt;
}

-- The empty chunk is left out.
in_chunks :
    request no_spaces
      (codes "POST")
      (codes "/")
      (iterable (codes "abc" ∷ [] ∷ codes "de" ∷ []))
      custom
      false
    ≡ ok (record {
      skip_accept_encoding = false;
      skip_host = false;
      headers =
          transfer_encoding_chunked
          ∷ given (codes "X-Trace", codes "1")
          ∷ given (codes "User-Agent", codes "me")
          ∷ [];
      sends =
          (b'3' ∷ 13 ∷ 10 ∷ codes "abc" ++ 13 ∷ 10 ∷ [])
          ∷ (b'2' ∷ 13 ∷ 10 ∷ codes "de" ++ 13 ∷ 10 ∷ [])
          ∷ (b'0' ∷ 13 ∷ 10 ∷ 13 ∷ 10 ∷ [])
          ∷ [];
    })
unfolding request urllib.Prelude.Text.is_digit urllib.Prelude.Hex.hex_digit
in_chunks = refl

bad_method :
    request no_spaces (codes "GE T") (codes "/") absent custom false ≡ raises (plain value_error)
unfolding request urllib.Prelude.Text.is_digit
bad_method = refl

bad_target :
    request no_spaces (codes "GET") (codes "/a b") absent custom false
    ≡ raises (plain other_exception)
unfolding request urllib.Prelude.Text.is_digit
bad_target = refl

abbrev six_bytes : Bytes
six_bytes = 1 ∷ 0 ∷ 0 ∷ 2 ∷ 0 ∷ 0 ∷ []

-- Three items of two bytes are announced as three bytes.
wide_items :
    chunk_sends true (some (object six_bytes 3))
    ≡ (b'3' ∷ 13 ∷ 10 ∷ six_bytes ++ 13 ∷ 10 ∷ []) ∷ (b'0' ∷ 13 ∷ 10 ∷ 13 ∷ 10 ∷ []) ∷ []
unfolding object_sends last_send urllib.Prelude.Hex.hex_digit
wide_items = refl

-- ===== src/Connection.antt =====
-- `HTTPConnection.request` of src/urllib3/connection.py: the framing headers and the body that it
-- sends, with `body_to_chunks` of src/urllib3/util/request.py.
pub mod Choices
pub mod Framing
pub mod Tests
use urllib.Prelude.{
  ◌=ℕ◌, ℕ, Bool, true, false, not, ◌&&◌, Option, none, some, List, [], ◌∷◌, ◌++◌, map, any, all,
  leb, length, ◌||◌, nat_eq, String, if◌then◌else◌, ◌==◌,
}
use urllib.Prelude.Text.{Text, codes, lower, upper, text_eq, is_digit}
use urllib.Prelude.Hex.{hex}
use urllib.Exceptions.{Outcome, ok, raises, plain, type_error, value_error}
use urllib.Response.Buffer.{Bytes}

-- A `str` is given by its UTF-8 bytes.
pub data Body : Type 0 where
  absent : Body
  -- a `str` or `bytes`
  content : Bytes → Body
  -- a file-like object: what its calls of `read(blocksize)` return, one after the other
  readable : List Bytes → Body
  -- an object with the buffer interface: its bytes, and its `len`, which counts its items
  buffer : Bytes → ℕ → Body
  -- an iterable of `bytes`, and an object that is none of these
  iterable : List Bytes → Body
  other : Body

-- What is sent one after the other: the blocks of bytes, or the object itself that has the buffer
-- interface.
pub data Chunks : Type 0 where
  pieces : List Bytes → Chunks
  object : Bytes → ℕ → Chunks

pub record ChunksAndContentLength : Type 0 where
  pub chunks : Option Chunks
  pub content_length : Option ℕ

abbrev pub methods_not_expecting_body : List Text
methods_not_expecting_body =
    codes "GET"
    ∷ codes "HEAD"
    ∷ codes "DELETE"
    ∷ codes "TRACE"
    ∷ codes "OPTIONS"
    ∷ codes "CONNECT"
    ∷ []

abbrev pub is_empty : Bytes → Bool
is_empty [] = true
is_empty (b ∷ bytes) = false

-- The blocks of a file, up to the first empty one.
unfoldable pub blocks : List Bytes → List Bytes
blocks [] = []
blocks (block ∷ more) = let rest = blocks more in if is_empty block then [] else block ∷ rest

abbrev pub bodyless_length : Text → Option ℕ
bodyless_length method =
    if any (λ m. upper method == m) methods_not_expecting_body then none else some 0

unfoldable pub body_to_chunks : Body → Text → Outcome ChunksAndContentLength
unfolding blocks upper
body_to_chunks absent method =
    ok (record { chunks = none; content_length = bodyless_length method })
body_to_chunks (content bytes) method =
    ok (record { chunks = some (pieces (bytes ∷ [])); content_length = some (length bytes) })
body_to_chunks (readable bs) method =
    ok (record { chunks = some (pieces (blocks bs)); content_length = none })
body_to_chunks (buffer bytes items) method =
    ok (record { chunks = some (object bytes items); content_length = some (length bytes) })
body_to_chunks (iterable cs) method =
    ok (record { chunks = some (pieces cs); content_length = none })
body_to_chunks other method = raises (plain type_error)

-- A header that is put: the two framing headers and the default `User-Agent`, which `request` adds, or
-- one of the caller's.
pub data Header : Type 0 where
  transfer_encoding_chunked : Header
  content_length_of : ℕ → Header
  default_user_agent : Header
  given : Text × Text → Header

pub record Sent : Type 0 where
  pub skip_accept_encoding : Bool
  pub skip_host : Bool
  pub headers : List Header
  -- the arguments of `send`
  pub sends : List Bytes

abbrev pub Headers : Type 0
Headers = List (Text × Text)

-- `name in header_keys`
unfoldable pub has_key : String → Headers → Bool
unfolding lower
has_key name headers = any (λ h. lower h.0 == codes name) headers

-- For a body and headers without framing.
abbrev pub recommended : ChunksAndContentLength → Bool × List Header
recommended b = elim b.content_length [
  | some n ↦ (false, content_length_of n ∷ [])
  | none ↦ elim b.chunks [ none ↦ (false, []) | some cs ↦ (true, transfer_encoding_chunked ∷ []) ]
]

-- Whether the body is sent in chunks, and the framing header that is added.
unfoldable pub framing : Bool → Headers → ChunksAndContentLength → Bool × List Header
unfolding has_key
framing chunked headers b =
    if chunked
    then (true, if has_key "transfer-encoding" headers then [] else transfer_encoding_chunked ∷ [])
    else if has_key "content-length" headers
    then (false, [])
    else if has_key "transfer-encoding" headers
    then (true, [])
    else recommended b

abbrev pub crlf : Bytes
crlf = 13 ∷ 10 ∷ []

-- `b"%x\r\n%b\r\n" % (len(chunk), chunk)`, here of `bytes`, whose `len` is the number of bytes
unfoldable pub frame : Bytes → Bytes
unfolding hex
frame chunk = hex (length chunk) ++ crlf ++ chunk ++ crlf

-- The calls of `send` in the loop, and the one after it.
unfoldable pub sends_of : Bool → List Bytes → List Bytes
unfolding frame
sends_of chunked [] = []
sends_of chunked (chunk ∷ more) =
    let rest = sends_of chunked more in
    if is_empty chunk then rest else (if chunked then frame chunk else chunk) ∷ rest

unfoldable pub last_send : Bool → List Bytes
last_send chunked = if chunked then (b'0' ∷ crlf ++ crlf) ∷ [] else []

unfoldable pub body_sends : Bool → Option (List Bytes) → List Bytes
unfolding sends_of last_send
body_sends chunked none = last_send chunked
body_sends chunked (some chunks) = sends_of chunked chunks ++ last_send chunked

-- The same of an object with the buffer interface, whose `len` is the number of items. It is empty if
-- there are none.
unfoldable pub object_sends : Bool → Bytes → ℕ → List Bytes
unfolding hex
object_sends chunked bytes items =
    if items =ℕ 0 then [] else (if chunked then hex items ++ crlf ++ bytes ++ crlf else bytes) ∷ []

abbrev pub chunk_sends : Bool → Option Chunks → List Bytes
chunk_sends chunked none = body_sends chunked none
chunk_sends chunked (some (pieces chunks)) = body_sends chunked (some chunks)
chunk_sends chunked (some (object bytes items)) =
    object_sends chunked bytes items ++ last_send chunked

abbrev pub skip_header : Text
skip_header = codes "@@@SKIP_HEADER@@@"

abbrev pub skippable_headers : List Text
skippable_headers = codes "accept-encoding" ∷ codes "host" ∷ codes "user-agent" ∷ []

-- What `_CONTAINS_CONTROL_CHAR_RE` lets through.
unfoldable pub is_token_char : ℕ → Bool
is_token_char c =
    is_digit c
    || (leb b'a' c && leb c b'z')
    || (leb b'A' c && leb c b'Z')
    || any (λ b. c == b) (codes "-!#$%&'*+.^_`|~")

abbrev pub both : {A : Type 0} → Outcome (List A) → Outcome (List A) → Outcome (List A)
both (raises e) more = raises e
both (ok xs) (raises e) = raises e
both (ok xs) (ok ys) = ok (xs ++ ys)

-- What `http.client` makes of a request: `putrequest` with its `method`, `url`, `skip_host` and
-- `skip_accept_encoding` refuses some targets, `putheader` some names and values. `transmit` is
-- `endheaders` and the calls of `send`, with the reading of the body between them; it may fail.
pub record HttpClient : Type 0 where
  pub putrequest : Text → Text → Bool → Bool → Outcome (Unit {0})
  pub put : Text × Text → Outcome (Unit {0})
  pub transmit : Sent → Outcome (Unit {0})

abbrev pub put_line : Text × Text → Outcome (Unit {0}) → Outcome (List Header)
put_line h (raises e) = raises e
put_line h (ok v) = ok (given h ∷ [])

module _ (client : HttpClient) where
  -- A marked value is not sent, and only some headers may have it.
  unfoldable pub putheader : Text × Text → Outcome (List Header)
  unfolding lower
  putheader h =
      if not (h.1 == skip_header)
      then put_line h (client.put h)
      else if any (λ name. lower h.0 == name) skippable_headers
      then ok []
      else raises (plain value_error)

  unfoldable pub put_all : Headers → Outcome (List Header)
  unfolding putheader
  put_all [] = ok []
  put_all (h ∷ headers) = both (putheader h) (put_all headers)

  -- Other methods are refused here.
  unfoldable pub putrequest : Text → Text → Headers → Outcome (Unit {0})
  unfolding is_token_char has_key
  putrequest method url headers =
      if all is_token_char method
      then client.putrequest method url (has_key "host" headers) (has_key "accept-encoding" headers)
      else raises (plain value_error)

  abbrev pub transmitted : Sent → Outcome (Unit {0}) → Outcome Sent
  transmitted s (raises e) = raises e
  transmitted s (ok v) = ok s

  abbrev pub message : Headers → Bool × List Header → Option Chunks → List Header → Sent
  message headers f chunks given_headers = record {
    skip_accept_encoding = has_key "accept-encoding" headers;
    skip_host = has_key "host" headers;
    headers =
        f.1
        ++ (if has_key "user-agent" headers then [] else default_user_agent ∷ [])
        ++ given_headers;
    sends = chunk_sends f.0 chunks;
  }

  abbrev pub sent :
      Headers → Bool × List Header → Option Chunks → Outcome (List Header) → Outcome Sent
  sent headers f chunks (raises e) = raises e
  sent headers f chunks (ok given_headers) =
      let s = message headers f chunks given_headers in transmitted s (client.transmit s)

  abbrev pub framed : Bool → Headers → Outcome ChunksAndContentLength → Outcome Sent
  framed chunked headers (raises e) = raises e
  framed chunked headers (ok b) =
      sent headers (framing chunked headers b) b.chunks (put_all headers)

  abbrev pub after_line :
      Bool → Headers → Outcome ChunksAndContentLength → Outcome (Unit {0}) → Outcome Sent
  after_line chunked headers b (raises e) = raises e
  after_line chunked headers b (ok v) = framed chunked headers b

  -- The body is looked at after `putrequest`.
  unfoldable pub request : Text → Text → Body → Headers → Bool → Outcome Sent
  unfolding putrequest body_to_chunks framing body_sends object_sends put_all
  request method url body headers chunked =
      after_line chunked headers (body_to_chunks body method) (putrequest method url headers)

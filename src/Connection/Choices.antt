-- ===== src/Connection/Choices.antt =====
-- The framing that is chosen for a body, where the caller has not chosen one.
use urllib.Prelude.{
  arith, ℕ, nat_eq, ◌=ℕ◌, Bool, true, false, ◌||◌, Option, none, some, List, [], ◌∷◌, ◌++◌, all,
  keep, length, concat, ◌==◌, ◌≡◌, refl, ap, ◌∙◌, append-nil, ◌⊎◌, inl, inr, if◌then◌else◌,
}
use urllib.Prelude.Text.{Text, codes, lower, text_eq}
use urllib.Exceptions.{Error, raises, plain, value_error, type_error}
use urllib.Response.Buffer.{Bytes}
use urllib.Connection.{
  Body, absent, content, readable, buffer, iterable, other, ChunksAndContentLength, blocks, Header,
  transfer_encoding_chunked, content_length_of, default_user_agent, given, Sent, Headers, has_key,
  recommended, framing, sends_of, last_send, body_sends, put_all, is_token_char, HttpClient, Chunks,
  pieces, object, object_sends, chunk_sends, frame, is_empty,
}

abbrev pub content_of : Body → Bytes
content_of absent = []
content_of (content bytes) = bytes
content_of (readable bs) = concat (blocks bs)
content_of (buffer bytes items) = bytes
content_of (iterable chunks) = concat chunks
content_of other = []

abbrev pub is_framing : Header → Bool
is_framing transfer_encoding_chunked = true
is_framing (content_length_of n) = true
is_framing default_user_agent = false
is_framing (given h) = lower h.0 == codes "content-length" || lower h.0 == codes "transfer-encoding"

-- The message says how long its body is, or that it comes in chunks, or it has no body; and what is sent
-- is in the one way, or the other, the content.
abbrev pub Frames : Bytes → List Header → List Bytes → Type 0
Frames body headers sends =
    ((headers ≡ content_length_of (length body) ∷ []) × (concat sends ≡ body))
    ⊎ ((chunks : List Bytes) × (headers ≡ transfer_encoding_chunked ∷ [])
        × (sends ≡ body_sends true (some chunks))
        × (concat chunks ≡ body))
    ⊎ ((headers ≡ []) × (sends ≡ []) × (body ≡ []))

abbrev pub Carries : Bytes → Sent → Type 0
Carries body s = Frames body (keep is_framing s.headers) s.sends

abbrev pub IsUnframed : Headers → Type 0
IsUnframed headers =
    (has_key "content-length" headers ≡ false) × (has_key "transfer-encoding" headers ≡ false)

-- The reasons to refuse a request.
abbrev pub Refused : HttpClient → Text → Text → Body → Headers → Error → Type 0
Refused client method url body headers e =
    ((all is_token_char method ≡ false) × (e ≡ plain value_error))
    ⊎ (client.putrequest method url (has_key "host" headers) (has_key "accept-encoding" headers)
        ≡ raises e)
    ⊎ ((body ≡ other) × (e ≡ plain type_error))
    ⊎ (put_all client headers ≡ raises e)
    ⊎ ((s : Sent) × Carries (content_of body) s × (client.transmit s ≡ raises e))

-- An object with the buffer interface that is to be sent in chunks has items of one byte; else it has
-- no items only if it has no bytes.
abbrev pub IsSized : Bool → Body → Type 0
IsSized true (buffer bytes items) = items ≡ length bytes
IsSized false (buffer bytes items) = (items =ℕ 0) ≡ is_empty bytes
IsSized chunked absent = Unit
IsSized chunked (content bytes) = Unit
IsSized chunked (readable bs) = Unit
IsSized chunked (iterable cs) = Unit
IsSized chunked other = Unit

concat-sends_of : (chunks : List Bytes) → concat (sends_of false chunks) ≡ concat chunks
unfolding sends_of
concat-sends_of [] = refl
concat-sends_of ([] ∷ chunks) = concat-sends_of chunks
concat-sends_of ((b ∷ chunk) ∷ chunks) = ap (λ k. b ∷ chunk ++ k) (concat-sends_of chunks)

plain_sends : (chunks : List Bytes) → concat (body_sends false (some chunks)) ≡ concat chunks
unfolding body_sends last_send
plain_sends chunks = ap concat (append-nil (sends_of false chunks)) ∙ concat-sends_of chunks

-- What `framing` chooses where the caller has not.
abbrev pub Chooses : Bytes → Option Chunks → Bool × List Header → Type 0
Chooses body chunks f = Frames body f.1 (chunk_sends f.0 chunks)

pub in_chunks :
    (body : Bytes) (chunks : List Bytes)
    → concat chunks ≡ body
    → Chooses body (some (pieces chunks)) (true, transfer_encoding_chunked ∷ [])
in_chunks body chunks h = inr (inl (chunks, refl, refl, h))

pub of_length :
    (body : Bytes)
    → Chooses body (some (pieces (body ∷ []))) (false, content_length_of (length body) ∷ [])
of_length body = inl (refl, plain_sends (body ∷ []) ∙ append-nil body)

object_pieces :
    (bytes : Bytes) → object_sends true bytes (length bytes) ≡ sends_of true (bytes ∷ [])
unfolding object_sends sends_of frame
object_pieces [] = refl
object_pieces (b ∷ bytes) =
    let some_items : (length (b ∷ bytes) =ℕ 0) ≡ false = ground arith in rw some_items refl

object_whole :
    (bytes : Bytes) (items : ℕ)
    → (items =ℕ 0) ≡ is_empty bytes
    → object_sends false bytes items ≡ sends_of false (bytes ∷ [])
unfolding object_sends sends_of
object_whole [] items h = rw h refl
object_whole (b ∷ bytes) items h = rw h refl

pub object_in_chunks :
    (bytes : Bytes) (items : ℕ)
    → items ≡ length bytes
    → Chooses bytes (some (object bytes items)) (true, transfer_encoding_chunked ∷ [])
unfolding body_sends
object_in_chunks bytes items h = inr (
    inl (
      bytes ∷ [],
      refl,
      ap (λ k. k ++ last_send true) (ap (object_sends true bytes) h ∙ object_pieces bytes),
      append-nil bytes,
    ))

pub object_of_length :
    (bytes : Bytes) (items : ℕ)
    → (items =ℕ 0) ≡ is_empty bytes
    → Chooses bytes (some (object bytes items)) (false, content_length_of (length bytes) ∷ [])
unfolding last_send
object_of_length bytes items h = inl (
  refl,
  ap concat (append-nil (object_sends false bytes items) ∙ object_whole bytes items h)
      ∙ concat-sends_of (bytes ∷ [])
      ∙ append-nil bytes,
)

pub no_body :
    (expected : Bool)
    → Chooses [] none
        (recommended (record { chunks = none; content_length = if expected then none else some 0 }))
unfolding body_sends last_send
no_body true = inr (inr (refl, refl, refl))
no_body false = inl (refl, refl)

module _ (headers : Headers) (unframed : IsUnframed headers) where
  pub framing-chunked :
      (b : ChunksAndContentLength) → framing true headers b ≡ (true, transfer_encoding_chunked ∷ [])
  unfolding framing
  framing-chunked b = rw (unframed.1) refl

  pub framing-recommended : (b : ChunksAndContentLength) → framing false headers b ≡ recommended b
  unfolding framing
  framing-recommended b = rw (unframed.0, unframed.1) refl

-- ===== src/Connection/Framing.antt =====
-- The framing of a request: the headers that say where its body ends, against what is sent.
use urllib.Prelude.{List, [], keep, ◌≡◌}
use urllib.Prelude.Text.{Text, text_eq}
use urllib.Exceptions.{Outcome, ok, raises}
use urllib.Connection.{Body, Header, Sent, Headers, HttpClient}
use urllib.Connection.Choices.{content_of, is_framing, Carries, Refused}

-- Headers of the caller that are put, none of them a framing header.
abbrev PutPlain : Outcome (List Header) → Type 0
PutPlain (raises e) = Unit
PutPlain (ok put) = keep is_framing put ≡ []

-- A request that is refused for a reason, or whose framing fits.
abbrev pub Carried : HttpClient → Text → Text → Body → Headers → Outcome Sent → Type 0
Carried client method url body headers (raises e) = Refused client method url body headers e
Carried client method url body headers (ok s) = Carries (content_of body) s

-- ===== src/Response/Buffer/History.antt =====
-- Any sequence of calls on a buffer.
use urllib.Prelude.{
  zero, suc, List, [], ◌∷◌, ◌++◌, ◌≡◌, refl, arith, ap, ◌∙◌, sym, append-nil, append_assoc,
  take-append-drop, length-append, inl, inr,
}
use urllib.Prelude.Int.{ℤ, pos, negsuc}
use urllib.Exceptions.{Outcome, ok, raises}
use urllib.Response.Buffer.{Bytes, Chunk, Buffer, init, put, get, joined, get_all}
use urllib.Response.Buffer.Flat.{contents, IsValid, Gets, get-Gets, joined-append, get_all-contents}

pub data Call : Type 0 where
  puts : Chunk → Call
  gets : ℤ → Call
  gets_all : Call

-- What a call hands out, and the buffer after it; an error hands out nothing.
abbrev pub handed : Buffer → Outcome (Bytes × Buffer) → Bytes × Buffer
handed b (ok r) = r
handed b (raises e) = ([], b)

unfoldable pub step : Buffer → Call → Bytes × Buffer
step b (puts chunk) = ([], put b chunk)
step b (gets n) = handed b (get b n)
step b gets_all = handed b (get_all b)

unfoldable pub run : Buffer → List Call → Bytes × Buffer
run b [] = ([], b)
run b (call ∷ calls) = let r = step b call in let s = run r.1 calls in (r.0 ++ s.0, s.1)

abbrev pub written_by : Call → Bytes
written_by (puts chunk) = chunk.bytes
written_by (gets n) = []
written_by gets_all = []

abbrev pub written : List Call → Bytes
written [] = []
written (call ∷ calls) = written_by call ++ written calls

-- The bytes handed out are the first of those that were there or were put.
abbrev pub Streams : Buffer → Bytes → Bytes × Buffer → Type 0
Streams b new r = (r.0 ++ contents r.1 ≡ contents b ++ new) × IsValid r.1

handed-Streams :
    (b : Buffer) (n : ℤ) (o : Outcome (Bytes × Buffer))
    → IsValid b
    → Gets b n o
    → Streams b [] (handed b o)
handed-Streams b (pos zero) o v g = rw g (sym (append-nil (contents b)), v)
handed-Streams b (pos (suc n)) o v (inl g) = rw g.1 (sym (append-nil (contents b)), v)
handed-Streams b (pos (suc n)) o v (inr (some_chunk, (r, q, t))) = rw q (
  rw (t.0, t.1) (take-append-drop (suc n) (joined b.chunks)) ∙ sym (append-nil (contents b)),
  t.2,
)
handed-Streams b (negsuc n) o v (inl g) = rw g.1 (sym (append-nil (contents b)), v)
handed-Streams b (negsuc n) o v (inr g) = rw g.1 (sym (append-nil (contents b)), v)

put-Streams : (b : Buffer) (chunk : Chunk) → IsValid b → Streams b chunk.bytes ([], put b chunk)
unfolding put
put-Streams b chunk v =
    let all =
      joined-append b.chunks (chunk ∷ [])
      ∙ ap (λ k. joined b.chunks ++ k) (append-nil chunk.bytes) in
    (all, rw all (ground (arith, v, length-append (joined b.chunks) chunk.bytes)))

all-Streams : (b : Buffer) → IsValid b → Streams b [] (handed b (get_all b))
all-Streams b v = rw (get_all-contents b v) (unfold init in (refl, refl))

step-Streams : (b : Buffer) (call : Call) → IsValid b → Streams b (written_by call) (step b call)
unfolding step
step-Streams b (puts chunk) v = put-Streams b chunk v
step-Streams b (gets n) v = handed-Streams b n (get b n) v (get-Gets b n v)
step-Streams b gets_all v = all-Streams b v

-- From a valid buffer, whatever the calls, what they hand out, one after the other, and then what is
-- left, are the bytes that were there and those that were put, in their order; the size stays right.
pub run-Streams :
    (b : Buffer) (calls : List Call) → IsValid b → Streams b (written calls) (run b calls)
unfolding run
run-Streams b [] v = (sym (append-nil (contents b)), v)
run-Streams b (call ∷ calls) v =
    let one = step-Streams b call v in
    let more = run-Streams (step b call).1 calls one.1 in
    (
      append_assoc (step b call).0 (run (step b call).1 calls).0 _
          ∙ ap (λ k. (step b call).0 ++ k) more.0
          ∙ sym (append_assoc (step b call).0 (contents (step b call).1) (written calls))
          ∙ ap (λ k. k ++ written calls) one.0
          ∙ append_assoc (contents b) (written_by call) (written calls),
      more.1,
    )

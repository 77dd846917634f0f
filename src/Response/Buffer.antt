-- ===== src/Response/Buffer.antt =====
-- `BytesQueueBuffer` of src/urllib3/response.py. A byte is a number.
pub mod Flat
pub mod History
pub mod Tests
use urllib.Prelude.{
  ℕ, zero, suc, ◌+◌, ◌-◌, Bool, true, false, ◌&&◌, List, [], ◌∷◌, ◌++◌, ltb, ◌=ℕ◌, length, take,
  drop, if◌then◌else◌,
}
use urllib.Prelude.Int.{ℤ, pos, negsuc}
use urllib.Exceptions.{Outcome, ok, raises, plain, value_error, runtime_error, assertion_error}

abbrev pub Bytes : Type 0
Bytes = List ℕ

-- An item of the deque: `bytes`, or a `memoryview` of what is left of one.
pub record Chunk : Type 0 where
  pub bytes : Bytes
  pub is_bytes : Bool

pub record Buffer : Type 0 where
  pub chunks : List Chunk
  -- `_size`, which is the length of the contents, so that no subtraction below stops at 0
  pub size : ℕ

unfoldable pub init : Buffer
init = record { chunks = []; size = 0 }

unfoldable pub put : Buffer → Chunk → Buffer
put b chunk = record { chunks = b.chunks ++ chunk ∷ []; size = b.size + length chunk.bytes }

-- The `while` loop of `get`, with `n` bytes still to fetch: what it writes, and what it leaves.
unfoldable pub fetch : ℕ → List Chunk → ℕ → Bytes × Buffer
fetch n [] size = ([], record { chunks = []; size = size })
fetch n (chunk ∷ rest) size =
    let later = fetch (n - length chunk.bytes) rest (size - length chunk.bytes) in
    if n =ℕ 0
    then ([], record { chunks = chunk ∷ rest; size = size })
    else if ltb n (length chunk.bytes)
    then (
      take n chunk.bytes,
      record {
        chunks = (record { bytes = drop n chunk.bytes; is_bytes = false }) ∷ rest;
        size = size - n;
      },
    )
    else (chunk.bytes ++ later.0, later.1)

-- For a positive `n`; a chunk of the right length is handed out as it is.
unfoldable pub get_from : List Chunk → ℕ → ℕ → Outcome (Bytes × Buffer)
unfolding fetch
get_from [] size n = raises (plain runtime_error)
get_from (chunk ∷ rest) size n =
    if (length chunk.bytes =ℕ n) && chunk.is_bytes
    then ok (chunk.bytes, record { chunks = rest; size = size - n })
    else ok (fetch n (chunk ∷ rest) size)

-- The test for an empty buffer comes before that for a negative `n`.
abbrev pub get_negative : List Chunk → Outcome (Bytes × Buffer)
get_negative [] = raises (plain runtime_error)
get_negative (chunk ∷ rest) = raises (plain value_error)

unfoldable pub get : Buffer → ℤ → Outcome (Bytes × Buffer)
unfolding get_from
get b (pos zero) = ok ([], b)
get b (pos (suc n)) = get_from b.chunks b.size (suc n)
get b (negsuc n) = get_negative b.chunks

abbrev pub joined : List Chunk → Bytes
joined [] = []
joined (chunk ∷ rest) = chunk.bytes ++ joined rest

-- One chunk is not copied; the bytes are the same.
abbrev pub take_all : List Chunk → Buffer → Outcome (Bytes × Buffer)
take_all [] b = if b.size =ℕ 0 then ok ([], b) else raises (plain assertion_error)
take_all (chunk ∷ []) b = ok (chunk.bytes, init)
take_all (chunk ∷ next ∷ rest) b = ok (joined (chunk ∷ next ∷ rest), init)

unfoldable pub get_all : Buffer → Outcome (Bytes × Buffer)
unfolding init
get_all b = take_all b.chunks b

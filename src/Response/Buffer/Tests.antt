-- ===== src/Response/Buffer/Tests.antt =====
-- A buffer of two chunks.
use urllib.Prelude.{true, false, List, [], ◌∷◌, ◌≡◌, refl}
use urllib.Prelude.Int.{pos, negsuc}
use urllib.Exceptions.{ok, raises, plain, value_error, runtime_error}
use urllib.Response.Buffer.{Buffer, init, put, get, get_all}
use urllib.Response.Buffer.Flat.{Gets, get-Gets}
use urllib.Response.Buffer.History.{
  Call, puts, gets, gets_all, step, run, written, Streams, run-Streams,
}

abbrev loaded : Buffer
loaded = record {
  chunks =
      (record { bytes = 1 ∷ 2 ∷ 3 ∷ []; is_bytes = true })
      ∷ (record { bytes = 4 ∷ 5 ∷ []; is_bytes = true })
      ∷ [];
  size = 5;
}

-- The second chunk is split, and stays in front.
across_chunks :
    get loaded (pos 4)
    ≡ ok (
      1 ∷ 2 ∷ 3 ∷ 4 ∷ [],
      record { chunks = (record { bytes = 5 ∷ []; is_bytes = false }) ∷ []; size = 1 },
    )
unfolding get
across_chunks = refl

refused :
    (get loaded (negsuc 0) ≡ raises (plain value_error))
    × (get init (negsuc 0) ≡ raises (plain runtime_error))
unfolding get init
refused = (refl, refl)

abbrev calls : List Call
calls =
    gets (pos 2)
    ∷ puts (record { bytes = 6 ∷ []; is_bytes = true })
    ∷ gets (pos 2)
    ∷ gets (negsuc 3)
    ∷ gets_all
    ∷ []

calls_in_order : (run loaded calls).0 ≡ 1 ∷ 2 ∷ 3 ∷ 4 ∷ 5 ∷ 6 ∷ []
unfolding run step get put get_all init
calls_in_order = refl

get-Gets_example : Gets loaded (pos 4) (get loaded (pos 4))
get-Gets_example = get-Gets loaded (pos 4) refl

run-Streams_example : Streams loaded (written calls) (run loaded calls)
run-Streams_example = run-Streams loaded calls refl

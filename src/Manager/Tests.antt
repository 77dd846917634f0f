-- ===== src/Manager/Tests.antt =====
-- A manager that is asked for pools.
use urllib.Prelude.{ℕ, nat_eq, true, false, Option, none, some, List, [], ◌∷◌, ◌≡◌, refl, arith}
use urllib.Prelude.Text.{codes, lower}
use urllib.Exceptions.{Outcome, ok, raises, plain, other_exception, location_value_error}
use urllib.Manager.{
  Values, Context, ManagedPool, Manager, init, connection_from_context, connection_from_host,
}
use urllib.Manager.Caching.{respelled, Reuses, connection_from_context_again}
use urllib.Manager.Serving.{Call, from_host, clears, AllFit, init-AllFit}

-- Numbers as the values of keywords.
abbrev numbers : Values ℕ
numbers = record { frozen = λ v. v; as_tuple = λ v. v; default_blocksize = 16384 }

abbrev fresh : Manager ℕ
fresh = init 2 []

abbrev number_of : Outcome (ManagedPool ℕ) → Option (Option ℕ)
number_of (ok pool) = some (some pool.number)
number_of (raises e) = none

-- The second spelling finds the pool of the first; the scheme of a new pool must be in lower case.
asked :
    (number_of
        (connection_from_host numbers
          (connection_from_host numbers fresh (codes "Example.org") none [] []).1
          (codes "example.ORG")
          (some 80)
          (codes "HTTP")
          []).0
      ≡ some (some 0))
    × ((connection_from_host numbers fresh (codes "a") none (codes "HTTP") []).0
        ≡ raises (plain other_exception))
    × ((connection_from_host numbers fresh [] none [] []).0 ≡ raises (plain location_value_error))
unfolding connection_from_host urllib.Prelude.Text.lower urllib.Manager.host_context
    urllib.Dict.remove init urllib.Collections.RecentlyUsed.get_item urllib.Dict.get
    urllib.Collections.RecentlyUsed.set_item urllib.Dict.set
asked = (refl, refl, refl)

abbrev calls : List (Call ℕ)
calls =
    from_host (codes "Example.org") none (codes "https") ((codes "cert_reqs", some 2) ∷ [])
    ∷ clears
    ∷ from_host (codes "example.ORG") (some 443) (codes "https") ((codes "cert_reqs", some 1) ∷ [])
    ∷ []

init-AllFit_example : AllFit numbers fresh calls
init-AllFit_example = init-AllFit numbers 2 [] calls

abbrev first_context : Context ℕ
first_context = record {
  has_names = true;
  scheme = codes "http";
  host = codes "Example.org";
  port = 80;
  rest = [];
}

abbrev first_pool : ManagedPool ℕ
first_pool = record {
  scheme = codes "http";
  host = codes "Example.org";
  port = 80;
  kwargs = (codes "blocksize", some 16384) ∷ [];
  number = 0;
}

connection_from_context_again_example :
    ((connection_from_context numbers
        (connection_from_context numbers fresh first_context).1
        (respelled numbers first_context (codes "HTTP") (codes "EXAMPLE.org"))).0
      ≡ ok first_pool)
    × Reuses numbers fresh first_context (connection_from_context numbers fresh first_context)
unfolding connection_from_context lower init urllib.Dict.remove
    urllib.Collections.RecentlyUsed.get_item urllib.Dict.get urllib.Dict.set
connection_from_context_again_example =
    connection_from_context_again numbers fresh first_context first_pool (codes "HTTP")
      (codes "EXAMPLE.org") (omega arith) refl refl refl

-- ===== src/Request/Slots.antt =====
-- The request loop as a client of the pool: it takes and gives back connections only in the ways that
-- the laws of a shared pool (Pool/Limits) ask of every client.
use urllib.Prelude.{
  ℕ, ◌≤◌, Bool, true, Option, none, some, List, [], ◌∷◌, ◌≡◌, refl, ap, ◌∙◌, sym, subst, arith,
  Bool-cases, inl, inr, ◌⊎◌,
}
use urllib.Prelude.Text.{Text}
use urllib.Exceptions.{
  Error, exhausted, caused, Outcome, ok, raises, plain, is_instance, is_subclass, empty_pool_error,
  max_retry_error,
}
use urllib.Retry.{Retry}
use urllib.Retry.Increment.{increment}
use urllib.Retry.Exhaustion.{increment-raises}
use urllib.Pool.{Pool, Queue, Done, get_from, put_conn, close_conn}
use urllib.Pool.Slots.{count, drop_one}
use urllib.Pool.Leases.{World, Step, puts, discards}
use urllib.Request.Exchange.{Turn, handled}
use urllib.Request.Arguments.{Request, State, Answer, Next, finished, again}
use urllib.Request.Loop.{
  give_back, drain, discard, ended, retried, after_error, failed, no_conn, charged,
}

-- Any number of steps.
pub data Steps : World → World → Type 0 where
  here : {w : World} → Steps w w
  next : {w v u : World} → Steps w v → Step v u → Steps w u

abbrev pub world : Pool → List ℕ → World
world p leased = record { pool = p; leased = leased }

abbrev pub with_held : Option ℕ → List ℕ → List ℕ
with_held none leased = leased
with_held (some conn) leased = conn ∷ leased

-- The leases after a call: those of others, and the connection that a response holds.
abbrev pub leases_after : Outcome Answer → List ℕ → List ℕ
leases_after (raises e) leased = leased
leases_after (ok a) leased = with_held a.connection leased

abbrev pub leases_next : Next → List ℕ → List ℕ
leases_next (finished o) leased = leases_after o leased
leases_next (again q) leased = leased

abbrev pub Behaves : World → List ℕ → Next × State → Type 0
Behaves w leased r = Steps w (world r.1.pool (leases_next r.0 leased))

count_self : (c : ℕ) (leased : List ℕ) → 1 ≤ count c (c ∷ leased)
unfolding count
count_self c leased = ground arith

drop_one_self : (c : ℕ) (leased : List ℕ) → drop_one c (c ∷ leased) ≡ leased
unfolding drop_one
drop_one_self c leased = ground arith

pub put_back :
    {w : World} (c : ℕ) (p : Pool) (leased : List ℕ)
    → Steps w (world p (c ∷ leased))
    → Steps w (world (put_conn (some c) p).1 leased)
put_back {w} c p leased st =
    subst (λ l. Steps w (world (put_conn (some c) p).1 l)) (drop_one_self c leased)
      (next st (puts (world p (c ∷ leased)) c (count_self c leased)))

discard_back :
    {w : World} (c : ℕ) (p : Pool) (leased : List ℕ)
    → Steps w (world p (c ∷ leased))
    → Steps w (world (discard (some c) p).1 leased)
unfolding discard
discard_back {w} c p leased st =
    subst (λ l. Steps w (world (put_conn none (close_conn (some c) p)).1 l))
      (drop_one_self c leased) (next st (discards (world p (c ∷ leased)) c (count_self c leased)))

give_back-Steps :
    {w : World} (held : Option ℕ) (p : Pool) (leased : List ℕ)
    → Steps w (world p (with_held held leased))
    → Steps w (world (give_back held p) leased)
give_back-Steps none p leased st = st
give_back-Steps (some c) p leased st = put_back c p leased st

pub drain-Steps :
    {w : World} (a : Answer) (s : State) (leased : List ℕ)
    → Steps w (world s.pool (with_held a.connection leased))
    → Steps w (world (drain a s).pool leased)
unfolding drain
drain-Steps a s leased st = give_back-Steps a.connection s.pool leased st

-- An attempt that ended in an error holds nothing.
pub after_error-holds :
    (t : Turn) (q : Request) (e : Error) (leased : List ℕ)
    → leases_next (after_error t q e) leased ≡ leased
unfolding after_error
after_error-holds t q e leased = elim (Bool-cases (handled e)) [
  | inl on ↦ rw on (outcome (increment q.retries _))
  | inr off ↦ rw off refl
]
  where
    outcome : (o : Outcome Retry) → leases_next (retried q o) leased ≡ leased
    outcome (ok r) = refl
    outcome (raises x) = refl

pub ended-Behaves :
    {w : World} (s : State) (d : Done) (n : Next) (leased : List ℕ)
    → leases_next n leased ≡ leased
    → Steps w (world d.1 leased)
    → Behaves w leased (ended s d n)
ended-Behaves s (raises e, p) n leased h st = st
ended-Behaves {w} s (ok v, p) n leased h st = subst (λ l. Steps w (world p l)) (sym h) st

-- `_get_conn` fails on a closed pool or an empty one, and changes neither.
pub get_from-raises :
    (dropped : ℕ → Bool) (q : Option Queue) (p p' : Pool) (e : Error)
    → get_from dropped q p ≡ (raises e, p')
    → (p' ≡ p) × ((q ≡ none) ⊎ (e ≡ plain empty_pool_error))
get_from-raises dropped none p p' e h = (ground arith, inl refl)
get_from-raises dropped (some []) p p' e h = (ground arith, inr (ground arith))
get_from-raises dropped (some (item ∷ rest)) p p' e h = cc

pub failed-Behaves :
    {w : World} (t : Turn) (q : Request) (conn : ℕ) (e : Error) (s : State) (leased : List ℕ)
    → Steps w (world s.pool (conn ∷ leased))
    → Behaves w leased (failed t q (some conn) e s)
unfolding failed
failed-Behaves t q conn e s leased st =
    ended-Behaves s (discard (some conn) s.pool) (after_error t q e) leased
      (after_error-holds t q e leased) (discard_back conn s.pool leased st)

-- Nothing is put into a closed pool.
discard-closed : (p : Pool) → p.queue ≡ none → (discard none p).1 ≡ p
unfolding discard close_conn put_conn
discard-closed p h = rw h refl

is_empty_pool : is_instance (plain empty_pool_error) empty_pool_error ≡ true
unfolding is_subclass
is_empty_pool = refl

pub no_conn-Behaves :
    {w : World} (t : Turn) (q : Request) (e : Error) (s : State) (leased : List ℕ)
    → (s.pool.queue ≡ none) ⊎ (e ≡ plain empty_pool_error)
    → Steps w (world s.pool leased)
    → Behaves w leased (no_conn t q e s)
unfolding failed
no_conn-Behaves {w} t q e s leased why st = elim (Bool-cases (is_instance e empty_pool_error)) [
  | inl empty ↦ rw empty st
  | inr other ↦ elim why [
    | inl closed ↦ rw other (
        ended-Behaves s (discard none s.pool) (after_error t q e) leased
          (after_error-holds t q e leased)
          (subst (λ p. Steps w (world p leased)) (sym (discard-closed s.pool closed)) st))
    | inr same ↦ absurd (cc (is_empty_pool, ap (λ x. is_instance x empty_pool_error) same))
  ]
]

-- For a response, `increment` raises nothing but a `MaxRetryError`.
exhausted_is_max :
    (url : Option Text) (e : Error) → is_instance (exhausted url e) max_retry_error ≡ true
unfolding is_subclass
exhausted_is_max url e = refl

pub charged-raises :
    (q : Request) (url : Text) (a : Answer) (e : Error)
    → charged q url a ≡ raises e
    → is_instance e max_retry_error ≡ true
charged-raises q url a e h = elim (increment-raises q.retries _ e h) [
  | inl (p, final) ↦ cc
  | inr (c, p, same, spent) ↦
      ap (λ x. is_instance x max_retry_error) same ∙ exhausted_is_max (some url) (caused c.cause)
]

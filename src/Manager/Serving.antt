-- ===== src/Manager/Serving.antt =====
-- The pool that a manager hands out fits the request.
use urllib.Prelude.{
  ℕ, Bool, true, false, Option, none, some, List, [], ◌∷◌, all, ◌==◌, BEq, nat_eq, if◌then◌else◌,
}
use urllib.Prelude.Text.{Text, codes, lower, text_eq}
use urllib.Prelude.Compare.{options_eq, pair_eq}
use urllib.Exceptions.{
  Outcome, ok, raises, plain, type_error, other_exception, url_scheme_unknown, location_value_error,
}
use urllib.Collections.RecentlyUsed.{Container, get_item}
use urllib.Collections.RecentlyUsed.Entries.{Keeps, Hits, get_item-Hits, set_item-Keeps}
use urllib.Manager.{
  init, clear_pools, Kwargs, Values, Context, key_fields, PoolKey, default_key_normalizer,
  ManagedPool, Manager, stored, cached_or, connection_from_pool_key, keyed, without_strict,
  connection_from_context, host_context, own_context, Result, connection_from_host, mentions,
}
use urllib.Manager.Keys.{Serves, key_of, Fits, new_pool-Fits}

-- A call of a manager.
pub data Call (V : Type 0) : Type 0 where
  from_context : Context V → Call V
  from_host : Text → Option ℕ → Text → Kwargs V → Call V
  clears : Call V

module _ {V : Type 0} (p : Values V) where
  module _ ⦃e : BEq V⦄ where
    -- Each pool of the manager serves the key that it is kept under.
    abbrev pub IsServing : Manager V → Type 0
    IsServing m = Keeps (Serves p) m.pools

    abbrev pub Answers : Context V → Result p → Type 0
    Answers ctx r = Fits p ctx r.0 × IsServing r.1

    stored-Answers :
        (m : Manager V) (ctx : Context V) (o : Outcome (ManagedPool V) × Context V)
        → IsServing m
        → Fits p ctx o.0
        → Answers ctx (stored p m (key_of p ctx) o)
    stored-Answers m ctx (raises err, left) h q = (tt, h)
    stored-Answers m ctx (ok pool, left) h q =
        (q, set_item-Keeps (Serves p) m.pools (key_of p ctx) pool h q)

    cached-Answers :
        (m : Manager V) (ctx : Context V)
        (o : Option (ManagedPool V × Container (PoolKey V) (ManagedPool V)))
        → IsServing m
        → Hits (Serves p) (key_of p ctx) o
        → Answers ctx (cached_or p m (key_of p ctx) ctx o)
    cached-Answers m ctx (some (pool, pools)) h q = (q.0, q.1)
    cached-Answers m ctx none h q = stored-Answers m ctx _ h (new_pool-Fits p m.made ctx)

    keyed-Answers :
        (m : Manager V) (ctx : Context V)
        → IsServing m
        → Answers ctx (keyed p m ctx (default_key_normalizer p ctx))
    unfolding default_key_normalizer connection_from_pool_key
    keyed-Answers m ctx h = by_names (all (λ item. mentions item.0 key_fields) ctx.rest)
      where
        by_names :
            (b : Bool)
            → Answers ctx
                (keyed p m ctx (if b then ok (key_of p ctx) else raises (plain type_error)))
        by_names true =
            cached-Answers m ctx (get_item m.pools (key_of p ctx)) h
              (get_item-Hits (Serves p) m.pools (key_of p ctx) h)
        by_names false = (tt, h)

    pub context-Answers :
        (m : Manager V) (ctx : Context V)
        → IsServing m
        → Answers (without_strict p ctx) (connection_from_context p m ctx)
    unfolding connection_from_context
    context-Answers m ctx h =
        by_scheme ctx.has_names (mentions (lower ctx.scheme) (codes "http" ∷ codes "https" ∷ []))
      where
        by_scheme :
            (names b : Bool)
            → Answers (without_strict p ctx) (
                if names
                then (if b
                    then keyed p m
                        (without_strict p ctx)
                        (default_key_normalizer p (without_strict p ctx))
                    else (raises (plain url_scheme_unknown), m, without_strict p ctx))
                else (raises (plain other_exception), m, without_strict p ctx))
        by_scheme true true = keyed-Answers m (without_strict p ctx) h
        by_scheme true false = (tt, h)
        by_scheme false b = (tt, h)

    host-Answers :
        (m : Manager V) (host : Text) (port : Option ℕ) (scheme : Text) (kwargs : Kwargs V)
        → IsServing m
        → Fits p
            (without_strict p (host_context m host port scheme kwargs))
            (connection_from_host p m host port scheme kwargs).0
          × IsServing (connection_from_host p m host port scheme kwargs).1
    unfolding connection_from_host
    host-Answers m host port scheme kwargs h = by_host (host == [])
      where
        ctx : Context V
        ctx = host_context m host port scheme kwargs

        by_host :
            (b : Bool)
            → let r =
                if b
                then (raises (plain location_value_error), m)
                else own_context p (connection_from_context p m ctx) in
              Fits p (without_strict p ctx) r.0 × IsServing r.1
        by_host true = (tt, h)
        by_host false = context-Answers m ctx h

    -- Every pool that is handed out fits what is asked for.
    abbrev pub AllFit : Manager V → List (Call V) → Type 0
    AllFit m [] = Unit
    AllFit m (from_context ctx ∷ calls) =
        Fits p (without_strict p ctx) (connection_from_context p m ctx).0
        × AllFit (connection_from_context p m ctx).1 calls
    AllFit m (from_host host port scheme kwargs ∷ calls) =
        Fits p (without_strict p (host_context m host port scheme kwargs))
          (connection_from_host p m host port scheme kwargs).0
        × AllFit (connection_from_host p m host port scheme kwargs).1 calls
    AllFit m (clears ∷ calls) = AllFit (clear_pools m) calls

    serving-AllFit : (m : Manager V) (calls : List (Call V)) → IsServing m → AllFit m calls
    unfolding clear_pools
    serving-AllFit m [] h = tt
    serving-AllFit m (from_context ctx ∷ calls) h =
        let (q, k) = context-Answers m ctx h in
        (q, serving-AllFit (connection_from_context p m ctx).1 calls k)
    serving-AllFit m (from_host host port scheme kwargs ∷ calls) h =
        let (q, k) = host-Answers m host port scheme kwargs h in
        (q, serving-AllFit (connection_from_host p m host port scheme kwargs).1 calls k)
    serving-AllFit m (clears ∷ calls) h = serving-AllFit (clear_pools m) calls tt

    -- Whatever a new manager is asked for, each pool that it hands out, made for the call or taken from its
    -- cache, has the host, in any spelling, the port and the scheme that are asked for, and for `https` the
    -- same settings, those of TLS included.
    pub init-AllFit :
        (n : ℕ) (kwargs : Kwargs V) (calls : List (Call V)) → AllFit (init n kwargs) calls
    unfolding init
    init-AllFit n kwargs calls = serving-AllFit (init n kwargs) calls tt

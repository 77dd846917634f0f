-- ===== src/Manager/Caching.antt =====
-- A manager hands the same pool out again.
use urllib.Prelude.{
  ◌==◌, ℕ, suc, ◌⊎◌, inl, inr, ◌≤◌, Bool, true, false, Option, none, some, List, [], ◌∷◌, all, BEq,
  ◌≡◌, refl, ap, ◌∙◌, subst, nat_eq, if◌then◌else◌,
}
use urllib.Prelude.Text.{Text, codes, lower, text_eq}
use urllib.Prelude.Compare.{options_eq, pair_eq}
use urllib.Exceptions.{Outcome, ok, raises, plain, type_error, other_exception, url_scheme_unknown}
use urllib.Dict.{get}
use urllib.Collections.RecentlyUsed.{Container, get_item}
use urllib.Collections.RecentlyUsed.Entries.{Finds, get_item-Finds, get-set_item, get_item-some}
use urllib.Manager.{
  Values, Context, key_fields, PoolKey, default_key_normalizer, ManagedPool, Manager, stored,
  cached_or, connection_from_pool_key, keyed, without_strict, connection_from_context, mentions,
  Result, made_of, new_pool, remove_all, ssl_keywords, blocksize_set,
}
use urllib.Manager.Keys.{key_of}

module _ {V : Type 0} (p : Values V) ⦃e : BEq V⦄ where
  abbrev schemes : List Text
  schemes = codes "http" ∷ codes "https" ∷ []

  abbrev known : Context V → Bool
  known ctx = all (λ item. mentions item.0 key_fields) ctx.rest

  -- A pool that was found leaves the context; one that was made takes its names out.
  abbrev Leaves : Manager V → Context V → Manager V → Context V → Type 0
  Leaves m ctx m' left =
      ((m'.made ≡ m.made) × (left ≡ ctx)) ⊎ ((m'.made ≡ suc m.made) × (left.has_names ≡ false))

  abbrev Stored : Manager V → PoolKey V → Context V → Result p → Type 0
  Stored m key ctx (raises err, m', left) = Unit
  Stored m key ctx (ok pool, m', left) =
      (get m'.pools.entries key ≡ some pool) × Leaves m ctx m' left

  abbrev Empties : Outcome (ManagedPool V) × Context V → Type 0
  Empties (raises err, left) = Unit
  Empties (ok pool, left) = left.has_names ≡ false

  new_pool-Empties : (number : ℕ) (ctx : Context V) → Empties (new_pool p number ctx)
  unfolding new_pool
  new_pool-Empties number ctx = go (ctx.scheme == codes "http") (ctx.scheme == codes "https")
    where
      go :
          (http https : Bool)
          → Empties (
              if http
              then made_of p number ctx (remove_all ssl_keywords (blocksize_set p ctx.rest))
              else if https
              then made_of p number ctx (blocksize_set p ctx.rest)
              else (raises (plain other_exception), ctx))
      go true https = refl
      go false true = refl
      go false false = tt

  stored-Stored :
      (m : Manager V) (key : PoolKey V) (ctx : Context V) (o : Outcome (ManagedPool V) × Context V)
      → 1 ≤ m.pools.maxsize
      → Empties o
      → Stored m key ctx (stored p m key o)
  stored-Stored m key ctx (raises err, left) room h = tt
  stored-Stored m key ctx (ok pool, left) room h =
      (get-set_item m.pools key pool room, inr (refl, h))

  cached-Stored :
      (m : Manager V) (key : PoolKey V) (ctx : Context V)
      (o : Option (ManagedPool V × Container (PoolKey V) (ManagedPool V)))
      → 1 ≤ m.pools.maxsize
      → Finds key o
      → Stored m key ctx (cached_or p m key ctx o)
  cached-Stored m key ctx (some (pool, pools)) room h = (h, inl (refl, refl))
  cached-Stored m key ctx none room h =
      stored-Stored m key ctx (new_pool p m.made ctx) room (new_pool-Empties m.made ctx)

  -- A pool that is handed out is in the cache, and the scheme and the keywords were good.
  abbrev Good : Manager V → Context V → Result p → Type 0
  Good m ctx (raises err, m', left) = Unit
  Good m ctx (ok pool, m', left) =
      (ctx.has_names ≡ true)
      × (mentions (lower ctx.scheme) schemes ≡ true)
      × (known (without_strict p ctx) ≡ true)
      × (get m'.pools.entries (key_of p (without_strict p ctx)) ≡ some pool)
      × Leaves m (without_strict p ctx) m' left

  Stored-Good :
      (m : Manager V) (ctx : Context V) (r : Result p)
      → ctx.has_names ≡ true
      → mentions (lower ctx.scheme) schemes ≡ true
      → known (without_strict p ctx) ≡ true
      → Stored m (key_of p (without_strict p ctx)) (without_strict p ctx) r
      → Good m ctx r
  Stored-Good m ctx (raises err, m', left) n s k h = tt
  Stored-Good m ctx (ok pool, m', left) n s k h = (n, s, k, h.0, h.1)

  context-Good :
      (m : Manager V) (ctx : Context V)
      → 1 ≤ m.pools.maxsize
      → Good m ctx (connection_from_context p m ctx)
  unfolding connection_from_context default_key_normalizer connection_from_pool_key
  context-Good m ctx room =
      go ctx.has_names (mentions (lower ctx.scheme) schemes) (known (without_strict p ctx)) refl
        refl refl
    where
      key : PoolKey V
      key = key_of p (without_strict p ctx)

      go :
          (n b k : Bool)
          → ctx.has_names ≡ n
          → mentions (lower ctx.scheme) schemes ≡ b
          → known (without_strict p ctx) ≡ k
          → Good m ctx (
              if n
              then (if b
                  then keyed p m
                      (without_strict p ctx)
                      (if k then ok key else raises (plain type_error))
                  else (raises (plain url_scheme_unknown), m, without_strict p ctx))
              else (raises (plain other_exception), m, without_strict p ctx))
      go true true true n s k = Stored-Good m ctx _ n s k (
          cached-Stored m key (without_strict p ctx) (get_item m.pools key) room
            (get_item-Finds m.pools key))
      go true true false n s k = tt
      go true false known_names n s k = tt
      go false b known_names n s k = tt

  Good-ok :
      (m : Manager V) (ctx : Context V) (pool : ManagedPool V) (r : Result p)
      → r.0 ≡ ok pool
      → Good m ctx r
      → Good m ctx (ok pool, r.1, r.2)
  Good-ok m ctx pool (o, m', left) h g = subst (λ k. Good m ctx (k, m', left)) h g

  nameless :
      (m : Manager V) (ctx : Context V)
      → ctx.has_names ≡ false
      → (connection_from_context p m ctx).0 ≡ raises (plain other_exception)
  unfolding connection_from_context
  nameless m ctx h = rw h refl

  -- What the caller's own context is good for after a pool was handed out for it.
  abbrev pub Reuses : Manager V → Context V → Result p → Type 0
  Reuses m ctx (o, m', left) =
      ((m'.made ≡ m.made) × (left ≡ without_strict p ctx))
      ⊎ ((m'.made ≡ suc m.made)
          × ((connection_from_context p m' left).0 ≡ raises (plain other_exception)))

  Leaves-Reuses :
      (m : Manager V) (ctx : Context V) (o : Outcome (ManagedPool V)) (m' : Manager V)
      (left : Context V)
      → Leaves m (without_strict p ctx) m' left
      → Reuses m ctx (o, m', left)
  Leaves-Reuses m ctx o m' left (inl same) = inl same
  Leaves-Reuses m ctx o m' left (inr (one_more, gone)) = inr (one_more, nameless m' left gone)

  -- The same context with other spellings of scheme and host.
  abbrev pub respelled : Context V → Text → Text → Context V
  respelled ctx scheme host = record ctx { scheme = scheme; host = host }

  key-respelled :
      (ctx : Context V) (scheme host : Text)
      → lower scheme ≡ lower ctx.scheme
      → lower host ≡ lower ctx.host
      → key_of p (without_strict p (respelled ctx scheme host)) ≡ key_of p (without_strict p ctx)
  key-respelled ctx scheme host s h = rw (s, h) refl

  found :
      (m' : Manager V) (ctx : Context V) (pool : ManagedPool V) (scheme host : Text)
      → ctx.has_names ≡ true
      → mentions (lower ctx.scheme) schemes ≡ true
      → known (without_strict p ctx) ≡ true
      → get m'.pools.entries (key_of p (without_strict p ctx)) ≡ some pool
      → lower scheme ≡ lower ctx.scheme
      → lower host ≡ lower ctx.host
      → (connection_from_context p m' (respelled ctx scheme host)).0 ≡ ok pool
  unfolding connection_from_context default_key_normalizer connection_from_pool_key
  found m' ctx pool scheme host n good names there s h =
      let again = without_strict p (respelled ctx scheme host) in
      ap
        (λ b.
          (if b
            then (if mentions (lower scheme) schemes
                then keyed p m' again (default_key_normalizer p again)
                else (raises (plain url_scheme_unknown), m', again))
            else (raises (plain other_exception), m', again)).0)
        n
      ∙ ap
          (λ b.
            (if b
              then keyed p m' again (default_key_normalizer p again)
              else (raises (plain url_scheme_unknown), m', again)).0)
          (ap (λ t. mentions t schemes) s ∙ good)
      ∙ ap
          (λ b. (keyed p m' again (if b then ok (key_of p again) else raises (plain type_error))).0)
          names
      ∙ ap (λ k. (cached_or p m' k again (get_item m'.pools k)).0)
          (key-respelled ctx scheme host s h)
      ∙ ap (λ o. (cached_or p m' (key_of p (without_strict p ctx)) again o).0)
          (get_item-some m'.pools (key_of p (without_strict p ctx)) pool there)

  -- A manager that keeps at least one pool and hands a pool out for a context hands the same pool out
  -- for a context with the entries that the first one had, however the scheme and the host are spelled
  -- then. The first context itself is as it was, without `strict`, if the pool was in the cache; if the
  -- pool was made, asking with that context again is an error.
  pub connection_from_context_again :
      (m : Manager V) (ctx : Context V) (pool : ManagedPool V) (scheme host : Text)
      → 1 ≤ m.pools.maxsize
      → (connection_from_context p m ctx).0 ≡ ok pool
      → lower scheme ≡ lower ctx.scheme
      → lower host ≡ lower ctx.host
      → ((connection_from_context p
            (connection_from_context p m ctx).1
            (respelled ctx scheme host)).0
          ≡ ok pool)
        × Reuses m ctx (connection_from_context p m ctx)
  connection_from_context_again m ctx pool scheme host room first s h =
      let m' = (connection_from_context p m ctx).1 in
      let (n, good, names, there, left) =
        Good-ok m ctx pool (connection_from_context p m ctx) first (context-Good m ctx room) in
      (
        found m' ctx pool scheme host n good names there s h,
        Leaves-Reuses m ctx (connection_from_context p m ctx).0 m'
            (connection_from_context p m ctx).2 left,
      )

-- ===== src/Manager.antt =====
-- src/urllib3/poolmanager.py: `PoolManager`, which keeps a pool for each key in a
-- `RecentlyUsedContainer`.
pub mod Keys
pub mod Serving
pub mod Caching
pub mod Tests
use urllib.Prelude.{
  ℕ, suc, nat_eq, Bool, true, false, not, Option, none, some, List, [], ◌∷◌, map, any, all, or_else,
  String, ◌==◌, BEq, if◌then◌else◌,
}
use urllib.Prelude.Text.{Text, codes, lower, text_eq}
use urllib.Prelude.Compare.{options_eq, pair_eq}
use urllib.Exceptions.{
  Outcome, ok, raises, plain, type_error, other_exception, location_value_error, url_scheme_unknown,
}
use urllib.Dict.{Dict, get, set, remove, has}
use urllib.Collections.RecentlyUsed
use urllib.Collections.RecentlyUsed.{Container, get_item, set_item, clear}

-- Keyword arguments of pools and connections; `none` is `None`.
abbrev pub Kwargs : Type 0 → Type 0
Kwargs V = Dict Text (Option V)

-- What Python does with the values of keyword arguments.
pub record Values (V : Type 0) : Type 0 where
  -- `frozenset(v.items())` and `tuple(v)`
  pub frozen : V → V
  pub as_tuple : V → V
  -- `_DEFAULT_BLOCKSIZE`
  pub default_blocksize : V

-- A request context, a dictionary: the entries for the scheme, the host and the port, and the others.
-- Without names, the first three are gone, and their values here mean nothing.
pub record Context (V : Type 0) : Type 0 where
  pub has_names : Bool
  pub scheme : Text
  pub host : Text
  pub port : ℕ
  pub rest : Kwargs V

-- The names of the other keywords, which are the fields of `PoolKey` without `key_`.
abbrev pub key_fields : List Text
key_fields = map codes (
    "timeout" ∷ "retries" ∷ "block" ∷ "source_address" ∷ "key_file" ∷ "key_password" ∷ "cert_file"
    ∷ "cert_reqs" ∷ "ca_certs" ∷ "ca_cert_data" ∷ "ssl_version" ∷ "ssl_minimum_version"
    ∷ "ssl_maximum_version" ∷ "ca_cert_dir" ∷ "ssl_context" ∷ "maxsize" ∷ "headers" ∷ "_proxy"
    ∷ "_proxy_headers" ∷ "_proxy_config" ∷ "socket_options" ∷ "_socks_options" ∷ "assert_hostname"
    ∷ "assert_fingerprint" ∷ "server_hostname" ∷ "blocksize" ∷ [])

abbrev pub ssl_keywords : List Text
ssl_keywords = map codes (
    "key_file" ∷ "cert_file" ∷ "cert_reqs" ∷ "ca_certs" ∷ "ca_cert_data" ∷ "ssl_version"
    ∷ "ssl_minimum_version" ∷ "ssl_maximum_version" ∷ "ca_cert_dir" ∷ "ssl_context" ∷ "key_password"
    ∷ "server_hostname" ∷ "assert_hostname" ∷ "assert_fingerprint" ∷ [])

-- The scheme, the host, the port, and the values of `key_fields`.
abbrev pub PoolKey : Type 0 → Type 0
PoolKey V = (Text × Text) × (ℕ × List (Option V))

abbrev pub mentions : Text → List Text → Bool
mentions name names = any (λ n. n == name) names

-- `d.get(name)`, which is `None` too for a missing name.
abbrev pub value_of : {V : Type 0} → Text → Kwargs V → Option V
value_of name kwargs = or_else none (get kwargs name)

module _ {V : Type 0} (p : Values V) where
  -- A value as the key has it.
  unfoldable pub normal : Text → V → V
  normal name v =
      if mentions name (map codes ("headers" ∷ "_proxy_headers" ∷ "_socks_options" ∷ []))
      then p.frozen v
      else if name == codes "socket_options"
      then p.as_tuple v
      else v

  abbrev pub given_field : Text → Option V → Option V
  given_field name (some v) = some (normal name v)
  given_field name none = if name == codes "blocksize" then some p.default_blocksize else none

  unfoldable pub field : Kwargs V → Text → Option V
  unfolding normal
  field kwargs name = given_field name (value_of name kwargs)

  unfoldable pub default_key_normalizer : Context V → Outcome (PoolKey V)
  unfolding field
  default_key_normalizer ctx =
      if all (λ item. mentions item.0 key_fields) ctx.rest
      then ok ((lower ctx.scheme, lower ctx.host), (ctx.port, map (field ctx.rest) key_fields))
      else raises (plain type_error)

-- A pool, by the arguments of its constructor; a pool for `https` is an `HTTPSConnectionPool`.
pub record ManagedPool (V : Type 0) : Type 0 where
  pub scheme : Text
  pub host : Text
  pub port : ℕ
  pub kwargs : Kwargs V
  -- tells it from others
  pub number : ℕ

pub record Manager (V : Type 0) : Type 0 where
  pub pools : Container (PoolKey V) (ManagedPool V)
  pub connection_pool_kw : Kwargs V
  -- how many pools have been made
  pub made : ℕ

-- `retries` among the keywords, if it is there, is a `Retry` already.
unfoldable pub init : {V : Type 0} → ℕ → Kwargs V → Manager V
unfolding RecentlyUsed.init
init num_pools connection_pool_kw = record {
  pools = RecentlyUsed.init num_pools false;
  connection_pool_kw = connection_pool_kw;
  made = 0;
}

abbrev pub remove_all : {V : Type 0} → List Text → Kwargs V → Kwargs V
remove_all [] kwargs = kwargs
remove_all (name ∷ names) kwargs = remove_all names (remove kwargs name)

-- A value of `None` removes the keyword.
abbrev pub override : {V : Type 0} → Kwargs V → Text → Option V → Kwargs V
override kwargs name none = remove kwargs name
override kwargs name (some v) = set kwargs name (some v)

unfoldable pub merge_pool_kwargs : {V : Type 0} → Kwargs V → Kwargs V → Kwargs V
merge_pool_kwargs kwargs [] = kwargs
merge_pool_kwargs kwargs ((name, value) ∷ more) =
    merge_pool_kwargs (override kwargs name value) more

abbrev pub names_of_host : List Text
names_of_host = map codes ("scheme" ∷ "host" ∷ "port" ∷ [])

-- `port_by_scheme.get(scheme.lower(), 80)`
unfoldable pub default_port : Text → ℕ
default_port scheme = if lower scheme == codes "https" then 443 else 80

abbrev pub named_scheme : Text → Text
named_scheme scheme = if scheme == [] then codes "http" else scheme

unfoldable pub host_context :
    {V : Type 0} → Manager V → Text → Option ℕ → Text → Kwargs V → Context V
unfolding merge_pool_kwargs default_port
host_context m host port scheme pool_kwargs = record {
  has_names = true;
  scheme = named_scheme scheme;
  host = host;
  port = or_else (default_port (named_scheme scheme)) port;
  rest = remove_all names_of_host (merge_pool_kwargs m.connection_pool_kw pool_kwargs);
}

-- `clear`
unfoldable pub clear_pools : {V : Type 0} → Manager V → Manager V
unfolding clear
clear_pools m = record m { pools = (clear m.pools).0 }

module _ {V : Type 0} (p : Values V) where
  abbrev pub with_blocksize : Option V → Kwargs V → Kwargs V
  with_blocksize none kwargs = set kwargs (codes "blocksize") (some p.default_blocksize)
  with_blocksize (some v) kwargs = kwargs

  abbrev pub blocksize_set : Kwargs V → Kwargs V
  blocksize_set kwargs = with_blocksize (value_of (codes "blocksize") kwargs) kwargs

  -- What is left of the caller's context: the entries for the scheme, the host and the port are taken out.
  abbrev pub emptied : Context V → Kwargs V → Context V
  emptied ctx kwargs = record ctx { has_names = false; rest = kwargs }

  abbrev pub made_of : ℕ → Context V → Kwargs V → Outcome (ManagedPool V) × Context V
  made_of number ctx kwargs = (
    ok (record {
      scheme = ctx.scheme;
      host = ctx.host;
      port = ctx.port;
      kwargs = kwargs;
      number = number;
    }),
    emptied ctx kwargs,
  )

  -- The pool, and the context of the caller, which is changed. The `KeyError` of
  -- `pool_classes_by_scheme`, which comes first, has no class of its own here.
  unfoldable pub new_pool : ℕ → Context V → Outcome (ManagedPool V) × Context V
  new_pool number ctx =
      if ctx.scheme == codes "http"
      then made_of number ctx (remove_all ssl_keywords (blocksize_set ctx.rest))
      else if ctx.scheme == codes "https"
      then made_of number ctx (blocksize_set ctx.rest)
      else (raises (plain other_exception), ctx)

  -- The pool or the error, the manager, and the context of the caller.
  abbrev pub Result : Type 0
  Result = Outcome (ManagedPool V) × Manager V × Context V

  module _ ⦃e : BEq V⦄ where
    abbrev pub stored : Manager V → PoolKey V → Outcome (ManagedPool V) × Context V → Result
    stored m key (raises e, ctx) = (raises e, m, ctx)
    stored m key (ok pool, ctx) =
        (ok pool, record m { pools = (set_item m.pools key pool).0; made = suc m.made }, ctx)

    abbrev pub cached_or :
        Manager V
        → PoolKey V
        → Context V
        → Option (ManagedPool V × Container (PoolKey V) (ManagedPool V))
        → Result
    cached_or m key ctx (some (pool, pools)) = (ok pool, record m { pools = pools }, ctx)
    cached_or m key ctx none = stored m key (new_pool m.made ctx)

    unfoldable pub connection_from_pool_key : Manager V → PoolKey V → Context V → Result
    unfolding new_pool
    connection_from_pool_key m key ctx = cached_or m key ctx (get_item m.pools key)

    abbrev pub keyed : Manager V → Context V → Outcome (PoolKey V) → Result
    keyed m ctx (raises e) = (raises e, m, ctx)
    keyed m ctx (ok key) = connection_from_pool_key m key ctx

    abbrev pub without_strict : Context V → Context V
    without_strict ctx = record ctx { rest = remove ctx.rest (codes "strict") }

    -- `request_context["scheme"]` is a `KeyError` if it is gone.
    unfoldable pub connection_from_context : Manager V → Context V → Result
    unfolding default_key_normalizer connection_from_pool_key
    connection_from_context m ctx =
        if ctx.has_names
        then (if mentions (lower ctx.scheme) (codes "http" ∷ codes "https" ∷ [])
            then keyed m (without_strict ctx) (default_key_normalizer p (without_strict ctx))
            else (raises (plain url_scheme_unknown), m, without_strict ctx))
        else (raises (plain other_exception), m, without_strict ctx)

    -- The context is one of its own.
    abbrev pub own_context : Result → Outcome (ManagedPool V) × Manager V
    own_context (o, m, ctx) = (o, m)

    -- An empty host or scheme is one that is not given.
    unfoldable pub connection_from_host :
        Manager V → Text → Option ℕ → Text → Kwargs V → Outcome (ManagedPool V) × Manager V
    unfolding connection_from_context
    connection_from_host m host port scheme pool_kwargs =
        if host == []
        then (raises (plain location_value_error), m)
        else own_context (connection_from_context m (host_context m host port scheme pool_kwargs))

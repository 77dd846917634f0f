-- ===== src/Manager/Keys.antt =====
-- Pool keys, and a pool that is made for a key.
use urllib.Prelude.{
  ℕ, Bool, true, false, Option, none, some, List, [], ◌∷◌, map, or_else, ◌==◌, ◌≡◌, ◌≢◌, refl, ap,
  ◌∙◌, sym, subst, ==-eq-true, Bool-cases, nat_eq, inl, inr, if◌then◌else◌,
}
use urllib.Prelude.Text.{Text, codes, lower, text_eq}
use urllib.Prelude.Compare.{options_eq, pair_eq}
use urllib.Exceptions.{Outcome, ok, raises, plain, other_exception}
use urllib.Dict.{get}
use urllib.Dict.Laws.{get-set}
use urllib.Manager.{
  Kwargs, Values, Context, key_fields, PoolKey, value_of, given_field, field, ManagedPool,
  with_blocksize, blocksize_set, made_of, new_pool, remove_all, ssl_keywords,
}

map_ext : {A B : Type 0} (f g : A → B) (xs : List A) → ((x : A) → f x ≡ g x) → map f xs ≡ map g xs
map_ext f g [] h = refl
map_ext f g (x ∷ xs) h = rw (h x, map_ext f g xs h) refl

http_lower : lower (codes "http") ≡ codes "http"
unfolding lower
http_lower = refl

https_lower : lower (codes "https") ≡ codes "https"
unfolding lower
https_lower = refl

apart : codes "http" ≢ codes "https"
apart h = cc h

module _ {V : Type 0} (p : Values V) where
  -- The scheme, the host, the port and, for `https`, all settings are those of the key.
  abbrev pub Serves : PoolKey V → ManagedPool V → Type 0
  Serves key pool =
      (pool.scheme ≡ key.0.0)
      × (lower pool.host ≡ key.0.1)
      × (pool.port ≡ key.1.0)
      × (pool.scheme ≡ codes "https" → map (field p pool.kwargs) key_fields ≡ key.1.1)

  abbrev pub key_of : Context V → PoolKey V
  key_of ctx = ((lower ctx.scheme, lower ctx.host), (ctx.port, map (field p ctx.rest) key_fields))

  field-with_blocksize :
      (kwargs : Kwargs V) (name : Text) (o : Option V)
      → value_of (codes "blocksize") kwargs ≡ o
      → field p (with_blocksize p o kwargs) name ≡ field p kwargs name
  unfolding field
  field-with_blocksize kwargs name (some v) h = refl
  field-with_blocksize kwargs name none h = elim (Bool-cases (codes "blocksize" == name)) [
    | inl same ↦
        subst (λ n. field p (with_blocksize p none kwargs) n ≡ field p kwargs n)
          (==-eq-true (codes "blocksize") name same)
          (ap (λ o. given_field p (codes "blocksize") (or_else none o))
              (get-set kwargs (codes "blocksize") (codes "blocksize") (some p.default_blocksize))
            ∙ sym (ap (given_field p (codes "blocksize")) h))
    | inr other ↦
        ap (λ o. given_field p name (or_else none o))
          (get-set kwargs (codes "blocksize") name (some p.default_blocksize)
            ∙ ap (λ b. if b then some (some p.default_blocksize) else get kwargs name) other)
  ]

  -- A pool that is handed out for a context; an error hands out none.
  abbrev pub Fits : Context V → Outcome (ManagedPool V) → Type 0
  Fits ctx (raises e) = Unit
  Fits ctx (ok pool) = Serves (key_of ctx) pool

  pub new_pool-Fits : (number : ℕ) (ctx : Context V) → Fits ctx (new_pool p number ctx).0
  unfolding new_pool
  new_pool-Fits number ctx =
      by_test (ctx.scheme == codes "http") (ctx.scheme == codes "https") refl refl
    where
      make : Bool → Bool → Outcome (ManagedPool V) × Context V
      make http https =
          if http
          then made_of p number ctx (remove_all ssl_keywords (blocksize_set p ctx.rest))
          else if https
          then made_of p number ctx (blocksize_set p ctx.rest)
          else (raises (plain other_exception), ctx)

      as_key :
          (name : Text)
          → lower name ≡ name
          → (ctx.scheme == name) ≡ true
          → ctx.scheme ≡ lower ctx.scheme
      as_key name h same = let e = ==-eq-true ctx.scheme name same in e ∙ sym h ∙ ap lower (sym e)

      http_https : ctx.scheme ≡ codes "http" → ctx.scheme ≡ codes "https" → ⊥
      http_https h k = apart (sym h ∙ k)

      by_test :
          (http https : Bool)
          → (ctx.scheme == codes "http") ≡ http
          → (ctx.scheme == codes "https") ≡ https
          → Fits ctx (make http https).0
      by_test true https is_http other = (
        as_key (codes "http") http_lower is_http,
        refl,
        refl,
        λ is_https. absurd (http_https (==-eq-true ctx.scheme (codes "http") is_http) is_https),
      )
      by_test false true other is_https = (
        as_key (codes "https") https_lower is_https,
        refl,
        refl,
        λ _. map_ext (field p (blocksize_set p ctx.rest)) (field p ctx.rest) key_fields (λ name.
            field-with_blocksize ctx.rest name (value_of (codes "blocksize") ctx.rest) refl),
      )
      by_test false false other neither = tt

-- ===== src/Server/Factory/Race.antt =====
-- Two calls of `FromPolicy` that overlap: both read the cache before either of them writes it.
use rate_x_rate_limiter_web.Base.{◌+◌, ◌≡◌, refl, String, Bool, none, some, List, eq_refl}
use rate_x_rate_limiter_web.Model.{PolicyDraft}
use rate_x_rate_limiter_web.Server.Factory.{
  Object, Factory, cache_key, lookup, finish, from_policy, after,
}
use rate_x_rate_limiter_web.Server.Factory.Sequential.{after-lookup}
use rate_x_rate_limiter_web.Server.Policies.{new_limiter}

-- What the two calls return, the second to write last, and the factory.
abbrev pub overlapping : Bool → String → PolicyDraft → Factory → Object × Object × Factory
overlapping in_memory backend p f =
    let k = cache_key backend p in
    let found = lookup k f.cache in
    let (first, g) = finish in_memory k p found f in
    let (second, h) = finish in_memory k p found g in (first, second, h)

module _ (in_memory : Bool) (backend : String) (p : PolicyDraft) (f : Factory)
    (missing : lookup (cache_key backend p) f.cache ≡ none) where
  -- Where the policy has no limiter yet, each call makes one.
  pub overlapping-first :
      (overlapping in_memory backend p f).0
      ≡ record { number = f.made; limiter = new_limiter in_memory p }
  overlapping-first = rw missing refl

  -- That of the call that wrote last is returned from then on, whatever is asked for in between.
  pub overlapping-later :
      (between : List PolicyDraft)
      → (from_policy in_memory backend p
          (after in_memory backend between (overlapping in_memory backend p f).2)).0
        ≡ record { number = f.made + 1; limiter = new_limiter in_memory p }
  unfolding from_policy
  overlapping-later between =
      let k : String = cache_key backend p in
      let second : Object = record { number = f.made + 1; limiter = new_limiter in_memory p } in
      let g : Factory = (overlapping in_memory backend p f).2 in
      let there : lookup k g.cache ≡ some second = rw missing (rw (eq_refl k) refl) in
      rw (after-lookup in_memory backend between g k second there)

-- ===== src/Server/Factory.antt =====
-- `LimiterFactory` of internal/middleware/rate_limit.go: the limiters that `FromPolicy` keeps. An
-- object stands for a limiter that was made, with its number: two limiters in memory with the same
-- limit are two objects, with buckets of their own.
pub mod Keys
pub mod Sequential
pub mod Race
pub mod Default
use rate_x_rate_limiter_web.Base.{
  ℕ, ◌+◌, String, Bool, Option, none, some, List, [], ◌∷◌, str_eq, if◌then◌else◌,
}
use rate_x_rate_limiter_web.Text.{join, show}
use rate_x_rate_limiter_web.Model.{PolicyDraft}
use rate_x_rate_limiter_web.Server.Policies.{Limiter, new_limiter}

pub record Object : Type 0 where
  pub number : ℕ
  pub limiter : Limiter

-- `made` is how many limiters were made.
pub record Factory : Type 0 where
  pub cache : List (String × Object)
  pub made : ℕ

abbrev pub empty : Factory
empty = record { cache = []; made = 0 }

-- `cacheKey`, for the backend of the configuration
unfoldable pub cache_key : String → PolicyDraft → String
cache_key backend p = join (
    p.algorithm
    ∷ ":"
    ∷ show p.request_limit
    ∷ ":"
    ∷ show p.window_seconds
    ∷ ":"
    ∷ show p.burst_capacity
    ∷ ":"
    ∷ backend
    ∷ [])

-- `f.limiter[key]`
abbrev pub lookup : String → List (String × Object) → Option Object
lookup k [] = none
lookup k ((j, o) ∷ cache) = if str_eq k j then some o else lookup k cache

-- A limiter is made and kept under the key, in the place of one that is there.
abbrev pub make : Bool → String → PolicyDraft → Factory → Object × Factory
make in_memory k p f =
    let o : Object = record { number = f.made; limiter = new_limiter in_memory p } in
    (o, record { cache = (k, o) ∷ f.cache; made = f.made + 1 })

-- The first part of `FromPolicy` reads the cache under the lock; the second, where nothing was
-- found, makes a limiter and writes it under the lock again.
abbrev pub finish : Bool → String → PolicyDraft → Option Object → Factory → Object × Factory
finish in_memory k p none f = make in_memory k p f
finish in_memory k p (some o) f = (o, f)

unfoldable pub from_policy : Bool → String → PolicyDraft → Factory → Object × Factory
from_policy in_memory backend p f =
    let k = cache_key backend p in finish in_memory k p (lookup k f.cache) f

-- The factory after calls for the policies, one after the other.
unfoldable pub after : Bool → String → List PolicyDraft → Factory → Factory
unfolding from_policy
after in_memory backend [] f = f
after in_memory backend (p ∷ ps) f =
    after in_memory backend ps (from_policy in_memory backend p f).1

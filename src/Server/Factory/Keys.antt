-- ===== src/Server/Factory/Keys.antt =====
-- Policies with the same cache key have the same limiter.
use Prim.Native.String.{[], ◌∷◌}
use rate_x_rate_limiter_web.Base.{ℕ, ◌≡◌, ◌≢◌, refl, String, Bool, code, arith}
use rate_x_rate_limiter_web.Text.{append, show}
use rate_x_rate_limiter_web.Text.Numbers.RoundTrip.{AllDigits, show-AllDigits, show_injective}
use rate_x_rate_limiter_web.Model.{PolicyDraft}
use rate_x_rate_limiter_web.Server.Policies.{new_limiter}
use rate_x_rate_limiter_web.Server.Factory.{cache_key}

abbrev pub HasNoColon : String → Type 0
HasNoColon [] = Unit
HasNoColon (c ∷ s) = (code c ≢ b':') × HasNoColon s

AllDigits-HasNoColon : (s : String) → AllDigits s → HasNoColon s
AllDigits-HasNoColon [] h = tt
AllDigits-HasNoColon (c ∷ s) (lo, hi, h) = (omega arith, AllDigits-HasNoColon s h)

show-HasNoColon : (n : ℕ) → HasNoColon (show n)
show-HasNoColon n = AllDigits-HasNoColon (show n) (show-AllDigits n)

-- A text is cut at its first colon in one way.
cut_once :
    (a b s t : String)
    → HasNoColon a
    → HasNoColon b
    → append a (append ":" s) ≡ append b (append ":" t)
    → (a ≡ b) × (s ≡ t)
cut_once [] [] s t h k e = (refl, cc)
cut_once [] (d ∷ b) s t h (k, ks) e = absurd (k (cc))
cut_once (c ∷ a) [] s t (h, hs) k e = absurd (h (cc))
cut_once (c ∷ a) (d ∷ b) s t (h, hs) (k, ks) e = let (p, q) = cut_once a b s t hs ks (cc) in (cc, q)

-- What `new_limiter` reads of a policy.
pub cache_key_injective :
    (backend : String) (p q : PolicyDraft)
    → HasNoColon p.algorithm
    → HasNoColon q.algorithm
    → cache_key backend p ≡ cache_key backend q
    → (p.algorithm ≡ q.algorithm)
      × (p.request_limit ≡ q.request_limit)
      × (p.window_seconds ≡ q.window_seconds)
      × (p.burst_capacity ≡ q.burst_capacity)
unfolding cache_key
cache_key_injective backend p q h k e =
    let (a, e1) = cut_once p.algorithm q.algorithm _ _ h k e in
    let (b, e2) =
      cut_once (show p.request_limit) (show q.request_limit) _ _ (show-HasNoColon _)
        (show-HasNoColon _) e1 in
    let (c, e3) =
      cut_once (show p.window_seconds) (show q.window_seconds) _ _ (show-HasNoColon _)
        (show-HasNoColon _) e2 in
    let (d, e4) =
      cut_once (show p.burst_capacity) (show q.burst_capacity) _ _ (show-HasNoColon _)
        (show-HasNoColon _) e3 in
    (a, show_injective _ _ b, show_injective _ _ c, show_injective _ _ d)

pub new_limiter-cache_key :
    (in_memory : Bool) (backend : String) (p q : PolicyDraft)
    → HasNoColon p.algorithm
    → HasNoColon q.algorithm
    → cache_key backend p ≡ cache_key backend q
    → new_limiter in_memory p ≡ new_limiter in_memory q
unfolding new_limiter
new_limiter-cache_key in_memory backend p q h k e =
    let (a, b, c, d) = cache_key_injective backend p q h k e in rw (a, b, c, d)

-- ===== src/Tests/Limiters.antt =====
-- The limiters.
use rate_x_rate_limiter_web.Base.{
  ℕ, suc, ◌≡◌, refl, String, true, false, none, some, List, [], ◌∷◌, ok, err, arith, length, str_eq,
  eq_refl, if◌then◌else◌, keep, ltb, first,
}
use rate_x_rate_limiter_web.Limiter.Token
use rate_x_rate_limiter_web.Limiter.Token.{Bucket}
use rate_x_rate_limiter_web.Limiter.Token.Bounds.{allowed_count}
use rate_x_rate_limiter_web.Limiter.Fixed
use rate_x_rate_limiter_web.Limiter.Fixed.{Counters}
use rate_x_rate_limiter_web.Limiter.Sliding
use rate_x_rate_limiter_web.Limiter.Sliding.{SortedSet, insert, decisions}
use rate_x_rate_limiter_web.Limiter.Sliding.Spec.{spec}
use rate_x_rate_limiter_web.Limiter.Sliding.Refines.{decisions-spec}

-- Two tokens a second.
abbrev pub two : Token.Config
two = record { capacity = 2; window = 1000 }

-- Four requests, of which the third is rejected.
abbrev burst : List ℕ
burst = 0 ∷ 10 ∷ 600 ∷ []

burst_test : allowed_count two none (0 ∷ burst) ≡ 3
unfolding Token.script Token.refilled Token.take_token
burst_test = refl

abbrev spent : Bucket
spent = record { tokens = 3; last_refill = 5 }

rejected : (Token.script two 7 (some spent)).allowed ≡ false
unfolding Token.script Token.refilled Token.take_token
rejected = refl

allow_test : (Token.allow two 7 none).0.remaining ≡ 1
unfolding Token.allow Token.script Token.refilled Token.take_token
allow_test = refl

pub incr-counts :
    (k : String) (s : String → ℕ) (n : ℕ)
    → ok (suc (s k)) ≡ ok n
    → (n ≡ suc (s k)) × ((if str_eq k k then suc (s k) else s k) ≡ suc (s k))
incr-counts k s n h = rw (eq_refl k) (cc h, refl)

pub never : {A : Type 0} (n : ℕ) (e : String) → ok n ≡ err e → A
never n e h = absurd (cc h)

-- Counters as a function of the key; nothing fails, and no time to live is told.
abbrev pub counts : Counters
counts = record {
  Store = String → ℕ;
  count = λ s k. s k;
  incr = λ k s. (ok (suc (s k)), λ j. if str_eq k j then suc (s j) else s j);
  expire = λ k window s. (ok tt, s);
  ttl = λ k s. none;
  incr-ok = incr-counts;
  incr-err = λ k s e h. never (suc (s k)) e h;
  count-expire = λ k window s j. refl;
}

abbrev pub scored : SortedSet
scored = record {
  Store = List ℕ;
  scores = λ s. s;
  remove_through = λ m s. keep (λ x. ltb m x) s;
  card = λ s. length s;
  add = λ x s. insert x s;
  oldest = λ s. first s;
  expire = λ ttl s. s;
  scores-remove_through = λ m s. refl;
  card-eq = λ s. refl;
  scores-add = λ x s. refl;
  oldest-eq = λ s. refl;
  scores-expire = λ ttl s. refl;
}

abbrev one_a_second : Sliding.Config
one_a_second = record { limit = 1; window = 1000 }

abbrev visits : List ℕ
visits = 5000 ∷ 5999 ∷ 6000 ∷ []

sliding_test : decisions scored one_a_second [] visits ≡ true ∷ false ∷ true ∷ []
unfolding Sliding.allow Sliding.decide Sliding.trimmed
sliding_test = refl

decisions-spec_example : decisions scored one_a_second [] visits ≡ spec one_a_second [] visits
decisions-spec_example = decisions-spec scored one_a_second 0 [] visits refl (omega arith)

-- Two requests a minute.
abbrev quota : Fixed.Config
quota = record { limit = 2; window = 60 }

abbrev moments : List ℕ
moments = 61 ∷ 70 ∷ 119 ∷ []

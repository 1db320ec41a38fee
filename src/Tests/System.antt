-- ===== src/Tests/System.antt =====
-- The server as a whole, with the limiters and a Redis that fails by a plan.
use rate_x_rate_limiter_web.Base.{
  ℕ, ◌+◌, ◌-◌, ◌*◌, ◌≤◌, ◌≡◌, refl, inr, String, Bool, false, Option, none, List, [], ◌∷◌, arith,
}
use rate_x_rate_limiter_web.Model.{Policy}
use rate_x_rate_limiter_web.App.{empty_policy}
use rate_x_rate_limiter_web.Limiter.Times.{last}
use rate_x_rate_limiter_web.Server.Auth.{header, trim_space, bearer_token, extract_api_key}
use rate_x_rate_limiter_web.Server.Gate.{Request, World, identify, address}
use rate_x_rate_limiter_web.Server.Gate.Counts.{no_totals}
use rate_x_rate_limiter_web.Server.Policies.{new_limiter, token, sliding, fixed}
use rate_x_rate_limiter_web.Server.Factory.{Object, empty, from_policy, cache_key}
use rate_x_rate_limiter_web.Server.Limits.{Kept}
use rate_x_rate_limiter_web.Server.Limits.Quota.{
  passed, own_moments, AllUnder, passed-bucket, passed-sliding, passed-fixed,
}
use rate_x_rate_limiter_web.Server.Limits.Overlap.{passed_at_once, overlapping-passed_at_once}
use rate_x_rate_limiter_web.Server.Config.{Config}
use rate_x_rate_limiter_web.Server.Factory.Default.{default_policy}
use rate_x_rate_limiter_web.Tests.Rows.{set_up}
use rate_x_rate_limiter_web.Server.Accounts.{hash_api_key}
use rate_x_rate_limiter_web.Server.Store.{revoke_key}
use rate_x_rate_limiter_web.Server.Store.Sound.{IsSound}
use rate_x_rate_limiter_web.Server.Store.Runs.{add_key, cancel_key, execute, execute-IsSound}
use rate_x_rate_limiter_web.Server.System.{State, Moment, ask, Step, Reach}
use rate_x_rate_limiter_web.Server.System.Safe.{IsSafe, Reach-IsSafe}
use rate_x_rate_limiter_web.Server.System.Revoked.{IsRefused, ask-revoked}
use rate_x_rate_limiter_web.Tests.Backend.{tables, demo_key}
use rate_x_rate_limiter_web.Tests.Service.{tables-IsSound}
use rate_x_rate_limiter_web.Tests.Gate.{
  with_key, two, find_key, find_policy, from_ip, ok_status, client_key,
}
use rate_x_rate_limiter_web.Tests.Limiters.{counts, scored}
use rate_x_rate_limiter_web.Tests.Replies.{planned, planned_set, fine, lost, down}

-- What `FromPolicy` makes of the default policy; no request has another one.
abbrev default_of : String → Option Policy → Object
default_of algorithm p =
    (from_policy false "redis"
      (record empty_policy {
        algorithm = algorithm;
        request_limit = 2;
        window_seconds = 1;
        burst_capacity = 2;
      })
      empty).0

is_token : (default_of "token_bucket" none).limiter ≡ token 2 1
unfolding from_policy new_limiter cache_key
is_token = refl

is_sliding : (default_of "sliding_window" none).limiter ≡ sliding 2 1
unfolding from_policy new_limiter cache_key
is_sliding = refl

is_fixed : (default_of "fixed_window" none).limiter ≡ fixed 2 1
unfolding from_policy new_limiter cache_key
is_fixed = refl

abbrev nothing : Kept counts scored planned_set planned
nothing = record {
  counters = λ k. 0;
  set = [];
  bucket = (none, fine ∷ lost ∷ down ∷ []);
  buckets = λ n. none;
}

abbrev fresh : World (String → Kept counts scored planned_set planned)
fresh = record { totals = no_totals; limiters = λ key. nothing }

abbrev neighbour : Request
neighbour = record from_ip { client_ip = "10.0.0.2" }

abbrev visits : List (ℕ × Request)
visits =
    (4, from_ip)
    ∷ (4, neighbour)
    ∷ (5, from_ip)
    ∷ (6, neighbour)
    ∷ (6, from_ip)
    ∷ (7, from_ip)
    ∷ (8, from_ip)
    ∷ []

abbrev VisitsUnder : (algorithm : String) → Type 0
VisitsUnder algorithm =
    AllUnder counts scored planned_set planned (default_of algorithm) (λ now. find_key) find_policy
      ok_status client_key none visits

under : (algorithm : String) → VisitsUnder algorithm
unfolding identify extract_api_key header trim_space bearer_token address
under algorithm =
    (λ e. refl, (λ e. refl, (λ e. refl, (λ e. refl, (λ e. refl, (λ e. refl, (λ e. refl, tt)))))))

abbrev moments_of : String → List ℕ
moments_of algorithm =
    own_moments counts scored planned_set planned (default_of algorithm) (λ now. find_key)
      find_policy ok_status client_key none visits

own_moments_test : (algorithm : String) → moments_of algorithm ≡ 4 ∷ 5 ∷ 6 ∷ 7 ∷ 8 ∷ []
unfolding identify extract_api_key header trim_space bearer_token address
own_moments_test algorithm = refl

abbrev past : String → ℕ
past algorithm =
    passed counts scored planned_set planned (default_of algorithm) (λ now. find_key) find_policy
      ok_status client_key none fresh visits

passed-bucket_example :
    1 * 1000 * past "token_bucket" ≤ 2 * (1 * 1000) + (last 4 (moments_of "token_bucket") - 4) * 2
passed-bucket_example =
    passed-bucket counts scored planned_set planned (default_of "token_bucket") (λ now. find_key)
      find_policy ok_status client_key none 2 1 4 fresh visits (inr is_token) (omega arith)
      (omega arith) (under "token_bucket") (rw (own_moments_test "token_bucket") (omega arith))

passed-sliding_example : past "sliding_window" ≤ 2
passed-sliding_example =
    passed-sliding counts scored planned_set planned (default_of "sliding_window") (λ now. find_key)
      find_policy ok_status client_key none 2 1 4 fresh visits is_sliding (under "sliding_window")
      (rw (own_moments_test "sliding_window") (omega arith))
      (rw (own_moments_test "sliding_window") (omega arith)) (omega arith)

passed-fixed_example : past "fixed_window" ≤ 2
passed-fixed_example =
    passed-fixed counts scored planned_set planned (default_of "fixed_window") (λ now. find_key)
      find_policy ok_status client_key none 2 1 0 fresh visits is_fixed (under "fixed_window")
      (rw (own_moments_test "fixed_window") (refl, (refl, (refl, (refl, (refl, tt))))))

-- Every secret has the hash of the demo key.
abbrev hashed : String → String
hashed secret = "h1"

abbrev never_later : String → String → Bool
never_later a b = false

abbrev begun : State ℕ
begun = record { db = tables; world = record { totals = no_totals; limiters = 0 } }

abbrev cancelled : State ℕ
cancelled = record begun { db = revoke_key "k1" "2026-01-01" tables }

abbrev noon : Moment
noon = record { text = "2026-02-01"; ms = 43200000 }

cancelled-IsSound : IsSound cancelled.db
unfolding execute
cancelled-IsSound = execute-IsSound tables (cancel_key "k1" "2026-01-01") tables-IsSound

-- Somebody asks, and the administration inserts the key again.
abbrev afterwards : State ℕ
afterwards = record {
  db = execute cancelled.db (add_key demo_key);
  world = (ask hashed never_later (λ now. two) false ok_status cancelled noon from_ip).1;
}

reached : Reach hashed never_later (λ now. two) false ok_status cancelled afterwards
reached =
    Reach.later (Reach.later Reach.here (Step.asks noon from_ip))
      (Step.administers (add_key demo_key))

ask-revoked_example :
    IsRefused hashed never_later
      (λ now. two)
      false
      ok_status
      afterwards
      (ask hashed never_later (λ now. two) false ok_status afterwards noon with_key)
unfolding extract_api_key header trim_space bearer_token hash_api_key
ask-revoked_example =
    ask-revoked hashed never_later (λ now. two) false ok_status begun afterwards "k1" "2026-01-01"
      demo_key noon with_key tables-IsSound refl reached refl refl

Reach-IsSafe_example : IsSafe afterwards
Reach-IsSafe_example =
    Reach-IsSafe hashed never_later (λ now. two) false ok_status cancelled afterwards reached
      (cancelled-IsSound, (omega arith, (refl, refl)))

-- The limiters in memory, and a default of one hundred requests in a minute.
abbrev in_process : Config
in_process = record set_up { rate_limit_backend = "memory" }

overlapping-passed_at_once_example :
    passed_at_once counts scored planned_set planned in_process false none client_key 7 empty
      (empty_policy ∷ [])
      100
      nothing
    ≡ 101
unfolding default_policy
overlapping-passed_at_once_example =
    overlapping-passed_at_once counts scored planned_set planned in_process false none client_key 7
      empty (empty_policy ∷ []) 100 100 nothing refl refl refl (omega arith) (omega arith) refl refl

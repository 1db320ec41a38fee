-- ===== src/Tests/Gate.antt =====
-- The rate limit middleware with a limiter that lets two requests of a key through.
use rate_x_rate_limiter_web.Base.{
  ℕ, suc, ◌+◌, ◌-◌, ◌≡◌, refl, String, false, Option, none, List, [], ◌∷◌, Result, ok, err, ltb,
  if◌then◌else◌, min, ◌/◌, arith,
}
use rate_x_rate_limiter_web.Model.{Policy, ApiKey}
use rate_x_rate_limiter_web.Limiter.{Decision}
use rate_x_rate_limiter_web.Server.Auth.{header, trim_space, bearer_token, extract_api_key}
use rate_x_rate_limiter_web.Server.Gate.{
  Request, World, Answer, Identity, gate, serve, identify, address, before_comma, identified,
  limited, decided,
}
use rate_x_rate_limiter_web.Limiter.Token as Token
use rate_x_rate_limiter_web.Server.Gate.Client.{ComesFrom, passes}
use rate_x_rate_limiter_web.Server.Gate.Burst.{token_at, passes-token_at}
use rate_x_rate_limiter_web.Server.Gate.Counts.{no_totals, Agree, refused, serve-Agree}

abbrev pub find_key : String → Result (ApiKey × Policy)
find_key hash = err "no rows"

abbrev pub find_policy : String → String → Result (Option Policy)
find_policy method route = ok none

-- One count for all keys; it fails on the fourth request.
abbrev pub answer_for : ℕ → Result Decision
answer_for n =
    if ltb n 3
    then ok (record {
      allowed = ltb n 2;
      remaining = 1 - n;
      retry_after = 9;
      limit = 2;
      reset_after = 9;
    })
    else err "redis is down"

abbrev pub two : Option Policy → String → ℕ → Result Decision × ℕ
two p key n = (answer_for n, suc n)

abbrev pub from_ip : Request
from_ip = record {
  method = "GET";
  full_path = "/v1/products";
  path = "/v1/products";
  headers = [];
  client_ip = "10.0.0.1";
}

abbrev pub with_key : Request
with_key = record from_ip { headers = ("X-API-Key", "rk_unknown") ∷ [] }

abbrev pub fresh : World ℕ
fresh = record { totals = no_totals; limiters = 0 }

abbrev pub ok_status : Request → ℕ
ok_status r = 200

abbrev visits : List Request
visits = with_key ∷ from_ip ∷ from_ip ∷ from_ip ∷ from_ip ∷ []

abbrev end_of_run : List Answer × World ℕ
end_of_run = serve find_key find_policy two false ok_status fresh visits

totals_test : (end_of_run.1.totals.allowed ≡ 2) × (end_of_run.1.totals.rejected ≡ 1)
unfolding gate identified identify address extract_api_key bearer_token trim_space limited decided
totals_test = (refl, refl)

serve-Agree_example :
    (end_of_run.1.totals.requests ≡ 5)
    × (end_of_run.1.totals.allowed
          + end_of_run.1.totals.rejected
          + end_of_run.1.totals.redis_errors
          + refused end_of_run.0
        ≡ 5)
    × Agree end_of_run.1.totals
serve-Agree_example =
    serve-Agree find_key find_policy two false ok_status 0 visits end_of_run.0 end_of_run.1 refl

-- The address that the client claims is the one that it is counted under.
claimed_test :
    address (record from_ip { headers = ("X-Forwarded-For", " 1.2.3.4, 10.0.0.1") ∷ [] })
    ≡ "1.2.3.4"
unfolding address header trim_space before_comma
claimed_test = refl

-- A bucket of two tokens, and three requests at once from one address.
abbrev bucket_of_two : Token.Config
bucket_of_two = record { capacity = 2; window = 1000 }

abbrev pub nobody : Identity
nobody = record {
  identity = "ip:10.0.0.1";
  identity_type = "ip";
  identity_value = "10.0.0.1";
  policy = none;
}

abbrev pub client_key : String
client_key = "ip:10.0.0.1:/v1/products"

from_ip-ComesFrom :
    ComesFrom find_key find_policy (token_at bucket_of_two 5) ok_status none client_key from_ip
unfolding identify extract_api_key header trim_space bearer_token address
from_ip-ComesFrom = (nobody, (refl, (refl, refl)))

abbrev no_bucket : World (Option Token.Bucket)
no_bucket = record { totals = no_totals; limiters = none }

passes-token_at_example :
    passes
      (serve find_key find_policy
        (token_at bucket_of_two 5)
        false
        ok_status
        no_bucket
        (from_ip ∷ from_ip ∷ from_ip ∷ [])).0
    ≡ min 3 (Token.refilled bucket_of_two 5 (Token.stored bucket_of_two 5 none) / 1000)
passes-token_at_example =
    passes-token_at bucket_of_two 5 (omega arith) (omega arith) find_key find_policy ok_status none
      client_key no_bucket (from_ip ∷ from_ip ∷ from_ip ∷ [])
      (from_ip-ComesFrom, (from_ip-ComesFrom, (from_ip-ComesFrom, tt)))

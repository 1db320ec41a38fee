-- ===== src/Tests/Limited.antt =====
-- A demo request at the middleware that is rejected, and what the dashboard shows of it.
use rate_x_rate_limiter_web.Base.{refl, false, none, some, err, str_eq, if◌then◌else◌}
use rate_x_rate_limiter_web.Text.{show}
use rate_x_rate_limiter_web.Limiter.{Decision}
use rate_x_rate_limiter_web.Api.{Response}
use rate_x_rate_limiter_web.Api.Demo.{demo_result}
use rate_x_rate_limiter_web.Server.Auth.{header, trim_space, extract_api_key, bearer_token}
use rate_x_rate_limiter_web.Server.Cors.{cors}
use rate_x_rate_limiter_web.Server.Gate.{
  identify, address, gate, identified, limited, decided, rate_headers,
}
use rate_x_rate_limiter_web.Contract.Cross.{seen}
use rate_x_rate_limiter_web.Contract.Limited.{Shows, gate-Shows}
use rate_x_rate_limiter_web.Tests.Gate.{
  find_key, find_policy, two, from_ip, ok_status, nobody, fresh,
}

abbrev refused : Decision
refused = record { allowed = false; remaining = 0; retry_after = 9; limit = 2; reset_after = 9 }

abbrev answered : Response
answered = record {
  status = 429;
  status_text = "Too Many Requests";
  header = λ name.
      if str_eq "X-RateLimit-Limit" name
      then some "2"
      else if str_eq "X-RateLimit-Remaining" name
      then some "0"
      else if str_eq "Retry-After" name
      then some "9"
      else none;
  text = "{}";
}

gate-Shows_example :
    Shows 200 refused
      (demo_result (λ t. err "no JSON") (λ v. 2) 7 (seen (cors "http://localhost:5173") answered))
unfolding identify address extract_api_key bearer_token header trim_space gate identified limited
    decided rate_headers show
gate-Shows_example =
    gate-Shows find_key find_policy two false ok_status from_ip (record fresh { limiters = 2 })
      nobody refused answered "http://localhost:5173" (λ t. err "no JSON") (λ v. 2) 7 refl refl
      (refl, (refl, (refl, (refl, tt))))

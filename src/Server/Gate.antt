-- ===== src/Server/Gate.antt =====
-- internal/middleware/rate_limit.go: who a request comes from, which policy applies to it, and what
-- it is answered. Of the repositories, `find_key` is `FindByHash` of the hash of a key, and
-- `find_policy` is `FindPolicy`; `allow` is `Allow` of the limiter that `FromPolicy` makes of a
-- policy (of the default one, for none), over the limiters' state; `next_status` is the status that
-- the rest of the chain answers with. The duration of an event is left out.
pub mod Counts
pub mod Passing
pub mod Client
pub mod Burst
use Prim.Native.String.{[], ◌∷◌}
use rate_x_rate_limiter_web.Base.{
  ℕ, ◌+◌, String, Bool, true, false, Option, none, some, List, Result, ok, err, code, ◌==◌,
  if◌then◌else◌,
}
use rate_x_rate_limiter_web.Text.{append, is_empty, or_text, join, show}
use rate_x_rate_limiter_web.Model.{Policy, ApiKey}
use rate_x_rate_limiter_web.Limiter.{Decision}
use rate_x_rate_limiter_web.Server.Auth.{header, trim_space, extract_api_key}

-- `full_path` is the pattern of the route that was found.
pub record Request : Type 0 where
  pub method : String
  pub full_path : String
  pub path : String
  pub headers : List (String × String)
  pub client_ip : String

abbrev pub route_of : Request → String
route_of r = or_text r.full_path r.path

-- The values that `identify` returns; a policy is found or not.
pub record Identity : Type 0 where
  pub identity : String
  pub identity_type : String
  pub identity_value : String
  pub policy : Option Policy

-- `strings.Split(s, ",")[0]`
unfoldable pub before_comma : String → String
before_comma [] = []
before_comma (c ∷ s) = let rest = before_comma s in if code c == b',' then [] else c ∷ rest

-- The address of a request: the first one that was forwarded, if there is any.
unfoldable pub address : Request → String
address r =
    let forwarded = trim_space (header "X-Forwarded-For" r.headers) in
    if is_empty forwarded then r.client_ip else trim_space (before_comma forwarded)

abbrev by_key : Result (ApiKey × Policy) → Result Identity
by_key (err e) = err e
by_key (ok (k, p)) = ok (record {
  identity = append "key:" k.id;
  identity_type = "api_key";
  identity_value = k.key_prefix;
  policy = some p;
})

abbrev by_ip : String → Result Identity
by_ip ip =
    if is_empty ip
    then err "missing client identity"
    else ok (record {
      identity = append "ip:" ip;
      identity_type = "ip";
      identity_value = ip;
      policy = none;
    })

unfoldable pub identify : (String → Result (ApiKey × Policy)) → Request → Result Identity
identify find_key r =
    let raw_key = extract_api_key r.headers in
    if is_empty raw_key then by_ip (address r) else by_key (find_key raw_key)

-- The route's policy, if there is one, or that of the key; an error of the lookup is as none.
abbrev pub applied : Result (Option Policy) → Option Policy → Option Policy
applied (ok (some p)) of_key = some p
applied (ok none) of_key = of_key
applied (err e) of_key = of_key

abbrev pub policy_name : Option Policy → String
policy_name none = "default"
policy_name (some p) = p.name

-- `setHeaders`
unfoldable pub rate_headers : Decision → List (String × String)
rate_headers d =
    List.◌∷◌ ("X-RateLimit-Limit", show d.limit)
      (List.◌∷◌ ("X-RateLimit-Remaining", show d.remaining)
        (List.◌∷◌ ("X-RateLimit-Reset", show d.reset_after)
          (if d.allowed then List.[] else List.◌∷◌ ("Retry-After", show d.retry_after) List.[])))

-- What is handed to `recordEvent`.
pub record Recorded : Type 0 where
  pub method : String
  pub route : String
  pub identity_type : String
  pub identity_value : String
  pub policy_name : String
  pub allowed : Bool
  pub status_code : ℕ
  pub request_limit : ℕ
  pub remaining : ℕ
  pub retry_after : ℕ

-- The counters, over all routes, and the events, newest first.
pub record Totals : Type 0 where
  pub requests : ℕ
  pub allowed : ℕ
  pub rejected : ℕ
  pub redis_errors : ℕ
  pub events : List Recorded

-- `passed` is that the rest of the chain ran.
pub record Answer : Type 0 where
  pub passed : Bool
  pub status : ℕ
  pub headers : List (String × String)

pub record World (S : Type 0) : Type 0 where
  pub totals : Totals
  pub limiters : S

abbrev pub event_of : Request → Identity → Option Policy → Decision → ℕ → Recorded
event_of r i p d status = record {
  method = r.method;
  route = route_of r;
  identity_type = i.identity_type;
  identity_value = i.identity_value;
  policy_name = policy_name p;
  allowed = d.allowed;
  status_code = status;
  request_limit = d.limit;
  remaining = d.remaining;
  retry_after = d.retry_after;
}

-- The key that the limiter counts a request under.
abbrev pub limiter_key : Request → Identity → String
limiter_key r i = join (List.◌∷◌ i.identity (List.◌∷◌ ":" (List.◌∷◌ (route_of r) List.[])))

abbrev pub policy_for :
    (String → String → Result (Option Policy)) → Request → Identity → Option Policy
policy_for find_policy r i = applied (find_policy r.method (route_of r)) i.policy

module _ (find_key : String → Result (ApiKey × Policy))
    (find_policy : String → String → Result (Option Policy)) {S : Type 0}
    (allow : Option Policy → String → S → Result Decision × S) (fail_open : Bool)
    (next_status : Request → ℕ) where
  -- After a decision.
  unfoldable pub decided : Request → Identity → Decision → Totals → Answer × Totals
  decided r i d t =
      if d.allowed
      then (
        record { passed = true; status = next_status r; headers = rate_headers d },
        record t {
          allowed = t.allowed + 1;
          events = List.◌∷◌ (event_of r i (policy_for find_policy r i) d (next_status r)) t.events;
        },
      )
      else (
        record { passed = false; status = 429; headers = rate_headers d },
        record t {
          rejected = t.rejected + 1;
          events = List.◌∷◌ (event_of r i (policy_for find_policy r i) d 429) t.events;
        },
      )

  abbrev unavailable : Answer
  unavailable = record { passed = false; status = 503; headers = List.[] }

  abbrev let_past : Request → Answer
  let_past r = record {
    passed = true;
    status = next_status r;
    headers = List.◌∷◌ ("X-RateLimit-Policy", "fail-open") List.[];
  }

  -- After the limiter's answer.
  unfoldable pub limited : Request → Identity → Result Decision → Totals → Answer × Totals
  unfolding decided
  limited r i (ok d) t = decided r i d t
  limited r i (err e) t = (
    if fail_open then let_past r else unavailable,
    record t { redis_errors = t.redis_errors + 1 },
  )

  abbrev with_limiters : S → Answer × Totals → Answer × World S
  with_limiters s (a, t) = (a, record { totals = t; limiters = s })

  abbrev unauthorized : Answer
  unauthorized = record { passed = false; status = 401; headers = List.[] }

  abbrev ask_limiter : Request → Identity → World S → Answer × World S
  ask_limiter r i w =
      let (d, s) = allow (policy_for find_policy r i) (limiter_key r i) w.limiters in
      with_limiters s (limited r i d w.totals)

  unfoldable pub identified : Request → Result Identity → World S → Answer × World S
  identified r (err e) w = (unauthorized, w)
  identified r (ok i) w = ask_limiter r i w

  -- One request.
  unfoldable pub gate : Request → World S → Answer × World S
  gate r w =
      identified r (identify find_key r)
        (record w { totals = record (w.totals) { requests = w.totals.requests + 1 } })

  -- Requests one after the other, with their answers.
  abbrev pub serve : World S → List Request → List Answer × World S
  serve w List.[] = (List.[], w)
  serve w (List.◌∷◌ r rs) =
      let (a, v) = gate r w in let (answers, u) = serve v rs in (List.◌∷◌ a answers, u)

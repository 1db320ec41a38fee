-- ===== src/Tests/Service.antt =====
-- Calls of the dashboard, served by the handlers over small tables.
use rate_x_rate_limiter_web.Base.{
  ℕ, ◌≡◌, ◌<◌, ◌≢◌, refl, String, true, false, none, some, List, [], ◌∷◌, Result, ok, err, arith,
}
use rate_x_rate_limiter_web.Text.{append}
use rate_x_rate_limiter_web.Model.{ApiKey}
use rate_x_rate_limiter_web.App.{empty_policy}
use rate_x_rate_limiter_web.Api.{Json, Response, null, settle}
use rate_x_rate_limiter_web.Api.Calls.{Call, options_of}
use rate_x_rate_limiter_web.Api.Errors.{error_body}
use rate_x_rate_limiter_web.Server.Auth.{trim_space, header}
use rate_x_rate_limiter_web.Server.Gate.{Request as Visit}
use rate_x_rate_limiter_web.Server.Store.{Db, usage_count, create_key}
use rate_x_rate_limiter_web.Server.Store.Sound.{IsSound}
use rate_x_rate_limiter_web.Server.Accounts.{create, hash_api_key, key_row, random_api_key}
use rate_x_rate_limiter_web.Server.Handlers.{failed, State, Outside, Request, in_use}
use rate_x_rate_limiter_web.Contract.Service.{answer}
use rate_x_rate_limiter_web.Contract.Service.Settles.{settle-answer}
use rate_x_rate_limiter_web.Contract.Service.Changes.{delete_policy-answer, answer-unauthorized}
use rate_x_rate_limiter_web.Contract.Service.Created.{IsListed, create_policy-IsListed}
use rate_x_rate_limiter_web.Contract.Service.Runs.{Exchange, serve_all, serve_all-IsSound}
use rate_x_rate_limiter_web.App.Handlers.{World, with_state}
use rate_x_rate_limiter_web.App.Loop.{mounted, run}
use rate_x_rate_limiter_web.Contract.Service.Notice.{deletion, notice-in_use}
use rate_x_rate_limiter_web.Server.Gate.Counts.{no_totals}
use rate_x_rate_limiter_web.Server.System.{State as ServerState, Moment, ask}
use rate_x_rate_limiter_web.Server.System.Created.{ask-created}
use rate_x_rate_limiter_web.Tests.Gate.{two, ok_status}
use rate_x_rate_limiter_web.Tests.Backend.{free, engine, tables, demo_key, log}

abbrev outside : Outside
outside = record {
  parse_policy = λ body. ok empty_policy;
  parse_key = λ body. ok (record { name = "Demo"; policy_id = "p1" });
  parse_route = λ body. err "EOF";
  required = "Error:Field validation";
  fault = none;
  user = ok "u1";
  random = ok (31 ∷ 255 ∷ []);
  sha256 = append "#";
  id = "n1";
  now = "2026-01-01";
  clock = 0;
  by_total = λ rows. rows;
}

abbrev state : State
state = record {
  db = tables;
  log = log;
  stats = record { requests = 3; allowed = 3; rejected = 0 };
}

abbrev on : String → Request
on id = record { param = id; limit = none; body = "{}" }

abbrev deleting : Call
deleting = Call.delete_policy "p1"

used : 0 < usage_count "p1" tables
unfolding usage_count
used = omega arith

-- A browser that reads every text as the conflict.
abbrev parse : String → Result Json
parse text = ok (error_body "policy_in_use" (some in_use))

abbrev conflict : Response
conflict = record { status = 409; status_text = "Conflict"; header = λ name. none; text = "{}" }

refused_test :
    answer engine outside "t" "t" deleting (on "p1") state
    ≡ some (failed 409 "policy_in_use" (some in_use), tables)
unfolding trim_space
refused_test =
    (delete_policy-answer engine outside "t" (on "p1") state refl "p1" (refl, ground arith) refl).0
      used

settle-answer_example : settle parse true conflict ≡ err in_use
unfolding options_of
settle-answer_example =
    settle-answer parse (λ p. null) engine outside "t" "t" deleting (on "p1") state
      (failed 409 "policy_in_use" (some in_use)) tables conflict (refl, ground arith) refused_test
      (refl, (refl, refl)) refl

guess-other : trim_space "guess" ≢ "secret"
unfolding trim_space
guess-other = λ e. absurd (cc)

answer-unauthorized_example :
    answer engine outside "secret" "guess" deleting (on "p1") state
    ≡ some (failed 401 "unauthorized" none, tables)
answer-unauthorized_example =
    answer-unauthorized engine outside "secret" "guess" (on "p1") state deleting
      (refl, ground arith) refl guess-other

create_policy-IsListed_example :
    IsListed empty_policy
      (λ db.
        answer engine outside
          (trim_space "t")
          "t"
          Call.get_policies
          (on "")
          (record state { db = db }))
      tables
      (answer engine outside (trim_space "t") "t" (Call.create_policy empty_policy) (on "") state)
create_policy-IsListed_example =
    create_policy-IsListed engine outside outside "t" empty_policy (on "") (on "") state refl refl

pub tables-IsSound : IsSound tables
tables-IsSound = record {
  referential = record { keys = (refl, tt); routes = tt };
  storable = (refl, (refl, tt));
  policies = (refl, (refl, tt));
  keys = (refl, tt);
  routes = tt;
}

-- One dashboard has the token, the other one has not.
abbrev exchanges : List Exchange
exchanges =
    record { call = deleting; token = "t"; request = on "p1"; outside = outside }
    ∷ record { call = Call.get_keys; token = "u"; request = on ""; outside = outside }
    ∷ record { call = Call.revoke_key "k1"; token = "t"; request = on "k1"; outside = outside }
    ∷ []

serve_all-IsSound_example : IsSound (serve_all engine "t" state exchanges).db
serve_all-IsSound_example = serve_all-IsSound engine "t" state exchanges tables-IsSound

abbrev secret : String
secret = "rx_live_1fff"

abbrev new_row : ApiKey
new_row = key_row (append "#") "u1" secret "n1" "2026-01-01" "Demo" "p1"

abbrev with_key : Db
with_key = record tables { keys = new_row ∷ demo_key ∷ [] }

created_test :
    create (append "#") (ok "u1") (ok (31 ∷ 255 ∷ [])) "n1" "2026-01-01" "Demo" "p1" tables
    ≡ (ok (record { api_key = new_row; key = secret }), with_key)
unfolding create random_api_key create_key key_row hash_api_key trim_space
created_test = refl

abbrev visit : Visit
visit = record {
  method = "GET";
  full_path = "/v1/products";
  path = "/v1/products";
  headers = ("X-API-Key", secret) ∷ [];
  client_ip = "10.0.0.1";
}

abbrev at_first : ServerState ℕ
at_first = record { db = tables; world = record { totals = no_totals; limiters = 0 } }

abbrev next_month : Moment
next_month = record { text = "2026-02-01"; ms = 5 }

ask-created_example :
    ((ask
        (append "#")
        (λ a b. false)
        (λ now. two)
        false
        ok_status
        (record at_first { db = with_key })
        next_month
        visit).0.passed
      ≡ true)
    × ((ask
          (append "#")
          (λ a b. false)
          (λ now. two)
          false
          ok_status
          (record at_first { db = with_key })
          next_month
          visit).1.limiters
        ≡ 1)
unfolding header
ask-created_example =
    ask-created (append "#") (λ a b. false) (λ now. two) false ok_status (ok "u1")
      (ok (31 ∷ 255 ∷ [])) "n1" "2026-01-01" "Demo" "p1" at_first with_key
      (record { api_key = new_row; key = secret }) next_month visit created_test refl

-- The dashboard once it has loaded.
abbrev loaded : World
loaded = record mounted { pending = [] }

notice-in_use_example :
    (run loaded (deletion free (settle parse (options_of "t" deleting).empty conflict))
      ≡ with_state loaded (record (loaded.state) { confirm = none; message = in_use }))
    × (tables ≡ tables)
unfolding trim_space
notice-in_use_example =
    notice-in_use parse (λ p. null) engine outside "t" (on "p1") state loaded free
      (failed 409 "policy_in_use" (some in_use)) tables conflict refl refl (refl, ground arith) refl
      used refused_test (refl, (refl, refl))

-- ===== src/Tests/Loops.antt =====
-- Runs of the dashboard's event loop.
use rate_x_rate_limiter_web.Base.{◌≤◌, ◌≡◌, refl, List, [], ◌∷◌, ok, err}
use rate_x_rate_limiter_web.Text.{begins}
use rate_x_rate_limiter_web.Model.{Policy}
use rate_x_rate_limiter_web.App.{no_stats}
use rate_x_rate_limiter_web.App.Load.{Answers, failures, unavailable, safe_load}
use rate_x_rate_limiter_web.App.Handlers.{
  World, calling, dispatch, with_state, ask_revoke, run_confirmed, load_more,
}
use rate_x_rate_limiter_web.App.Loop.{
  Input, user, tick, settles, run, mounted, answer, answers, pick, resume, step,
}
use rate_x_rate_limiter_web.App.Loop.Quiet.{drain, run-rest}
use rate_x_rate_limiter_web.Api.Calls.{create_key}
use rate_x_rate_limiter_web.App.Loop.Fresh.{mounted-limit}
use rate_x_rate_limiter_web.App.Loop.Confirmed.{destructive, mounted-destructive}
use rate_x_rate_limiter_web.App.Loop.Notices.{
  rounds, created, rounds-message, refresh-message, create_policy-succeeds, create_policy-fails,
}
use rate_x_rate_limiter_web.App.Loop.Notices
use rate_x_rate_limiter_web.App.Loop.Forms.{round-forms}

abbrev free : Policy
free = record {
  id = "p1";
  name = "free";
  algorithm = "token_bucket";
  request_limit = 100;
  window_seconds = 60;
  burst_capacity = 100;
  created_at = "";
  updated_at = "";
}

abbrev good : Answers
good = record {
  stats = ok no_stats;
  policies = ok (free ∷ []);
  keys = ok [];
  events = ok [];
  routes = ok [];
  top_routes = ok [];
  timeline = ok [];
}

abbrev bad : Answers
bad = record {
  stats = err "down";
  policies = err "down";
  keys = err "down";
  events = err "down";
  routes = err "down";
  top_routes = err "down";
  timeline = err "down";
}

-- The user opens the dialog, more events are asked for, and the first load is answered.
abbrev script : List Input
script =
    user (ask_revoke "k1")
    ∷ user load_more
    ∷ settles 0 (answers good)
    ∷ user run_confirmed
    ∷ tick
    ∷ []

script_test : destructive (run mounted script).pending ≡ 1
unfolding run dispatch
script_test = refl

mounted-destructive_example :
    (destructive (run mounted script).pending ≤ 1) × (destructive (run mounted script).pending ≤ 1)
mounted-destructive_example = mounted-destructive script

mounted-limit_example :
    ((run mounted script).state.event_limit ≡ 60) × ((run mounted script).effect.event_limit ≡ 60)
mounted-limit_example = mounted-limit script

-- A key is being created, and a load waits.
abbrev answering : World
answering = record mounted {
  pending =
      calling (create_key (record { name = "shop"; policy_id = "p1" })) mounted.effect
      ∷ mounted.pending;
}

-- The dashboard with the notice about missing data, and a policy chosen in both forms.
abbrev noticed : World
noticed = with_state mounted (record (mounted.state) {
  message = unavailable;
  new_key = record (mounted.state.new_key) { policy_id = "p2" };
  new_route = record (mounted.state.new_route) { policy_id = "p2" };
})

abbrev idle : World
idle = record noticed { pending = [] }

good_test : Notices.AllOk good
unfolding failures safe_load
good_test = refl

rounds-message_example : (rounds noticed (good ∷ good ∷ [])).state.message ≡ unavailable
unfolding begins
rounds-message_example = rounds-message noticed (good ∷ good ∷ []) refl (good_test, (good_test, tt))

-- The second load is answered first, then the first.
run-rest_example :
    (2 ≤ 3)
    × ((drain good
          (λ call. err "down")
          (err "down")
          1
          (run answering (settles 0 (answer (ok "")) ∷ settles 1 (answers bad) ∷ []))).pending
        ≡ [])
unfolding pick resume step run
run-rest_example =
    run-rest answering (settles 0 (answer (ok "")) ∷ settles 1 (answers bad) ∷ []) good
      (λ call. err "down") (err "down") (refl, (refl, tt))

round-forms_example :
    ((Notices.round noticed good).state.new_key.policy_id ≡ "p1")
    × ((Notices.round noticed good).state.new_route.policy_id ≡ "p1")
round-forms_example = round-forms noticed good free [] refl refl refl

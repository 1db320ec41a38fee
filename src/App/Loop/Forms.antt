-- ===== src/App/Loop/Forms.antt =====
-- The policy chosen in the forms for keys and routes across loads, and loads that fail or that are
-- answered out of order.
use rate_x_rate_limiter_web.Base.{
  ◌≡◌, refl, List, [], ◌∷◌, ok, err, String, true, false, ◌∙◌, ap, length,
}
use rate_x_rate_limiter_web.Text.{is_empty}
use rate_x_rate_limiter_web.Model.{Policy}
use rate_x_rate_limiter_web.App.{closure_of, no_stats}
use rate_x_rate_limiter_web.App.Load.{
  load, Answers, unavailable, loaded_message, failures, safe_load, default_policy,
}
use rate_x_rate_limiter_web.App.Handlers.{World, dispatch, loading, refresh, with_state}
use rate_x_rate_limiter_web.App.Loop.{user, settles, step, run, resume, answers}
use rate_x_rate_limiter_web.App.Loop.Notices.{round, round_lem, pick-last}

-- Where the effect last ran in a render with no policy chosen, each round of the timer that lists a
-- policy puts the first one into both forms, whatever the user has chosen since.
pub round-forms :
    (w : World) (a : Answers) (p : Policy) (ps : List Policy)
    → is_empty w.effect.key_policy ≡ true
    → is_empty w.effect.route_policy ≡ true
    → a.policies ≡ ok (p ∷ ps)
    → ((round w a).state.new_key.policy_id ≡ p.id) × ((round w a).state.new_route.policy_id ≡ p.id)
round-forms w a p ps h k e = rw (round_lem w a) (unfold load safe_load in (rw (e, h), rw (e, k)))

default_policy-kept :
    (captured : String) (ps : List Policy) (current : String)
    → is_empty captured ≡ false
    → default_policy captured ps current ≡ current
default_policy-kept captured [] current h = refl
default_policy-kept captured (p ∷ ps) current h = rw h

-- A refresh by the user never changes a choice that stands: with a policy chosen in both forms, the
-- forms after the load are the forms before it, whatever is answered.
pub refresh-forms :
    (w : World) (a : Answers)
    → is_empty w.state.new_key.policy_id ≡ false
    → is_empty w.state.new_route.policy_id ≡ false
    → ((run w (user refresh ∷ settles (length w.pending) (answers a) ∷ [])).state.new_key
        ≡ w.state.new_key)
      × ((run w (user refresh ∷ settles (length w.pending) (answers a) ∷ [])).state.new_route
          ≡ w.state.new_route)
unfolding run step dispatch resume
refresh-forms w a h k = rw (pick-last w.pending (loading (closure_of w.state))) (
    unfold load in
    (
      ap (λ id. record (w.state.new_key) { policy_id = id }) (default_policy-kept _ _ _ h),
      ap (λ id. record (w.state.new_route) { policy_id = id }) (default_policy-kept _ _ _ k),
    ))

abbrev pub AllFail : Answers → String → Type 0
AllFail a e =
    (a.stats ≡ err e)
    × (a.policies ≡ err e)
    × (a.keys ≡ err e)
    × (a.events ≡ err e)
    × (a.routes ≡ err e)
    × (a.top_routes ≡ err e)
    × (a.timeline ≡ err e)

-- A round of the timer in which every call fails empties all that was loaded and shows the notice;
-- the forms, the created key, the dialog, the test result, the page, the range and the number of
-- events stay as they are.
pub round-AllFail :
    (w : World) (a : Answers) (e : String)
    → AllFail a e
    → round w a
      ≡ with_state w (record (w.state) {
        stats = no_stats;
        policies = [];
        keys = [];
        events = [];
        route_policies = [];
        top_routes = [];
        timeline = [];
        message = unavailable;
      })
round-AllFail w a e (h0, h1, h2, h3, h4, h5, h6) =
    round_lem w a
    ∙ (unfold load safe_load loaded_message failures in rw (h0, h1, h2, h3, h4, h5, h6) refl)

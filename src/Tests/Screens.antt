-- ===== src/Tests/Screens.antt =====
-- What is shown and where it leads, at concrete inputs.
use rate_x_rate_limiter_web.Base.{
  ◌≡◌, refl, ℕ, String, none, some, true, false, ◌<◌, ◌^◌, List, [], ◌∷◌, ◌++◌,
}
use rate_x_rate_limiter_web.Text.{show}
use rate_x_rate_limiter_web.Api.{Json}
use rate_x_rate_limiter_web.Panels.Tester.{initial}
use rate_x_rate_limiter_web.Text.{is_empty}
use rate_x_rate_limiter_web.Text.Numbers.{ℤ, pos, to_nat, atoi}
use rate_x_rate_limiter_web.Server.Auth.{is_go_space, trim_space}
use rate_x_rate_limiter_web.Server.Config.{
  assignment, cut, trim_quotes, string_env, int_env, get_env, load, load_dot_env, config_of,
}
use rate_x_rate_limiter_web.Server.Config.Assigned.{
  IsName, IsValue, LeaveAlone, loaded, line_of, env-loaded,
}
use rate_x_rate_limiter_web.Model.{Policy, KeyDraft, RoutePolicy}
use rate_x_rate_limiter_web.App.{empty_policy}
use rate_x_rate_limiter_web.App.Loop.{mounted}
use rate_x_rate_limiter_web.App.Loop.Confirmed.{destructive}
use rate_x_rate_limiter_web.Panels.Keys.{Browser}
use rate_x_rate_limiter_web.Panels.Search.{search_rows}
use rate_x_rate_limiter_web.Panels.Policies as PolicyPanel
use rate_x_rate_limiter_web.Panels.Routes as RoutePanel
use rate_x_rate_limiter_web.Pages.View.{clicks}
use rate_x_rate_limiter_web.Pages.Policies as OnPolicies
use rate_x_rate_limiter_web.Pages.Policies.{policies_page, clicks-policies_page}
use rate_x_rate_limiter_web.Pages.Keys as OnKeys
use rate_x_rate_limiter_web.Pages.Keys.{keys_page, clicks-keys_page}
use rate_x_rate_limiter_web.Pages.Dashboard.{Locals, on_keys}
use rate_x_rate_limiter_web.Pages.Dashboard.Deletes.{clicked, clicked-destructive}
use rate_x_rate_limiter_web.Tests.Backend.{demo_key}

abbrev stringify : Json → String
stringify j = "{}"

-- A file that sets the number twice.
abbrev earlier : List String
earlier = "# which one" ∷ "REDIS_DB = '7' " ∷ []

abbrev later : List String
later = "ADMIN_TOKEN=secret" ∷ "nothing" ∷ []

redis_db-IsName : IsName "REDIS_DB"
unfolding is_go_space
redis_db-IsName = record {
  filled = refl;
  plain = (refl, (refl, (refl, (refl, (refl, (refl, (refl, (refl, tt))))))));
  free = (refl, (refl, (refl, (refl, (refl, (refl, (refl, (refl, tt))))))));
}

later-LeaveAlone : LeaveAlone "REDIS_DB" later
unfolding assignment cut trim_space trim_quotes
later-LeaveAlone = (refl, (refl, tt))

env-loaded_example :
    ((value fallback : String)
      → IsValue value
      → is_empty value ≡ false
      → string_env (loaded earlier "REDIS_DB" value later []) "REDIS_DB" fallback ≡ value)
    × ((n : ℕ) (fallback : ℤ)
        → n < 2 ^ 63
        → int_env (loaded earlier "REDIS_DB" (show n) later []) "REDIS_DB" fallback ≡ pos n)
env-loaded_example = env-loaded earlier "REDIS_DB" later [] redis_db-IsName later-LeaveAlone

config_test :
    (load
      (some (earlier ++ line_of "RATE_LIMIT_DEFAULT_LIMIT" "25" ∷ later))
      []).default_burst_capacity
    ≡ pos 25
unfolding load load_dot_env config_of assignment cut trim_space trim_quotes int_env get_env atoi
config_test = refl

abbrev gold : Policy
gold = record {
  id = "p1";
  name = "gold";
  algorithm = "token_bucket";
  request_limit = 10;
  window_seconds = 60;
  burst_capacity = 10;
  created_at = "";
  updated_at = "";
}

abbrev silver : Policy
silver = record gold { id = "p2"; name = "silver" }

-- The first policy is edited.
abbrev editing : PolicyPanel.Panel
editing = record PolicyPanel.initial { editing_id = "p1" }

abbrev read_number : String → ℕ
read_number v = to_nat (atoi v).value

clicks-policies_page_example :
    clicks (policies_page read_number empty_policy editing (gold ∷ silver ∷ []))
    ≡ OnPolicies.fill PolicyPanel.FormEdit.reset
      ∷ OnPolicies.submit
      ∷ OnPolicies.work (PolicyPanel.save_edit "p1")
      ∷ OnPolicies.work PolicyPanel.cancel_edit
      ∷ OnPolicies.work (PolicyPanel.start_edit silver)
      ∷ OnPolicies.remove silver
      ∷ []
unfolding search_rows
clicks-policies_page_example =
    clicks-policies_page read_number empty_policy editing (gold ∷ silver ∷ [])

abbrev no_key : KeyDraft
no_key = record { name = ""; policy_id = "p1" }

clicks-keys_page_example :
    clicks (keys_page (λ v. v) no_key (gold ∷ []) "rx_live_00" (demo_key ∷ []))
    ≡ OnKeys.submit
      ∷ OnKeys.submit
      ∷ OnKeys.copy "rx_live_00"
      ∷ OnKeys.copy "rk_"
      ∷ OnKeys.revoke "k1"
      ∷ OnKeys.docs
      ∷ OnKeys.docs
      ∷ []
clicks-keys_page_example = clicks-keys_page (λ v. v) no_key (gold ∷ []) "rx_live_00" (demo_key ∷ [])

abbrev old_browser : Browser
old_browser = record { write_text = none; exec_copy = λ v. false }

abbrev locals : Locals
locals = record { policy_panel = editing; route_panel = RoutePanel.initial; tester = initial }

abbrev products : RoutePolicy
products = record {
  id = "r1";
  method = "GET";
  route_pattern = "/v1/products";
  policy_id = "p1";
  policy_name = "gold";
  enabled = true;
  created_at = "";
  updated_at = "";
}

clicked-destructive_example :
    destructive (clicked old_browser locals mounted (on_keys (OnKeys.revoke "k1"))).pending ≡ 0
clicked-destructive_example =
    clicked-destructive old_browser locals mounted (on_keys (OnKeys.revoke "k1")) refl

-- ===== src/Tests/Tables.antt =====
-- The tables of the dashboard, the clipboard and the dialog.
use rate_x_rate_limiter_web.Base.{◌≡◌, ◌↔◌, ◌⊎◌, false, none, List, [], ◌∷◌}
use rate_x_rate_limiter_web.Model.{Policy, RoutePolicy}
use rate_x_rate_limiter_web.Panels.Search.{
  search_rows, In, OccursInAny, term_of, In-search_rows_iff,
}
use rate_x_rate_limiter_web.Panels.Policies
use rate_x_rate_limiter_web.Panels.Policies.{RowEdit}
use rate_x_rate_limiter_web.Panels.Routes
use rate_x_rate_limiter_web.Panels.Keys.{Browser}

abbrev free : Policy
free = record {
  id = "p1";
  name = "free";
  algorithm = "token_bucket";
  request_limit = 100;
  window_seconds = 60;
  burst_capacity = 120;
  created_at = "";
  updated_at = "";
}

abbrev pro : Policy
pro = record free { id = "p2"; name = "pro" }

In-search_rows_iff_example : In pro (search_rows Policies.texts_of " PRO" (free ∷ pro ∷ [])) ↔ (
    In pro (free ∷ pro ∷ [])
    × ((term_of " PRO" ≡ []) ⊎ OccursInAny (term_of " PRO") (Policies.texts_of pro)))
In-search_rows_iff_example = In-search_rows_iff Policies.texts_of " PRO" (free ∷ pro ∷ []) pro

abbrev demo_route : RoutePolicy
demo_route = record {
  id = "r1";
  method = "GET";
  route_pattern = "/v1/products";
  policy_id = "p1";
  policy_name = "free";
  enabled = false;
  created_at = "";
  updated_at = "";
}

abbrev edits : List Routes.RowEdit
edits = Routes.RowEdit.policy_id "p2" ∷ []

-- An old browser whose fallback refuses.
abbrev old_browser : Browser
old_browser = record { write_text = none; exec_copy = λ s. false }

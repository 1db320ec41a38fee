-- ===== src/Panels/Routes.antt =====
-- frontend/src/components/RoutePolicyPanel.jsx: the form of a new route policy, the search, and the
-- row that is edited, as in `Panels.Policies`.
pub mod Laws
use rate_x_rate_limiter_web.Base.{
  ℕ, suc, ◌-◌, String, Bool, true, false, List, [], ◌∷◌, ◌++◌, Option, none, some, map, length,
  find, first, ◌==◌, if◌then◌else◌, str_eq,
}
use rate_x_rate_limiter_web.Text.{join, show, or_text}
use rate_x_rate_limiter_web.Model.{Policy, RoutePolicy, NewRoute, RouteDraft}
use rate_x_rate_limiter_web.Panels.Search.{search_rows}
use rate_x_rate_limiter_web.Panels.Policies.{limit_text}

-- The methods that the two selections offer.
abbrev pub methods : List String
methods = "GET" ∷ "POST" ∷ "PUT" ∷ "PATCH" ∷ "DELETE" ∷ "HEAD" ∷ "OPTIONS" ∷ []

pub data FormEdit : Type 0 where
  method : String → FormEdit
  route_pattern : String → FormEdit
  policy_id : String → FormEdit
  fill_example : FormEdit

-- `policies[0]?.id || ''`
abbrev pub first_id : List Policy → String
first_id [] = ""
first_id (p ∷ ps) = p.id

unfoldable pub edit_form : List Policy → NewRoute → FormEdit → NewRoute
edit_form policies d (method v) = record d { method = v }
edit_form policies d (route_pattern v) = record d { route_pattern = v }
edit_form policies d (policy_id v) = record d { policy_id = v }
edit_form policies d fill_example = record {
  method = "GET";
  route_pattern = "/v1/products";
  policy_id = or_text d.policy_id (first_id policies);
}

pub record Panel : Type 0 where
  pub query : String
  pub editing_id : String
  pub draft : RouteDraft
  pub sent : List (String × RouteDraft)
  pub saving : ℕ

abbrev pub initial : Panel
initial = record {
  query = "";
  editing_id = "";
  draft = record { method = "GET"; route_pattern = ""; policy_id = ""; enabled = true };
  sent = [];
  saving = 0;
}

pub data RowEdit : Type 0 where
  method : String → RowEdit
  route_pattern : String → RowEdit
  policy_id : String → RowEdit

unfoldable pub edit_row : RouteDraft → RowEdit → RouteDraft
edit_row d (RowEdit.method v) = record d { method = v }
edit_row d (RowEdit.route_pattern v) = record d { route_pattern = v }
edit_row d (RowEdit.policy_id v) = record d { policy_id = v }

abbrev pub draft_of : RoutePolicy → RouteDraft
draft_of r = record {
  method = r.method;
  route_pattern = r.route_pattern;
  policy_id = r.policy_id;
  enabled = r.enabled;
}

pub data Action : Type 0 where
  search : String → Action
  start_edit : RoutePolicy → Action
  edit : RowEdit → Action
  cancel_edit : Action
  save_edit : String → Action
  saved : Action

unfoldable pub act : Panel → Action → Panel
unfolding edit_row
act s (search q) = record s { query = q }
act s (start_edit r) = record s { editing_id = r.id; draft = draft_of r }
act s (edit e) = record s { draft = edit_row s.draft e }
act s cancel_edit = record s { editing_id = "" }
act s (save_edit id) = record s { sent = s.sent ++ (id, s.draft) ∷ []; saving = suc s.saving }
act s saved = record s { editing_id = ""; saving = s.saving - 1 }

unfoldable pub run : Panel → List Action → Panel
unfolding act
run s [] = s
run s (a ∷ actions) = run (act s a) actions

abbrev pub texts_of : RoutePolicy → List String
texts_of r = r.method ∷ r.route_pattern ∷ r.policy_name ∷ []

abbrev pub filtered_routes : List RoutePolicy → String → List RoutePolicy
filtered_routes routes query = search_rows texts_of query routes

-- The limit of the policy with the identifier, or "-".
unfoldable pub limit_of : List Policy → String → String
limit_of policies id = elim (find (λ p. str_eq p.id id) policies) [
  | none ↦ "-"
  | some p ↦ limit_text p
]

pub data Row : Type 0 where
  fields : RouteDraft → String → Row
  texts : String → String → String → String → Row

-- The limit of a row is that of the route's own policy, while the row is edited too.
unfoldable pub row : Panel → List Policy → RoutePolicy → Row
unfolding limit_of
row s policies r =
    if str_eq s.editing_id r.id
    then fields s.draft (limit_of policies r.policy_id)
    else texts r.method r.route_pattern (or_text r.policy_name r.policy_id)
        (limit_of policies r.policy_id)

unfoldable pub rows : Panel → List Policy → List RoutePolicy → List Row
unfolding row
rows s policies routes = map (row s policies) (filtered_routes routes s.query)

-- The note under a table with no rows.
unfoldable pub empty_note : Panel → List RoutePolicy → Option String
empty_note s routes =
    if length (filtered_routes routes s.query) == 0
    then some
        (if length routes == 0 then "No route policies configured yet." else "No matching routes.")
    else none

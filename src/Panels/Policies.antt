-- ===== src/Panels/Policies.antt =====
-- frontend/src/components/PolicyPanel.jsx: the form of a new policy, the search, and the row that is
-- edited. A save waits for `onUpdate`; the calls that it made are kept in `sent`. The value of a
-- number field is the number that `Number` makes of it.
pub mod Form
pub mod Editing
use rate_x_rate_limiter_web.Base.{
  ℕ, zero, suc, ◌-◌, String, Bool, true, false, List, [], ◌∷◌, ◌++◌, map, length, ◌==◌,
  if◌then◌else◌, str_eq,
}
use rate_x_rate_limiter_web.Text.{join, show}
use rate_x_rate_limiter_web.Model.{Policy, PolicyDraft}
use rate_x_rate_limiter_web.App.{empty_policy}
use rate_x_rate_limiter_web.Chart.{or_number}
use rate_x_rate_limiter_web.Panels.Search.{search_rows}

-- What the fields and the reset button of the form do.
pub data FormEdit : Type 0 where
  name : String → FormEdit
  algorithm : String → FormEdit
  request_limit : ℕ → FormEdit
  window_seconds : ℕ → FormEdit
  reset : FormEdit

unfoldable pub edit_form : PolicyDraft → FormEdit → PolicyDraft
edit_form d (name v) = record d { name = v }
edit_form d (algorithm v) = record d { algorithm = v }
edit_form d (request_limit v) = record d { request_limit = v }
edit_form d (window_seconds v) = record d { window_seconds = v }
edit_form d reset = empty_policy

pub record Panel : Type 0 where
  pub query : String
  pub editing_id : String
  pub draft : PolicyDraft
  pub sent : List (String × PolicyDraft)
  pub saving : ℕ

abbrev pub initial : Panel
initial = record { query = ""; editing_id = ""; draft = empty_policy; sent = []; saving = 0 }

pub data RowEdit : Type 0 where
  name : String → RowEdit
  algorithm : String → RowEdit
  request_limit : ℕ → RowEdit
  window_seconds : ℕ → RowEdit

-- In a row the limit is the burst capacity too.
unfoldable pub edit_row : PolicyDraft → RowEdit → PolicyDraft
edit_row d (RowEdit.name v) = record d { name = v }
edit_row d (RowEdit.algorithm v) = record d { algorithm = v }
edit_row d (RowEdit.request_limit v) = record d { request_limit = v; burst_capacity = v }
edit_row d (RowEdit.window_seconds v) = record d { window_seconds = v }

abbrev pub draft_of : Policy → PolicyDraft
draft_of p = record {
  name = p.name;
  algorithm = p.algorithm;
  request_limit = p.request_limit;
  window_seconds = p.window_seconds;
  burst_capacity = or_number p.burst_capacity p.request_limit;
}

pub data Action : Type 0 where
  search : String → Action
  start_edit : Policy → Action
  edit : RowEdit → Action
  cancel_edit : Action
  save_edit : String → Action
  saved : Action

-- `saved` is the rest of `saveEdit` once `onUpdate` has settled: `action` throws nothing, so it runs
-- whether or not the update failed.
unfoldable pub act : Panel → Action → Panel
unfolding edit_row
act s (search q) = record s { query = q }
act s (start_edit p) = record s { editing_id = p.id; draft = draft_of p }
act s (edit e) = record s { draft = edit_row s.draft e }
act s cancel_edit = record s { editing_id = "" }
act s (save_edit id) = record s { sent = s.sent ++ (id, s.draft) ∷ []; saving = suc s.saving }
act s saved = record s { editing_id = ""; saving = s.saving - 1 }

unfoldable pub run : Panel → List Action → Panel
unfolding act
run s [] = s
run s (a ∷ actions) = run (act s a) actions

-- The texts of a policy that are searched.
abbrev pub limit_text : Policy → String
limit_text p = join (show p.request_limit ∷ "/" ∷ show p.window_seconds ∷ "s" ∷ [])

abbrev pub texts_of : Policy → List String
texts_of p = p.name ∷ p.algorithm ∷ limit_text p ∷ []

abbrev pub filtered_policies : List Policy → String → List Policy
filtered_policies policies query = search_rows texts_of query policies

-- A row shows the fields of the draft while it is edited, and its texts otherwise.
pub data Row : Type 0 where
  fields : PolicyDraft → Row
  texts : String → String → String → Row

unfoldable pub row : Panel → Policy → Row
row s p =
    if str_eq s.editing_id p.id then fields s.draft else texts p.name p.algorithm (limit_text p)

unfoldable pub rows : Panel → List Policy → List Row
unfolding row
rows s policies = map (row s) (filtered_policies policies s.query)

-- "Showing … to … of … policies"
unfoldable pub footer : Panel → List Policy → String
footer s policies =
    let shown = length (filtered_policies policies s.query) in
    join (
      "Showing "
      ∷ show (if shown == 0 then 0 else 1)
      ∷ " to "
      ∷ show shown
      ∷ " of "
      ∷ show (length policies)
      ∷ " policies"
      ∷ [])

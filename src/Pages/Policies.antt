-- ===== src/Pages/Policies.antt =====
-- frontend/src/pages/PoliciesPage.jsx and the markup of frontend/src/components/PolicyPanel.jsx, with
-- what its buttons and fields do. `to_number` is `Number` of the text of a field.
use rate_x_rate_limiter_web.Base.{
  ℕ, ◌≡◌, refl, String, Bool, true, false, List, [], ◌∷◌, map, length, ◌==◌, if◌then◌else◌, str_eq,
  Bool-cases, inl, inr, ap, ◌∙◌,
}
use rate_x_rate_limiter_web.Text.{show}
use rate_x_rate_limiter_web.Model.{Policy, PolicyDraft}
use rate_x_rate_limiter_web.Panels.Policies.{
  FormEdit, RowEdit, Panel, Action, search, start_edit, edit, cancel_edit, save_edit,
  filtered_policies, limit_text, footer,
}
use rate_x_rate_limiter_web.Pages.View.{
  View, Views, words, part, button, input, select, end, ◌&◌, says, each, plain, buttons, clicks,
  clicks_in, clicks_each, clicks-listed, append_nil, Button, buttons_of,
}

-- What the user does on the page: in the form, in the table, or with the two properties of the page
-- that send something.
pub data Act : Type 0 where
  fill : FormEdit → Act
  submit : Act
  work : Action → Act
  remove : Policy → Act

-- The options of the form, and those of a row.
abbrev algorithms : List (String × String)
algorithms =
    ("token_bucket", "Token bucket")
    ∷ ("fixed_window", "Fixed window")
    ∷ ("sliding_window", "Sliding window")
    ∷ []

abbrev row_algorithms : List (String × String)
row_algorithms = plain ("token_bucket" ∷ "fixed_window" ∷ "sliding_window" ∷ [])

-- The heading of a panel, with what stands on its right.
abbrev pub heading : {A : Type 0} → String → String → View A → View A
heading title description right = part "div" "panel-heading" (
    part "div" "heading-left" (part "div" "" (says "h2" title & says "p" description & end) & end)
    & right
    & end)

-- A field with its label.
abbrev pub labeled : {A : Type 0} → String → View A → View A
labeled name field = part "label" "" (says "span" name & field & end)

-- The pager under a table, of which no button does anything.
abbrev pub pager : {A : Type 0} → View A
pager = part "div" "" (
    part "button" "pager" end
    & part "button" "pager active" (words "1" & end)
    & part "button" "pager" end
    & end)

module _ (to_number : String → ℕ) where
  unfoldable pub create_card : PolicyDraft → View Act
  create_card d = part "section" "panel policy-create-card" (
      heading "Create Policy" "Define rate limiting rules for different endpoints."
        (button "secondary-action reset-button" (fill FormEdit.reset) (words " Reset" & end))
      & part "form" "policy-form labeled" (
          labeled "Policy name" (input d.name (λ v. fill (FormEdit.name v)))
          & labeled "Token bucket"
              (select d.algorithm algorithms (λ v. fill (FormEdit.algorithm v)))
          & labeled "Requests per window"
              (input (show d.request_limit) (λ v. fill (FormEdit.request_limit (to_number v))))
          & labeled "Window (seconds)"
              (input (show d.window_seconds) (λ v. fill (FormEdit.window_seconds (to_number v))))
          & button "wide" submit (words " Create Policy" & end)
          & end)
      & end)

  -- The cells of a row that is edited.
  abbrev field_cells : PolicyDraft → Views Act → Views Act
  field_cells d rest =
      part "span" "" (input d.name (λ v. work (edit (RowEdit.name v))) & end)
      & part "span" ""
          (select d.algorithm row_algorithms (λ v. work (edit (RowEdit.algorithm v))) & end)
      & part "span" "inline-fields" (
          input (show d.request_limit) (λ v. work (edit (RowEdit.request_limit (to_number v))))
          & input (show d.window_seconds) (λ v. work (edit (RowEdit.window_seconds (to_number v))))
          & end)
      & rest

  abbrev text_cells : Policy → Views Act → Views Act
  text_cells p rest =
      says "span" p.name & says "span" p.algorithm & says "span" (limit_text p) & rest

  abbrev pub row_actions : Bool → Policy → Views Act
  row_actions edited p =
      if edited
      then button "edit-icon" (work (save_edit p.id)) end
        & button "secondary-icon" (work cancel_edit) end
        & end
      else button "edit-icon" (work (start_edit p)) end & button "danger-icon" (remove p) end & end

  unfoldable pub table_row : Panel → Policy → View Act
  table_row s p =
      let edited = str_eq s.editing_id p.id in
      let actions = part "span" "action-pair" (row_actions edited p) & end in
      part "div" "row policy-row"
        (if edited then field_cells s.draft actions else text_cells p actions)

  abbrev no_matches : Bool → Views Act → Views Act
  no_matches none rest =
      if none
      then part "div" "empty-state slim" (words "No matching policies." & end) & rest
      else rest

  unfoldable pub list_card : Panel → List Policy → View Act
  list_card s policies =
      let shown = filtered_policies policies s.query in
      part "section" "panel policy-list-card" (
        heading "Existing Policies" "Manage your configured rate limiting policies."
          (part "label" "table-search" (input s.query (λ v. work (search v)) & end))
        & part "div" "table policy-table" (
            part "div" "table-head policy-head" (
              says "span" "Policy"
              & says "span" "Algorithm"
              & says "span" "Limit"
              & says "span" "Actions"
              & end)
            & each (table_row s) shown (
                no_matches (length shown == 0) (
                  part "div" "table-footer" (says "span" (footer s policies) & pager & end) & end)))
        & end)

  unfoldable pub policies_page : PolicyDraft → Panel → List Policy → View Act
  policies_page d s policies = part "div" "page-stack" (
      part "section" "page-hero" (
        part "section" "page-header" (
          part "span" "pill" (words "Limit configuration" & end)
          & says "h1" "Policies"
          & says "p"
              "Create reusable rate limit rules for free, premium, enterprise, or route-specific traffic."
          & end)
        & part "div" "feature-banner" (
            part "div" "" (
              says "strong" "Keep your APIs healthy"
              & says "p" "Set rate limits to prevent abuse and ensure fair usage."
              & end)
            & end)
        & end)
      & create_card d
      & list_card s policies
      & end)

  -- The buttons of a row: of the one that is edited they save and cancel, of any other they edit and
  -- delete the policy of the row.
  abbrev pub row_clicks : Panel → Policy → List Act
  row_clicks s p =
      if str_eq s.editing_id p.id
      then work (save_edit p.id) ∷ work cancel_edit ∷ []
      else work (start_edit p) ∷ remove p ∷ []

  clicks-table_row : (s : Panel) (p : Policy) → clicks (table_row s p) ≡ row_clicks s p
  unfolding table_row buttons
  clicks-table_row s p = elim (Bool-cases (str_eq s.editing_id p.id)) [
    | inl edited ↦ rw edited refl
    | inr other ↦ rw other refl
  ]

  clicks-no_matches :
      (none : Bool) (rest : Views Act) → clicks_in (no_matches none rest) ≡ clicks_in rest
  unfolding buttons
  clicks-no_matches true rest = refl
  clicks-no_matches false rest = refl

  clicks-list_card :
      (s : Panel) (policies : List Policy)
      → clicks (list_card s policies)
        ≡ clicks_each (row_clicks s) (filtered_policies policies s.query)
  unfolding list_card buttons
  clicks-list_card s policies =
      let shown = filtered_policies policies s.query in
      clicks-listed (table_row s) (row_clicks s) shown _ (clicks-table_row s)
        (clicks-no_matches (length shown == 0) _)

  -- On the page of the policies the reset button and the button that creates a policy come first, and
  -- then two buttons for each policy that the search finds, in the order of the list, and for no
  -- other: of the one that is edited they save and cancel, of any other they edit and delete that
  -- very policy.
  pub clicks-policies_page :
      (d : PolicyDraft) (s : Panel) (policies : List Policy)
      → clicks (policies_page d s policies)
        ≡ fill FormEdit.reset
          ∷ submit
          ∷ clicks_each (row_clicks s) (filtered_policies policies s.query)
  unfolding policies_page create_card buttons
  clicks-policies_page d s policies =
      ap (λ bs. fill FormEdit.reset ∷ submit ∷ map (λ (b : Button Act). b.on_click) bs)
        (append_nil (buttons_of (list_card s policies)))
      ∙ ap (λ more. fill FormEdit.reset ∷ submit ∷ more) (clicks-list_card s policies)

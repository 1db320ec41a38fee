-- ===== src/Pages/Keys.antt =====
-- frontend/src/pages/KeysPage.jsx and the markup of frontend/src/components/KeyPanel.jsx, with what its
-- buttons and fields do.
use rate_x_rate_limiter_web.Base.{
  ◌≡◌, refl, String, List, [], ◌∷◌, ◌++◌, length, if◌then◌else◌, Bool-cases, inl, inr, ap, ◌∙◌,
}
use rate_x_rate_limiter_web.Text.{show, append, is_empty}
use rate_x_rate_limiter_web.Model.{Policy, ApiKey, KeyDraft}
use rate_x_rate_limiter_web.Panels.Keys.{FormEdit, row}
use rate_x_rate_limiter_web.Pages.View.{
  View, Views, words, part, button, input, select, end, ◌&◌, says, each, buttons, clicks, clicks_in,
  clicks_each, clicks-listed, map-append, Button,
}
use rate_x_rate_limiter_web.Pages.Routes.{choices}
use rate_x_rate_limiter_web.Pages.Docs.{keys_header, help_grid, help_card}

-- `copy` is `handleCopy` of a text.
pub data Act : Type 0 where
  fill : FormEdit → Act
  submit : Act
  copy : String → Act
  revoke : String → Act
  docs : Act

abbrev secret : String → Views Act → Views Act
secret key rest =
    if is_empty key
    then rest
    else part "code" "secret" (words key & button "" (copy key) end & end) & rest

abbrev no_keys : Views Act
no_keys =
    part "div" "empty-state" (
      says "span" "API keys you create will appear here."
      & says "small" "Use API keys to authenticate your applications."
      & end)
    & end

module _ (format : String → String) where
  unfoldable pub table_row : ApiKey → View Act
  table_row k =
      let cells = row format k in
      part "div" "row key-row" (
        says "span" cells.name
        & part "span" "key-copy" (words cells.key_prefix & button "" (copy k.key_prefix) end & end)
        & part "span" "" (says "mark" cells.policy & end)
        & says "span" cells.created
        & button "danger-icon" (revoke k.id) end
        & end)

  abbrev key_table : List ApiKey → Views Act
  key_table [] = no_keys
  key_table (k ∷ keys) =
      part "div" "table key-table" (
        part "div" "table-head key-head" (
          says "span" "Application"
          & says "span" "API Key"
          & says "span" "Environment"
          & says "span" "Created At"
          & says "span" "Actions"
          & end)
        & each table_row (k ∷ keys) (
            part "div" "table-footer" (
              says "span" (append "Showing 1 of " (show (length (k ∷ keys))))
              & part "div" "" (part "button" "pager" end & part "button" "pager" end & end)
              & end)
            & end))
      & end

  unfoldable pub key_panel : KeyDraft → List Policy → String → List ApiKey → View Act
  key_panel d policies created_key keys = part "section" "panel" (
      part "div" "panel-heading compact" (
        part "div" "heading-left" (
          part "div" "" (
            says "h2" "API Keys"
            & says "p" "Create and manage API keys for your applications."
            & end)
          & end)
        & button "primary-action" submit (words " Add Key" & end)
        & end)
      & part "form" "key-form" (
          input d.name (λ v. fill (FormEdit.name v))
          & select d.policy_id (choices policies) (λ v. fill (FormEdit.policy_id v))
          & button "primary-action create-key-button" submit (words " Create Key" & end)
          & end)
      & secret created_key (key_table keys))

  unfoldable pub keys_page : KeyDraft → List Policy → String → List ApiKey → View Act
  keys_page d policies created_key keys =
      part "div" "page-stack"
        (keys_header & key_panel d policies created_key keys & help_grid docs & end)

  -- The clicks of a row: its prefix is copied, and its key is revoked.
  abbrev pub row_clicks : ApiKey → List Act
  row_clicks k = copy k.key_prefix ∷ revoke k.id ∷ []

  clicks-table_row : (k : ApiKey) → clicks (table_row k) ≡ row_clicks k
  unfolding table_row buttons
  clicks-table_row k = refl

  clicks-key_table : (keys : List ApiKey) → clicks_in (key_table keys) ≡ clicks_each row_clicks keys
  unfolding buttons
  clicks-key_table [] = refl
  clicks-key_table (k ∷ keys) =
      clicks-listed table_row row_clicks (k ∷ keys) _ clicks-table_row refl

  -- The key that was created, if any, can be copied as a whole.
  abbrev pub secret_clicks : String → List Act
  secret_clicks key = if is_empty key then [] else copy key ∷ []

  clicks-secret :
      (key : String) (rest : Views Act)
      → clicks_in (secret key rest) ≡ secret_clicks key ++ clicks_in rest
  unfolding buttons
  clicks-secret key rest = elim (Bool-cases (is_empty key)) [
    | inl none_made ↦ rw none_made refl
    | inr made ↦ rw made refl
  ]

  -- On the page of the keys both buttons over the table create a key; then the key that was created,
  -- if there is one, can be copied, each row copies the prefix of its own key and revokes its own
  -- key, and both help cards lead to the documentation.
  pub clicks-keys_page :
      (d : KeyDraft) (policies : List Policy) (created_key : String) (keys : List ApiKey)
      → clicks (keys_page d policies created_key keys)
        ≡ submit ∷ submit ∷ (secret_clicks created_key ++ clicks_each row_clicks keys)
          ++ docs ∷ docs ∷ []
  unfolding keys_page key_panel keys_header help_grid help_card buttons
  clicks-keys_page d policies created_key keys =
      ap (λ more. submit ∷ submit ∷ more)
        (map-append (λ (b : Button Act). b.on_click) (buttons (secret created_key (key_table keys)))
            _
          ∙ ap (λ more. more ++ docs ∷ docs ∷ [])
              (clicks-secret created_key (key_table keys)
                ∙ ap (λ more. secret_clicks created_key ++ more) (clicks-key_table keys)))

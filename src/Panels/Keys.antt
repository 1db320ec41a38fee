-- ===== src/Panels/Keys.antt =====
-- frontend/src/utils/clipboard.js and frontend/src/components/KeyPanel.jsx: copying a key, and the
-- table of keys. The browser's clipboard and `execCommand` are arguments.
pub mod Copying
use rate_x_rate_limiter_web.Base.{
  ℕ, ◌+◌, String, Bool, true, false, Option, none, some, List, [], ◌∷◌, ◌++◌, map, length, Result,
  ok, err, ◌>>=◌, if◌then◌else◌,
}
use rate_x_rate_limiter_web.Text.{is_empty, or_text, join, show}
use rate_x_rate_limiter_web.Model.{ApiKey, KeyDraft}
use rate_x_rate_limiter_web.App.Handlers.{Event, notify}

-- `navigator.clipboard.writeText`, if the browser has it, which may be refused; and what
-- `document.execCommand('copy')` returns for a selected text.
pub record Browser : Type 0 where
  pub write_text : Option (String → Result (Unit {0}))
  pub exec_copy : String → Bool

abbrev written : Browser → Option (String → Result (Unit {0})) → String → Result Bool
written b none value = ok (b.exec_copy value)
written b (some write) value = write value >>= λ _. ok true

-- `copyText`: whether the text was copied. The text area of the fallback is removed again, and is
-- no part of the model.
unfoldable pub copy_text : Browser → String → Result Bool
copy_text b value = if is_empty value then ok false else written b b.write_text value

abbrev pub notices : Result Bool → List Event
notices (ok copied) = notify "Copied to clipboard" ∷ []
notices (err e) = []

-- `handleCopy` with the `onCopy` of `App`: the events that it leads to. What `copyText` returns is
-- not read; an error ends the handler.
unfoldable pub handle_copy : Browser → String → List Event
handle_copy b value = notices (copy_text b value)

-- The fields of the form.
pub data FormEdit : Type 0 where
  name : String → FormEdit
  policy_id : String → FormEdit

unfoldable pub edit_form : KeyDraft → FormEdit → KeyDraft
edit_form d (name v) = record d { name = v }
edit_form d (policy_id v) = record d { policy_id = v }

-- A row of the table; `format` is `toLocaleString` of the date.
pub record Row : Type 0 where
  pub name : String
  pub key_prefix : String
  pub policy : String
  pub created : String

module _ (format : String → String) where
  abbrev format_date : String → String
  format_date value = if is_empty value then "Just now" else format value

  unfoldable pub row : ApiKey → Row
  row k = record {
    name = k.name;
    key_prefix = k.key_prefix;
    policy = or_text k.policy_name "default";
    created = format_date k.created_at;
  }

  -- No table for no keys; else the rows and the footer.
  unfoldable pub table : List ApiKey → Option (List Row × String)
  unfolding row
  table [] = none
  table (k ∷ ks) = some (map row (k ∷ ks), join ("Showing 1 of " ∷ show (length (k ∷ ks)) ∷ []))

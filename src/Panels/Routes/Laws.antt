-- ===== src/Panels/Routes/Laws.antt =====
-- Rows and forms of the route policies.
use rate_x_rate_limiter_web.Base.{◌∙◌, ap, map, ◌≡◌, refl, List, [], ◌∷◌, ◌++◌, arith}
use rate_x_rate_limiter_web.Model.{RoutePolicy, RouteDraft}
use rate_x_rate_limiter_web.Panels.Routes.{
  Panel, Action, start_edit, save_edit, run, draft_of, edit, RowEdit, edit_row,
}

abbrev pub edited_row : RouteDraft → List RowEdit → RouteDraft
edited_row d [] = d
edited_row d (e ∷ es) = edited_row (edit_row d e) es

enabled-edited_row : (d : RouteDraft) (es : List RowEdit) → (edited_row d es).enabled ≡ d.enabled
enabled-edited_row d [] = refl
enabled-edited_row d (e ∷ es) =
    enabled-edited_row (edit_row d e) es ∙ (unfold edit_row in ground arith)

run-edits :
    (s : Panel) (es : List RowEdit) (later : List Action)
    → run s (map edit es ++ later) ≡ run (record s { draft = edited_row s.draft es }) later
unfolding run
run-edits s [] later = refl
run-edits s (e ∷ es) later = run-edits (record s { draft = edit_row s.draft e }) es later

-- A row that is opened, edited in any way and saved sends one update, under the route's own
-- identifier, with the edited draft; the draft is enabled exactly if the route was.
pub save_edited :
    (s : Panel) (r : RoutePolicy) (es : List RowEdit)
    → ((run s (start_edit r ∷ (map edit es ++ save_edit r.id ∷ []))).sent
        ≡ s.sent ++ (r.id, edited_row (draft_of r) es) ∷ [])
      × ((edited_row (draft_of r) es).enabled ≡ r.enabled)
unfolding run
save_edited s r es = (
  ap (λ (v : Panel). v.sent)
      (run-edits (record s { editing_id = r.id; draft = draft_of r }) es (save_edit r.id ∷ [])),
  enabled-edited_row (draft_of r) es,
)

-- ===== src/Panels/Policies/Editing.antt =====
-- A row that is edited, and its save.
use rate_x_rate_limiter_web.Base.{◌≡◌, ◌≢◌, refl, false, List, [], ◌∷◌, ◌++◌, arith, ℕ}
use rate_x_rate_limiter_web.Text.{is_empty, str_eq-empty}
use rate_x_rate_limiter_web.Model.{Policy, PolicyDraft}
use rate_x_rate_limiter_web.Panels.Policies.{
  Panel, start_edit, save_edit, saved, RowEdit, edit_row, run, row, texts, limit_text,
}

-- The fields of a policy that its form has.
abbrev pub same_fields : Policy → PolicyDraft
same_fields p = record {
  name = p.name;
  algorithm = p.algorithm;
  request_limit = p.request_limit;
  window_seconds = p.window_seconds;
  burst_capacity = p.burst_capacity;
}

-- A row that is opened and saved without an edit sends the policy's own fields under its own
-- identifier, and nothing else, for a policy with a burst capacity.
pub save_unchanged :
    (s : Panel) (p : Policy)
    → p.burst_capacity ≢ 0
    → (run s (start_edit p ∷ save_edit p.id ∷ [])).sent ≡ s.sent ++ (p.id, same_fields p) ∷ []
unfolding run
save_unchanged s p h = ground arith

-- The limit and the burst capacity of a draft agree.
abbrev pub Agree : PolicyDraft → Type 0
Agree d = d.burst_capacity ≡ d.request_limit

abbrev pub edited_row : PolicyDraft → List RowEdit → PolicyDraft
edited_row d [] = d
edited_row d (e ∷ es) = edited_row (edit_row d e) es

edited_row-Agree : (d : PolicyDraft) (es : List RowEdit) → Agree d → Agree (edited_row d es)
edited_row-Agree d [] h = h
edited_row-Agree d (e ∷ es) h = edited_row-Agree (edit_row d e) es (unfold edit_row in ground arith)

-- Once the limit of a row was edited, its burst capacity is the limit, whatever is edited later: a
-- burst capacity of its own is lost.
pub edited_row-limit :
    (d : PolicyDraft) (n : ℕ) (es : List RowEdit)
    → Agree (edited_row d (RowEdit.request_limit n ∷ es))
unfolding edit_row
edited_row-limit d n es = edited_row-Agree _ es refl

-- A save that settles while another row is edited closes that row, and its draft is not shown.
pub saved-closes_other :
    (s : Panel) (p q : Policy)
    → is_empty q.id ≡ false
    → row (run s (start_edit p ∷ save_edit p.id ∷ start_edit q ∷ saved ∷ [])) q
      ≡ texts q.name q.algorithm (limit_text q)
unfolding run row
saved-closes_other s p q h = rw (str_eq-empty q.id h)

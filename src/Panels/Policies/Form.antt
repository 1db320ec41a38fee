-- ===== src/Panels/Policies/Form.antt =====
-- The form of a new policy has no field for the burst capacity.
use rate_x_rate_limiter_web.Base.{◌≡◌, refl, List, [], ◌∷◌, arith}
use rate_x_rate_limiter_web.Model.{PolicyDraft}
use rate_x_rate_limiter_web.App.{empty_policy}
use rate_x_rate_limiter_web.Panels.Policies.{FormEdit, edit_form}

-- The form after a list of edits.
abbrev pub edited : PolicyDraft → List FormEdit → PolicyDraft
edited d [] = d
edited d (e ∷ es) = edited (edit_form d e) es

burst_capacity-edit_form :
    (d : PolicyDraft) (e : FormEdit) → d.burst_capacity ≡ 100 → (edit_form d e).burst_capacity ≡ 100
unfolding edit_form
burst_capacity-edit_form d e h = ground arith

burst_capacity-edited :
    (d : PolicyDraft) (es : List FormEdit)
    → d.burst_capacity ≡ 100
    → (edited d es).burst_capacity ≡ 100
burst_capacity-edited d [] h = h
burst_capacity-edited d (e ∷ es) h =
    burst_capacity-edited (edit_form d e) es (burst_capacity-edit_form d e h)

-- Whatever the user does in the form that starts empty, the draft that it sends has a burst
-- capacity of 100.
pub form-burst_capacity : (es : List FormEdit) → (edited empty_policy es).burst_capacity ≡ 100
form-burst_capacity es = burst_capacity-edited empty_policy es refl

-- ===== src/Tests/Dashboard.antt =====
-- The API client and the chart.
use rate_x_rate_limiter_web.Base.{
  ℕ, ◌≤◌, ◌≡◌, refl, String, false, none, some, List, [], ◌∷◌, Result, ok, err,
}
use rate_x_rate_limiter_web.Text.{show}
use rate_x_rate_limiter_web.Model.{Stats, TimeBucket}
use rate_x_rate_limiter_web.App.{hour_1}
use rate_x_rate_limiter_web.Api.{Json, Response, settle, read_error}
use rate_x_rate_limiter_web.Api.Errors.{error_body}
use rate_x_rate_limiter_web.Chart.{TimeStyle, build_chart_data}
use rate_x_rate_limiter_web.Chart.Fallback.{IsWave, total, build_chart_data-IsWave}

-- A browser that reads every text as the error body of a missing token.
abbrev parse : String → Result Json
parse s = ok (error_body "unauthorized" (some "admin token is required"))

abbrev refusal : Response
refusal = record { status = 401; status_text = "Unauthorized"; header = λ name. none; text = "{}" }

no_body_test : settle parse false (record refusal { text = "" }) ≡ err "401 Unauthorized"
unfolding settle read_error show
no_body_test = refl

abbrev base : String
base = "http://localhost:8081"

abbrev label : TimeStyle → ℕ → String
label style at = "12:00"

abbrev totals : Stats
totals = record { requests = 8; allowed = 7; rejected = 1 }

abbrev old : List TimeBucket
old = record { bucket = 60000; allowed = 7; rejected = 1; total = 8 } ∷ []

build_chart_data-IsWave_example :
    IsWave totals (build_chart_data label 7200000 old hour_1 totals)
    × (1 ≤ total (build_chart_data label 7200000 old hour_1 totals))
build_chart_data-IsWave_example = build_chart_data-IsWave label 7200000 old hour_1 totals refl

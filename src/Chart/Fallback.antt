-- ===== src/Chart/Fallback.antt =====
-- The chart that is drawn when the timeline has no recent bucket.
use rate_x_rate_limiter_web.Base.{
  ℕ, zero, suc, ◌+◌, ◌*◌, ◌≤◌, ◌≡◌, refl, max, String, List, [], ◌∷◌, All, arith,
}
use rate_x_rate_limiter_web.Model.{Stats, TimeBucket}
use rate_x_rate_limiter_web.App.{Range, min_30}
use rate_x_rate_limiter_web.Chart.{
  TimeStyle, ChartPoint, range_config, or_number, max_allowed, max_rejected, fallback,
  build_chart_data,
}
use rate_x_rate_limiter_web.Chart.Points.{recent}

-- The requests that a chart shows as allowed, over all its points.
abbrev pub total : List ChartPoint → ℕ
total [] = 0
total (p ∷ ps) = p.allowed + total ps

-- The height of the wave for the requests allowed and all requests: those allowed, or all where none
-- was allowed, or 1 where there were none.
abbrev pub peak : ℕ → ℕ → ℕ
peak zero zero = 1
peak zero (suc n) = suc n
peak (suc n) requests = suc n

-- No more allowed than the height, and no more rejected than the total.
abbrev pub IsBounded : Stats → ChartPoint → Type 0
IsBounded stats p = (p.allowed ≤ peak stats.allowed stats.requests) × (p.rejected ≤ stats.rejected)

-- Each point within these bounds, and six times the height together.
abbrev pub IsWave : Stats → List ChartPoint → Type 0
IsWave stats ps = All (IsBounded stats) ps × (total ps ≡ 6 * peak stats.allowed stats.requests)

or_number-peak : (a r : ℕ) → max 1 (or_number (or_number a r) 1) ≡ peak a r
or_number-peak zero zero = refl
or_number-peak zero (suc n) = ground arith
or_number-peak (suc n) r = ground arith

max_allowed-peak : (stats : Stats) → max_allowed stats ≡ peak stats.allowed stats.requests
max_allowed-peak stats = or_number-peak stats.allowed stats.requests

max_rejected-le : (stats : Stats) → max_rejected stats ≤ stats.rejected
max_rejected-le stats = ground arith

fallback-IsWave :
    (range : Range) (stats : Stats) → IsWave stats (fallback (range_config range) stats)
unfolding fallback
fallback-IsWave min_30 stats = omega (arith, max_rejected-le stats, max_allowed-peak stats)
fallback-IsWave _ stats = omega (arith, max_rejected-le stats, max_allowed-peak stats)

peak-positive : (allowed requests : ℕ) → 1 ≤ peak allowed requests
peak-positive zero zero = omega arith
peak-positive zero (suc n) = omega arith
peak-positive (suc n) requests = omega arith

-- Where the window of the range holds no bucket, the points of the chart are of a wave that is made
-- up from the totals: together they show as allowed six times the requests allowed since the start,
-- or six times all requests where none was allowed, or 6 where there was none at all. No point shows
-- more than a sixth of that as allowed, nor more rejected than were rejected, and what the points
-- show as allowed is never 0 together.
pub build_chart_data-IsWave :
    (locale_time : TimeStyle → ℕ → String) (now : ℕ) (timeline : List TimeBucket) (range : Range)
    (stats : Stats)
    → recent now range timeline ≡ []
    → IsWave stats (build_chart_data locale_time now timeline range stats)
      × (1 ≤ total (build_chart_data locale_time now timeline range stats))
unfolding build_chart_data
build_chart_data-IsWave locale_time now timeline range stats e =
    let wave : IsWave stats (fallback (range_config range) stats) = fallback-IsWave range stats in
    rw e (wave, omega (arith, wave.1, peak-positive stats.allowed stats.requests))

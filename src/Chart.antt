-- ===== src/Chart.antt =====
-- frontend/src/utils/chartData.js. The clock (`Date.now()`) and the text of a time
-- (`toLocaleTimeString`) are arguments; instants are milliseconds. A cutoff before the epoch is no
-- special case: the comparison is written with the window on the other side. The factor 0.18 is
-- taken exactly, and `Math.round` rounds halves up.
pub mod Points
pub mod Fallback
use rate_x_rate_limiter_web.Base.{
  ℕ, zero, suc, ◌+◌, ◌*◌, ◌/◌, String, Bool, List, [], ◌∷◌, map, keep, length, max, ltb, leb, ◌==◌,
  if◌then◌else◌,
}
use rate_x_rate_limiter_web.Text.{append, show}
use rate_x_rate_limiter_web.Model.{TimeBucket, Stats}
use rate_x_rate_limiter_web.App.{Range, min_30, hour_1, hour_6, hour_24}

pub record RangeConfig : Type 0 where
  pub minutes : ℕ
  pub points : ℕ
  pub label_step : ℕ

abbrev pub range_config : Range → RangeConfig
range_config min_30 = record { minutes = 30; points = 12; label_step = 5 }
range_config hour_1 = record { minutes = 60; points = 12; label_step = 5 }
range_config hour_6 = record { minutes = 360; points = 12; label_step = 30 }
range_config hour_24 = record { minutes = 1440; points = 12; label_step = 120 }

-- The options given to `toLocaleTimeString`: the hour, with or without the minute.
pub data TimeStyle : Type 0 where
  hour_only hour_minute : TimeStyle

abbrev pub style_of : Range → TimeStyle
style_of hour_24 = hour_only
style_of _ = hour_minute

pub record ChartPoint : Type 0 where
  pub t : String
  pub allowed : ℕ
  pub rejected : ℕ

-- `a || b` on numbers
abbrev pub or_number : ℕ → ℕ → ℕ
or_number a b = if a == 0 then b else a

abbrev pub max_allowed : Stats → ℕ
max_allowed s = max 1 (or_number (or_number s.allowed s.requests) 1)

abbrev pub max_rejected : Stats → ℕ
max_rejected s = max 0 (or_number s.rejected 0)

unfoldable pub wave : ℕ → ℕ
wave i =
    if ltb i 2 then 0 else if ltb i 5 then 1 else if ltb i 7 then 0 else if ltb i 10 then 1 else 0

-- `Math.round((wave ? 0.18 : 0) * n)`
abbrev pub share : ℕ → ℕ → ℕ
share w n = if w == 0 then 0 else (18 * n + 50) / 100

unfoldable pub fallback_point : RangeConfig → Stats → ℕ → ChartPoint
unfolding wave
fallback_point config stats i = record {
  t = append (show (i * config.label_step)) "m";
  allowed = wave i * max_allowed stats;
  rejected = share (wave i) (max_rejected stats);
}

-- `Array.from({ length }, (_, index) => …)`, from an index on
abbrev pub from_index : {A : Type 0} → (ℕ → A) → ℕ → ℕ → List A
from_index f i zero = []
from_index f i (suc n) = f i ∷ from_index f (suc i) n

unfoldable pub fallback : RangeConfig → Stats → List ChartPoint
unfolding fallback_point
fallback config stats = from_index (fallback_point config stats) 0 config.points

-- At or after the cutoff of the range.
abbrev pub is_recent : ℕ → Range → TimeBucket → Bool
is_recent now range p = leb now (p.bucket + (range_config range).minutes * 60 * 1000)

module _ (locale_time : TimeStyle → ℕ → String) where
  abbrev pub to_point : Range → TimeBucket → ChartPoint
  to_point range p = record {
    t = locale_time (style_of range) p.bucket;
    allowed = p.allowed;
    rejected = p.rejected;
  }

  abbrev or_else : List ChartPoint → List ChartPoint → List ChartPoint
  or_else filtered other = if ltb 0 (length filtered) then filtered else other

  unfoldable pub build_chart_data : ℕ → List TimeBucket → Range → Stats → List ChartPoint
  build_chart_data now timeline range stats =
      or_else (map (to_point range) (keep (is_recent now range) timeline))
        (fallback (range_config range) stats)

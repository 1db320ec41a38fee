-- ===== src/Chart/Points.antt =====
-- Which points a chart shows.
use rate_x_rate_limiter_web.Base.{
  ℕ, zero, suc, ◌+◌, ◌*◌, ◌≤◌, ◌≡◌, refl, String, List, [], ◌∷◌, map, keep, length, All, length-map,
  ◌==◌, if◌then◌else◌, arith, ap, ◌≢◌,
}
use rate_x_rate_limiter_web.Model.{TimeBucket, Stats}
use rate_x_rate_limiter_web.App.{Range, min_30, hour_1, hour_6, hour_24}
use rate_x_rate_limiter_web.Chart.{
  TimeStyle, ChartPoint, range_config, is_recent, to_point, fallback, build_chart_data, from_index,
}

length-from_index : {A : Type 0} (f : ℕ → A) (i n : ℕ) → length (from_index f i n) ≡ n
length-from_index f i zero = refl
length-from_index f i (suc n) = ap suc (length-from_index f (suc i) n)

length-fallback :
    (range : Range) (stats : Stats) → length (fallback (range_config range) stats) ≡ 12
unfolding fallback
length-fallback min_30 stats = refl
length-fallback _ stats = refl

-- The points of the timeline in the window of a range.
abbrev pub recent : ℕ → Range → List TimeBucket → List TimeBucket
recent now range timeline = keep (is_recent now range) timeline

-- A chart has a point for each bucket of the timeline in the window of its range, and twelve where
-- there is none: it is never empty.
pub length-build_chart_data :
    (locale_time : TimeStyle → ℕ → String) (now : ℕ) (timeline : List TimeBucket) (range : Range)
    (stats : Stats)
    → length (build_chart_data locale_time now timeline range stats)
      ≡ (if length (recent now range timeline) == 0 then 12 else length (recent now range timeline))
unfolding build_chart_data
length-build_chart_data locale_time now timeline range stats = ground (
  arith,
  length-fallback range stats,
  length-map (to_point locale_time range) (recent now range timeline),
)

-- Every bucket starts at most so many minutes before `now`.
abbrev pub AllWithin : ℕ → ℕ → List TimeBucket → Type 0
AllWithin now minutes timeline = All (λ p. now ≤ p.bucket + minutes * 60000) timeline

recent-all :
    (now : ℕ) (range : Range) (timeline : List TimeBucket)
    → AllWithin now (range_config range).minutes timeline
    → recent now range timeline ≡ timeline
recent-all now range [] h = refl
recent-all now range (p ∷ timeline) (h, hs) = ground (arith, recent-all now range timeline hs)

AllWithin-mono :
    (now m n : ℕ) (timeline : List TimeBucket)
    → m ≤ n
    → AllWithin now m timeline
    → AllWithin now n timeline
AllWithin-mono now m n [] le h = tt
AllWithin-mono now m n (p ∷ timeline) le (h, hs) =
    (grind arith, AllWithin-mono now m n timeline le hs)

-- The numbers of a chart, without the labels.
abbrev pub counts : List ChartPoint → List (ℕ × ℕ)
counts = map {B = ℕ × ℕ} (λ p. (p.allowed, p.rejected))

counts-map :
    (locale_time : TimeStyle → ℕ → String) (timeline : List TimeBucket)
    → counts (map (to_point locale_time hour_24) timeline)
      ≡ counts (map (to_point locale_time hour_1) timeline)
counts-map locale_time [] = refl
counts-map locale_time (p ∷ timeline) =
    ap (λ l. (p.allowed, p.rejected) ∷ l) (counts-map locale_time timeline)

module _ (locale_time : TimeStyle → ℕ → String) (now : ℕ) (timeline : List TimeBucket)
    (stats : Stats) where
  build_chart_data-all :
      (range : Range)
      → timeline ≢ []
      → AllWithin now (range_config range).minutes timeline
      → build_chart_data locale_time now timeline range stats
        ≡ map (to_point locale_time range) timeline
  unfolding build_chart_data
  build_chart_data-all range ne h = rw (recent-all now range timeline h) (ground arith)

  -- Where no bucket of a timeline that is not empty is older than an hour, the chart of six hours is
  -- the chart of one hour, and that of a day has the same counts in the same order.
  pub ranges_agree :
      timeline ≢ []
      → AllWithin now 60 timeline
      → (build_chart_data locale_time now timeline hour_6 stats
          ≡ build_chart_data locale_time now timeline hour_1 stats)
        × (counts (build_chart_data locale_time now timeline hour_24 stats)
            ≡ counts (build_chart_data locale_time now timeline hour_1 stats))
  ranges_agree ne h =
      rw
        (
          build_chart_data-all hour_1 ne h,
          build_chart_data-all hour_6 ne (AllWithin-mono now 60 360 timeline (omega arith) h),
          build_chart_data-all hour_24 ne (AllWithin-mono now 60 1440 timeline (omega arith) h),
        )
        (refl, counts-map locale_time timeline)

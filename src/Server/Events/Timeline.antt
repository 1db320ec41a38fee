-- ===== src/Server/Events/Timeline.antt =====
-- What the timeline counts, and what the dashboard's chart makes of it.
use rate_x_rate_limiter_web.Base.{
  ℕ, ◌+◌, ◌≤◌, ◌<◌, ◌≡◌, ◌≢◌, refl, true, List, [], ◌∷◌, keep, length, arith, Bool-cases, inl, inr,
  String,
}
use rate_x_rate_limiter_web.Model.{TimeBucket, Stats}
use rate_x_rate_limiter_web.App.{hour_1, hour_6}
use rate_x_rate_limiter_web.Chart.{TimeStyle, build_chart_data}
use rate_x_rate_limiter_web.Chart.Points.{AllWithin, ranges_agree}
use rate_x_rate_limiter_web.Server.Events.{Logged, minute_of, add_event, group, is_new, timeline}

abbrev pub total : List TimeBucket → ℕ
total [] = 0
total (b ∷ bs) = b.total + total bs

-- The buckets start at least `lo`, each later than the one before it, and in each the requests are
-- those allowed and those rejected, and there is one.
abbrev pub Ascending : ℕ → List TimeBucket → Type 0
Ascending lo [] = Unit
Ascending lo (b ∷ bs) =
    (lo ≤ b.bucket)
    × (b.total ≡ b.allowed + b.rejected)
    × (0 < b.total)
    × Ascending (b.bucket + 1) bs

total-add_event : (e : Logged) (bs : List TimeBucket) → total (add_event e bs) ≡ total bs + 1
unfolding add_event
total-add_event e [] = omega arith
total-add_event e (b ∷ bs) = ground (arith, total-add_event e bs)

Ascending-mono : (m n : ℕ) (bs : List TimeBucket) → m ≤ n → Ascending n bs → Ascending m bs
Ascending-mono m n [] h a = tt
Ascending-mono m n (b ∷ bs) h (l, t, p, a) = (omega arith, t, p, a)

add_event-Ascending :
    (lo : ℕ) (e : Logged) (bs : List TimeBucket)
    → lo ≤ minute_of e.at
    → Ascending lo bs
    → Ascending lo (add_event e bs)
unfolding add_event
add_event-Ascending lo e [] h a = ground arith
add_event-Ascending lo e (b ∷ bs) h (l, t, p, a) =
    ground (arith, add_event-Ascending (b.bucket + 1) e bs)

group_lem : (log : List Logged) → Ascending 0 (group log) × (total (group log) ≡ length log)
unfolding group
group_lem [] = (tt, refl)
group_lem (e ∷ log) =
    let (a, t) = group_lem log in
    (
      add_event-Ascending 0 e (group log) (omega arith) a,
      omega (arith, total-add_event e (group log)),
    )

-- The timeline has its buckets in ascending order, one for a minute, none of them empty; each
-- counts the requests allowed and those rejected, and together they count every request of the last
-- thirty minutes once.
pub timeline_counts :
    (now : ℕ) (log : List Logged)
    → Ascending 0 (timeline now log) × (total (timeline now log) ≡ length (keep (is_new now) log))
unfolding timeline
timeline_counts now log = group_lem (keep (is_new now) log)

add_event-AllWithin :
    (now : ℕ) (e : Logged) (bs : List TimeBucket)
    → is_new now e ≡ true
    → AllWithin now 31 bs
    → AllWithin now 31 (add_event e bs)
unfolding add_event
add_event-AllWithin now e [] h a = (ground arith, tt)
add_event-AllWithin now e (b ∷ bs) h (w, a) = ground (arith, add_event-AllWithin now e bs)

timeline-AllWithin : (now : ℕ) (log : List Logged) → AllWithin now 31 (timeline now log)
unfolding timeline
timeline-AllWithin now [] = tt
timeline-AllWithin now (e ∷ log) = elim (Bool-cases (is_new now e)) [
  | inl new ↦ rw new (add_event-AllWithin now e (timeline now log) new (timeline-AllWithin now log))
  | inr old ↦ rw old (timeline-AllWithin now log)
]

AllWithin-later :
    (now later : ℕ) (bs : List TimeBucket)
    → later ≤ now + 1740000
    → AllWithin now 31 bs
    → AllWithin later 60 bs
AllWithin-later now later [] h a = tt
AllWithin-later now later (b ∷ bs) h (w, a) = (omega arith, AllWithin-later now later bs h a)

-- Where the server's timeline is not empty, and the browser's clock is at most 29 minutes ahead of
-- the moment of the answer, the chart of six hours is the chart of one hour: the server answers for
-- thirty minutes whatever the range.
pub chart-timeline :
    (locale_time : TimeStyle → ℕ → String) (now browser : ℕ) (log : List Logged) (stats : Stats)
    → timeline now log ≢ []
    → browser ≤ now + 1740000
    → build_chart_data locale_time browser (timeline now log) hour_6 stats
      ≡ build_chart_data locale_time browser (timeline now log) hour_1 stats
chart-timeline locale_time now browser log stats ne h =
    (ranges_agree locale_time browser (timeline now log) stats ne
      (AllWithin-later now browser (timeline now log) h (timeline-AllWithin now log))).0

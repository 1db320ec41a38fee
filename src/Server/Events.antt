-- ===== src/Server/Events.antt =====
-- internal/repository/request_event_repository.go: the log of requests, newest first, and the
-- lists that the dashboard shows. An event carries the moment of its insertion in milliseconds.
pub mod Recent
pub mod Timeline
use rate_x_rate_limiter_web.Base.{
  ℕ, ◌+◌, ◌-◌, ◌*◌, ◌%◌, Bool, List, [], ◌∷◌, keep, take, ltb, leb, ◌==◌, ◌||◌, if◌then◌else◌,
  String, str_eq,
}
use rate_x_rate_limiter_web.Model.{RequestEvent, RouteSummary, TimeBucket}

pub record Logged : Type 0 where
  pub event : RequestEvent
  pub at : ℕ

-- The number of events that `Recent` asks for: 50 for a limit that is out of range.
unfoldable pub recent_limit : ℕ → ℕ
recent_limit limit = if limit == 0 || ltb 200 limit then 50 else limit

unfoldable pub recent : ℕ → List Logged → List Logged
unfolding recent_limit
recent limit log = take (recent_limit limit) log

-- `date_trunc('minute', created_at)`
abbrev pub minute_of : ℕ → ℕ
minute_of at = at - at % 60000

-- One more event in the bucket of its minute; buckets are in ascending order.
abbrev one : Bool → ℕ
one b = if b then 1 else 0

abbrev other : Bool → ℕ
other b = if b then 0 else 1

abbrev bucket_of : Logged → TimeBucket
bucket_of e = record {
  bucket = minute_of e.at;
  allowed = one e.event.allowed;
  rejected = other e.event.allowed;
  total = 1;
}

abbrev count_in : Logged → TimeBucket → TimeBucket
count_in e b = record b {
  allowed = b.allowed + one e.event.allowed;
  rejected = b.rejected + other e.event.allowed;
  total = b.total + 1;
}

unfoldable pub add_event : Logged → List TimeBucket → List TimeBucket
add_event e [] = bucket_of e ∷ []
add_event e (b ∷ bs) =
    if ltb (minute_of e.at) b.bucket
    then bucket_of e ∷ b ∷ bs
    else if minute_of e.at == b.bucket
    then count_in e b ∷ bs
    else b ∷ add_event e bs

unfoldable pub group : List Logged → List TimeBucket
unfolding add_event
group [] = []
group (e ∷ log) = add_event e (group log)

-- `created_at > now() - interval '30 minutes'`
abbrev pub is_new : ℕ → Logged → Bool
is_new now e = ltb now (e.at + 1800000)

unfoldable pub timeline : ℕ → List Logged → List TimeBucket
unfolding group
timeline now log = group (keep (is_new now) log)

-- One more event in the row of its route.
abbrev summary_of : Logged → RouteSummary
summary_of e = record {
  route = e.event.route;
  allowed = one e.event.allowed;
  rejected = other e.event.allowed;
  total = 1;
}

abbrev summed : Logged → RouteSummary → RouteSummary
summed e r = record r {
  allowed = r.allowed + one e.event.allowed;
  rejected = r.rejected + other e.event.allowed;
  total = r.total + 1;
}

unfoldable pub add_to_route : Logged → List RouteSummary → List RouteSummary
add_to_route e [] = summary_of e ∷ []
add_to_route e (r ∷ rows) =
    if str_eq r.route e.event.route then summed e r ∷ rows else r ∷ add_to_route e rows

unfoldable pub by_route : List Logged → List RouteSummary
unfolding add_to_route
by_route [] = []
by_route (e ∷ log) = add_to_route e (by_route log)

-- `created_at > now() - interval '1 hour'`
abbrev pub is_of_hour : ℕ → Logged → Bool
is_of_hour now e = ltb now (e.at + 3600000)

-- `TopRoutes`; the order by descending totals is the database's, an argument.
unfoldable pub top_routes :
    (List RouteSummary → List RouteSummary) → ℕ → List Logged → List RouteSummary
unfolding by_route
top_routes by_total now log = take 10 (by_total (by_route (keep (is_of_hour now) log)))

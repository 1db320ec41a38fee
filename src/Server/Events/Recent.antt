-- ===== src/Server/Events/Recent.antt =====
-- How many events the dashboard gets for what it asks.
use rate_x_rate_limiter_web.Base.{
  ℕ, ◌+◌, ◌*◌, ◌≡◌, leb, if◌then◌else◌, List, arith, length, length-take, min,
}
use rate_x_rate_limiter_web.App.Loop.{Input, run, mounted}
use rate_x_rate_limiter_web.App.Loop.Fresh.{times_more, mounted-limit}
use rate_x_rate_limiter_web.Server.Events.{Logged, recent_limit, recent}

-- The events that the server answers with, where the dashboard's last render asks for them.
abbrev pub answered : List Input → List Logged → List Logged
answered inputs log = recent (run mounted inputs).state.event_limit log

recent_limit-more : (n : ℕ) → recent_limit (30 + 30 * n) ≡ (if leb n 5 then 30 + 30 * n else 50)
unfolding recent_limit
recent_limit-more n = ground arith

-- After the user asked for more events up to five times, the server answers with 30 events and 30
-- more for each time, if the log has as many; from the sixth time on, with 50, fewer than before.
pub length-answered :
    (inputs : List Input) (log : List Logged)
    → length (answered inputs log)
      ≡ min (if leb (times_more inputs) 5 then 30 + 30 * times_more inputs else 50) (length log)
unfolding recent
length-answered inputs log =
    rw ((mounted-limit inputs).0, ← recent_limit-more (times_more inputs))
      (length-take (recent_limit (30 + 30 * times_more inputs)) log)

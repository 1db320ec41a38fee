-- ===== src/App/Loop/Fresh.antt =====
-- How many events the dashboard asks for: its state, and the closure of the effect's timer.
use rate_x_rate_limiter_web.Base.{ℕ, ◌+◌, ◌*◌, ◌≡◌, refl, List, [], ◌∷◌, arith}
use rate_x_rate_limiter_web.App.Load.{load}
use rate_x_rate_limiter_web.App.Handlers.{World, dispatch, load_more}
use rate_x_rate_limiter_web.App.Loop.{
  Input, user, tick, settles, step, run, resume, succeed, mounted,
}

-- The timer's closure has the number of events of the last render.
abbrev pub IsFresh : World → Type 0
IsFresh w = w.effect.event_limit ≡ w.state.event_limit

step-IsFresh : (w : World) (i : Input) → IsFresh w → IsFresh (step w i)
unfolding step dispatch resume load succeed
step-IsFresh w (user e) h = ground arith
step-IsFresh w tick h = h
step-IsFresh w (settles n r) h = ground arith

abbrev pub more : Input → ℕ
more (user load_more) = 1
more _ = 0

-- How often the user asked for more events.
abbrev pub times_more : List Input → ℕ
times_more [] = 0
times_more (i ∷ is) = more i + times_more is

step-limit :
    (w : World) (i : Input) → (step w i).state.event_limit ≡ w.state.event_limit + 30 * more i
unfolding step dispatch resume load succeed
step-limit w (user e) = ground arith
step-limit w tick = ground arith
step-limit w (settles n r) = ground arith

run-limit :
    (w : World) (is : List Input)
    → IsFresh w
    → IsFresh (run w is) × ((run w is).state.event_limit ≡ w.state.event_limit + 30 * times_more is)
unfolding run
run-limit w [] h = (h, omega arith)
run-limit w (i ∷ is) h =
    let (fresh, limit) = run-limit (step w i) is (step-IsFresh w i h) in
    (fresh, omega (arith, step-limit w i))

-- After any sequence of events, ticks and answers, in any order, both the dashboard and the closure
-- of its timer have 30 events, and 30 more for each time that the user asked for more.
pub mounted-limit :
    (is : List Input)
    → ((run mounted is).state.event_limit ≡ 30 + 30 * times_more is)
      × ((run mounted is).effect.event_limit ≡ 30 + 30 * times_more is)
mounted-limit is = let (fresh, limit) = run-limit mounted is refl in (limit, omega arith)

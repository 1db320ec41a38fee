-- ===== src/App/Loop.antt =====
-- The event loop of the dashboard: the user's events, the timer of the effect, and the answers to
-- the calls that wait, in any order. A run is a list of such inputs.
pub mod Fresh
pub mod Confirmed
pub mod Quiet
pub mod Notices
pub mod Forms
use rate_x_rate_limiter_web.Base.{
  ℕ, zero, suc, String, Option, none, some, List, [], ◌∷◌, Result, ok, err,
}
use rate_x_rate_limiter_web.Api.Calls.{Call}
use rate_x_rate_limiter_web.Api.Demo.{DemoResult}
use rate_x_rate_limiter_web.App.{State, empty_policy, initial, closure_of}
use rate_x_rate_limiter_web.App.Load.{Answers, load}
use rate_x_rate_limiter_web.App.Handlers.{
  Task, loading, calling, sending, World, Event, dispatch, with_state, start,
}

-- What a waiting task is answered: the seven answers of a load; the answer to a call, with the key
-- that `createKey` returns in `data.key` ("" for every other call); that to the demo request.
pub data Reply : Type 0 where
  answers : Answers → Reply
  answer : Result String → Reply
  shown : Result DemoResult → Reply

pub data Input : Type 0 where
  user : Event → Input
  tick : Input
  settles : ℕ → Reply → Input

-- What a handler does between the call's success and `load`.
unfoldable pub succeed : Call → String → State → State
succeed (Call.create_policy d) key s = record s {
  message = "Policy created";
  new_policy = empty_policy;
}
succeed (Call.update_policy id d) key s = record s { message = "Policy updated" }
succeed (Call.create_key d) key s = record s { created_key = key; message = "API key created" }
succeed (Call.create_route_policy d) key s = record s { message = "Route policy attached" }
succeed (Call.update_route_policy id d) key s = record s { message = "Route policy updated" }
succeed _ key s = s

-- The rest of a task once its promise has settled, in the world `w` that does without the task. A
-- reply of another kind is not for it, and leaves the world `before` as it was.
unfoldable pub resume : World → Task → Reply → World → World
unfolding succeed load
resume before (loading c) (answers a) w = with_state w (load c a w.state)
resume before (calling f c) (answer (ok key)) w =
    start (with_state w (succeed f key w.state)) (loading c)
resume before (calling f c) (answer (err e)) w = with_state w (record (w.state) { message = e })
resume before (sending k m u c) (shown (ok r)) w =
    start (with_state w (record (w.state) { test_result = some r })) (loading c)
resume before (sending k m u c) (shown (err e)) w = with_state w (record (w.state) { message = e })
resume before _ _ w = before

-- Takes the task at a place out of a list.
unfoldable pub pick : ℕ → List Task → Option (Task × List Task)
pick n [] = none
pick zero (t ∷ ts) = some (t, ts)
pick (suc n) (t ∷ ts) = elim (pick n ts) [ none ↦ none | some (u, us) ↦ some (u, t ∷ us) ]

abbrev settle : Reply → World → Option (Task × List Task) → World
settle r w none = w
settle r w (some (t, ts)) = resume w t r (record w { pending = ts })

unfoldable pub step : World → Input → World
unfolding dispatch resume pick
step w (user e) = dispatch w e
step w tick = start w (loading w.effect)
step w (settles n r) = settle r w (pick n w.pending)

-- The first render, and the effect that runs after it.
abbrev pub mounted : World
mounted = record {
  state = initial;
  effect = closure_of initial;
  pending = loading (closure_of initial) ∷ [];
}

unfoldable pub run : World → List Input → World
unfolding step
run w [] = w
run w (i ∷ is) = run (step w i) is

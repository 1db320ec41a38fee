-- ===== src/App/Loop/Notices.antt =====
-- The notice of the dashboard across loads: the rounds of the effect's timer, the refresh button,
-- and a handler that succeeds or fails.
use rate_x_rate_limiter_web.Base.{
  ◌≡◌, refl, List, [], ◌∷◌, ◌++◌, some, length, All, false, String, if◌then◌else◌, ok, err, ◌∙◌,
  subst, sym,
}
use rate_x_rate_limiter_web.Text.{starts_with, begins}
use rate_x_rate_limiter_web.App.{Closure, closure_of, empty_policy}
use rate_x_rate_limiter_web.App.Load.{load, Answers, failures, unavailable, loaded_message}
use rate_x_rate_limiter_web.App.Handlers.{
  World, Task, loading, dispatch, refresh, create_policy, with_state,
}
use rate_x_rate_limiter_web.App.Loop.{
  user, tick, settles, step, run, resume, pick, succeed, answers, answer,
}

-- None of the seven calls failed.
abbrev pub AllOk : Answers → Type 0
AllOk a = length (failures a) ≡ 0

-- The timer fires, and its load is answered before anything else happens.
abbrev pub round : World → Answers → World
round w a = run w (tick ∷ settles (length w.pending) (answers a) ∷ [])

abbrev pub rounds : World → List Answers → World
rounds w [] = w
rounds w (a ∷ later) = rounds (round w a) later

pub pick-last : (ts : List Task) (t : Task) → pick (length ts) (ts ++ t ∷ []) ≡ some (t, ts)
unfolding pick
pick-last [] t = refl
pick-last (u ∷ ts) t = rw (pick-last ts t)

-- A round changes the state by one `load` with the closure of the effect, and nothing else.
pub round_lem : (w : World) (a : Answers) → round w a ≡ with_state w (load w.effect a w.state)
unfolding run step resume
round_lem w a = rw (pick-last w.pending (loading w.effect))

-- What a load without a failure makes of the notice.
loaded_message-ok :
    (c : Closure) (a : Answers) (m : String)
    → AllOk a
    → loaded_message c a m ≡ (if starts_with c.message "Some API data" then "" else m)
unfolding loaded_message
loaded_message-ok c a m h = rw h

message-load :
    (w : World) (c : Closure) (a : Answers)
    → (load c a w.state).message ≡ loaded_message c a w.state.message
unfolding load
message-load w c a = refl

-- Where the effect last ran in a render that did not show the notice, no number of rounds of the
-- timer that all succeed takes a notice away, the one about missing data included.
pub rounds-message :
    (w : World) (later : List Answers)
    → starts_with w.effect.message "Some API data" ≡ false
    → All AllOk later
    → (rounds w later).state.message ≡ w.state.message
rounds-message w [] h all = refl
rounds-message w (a ∷ later) h (here, all) =
    subst (λ v. (rounds v later).state.message ≡ w.state.message) (sym (round_lem w a))
      (rounds-message (with_state w (load w.effect a w.state)) later h all
        ∙ message-load w w.effect a
        ∙ loaded_message-ok w.effect a w.state.message here
        ∙ rw h)

-- A refresh by the user whose load succeeds clears the notice about missing data.
pub refresh-message :
    (w : World) (a : Answers)
    → w.state.message ≡ unavailable
    → AllOk a
    → (run w (user refresh ∷ settles (length w.pending) (answers a) ∷ [])).state.message ≡ ""
unfolding run step dispatch resume
refresh-message w a e h = rw (pick-last w.pending (loading (closure_of w.state))) (
    message-load w (closure_of w.state) a
    ∙ loaded_message-ok (closure_of w.state) a w.state.message h
    ∙ rw e (unfold begins in refl))

-- The user creates a policy, the server accepts it, and the reload is answered.
abbrev pub created : World → Answers → String → World
created w a key =
    run w (user create_policy ∷ settles 0 (answer (ok key)) ∷ settles 0 (answers a) ∷ [])

-- The user creates a policy while nothing else waits, and the server accepts it: the form is reset.
-- If the reload then succeeds too, the notice is "Policy created", but if the notice about missing
-- data stood when the user clicked, there is no notice.
pub create_policy-succeeds :
    (w : World) (a : Answers) (key : String)
    → w.pending ≡ []
    → AllOk a
    → ((created w a key).state.new_policy ≡ empty_policy)
      × ((created w a key).state.message
          ≡ (if starts_with w.state.message "Some API data" then "" else "Policy created"))
      × ((created w a key).pending ≡ [])
unfolding run step dispatch resume succeed pick
create_policy-succeeds w a key e h =
    rw e (unfold load in (refl, loaded_message-ok (closure_of w.state) a "Policy created" h, refl))

-- The user creates a policy while nothing else waits, and the call fails: the error is the notice,
-- and nothing else changes: the form keeps its draft, and nothing is loaded.
pub create_policy-fails :
    (w : World) (error : String)
    → w.pending ≡ []
    → run w (user create_policy ∷ settles 0 (answer (err error)) ∷ [])
      ≡ with_state w (record (w.state) { message = error })
unfolding run step dispatch resume pick
create_policy-fails w error e = rw e refl

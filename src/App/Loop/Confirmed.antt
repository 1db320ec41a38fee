-- ===== src/App/Loop/Confirmed.antt =====
-- Calls that delete or revoke are made only after the user was asked, and once for each consent.
use rate_x_rate_limiter_web.Base.{
  Option-cases, inl, inr, ℕ, ◌+◌, ◌≤◌, ◌≡◌, refl, List, [], ◌∷◌, ◌++◌, arith, some, none, zero, suc,
  Option,
}
use rate_x_rate_limiter_web.Api.Calls.{Call}
use rate_x_rate_limiter_web.App.{Confirm}
use rate_x_rate_limiter_web.App.Load.{load}
use rate_x_rate_limiter_web.App.Handlers.{
  World, Event, Task, loading, calling, sending, dispatch, confirmed, run_confirmed, ask_revoke,
  ask_delete_policy, ask_delete_route,
}
use rate_x_rate_limiter_web.App.Loop.{
  settle, Reply, Input, user, tick, settles, step, run, resume, pick, succeed, mounted,
}

abbrev pub destroys : Task → ℕ
destroys (calling (Call.delete_policy id) c) = 1
destroys (calling (Call.revoke_key id) c) = 1
destroys (calling (Call.delete_route_policy id) c) = 1
destroys _ = 0

-- How many deletions and revocations wait for their answer.
abbrev pub destructive : List Task → ℕ
destructive [] = 0
destructive (t ∷ ts) = destroys t + destructive ts

-- Inputs that open the dialog, and inputs that consent to it.
abbrev asked : Input → ℕ
asked (user (ask_revoke id)) = 1
asked (user (ask_delete_policy p)) = 1
asked (user (ask_delete_route r)) = 1
asked _ = 0

abbrev consented : Input → ℕ
consented (user run_confirmed) = 1
consented _ = 0

abbrev pub times_asked : List Input → ℕ
times_asked [] = 0
times_asked (i ∷ is) = asked i + times_asked is

abbrev pub times_consented : List Input → ℕ
times_consented [] = 0
times_consented (i ∷ is) = consented i + times_consented is

abbrev dialogs : Option Confirm → ℕ
dialogs none = 0
dialogs (some c) = 1

pub destructive-append :
    (ts us : List Task) → destructive (ts ++ us) ≡ destructive ts + destructive us
destructive-append [] us = omega arith
destructive-append (t ∷ ts) us = omega (arith, destructive-append ts us)

destroys-le : (t : Task) → destroys t ≤ 1
destroys-le t = ground arith

-- What `pick` takes out is one task of the list.
abbrev Balanced : List Task → Option (Task × List Task) → Type 0
Balanced ts none = Unit
Balanced ts (some (t, us)) = destructive ts ≡ destroys t + destructive us

pick-Balanced : (n : ℕ) (ts : List Task) → Balanced ts (pick n ts)
unfolding pick
pick-Balanced n [] = tt
pick-Balanced zero (t ∷ ts) = refl
pick-Balanced (suc n) (t ∷ ts) = elim (Option-cases (pick n ts)) [
  | inl e ↦ rw e tt
  | inr ((u, us), e) ↦ rw e (omega (arith, rw e at (pick-Balanced n ts)))
]

-- Whatever is answered, a task that goes on adds no deletion, and leaves the dialog as it is.
resume-destructive :
    (before : World) (t : Task) (r : Reply) (us : List Task)
    → destructive us ≤ destructive before.pending
    → (destructive (resume before t r (record before { pending = us })).pending
        ≤ destructive before.pending)
      × (dialogs (resume before t r (record before { pending = us })).state.confirm
          ≡ dialogs before.state.confirm)
unfolding resume succeed load
resume-destructive before (loading c) r us h =
    ground (arith, destructive-append us (loading c ∷ []))
resume-destructive before (calling f c) r us h =
    ground (arith, destructive-append us (loading c ∷ []))
resume-destructive before (sending k m u c) r us h =
    ground (arith, destructive-append us (loading c ∷ []))

settle-destructive :
    (w : World) (r : Reply) (p : Option (Task × List Task))
    → Balanced w.pending p
    → (destructive (settle r w p).pending ≤ destructive w.pending)
      × (dialogs (settle r w p).state.confirm ≡ dialogs w.state.confirm)
settle-destructive w r none b = (omega arith, refl)
settle-destructive w r (some (t, us)) b = resume-destructive w t r us (omega arith)

abbrev Allowed : World → Input → World → Type 0
Allowed w i v =
    (destructive v.pending ≤ destructive w.pending + consented i)
    × (destructive v.pending + dialogs v.state.confirm
        ≤ destructive w.pending + dialogs w.state.confirm + asked i)

start-destructive :
    (ts : List Task) (t : Task) → destructive (ts ++ t ∷ []) ≡ destructive ts + destroys t
start-destructive ts t = omega (arith, destructive-append ts (t ∷ []))

confirmed-Allowed :
    (w : World) (o : Option Confirm)
    → w.state.confirm ≡ o
    → Allowed w (user run_confirmed) (confirmed w o)
unfolding confirmed
confirmed-Allowed w none e = rw e (omega arith)
confirmed-Allowed w (some c) e = rw e (
    omega (
      arith,
      start-destructive w.pending (calling c.call c.closure),
      destroys-le (calling c.call c.closure),
    ))

dispatch-Allowed : (w : World) (e : Event) → Allowed w (user e) (dispatch w e)
unfolding dispatch
dispatch-Allowed w run_confirmed = confirmed-Allowed w w.state.confirm refl
dispatch-Allowed w e = grind (arith, start-destructive)

step-Allowed : (w : World) (i : Input) → Allowed w i (step w i)
unfolding step
step-Allowed w (user e) = dispatch-Allowed w e
step-Allowed w tick = omega (arith, start-destructive w.pending (loading w.effect))
step-Allowed w (settles n r) =
    omega (arith, settle-destructive w r (pick n w.pending) (pick-Balanced n w.pending))

run-Allowed :
    (w : World) (is : List Input)
    → (destructive (run w is).pending ≤ destructive w.pending + times_consented is)
      × (destructive (run w is).pending + dialogs (run w is).state.confirm
          ≤ destructive w.pending + dialogs w.state.confirm + times_asked is)
unfolding run
run-Allowed w [] = omega arith
run-Allowed w (i ∷ is) = omega (arith, step-Allowed w i, run-Allowed (step w i) is)

-- After any sequence of events, ticks and answers, in any order, the deletions and revocations that
-- wait for their answer are at most as many as the dialogs that the user opened, and at most as
-- many as the times that the user confirmed one.
pub mounted-destructive :
    (is : List Input)
    → (destructive (run mounted is).pending ≤ times_asked is)
      × (destructive (run mounted is).pending ≤ times_consented is)
mounted-destructive is = omega (arith, run-Allowed mounted is)

confirmed-none :
    (w : World) (o : Option Confirm) → w.state.confirm ≡ o → (confirmed w o).state.confirm ≡ none
unfolding confirmed
confirmed-none w none e = e
confirmed-none w (some c) e = refl

-- Confirming twice is confirming once: the second click finds the dialog closed and starts nothing.
pub run_confirmed_twice :
    (w : World)
    → run w (user run_confirmed ∷ user run_confirmed ∷ []) ≡ run w (user run_confirmed ∷ [])
unfolding run dispatch
run_confirmed_twice w = rw (confirmed-none w w.state.confirm refl) (unfold confirmed in refl)

-- ===== src/App/Loop/Quiet.antt =====
-- Runs of answers to the tasks that wait, with no event of the user and no tick of the timer between.
use rate_x_rate_limiter_web.Base.{
  ℕ, zero, suc, ◌+◌, ◌≤◌, ◌≡◌, refl, Bool, true, false, Option, none, some, List, [], ◌∷◌, ◌++◌,
  Result, ok, err, length, arith, Option-cases, String, inl, inr,
}
use rate_x_rate_limiter_web.Api.Calls.{Call}
use rate_x_rate_limiter_web.Api.Demo.{DemoResult}
use rate_x_rate_limiter_web.App.Load.{Answers, load}
use rate_x_rate_limiter_web.App.Handlers.{Task, loading, calling, sending, World}
use rate_x_rate_limiter_web.App.Loop.{
  Reply, answers, answer, shown, Input, user, tick, settles, resume, pick, settle, step, run,
}

-- How many answers a task can still need: a call that succeeds is followed by a load.
abbrev pub needs : Task → ℕ
needs (loading c) = 1
needs (calling f c) = 2
needs (sending k m u c) = 2

abbrev pub needed : List Task → ℕ
needed [] = 0
needed (t ∷ ts) = needs t + needed ts

-- The reply is one that the task waits for.
abbrev pub is_for : Task → Reply → Bool
is_for (loading c) (answers a) = true
is_for (calling f c) (answer r) = true
is_for (sending k m u c) (shown r) = true
is_for _ _ = false

abbrev picked_for : Option (Task × List Task) → Reply → Bool
picked_for none r = false
picked_for (some (t, ts)) r = is_for t r

-- The input answers a task that waits.
abbrev pub is_answer : World → Input → Bool
is_answer w (user e) = false
is_answer w tick = false
is_answer w (settles n r) = picked_for (pick n w.pending) r

-- Every input answers a task that waits when it comes.
abbrev pub AllAnswer : World → List Input → Type 0
AllAnswer w [] = Unit
AllAnswer w (i ∷ inputs) = (is_answer w i ≡ true) × AllAnswer (step w i) inputs

needed-append : (ts us : List Task) → needed (ts ++ us) ≡ needed ts + needed us
needed-append [] us = omega arith
needed-append (t ∷ ts) us = omega (arith, needed-append ts us)

-- What `pick` takes out is one task of the list.
abbrev IsSplit : List Task → Option (Task × List Task) → Type 0
IsSplit ts none = Unit
IsSplit ts (some (t, us)) = needed ts ≡ needs t + needed us

pick-IsSplit : (n : ℕ) (ts : List Task) → IsSplit ts (pick n ts)
unfolding pick
pick-IsSplit n [] = tt
pick-IsSplit zero (t ∷ ts) = refl
pick-IsSplit (suc n) (t ∷ ts) = elim (Option-cases (pick n ts)) [
  | inl e ↦ rw e tt
  | inr ((u, us), e) ↦ rw e (omega (arith, rw e at (pick-IsSplit n ts)))
]

needed-resume :
    (before : World) (t : Task) (r : Reply) (w : World)
    → is_for t r ≡ true
    → suc (needed (resume before t r w).pending) ≤ needs t + needed w.pending
unfolding resume load
needed-resume before (loading c) (answers a) w e = omega arith
needed-resume before (calling f c) (answer (ok key)) w e =
    omega (arith, needed-append w.pending (loading c ∷ []))
needed-resume before (calling f c) (answer (err x)) w e = omega arith
needed-resume before (sending k m u c) (shown (ok r)) w e =
    omega (arith, needed-append w.pending (loading c ∷ []))
needed-resume before (sending k m u c) (shown (err x)) w e = omega arith
needed-resume before _ _ w e = absurd (cc)

needed-settle :
    (r : Reply) (w : World) (ts : List Task) (picked : Option (Task × List Task))
    → IsSplit ts picked
    → picked_for picked r ≡ true
    → suc (needed (settle r w picked).pending) ≤ needed ts
needed-settle r w ts none h e = absurd (cc)
needed-settle r w ts (some (t, us)) h e =
    omega (arith, h, needed-resume w t r (record w { pending = us }) e)

needed-step :
    (w : World) (i : Input)
    → is_answer w i ≡ true
    → suc (needed (step w i).pending) ≤ needed w.pending
unfolding step
needed-step w (user e) h = absurd (cc)
needed-step w tick h = absurd (cc)
needed-step w (settles n r) h =
    needed-settle r w w.pending (pick n w.pending) (pick-IsSplit n w.pending) h

needed-run :
    (w : World) (inputs : List Input)
    → AllAnswer w inputs
    → length inputs + needed (run w inputs).pending ≤ needed w.pending
unfolding run
needed-run w [] h = omega arith
needed-run w (i ∷ inputs) (here, later) =
    omega (arith, needed-step w i here, needed-run (step w i) inputs later)

-- A server that answers every task with what it waits for.
abbrev pub replied : Answers → (Call → Result String) → Result DemoResult → Task → Reply
replied a f r (loading c) = answers a
replied a f r (calling call c) = answer (f call)
replied a f r (sending k m u c) = shown r

is_for-replied :
    (a : Answers) (f : Call → Result String) (r : Result DemoResult) (t : Task)
    → is_for t (replied a f r t) ≡ true
is_for-replied a f r (loading c) = refl
is_for-replied a f r (calling call c) = refl
is_for-replied a f r (sending k m u c) = refl

abbrev first_replied : Answers → (Call → Result String) → Result DemoResult → List Task → Reply
first_replied a f r [] = answers a
first_replied a f r (t ∷ ts) = replied a f r t

-- The server answers the task that waits longest, so many times; with none there, nothing happens.
unfoldable pub drain : Answers → (Call → Result String) → Result DemoResult → ℕ → World → World
unfolding step
drain a f r zero w = w
drain a f r (suc n) w = drain a f r n (step w (settles 0 (first_replied a f r w.pending)))

needed-zero : (ts : List Task) → needed ts ≤ 0 → ts ≡ []
needed-zero [] h = refl
needed-zero (loading c ∷ ts) h = absurd (omega arith)
needed-zero (calling f c ∷ ts) h = absurd (omega arith)
needed-zero (sending k m u c ∷ ts) h = absurd (omega arith)

needed-first :
    (a : Answers) (f : Call → Result String) (r : Result DemoResult) (n : ℕ) (w : World)
    (ts : List Task)
    → w.pending ≡ ts
    → needed ts ≤ suc n
    → needed (settle (first_replied a f r ts) w (pick 0 ts)).pending ≤ n
unfolding pick
needed-first a f r n w [] e h = rw e (omega arith)
needed-first a f r n w (t ∷ ts) e h = omega (
  arith,
  h,
  needed-settle (replied a f r t) w (t ∷ ts) (some (t, ts)) refl (is_for-replied a f r t),
)

drain-rest :
    (a : Answers) (f : Call → Result String) (r : Result DemoResult) (n : ℕ) (w : World)
    → needed w.pending ≤ n
    → (drain a f r n w).pending ≡ []
unfolding drain step
drain-rest a f r zero w h = needed-zero w.pending h
drain-rest a f r (suc n) w h =
    drain-rest a f r n (step w (settles 0 (first_replied a f r w.pending)))
      (needed-first a f r n w w.pending refl h)

-- In a run of answers to tasks that wait, in whatever order, with no event of the user and no tick of
-- the timer between, there are at most as many answers as the tasks need, one for a load and two for
-- a call or a request. After any such run, a server that answers the task that waits longest, again
-- and again and with what it likes, leaves nothing waiting after as many answers as are then needed.
pub run-rest :
    (w : World) (inputs : List Input) (a : Answers) (f : Call → Result String)
    (r : Result DemoResult)
    → AllAnswer w inputs
    → (length inputs ≤ needed w.pending)
      × ((drain a f r (needed (run w inputs).pending) (run w inputs)).pending ≡ [])
run-rest w inputs a f r h = (
  omega (arith, needed-run w inputs h),
  drain-rest a f r (needed (run w inputs).pending) (run w inputs) (omega arith),
)

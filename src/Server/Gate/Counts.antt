-- ===== src/Server/Gate/Counts.antt =====
-- What the counters and the events of the rate limit middleware add up to.
use rate_x_rate_limiter_web.Base.{
  ℕ, suc, ◌+◌, ◌≡◌, refl, String, Bool, not, ◌&&◌, Option, List, [], ◌∷◌, Result, ok, err, length,
  arith, ◌==◌, if◌then◌else◌, sym,
}
use rate_x_rate_limiter_web.Model.{Policy, ApiKey}
use rate_x_rate_limiter_web.Limiter.{Decision}
use rate_x_rate_limiter_web.Server.Gate.{
  Request, Identity, identify, Recorded, Totals, Answer, World, gate, serve, identified, limited,
  decided,
}

abbrev pub count_allowed : List Recorded → ℕ
count_allowed [] = 0
count_allowed (e ∷ events) = (if e.allowed then 1 else 0) + count_allowed events

abbrev pub count_rejected : List Recorded → ℕ
count_rejected [] = 0
count_rejected (e ∷ events) = (if e.allowed then 0 else 1) + count_rejected events

-- An answer that refuses a request whose sender is not known.
abbrev pub refuses : Answer → ℕ
refuses a = if not a.passed && a.status == 401 then 1 else 0

abbrev pub refused : List Answer → ℕ
refused [] = 0
refused (a ∷ answers) = refuses a + refused answers

abbrev pub no_totals : Totals
no_totals = record { requests = 0; allowed = 0; rejected = 0; redis_errors = 0; events = [] }

-- The counters that end a request, and the events, agree.
abbrev pub ended : Totals → ℕ
ended t = t.allowed + t.rejected + t.redis_errors

abbrev pub Agree : Totals → Type 0
Agree t = (t.allowed ≡ count_allowed t.events) × (t.rejected ≡ count_rejected t.events)

module _ (find_key : String → Result (ApiKey × Policy))
    (find_policy : String → String → Result (Option Policy)) {S : Type 0}
    (allow : Option Policy → String → S → Result Decision × S) (fail_open : Bool)
    (next_status : Request → ℕ) where
  abbrev Counted : Totals → Answer × Totals → Type 0
  Counted t (a, u) =
      (u.requests ≡ t.requests) × (ended u + refuses a ≡ suc (ended t)) × (Agree t → Agree u)

  decided-Counted :
      (r : Request) (i : Identity) (d : Decision) (t : Totals)
      → Counted t (decided find_key find_policy allow fail_open next_status r i d t)
  unfolding decided
  decided-Counted r i d t = ground arith

  limited-Counted :
      (r : Request) (i : Identity) (d : Result Decision) (t : Totals)
      → Counted t (limited find_key find_policy allow fail_open next_status r i d t)
  unfolding limited
  limited-Counted r i (ok d) t = decided-Counted r i d t
  limited-Counted r i (err e) t = ground arith

  identified-Counted :
      (r : Request) (i : Result Identity) (w : World S) (p : Answer × World S)
      → p ≡ identified find_key find_policy allow fail_open next_status r i w
      → Counted w.totals (p.0, p.1.totals)
  unfolding identified
  identified-Counted r (err e) w p h = rw h (ground arith)
  identified-Counted r (ok i) w p h = rw h (limited-Counted r i _ w.totals)

  -- The counters after a run, from those before it.
  pub serve_lem :
      (w : World S) (rs : List Request) (p : List Answer × World S)
      → p ≡ serve find_key find_policy allow fail_open next_status w rs
      → (p.1.totals.requests ≡ w.totals.requests + length rs)
        × (ended p.1.totals + refused p.0 ≡ ended w.totals + length rs)
        × (Agree w.totals → Agree p.1.totals)
  unfolding gate
  serve_lem w [] p h = rw h (ground arith)
  serve_lem w (r ∷ rs) p h =
      let start : World S = record w {
        totals = record (w.totals) { requests = w.totals.requests + 1 };
      } in
      let i : Result Identity = identify find_key r in
      let q : Answer × World S =
        identified find_key find_policy allow fail_open next_status r i start in
      let (n, e, a) = identified-Counted r i start q refl in
      let (n', e', a') = serve_lem q.1 rs _ refl in
      rw h ((omega (arith, n, n'), omega (arith, e, e'), λ agree. a' (a agree)))

  -- However the limiters, the lookups and the handlers answer, after any requests from a fresh start
  -- every request was counted once, and ended in one of four ways: it was allowed, it was rejected,
  -- the limiter failed, or it was refused since its sender is not known. The events are as many as
  -- the requests that were allowed and rejected, each of its kind.
  pub serve-Agree :
      (s : S) (rs : List Request) (answers : List Answer) (v : World S)
      → serve find_key find_policy allow fail_open next_status
          (record { totals = no_totals; limiters = s })
          rs
        ≡ (answers, v)
      → (v.totals.requests ≡ length rs)
        × (v.totals.allowed + v.totals.rejected + v.totals.redis_errors + refused answers
            ≡ length rs)
        × Agree v.totals
  serve-Agree s rs answers v h =
      let (n, e, a) =
        serve_lem (record { totals = no_totals; limiters = s }) rs (answers, v) (sym h) in
      (omega (arith, n), omega (arith, e), a (refl, refl))

-- ===== src/Server/System/Revoked.antt =====
-- Requests with the secret of a key that was revoked.
use rate_x_rate_limiter_web.Base.{
  ℕ, ◌≡◌, refl, String, Bool, false, Option, some, [], Result, err, find, str_eq,
}
use rate_x_rate_limiter_web.Text.{is_empty}
use rate_x_rate_limiter_web.Model.{Policy, ApiKey}
use rate_x_rate_limiter_web.Limiter.{Decision}
use rate_x_rate_limiter_web.Server.Auth.{extract_api_key}
use rate_x_rate_limiter_web.Server.Accounts.{hash_api_key}
use rate_x_rate_limiter_web.Server.Accounts.Identified.{lookup_key}
use rate_x_rate_limiter_web.Server.Store.{revoke_key, Db}
use rate_x_rate_limiter_web.Server.Store.Sound.{IsSound}
use rate_x_rate_limiter_web.Server.Store.Lookup.{find_by_hash}
use rate_x_rate_limiter_web.Server.Store.Revoked.{
  IsDead, execute-IsDead, revoke-IsDead, find_active-dead,
}
use rate_x_rate_limiter_web.Server.Gate.{Request, Answer, World, gate, identified, identify}
use rate_x_rate_limiter_web.Server.System.{
  State, Moment, ask, Step, administers, asks, Reach, here, later,
}

module _ (sha256 : String → String) (is_later : String → String → Bool) {S : Type 0}
    (allow : ℕ → Option Policy → String → S → Result Decision × S) (fail_open : Bool)
    (next_status : Request → ℕ) where
  Step-IsDead :
      (hash : String) (s t : State S)
      → Step sha256 is_later allow fail_open next_status s t
      → IsDead hash s.db.keys
      → IsDead hash t.db.keys
  Step-IsDead hash s t (administers statement) h = execute-IsDead hash s.db statement h
  Step-IsDead hash s t (asks at r) h = h

  Reach-IsDead :
      (hash : String) (s t : State S)
      → Reach sha256 is_later allow fail_open next_status s t
      → IsDead hash s.db.keys
      → IsDead hash t.db.keys
  Reach-IsDead hash s t here h = h
  Reach-IsDead hash s t (later reach step) h =
      Step-IsDead hash _ t step (Reach-IsDead hash s _ reach h)

  -- The answer to a request whose sender is not known, and what it leaves of the limiters.
  abbrev pub IsRefused : State S → Answer × World S → Type 0
  IsRefused s q =
      (q.0.passed ≡ false)
      × (q.0.status ≡ 401)
      × (q.0.headers ≡ [])
      × (q.1.limiters ≡ s.world.limiters)

  identify-dead :
      (now : String) (db : Db) (r : Request)
      → is_empty (extract_api_key r.headers) ≡ false
      → IsDead (hash_api_key sha256 (extract_api_key r.headers)) db.keys
      → identify (lookup_key sha256 is_later now db) r ≡ err "no rows in result set"
  unfolding identify find_by_hash
  identify-dead now db r filled (there, dead) =
      rw
        (
          filled,
          find_active-dead is_later now (hash_api_key sha256 (extract_api_key r.headers)) db.keys
              dead,
        )
        refl

  ask-dead :
      (s : State S) (at : Moment) (r : Request)
      → is_empty (extract_api_key r.headers) ≡ false
      → IsDead (hash_api_key sha256 (extract_api_key r.headers)) s.db.keys
      → IsRefused s (ask sha256 is_later allow fail_open next_status s at r)
  unfolding ask gate identified
  ask-dead s at r filled dead =
      rw (identify-dead at.text s.db r filled dead) (refl, refl, refl, refl)

  -- Once the administration has revoked a key, in every state that any statements and requests reach
  -- from then on, a request with the secret of that key is answered 401 at any moment, whatever else
  -- it carries; it does not get past the middleware, and no limiter is asked.
  pub ask-revoked :
      (s t : State S) (id now : String) (k : ApiKey) (at : Moment) (r : Request)
      → IsSound s.db
      → find (λ (q : ApiKey). str_eq q.id id) s.db.keys ≡ some k
      → Reach sha256 is_later allow fail_open next_status
          (record s { db = revoke_key id now s.db })
          t
      → is_empty (extract_api_key r.headers) ≡ false
      → hash_api_key sha256 (extract_api_key r.headers) ≡ k.key_hash
      → IsRefused t (ask sha256 is_later allow fail_open next_status t at r)
  ask-revoked s t id now k at r sound found reach filled same = ask-dead t at r filled (
      rw same (
        Reach-IsDead k.key_hash _ t reach
          (unfold revoke_key in revoke-IsDead id now k s.db.keys sound.keys found)))

-- ===== src/Server/Store/Revoked.antt =====
-- A key that was revoked stays revoked.
use rate_x_rate_limiter_web.Base.{
  ◌≡◌, refl, String, Bool, true, false, not, ◌&&◌, none, some, List, [], ◌∷◌, any, find, map, arith,
  is_err, str_eq, eq_iff, eq_refl, Bool-cases, inl, inr, ap, sym, subst, ◌∙◌,
}
use rate_x_rate_limiter_web.Model.{ApiKey}
use rate_x_rate_limiter_web.Server.Store.{
  Db, create_policy, delete_policy, create_key, takes_key, revoke_key, revoked, create_route,
  delete_route,
}
use rate_x_rate_limiter_web.Server.Store.Distinct.{str_eq_sym, same_row}
use rate_x_rate_limiter_web.Server.Store.Sound.{IsSound, DistinctKeys}
use rate_x_rate_limiter_web.Server.Store.Lookup.{find_by_hash, is_active}
use rate_x_rate_limiter_web.Server.Store.Runs.{
  Statement, add_policy, change_policy, drop_policy, add_key, cancel_key, add_route, change_route,
  drop_route, execute, run,
}

abbrev is_revoked : ApiKey → Bool
is_revoked k = elim k.revoked_at [ none ↦ false | some at ↦ true ]

-- Whether a row has the hash and is not revoked.
abbrev is_live : String → ApiKey → Bool
is_live hash k = str_eq k.key_hash hash && not (is_revoked k)

-- A row has the hash, and every one that has it is revoked.
abbrev pub IsDead : String → List ApiKey → Type 0
IsDead hash keys =
    (any (λ (k : ApiKey). str_eq k.key_hash hash) keys ≡ true) × (any (is_live hash) keys ≡ false)

hash-revoke :
    (hash id now : String) (keys : List ApiKey)
    → any (λ (k : ApiKey). str_eq k.key_hash hash) (map (revoked id now) keys)
      ≡ any (λ (k : ApiKey). str_eq k.key_hash hash) keys
hash-revoke hash id now [] = refl
hash-revoke hash id now (k ∷ keys) = ground (arith, hash-revoke hash id now keys)

live-revoke :
    (hash id now : String) (keys : List ApiKey)
    → any (is_live hash) keys ≡ false
    → any (is_live hash) (map (revoked id now) keys) ≡ false
live-revoke hash id now [] h = refl
live-revoke hash id now (k ∷ keys) h = ground (arith, live-revoke hash id now keys)

-- A key with the hash cannot be created again.
taken :
    (hash : String) (k : ApiKey) (keys : List ApiKey)
    → k.key_hash ≡ hash
    → any (λ (r : ApiKey). str_eq r.key_hash hash) keys ≡ true
    → any (takes_key k) keys ≡ true
taken hash k [] e h = absurd (cc)
taken hash k (r ∷ keys) e h = rw e (ground (arith, taken hash k keys e))

create_key-IsDead :
    (hash : String) (k : ApiKey) (db : Db)
    → IsDead hash db.keys
    → IsDead hash (create_key k db).1.keys
unfolding create_key
create_key-IsDead hash k db (there, dead) = elim (Bool-cases (str_eq k.key_hash hash)) [
  | inl same ↦ rw (taken hash k db.keys ((eq_iff k.key_hash hash).0 same) there) (ground arith)
  | inr other ↦ ground arith
]

pub execute-IsDead :
    (hash : String) (db : Db) (s : Statement)
    → IsDead hash db.keys
    → IsDead hash (execute db s).keys
unfolding execute
execute-IsDead hash db (add_policy id now d) h = (unfold create_policy in ground arith)
execute-IsDead hash db (change_policy id now d) h = ground arith
execute-IsDead hash db (drop_policy id) h = (unfold delete_policy in ground arith)
execute-IsDead hash db (add_key k) h = create_key-IsDead hash k db h
execute-IsDead hash db (cancel_key id now) (there, dead) =
    (unfold revoke_key in
      (hash-revoke hash id now db.keys ∙ there, live-revoke hash id now db.keys dead))
execute-IsDead hash db (add_route id now d) h = (unfold create_route in ground arith)
execute-IsDead hash db (change_route id now d) h = ground arith
execute-IsDead hash db (drop_route id) h = (unfold delete_route in h)

run-IsDead :
    (hash : String) (db : Db) (statements : List Statement)
    → IsDead hash db.keys
    → IsDead hash (run db statements).keys
unfolding run
run-IsDead hash db [] h = h
run-IsDead hash db (s ∷ statements) h =
    run-IsDead hash (execute db s) statements (execute-IsDead hash db s h)

find-any :
    (t u : ApiKey → Bool) (k : ApiKey) (keys : List ApiKey)
    → find u keys ≡ some k
    → any t keys ≡ false
    → t k ≡ false
find-any t u k [] e h = absurd (cc)
find-any t u k (r ∷ keys) e h = elim (Bool-cases (u r)) [
  | inl found ↦
      let same : r ≡ k = (let e' : some r ≡ some k = rw found at e in cc e') in
      rw (← same) (ground arith)
  | inr other ↦ find-any t u k keys (rw other at e) (ground arith)
]

-- Rows apart from a row have other hashes.
apart-live :
    (r : ApiKey) (id now : String) (keys : List ApiKey)
    → any (same_row (λ (k : ApiKey). k.id) (λ (k : ApiKey). k.key_hash) str_eq r) keys ≡ false
    → any (is_live r.key_hash) (map (revoked id now) keys) ≡ false
apart-live r id now [] h = refl
apart-live r id now (k ∷ keys) h =
    ground (arith, apart-live r id now keys, str_eq_sym r.key_hash k.key_hash)

pub revoke-IsDead :
    (id now : String) (k : ApiKey) (keys : List ApiKey)
    → DistinctKeys keys
    → find (λ (r : ApiKey). str_eq r.id id) keys ≡ some k
    → IsDead k.key_hash (map (revoked id now) keys)
revoke-IsDead id now k [] d e = absurd (cc)
revoke-IsDead id now k (r ∷ keys) (d, ds) e = elim (Bool-cases (str_eq r.id id)) [
  | inl found ↦
      let same : r ≡ k = (let e' : some r ≡ some k = rw found at e in cc e') in
      let hash : k.key_hash ≡ r.key_hash = ap (λ (x : ApiKey). x.key_hash) (sym same) in
      let rest : any (is_live k.key_hash) (map (revoked id now) keys) ≡ false =
        subst (λ h. any (is_live h) (map (revoked id now) keys) ≡ false) (sym hash)
          (apart-live r id now keys d) in
      rw (found, rest) (rw (hash, eq_refl r.key_hash), ground arith)
  | inr other ↦
      let e' : find (λ (q : ApiKey). str_eq q.id id) keys ≡ some k = rw other at e in
      let (there, dead) = revoke-IsDead id now k keys ds e' in
      let differs =
        find-any (same_row (λ (q : ApiKey). q.id) (λ (q : ApiKey). q.key_hash) str_eq r) _ k keys e'
          d in
      let hash : str_eq r.key_hash k.key_hash ≡ false = ground arith in
      rw (other, hash, there, dead) (refl, refl)
]

module _ (is_later : String → String → Bool) where
  pub find_active-dead :
      (now hash : String) (keys : List ApiKey)
      → any (is_live hash) keys ≡ false
      → find (is_active is_later now hash) keys ≡ none
  find_active-dead now hash [] h = refl
  find_active-dead now hash (k ∷ keys) h = ground (arith, find_active-dead now hash keys)

  -- Once a key was revoked, its hash is not found any more, whatever the administration does
  -- afterwards and whatever the time is.
  pub find_by_hash-revoke_key :
      (db : Db) (id at now : String) (k : ApiKey) (later : List Statement)
      → IsSound db
      → find (λ (r : ApiKey). str_eq r.id id) db.keys ≡ some k
      → is_err (find_by_hash is_later now (run (revoke_key id at db) later) k.key_hash) ≡ true
  unfolding find_by_hash
  find_by_hash-revoke_key db id at now k later sound e =
      let dead = revoke-IsDead id at k db.keys sound.keys e in
      let (there, gone) =
        run-IsDead k.key_hash (revoke_key id at db) later (unfold revoke_key in dead) in
      rw (find_active-dead now k.key_hash (run (revoke_key id at db) later).keys gone)

-- ===== src/Server/Accounts/Identified.antt =====
-- A client with a key that was created is known by it.
use Prim.Native.String.{[], ◌∷◌}
use rate_x_rate_limiter_web.Base.{
  ℕ, zero, suc, ◌/◌, ◌%◌, ◌≡◌, refl, String, Bool, true, false, Option, none, some, List, Result,
  ok, err, any, find, str_eq, eq_refl, arith, Bool-cases, Option-cases, inl, inr, ap, sym, ◌∙◌,
}
use rate_x_rate_limiter_web.Text.{append, is_empty, same}
use rate_x_rate_limiter_web.Text.Trim.{
  HasNone, trim_start-HasNone, trim_end-HasNone, append-HasNone,
}
use rate_x_rate_limiter_web.Model.{Policy, ApiKey, CreatedKey}
use rate_x_rate_limiter_web.Server.Auth.{is_go_space, trim_space, header, extract_api_key}
use rate_x_rate_limiter_web.Server.Store.{Db, create_key, has_policy, takes_key}
use rate_x_rate_limiter_web.Server.Store.Lookup.{find_by_hash, policy_of, is_active}
use rate_x_rate_limiter_web.Server.Accounts.{
  pick, encode, random_api_key, hash_api_key, key_row, create, shown, prefix,
}
use rate_x_rate_limiter_web.Server.Gate.{Request, Identity, identify}

abbrev HasNoSpace : String → Type 0
HasNoSpace = HasNone is_go_space

trim_space-same : (s : String) → HasNoSpace s → trim_space s ≡ s
unfolding trim_space
trim_space-same s h = rw (trim_start-HasNone is_go_space s h) (trim_end-HasNone is_go_space s h)

pick-HasNoSpace : (n : ℕ) (s : String) → HasNoSpace s → HasNoSpace (pick n s)
pick-HasNoSpace n [] h = tt
pick-HasNoSpace zero (c ∷ s) (h, hs) = (h, tt)
pick-HasNoSpace (suc n) (c ∷ s) (h, hs) = pick-HasNoSpace n s hs

digits-HasNoSpace : HasNoSpace "0123456789abcdef"
unfolding is_go_space
digits-HasNoSpace = (
  refl,
  (
    refl,
    (
      refl,
      (
        refl,
        (
          refl,
          (
            refl,
            (refl, (refl, (refl, (refl, (refl, (refl, (refl, (refl, (refl, (refl, tt)))))))))),
          ),
        ),
      ),
    ),
  ),
)

encode-HasNoSpace : (bytes : List ℕ) → HasNoSpace (encode bytes)
encode-HasNoSpace List.[] = tt
encode-HasNoSpace (List.◌∷◌ b bytes) =
    append-HasNone is_go_space (pick (b / 16) "0123456789abcdef")
      (append (pick (b % 16) "0123456789abcdef") (encode bytes))
      (pick-HasNoSpace (b / 16) "0123456789abcdef" digits-HasNoSpace)
      (append-HasNone is_go_space (pick (b % 16) "0123456789abcdef") (encode bytes)
        (pick-HasNoSpace (b % 16) "0123456789abcdef" digits-HasNoSpace) (encode-HasNoSpace bytes))

secret-HasNoSpace : (bytes : List ℕ) → HasNoSpace (append "rx_live_" (encode bytes))
unfolding is_go_space
secret-HasNoSpace bytes =
    (refl, (refl, (refl, (refl, (refl, (refl, (refl, (refl, encode-HasNoSpace bytes))))))))

abbrev some_policy : Option Policy → Bool
some_policy none = false
some_policy (some p) = true

has_policy-policy_of :
    (id : String) (policies : List Policy)
    → any (λ (p : Policy). str_eq p.id id) policies
      ≡ some_policy (find (λ (p : Policy). str_eq p.id id) policies)
has_policy-policy_of id List.[] = refl
has_policy-policy_of id (List.◌∷◌ p policies) = ground (arith, has_policy-policy_of id policies)

create_key-found :
    (k : ApiKey) (db after : Db) (c : ApiKey)
    → create_key k db ≡ (ok c, after)
    → (after ≡ record db { keys = List.◌∷◌ k db.keys })
      × ((c ≡ k) × (has_policy k.policy_id db ≡ true))
unfolding create_key
create_key-found k db after c e = elim (Bool-cases (has_policy k.policy_id db)) [
  | inl has ↦ elim (Bool-cases (any (takes_key k) db.keys)) [
    | inl taken ↦ (let e' = rw (has, taken) at e in absurd (cc))
    | inr fresh ↦ (let e' = rw (has, fresh) at e in (sym (ap (λ x. x.1) e'), (cc, has)))
  ]
  | inr without ↦ (let e' = rw without at e in absurd (cc))
]

extract-same :
    (secret : String) (hs : List (String × String))
    → HasNoSpace secret
    → is_empty secret ≡ false
    → header "X-API-Key" hs ≡ secret
    → extract_api_key hs ≡ secret
unfolding extract_api_key
extract-same secret hs nospace filled sent =
    let trimmed = trim_space-same secret nospace in rw (sent, trimmed, filled) (ground arith)

abbrev pub identity_of : String → String → Option Policy → Identity
identity_of id secret p = record {
  identity = append "key:" id;
  identity_type = "api_key";
  identity_value = prefix secret;
  policy = p;
}

module _ (sha256 : String → String) (is_later : String → String → Bool) where
  abbrev pub lookup_key : String → Db → String → Result (ApiKey × Policy)
  lookup_key now db raw = find_by_hash is_later now db (hash_api_key sha256 raw)

  found_first :
      (k : ApiKey) (now : String) (db : Db) (p : Policy)
      → is_active is_later now k.key_hash k ≡ true
      → policy_of k.policy_id db ≡ some p
      → find_by_hash is_later now (record db { keys = List.◌∷◌ k db.keys }) k.key_hash
        ≡ ok (record k { policy_name = p.name }, p)
  unfolding find_by_hash policy_of
  found_first k now db p active has =
      let has' : policy_of k.policy_id (record db { keys = List.◌∷◌ k db.keys }) ≡ some p = has in
      ground (arith, has')

  found_by_secret :
      (user secret id at now name policy_id : String) (db : Db) (p : Policy)
      → policy_of policy_id db ≡ some p
      → lookup_key now
          (record db { keys = List.◌∷◌ (key_row sha256 user secret id at name policy_id) db.keys })
          secret
        ≡ ok (record (key_row sha256 user secret id at name policy_id) { policy_name = p.name }, p)
  unfolding key_row
  found_by_secret user secret id at now name policy_id db p has =
      found_first (key_row sha256 user secret id at name policy_id) now db p
        (rw (eq_refl (hash_api_key sha256 secret)) refl) has

  by_secret :
      (user secret id at now name policy_id : String) (db : Db) (p : Policy) (r : Request)
      → policy_of policy_id db ≡ some p
      → HasNoSpace secret
      → is_empty secret ≡ false
      → header "X-API-Key" r.headers ≡ secret
      → identify
          (lookup_key now (record db {
            keys = List.◌∷◌ (key_row sha256 user secret id at name policy_id) db.keys;
          }))
          r
        ≡ ok (identity_of id secret (some p))
  unfolding identify
  by_secret user secret id at now name policy_id db p r has nospace filled sent =
      rw
        (
          extract-same secret r.headers nospace filled sent,
          filled,
          found_by_secret user secret id at now name policy_id db p has,
        )
        (unfold key_row in refl)

  shown-ok :
      (secret : String) (result : Result ApiKey × Db) (c : CreatedKey) (after : Db)
      → shown secret result ≡ (ok c, after)
      → (result ≡ (ok c.api_key, after)) × (c.key ≡ secret)
  shown-ok secret (err w, db) c after e = absurd (cc)
  shown-ok secret (ok k, db) c after e =
      let made : CreatedKey = record { api_key = k; key = secret } in
      let same : Result.ok made ≡ ok c = ap (λ x. x.0) e in
      let c_is : made ≡ c = cc same in
      (rw (← c_is, ap (λ x. x.1) e) refl, ap (λ (x : CreatedKey). x.key) (sym c_is))

  -- A request with the secret of a key that was created is known by the key, under its identifier
  -- and the shown prefix, at any later moment, and comes under the policy that was chosen.
  pub identify-create :
      (user : Result String) (random : Result (List ℕ)) (id at now name policy_id : String)
      → (db after : Db) (c : CreatedKey) (r : Request)
      → create sha256 user random id at name policy_id db ≡ (ok c, after)
      → header "X-API-Key" r.headers ≡ c.key
      → identify (lookup_key now after) r ≡ ok (identity_of id c.key (policy_of policy_id db))
  unfolding create
  identify-create (err w) random id at now name policy_id db after c r e sent = absurd (cc)
  identify-create (ok user) (err w) id at now name policy_id db after c r e sent =
      (unfold random_api_key in absurd (cc))
  identify-create (ok user) (ok bytes) id at now name policy_id db after c r e sent =
      let secret = append "rx_live_" (encode bytes) in
      let row = key_row sha256 user secret id at name policy_id in
      let (made, same) = shown-ok secret (create_key row db) c after (unfold random_api_key in e) in
      let (rows, (k_is, has)) = create_key-found row db after c.api_key made in
      let listed : some_policy (policy_of policy_id db) ≡ true =
        (unfold policy_of key_row in sym (has_policy-policy_of policy_id db.policies) ∙ has) in
      elim (Option-cases (policy_of policy_id db)) [
        | inl e' ↦ (let listed' = rw e' at listed in absurd (cc))
        | inr (p, e') ↦
            rw (rows, same, e')
              (by_secret user secret id at now name policy_id db p r e' (secret-HasNoSpace bytes)
                refl (sent ∙ same))
      ]

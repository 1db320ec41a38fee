-- ===== src/Server/Accounts.antt =====
-- internal/service/api_key_service.go: the creation of an API key. The user that
-- `EnsureDemoUser` answers with, the random bytes and SHA-256 (in hexadecimal) are arguments, as are
-- the identifier and the moment that the database gives to the row.
pub mod Identified
use Prim.Native.String.{[], ◌∷◌}
use rate_x_rate_limiter_web.Base.{
  ℕ, zero, suc, ◌/◌, ◌%◌, String, Option, none, List, Result, ok, err, ltb, if◌then◌else◌,
}
use rate_x_rate_limiter_web.Text.{append}
use rate_x_rate_limiter_web.Model.{ApiKey, CreatedKey}
use rate_x_rate_limiter_web.Server.Auth.{trim_space}
use rate_x_rate_limiter_web.Server.Store.{Db, create_key}

-- The character at a place, as a text.
abbrev pub pick : ℕ → String → String
pick n [] = []
pick zero (c ∷ s) = c ∷ []
pick (suc n) (c ∷ s) = pick n s

-- `hex.EncodeToString`
abbrev pub encode : List ℕ → String
encode List.[] = ""
encode (List.◌∷◌ b bytes) =
    append (pick (b / 16) "0123456789abcdef")
      (append (pick (b % 16) "0123456789abcdef") (encode bytes))

-- `randomAPIKey`
unfoldable pub random_api_key : Result (List ℕ) → Result String
random_api_key (err e) = err e
random_api_key (ok bytes) = ok (append "rx_live_" (encode bytes))

abbrev pub length : String → ℕ
length [] = 0
length (c ∷ s) = suc (length s)

abbrev take : ℕ → String → String
take zero s = []
take (suc n) [] = []
take (suc n) (c ∷ s) = c ∷ take n s

-- `prefix`
unfoldable pub prefix : String → String
prefix key = if ltb 14 (length key) then append (take 14 key) "..." else key

abbrev pub shown : String → Result ApiKey × Db → Result CreatedKey × Db
shown secret (err e, db) = (err e, db)
shown secret (ok k, db) = (ok (record { api_key = k; key = secret }), db)

module _ (sha256 : String → String) where
  -- `HashAPIKey`
  unfoldable pub hash_api_key : String → String
  hash_api_key key = sha256 (trim_space key)

  unfoldable pub key_row : String → String → String → String → String → String → ApiKey
  unfolding hash_api_key prefix
  key_row user secret id now name policy_id = record {
    id = id;
    user_id = user;
    name = name;
    key_prefix = prefix secret;
    key_hash = hash_api_key secret;
    policy_id = policy_id;
    policy_name = "";
    created_at = now;
    expires_at = none;
    revoked_at = none;
  }

  abbrev with_secret :
      String → Result String → String → String → String → String → Db → Result CreatedKey × Db
  with_secret user (err e) id now name policy_id db = (err e, db)
  with_secret user (ok secret) id now name policy_id db =
      shown secret (create_key (key_row user secret id now name policy_id) db)

  -- `Create`
  unfoldable pub create :
      Result String
      → Result (List ℕ)
      → String
      → String
      → String
      → String
      → Db
      → Result CreatedKey × Db
  unfolding random_api_key
  create (err e) random id now name policy_id db = (err e, db)
  create (ok user) random id now name policy_id db =
      with_secret user (random_api_key random) id now name policy_id db

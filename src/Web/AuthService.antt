-- ===== src/Web/AuthService.antt =====
-- src/web/auth/AuthService.cpp. The database's answer to a query is an argument: the text in the
-- first row, or none where the query fails or gives no row. So are the random bytes and the time, a
-- std::int64_t as its 64 bits. Callbacks run in the order of the answers.
use libiouring_server.Common.{
  ℕ, ◌+◌, ◌/◌, ◌%◌, ◌^◌, Bool, true, false, List, [], ◌∷◌, if◌then◌else◌, Option, none, some, ltb,
}
use libiouring_server.Common.Texts.{decimal}
use libiouring_server.Jwt.Codec.{JwtClaims, Libraries, Decoded, encode, decode}

-- In seconds.
pub record AuthConfig : Type 0 where
  pub access_token_ttl : ℕ
  pub refresh_token_ttl : ℕ

pub record AuthToken : Type 0 where
  pub access_token : List ℕ
  pub refresh_token : List ℕ
  pub expires_in : ℕ

pub data Query : Type 0 where
  select_user insert_user delete_refresh_token : List ℕ → Query
  insert_refresh_token : List ℕ → List ℕ → List ℕ → Query
  create_users create_refresh_tokens create_indexes : Query

-- What the callback gets.
pub data Login : Type 0 where
  token : AuthToken → Login
  internal_error unauthorized : Login

unfoldable pub verify_token : Libraries → ℕ → List ℕ → Decoded
verify_token l now text = decode l now text

unfoldable pub hex_digit : ℕ → ℕ
hex_digit n = if ltb n 10 then 48 + n else 87 + n

-- The random bytes, each in two digits.
unfoldable pub generate_refresh_token : List ℕ → List ℕ
generate_refresh_token [] = []
generate_refresh_token (b ∷ bs) =
    hex_digit (b / 16) ∷ hex_digit (b % 16) ∷ generate_refresh_token bs

unfoldable pub issued_claims : AuthConfig → ℕ → List ℕ → List ℕ → JwtClaims
issued_claims config now user_id device_id = record {
  sub = user_id;
  device_id = device_id;
  iat = now;
  exp = (now + config.access_token_ttl) % 2 ^ 64;
}

module _ (l : Libraries) (config : AuthConfig) (random : List ℕ) (now : ℕ) where
  unfoldable pub issue_tokens : List ℕ → List ℕ → AuthToken
  issue_tokens user_id device_id = record {
    access_token = encode l (issued_claims config now user_id device_id);
    refresh_token = generate_refresh_token random;
    expires_in = config.access_token_ttl;
  }

  -- The token is stored, and handed to the callback whatever the store answers.
  unfoldable pub store_token : List ℕ → AuthToken → List Query × Login
  store_token user_id t = (
    insert_refresh_token t.refresh_token user_id (decimal config.refresh_token_ttl) ∷ [],
    token t,
  )

  unfoldable pub new_user : List ℕ → Option (List ℕ) → List Query × Login
  new_user device_id none = ([], internal_error)
  new_user device_id (some user_id) = store_token user_id (issue_tokens user_id device_id)

  unfoldable pub login_by_device_id :
      List ℕ → Option (List ℕ) → Option (List ℕ) → List Query × Login
  login_by_device_id device_id (some user_id) inserted =
      let (queries, answer) = store_token user_id (issue_tokens user_id device_id) in
      (select_user device_id ∷ queries, answer)
  login_by_device_id device_id none inserted =
      let (queries, answer) = new_user device_id inserted in
      (select_user device_id ∷ insert_user device_id ∷ queries, answer)

  unfoldable pub refresh_token : List ℕ → Option (List ℕ) → List Query × Login
  refresh_token text none = (delete_refresh_token text ∷ [], unauthorized)
  refresh_token text (some user_id) =
      let (queries, answer) = store_token user_id (issue_tokens user_id []) in
      (delete_refresh_token text ∷ queries, answer)

-- The arguments: whether each query succeeds.
unfoldable pub init_schema : Bool → Bool → Bool → List Query × Bool
init_schema false second third = (create_users ∷ [], false)
init_schema true false third = (create_users ∷ create_refresh_tokens ∷ [], false)
init_schema true true third = (create_users ∷ create_refresh_tokens ∷ create_indexes ∷ [], third)

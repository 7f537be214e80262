-- ===== src/Auth/Crypto.antt =====
-- The libraries behind backend/app/auth/service.py, bcrypt and jose, as an interface, and the
-- service's functions over it.
use ai_badge.Prelude.{ℕ, ◌+◌, ◌*◌, ◌≤◌, ◌<◌, String, ◌≡◌, Bool, true, Option, none, some}

-- The payload of an access token; `sub` is the identifier under "sub", if there is one, which need
-- not name a user.
pub record Claims : Type 0 where
  pub sub : Option ℕ
  pub org_id : ℕ
  pub role : String
  pub iat : ℕ
  pub exp : ℕ

-- `hashpw` with the salt that it draws, `checkpw`, and encoding and decoding under the secret key
-- and HS256 at a time: decoding fails on a text that is no token, or on an expired one.
pub record Crypto : Type 0 where
  pub hashpw : String → ℕ → String
  pub checkpw : String → String → Bool
  pub encode : Claims → String
  pub decode : ℕ → String → Option Claims

-- What bcrypt and jose document.
pub record IsSound (c : Crypto) : Type 0 where
  pub checkpw-hashpw : (p : String) (salt : ℕ) → c.checkpw p (c.hashpw p salt) ≡ true
  pub decode-encode : (now : ℕ) (k : Claims) → now ≤ k.exp → c.decode now (c.encode k) ≡ some k
  pub expired : (now : ℕ) (k : Claims) → k.exp < now → c.decode now (c.encode k) ≡ none

-- settings.access_token_expire_minutes, in seconds
abbrev pub token_lifetime : ℕ
token_lifetime = 60 * 60

abbrev pub claims : ℕ → ℕ → String → ℕ → Claims
claims user_id org_id role now = record {
  sub = some user_id;
  org_id = org_id;
  role = role;
  iat = now;
  exp = now + token_lifetime;
}

unfoldable pub create_access_token : Crypto → ℕ → ℕ → String → ℕ → String
create_access_token c user_id org_id role now = c.encode (claims user_id org_id role now)

unfoldable pub decode_access_token : Crypto → ℕ → String → Option Claims
decode_access_token c now token = c.decode now token

unfoldable pub hash_password : Crypto → String → ℕ → String
hash_password c password salt = c.hashpw password salt

unfoldable pub verify_password : Crypto → String → String → Bool
verify_password c plain hashed = c.checkpw plain hashed

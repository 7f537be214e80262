-- ===== src/Auth/Router.antt =====
-- backend/app/auth/router.py and get_current_user of backend/app/dependencies.py.
use ai_badge.Prelude.{
  ◌==◌, nat_eq, string_eq, find, ℕ, suc, String, ◌||◌, Option, none, some, [], ◌∷◌, ◌++◌,
  if◌then◌else◌, ◌⊕◌, decimal, select, Bool, true, false,
}
use ai_badge.Model.{
  session_status_eq, job_status_eq, artifact_status_eq, opt_eq, key_eq, Organization, Action,
  integrity_error, ok, err, User, Device, pure, gets, or_raise, raise_if, http, uuid4,
  scalar_one_or_none, ◌>>=◌, ◌>>◌,
}
use ai_badge.Auth.Crypto.{
  create_access_token, decode_access_token, hash_password, verify_password, Crypto,
}
use ai_badge.Auth.Slug.{slugify}

pub record RegisterRequest : Type 0 where
  pub email : String
  pub password : String
  pub display_name : String
  pub org_name : String

pub record LoginRequest : Type 0 where
  pub email : String
  pub password : String

pub record TokenResponse : Type 0 where
  pub access_token : String
  pub token_type : String
  pub user_id : ℕ
  pub org_id : ℕ
  pub role : String

abbrev pub token_response : String → ℕ → ℕ → String → TokenResponse
token_response token user_id org_id role = record {
  access_token = token;
  token_type = "bearer";
  user_id = user_id;
  org_id = org_id;
  role = role;
}

abbrev pub is_some {ℓ} : {A : Type ℓ} → Option A → Bool
is_some none = false
is_some (some _) = true

-- A row joins a table with a unique column if the lookup found no rival.
abbrev pub insert_organization : Option Organization → Organization → Action Organization
insert_organization (some _) o w = (err integrity_error, w)
insert_organization none o w = (
  ok o,
  record w { db = record w.db { organizations = w.organizations ++ o ∷ [] }; fresh = suc w.fresh },
)

abbrev pub insert_user : Option User → User → Action User
insert_user (some _) u w = (err integrity_error, w)
insert_user none u w =
    (ok u, record w { db = record w.db { users = w.users ++ u ∷ [] }; fresh = suc w.fresh })

abbrev pub insert_device : Option Device → Device → Action Unit
insert_device (some _) d w = (err integrity_error, w)
insert_device none d w =
    (ok tt, record w { db = record w.db { devices = w.devices ++ d ∷ [] }; fresh = suc w.fresh })

-- `organizations.name` and `organizations.slug` are unique.
unfoldable pub add_organization : String → String → Action Organization
add_organization name slug w =
    insert_organization (find (λ p. p.name == name || p.slug == slug) w.organizations)
      (record { id = w.fresh; name = name; slug = slug; created_at = w.now }) w

-- `users.email` is unique.
unfoldable pub add_user : ℕ → String → String → String → Action User
add_user org_id email password_hash display_name w =
    insert_user (find (λ u. u.email == email) w.users)
      (record {
        id = w.fresh;
        org_id = org_id;
        email = email;
        password_hash = password_hash;
        display_name = display_name;
        role = "owner";
        created_at = w.now;
      })
      w

-- `devices.device_key` is unique.
unfoldable pub add_virtual_device : ℕ → Action Unit
add_virtual_device user_id w =
    let device_key = "virtual-" ⊕ decimal user_id in
    insert_device (find (λ d. d.device_key == device_key) w.devices)
      (record {
        id = w.fresh;
        user_id = user_id;
        name = "virtual_phone_mic";
        device_key = device_key;
        device_type = "virtual_phone_mic";
        status = "active";
        created_at = w.now;
      })
      w

-- `if existing_org.scalar_one_or_none() is not None: slug = f"{slug}-{uuid.uuid4().hex[:6]}"`
unfoldable pub unique_slug : String → Option Organization → Action String
unique_slug slug none = pure slug
unique_slug slug (some _) = do hex ← uuid4; pure (slug ⊕ "-" ⊕ decimal hex)

module _ (c : Crypto) (lower_strip : String → String) where
  -- bcrypt draws its salt as a fresh number.
  unfoldable pub register : RegisterRequest → Action TokenResponse
  unfolding add_organization add_user add_virtual_device unique_slug hash_password
      create_access_token
  register body = do
    users ← gets (λ w. select (λ u. u.email == body.email) w.users)
    existing ← scalar_one_or_none users
    raise_if (is_some existing) (http 409 "Email already registered")
    let slug = slugify lower_strip body.org_name
    orgs ← gets (λ w. select (λ o. o.slug == slug) w.organizations)
    existing_org ← scalar_one_or_none orgs
    slug' ← unique_slug slug existing_org
    org ← add_organization body.org_name slug'
    salt ← uuid4
    user ← add_user org.id body.email (hash_password c body.password salt) body.display_name
    add_virtual_device user.id
    now ← gets (λ w. w.now)
    pure (
        token_response (create_access_token c user.id org.id user.role now) user.id org.id
          user.role)

  -- `user is None or not verify_password(...)`
  abbrev pub check_user : String → Option User → Option User
  check_user password none = none
  check_user password (some u) = if verify_password c password u.password_hash then some u else none

  unfoldable pub login : LoginRequest → Action TokenResponse
  unfolding verify_password create_access_token
  login body = do
    users ← gets (λ w. select (λ u. u.email == body.email) w.users)
    found ← scalar_one_or_none users
    user ← or_raise (check_user body.password found) (http 401 "Invalid email or password")
    now ← gets (λ w. w.now)
    pure (
        token_response (create_access_token c user.id user.org_id user.role now) user.id user.org_id
          user.role)

  -- `get_current_user`
  unfoldable pub get_current_user : String → Action User
  unfolding decode_access_token
  get_current_user token = do
    now ← gets (λ w. w.now)
    payload ← or_raise (decode_access_token c now token) (http 401 "Invalid or expired token")
    user_id ← or_raise payload.sub (http 401 "Invalid token payload")
    found ← gets (λ w. find (λ u. u.id == user_id) w.users)
    or_raise found (http 401 "User not found")

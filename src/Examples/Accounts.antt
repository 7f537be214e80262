-- ===== src/Examples/Accounts.antt =====
-- Registration and login in small worlds.
use ai_badge.Prelude.{◌≡◌, refl, [], ◌∷◌}
use ai_badge.Model.{Organization, User, World, Error, ok, err}
use ai_badge.Auth.Crypto.{create_access_token}
use ai_badge.Auth.Router.{register, get_current_user, RegisterRequest}
use ai_badge.Auth.Accounts.{at_time, get_current_user-lifetime, register-same_name}
use ai_badge.System.{empty_world}
use ai_badge.Examples.Cipher.{open_crypto, open_crypto-IsSound}

abbrev ada : RegisterRequest
ada = record { email = "ada@acme"; password = "engine"; display_name = "Ada"; org_name = "acme" }

abbrev owner_of_acme : User
owner_of_acme = record {
  id = 2;
  org_id = 0;
  email = "ada@acme";
  password_hash = "engine";
  display_name = "Ada";
  role = "owner";
  created_at = 0;
}

abbrev acme : Organization
acme = record { id = 0; name = "acme"; slug = "acme"; created_at = 0 }

abbrev staffed : World
staffed = record empty_world {
  db = record empty_world.db { organizations = acme ∷ []; users = owner_of_acme ∷ [] };
}

get_current_user-lifetime_example :
    get_current_user open_crypto
      (λ s. s)
      (create_access_token open_crypto 2 0 "owner" 100)
      (at_time 3000 staffed)
    ≡ (ok owner_of_acme, at_time 3000 staffed)
get_current_user-lifetime_example =
    get_current_user-lifetime open_crypto (λ s. s) open_crypto-IsSound owner_of_acme 100 3000
      staffed refl

register-same_name_example :
    (e : Error) × ((register open_crypto (λ s. s) (record ada { email = "bob@acme" }) staffed).0
      ≡ err e)
register-same_name_example =
    register-same_name open_crypto (λ s. s) (record ada { email = "bob@acme" }) acme staffed refl

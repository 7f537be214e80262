-- ===== src/Auth/Accounts.antt =====
-- Registration, login and the authentication of requests: what backend/app/auth/router.py and
-- get_current_user of backend/app/dependencies.py promise to a user.
use ai_badge.Prelude.{
  ◌==◌, nat_eq, string_eq, find, ℕ, ◌+◌, String, ◌≡◌, ◌≢◌, Bool, ◌||◌, none, some, List, [], ◌∷◌,
  arith, Option-cases, refl, sym, subst, inl, inr, Option, ap, ◌∙◌, ◌⊕◌, decimal, suc, ◌++◌, leb,
  if◌then◌else◌, leb→le, Bool-cases,
}
use ai_badge.Model.{
  session_status_eq, job_status_eq, artifact_status_eq, opt_eq, key_eq, Organization, User, ◌>>=◌,
  World, Error, http, ok, err, store, Result, scalar_one_or_none,
}
use ai_badge.Model.Inversion.{bind-eq-ok, gets-eq-ok, raise_if-eq-ok}
use ai_badge.Auth.Crypto.{
  token_lifetime, claims, create_access_token, decode_access_token, Crypto, IsSound,
}
use ai_badge.Auth.Slug.{slugify}
use ai_badge.Auth.Router.{
  register, get_current_user, RegisterRequest, add_organization, unique_slug, TokenResponse,
  token_response,
}

abbrev pub at_time : ℕ → World → World
at_time t w = record w { now = t }

module _ (c : Crypto) (lower_strip : String → String) (sound : IsSound c) where
  -- Under sound cryptography, the token that was issued for a user of the table authenticates exactly
  -- that user at every time until its lifetime is over, and is refused with 401 at every time after.
  pub get_current_user-lifetime :
      (u : User) (issued t : ℕ) (w : World)
      → find (λ x. x.id == u.id) w.users ≡ some u
      → get_current_user c lower_strip
          (create_access_token c u.id u.org_id u.role issued)
          (at_time t w)
        ≡ (
          if leb t (issued + token_lifetime)
              then ok u
              else err (http 401 "Invalid or expired token"),
          at_time t w,
        )
  unfolding get_current_user decode_access_token create_access_token ◌>>=◌
  get_current_user-lifetime u issued t w h = elim (Bool-cases (leb t (issued + token_lifetime))) [
    | inl e ↦
        let d =
          sound.decode-encode t (claims u.id u.org_id u.role issued)
            (leb→le t (issued + token_lifetime) e) in
        ground (arith, d, h, e)
    | inr e ↦
        let d = sound.expired t (claims u.id u.org_id u.role issued) (ground arith) in
        ground (arith, d, e)
  ]

module _ (c : Crypto) (lower_strip : String → String) where
  hit_either :
      (p q : Organization → Bool) (xs : List Organization) (o : Organization)
      → find p xs ≡ some o
      → find (λ x. p x || q x) xs ≢ none
  hit_either p q [] o h = cc
  hit_either p q (x ∷ xs) o h = ground (arith, hit_either p q xs o)

  scalar-world :
      {A : Type 0} (rows : List A) (o : Option A) (w v : World)
      → scalar_one_or_none rows w ≡ (ok o, v)
      → v ≡ w
  unfolding scalar_one_or_none
  scalar-world [] o w v h = ground arith
  scalar-world (x ∷ []) o w v h = ground arith
  scalar-world (x ∷ y ∷ rest) o w v h = absurd (ground arith)

  unique_slug-world :
      (slug s : String) (o : Option Organization) (w v : World)
      → unique_slug slug o w ≡ (ok s, v)
      → v.db ≡ w.db
  unfolding unique_slug store
  unique_slug-world slug s none w v h = ground arith
  unique_slug-world slug s (some x) w v h = ground arith

  add_organization-free :
      (name slug : String) (o p : Organization) (w v : World)
      → find (λ p. p.name == name) w.organizations ≡ some o
      → add_organization name slug w ≢ (ok p, v)
  unfolding add_organization
  add_organization-free name slug o p w v h e =
      let hit = hit_either (λ p. p.name == name) (λ p. p.slug == slug) w.organizations o h in
      elim (Option-cases (find (λ p. p.name == name || p.slug == slug) w.organizations)) [
        | inl n ↦ hit n
        | inr (x, s) ↦ absurd (ground arith)
      ]

  registered-other_name :
      (body : RegisterRequest) (o : Organization) (r : TokenResponse) (w v : World)
      → find (λ p. p.name == body.org_name) w.organizations ≡ some o
      → register c lower_strip body w ≢ (ok r, v)
  unfolding register
  registered-other_name body o r w v h e =
      let (users, w1, e1, k1) = bind-eq-ok _ _ w v r e in
      let (a, w2, e2, k2) = bind-eq-ok _ _ w1 v r k1 in
      let (b, w3, e3, k3) = bind-eq-ok _ _ w2 v r k2 in
      let (orgs, w4, e4, k4) = bind-eq-ok _ _ w3 v r k3 in
      let (x, w5, e5, k5) = bind-eq-ok _ _ w4 v r k4 in
      let (s, w6, e6, k6) = bind-eq-ok _ _ w5 v r k5 in
      let (p, w7, e7, k7) = bind-eq-ok _ _ w6 v r k6 in
      let q1 = gets-eq-ok _ w w1 users e1 in
      let q2 = scalar-world users a w1 w2 e2 in
      let q3 = raise_if-eq-ok _ _ w2 w3 b e3 in
      let q4 = gets-eq-ok _ w3 w4 orgs e4 in
      let q5 = scalar-world orgs x w4 w5 e5 in
      let q6 = unique_slug-world _ s x w5 w6 e6 in
      let same : w6.db ≡ w.db = q6 ∙ ap (λ u. u.db) (q5 ∙ q4.1 ∙ q3.1 ∙ q2 ∙ q1.1) in
      add_organization-free body.org_name s o p w6 w7
        (subst (λ d. find (λ p. p.name == body.org_name) d.organizations ≡ some o) (sym same) h) e7

  -- Nobody can register with the name of an organization that exists, whatever the slug.
  pub register-same_name :
      (body : RegisterRequest) (o : Organization) (w : World)
      → find (λ p. p.name == body.org_name) w.organizations ≡ some o
      → (e : Error) × ((register c lower_strip body w).0 ≡ err e)
  register-same_name body o w h = split (register c lower_strip body w) refl
    where
      split :
          (x : Result TokenResponse × World)
          → register c lower_strip body w ≡ x
          → (e : Error) × ((register c lower_strip body w).0 ≡ err e)
      split (ok r, v) e = absurd (registered-other_name body o r w v h e)
      split (err x, v) e = (x, ground arith)

module _ (c : Crypto) (lower_strip : String → String) (sound : IsSound c) where
  abbrev owner : RegisterRequest → World → User
  owner body w = record {
    id = suc (suc w.fresh);
    org_id = w.fresh;
    email = body.email;
    password_hash = c.hashpw body.password (suc w.fresh);
    display_name = body.display_name;
    role = "owner";
    created_at = w.now;
  }

  abbrev opening_answer : World → TokenResponse
  opening_answer w =
      token_response (c.encode (claims (suc (suc w.fresh)) w.fresh "owner" w.now))
        (suc (suc w.fresh)) w.fresh "owner"

  abbrev registered_world : RegisterRequest → World → World
  registered_world body w = record w {
    db = record w.db {
      organizations =
          w.organizations
          ++ record {
            id = w.fresh;
            name = body.org_name;
            slug = slugify lower_strip body.org_name;
            created_at = w.now;
          }
            ∷ [];
      users = w.users ++ owner body w ∷ [];
      devices =
          w.devices
          ++ record {
            id = suc (suc (suc w.fresh));
            user_id = suc (suc w.fresh);
            name = "virtual_phone_mic";
            device_key = "virtual-" ⊕ decimal (suc (suc w.fresh));
            device_type = "virtual_phone_mic";
            status = "active";
            created_at = w.now;
          }
            ∷ [];
    };
    fresh = suc (suc (suc (suc w.fresh)));
  }

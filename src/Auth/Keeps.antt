-- ===== src/Auth/Keeps.antt =====
-- The invariant of the database through registration, login and authentication, backend/app/auth.
use ai_badge.Prelude.{All, Distinct, ℕ, suc, ◌≤◌, String, ◌≡◌, refl, sym, subst, Option, none, some}
use ai_badge.Model.{Organization, User, Device, Db, World, IsDb-suc, IsTable, IsValid, Job}
use ai_badge.Model.Ledger.{Extends-append, Appends-users, Recorded, Recorded-grow, Ledger}
use ai_badge.Model.Keeps.{Keeps, keeps_rules}
use ai_badge.Auth.Crypto.{Crypto}
use ai_badge.Auth.Router.{
  insert_organization, insert_user, insert_device, add_organization, add_user, add_virtual_device,
  unique_slug, register, login, get_current_user, RegisterRequest, LoginRequest,
}
use ai_badge.Model.Settled.{Settled, Scope}

-- The tables that the invariant speaks of are as they were, one identifier later.
grown :
    (w : World) (d : Db)
    → d.sessions ≡ w.sessions
    → d.jobs ≡ w.jobs
    → d.artifacts ≡ w.artifacts
    → d.deletion_jobs ≡ w.deletion_jobs
    → IsValid w
    → IsValid (record w { db = d; fresh = suc w.fresh })
grown w d es ej ea ed h =
    let o = IsDb-suc w.fresh w.db h.open_db in
    record {
      open_db = record {
        sessions = subst (IsTable (λ s. s.id) (suc w.fresh)) (sym es) o.sessions;
        jobs = subst (IsTable (λ j. j.id) (suc w.fresh)) (sym ej) o.jobs;
        artifacts = subst (IsTable (λ a. a.id) (suc w.fresh)) (sym ea) o.artifacts;
        deletion_jobs = subst (IsTable (λ j. j.id) (suc w.fresh)) (sym ed) o.deletion_jobs;
        keys = subst (Distinct (λ j. j.idempotency_key)) (sym ej) o.keys;
        retries = subst (All (λ j. j.retry_count ≤ j.max_retries)) (sym ej) o.retries;
      };
      saved_db = IsDb-suc w.fresh w.saved h.saved_db;
    }

inserted_organization :
    (found : Option Organization) (o : Organization) (w : World)
    → IsValid w
    → IsValid (insert_organization found o w).1
inserted_organization (some _) o w h = h
inserted_organization none o w h = grown w _ refl refl refl refl h

inserted_user :
    (found : Option User) (u : User) (w : World) → IsValid w → IsValid (insert_user found u w).1
inserted_user (some _) u w h = h
inserted_user none u w h = grown w _ refl refl refl refl h

inserted_device :
    (found : Option Device) (d : Device) (w : World)
    → IsValid w
    → IsValid (insert_device found d w).1
inserted_device (some _) d w h = h
inserted_device none d w h = grown w _ refl refl refl refl h

insert_organization-Recorded :
    (found : Option Organization) (o : Organization) (l : Ledger) (w : World)
    → Recorded l w
    → Recorded l (insert_organization found o w).1
insert_organization-Recorded (some _) o l w h = h
insert_organization-Recorded none o l w h = h

insert_user-Recorded :
    (found : Option User) (u : User) (l : Ledger) (w : World)
    → Recorded l w
    → Recorded l (insert_user found u w).1
insert_user-Recorded (some _) u l w h = h
insert_user-Recorded none u l w h =
    Recorded-grow l _ _ h _ (Appends-users w.db _ (Extends-append w.users u))

insert_device-Recorded :
    (found : Option Device) (d : Device) (l : Ledger) (w : World)
    → Recorded l w
    → Recorded l (insert_device found d w).1
insert_device-Recorded (some _) d l w h = h
insert_device-Recorded none d l w h = h

insert_organization-Settled :
    (found : Option Organization) (o : Organization) (k : ℕ) (row : Job) (w : World)
    → Settled k row w
    → Settled k row (insert_organization found o w).1
insert_organization-Settled (some _) o k row w h = h
insert_organization-Settled none o k row w h = h

insert_user-Settled :
    (found : Option User) (u : User) (k : ℕ) (row : Job) (w : World)
    → Settled k row w
    → Settled k row (insert_user found u w).1
insert_user-Settled (some _) u k row w h = h
insert_user-Settled none u k row w h = h

insert_device-Settled :
    (found : Option Device) (d : Device) (k : ℕ) (row : Job) (w : World)
    → Settled k row w
    → Settled k row (insert_device found d w).1
insert_device-Settled (some _) d k row w h = h
insert_device-Settled none d k row w h = h

Keeps-add_organization : {own : Scope} (name slug : String) → Keeps own (add_organization name slug)
unfolding add_organization
Keeps-add_organization name slug = record {
  at = λ w h. inserted_organization _ _ w h;
  records = λ l w h. insert_organization-Recorded _ _ l w h;
  spares = λ k row w out h. insert_organization-Settled _ _ k row w h;
}

Keeps-add_user :
    {own : Scope} (org : ℕ) (email hash name : String) → Keeps own (add_user org email hash name)
unfolding add_user
Keeps-add_user org email hash name = record {
  at = λ w h. inserted_user _ _ w h;
  records = λ l w h. insert_user-Recorded _ _ l w h;
  spares = λ k row w out h. insert_user-Settled _ _ k row w h;
}

Keeps-add_virtual_device : {own : Scope} (uid : ℕ) → Keeps own (add_virtual_device uid)
unfolding add_virtual_device
Keeps-add_virtual_device uid = record {
  at = λ w h. inserted_device _ _ w h;
  records = λ l w h. insert_device-Recorded _ _ l w h;
  spares = λ k row w out h. insert_device-Settled _ _ k row w h;
}

Keeps-unique_slug :
    {own : Scope} (slug : String) (o : Option Organization) → Keeps own (unique_slug slug o)
unfolding unique_slug
Keeps-unique_slug slug none = search keeps_rules
Keeps-unique_slug slug (some _) = search keeps_rules

module _ (c : Crypto) (lower_strip : String → String) where
  pub Keeps-register :
      {own : Scope} (body : RegisterRequest) → Keeps own (register c lower_strip body)
  unfolding register
  Keeps-register body =
      search
        (
          keeps_rules, Keeps-add_organization, Keeps-add_user, Keeps-add_virtual_device,
          Keeps-unique_slug,
        )
        depth 14

  pub Keeps-login : {own : Scope} (body : LoginRequest) → Keeps own (login c lower_strip body)
  unfolding login
  Keeps-login body = search keeps_rules depth 9

  pub Keeps-get_current_user :
      {own : Scope} (token : String) → Keeps own (get_current_user c lower_strip token)
  unfolding get_current_user
  Keeps-get_current_user token = search keeps_rules depth 9

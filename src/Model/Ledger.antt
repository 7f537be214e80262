-- ===== src/Model/Ledger.antt =====
-- What the database records for good, whoever looks at it later: an abstract view of the tables
-- that forgets what may change, and how one view may follow another.
use mathlib.Core.List.{append-nil, append_assoc, map-append}
use ai_badge.Prelude.{
  Bool-cases, update_where, ℕ, String, ◌≡◌, refl, sym, ap, ◌∙◌, inl, inr, Bool, List, [], ◌∷◌, ◌++◌,
  map,
}
use ai_badge.Model.Rows.{User, Session, Job, WorkflowEvent, AuditLog, DeletionJob, IdempotencyKey}
use ai_badge.Model.Effects.{Db, World}

-- A session's identity and owner, a job's identity and key, and what a deletion job is to delete.
abbrev pub owned : Session → ℕ × ℕ
owned s = (s.id, s.user_id)

abbrev pub keyed : Job → ℕ × IdempotencyKey
keyed j = (j.id, j.idempotency_key)

abbrev pub erasing : DeletionJob → ℕ × String
erasing j = (j.id, j.resource_type)

pub record Ledger : Type 0 where
  pub audit : List AuditLog
  pub events : List WorkflowEvent
  pub users : List User
  pub sessions : List (ℕ × ℕ)
  pub jobs : List (ℕ × IdempotencyKey)
  pub erasures : List (ℕ × String)

abbrev pub ledger : Db → Ledger
ledger d = record {
  audit = d.audit_logs;
  events = d.workflow_events;
  users = d.users;
  sessions = map owned d.sessions;
  jobs = map keyed d.jobs;
  erasures = map erasing d.deletion_jobs;
}

-- The second list is the first with entries after its last.
abbrev pub Extends {ℓ} : {A : Type ℓ} → List A → List A → Type ℓ
Extends {A = A} xs ys = (more : List A) × (ys ≡ xs ++ more)

module _ {ℓ} {A : Type ℓ} where
  pub Extends-refl : (xs : List A) → Extends xs xs
  Extends-refl xs = ([], sym (append-nil xs))

  Extends-trans : (xs ys zs : List A) → Extends xs ys → Extends ys zs → Extends xs zs
  Extends-trans xs ys zs (m, e) (n, f) = (m ++ n, f ∙ (ap (λ l. l ++ n) e ∙ append_assoc xs m n))

  pub Extends-append : (xs : List A) (x : A) → Extends xs (xs ++ x ∷ [])
  Extends-append xs x = (x ∷ [], refl)

module _ {ℓ κ} {A : Type ℓ} {B : Type κ} (view : A → B) where
  pub map-update_where :
      (p : A → Bool) (f : A → A)
      → ((x : A) → view (f x) ≡ view x)
      → (xs : List A) → map view (update_where p f xs) ≡ map view xs
  map-update_where p f keep [] = refl
  map-update_where p f keep (x ∷ xs) = elim (Bool-cases (p x)) [
    | inl e ↦ rw (e, map-update_where p f keep xs, keep x) refl
    | inr e ↦ rw (e, map-update_where p f keep xs) refl
  ]

  pub Extends-update_where :
      (p : A → Bool) (f : A → A)
      → ((x : A) → view (f x) ≡ view x)
      → (xs : List A) → Extends (map view xs) (map view (update_where p f xs))
  Extends-update_where p f keep xs =
      ([], map-update_where p f keep xs ∙ sym (append-nil (map view xs)))

  pub Extends-map_append : (xs : List A) (x : A) → Extends (map view xs) (map view (xs ++ x ∷ []))
  Extends-map_append xs x = (view x ∷ [], map-append view xs (x ∷ []))

-- Entries were appended, and none was changed or taken away.
pub record Appends (l m : Ledger) : Type 0 where
  pub audit : Extends l.audit m.audit
  pub events : Extends l.events m.events
  pub users : Extends l.users m.users
  pub sessions : Extends l.sessions m.sessions
  pub jobs : Extends l.jobs m.jobs
  pub erasures : Extends l.erasures m.erasures

pub Appends-refl : (l : Ledger) → Appends l l
Appends-refl l = record {
  audit = Extends-refl l.audit;
  events = Extends-refl l.events;
  users = Extends-refl l.users;
  sessions = Extends-refl l.sessions;
  jobs = Extends-refl l.jobs;
  erasures = Extends-refl l.erasures;
}

pub Appends-trans : (k l m : Ledger) → Appends k l → Appends l m → Appends k m
Appends-trans k l m a b = record {
  audit = Extends-trans k.audit l.audit m.audit a.audit b.audit;
  events = Extends-trans k.events l.events m.events a.events b.events;
  users = Extends-trans k.users l.users m.users a.users b.users;
  sessions = Extends-trans k.sessions l.sessions m.sessions a.sessions b.sessions;
  jobs = Extends-trans k.jobs l.jobs m.jobs a.jobs b.jobs;
  erasures = Extends-trans k.erasures l.erasures m.erasures a.erasures b.erasures;
}

-- One table changes.
module _ (d : Db) where
  pub Appends-audit_logs :
      (rows : List AuditLog)
      → Extends d.audit_logs rows
      → Appends (ledger d) (ledger (record d { audit_logs = rows }))
  Appends-audit_logs rows grown = record {
    audit = grown;
    events = Extends-refl d.workflow_events;
    users = Extends-refl d.users;
    sessions = Extends-refl (map owned d.sessions);
    jobs = Extends-refl (map keyed d.jobs);
    erasures = Extends-refl (map erasing d.deletion_jobs);
  }

  pub Appends-workflow_events :
      (rows : List WorkflowEvent)
      → Extends d.workflow_events rows
      → Appends (ledger d) (ledger (record d { workflow_events = rows }))
  Appends-workflow_events rows grown = record {
    audit = Extends-refl d.audit_logs;
    events = grown;
    users = Extends-refl d.users;
    sessions = Extends-refl (map owned d.sessions);
    jobs = Extends-refl (map keyed d.jobs);
    erasures = Extends-refl (map erasing d.deletion_jobs);
  }

  pub Appends-users :
      (rows : List User)
      → Extends d.users rows
      → Appends (ledger d) (ledger (record d { users = rows }))
  Appends-users rows grown = record {
    audit = Extends-refl d.audit_logs;
    events = Extends-refl d.workflow_events;
    users = grown;
    sessions = Extends-refl (map owned d.sessions);
    jobs = Extends-refl (map keyed d.jobs);
    erasures = Extends-refl (map erasing d.deletion_jobs);
  }

  pub Appends-sessions :
      (rows : List Session)
      → Extends (map owned d.sessions) (map owned rows)
      → Appends (ledger d) (ledger (record d { sessions = rows }))
  Appends-sessions rows grown = record {
    audit = Extends-refl d.audit_logs;
    events = Extends-refl d.workflow_events;
    users = Extends-refl d.users;
    sessions = grown;
    jobs = Extends-refl (map keyed d.jobs);
    erasures = Extends-refl (map erasing d.deletion_jobs);
  }

  pub Appends-jobs :
      (rows : List Job)
      → Extends (map keyed d.jobs) (map keyed rows)
      → Appends (ledger d) (ledger (record d { jobs = rows }))
  Appends-jobs rows grown = record {
    audit = Extends-refl d.audit_logs;
    events = Extends-refl d.workflow_events;
    users = Extends-refl d.users;
    sessions = Extends-refl (map owned d.sessions);
    jobs = grown;
    erasures = Extends-refl (map erasing d.deletion_jobs);
  }

  pub Appends-deletion_jobs :
      (rows : List DeletionJob)
      → Extends (map erasing d.deletion_jobs) (map erasing rows)
      → Appends (ledger d) (ledger (record d { deletion_jobs = rows }))
  Appends-deletion_jobs rows grown = record {
    audit = Extends-refl d.audit_logs;
    events = Extends-refl d.workflow_events;
    users = Extends-refl d.users;
    sessions = Extends-refl (map owned d.sessions);
    jobs = Extends-refl (map keyed d.jobs);
    erasures = grown;
  }

-- What is recorded for good: the committed state has all of a ledger, and the open transaction all
-- that is committed.
abbrev pub Recorded : Ledger → World → Type 0
Recorded l w = Appends l (ledger w.saved) × Appends (ledger w.saved) (ledger w.db)

-- The open transaction grows, is committed, or both states are as they were for the ledger.
module _ (l saved now : Ledger) (h : Appends l saved × Appends saved now) where
  pub Recorded-grow : (next : Ledger) → Appends now next → Appends l saved × Appends saved next
  Recorded-grow next grown = (h.0, Appends-trans saved now next h.1 grown)

  pub Recorded-commit : Appends l now × Appends now now
  Recorded-commit = (Appends-trans l saved now h.0 h.1, Appends-refl now)

  pub Recorded-same :
      (saved' now' : Ledger) → saved' ≡ saved → now' ≡ now → Appends l saved' × Appends saved' now'
  Recorded-same saved' now' e f = rw (e, f) h

-- ===== src/Model/Pending.antt =====
-- Actions that leave the committed state alone, whether they return or raise: all that a request does
-- before get_db commits it.
use ai_badge.Prelude.{
  if◌then◌else◌, ℕ, ◌≡◌, refl, ◌∙◌, Bool, true, false, Option, none, some, List, [], ◌∷◌, arith,
}
use ai_badge.Model.Rows.{Session, Job, WorkflowEvent, Artifact, AuditLog, DeletionJob}
use ai_badge.Model.Effects.{
  Action, pure, raise, gets, or_raise, modify, raise_if, continue, ◌>>=◌, rollback, settle, request,
  Db, World, Error, Result, ok, err,
}
use ai_badge.Model.Store.{
  uuid4, scalar_one_or_none, write_session, write_artifact, refresh_session, refresh_artifact,
  add_session, add_event, add_audit_log, add_deletion_job, insert_job, add_job, store,
}

pub record Pending {A : Type 0} (m : Action A) : Type 0 where
  pub saved : (w : World) → (m w).1.saved ≡ w.saved

module _ {A : Type 0} where
  pub Pending-pure : (a : A) → Pending (pure a)
  unfolding pure
  Pending-pure a = record { saved = λ w. refl }

  pub Pending-raise : (e : Error) → Pending (raise {A = A} e)
  unfolding raise
  Pending-raise e = record { saved = λ w. refl }

  pub Pending-gets : (f : World → A) → Pending (gets f)
  unfolding gets
  Pending-gets f = record { saved = λ w. refl }

  pub Pending-or_raise : (o : Option A) (e : Error) → Pending (or_raise o e)
  unfolding or_raise
  Pending-or_raise none e = record { saved = λ w. refl }
  Pending-or_raise (some a) e = record { saved = λ w. refl }

  pub Pending-if :
      (b : Bool) (m n : Action A) → Pending m → Pending n → Pending (if b then m else n)
  Pending-if true m n pm pn = pm
  Pending-if false m n pm pn = pn

  pub Pending-scalar : (rows : List A) → Pending (scalar_one_or_none rows)
  unfolding scalar_one_or_none
  Pending-scalar [] = record { saved = λ w. refl }
  Pending-scalar (x ∷ []) = record { saved = λ w. refl }
  Pending-scalar (x ∷ y ∷ rest) = record { saved = λ w. refl }

  -- A request that raises is gone: the committed state is what it was, and so is the open one.
  pub request-undone :
      (m : Action A) (w v : World) (e : Error)
      → Pending m
      → request m w ≡ (err e, v)
      → (v.saved ≡ w.saved) × (v.db ≡ w.saved)
  unfolding request
  request-undone m w v e p h = undone (m w) (p.saved w) h
    where
      undone :
          (r : Result A × World)
          → r.1.saved ≡ w.saved
          → settle r ≡ (err e, v)
          → (v.saved ≡ w.saved) × (v.db ≡ w.saved)
      undone (ok a, u) q k = absurd (ground arith)
      undone (err x, u) q k = let same : v ≡ rollback u = ground arith in rw same (q, q)

module _ {A B : Type 0} where
  Pending-continue :
      (r : Result A) (f : A → Action B) (w : World)
      → ((a : A) → Pending (f a))
      → (continue r f w).1.saved ≡ w.saved
  Pending-continue (ok a) f w p = (p a).saved w
  Pending-continue (err e) f w p = refl

  pub Pending-bind :
      (m : Action A) (f : A → Action B) → Pending m → ((a : A) → Pending (f a)) → Pending (m >>= f)
  unfolding ◌>>=◌
  Pending-bind m f pm pf = record {
    saved = λ w. Pending-continue (m w).0 f (m w).1 pf ∙ pm.saved w;
  }

pub Pending-raise_if : (b : Bool) (e : Error) → Pending (raise_if b e)
unfolding raise_if
Pending-raise_if b e = record { saved = λ w. refl }

pub Pending-modify : (f : Db → Db) → Pending (modify f)
unfolding modify
Pending-modify f = record { saved = λ w. refl }

pub Pending-uuid4 : Pending uuid4
unfolding store
Pending-uuid4 = record { saved = λ w. refl }

pub Pending-write_session : (sid : ℕ) (f : Session → Session) → Pending (write_session sid f)
unfolding store
Pending-write_session sid f = record { saved = λ w. refl }

pub Pending-write_artifact : (aid : ℕ) (f : Artifact → Artifact) → Pending (write_artifact aid f)
unfolding store
Pending-write_artifact aid f = record { saved = λ w. refl }

pub Pending-add_session : (row : ℕ → ℕ → Session) → Pending (add_session row)
unfolding store
Pending-add_session row = record { saved = λ w. refl }

pub Pending-add_event : (row : ℕ → ℕ → WorkflowEvent) → Pending (add_event row)
unfolding store
Pending-add_event row = record { saved = λ w. refl }

pub Pending-add_audit_log : (row : ℕ → ℕ → AuditLog) → Pending (add_audit_log row)
unfolding store
Pending-add_audit_log row = record { saved = λ w. refl }

pub Pending-add_deletion_job : (row : ℕ → ℕ → DeletionJob) → Pending (add_deletion_job row)
unfolding store
Pending-add_deletion_job row = record { saved = λ w. refl }

inserted : (o : Option Job) (j : Job) (w : World) → (insert_job o j w).1.saved ≡ w.saved
inserted none j w = refl
inserted (some k) j w = refl

pub Pending-add_job : (row : ℕ → ℕ → Job) → Pending (add_job row)
unfolding store
Pending-add_job row = record { saved = λ w. inserted _ (row w.fresh w.now) w }

pub ruleset base_rules = (
  Pending-pure, Pending-raise, Pending-gets, Pending-or_raise, Pending-if, Pending-scalar,
  Pending-bind, Pending-raise_if,
)

pub Pending-refresh_session : (sid : ℕ) → Pending (refresh_session sid)
unfolding refresh_session
Pending-refresh_session sid = search base_rules

pub Pending-refresh_artifact : (aid : ℕ) → Pending (refresh_artifact aid)
unfolding refresh_artifact
Pending-refresh_artifact aid = search base_rules

pub ruleset pending_rules = (
  base_rules, Pending-modify, Pending-uuid4, Pending-write_session, Pending-write_artifact,
  Pending-add_session, Pending-add_event, Pending-add_audit_log, Pending-add_deletion_job,
  Pending-add_job, Pending-refresh_session, Pending-refresh_artifact,
)

-- ===== src/Model/Keeps/Actions.antt =====
-- Actions that keep the database valid, take nothing from its ledger and write to no final job but
-- the one they may write to, whether they return or raise: a rule for each way to build an action.
use ai_badge.Prelude.{
  arith, nat_eq, ◌≡◌, if◌then◌else◌, ℕ, Bool, true, false, Option, none, some, List, [], ◌∷◌,
}
use ai_badge.Model.Effects.{
  Action, pure, raise, gets, or_raise, modify, raise_if, continue, ◌>>=◌, commit, settle, request,
  Db, World, Error, Result, ok, err,
}
use ai_badge.Model.Store.{uuid4, scalar_one_or_none}
use ai_badge.Model.Ledger.{
  ledger, Appends-refl, Recorded, Recorded-grow, Recorded-commit, Ledger, Appends,
}
use ai_badge.Model.Validity.{IsDb-suc, IsDb, IsValid}
use ai_badge.Model.Rows.{Job}
use ai_badge.Model.Settled.{is_outside, is_final, job_row, Settled, Scope, anything}

pub record Keeps {A : Type 0} (own : Scope) (m : Action A) : Type 0 where
  pub at : (w : World) → IsValid w → IsValid (m w).1
  pub records : (l : Ledger) (w : World) → Recorded l w → Recorded l (m w).1
  pub spares :
      (k : ℕ) (row : Job) (w : World)
      → is_outside own k ≡ true
      → Settled k row w
      → Settled k row (m w).1

module _ {A : Type 0} {own : Scope} where
  pub Keeps-pure : (a : A) → Keeps own (pure a)
  unfolding pure
  Keeps-pure a = record { at = λ w h. h; records = λ l w h. h; spares = λ k row w out h. h }

  pub Keeps-raise : (e : Error) → Keeps own (raise {A = A} e)
  unfolding raise
  Keeps-raise e = record { at = λ w h. h; records = λ l w h. h; spares = λ k row w out h. h }

  pub Keeps-gets : (f : World → A) → Keeps own (gets f)
  unfolding gets
  Keeps-gets f = record { at = λ w h. h; records = λ l w h. h; spares = λ k row w out h. h }

  pub Keeps-or_raise : (o : Option A) (e : Error) → Keeps own (or_raise o e)
  unfolding or_raise
  Keeps-or_raise none e = record {
    at = λ w h. h;
    records = λ l w h. h;
    spares = λ k row w out h. h;
  }
  Keeps-or_raise (some a) e = record {
    at = λ w h. h;
    records = λ l w h. h;
    spares = λ k row w out h. h;
  }

  pub Keeps-if :
      (b : Bool) (m n : Action A) → Keeps own m → Keeps own n → Keeps own (if b then m else n)
  Keeps-if true m n km kn = km
  Keeps-if false m n km kn = kn

  pub Keeps-scalar : (rows : List A) → Keeps own (scalar_one_or_none rows)
  unfolding scalar_one_or_none
  Keeps-scalar [] = record { at = λ w h. h; records = λ l w h. h; spares = λ k row w out h. h }
  Keeps-scalar (x ∷ []) = record {
    at = λ w h. h;
    records = λ l w h. h;
    spares = λ k row w out h. h;
  }
  Keeps-scalar (x ∷ y ∷ rest) = record {
    at = λ w h. h;
    records = λ l w h. h;
    spares = λ k row w out h. h;
  }

  -- The transaction of a request: committed as it stands, or rolled back to what was valid.
  pub Keeps-request : (m : Action A) → Keeps own m → Keeps own (request m)
  unfolding request
  Keeps-request m k = record {
    at = λ w h. settled (m w) (k.at w h);
    records = λ l w h. settled_ledger l (m w) (k.records l w h);
    spares = λ i row w out h. settled_row i row (m w) (k.spares i row w out h);
  }
    where
      settled_ledger :
          (l : Ledger) (r : Result A × World) → Recorded l r.1 → Recorded l (settle r).1
      settled_ledger l (ok a, w) h = Recorded-commit l (ledger w.saved) (ledger w.db) h
      settled_ledger l (err e, w) h = (h.0, Appends-refl (ledger w.saved))

      settled_row :
          (k : ℕ) (row : Job) (r : Result A × World)
          → Settled k row r.1
          → Settled k row (settle r).1
      settled_row k row (ok a, w) h = (h.0, h.1, h.1)
      settled_row k row (err e, w) h = (h.0, h.2, h.2)

      settled : (r : Result A × World) → IsValid r.1 → IsValid (settle r).1
      settled (ok a, w) h = record { open_db = h.open_db; saved_db = h.open_db }
      settled (err e, w) h = record { open_db = h.saved_db; saved_db = h.saved_db }

module _ {A B : Type 0} {own : Scope} where
  Keeps-continue :
      (r : Result A) (f : A → Action B) (w : World)
      → ((a : A) → Keeps own (f a))
      → IsValid w
      → IsValid (continue r f w).1
  Keeps-continue (ok a) f w k h = (k a).at w h
  Keeps-continue (err e) f w k h = h

  records-continue :
      (r : Result A) (f : A → Action B) (l : Ledger) (w : World)
      → ((a : A) → Keeps own (f a))
      → Recorded l w
      → Recorded l (continue r f w).1
  records-continue (ok a) f l w k h = (k a).records l w h
  records-continue (err e) f l w k h = h

  pub spares-continue :
      (r : Result A) (f : A → Action B) (k : ℕ) (row : Job) (w : World)
      → is_outside own k ≡ true
      → ((a : A) → Keeps own (f a))
      → Settled k row w
      → Settled k row (continue r f w).1
  spares-continue (ok a) f k row w out keep h = (keep a).spares k row w out h
  spares-continue (err e) f k row w out keep h = h

  pub Keeps-bind :
      (m : Action A) (f : A → Action B)
      → Keeps own m
      → ((a : A) → Keeps own (f a))
      → Keeps own (m >>= f)
  unfolding ◌>>=◌
  Keeps-bind m f km kf = record {
    at = λ w h. Keeps-continue (m w).0 f (m w).1 kf (km.at w h);
    records = λ l w h. records-continue (m w).0 f l (m w).1 kf (km.records l w h);
    spares =
        λ k row w out h. spares-continue (m w).0 f k row (m w).1 out kf (km.spares k row w out h);
  }

pub Keeps-raise_if : {own : Scope} → (b : Bool) (e : Error) → Keeps own (raise_if b e)
unfolding raise_if
Keeps-raise_if b e = record { at = λ w h. h; records = λ l w h. h; spares = λ k row w out h. h }

pub Keeps-uuid4 : {own : Scope} → Keeps own uuid4
unfolding uuid4
Keeps-uuid4 = record {
  at = λ w h. record {
    open_db = IsDb-suc w.fresh w.db h.open_db;
    saved_db = IsDb-suc w.fresh w.saved h.saved_db;
  };
  records = λ l w h. h;
  spares = λ k row w out h. h;
}

pub Keeps-commit : {own : Scope} → Keeps own commit
unfolding commit
Keeps-commit = record {
  at = λ w h. record { open_db = h.open_db; saved_db = h.open_db };
  records = λ l w h. Recorded-commit l (ledger w.saved) (ledger w.db) h;
  spares = λ k row w out h. (h.0, h.1, h.1);
}

-- An action that changes the open transaction alone, and keeps it valid.
pub Keeps-modify :
    {own : Scope}
    → (f : Db → Db) → ((bound : ℕ) (d : Db) → IsDb bound d → IsDb bound (f d))
    → ((d : Db) → Appends (ledger d) (ledger (f d)))
    → ((k : ℕ) (row : Job) (d : Db)
        → is_outside own k ≡ true
        → is_final row ≡ true
        → job_row k d ≡ some row
        → job_row k (f d) ≡ some row)
    → Keeps own (modify f)
unfolding modify
Keeps-modify f k grows apart = record {
  at = λ w h. record { open_db = k w.fresh w.db h.open_db; saved_db = h.saved_db };
  records =
      λ l w h. Recorded-grow l (ledger w.saved) (ledger w.db) h (ledger (f w.db)) (grows w.db);
  spares = λ i row w out h. (h.0, apart i row w.db out h.0 h.1, h.2);
}

-- What an action may write, a wider scope may.
pub Keeps-widen : {A : Type 0} {own : Scope} (m : Action A) → Keeps own m → Keeps anything m
Keeps-widen m k = record {
  at = k.at;
  records = k.records;
  spares = λ i row w out h. absurd (ground arith);
}

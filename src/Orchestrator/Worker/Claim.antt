-- ===== src/Orchestrator/Worker/Claim.antt =====
-- _claim_job of backend/app/orchestrator/worker.py: which job a worker takes.
use ai_badge.Prelude.{
  Bool-cases, select, All, order_by, length-order_by, All-order_by, order_by-first, IsWeakOrder,
  All-select, Distinct-find, ℕ, ◌≡◌, refl, subst, inl, inr, Bool, true, false, ◌&&◌, Option, none,
  some, List, [], ◌∷◌, arith,
}
use ai_badge.Model.{Job, ◌>>=◌, World, ok, find_job, IsValid}
use ai_badge.Orchestrator.Worker.{is_claimable, more_urgent, first, claim_job}

urgency : IsWeakOrder more_urgent
urgency = record { asym = λ a b h. ground arith; trans = λ a b c h k. ground arith }

-- What a worker must choose: a job of the table that it may claim, and none that it may claim is
-- more urgent; nothing only where it may claim nothing.
abbrev pub Chosen : World → (ℕ → Bool) → Option Job → Type 0
Chosen w locked none = All (λ j. is_claimable w.now locked j ≡ false) w.jobs
Chosen w locked (some j) =
    (find_job j.id w ≡ some j)
    × (is_claimable w.now locked j ≡ true)
    × All (λ k. (is_claimable w.now locked k && more_urgent k j) ≡ false) w.jobs

none_claimable : (p : Job → Bool) (xs : List Job) → select p xs ≡ [] → All (λ j. p j ≡ false) xs
none_claimable p [] h = tt
none_claimable p (x ∷ xs) h =
    let e : p x ≡ false = ground arith in (e, none_claimable p xs (ground arith))

none_ahead :
    (p q : Job → Bool) (xs : List Job)
    → All (λ j. q j ≡ false) (select p xs)
    → All (λ j. (p j && q j) ≡ false) xs
none_ahead p q [] h = tt
none_ahead p q (x ∷ xs) h = elim (Bool-cases (p x)) [
  | inl e ↦
      let h' : (q x ≡ false) × All (λ j. q j ≡ false) (select p xs) = rw e at h in
      (ground arith, none_ahead p q xs h'.1)
  | inr e ↦ (rw e, none_ahead p q xs (rw e at h))
]

All-selected :
    {A : Type 0} (P : A → Type 0) (p : A → Bool) (xs : List A) → All P xs → All P (select p xs)
All-selected P p [] h = tt
All-selected P p (x ∷ xs) h = elim (Bool-cases (p x)) [
  | inl e ↦ rw e (h.0, All-selected P p xs h.1)
  | inr e ↦ rw e (All-selected P p xs h.1)
]

order_by-empty : (xs : List Job) → order_by more_urgent xs ≡ [] → xs ≡ []
order_by-empty [] h = refl
order_by-empty (x ∷ xs) h = absurd (let n = length-order_by more_urgent (x ∷ xs) in ground arith)

chosen :
    (w : World) (locked : ℕ → Bool) (rows : List Job)
    → IsValid w
    → order_by more_urgent (select (is_claimable w.now locked) w.jobs) ≡ rows
    → Chosen w locked (first rows)
chosen w locked [] v h = none_claimable (is_claimable w.now locked) w.jobs (order_by-empty _ h)
chosen w locked (j ∷ rest) v h =
    let p = is_claimable w.now locked in
    let found = λ (k : Job). find_job k.id w ≡ some k in
    let here =
      All-order_by more_urgent found (select p w.jobs)
        (All-selected found p w.jobs (Distinct-find (λ k. k.id) w.jobs v.open_db.jobs.distinct)) in
    let fits = All-order_by more_urgent (λ k. p k ≡ true) (select p w.jobs) (All-select p w.jobs) in
    (
      (subst (All found) h here).0,
      (subst (All (λ k. p k ≡ true)) h fits).0,
      none_ahead p (λ k. more_urgent k j) w.jobs (order_by-first more_urgent urgency j rest _ h),
    )

-- In a valid database claiming always succeeds and changes nothing yet. It gives a job of the
-- table that is pending, due and not locked, such that no job that is so has a higher priority, or
-- the same priority and an earlier creation; it gives none only where no job is so.
pub claim_job-Chosen :
    (locked : ℕ → Bool) (w : World)
    → IsValid w
    → (o : Option Job) × (claim_job locked w ≡ (ok o, w)) × Chosen w locked o
unfolding claim_job ◌>>=◌
claim_job-Chosen locked w v = (_, refl, chosen w locked _ v refl)

-- ===== src/Orchestrator/Worker/Shutdown.antt =====
-- When the loop of backend/app/orchestrator/worker.py ends, and how.
use ai_badge.Prelude.{
  Bool-cases, All, ℕ, ◌≡◌, refl, sym, ap, ◌∙◌, subst, inl, inr, Bool, true, false, not, ◌||◌,
  Option, none, some, List, [], ◌∷◌, ◌++◌, map, arith,
}
use ai_badge.Model.{Job, DeletionJob, ◌>>=◌, World, ok, store}
use ai_badge.Orchestrator.Worker.{
  first, process_claimed, process_one, process_found, process_deletion, poll_cycle, worker_loop,
  Handlers, Tick,
}
use ai_badge.Orchestrator.Worker.Loop.{
  handle_signal, attempt, wants_sleep, arrive, nap, go_on, loop, Round, Process, Ending, stopped,
  running,
}

process_claimed-ok :
    (handlers : Handlers) (o : Option Job) (w : World)
    → (b : Bool) × (process_claimed handlers o w ≡ (ok b, (process_claimed handlers o w).1))
unfolding process_claimed
process_claimed-ok handlers none w = (false, refl)
process_claimed-ok handlers (some j) w = (true, refl)

process_one-ok :
    (handlers : Handlers) (locks : ℕ → Bool) (w : World)
    → (b : Bool) × (process_one handlers locks w ≡ (ok b, (process_one handlers locks w).1))
unfolding process_one store
process_one-ok handlers locks w = process_claimed-ok handlers _ _

process_found-ok :
    (handlers : Handlers) (o : Option DeletionJob) (w : World)
    → (b : Bool) × (process_found handlers o w ≡ (ok b, (process_found handlers o w).1))
unfolding process_found
process_found-ok handlers none w = (false, refl)
process_found-ok handlers (some j) w = (true, refl)

process_deletion-ok :
    (handlers : Handlers) (locks : ℕ → Bool) (w : World)
    → (b : Bool) × (process_deletion handlers locks w
        ≡ (ok b, (process_deletion handlers locks w).1))
unfolding process_deletion store
process_deletion-ok handlers locks w = process_found-ok handlers _ _

-- The process after a turn in which nothing raised.
abbrev turned : Handlers → Round → Process → Bool → Bool → Process
turned handlers r s a b = record s {
  world = poll_cycle handlers r.tick.locks (record s.world { now = r.tick.time });
  processed_job = some a;
  processed_del = some b;
}

attempt-reachable :
    (handlers : Handlers) (r : Round) (s : Process)
    → r.reachable ≡ true
    → (a : Bool) × (b : Bool) × (attempt handlers r s ≡ turned handlers r s a b)
unfolding attempt poll_cycle ◌>>=◌
attempt-reachable handlers r s up =
    let w = record s.world { now = r.tick.time } in
    let (a, first) = process_one-ok handlers r.tick.locks w in
    let (b, second) =
      process_deletion-ok handlers r.tick.locks (process_one handlers r.tick.locks w).1 in
    (a, b, rw (up, first, second) refl)

-- A process that may have stopped, and not one that still runs.
abbrev pub IsEnded : Ending → Type 0
IsEnded (running s) = ⊥
IsEnded _ = Unit

abbrev pub any_signal : List Round → Bool
any_signal [] = false
any_signal (r ∷ rs) = r.signal || any_signal rs

-- Turns that reach the database, and during which no signal arrives.
abbrev pub IsQuiet : Round → Type 0
IsQuiet r = (r.reachable ≡ true) × (r.signal ≡ false)

nap-shutdown : (b : Bool) (s : Process) → (nap b s).shutdown ≡ s.shutdown
nap-shutdown true s = refl
nap-shutdown false s = refl

loop-shutdown :
    (handlers : Handlers) (rounds : List Round) (s : Process)
    → s.shutdown ≡ true
    → loop handlers rounds s ≡ stopped s
unfolding loop
loop-shutdown handlers [] s h = rw h refl
loop-shutdown handlers (r ∷ rounds) s h = ground (arith)

pub loop-on :
    (handlers : Handlers) (r : Round) (rounds : List Round) (s : Process)
    → s.shutdown ≡ false
    → loop handlers (r ∷ rounds) s
      ≡ go_on
          (wants_sleep (attempt handlers r s).processed_job (attempt handlers r s).processed_del)
          (attempt handlers r s)
          (λ u. loop handlers rounds (arrive r u))
unfolding loop
loop-on handlers r rounds s on = ground arith

-- One turn of the loop in which nothing raises.
loop-turn :
    (handlers : Handlers) (r : Round) (rounds : List Round) (s : Process)
    → s.shutdown ≡ false
    → r.reachable ≡ true
    → (a : Bool) × (b : Bool) × (loop handlers (r ∷ rounds) s
        ≡ loop handlers rounds (arrive r (nap (not (a || b)) (turned handlers r s a b))))
loop-turn handlers r rounds s on up =
    let (a, b, tried) = attempt-reachable handlers r s up in
    (a, b, loop-on handlers r rounds s on ∙ rw tried (step a b))
  where
    step :
        (a b : Bool)
        → go_on
            (wants_sleep (some a) (some b))
            (turned handlers r s a b)
            (λ u. loop handlers rounds (arrive r u))
          ≡ loop handlers rounds (arrive r (nap (not (a || b)) (turned handlers r s a b)))
    step true b = refl
    step false b = refl

arrive-world : (r : Round) (s : Process) → (arrive r s).world ≡ s.world
unfolding handle_signal
arrive-world r s = ground arith

nap-world : (b : Bool) (s : Process) → (nap b s).world ≡ s.world
nap-world true s = refl
nap-world false s = refl

arrive-quiet : (r : Round) (s : Process) → r.signal ≡ false → (arrive r s).shutdown ≡ s.shutdown
unfolding handle_signal
arrive-quiet r s h = ground arith

arrive-signal : (r : Round) (s : Process) → r.signal ≡ true → (arrive r s).shutdown ≡ true
unfolding handle_signal
arrive-signal r s h = ground arith

-- The database after turns that all reach it.
abbrev pub ticks : List Round → List Tick
ticks rounds = map (λ r. r.tick) rounds

-- A worker whose turns reach the database goes on without a signal, and ends with the first turn in
-- which one arrives, whatever would come after that: it is left by its test and not by an
-- exception, having done exactly the turns until then, the last one to its end.
pub loop-stops :
    (handlers : Handlers) (before : List Round) (r : Round) (later : List Round) (s : Process)
    → s.shutdown ≡ false
    → All IsQuiet before
    → r.reachable ≡ true
    → r.signal ≡ true
    → (s' : Process) × (loop handlers (before ++ r ∷ later) s ≡ stopped s')
      × (s'.world ≡ worker_loop handlers (ticks (before ++ r ∷ [])) s.world)
unfolding worker_loop
loop-stops handlers [] r later s on quiet up signal =
    let (a, b, turn) = loop-turn handlers r later s on up in
    let s' = arrive r (nap (not (a || b)) (turned handlers r s a b)) in
    (
      s',
      turn ∙ loop-shutdown handlers later s' (arrive-signal r _ signal),
      arrive-world r _ ∙ nap-world (not (a || b)) (turned handlers r s a b),
    )
loop-stops handlers (q ∷ before) r later s on quiet up signal =
    let (a, b, turn) = loop-turn handlers q (before ++ r ∷ later) s on quiet.0.0 in
    let t = arrive q (nap (not (a || b)) (turned handlers q s a b)) in
    let still : t.shutdown ≡ false =
      arrive-quiet q _ quiet.0.1 ∙ (nap-shutdown (not (a || b)) (turned handlers q s a b) ∙ on) in
    let world : t.world ≡ poll_cycle handlers q.tick.locks (record s.world { now = q.tick.time }) =
      arrive-world q _ ∙ nap-world (not (a || b)) (turned handlers q s a b) in
    let (s', ends, same) = loop-stops handlers before r later t still quiet.1 up signal in
    (s', turn ∙ ends, same ∙ ap (worker_loop handlers (ticks (before ++ r ∷ []))) world)

rest-IsEnded :
    (handlers : Handlers) (r : Round) (rounds : List Round) (b : Bool) (u : Process)
    → r.signal ≡ b
    → any_signal (r ∷ rounds) ≡ true
    → ((v : Process) → any_signal rounds ≡ true → IsEnded (loop handlers rounds v))
    → IsEnded (loop handlers rounds (arrive r u))
rest-IsEnded handlers r rounds true u e h ih =
    rw (loop-shutdown handlers rounds (arrive r u) (arrive-signal r u e)) tt
rest-IsEnded handlers r rounds false u e h ih = ih (arrive r u) (ground arith)

-- Whatever goes wrong in its turns, a worker that gets a signal in one of them ends.
pub loop-IsEnded :
    (handlers : Handlers) (rounds : List Round) (s : Process)
    → any_signal rounds ≡ true
    → IsEnded (loop handlers rounds s)
loop-IsEnded handlers [] s h = absurd (ground arith)
loop-IsEnded handlers (r ∷ rounds) s h =
    let ih = λ (v : Process) (k : any_signal rounds ≡ true). loop-IsEnded handlers rounds v k in
    elim (Bool-cases s.shutdown) [
      | inl off ↦ rw (loop-shutdown handlers (r ∷ rounds) s off) tt
      | inr on ↦ subst IsEnded (sym (loop-on handlers r rounds s on)) (next ih (wants_sleep _ _))
    ]
  where
    next :
        ((v : Process) → any_signal rounds ≡ true → IsEnded (loop handlers rounds v))
        → (o : Option Bool)
        → IsEnded (go_on o (attempt handlers r s) (λ u. loop handlers rounds (arrive r u)))
    next ih none = tt
    next ih (some b) = rest-IsEnded handlers r rounds r.signal _ refl h ih

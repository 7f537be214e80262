-- ===== src/Orchestrator/Worker/Outage.antt =====
-- The loop of backend/app/orchestrator/worker.py while the database cannot be reached.
use ai_badge.Prelude.{All, ◌≡◌, refl, ◌∙◌, true, false, some, List, [], ◌∷◌, arith, none}
use ai_badge.Model.{World}
use ai_badge.Orchestrator.Worker.{Handlers}
use ai_badge.Orchestrator.Worker.Loop.{
  attempt, wants_sleep, arrive, go_on, loop, Round, Process, running, main, crashed,
}
use ai_badge.Orchestrator.Worker.Shutdown.{loop-on}

-- Turns that fail before they have done anything, and during which no signal arrives.
abbrev pub IsLost : Round → Type 0
IsLost r = (r.reachable ≡ false) × (r.signal ≡ false)

attempt-lost :
    (handlers : Handlers) (r : Round) (s : Process)
    → r.reachable ≡ false
    → attempt handlers r s ≡ record s { world = record s.world { now = r.tick.time } }
unfolding attempt
attempt-lost handlers r s down = rw down refl

-- A worker whose last turn processed a job polls through an outage without ever sleeping: the
-- variables keep the answers of that turn. It changes nothing but its clock, and still runs.
loop-busy :
    (handlers : Handlers) (rounds : List Round) (s : Process)
    → s.shutdown ≡ false
    → s.processed_job ≡ some true
    → All IsLost rounds
    → (s' : Process) × (loop handlers rounds s ≡ running s')
      × (s'.naps ≡ s.naps)
      × (s'.world.db ≡ s.world.db)
      × (s'.world.saved ≡ s.world.saved)
unfolding loop
loop-busy handlers [] s on busy lost = (s, ground arith, refl, refl, refl)
loop-busy handlers (r ∷ rounds) s on busy lost =
    let t = record s { world = record s.world { now = r.tick.time } } in
    let (s', runs, naps, db, saved) = loop-busy handlers rounds t on busy lost.1 in
    (s', loop-on handlers r rounds s on ∙ step ∙ runs, naps, db, saved)
  where
    step :
        go_on
          (wants_sleep (attempt handlers r s).processed_job (attempt handlers r s).processed_del)
          (attempt handlers r s)
          (λ u. loop handlers rounds (arrive r u))
        ≡ loop handlers rounds (record s { world = record s.world { now = r.tick.time } })
    step = rw (attempt-lost handlers r s lost.0.0) (ground (arith))

-- A new worker whose first turn cannot reach the database ends at once in a NameError, having
-- changed nothing, and no later turn happens; one whose last turn processed a job polls through
-- the outage without sleeping once, still runs after it, and has changed nothing but its clock.
pub outage :
    (handlers : Handlers) (r : Round) (rounds : List Round) (w : World) (s : Process)
    → r.reachable ≡ false
    → s.shutdown ≡ false
    → s.processed_job ≡ some true
    → All IsLost rounds
    → ((t : Process) × (main handlers (r ∷ rounds) w ≡ crashed t) × (t.world.saved ≡ w.saved))
      × ((t : Process) × (loop handlers rounds s ≡ running t)
          × (t.naps ≡ s.naps)
          × (t.world.db ≡ s.world.db)
          × (t.world.saved ≡ s.world.saved))
unfolding main
outage handlers r rounds w s down on busy lost =
    let new : Process = record {
      world = w;
      shutdown = false;
      processed_job = none;
      processed_del = none;
      naps = 0;
    } in
    (
      (
        record new { world = record w { now = r.tick.time } },
        loop-on handlers r rounds new refl ∙ rw (attempt-lost handlers r new down) refl,
        refl,
      ),
      loop-busy handlers rounds s on busy lost,
    )

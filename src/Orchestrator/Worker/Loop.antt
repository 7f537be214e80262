-- ===== src/Orchestrator/Worker/Loop.antt =====
-- The process of backend/app/orchestrator/worker.py: worker_loop with what may go wrong in a turn,
-- the shutdown flag that _handle_signal sets, sleeping, and the heartbeat thread.
use ai_badge.Prelude.{
  if◌then◌else◌, ℕ, ◌+◌, Bool, true, false, not, ◌&&◌, Option, none, some, List, [], ◌∷◌,
}
use ai_badge.Model.{rollback, World, Result, ok, err}
use ai_badge.Orchestrator.Worker.{send_heartbeat, process_one, process_deletion, Handlers, Tick}

-- What happens in one turn: when it is and what others lock, whether the database can be reached,
-- and whether a signal arrives before the loop tests the flag again.
pub record Round : Type 0 where
  pub tick : Tick
  pub reachable : Bool
  pub signal : Bool

-- The process: the database and files, the flag `_shutdown`, the two variables of the loop, which
-- are unbound at first, and how often it has slept.
pub record Process : Type 0 where
  pub world : World
  pub shutdown : Bool
  pub processed_job : Option Bool
  pub processed_del : Option Bool
  pub naps : ℕ

-- `_handle_signal`
unfoldable pub handle_signal : Process → Process
handle_signal s = record s { shutdown = true }

abbrev assign_deletion : Result Bool × World → Process → Process
assign_deletion (ok b, w) s = record s { processed_del = some b; world = rollback w }
assign_deletion (err e, w) s = record s { world = rollback w }

abbrev assign_job : Handlers → (ℕ → Bool) → Result Bool × World → Process → Process
assign_job handlers locks (ok b, w) s =
    assign_deletion (process_deletion handlers locks w) (record s { processed_job = some b })
assign_job handlers locks (err e, w) s = record s { world = rollback w }

-- The `try` of a turn: each variable is bound when its call has returned, and the session is closed.
unfoldable pub attempt : Handlers → Round → Process → Process
attempt handlers r s =
    let w = record s.world { now = r.tick.time } in
    if r.reachable
    then assign_job handlers r.tick.locks (process_one handlers r.tick.locks w) s
    else record s { world = w }

-- `not (processed_job or processed_del)`; none where a variable that it reads is unbound
abbrev pub wants_sleep : Option Bool → Option Bool → Option Bool
wants_sleep none del = none
wants_sleep (some true) del = some false
wants_sleep (some false) none = none
wants_sleep (some false) (some del) = some (not del)

-- How the process is after some turns: the loop was left, it ended in a NameError, or it still runs.
pub data Ending : Type 0 where
  stopped crashed running : Process → Ending

abbrev pub arrive : Round → Process → Process
arrive r s = if r.signal then handle_signal s else s

abbrev pub nap : Bool → Process → Process
nap sleeps s = if sleeps then record s { naps = s.naps + 1 } else s

-- The end of a turn: the test of the two variables, and what comes after it.
abbrev pub go_on : Option Bool → Process → (Process → Ending) → Ending
go_on none s next = crashed s
go_on (some sleeps) s next = next (nap sleeps s)

-- The `while` of worker_loop.
unfoldable pub loop : Handlers → List Round → Process → Ending
unfolding attempt handle_signal
loop handlers [] s = if s.shutdown then stopped s else running s
loop handlers (r ∷ rounds) s = elim s.shutdown [
  | true ↦ stopped s
  | false ↦
      let tried = attempt handlers r s in
      go_on (wants_sleep tried.processed_job tried.processed_del) tried
        λ u. loop handlers rounds (arrive r u)
]

-- `main`: the loop of a new process.
unfoldable pub main : Handlers → List Round → World → Ending
unfolding loop
main handlers rounds w =
    loop handlers rounds
      (record { world = w; shutdown = false; processed_job = none; processed_del = none; naps = 0 })

-- One turn of the heartbeat thread: the flags as it reads them, and whether its own session works.
pub record Beat : Type 0 where
  pub stop_before : Bool
  pub stop_after : Bool
  pub reachable : Bool
  pub time : ℕ

abbrev pub beat : ℕ → Beat → World → World
beat jid b w =
    let woken = record w { now = b.time } in
    if not b.stop_after && b.reachable then send_heartbeat jid woken else woken

-- `heartbeat_thread`: it sleeps, and writes unless it was stopped meanwhile; a failure is passed over.
unfoldable pub heartbeat_thread : ℕ → List Beat → World → World
heartbeat_thread jid [] w = w
heartbeat_thread jid (b ∷ beats) w =
    let rest = heartbeat_thread jid beats (beat jid b w) in if b.stop_before then w else rest

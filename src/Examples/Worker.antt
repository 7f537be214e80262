-- ===== src/Examples/Worker.antt =====
-- The worker process on small schedules: a signal, an outage, and a heartbeat.
use ai_badge.Prelude.{ℕ, ◌≡◌, refl, Bool, true, false, none, some, [], ◌∷◌, ◌++◌, arith}
use ai_badge.Model.{SessionStatus, JobStatus, Job, find_job}
use ai_badge.Orchestrator.Worker.{release_timed_out_jobs, is_claimable, worker_loop}
use ai_badge.Orchestrator.Worker.Loop.{
  loop, main, heartbeat_thread, Round, Process, Beat, stopped, crashed, running,
}
use ai_badge.Orchestrator.Worker.Shutdown.{IsEnded, ticks, loop-stops, loop-IsEnded}
use ai_badge.Orchestrator.Worker.Outage.{outage}
use ai_badge.Orchestrator.Worker.Heartbeat.{heartbeat_thread-kept}
use ai_badge.Agents.Registry.{handlers}
use ai_badge.Examples.Data.{session_in, transcription, world_of, two_sessions, answering}

abbrev round_at : ℕ → Bool → Bool → Round
round_at time reachable signal = record {
  tick = record { time = time; locks = λ id. false };
  reachable = reachable;
  signal = signal;
}

-- A process beside the transcription job of session 1.
abbrev fresh_process : Process
fresh_process = record {
  world = world_of (session_in SessionStatus.processing ∷ []) (transcription ∷ []) [];
  shutdown = false;
  processed_job = none;
  processed_del = none;
  naps = 0;
}

loop-stops_example :
    (s' : Process) × (loop
        (handlers answering)
        (round_at 1000 true false ∷ [] ++ round_at 1001 true true ∷ round_at 1002 false false ∷ [])
        fresh_process
      ≡ stopped s')
    × (s'.world
        ≡ worker_loop
            (handlers answering)
            (ticks (round_at 1000 true false ∷ [] ++ round_at 1001 true true ∷ []))
            fresh_process.world)
loop-stops_example =
    loop-stops (handlers answering) (round_at 1000 true false ∷ []) (round_at 1001 true true)
      (round_at 1002 false false ∷ []) fresh_process refl ((refl, refl), tt) refl refl

loop-IsEnded_example : IsEnded (
    loop
      (handlers answering)
      (round_at 1000 true false ∷ round_at 1001 false true ∷ [])
      fresh_process)
loop-IsEnded_example =
    loop-IsEnded (handlers answering) (round_at 1000 true false ∷ round_at 1001 false true ∷ [])
      fresh_process refl

abbrev busy_process : Process
busy_process = record fresh_process { processed_job = some true; processed_del = some false }

outage_example :
    ((t : Process) × (main
          (handlers answering)
          (round_at 1000 false false ∷ round_at 1001 false false ∷ [])
          (two_sessions SessionStatus.idle)
        ≡ crashed t)
      × (t.world.saved ≡ (two_sessions SessionStatus.idle).saved))
    × ((t : Process) × (loop (handlers answering) (round_at 1001 false false ∷ []) busy_process
          ≡ running t)
        × (t.naps ≡ busy_process.naps)
        × (t.world.db ≡ busy_process.world.db)
        × (t.world.saved ≡ busy_process.world.saved))
outage_example =
    outage (handlers answering) (round_at 1000 false false) (round_at 1001 false false ∷ [])
      (two_sessions SessionStatus.idle) busy_process refl refl refl ((refl, refl), tt)

abbrev running_job : Job
running_job = record transcription { status = JobStatus.running; started_at = some 1000 }

-- A beat that fails, and one that arrives.
abbrev missed : Beat
missed = record { stop_before = false; stop_after = false; reachable = false; time = 1030 }

abbrev arrived : Beat
arrived = record { stop_before = false; stop_after = false; reachable = true; time = 1060 }

heartbeat_thread-kept_example :
    (k : Job) × (find_job 20
        (release_timed_out_jobs
          (record (heartbeat_thread 20
            (missed ∷ [] ++ arrived ∷ [])
            (world_of [] (running_job ∷ []) [])) { now = 1180 })).1
      ≡ some k)
    × (k.status ≡ JobStatus.running)
    × (k.started_at ≡ some 1060)
    × (is_claimable 1180 (λ id. false) k ≡ false)
heartbeat_thread-kept_example =
    heartbeat_thread-kept 20 (missed ∷ []) arrived running_job (world_of [] (running_job ∷ []) [])
      1180 (λ id. false) refl refl refl refl refl (omega arith)

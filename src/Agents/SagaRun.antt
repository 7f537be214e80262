-- ===== src/Agents/SagaRun.antt =====
-- The turns of worker_loop in which the deletion jobs of a retraction run.
use ai_badge.Prelude.{
  string_eq, nat_eq, ◌==◌, select, delete_where, order_by, ◌≡◌, refl, true, false, some, List, [],
  ◌∷◌, ltb, nat_beq, All, insert, select-delete_where, ℕ, suc, String, ap, ◌∙◌, not, arith,
}
use ai_badge.Model.{
  session_status_eq, job_status_eq, artifact_status_eq, opt_eq, key_eq, DeletionJob, ◌>>=◌, World,
  ok, JobStatus, commit, rollback, store,
}
use ai_badge.Model.Json.{str, end, field}
use ai_badge.Model.Inversion.{bind-ok}
use ai_badge.Orchestrator.Worker.{
  release_timed_out_jobs, claim_job, process_claimed, process_one, is_due_deletion, older,
  process_found, process_deletion, poll_cycle, Handlers, first,
}
use ai_badge.Sessions.Service.{new_deletion_job}
use ai_badge.Storage.{path_join}
use ai_badge.Agents.Providers.{Providers}
use ai_badge.Agents.Deletion.{
  done, is_of, handle_delete_artifacts, handle_delete_audio, handle_delete_feishu,
}
use ai_badge.Agents.Registry.{deletion_handler, handlers}
use ai_badge.Agents.Erasure.{select-delete_other, audio_job}
use ai_badge.Agents.Polling.{three_turns, nothing_locked}

-- A committed world with these deletion jobs.
abbrev pub queued : List DeletionJob → World → World
queued ds w = let d = record w.db { deletion_jobs = ds } in record w { db = d; saved = d }

no_job :
    (h : Handlers) (ds : List DeletionJob) (w : World)
    → w.jobs ≡ []
    → process_one h nothing_locked (queued ds w) ≡ (ok false, queued ds w)
unfolding process_one claim_job release_timed_out_jobs process_claimed order_by ◌>>=◌
no_job h ds w idle = rw idle refl

found_deletion :
    (h : Handlers) (ds after : List DeletionJob) (j : DeletionJob) (w v : World)
    → first (order_by older (select (is_due_deletion w.now nothing_locked) ds)) ≡ some j
    → process_found h (some j) (queued ds w) ≡ (ok true, queued after v)
    → process_deletion h nothing_locked (queued ds w) ≡ (ok true, queued after v)
unfolding process_deletion ◌>>=◌
found_deletion h ds after j w v due ran = rw due ran

-- A turn without a job, in which `j` is the first deletion job that is due.
deletion_turn :
    (h : Handlers) (ds after : List DeletionJob) (j : DeletionJob) (w v : World)
    → w.jobs ≡ []
    → first (order_by older (select (is_due_deletion w.now nothing_locked) ds)) ≡ some j
    → process_found h (some j) (queued ds w) ≡ (ok true, queued after v)
    → poll_cycle h nothing_locked (queued ds w) ≡ queued after v
unfolding poll_cycle
deletion_turn h ds after j w v idle due ran =
    let both =
      bind-ok (process_one h nothing_locked) (λ _. process_deletion h nothing_locked) (queued ds w)
        (queued ds w) false _ (no_job h ds w idle) (found_deletion h ds after j w v due ran) in
    ap (λ r. rollback r.1) both

-- The three jobs of the saga for a session with a recording.
abbrev pub rows_job : ℕ → ℕ → ℕ → DeletionJob
rows_job sid id t =
    new_deletion_job "delete_artifact_rows" sid
      (field "description" (str "Hard-delete all artifacts") end) id t

abbrev pub docs_job : ℕ → ℕ → ℕ → DeletionJob
docs_job sid id t =
    new_deletion_job "delete_feishu_docs" sid (field "description" (str "Feishu stub") end) id t

module _ (p : Providers) (sid id t : ℕ) (key : String) where
  abbrev a : DeletionJob
  a = rows_job sid id t

  abbrev b : DeletionJob
  b = audio_job sid key (suc id) t

  abbrev c : DeletionJob
  c = docs_job sid (suc (suc id)) t

  abbrev without_artifacts : World → World
  without_artifacts w = record w {
    db = record w.db { artifacts = delete_where (is_of (some sid)) w.artifacts };
  }

  abbrev without_file : World → World
  without_file w = record w {
    files = delete_where (λ f. f.0 == path_join p.audio_storage_path key) w.files;
  }

  rows_turn :
      (w : World)
      → w.jobs ≡ []
      → poll_cycle (handlers p) nothing_locked (queued (a ∷ b ∷ c ∷ []) w)
        ≡ queued (done a ∷ b ∷ c ∷ []) (without_artifacts w)
  unfolding process_found deletion_handler handle_delete_artifacts store commit order_by insert
  rows_turn w idle =
      let tie : ltb t t ≡ false = ground arith in
      let own : nat_beq id id ≡ true = ground arith in
      let second : nat_beq (suc id) id ≡ false = ground arith in
      let third : nat_beq (suc (suc id)) id ≡ false = ground arith in
      deletion_turn (handlers p) (a ∷ b ∷ c ∷ []) (done a ∷ b ∷ c ∷ []) a w (without_artifacts w)
        idle (rw tie (rw tie refl)) (rw (own, second, third) (ground (arith, own, second, third)))

  audio_turn :
      (w : World)
      → w.jobs ≡ []
      → (key == "") ≡ false
      → poll_cycle (handlers p) nothing_locked (queued (done a ∷ b ∷ c ∷ []) w)
        ≡ queued (done a ∷ done b ∷ c ∷ []) (without_file w)
  unfolding process_found deletion_handler handle_delete_audio store commit order_by insert
  audio_turn w idle some_key =
      let tie : ltb t t ≡ false = ground arith in
      let own : nat_beq (suc id) (suc id) ≡ true = ground arith in
      let first_id : nat_beq id (suc id) ≡ false = ground arith in
      let third : nat_beq (suc (suc id)) (suc id) ≡ false = ground arith in
      deletion_turn (handlers p) (done a ∷ b ∷ c ∷ []) (done a ∷ done b ∷ c ∷ []) b w
        (without_file w) idle (rw tie refl)
        (rw (own, first_id, third, some_key) (ground (arith, own, first_id, third, some_key)))

  docs_turn :
      (w : World)
      → w.jobs ≡ []
      → poll_cycle (handlers p) nothing_locked (queued (done a ∷ done b ∷ c ∷ []) w)
        ≡ queued (done a ∷ done b ∷ done c ∷ []) w
  unfolding process_found deletion_handler handle_delete_feishu store commit order_by insert
  docs_turn w idle =
      let own : nat_beq (suc (suc id)) (suc (suc id)) ≡ true = ground arith in
      let first_id : nat_beq id (suc (suc id)) ≡ false = ground arith in
      let second : nat_beq (suc id) (suc (suc id)) ≡ false = ground arith in
      deletion_turn (handlers p) (done a ∷ done b ∷ c ∷ []) (done a ∷ done b ∷ done c ∷ []) c w w
        idle refl (rw (own, first_id, second) (ground (arith, own, first_id, second)))

-- The three deletion jobs of a retraction, of a session with a recording.
abbrev pub saga_jobs : ℕ → String → ℕ → ℕ → List DeletionJob
saga_jobs sid key id t =
    rows_job sid id t ∷ audio_job sid key (suc id) t ∷ docs_job sid (suc (suc id)) t ∷ []

-- Where no job is there and nothing is locked, three turns of the worker at one time carry out the
-- deletion jobs that the saga made for a session with a recording: no artifact of the session and no
-- file under its key is left, every other artifact and file is, all three jobs are completed, and all
-- is committed; the sessions are not touched.
pub three_turns-erases :
    (p : Providers) (sid id t : ℕ) (key : String) (w : World)
    → w.jobs ≡ []
    → (key == "") ≡ false
    → let v = three_turns (handlers p) (queued (saga_jobs sid key id t) w) in
      (select (is_of (some sid)) v.db.artifacts ≡ [])
      × (select (λ x. not (is_of (some sid) x)) v.db.artifacts
          ≡ select (λ x. not (is_of (some sid) x)) w.artifacts)
      × (select (λ f. f.0 == path_join p.audio_storage_path key) v.files ≡ [])
      × (select (λ f. not (f.0 == path_join p.audio_storage_path key)) v.files
          ≡ select (λ f. not (f.0 == path_join p.audio_storage_path key)) w.files)
      × All (λ j. j.status ≡ JobStatus.completed) v.db.deletion_jobs
      × (v.db.sessions ≡ w.sessions)
      × (v.saved ≡ v.db)
unfolding three_turns
three_turns-erases p sid id t key w idle some_key =
    let poll = poll_cycle (handlers p) nothing_locked in
    let one = rows_turn p sid id t key w idle in
    let u = without_artifacts p sid id t key w in
    let two = audio_turn p sid id t key u idle some_key in
    let three = docs_turn p sid id t key (without_file p sid id t key u) idle in
    let ran = ap poll (ap poll one ∙ two) ∙ three in
    let gone = λ (f : String × List ℕ). f.0 == path_join p.audio_storage_path key in
    (
      rw ran (select-delete_where (is_of (some sid)) w.artifacts),
      rw ran (select-delete_other (is_of (some sid)) w.artifacts),
      rw ran (select-delete_where gone w.files),
      rw ran (select-delete_other gone w.files),
      rw ran (refl, (refl, (refl, tt))),
      rw ran,
      rw ran,
    )

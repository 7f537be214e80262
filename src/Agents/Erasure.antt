-- ===== src/Agents/Erasure.antt =====
-- What the worker does with the deletion jobs of a retraction: process_deletion of
-- backend/app/orchestrator/worker.py over the handlers of backend/app/agents/deletion.py.
use ai_badge.Prelude.{
  ◌==◌, nat_eq, string_eq, beq_refl, select, find, update_where, delete_where, find-update_where, ℕ,
  String, ◌≡◌, refl, Bool, true, false, not, Option, some, List, [], ◌∷◌, arith,
  select-delete_where,
}
use ai_badge.Model.{
  session_status_eq, job_status_eq, artifact_status_eq, opt_eq, key_eq, DeletionJob, World, ok,
  store, set_deletion_job, commit,
}
use ai_badge.Model.Json.{end, field}
use ai_badge.Orchestrator.Worker.{run_deletion, run_started, process_found}
use ai_badge.Sessions.Service.{new_deletion_job, json_of_key}
use ai_badge.Storage.{path_join}
use ai_badge.Agents.Providers.{Providers}
use ai_badge.Agents.Deletion.{done, is_of, handle_delete_artifacts, handle_delete_audio}
use ai_badge.Agents.Registry.{deletion_handler, handlers}

pub select-delete_other :
    {A : Type 0} (p : A → Bool) (xs : List A)
    → select (λ x. not (p x)) (delete_where p xs) ≡ select (λ x. not (p x)) xs
select-delete_other p [] = refl
select-delete_other p (x ∷ xs) = ground (arith, select-delete_other p xs)

abbrev find_deletion : ℕ → World → Option DeletionJob
find_deletion jid w = find (λ j. j.id == jid) w.deletion_jobs

-- The row of a deletion job, marked as running and then as completed.
finished :
    (j : DeletionJob) (rows : List DeletionJob)
    → find (λ k. k.id == j.id) rows ≡ some j
    → find
        (λ k. k.id == j.id)
        (update_where (λ k. k.id == j.id) done (update_where (λ k. k.id == j.id) run_started rows))
      ≡ some (done j)
finished j rows h =
    let one =
      find-update_where (λ k. k.id == j.id) (λ k. k.id == j.id) run_started (λ k. refl) rows in
    let two =
      find-update_where (λ k. k.id == j.id) (λ k. k.id == j.id) done (λ k. refl)
        (update_where (λ k. k.id == j.id) run_started rows) in
    ground (arith, one, two, h, beq_refl j.id)

-- Processing a "delete_artifact_rows" job of a session removes every artifact of that session and
-- no other, and completes the job, all in one commit.
pub process_found-artifacts :
    (p : Providers) (j : DeletionJob) (sid : ℕ) (w : World)
    → find_deletion j.id w ≡ some j
    → j.resource_type ≡ "delete_artifact_rows"
    → j.session_id ≡ some sid
    → (v : World) × (process_found (handlers p) (some j) w ≡ (ok true, v))
      × (select (is_of (some sid)) v.db.artifacts ≡ [])
      × (select (λ a. not (is_of (some sid) a)) v.db.artifacts
          ≡ select (λ a. not (is_of (some sid) a)) w.artifacts)
      × (find_deletion j.id v ≡ some (done j))
      × (v.saved ≡ v.db)
unfolding process_found run_deletion deletion_handler handle_delete_artifacts store commit
process_found-artifacts p j sid w h t s =
    let d = set_deletion_job j.id run_started w.db in
    let erased = record d {
      artifacts = delete_where (is_of j.session_id) w.artifacts;
      deletion_jobs = update_where (λ k. k.id == j.id) done d.deletion_jobs;
    } in
    (
      record w { db = erased; saved = erased },
      rw t refl,
      rw s (select-delete_where (is_of (some sid)) w.artifacts),
      rw s (select-delete_other (is_of (some sid)) w.artifacts),
      finished j w.deletion_jobs h,
      refl,
    )

-- The job that the saga makes for a recording.
abbrev pub audio_job : ℕ → String → ℕ → ℕ → DeletionJob
audio_job sid key id now =
    new_deletion_job "delete_local_audio" sid (field "audio_key" (json_of_key (some key)) end) id
      now

-- The "delete_local_audio" job that the saga makes for a session with audio removes exactly the
-- recording under that key, and is completed, in one commit; no artifact is touched.
pub process_found-audio :
    (p : Providers) (sid : ℕ) (key : String) (id now : ℕ) (w : World)
    → (key == "") ≡ false
    → find_deletion id w ≡ some (audio_job sid key id now)
    → (v : World) × (process_found (handlers p) (some (audio_job sid key id now)) w ≡ (ok true, v))
      × (select (λ f. f.0 == path_join p.audio_storage_path key) v.files ≡ [])
      × (select (λ f. not (f.0 == path_join p.audio_storage_path key)) v.files
          ≡ select (λ f. not (f.0 == path_join p.audio_storage_path key)) w.files)
      × (find_deletion id v ≡ some (done (audio_job sid key id now)))
      × (v.db.artifacts ≡ w.artifacts)
      × (v.saved ≡ v.db)
unfolding process_found deletion_handler handle_delete_audio store commit
process_found-audio p sid key id now w ne h =
    let row = finished (audio_job sid key id now) w.deletion_jobs h in
    let d = set_deletion_job id run_started w.db in
    let after = record d { deletion_jobs = update_where (λ k. k.id == id) done d.deletion_jobs } in
    let gone = λ (f : String × List ℕ). f.0 == path_join p.audio_storage_path key in
    (
      record w { db = after; saved = after; files = delete_where gone w.files },
      rw ne refl,
      select-delete_where gone w.files,
      select-delete_other gone w.files,
      row,
      refl,
      refl,
    )

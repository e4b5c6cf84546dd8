-- ===== src/Operations/Decision.antt =====
-- How the recovery of one job by control_plane/operations/executor.py leaves its operation.
use ai_agent_desktop.Base.{
  ℕ, String, ◌≡◌, ◌≢◌, ◌⊎◌, inl, inr, refl, ap, ◌∙◌, Bool, true, false, ◌&&◌, ◌||◌, Option, none,
  some, arith, Bool-cases, Option-cases, eq_iff, if◌then◌else◌, str_eq,
}
use ai_agent_desktop.Base.Dict.{Dict, lookup, lookup-insert}
use ai_agent_desktop.Operations.Records.{
  OperationStatus, is_terminal, is_queued, OperationRecord, JobRecord, Database,
}
use ai_agent_desktop.Operations.Store.{Changes, changed, transition}
use ai_agent_desktop.Operations.Executor.{
  RecoveryAction, complete, requeue, fail, RecoveryDecision, Registration, audit, set_job,
}
use ai_agent_desktop.Operations.Lifecycle.{status_of, changed_status}
use ai_agent_desktop.Operations.Recovery.{
  apply_decision, recover_job, probe_of, status_after, changes_after,
}

abbrev pub job_in : Option JobRecord → Option OperationStatus
job_in none = none
job_in (some job) = some job.state

abbrev pub job_state : String → Database → Option OperationStatus
job_state operation_id db = job_in (lookup operation_id db.jobs)

abbrev are_queued : OperationStatus → Option OperationStatus → Bool
are_queued status none = false
are_queued status (some state) = is_queued status && is_queued state

-- There is no operation, or it has ended, or it is queued and so is its job.
abbrev pub is_recovered : Option OperationStatus → Option OperationStatus → Bool
is_recovered none state = true
is_recovered (some status) state = is_terminal status || are_queued status state

-- The operation and its job stand as a recovery leaves them.
abbrev pub Recovered : String → Database → Type 0
Recovered k db = is_recovered (status_of k db) (job_state k db) ≡ true

-- A new status for an operation that is there.
abbrev pub stamp : OperationStatus → Option OperationStatus → Option OperationStatus
stamp status none = none
stamp status (some old) = some status

module _ (clock : ℕ → ℕ) where
  pub status_of-transition_all :
      (id k : String) (status : OperationStatus) (c : Changes) (db : Database)
      → status_of k (transition clock id status c db)
        ≡ (if str_eq id k then stamp status (status_of k db) else status_of k db)
  unfolding transition
  status_of-transition_all id k status c db = elim (Option-cases (lookup id db.operations)) [
    | inl e ↦ rw e ground (arith, eq_iff id k)
    | inr (op, e) ↦
        let r = changed status c (clock db.ticks) op in
        let same = changed_status status c (clock db.ticks) op in
        rw e ground (arith, lookup-insert id k r db.operations, same, eq_iff id k)
  ]

  pub jobs-transition :
      (id : String) (status : OperationStatus) (c : Changes) (db : Database)
      → (transition clock id status c db).jobs ≡ db.jobs
  unfolding transition
  jobs-transition id status c db = elim (Option-cases (lookup id db.operations)) [
    | inl e ↦ rw e refl
    | inr (op, e) ↦ rw e refl
  ]

  job_state-set_job :
      (id k : String) (job : JobRecord) (state : OperationStatus) (db : Database)
      → job_state k (set_job clock id job state db)
        ≡ (if str_eq id k then some state else job_state k db)
  unfolding set_job
  job_state-set_job id k job state db =
      let r : JobRecord = record job { state = state; updated_at = clock db.ticks } in
      ground (arith, lookup-insert id k r db.jobs)

  status_of-apply_decision :
      (id k : String) (job : JobRecord) (decision : RecoveryDecision) (db : Database)
      → status_of k (apply_decision clock id job decision db) ≡ (
          if str_eq id k
          then stamp (status_after decision.action) (status_of k db)
          else status_of k db)
  unfolding apply_decision audit set_job
  status_of-apply_decision id k job decision db =
      status_of-transition_all id k (status_after decision.action)
        (changes_after decision.action decision) db

  job_state-apply_decision :
      (id k : String) (job : JobRecord) (decision : RecoveryDecision) (db : Database)
      → job_state k (apply_decision clock id job decision db)
        ≡ (if str_eq id k then some (status_after decision.action) else job_state k db)
  unfolding apply_decision audit
  job_state-apply_decision id k job decision db =
      let status = status_after decision.action in
      let db' = transition clock id status (changes_after decision.action decision) db in
      let same = jobs-transition id status (changes_after decision.action decision) db in
      job_state-set_job id k job status db'
      ∙ ap (λ jobs. if str_eq id k then some status else job_in (lookup k jobs)) same

  -- A decision leaves its operation recovered, and no other one less so.
  apply_decision-Recovered :
      (id k : String) (job : JobRecord) (decision : RecoveryDecision) (db : Database)
      → (str_eq id k ≡ true) ⊎ Recovered k db
      → Recovered k (apply_decision clock id job decision db)
  apply_decision-Recovered id k job decision db h =
      rw
        (
          status_of-apply_decision id k job decision db,
          job_state-apply_decision id k job decision db,
        )
        (go decision.action (status_of k db) (job_state k db) h)
    where
      go :
          (action : RecoveryAction) (status state : Option OperationStatus)
          → (str_eq id k ≡ true) ⊎ (is_recovered status state ≡ true)
          → is_recovered
              (if str_eq id k then stamp (status_after action) status else status)
              (if str_eq id k then some (status_after action) else state)
            ≡ true
      go complete status state h = ground arith
      go requeue status state h = ground arith
      go fail status state h = ground arith

  status_of-set_job :
      (id k : String) (job : JobRecord) (state : OperationStatus) (db : Database)
      → status_of k (set_job clock id job state db) ≡ status_of k db
  unfolding set_job
  status_of-set_job id k job state db = refl

  -- So does the end of a session that found the operation ended.
  set_job-Recovered :
      (id k : String) (job : JobRecord) (op : OperationRecord) (db : Database)
      → lookup id db.operations ≡ some op
      → is_terminal op.status ≡ true
      → (str_eq id k ≡ true) ⊎ Recovered k db
      → Recovered k (set_job clock id job op.status db)
  set_job-Recovered id k job op db e ended h =
      rw (status_of-set_job id k job op.status db, job_state-set_job id k job op.status db) ground
        (arith, eq_iff id k)

  -- So does the recovery of a job.
  pub recover_job-Recovered :
      (registrations : Dict Registration) (id k : String) (db : Database)
      → ((str_eq id k ≡ true) × (job_state id db ≢ none)) ⊎ Recovered k db
      → Recovered k (recover_job clock registrations id db)
  unfolding recover_job
  recover_job-Recovered registrations id k db h = elim (Option-cases (lookup id db.jobs)) [
    | inl j ↦ rw j ground arith
    | inr (job, j) ↦ elim (Option-cases (lookup id db.operations)) [
      | inl e ↦ rw (j, e) ground (arith, eq_iff id k)
      | inr (op, e) ↦ elim (Bool-cases (is_terminal op.status)) [
        | inl ended ↦ rw (j, e, ended) (set_job-Recovered id k job op db e ended (ground arith))
        | inr live ↦
            rw (j, e, live)
              (apply_decision-Recovered id k job
                (probe_of id job.payload_json (lookup job.kind registrations)) db (ground arith))
      ]
    ]
  ]

  pub job_state-recover_job :
      (registrations : Dict Registration) (id k : String) (db : Database)
      → job_state k db ≢ none
      → job_state k (recover_job clock registrations id db) ≢ none
  unfolding recover_job
  job_state-recover_job registrations id k db there = elim (Option-cases (lookup id db.jobs)) [
    | inl j ↦ rw j there
    | inr (job, j) ↦ elim (Option-cases (lookup id db.operations)) [
      | inl e ↦ rw (j, e) there
      | inr (op, e) ↦ elim (Bool-cases (is_terminal op.status)) [
        | inl ended ↦ rw (j, e, ended) ground (arith, job_state-set_job id k job op.status db)
        | inr live ↦
            let decision = probe_of id job.payload_json (lookup job.kind registrations) in
            rw (j, e, live) ground (arith, job_state-apply_decision id k job decision db)
      ]
    ]
  ]

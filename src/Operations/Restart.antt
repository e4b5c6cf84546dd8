-- ===== src/Operations/Restart.antt =====
-- What the recovery of control_plane/operations/executor.py leaves in the database.
use ai_agent_desktop.Base.{
  ℕ, String, ◌≡◌, ◌≢◌, ◌⊎◌, inl, inr, true, false, Option, none, some, List, [], ◌∷◌, arith,
  Bool-cases, Option-cases, eq_iff, if◌then◌else◌, str_eq, contains,
}
use ai_agent_desktop.Base.Dict.{Dict, lookup}
use ai_agent_desktop.Operations.Records.{
  OperationStatus, failed, is_terminal, OperationRecord, JobRecord, Database,
}
use ai_agent_desktop.Operations.Store.{transition}
use ai_agent_desktop.Operations.Executor.{Registration}
use ai_agent_desktop.Operations.Lifecycle.{status_of}
use ai_agent_desktop.Operations.Recovery.{
  recover_job, recover_each, fail_each, recover_persisted_jobs, waiting_jobs, untracked_of,
  untracked_changes,
}
use ai_agent_desktop.Operations.Decision.{
  job_in, job_state, is_recovered, Recovered, stamp, status_of-transition_all, jobs-transition,
  recover_job-Recovered, job_state-recover_job,
}

module _ (clock : ℕ → ℕ) where
  recover_each-Recovered :
      (registrations : Dict Registration) (ids : List String) (k : String) (db : Database)
      → ((contains ids k ≡ true) × (job_state k db ≢ none)) ⊎ Recovered k db
      → Recovered k (recover_each clock registrations ids db)
  unfolding recover_each
  recover_each-Recovered registrations [] k db h = ground arith
  recover_each-Recovered registrations (id ∷ ids) k db h =
      recover_each-Recovered registrations ids k (recover_job clock registrations id db) (elim h [
        | inl (held, there) ↦ elim (Bool-cases (str_eq id k)) [
          | inl same ↦
              inr (recover_job-Recovered clock registrations id k db (ground (arith, eq_iff id k)))
          | inr other ↦ inl (ground arith, job_state-recover_job clock registrations id k db there)
        ]
        | inr already ↦ inr (recover_job-Recovered clock registrations id k db (inr already))
      ])

  fail_one-Recovered :
      (id k : String) (db : Database)
      → (str_eq id k ≡ true) ⊎ Recovered k db
      → Recovered k (transition clock id failed untracked_changes db)
  fail_one-Recovered id k db h =
      rw
        (
          status_of-transition_all clock id k failed untracked_changes db,
          jobs-transition clock id failed untracked_changes db,
        )
        (go (status_of k db) (job_state k db) h)
    where
      go :
          (status state : Option OperationStatus)
          → (str_eq id k ≡ true) ⊎ (is_recovered status state ≡ true)
          → is_recovered (if str_eq id k then stamp failed status else status) state ≡ true
      go none state h = ground arith
      go (some status) state h = ground arith

  fail_each-Recovered :
      (ids : List String) (k : String) (db : Database)
      → (contains ids k ≡ true) ⊎ Recovered k db
      → Recovered k (fail_each clock ids db)
  unfolding fail_each
  fail_each-Recovered [] k db h = ground arith
  fail_each-Recovered (id ∷ ids) k db h =
      fail_each-Recovered ids k (transition clock id failed untracked_changes db) (elim h [
        | inl held ↦ elim (Bool-cases (str_eq id k)) [
          | inl same ↦ inr (fail_one-Recovered id k db (inl same))
          | inr other ↦ inl (ground arith)
        ]
        | inr already ↦ inr (fail_one-Recovered id k db (inr already))
      ])

waiting_jobs-lookup :
    (jobs : Dict JobRecord) (k : String)
    → contains (waiting_jobs jobs) k ≡ true
    → job_in (lookup k jobs) ≢ none
unfolding waiting_jobs lookup
waiting_jobs-lookup [] k h = ground arith
waiting_jobs-lookup ((id, job) ∷ jobs) k h =
    let rest = waiting_jobs-lookup jobs k in ground (arith, rest)

contains-untracked_of :
    (tracked : List String) (operations : Dict OperationRecord) (k : String) (op : OperationRecord)
    → lookup k operations ≡ some op
    → is_terminal op.status ≡ false
    → contains tracked k ≡ false
    → contains (untracked_of tracked operations) k ≡ true
unfolding untracked_of lookup
contains-untracked_of tracked [] k op e live free = ground arith
contains-untracked_of tracked ((id, r) ∷ rest) k op e live free =
    let later = contains-untracked_of tracked rest k op in ground (arith, later, eq_iff id k)

module _ (clock : ℕ → ℕ) where
  -- After a restart no operation is left in the middle: each one has ended, or it is queued and so
  -- is its job, whatever the recovery probes decide, registered or not, and whatever the states of
  -- operations and jobs were.
  pub recover_persisted_jobs-Recovered :
      (registrations : Dict Registration) (db : Database) (k : String)
      → Recovered k (recover_persisted_jobs clock registrations db)
  unfolding recover_persisted_jobs
  recover_persisted_jobs-Recovered registrations db k =
      let tracked = waiting_jobs db.jobs in
      let db' = recover_each clock registrations tracked db in
      fail_each-Recovered clock (untracked_of tracked db'.operations) k db'
        (elim (Bool-cases (contains tracked k)) [
          | inl held ↦ inr (
              recover_each-Recovered clock registrations tracked k db
                (inl (held, waiting_jobs-lookup db.jobs k held)))
          | inr free ↦ elim (Option-cases (lookup k db'.operations)) [
            | inl e ↦ inr (ground arith)
            | inr (op, e) ↦ elim (Bool-cases (is_terminal op.status)) [
              | inl ended ↦ inr (ground arith)
              | inr live ↦ inl (contains-untracked_of tracked db'.operations k op e live free)
            ]
          ]
        ])

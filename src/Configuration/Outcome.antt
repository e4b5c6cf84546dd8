-- ===== src/Configuration/Outcome.antt =====
-- The contract of `execute_plan` of control_plane/configuration/service.py from the commit on.
use ai_agent_desktop.Base.{
  ℕ, String, true, false, Option, none, some, ◌≡◌, ◌⊎◌, inl, inr, arith, ap, sym, subst, ◌∙◌,
}
use ai_agent_desktop.Base.Dict.{lookup}
use ai_agent_desktop.Configuration.Records.{
  Bytes, ManagedConfiguration, ConfigurationPlan, ConfigurationCommit, PlanRecord,
}
use ai_agent_desktop.Configuration.Template.{Codec, render_managed_toml}
use ai_agent_desktop.Configuration.Disk.{
  Exception, sql_error, Platform, World, Attempt, ok, raised, Attempt-cases, Action, attempt, pure,
}
use ai_agent_desktop.Configuration.Atomic.{Excuse}
use ai_agent_desktop.Configuration.Store.{restore_commit}
use ai_agent_desktop.Configuration.Commit.{commit, configuration_digest}
use ai_agent_desktop.Configuration.Committed.{Committed, commit-Committed}
use ai_agent_desktop.Configuration.Kept.{tables-commit}
use ai_agent_desktop.Configuration.History.{session, record_rows, duplicate_error}
use ai_agent_desktop.Configuration.Service.{Services}
use ai_agent_desktop.Configuration.Execute.{complete_operation, apply_plan, handle_failure}
use ai_agent_desktop.Configuration.Sessions.{Same, RecordEnd, digest_at, session-RecordEnd}
use ai_agent_desktop.Configuration.Handled.{IsStuck, Restored, complete_operation-Same}
use ai_agent_desktop.Configuration.Applied.{
  IsNoResult, handle_none, handle_sql, handle_configuration, complete_operation-raises,
}

pub attempt-ok :
    {A B : Type 0} (m : Action A) (handler : Exception → Action B) (next : A → Action B) (w : World)
    (a : A)
    → (m w).0 ≡ ok a
    → attempt m handler next w ≡ next a (m w).1
attempt-ok m handler next w a h = rw (h, attempt)

attempt-raised :
    {A B : Type 0} (m : Action A) (handler : Exception → Action B) (next : A → Action B) (w : World)
    (e : Exception)
    → (m w).0 ≡ raised e
    → attempt m handler next w ≡ handler e (m w).1
attempt-raised m handler next w e h = rw (h, attempt)

-- What holds of an attempt, by how it ends.
attempt_cases :
    {A B : Type 0} (P : Attempt B × World → Type 0) (m : Action A) (handler : Exception → Action B)
    (next : A → Action B) (w : World)
    → ((e : Exception) → (m w).0 ≡ raised e → P (handler e (m w).1))
    → ((a : A) → (m w).0 ≡ ok a → P (next a (m w).1))
    → P (attempt m handler next w)
attempt_cases P m handler next w fails goes_on = elim (Attempt-cases (m w).0) [
  | inr (e, h) ↦ subst P (sym (attempt-raised m handler next w e h)) (fails e h)
  | inl (a, h) ↦ subst P (sym (attempt-ok m handler next w a h)) (goes_on a h)
]

module _ (codec : Codec) (sha256 : Bytes → String)
    (validator : Bytes → Attempt ManagedConfiguration) (backup_path : String → ℕ → String)
    (result_text : ConfigurationPlan → String → String) (p : Platform) (services : Services)
    (operation_id plan_id : String) where
  -- The commit of an execution, the session that records it, and the one that completes the operation.
  abbrev pub committing : PlanRecord → Option String → World → Attempt ConfigurationCommit × World
  committing row expected before =
      commit codec sha256 validator backup_path p row.target operation_id expected before

  abbrev pub recording :
      PlanRecord → Option String → World → ConfigurationCommit → Attempt (Unit {0}) × World
  recording row expected before done =
      session p (record_rows services.clock operation_id row.plan done)
        (committing row expected before).1

  abbrev pub completing :
      PlanRecord → Option String → World → ConfigurationCommit → Attempt (Unit {0}) × World
  completing row expected before done =
      complete_operation codec sha256 validator backup_path result_text p services operation_id
        (result_text row.plan done.digest) (recording row expected before done).1

  abbrev pub new_text : PlanRecord → Bytes
  new_text row = render_managed_toml codec row.target

  -- The end `w` has the file from before the execution, since restoring it in `start` returned, or
  -- the new one, since that failed.
  abbrev pub IsUndone : PlanRecord → World → ConfigurationCommit → World → World → Type 0
  IsUndone row before done start w =
      ((w.file ≡ before.file) × ((restore_commit p done start).0 ≡ ok tt))
      ⊎ ((w.file ≡ some (new_text row)) × IsStuck p done start)

  -- The commit raised: the history is as before, and so is the file, unless it is new because a
  -- restoring failed or the exception is one that the commit does not handle.
  abbrev pub IsUncommitted : PlanRecord → Option String → World → World → Type 0
  IsUncommitted row expected before w =
      (e : Exception) × ((committing row expected before).0 ≡ raised e)
      × (w.tables.revisions ≡ before.tables.revisions)
      × ((w.file ≡ before.file)
          ⊎ ((w.file ≡ some (new_text row))
              × Excuse p before.file e (committing row expected before).1))

  -- The commit returned and recording it raised: the history is as before.
  abbrev pub IsUnrecorded : PlanRecord → Option String → World → World → Type 0
  IsUnrecorded row expected before w =
      (done : ConfigurationCommit) × ((committing row expected before).0 ≡ ok done)
      × ((e : Exception) × ((recording row expected before done).0 ≡ raised e))
      × (w.tables.revisions ≡ before.tables.revisions)
      × IsUndone row before done (recording row expected before done).1 w

  -- The commit was recorded and completing the operation raised: the history has the new revision.
  abbrev pub IsUncompleted : PlanRecord → Option String → World → World → Type 0
  IsUncompleted row expected before w =
      (done : ConfigurationCommit) × ((committing row expected before).0 ≡ ok done)
      × ((recording row expected before done).0 ≡ ok tt)
      × ((completing row expected before done).0 ≡ raised sql_error)
      × (digest_at row.plan.target_revision w.tables.revisions
          ≡ some (configuration_digest sha256 (new_text row)))
      × IsUndone row before done (completing row expected before done).1 w

  -- The three steps returned.
  abbrev pub IsCompleted : PlanRecord → Option String → World → Type 0
  IsCompleted row expected before =
      (done : ConfigurationCommit) × ((committing row expected before).0 ≡ ok done)
      × ((recording row expected before done).0 ≡ ok tt)
      × ((completing row expected before done).0 ≡ ok tt)

  -- A plan that returns a result has its text in the file and its revision in the history. One that
  -- does not met an exception in the first of the three steps that raises.
  abbrev pub Executed :
      PlanRecord → Option String → World → Attempt (Option String) × World → Type 0
  Executed row expected before (ok (some result), w) =
      (w.file ≡ some (new_text row))
      × (digest_at row.plan.target_revision w.tables.revisions
          ≡ some (configuration_digest sha256 (new_text row)))
      × (result ≡ result_text row.plan (configuration_digest sha256 (new_text row)))
      × IsCompleted row expected before
  Executed row expected before (_, w) =
      IsUncommitted row expected before w
      ⊎ IsUnrecorded row expected before w
      ⊎ IsUncompleted row expected before w

  no_result :
      (row : PlanRecord) (expected : Option String) (before : World)
      (end : Attempt (Option String) × World)
      → IsNoResult end.0
      → IsUncommitted row expected before end.1
        ⊎ IsUnrecorded row expected before end.1
        ⊎ IsUncompleted row expected before end.1
      → Executed row expected before end
  no_result row expected before (ok none, w) n h = h
  no_result row expected before (raised e, w) n h = h
  no_result row expected before (ok (some result), w) n h = absurd n

  module _ (row row' : PlanRecord) (expected : Option String) (w : World)
      (known : lookup row.plan.plan_id w.tables.plans ≡ some row') where
    first :
        Committed codec sha256 validator backup_path p row.target expected w
          (committing row expected w)
    first = commit-Committed codec sha256 validator backup_path p row.target operation_id expected w

    kept : (committing row expected w).1.tables ≡ w.tables
    kept = tables-commit codec sha256 validator backup_path p row.target operation_id expected w

    commit_raised :
        (e : Exception)
        → (committing row expected w).0 ≡ raised e
        → Executed row expected w (
            handle_failure codec sha256 validator backup_path result_text p services operation_id
              plan_id none false e
              (committing row expected w).1)
    commit_raised e h =
        let end =
          handle_failure codec sha256 validator backup_path result_text p services operation_id
            plan_id none false e (committing row expected w).1 in
        let (n, same) =
          handle_none codec sha256 validator backup_path result_text p services operation_id plan_id
            e (committing row expected w).1 in
        no_result row expected w end n
          (inl (e, h, ground (arith, kept, same), ground (arith, h, first, same)))

    module _ (done : ConfigurationCommit) (h : (committing row expected w).0 ≡ ok done) where
      second : RecordEnd row.plan done (committing row expected w).1 (recording row expected w done)
      second =
          session-RecordEnd p services.clock operation_id row.plan done
            (committing row expected w).1 row' (ground (arith, kept))

      record_raised :
          (e : Exception)
          → (recording row expected w done).0 ≡ raised e
          → Executed row expected w (
              handle_failure codec sha256 validator backup_path result_text p services operation_id
                plan_id
                (some done)
                false
                e
                (recording row expected w done).1)
      record_raised e h' =
          let start = (recording row expected w done).1 in
          let end =
            handle_failure codec sha256 validator backup_path result_text p services operation_id
              plan_id (some done) false e start in
          let (n, restored) : IsNoResult end.0 × Restored p done start end = ground (
            arith,
            h',
            second,
            handle_sql codec sha256 validator backup_path result_text p services operation_id
                plan_id done false start,
            handle_configuration codec sha256 validator backup_path result_text p services
                operation_id plan_id done duplicate_error start,
          ) in
          no_result row expected w end n (
            inr (
              inl (
                done,
                h,
                (e, h'),
                ground (arith, h', second, kept, restored),
                ground (arith, h, h', first, second, restored),
              )))

      module _ (u : Unit {0}) (h' : (recording row expected w done).0 ≡ ok u) where
        third : Same (recording row expected w done).1 (completing row expected w done)
        third =
            complete_operation-Same codec sha256 validator backup_path result_text p services
              operation_id (result_text row.plan done.digest) (recording row expected w done).1

        complete_raised :
            (e : Exception)
            → (completing row expected w done).0 ≡ raised e
            → Executed row expected w (
                handle_failure codec sha256 validator backup_path result_text p services
                  operation_id plan_id
                  (some done)
                  true
                  e
                  (completing row expected w done).1)
        complete_raised e h'' =
            let start = (completing row expected w done).1 in
            let end =
              handle_failure codec sha256 validator backup_path result_text p services operation_id
                plan_id (some done) true e start in
            let cause =
              complete_operation-raises codec sha256 validator backup_path result_text p services
                operation_id plan_id (result_text row.plan done.digest)
                (recording row expected w done).1 e h'' in
            let (n, restored) : IsNoResult end.0 × Restored p done start end = ground (
              arith,
              cause,
              handle_sql codec sha256 validator backup_path result_text p services operation_id
                  plan_id done true start,
            ) in
            no_result row expected w end n (
              inr (
                inr (
                  done,
                  h,
                  h',
                  h'' ∙ ap raised cause,
                  ground (arith, h, h', first, second, third, restored),
                  ground (arith, h, h', first, second, third, restored),
                )))

        returned-Executed :
            (v : Unit {0})
            → (completing row expected w done).0 ≡ ok v
            → Executed row expected w
                (ok (some (result_text row.plan done.digest)), (completing row expected w done).1)
        returned-Executed v h'' = (
          ground (arith, h, h', first, second, third),
          ground (arith, h, h', first, second, third),
          ground (arith, h, first),
          (done, h, h', h''),
        )

  pub apply_plan-Executed :
      (row row' : PlanRecord) (expected : Option String) (w : World)
      → lookup row.plan.plan_id w.tables.plans ≡ some row'
      → Executed row expected w (
          apply_plan codec sha256 validator backup_path result_text p services operation_id plan_id
            row expected w)
  unfolding apply_plan
  apply_plan-Executed row row' expected w known =
      let P : Attempt (Option String) × World → Type 0 = λ end. Executed row expected w end in
      let handle =
        handle_failure codec sha256 validator backup_path result_text p services operation_id
          plan_id in
      let result : ConfigurationCommit → String = λ done. result_text row.plan done.digest in
      let complete : ConfigurationCommit → Action (Unit {0}) = λ done.
        complete_operation codec sha256 validator backup_path result_text p services operation_id
          (result done) in
      let record_it : ConfigurationCommit → Action (Unit {0}) =
        λ done. session p (record_rows services.clock operation_id row.plan done) in
      let answer : ConfigurationCommit → Unit {0} → Action (Option String) =
        λ done v. pure (some (result done)) in
      let last : ConfigurationCommit → Unit {0} → Action (Option String) =
        λ done u. attempt (complete done) (handle (some done) true) (answer done) in
      attempt_cases P (commit codec sha256 validator backup_path p row.target operation_id expected)
        (handle none false)
        (λ done. attempt (record_it done) (handle (some done) false) (last done)) w
        (commit_raised row row' expected w known)
        λ done h.
          attempt_cases P (record_it done) (handle (some done) false) (last done)
            (committing row expected w).1 (record_raised row row' expected w known done h)
            λ u h'.
              attempt_cases P (complete done) (handle (some done) true) (answer done)
                (recording row expected w done).1
                (complete_raised row row' expected w known done h u h')
                (returned-Executed row row' expected w known done h u h')

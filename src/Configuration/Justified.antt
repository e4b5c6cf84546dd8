-- ===== src/Configuration/Justified.antt =====
-- What a recovery of control_plane/configuration/service.py rests on.
use ai_agent_desktop.Base.{
  ℕ, suc, String, Bool, true, false, Option, some, ◌≡◌, refl, inl, inr, arith, opt_str_eq,
  Option-cases, Bool-cases, subst,
}
use ai_agent_desktop.Base.Dict.{lookup}
use ai_agent_desktop.Operations.Executor.{RecoveryDecision, RecoveryAction}
use ai_agent_desktop.Operations.Recovery.{failing}
use ai_agent_desktop.Configuration.Records.{
  Bytes, ManagedConfiguration, PlanRecord, RevisionRecord, Tables,
}
use ai_agent_desktop.Configuration.Template.{Codec}
use ai_agent_desktop.Configuration.Disk.{
  Platform, World, Attempt, ok, raised, Attempt-cases, bind_from,
}
use ai_agent_desktop.Configuration.Commit.{digest, optional_digest}
use ai_agent_desktop.Configuration.Store.{read_bytes, assert_safe, ask_layout}
use ai_agent_desktop.Configuration.History.{session, end_session, find_revision}
use ai_agent_desktop.Configuration.Service.{Services, is_confirmed, validate_plan_context}
use ai_agent_desktop.Configuration.Recover.{
  probed_rows, mark_applied, probe_unproven, probe_revision, probe_rows, recovery_probe,
  failing_with,
}
use ai_agent_desktop.Configuration.Sessions.{Same, session-Same}
use ai_agent_desktop.Configuration.Preflight.{Holds-validate_plan_context}

module _ (codec : Codec) (sha256 : Bytes → String)
    (validator : Bytes → Attempt ManagedConfiguration) (backup_path : String → ℕ → String)
    (recovered_text : ℕ → String → String) (p : Platform) (services : Services) where
  -- The file has the digest that the history has for the revision of the plan.
  pub record IsProven (plan_id : String) (w : World) : Type 0 where
    pub row : PlanRecord
    pub revision : RevisionRecord
    pub planned : lookup plan_id w.tables.plans ≡ some row
    pub recorded : find_revision row.target_revision w.tables.revisions ≡ some revision
    pub agrees :
        opt_str_eq (optional_digest sha256 w.file) (some revision.configuration_digest) ≡ true

  -- The plan is confirmed, and its context was found valid.
  pub record IsResumable (plan_id : String) (w : World) : Type 0 where
    pub row : PlanRecord
    pub planned : lookup plan_id w.tables.plans ≡ some row
    pub waiting : is_confirmed row.status ≡ true
    pub start : World
    pub unchanged : Same w (tt, start)
    pub valid :
        (validate_plan_context codec sha256 validator backup_path p services row.plan start).0
        ≡ ok tt

  abbrev pub Grounds : String → World → RecoveryAction → Type 0
  Grounds plan_id w RecoveryAction.complete = IsProven plan_id w
  Grounds plan_id w RecoveryAction.requeue = IsResumable plan_id w
  Grounds plan_id w RecoveryAction.fail = Unit

  abbrev pub Justified : String → World → Attempt RecoveryDecision × World → Type 0
  Justified plan_id before (ok decision, w) =
      Same before (tt, w) × Grounds plan_id before decision.action
  Justified plan_id before (raised e, w) = Same before (tt, w)

  module _ (plan_id : String) (w : World) (row : PlanRecord)
      (planned : lookup plan_id w.tables.plans ≡ some row) where
    unproven-Justified :
        (start : World)
        → Same w (tt, start)
        → Justified plan_id w
            (probe_unproven codec sha256 validator backup_path recovered_text p services row start)
    unfolding probe_unproven failing failing_with
    unproven-Justified start same =
        let check =
          validate_plan_context codec sha256 validator backup_path p services row.plan start in
        let kept =
          (Holds-validate_plan_context codec sha256 validator backup_path p services row.plan).at
            start in
        elim (Bool-cases (is_confirmed row.status)) [
          | inr no_wait ↦ ground (arith, no_wait, same)
          | inl waiting ↦ elim (Attempt-cases check.0) [
            | inl (u, h) ↦
                let grounds : IsResumable plan_id w = record {
                  row = row;
                  planned = planned;
                  waiting = waiting;
                  start = start;
                  unchanged = same;
                  valid = h;
                } in
                ground (arith, waiting, h, same, kept, grounds)
            | inr (e, h) ↦ ground (arith, waiting, h, same, kept)
          ]
        ]

  abbrev Digested : World → Attempt (Option String) × World → Type 0
  Digested before (ok found, w) = Same before (tt, w) × (found ≡ optional_digest sha256 before.file)
  Digested before (raised e, w) = Same before (tt, w)

  digest-Digested : (w : World) → Digested w (digest codec sha256 validator backup_path p w)
  unfolding digest read_bytes assert_safe ask_layout
  digest-Digested w = ground arith

  revisions-mark_applied :
      (plan_id : String) (t : Tables)
      → (mark_applied services.clock plan_id t).1.revisions ≡ t.revisions
  unfolding mark_applied
  revisions-mark_applied plan_id t = ground arith

  module _ (plan_id : String) (w : World) (row : PlanRecord) (revision : RevisionRecord)
      (planned : lookup plan_id w.tables.plans ≡ some row)
      (recorded : find_revision row.target_revision w.tables.revisions ≡ some revision) where
    revision-Justified :
        (found : Option String) (start : World)
        → Same w (tt, start)
        → found ≡ optional_digest sha256 w.file
        → Justified plan_id w (
            probe_revision codec sha256 validator backup_path recovered_text p services plan_id row
              revision found start)
    unfolding probe_revision
    revision-Justified found start same read =
        let marked = session p (mark_applied services.clock plan_id) start in
        let kept =
          session-Same p (mark_applied services.clock plan_id) start
            (revisions-mark_applied plan_id start.tables) in
        elim (Bool-cases (opt_str_eq found (some revision.configuration_digest))) [
          | inl agrees ↦
              let grounds : IsProven plan_id w = record {
                row = row;
                revision = revision;
                planned = planned;
                recorded = recorded;
                agrees =
                    subst (λ d. opt_str_eq d (some revision.configuration_digest) ≡ true) read
                      agrees;
              } in
              elim (Attempt-cases marked.0) [
                | inl (u, h) ↦ ground (arith, agrees, h, same, kept, grounds)
                | inr (e, h) ↦ ground (arith, agrees, h, same, kept)
              ]
          | inr differs ↦
              ground (arith, differs, unproven-Justified plan_id w row planned start same)
        ]

  rows-Justified :
      (plan_id : String) (w start : World)
      → Same w (tt, start)
      → Justified plan_id w (
          probe_rows codec sha256 validator backup_path recovered_text p services plan_id
            (probed_rows plan_id w.tables)
            start)
  unfolding probe_rows probed_rows failing
  rows-Justified plan_id w start same = elim (Option-cases (lookup plan_id w.tables.plans)) [
    | inl missing ↦ ground (arith, missing, same)
    | inr (row, planned) ↦
        elim (Option-cases (find_revision row.target_revision w.tables.revisions)) [
          | inl missing ↦
              ground (arith, planned, missing, unproven-Justified plan_id w row planned start same)
          | inr (revision, recorded) ↦
              let reading = digest codec sha256 validator backup_path p start in
              let read = digest-Digested start in
              elim (Attempt-cases reading.0) [
                | inr (e, h) ↦ ground (arith, planned, recorded, h, read, same)
                | inl (found, h) ↦ ground (
                  arith,
                  planned,
                  recorded,
                  h,
                  read,
                  same,
                  revision-Justified plan_id w row revision planned recorded found reading.1,
                )
              ]
        ]
  ]

  -- By whether the first session commits.
  probe_from :
      (plan_id : String) (w : World) (commits : Bool)
      → Justified plan_id w (
          bind_from
            (probe_rows codec sha256 validator backup_path recovered_text p services plan_id)
            (end_session commits w (ok (probed_rows plan_id w.tables), w.tables)))
  unfolding end_session
  probe_from plan_id w true =
      rows-Justified plan_id w (record w { calls = suc w.calls }) (refl, refl)
  probe_from plan_id w false = (refl, refl)

  -- Whatever the recovery of an interrupted execution finds, the file and the history stay. It
  -- completes the operation only if the file has the digest that the history has for the revision
  -- of the plan, and puts it back into the queue only if the plan is confirmed and its context valid.
  pub recovery_probe-Justified :
      (plan_id : String) (w : World)
      → Justified plan_id w
          (recovery_probe codec sha256 validator backup_path recovered_text p services plan_id w)
  unfolding recovery_probe session
  recovery_probe-Justified plan_id w = probe_from plan_id w (p.commits w.calls)

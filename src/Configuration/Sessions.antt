-- ===== src/Configuration/Sessions.antt =====
-- What the sessions of control_plane/configuration/service.py leave alone, and what `_record_commit`
-- leaves in the history.
use mathlib.Core.List
use mathlib.Core.Option
use ai_agent_desktop.Base.{
  ℕ, String, Option, none, some, List, [], ◌∷◌, ◌≡◌, refl, ◌⊎◌, inl, inr, arith, eq_iff,
  Option-cases,
}
use ai_agent_desktop.Base.Dict.{lookup}
use ai_agent_desktop.Configuration.Records.{
  ConfigurationPlan, PlanRecord, RevisionRecord, Tables, ConfigurationCommit,
}
use ai_agent_desktop.Configuration.Disk.{sql_error, Platform, World, Attempt, ok, raised}
use ai_agent_desktop.Configuration.History.{
  session, find_revision, supersede, new_revision, record_rows, revision_row, duplicate_conflict,
}

-- Neither the file nor the history changes.
abbrev pub Same : {A : Type 0} → World → A × World → Type 0
Same before (_, w) = (w.file ≡ before.file) × (w.tables.revisions ≡ before.tables.revisions)

pub session-Same :
    {A : Type 0} (p : Platform) (body : Tables → Attempt A × Tables) (w : World)
    → (body w.tables).1.revisions ≡ w.tables.revisions
    → Same w (session p body w)
unfolding session
session-Same p body w h = ground arith

pub find_revision-supersede :
    (n m : ℕ) (revisions : List RevisionRecord)
    → find_revision n revisions ≡ none
    → find_revision n (supersede m revisions) ≡ none
unfolding find_revision supersede
find_revision-supersede n m [] h = refl
find_revision-supersede n m (r ∷ rest) h = ground (arith, find_revision-supersede n m rest)

pub find_revision-append :
    (n : ℕ) (r : RevisionRecord) (revisions : List RevisionRecord)
    → find_revision n revisions ≡ none
    → r.revision ≡ n
    → find_revision n (List.◌++◌ revisions (r ∷ [])) ≡ some r
unfolding find_revision
find_revision-append n r [] h e = ground arith
find_revision-append n r (q ∷ rest) h e = ground (arith, find_revision-append n r rest)

-- The digest of a revision in the history.
abbrev pub digest_at : ℕ → List RevisionRecord → Option String
digest_at n revisions = Option.map (λ r. r.configuration_digest) (find_revision n revisions)

abbrev pub Recording :
    ConfigurationPlan → ConfigurationCommit → Tables → Attempt (Unit {0}) × Tables → Type 0
Recording plan done before (ok _, t) = digest_at plan.target_revision t.revisions ≡ some done.digest
Recording plan done before (raised e, t) = e ≡ duplicate_conflict

pub record_rows-Recording :
    (clock : ℕ → ℕ) (operation_id : String) (plan : ConfigurationPlan) (done : ConfigurationCommit)
    (t : Tables) (row : PlanRecord)
    → lookup plan.plan_id t.plans ≡ some row
    → Recording plan done t (record_rows clock operation_id plan done t)
unfolding record_rows new_revision revision_row
record_rows-Recording clock operation_id plan done t row h =
    let n = plan.target_revision in
    let kept = supersede plan.current_revision t.revisions in
    let added = revision_row (clock t.operations.ticks) plan done in
    elim (Option-cases (find_revision n t.revisions)) [
      | inl missing ↦ ground (
        arith,
        find_revision-append n added kept
            (find_revision-supersede n plan.current_revision t.revisions missing) refl,
      )
      | inr (existing, found) ↦ ground (arith, eq_iff existing.configuration_digest done.digest)
    ]

-- How the session of `_record_commit` ends.
abbrev pub RecordEnd :
    ConfigurationPlan → ConfigurationCommit → World → Attempt (Unit {0}) × World → Type 0
RecordEnd plan done before (ok _, w) =
    (w.file ≡ before.file) × (digest_at plan.target_revision w.tables.revisions ≡ some done.digest)
RecordEnd plan done before (raised e, w) =
    (w.file ≡ before.file)
    × (w.tables.revisions ≡ before.tables.revisions)
    × ((e ≡ duplicate_conflict) ⊎ (e ≡ sql_error))

pub session-RecordEnd :
    (p : Platform) (clock : ℕ → ℕ) (operation_id : String) (plan : ConfigurationPlan)
    (done : ConfigurationCommit) (w : World) (row : PlanRecord)
    → lookup plan.plan_id w.tables.plans ≡ some row
    → RecordEnd plan done w (session p (record_rows clock operation_id plan done) w)
unfolding session
session-RecordEnd p clock operation_id plan done w row h =
    ground (arith, record_rows-Recording clock operation_id plan done w.tables row h)

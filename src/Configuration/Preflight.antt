-- ===== src/Configuration/Preflight.antt =====
-- What precedes the commit in `execute_plan` of control_plane/configuration/service.py changes neither
-- the file nor the plans nor the history, and finds the row of the plan.
use ai_agent_desktop.Base.{
  ℕ, String, Bool, true, false, Option, none, some, ◌≡◌, refl, inl, inr, arith, leb, not, str_eq,
  ◌==◌,
}
use ai_agent_desktop.Base.Dict.{lookup}
use ai_agent_desktop.Configuration.Records.{
  Bytes, ManagedConfiguration, ConfigurationPlan, PlanRecord, RevisionRecord, Tables,
}
use ai_agent_desktop.Configuration.Template.{Codec}
use ai_agent_desktop.Configuration.Disk.{
  Platform, World, Attempt, ok, raised, Exception, Attempt-cases, Action, ◌>>=◌, raise_if, pure,
}
use ai_agent_desktop.Configuration.Store.{read_bytes, assert_safe, ask_layout}
use ai_agent_desktop.Configuration.Commit.{read}
use ai_agent_desktop.Configuration.History.{session, end_session, latest_revision}
use ai_agent_desktop.Configuration.Service.{
  Services, owners, current_of, checked_record, verified_current, context_digest, utcnow,
  validate_plan_context, load_execution_plan, loaded_row, check_digests, check_cancellation,
  confirmed_row,
}
use ai_agent_desktop.Configuration.Refusals.{
  plan_expired, revision_conflict, context_changed, operation_canceled,
}
use ai_agent_desktop.Operations.Executor.{cancellation_requested}

-- The file, the plans and the history are as before.
abbrev pub Held : {A : Type 0} → World → A × World → Type 0
Held before (_, w) =
    (w.file ≡ before.file)
    × (w.tables.revisions ≡ before.tables.revisions)
    × (w.tables.plans ≡ before.tables.plans)

-- The action changes none of these, whether it returns or raises.
pub record Holds {A : Type 0} (m : Action A) : Type 0 where
  pub at : (w : World) → Held w (m w)

pub Holds-bind :
    {A B : Type 0} (m : Action A) (f : A → Action B)
    → Holds m
    → ((a : A) → Holds (f a))
    → Holds (m >>= f)
Holds-bind m f h k = record {
  at = λ w. elim (Attempt-cases (m w).0) [
    | inr (e, q) ↦ ground (arith, h.at w, q)
    | inl (a, q) ↦ ground (arith, h.at w, q, (k a).at (m w).1)
  ];
}

pub Holds-pure : {A : Type 0} (a : A) → Holds (pure a)
Holds-pure a = record { at = λ w. (refl, refl, refl) }

pub Holds-raise_if : (b : Bool) (e : Exception) → Holds (raise_if b e)
Holds-raise_if b e = record { at = λ w. (refl, refl, refl) }

pub Holds-session :
    {A : Type 0} (p : Platform) (body : Tables → Attempt A × Tables)
    → ((t : Tables) → ((body t).1.revisions ≡ t.revisions) × ((body t).1.plans ≡ t.plans))
    → Holds (session p body)
unfolding session
Holds-session p body h = record { at = λ w. ground (arith, h w.tables) }

pub session-ok :
    {A : Type 0} (commits : Bool) (w : World) (r : Attempt A × Tables) (a : A)
    → (end_session commits w r).0 ≡ ok a
    → r.0 ≡ ok a
unfolding end_session
session-ok commits w (raised e, t) a h = absurd (cc)
session-ok true w (ok x, t) a h = h
session-ok false w (ok x, t) a h = absurd (cc)

pub Holds-read_bytes : (p : Platform) → Holds (read_bytes p)
unfolding read_bytes assert_safe ask_layout
Holds-read_bytes p = record { at = λ w. ground arith }

module _ (codec : Codec) (sha256 : Bytes → String)
    (validator : Bytes → Attempt ManagedConfiguration) (backup_path : String → ℕ → String)
    (p : Platform) (services : Services) where
  Holds-read : Holds (read codec sha256 validator backup_path p)
  unfolding read
  Holds-read = record { at = λ w. ground (arith, (Holds-read_bytes p).at w) }

  pub Holds-owners : Holds (owners codec sha256 validator backup_path p services)
  unfolding owners
  Holds-owners = record {
    at = λ w. ground (arith, (Holds-session p (λ t. (ok t.managed, t)) (λ t. (refl, refl))).at w);
  }

  pub Holds-current_of :
      (row : Option RevisionRecord) (raw : Option Bytes)
      → Holds (current_of codec sha256 validator backup_path p services row raw)
  unfolding current_of checked_record
  Holds-current_of none none = record { at = λ w. ground arith }
  Holds-current_of none (some raw) = record { at = λ w. ground arith }
  Holds-current_of (some row) none = record { at = λ w. ground arith }
  Holds-current_of (some row) (some raw) = record { at = λ w. ground (arith, Holds-read.at w) }

  pub Holds-latest_revision : Holds (session p (λ t. (ok (latest_revision t.revisions), t)))
  Holds-latest_revision = Holds-session p _ (λ t. (refl, refl))

  pub Holds-verified_current :
      Holds (verified_current codec sha256 validator backup_path p services)
  unfolding verified_current
  Holds-verified_current =
      Holds-bind _ _ Holds-latest_revision
        λ row. Holds-bind (read_bytes p) _ (Holds-read_bytes p) λ raw. Holds-current_of row raw

  pub Holds-context_digest :
      (port revision : ℕ) (digest : Option String)
      → Holds (context_digest codec sha256 validator backup_path p services port revision digest)
  unfolding context_digest
  Holds-context_digest port revision digest = record { at = λ w. ground (arith, Holds-owners.at w) }

  pub Holds-utcnow : Holds (utcnow codec sha256 validator backup_path p services)
  unfolding utcnow
  Holds-utcnow = record { at = λ w. (refl, refl, refl) }

  pub Holds-validate_plan_context :
      (plan : ConfigurationPlan)
      → Holds (validate_plan_context codec sha256 validator backup_path p services plan)
  unfolding validate_plan_context
  Holds-validate_plan_context plan = Holds-bind _ _ Holds-utcnow λ now.
      Holds-bind (raise_if (leb plan.expires_at now) plan_expired) _ (Holds-raise_if _ _) λ _.
        Holds-bind _ _ Holds-verified_current λ current.
          Holds-bind (raise_if (not (current.0 == plan.current_revision)) revision_conflict) _
            (Holds-raise_if _ _)
            λ _.
              Holds-bind _ _ (Holds-context_digest plan.port current.0 current.1)
                λ found. Holds-raise_if (not (str_eq found plan.context_digest)) context_changed

  pub Holds-check_cancellation :
      (operation_id : String)
      → Holds (check_cancellation codec sha256 validator backup_path p services operation_id)
  unfolding check_cancellation
  Holds-check_cancellation operation_id =
      Holds-bind _ _
        (Holds-session p (λ t. (ok (cancellation_requested operation_id t.operations), t))
          (λ t. (refl, refl)))
        λ canceled. Holds-raise_if canceled operation_canceled

  load_session :
      (plan_id : String) (row : Option PlanRecord) (t : Tables) (row' : PlanRecord)
      → (confirmed_row codec sha256 validator backup_path p services row t).0 ≡ ok row'
      → row ≡ some row'
  unfolding confirmed_row
  load_session plan_id none t row' h = ground (arith, h)
  load_session plan_id (some row) t row' h = ground (arith, h)

  confirmed_row-kept :
      (row : Option PlanRecord) (t : Tables)
      → let end = confirmed_row codec sha256 validator backup_path p services row t in
        (end.1.revisions ≡ t.revisions) × (end.1.plans ≡ t.plans)
  unfolding confirmed_row
  confirmed_row-kept none t = (refl, refl)
  confirmed_row-kept (some row) t = (refl, refl)

  Holds-loaded_row :
      (plan_id : String) → Holds (loaded_row codec sha256 validator backup_path p services plan_id)
  unfolding loaded_row
  Holds-loaded_row plan_id = Holds-session p _ (λ t. confirmed_row-kept (lookup plan_id t.plans) t)

  loaded_row-ok :
      (plan_id : String) (w : World) (row : PlanRecord)
      → (loaded_row codec sha256 validator backup_path p services plan_id w).0 ≡ ok row
      → lookup plan_id w.tables.plans ≡ some row
  unfolding loaded_row session
  loaded_row-ok plan_id w row h =
      load_session plan_id (lookup plan_id w.tables.plans) w.tables row (
        session-ok (p.commits w.calls) w
          (confirmed_row codec sha256 validator backup_path p services
            (lookup plan_id w.tables.plans) w.tables)
          row h)

  Holds-check_digests :
      (row : PlanRecord) → Holds (check_digests codec sha256 validator backup_path p services row)
  unfolding check_digests
  Holds-check_digests row = record { at = λ w. ground arith }

  check_digests-ok :
      (row row' : PlanRecord) (w : World)
      → (check_digests codec sha256 validator backup_path p services row w).0 ≡ ok row'
      → row ≡ row'
  unfolding check_digests
  check_digests-ok row row' w h = ground (arith, h)

  pub Holds-load_execution_plan :
      (plan_id : String)
      → Holds (load_execution_plan codec sha256 validator backup_path p services plan_id)
  unfolding load_execution_plan
  Holds-load_execution_plan plan_id =
      Holds-bind _ _ (Holds-loaded_row plan_id) λ row. Holds-check_digests row

  pub load_execution_plan-ok :
      (plan_id : String) (w : World) (row : PlanRecord)
      → (load_execution_plan codec sha256 validator backup_path p services plan_id w).0 ≡ ok row
      → lookup plan_id w.tables.plans ≡ some row
  unfolding load_execution_plan
  load_execution_plan-ok plan_id w row h =
      let loaded = loaded_row codec sha256 validator backup_path p services plan_id w in
      elim (Attempt-cases loaded.0) [
        | inr (e, q) ↦ absurd (ground (arith, h, q))
        | inl (row', q) ↦
            ground (arith, h, q, loaded_row-ok plan_id w row' q, check_digests-ok row' row loaded.1)
      ]

-- ===== src/Configuration/Planned.antt =====
-- What `create_plan` of control_plane/configuration/service.py leaves behind.
use ai_agent_desktop.Base.{
  ℕ, suc, ◌+◌, String, Bool, true, false, not, Option, none, some, ◌≡◌, refl, arith, eq_refl, subst,
}
use ai_agent_desktop.Base.Dict.{lookup, insert, lookup-insert_self}
use ai_agent_desktop.Configuration.Records.{
  Bytes, ManagementOwner, ManagedConfiguration, ConfigurationPlan, PlanRecord,
}
use ai_agent_desktop.Configuration.Template.{Codec, build_minimal_configuration}
use ai_agent_desktop.Configuration.Disk.{Platform, World, Attempt, ok, raise_if}
use ai_agent_desktop.Configuration.Commit.{optional_digest}
use ai_agent_desktop.Configuration.History.{session, end_session}
use ai_agent_desktop.Configuration.Service.{Services, check_digests, context_digest, Current}
use ai_agent_desktop.Configuration.Confirm.{awaits_confirmation}
use ai_agent_desktop.Configuration.Planning.{
  PlanRequest, chosen_port, sealed_row, create_plan, target_of, port_conflict,
}
use ai_agent_desktop.Configuration.Preflight.{
  Held, Holds-raise_if, Holds-context_digest, Holds-utcnow,
}
use ai_agent_desktop.Configuration.Admitted.{
  Holds-port_is_free, Holds-rolled_back_to, Holds-chosen_port, Holds-admitted, admitted-Ends,
  IsAdmitted,
}
use ai_agent_desktop.Configuration.Current.{Ending, Ends, Ends-bind, Ends-after, Ends-Found, newest}

module _ (codec : Codec) (sha256 : Bytes → String)
    (validator : Bytes → Attempt ManagedConfiguration) (backup_path : String → ℕ → String)
    (p : Platform) (services : Services) where
  -- The plan is what was asked for, for the revision after the newest of the history `before`, and its
  -- context was computed from the history and the file `before`. Its row waits for a confirmation, has
  -- the target of the plan, and its digests pass the check of an execution.
  pub record IsFiled (plan_id : String) (q : PlanRequest) (before : World)
      (plan : ConfigurationPlan) (w : World) : Type 0 where
    pub identifier : plan.plan_id ≡ plan_id
    pub current : plan.current_revision ≡ newest before.tables.revisions
    pub next : plan.target_revision ≡ suc plan.current_revision
    pub asked : (port : ℕ) → q.listen_port ≡ some port → plan.port ≡ port
    pub rollback : plan.rollback_to_revision ≡ q.rollback_to_revision
    pub expiry : plan.expires_at ≡ plan.created_at + q.expires_in_seconds
    pub start : World
    pub held : Held before (tt, start)
    pub context :
        (context_digest codec sha256 validator backup_path p services plan.port
          plan.current_revision
          (optional_digest sha256 before.file)
          start).0
        ≡ ok plan.context_digest
    pub row : PlanRecord
    pub planned : lookup plan_id w.tables.plans ≡ some row
    pub of_plan : row.plan ≡ plan
    pub row_target : row.target_revision ≡ plan.target_revision
    pub target_revision : row.target.configuration_revision ≡ plan.target_revision
    pub target_port : row.target.listen_port ≡ plan.port
    pub target_artifact : row.target.artifact_id ≡ plan.artifact_id
    pub waiting : awaits_confirmation row.status ≡ true
    pub genuine : (check_digests codec sha256 validator backup_path p services row w).0 ≡ ok row

  -- A plan is filed, and the file and the history are as before; or an exception is raised, and the
  -- file, the history and the plans are.
  abbrev pub FiledIn : String → PlanRequest → World → ConfigurationPlan → World → Type 0
  FiledIn plan_id q before plan w =
      (w.file ≡ before.file)
      × (w.tables.revisions ≡ before.tables.revisions)
      × IsFiled plan_id q before plan w

  abbrev pub Filed : String → PlanRequest → World → Attempt ConfigurationPlan × World → Type 0
  Filed plan_id q before = Ending (FiledIn plan_id q before) before

  module _ (external : ℕ → Bool) (resolve : String → String) (product_instance_id : String) where
    sealed-genuine :
        (plan : ConfigurationPlan) (target : ManagedConfiguration) (w : World)
        → let row =
            sealed_row codec sha256 validator backup_path p services external resolve
              product_instance_id plan target in
          (check_digests codec sha256 validator backup_path p services row w).0 ≡ ok row
    unfolding check_digests sealed_row
    sealed-genuine plan target w = simp (eq_refl)

    -- By whether the session that adds the row commits.
    added-Filed :
        (plan_id : String) (q : PlanRequest) (before w : World) (row : PlanRecord) (commits : Bool)
        → Held before (tt, w)
        → ((w' : World)
            → lookup plan_id w'.tables.plans ≡ some row
            → IsFiled plan_id q before row.plan w')
        → Filed plan_id q before (
            end_session commits w
              (ok row.plan, record w.tables { plans = insert plan_id row w.tables.plans }))
    unfolding end_session
    added-Filed plan_id q before w row true held filed =
        (held.0, held.1, filed _ (lookup-insert_self plan_id row w.tables.plans))
    added-Filed plan_id q before w row false held filed = held

    target_of-fields :
        (artifact : String) (port revision now : ℕ) (current rollback : Option ManagedConfiguration)
        → let target =
            target_of codec sha256 validator backup_path p services external resolve
              product_instance_id artifact port revision now current rollback in
          (target.configuration_revision ≡ revision)
          × (target.listen_port ≡ port)
          × (target.artifact_id ≡ artifact)
    unfolding target_of build_minimal_configuration
    target_of-fields artifact port revision now current none = (refl, refl, refl)
    target_of-fields artifact port revision now current (some rollback) = (refl, refl, refl)

    chosen_port-asked :
        (asked : Option ℕ) (rollback current : Option ManagedConfiguration) (w : World) (port : ℕ)
        → (chosen_port codec sha256 validator backup_path p services external resolve
            product_instance_id asked rollback current w).0
          ≡ ok port
        → (wanted : ℕ) → asked ≡ some wanted
        → port ≡ wanted
    unfolding chosen_port
    chosen_port-asked none rollback current w port h wanted e = absurd (cc)
    chosen_port-asked (some p') rollback current w port h wanted e = ground (arith, h, e)

    -- The context digest of a world with this file and history.
    abbrev IsContext : World → ℕ → Current → String → Type 0
    IsContext before port current context =
        (start : World) × Held before (tt, start)
        × ((context_digest codec sha256 validator backup_path p services port current.0 current.1
              start).0
            ≡ ok context)

    -- The target and the row of a plan.
    abbrev target_for :
        PlanRequest
        → String × ManagementOwner × Current
        → Option ManagedConfiguration
        → ℕ
        → ℕ
        → ManagedConfiguration
    target_for q found rollback port now =
        target_of codec sha256 validator backup_path p services external resolve product_instance_id
          found.0 port (found.2.0 + 1) now found.2.2 rollback

    abbrev row_for :
        String
        → PlanRequest
        → String × ManagementOwner × Current
        → Option ManagedConfiguration
        → ℕ
        → ℕ
        → String
        → PlanRecord
    row_for plan_id q found rollback port now context =
        let target = target_for q found rollback port now in
        sealed_row codec sha256 validator backup_path p services external resolve
          product_instance_id
          (record {
            plan_id = plan_id;
            plan_digest = "";
            context_digest = context;
            artifact_id = found.0;
            current_revision = found.2.0;
            target_revision = found.2.0 + 1;
            current_owner = found.1;
            port = port;
            secret_refs = target.secret_refs;
            rollback_to_revision = q.rollback_to_revision;
            created_at = now;
            expires_at = now + q.expires_in_seconds;
          })
          target

    row_for-Filed :
        (plan_id : String) (q : PlanRequest) (before w : World)
        (found : String × ManagementOwner × Current) (rollback : Option ManagedConfiguration)
        (port now : ℕ) (context : String)
        → Held before (tt, w)
        → IsAdmitted codec sha256 validator backup_path p services external resolve
            product_instance_id before found
        → ((wanted : ℕ) → q.listen_port ≡ some wanted → port ≡ wanted)
        → (start : World) → Held before (tt, start)
        → (context_digest codec sha256 validator backup_path p services port found.2.0 found.2.1
            start).0
          ≡ ok context
        → let row = row_for plan_id q found rollback port now context in
          Filed plan_id q before
            (session p (λ t. (ok row.plan, record t { plans = insert plan_id row t.plans })) w)
    unfolding sealed_row awaits_confirmation session
    row_for-Filed plan_id q before w found rollback port now context held current asked start held'
          digested =
        let target = target_for q found rollback port now in
        let row = row_for plan_id q found rollback port now context in
        let fields = target_of-fields found.0 port (found.2.0 + 1) now found.2.2 rollback in
        added-Filed plan_id q before w row (p.commits w.calls) held λ w' planned. record {
          identifier = refl;
          current = current.0;
          next = omega arith;
          asked = asked;
          rollback = refl;
          expiry = refl;
          start = start;
          held = held';
          context =
              subst
                (λ d.
                  (context_digest codec sha256 validator backup_path p services port found.2.0 d
                    start).0
                  ≡ ok context)
                current.1 digested;
          row = row;
          planned = planned;
          of_plan = refl;
          row_target = refl;
          target_revision = fields.0;
          target_port = fields.1;
          target_artifact = fields.2;
          waiting = refl;
          genuine = sealed-genuine (record row.plan { plan_digest = "" }) target w';
        }

    create_plan-Ends :
        (plan_id : String) (q : PlanRequest) (before : World)
        → Ends (FiledIn plan_id q before) before (
            create_plan codec sha256 validator backup_path p services external resolve
              product_instance_id plan_id q)
    unfolding create_plan sealed_row awaits_confirmation session
    create_plan-Ends plan_id q before =
        Ends-bind
          (IsAdmitted codec sha256 validator backup_path p services external resolve
            product_instance_id before)
          _ _
          (Holds-admitted codec sha256 validator backup_path p services external resolve
            product_instance_id)
          (admitted-Ends codec sha256 validator backup_path p services external resolve
            product_instance_id before)
          λ found is_current.
            Ends-after _ _
              (Holds-rolled_back_to codec sha256 validator backup_path p services external resolve
                product_instance_id q.rollback_to_revision)
              λ rollback.
                Ends-bind (λ port. (wanted : ℕ) → q.listen_port ≡ some wanted → port ≡ wanted) _ _
                  (Holds-chosen_port codec sha256 validator backup_path p services external resolve
                    product_instance_id q.listen_port rollback found.2.2)
                  (Ends-Found _ before _
                    (Holds-chosen_port codec sha256 validator backup_path p services external
                      resolve product_instance_id q.listen_port rollback found.2.2)
                    λ w port held h. chosen_port-asked q.listen_port rollback found.2.2 w port h)
                  λ port asked.
                    Ends-after _ _
                      (Holds-port_is_free codec sha256 validator backup_path p services external
                        resolve product_instance_id port)
                      λ free.
                        Ends-after (raise_if (not free) port_conflict) _ (Holds-raise_if _ _) λ _.
                          Ends-after _ _
                            (Holds-utcnow codec sha256 validator backup_path p services)
                            λ now.
                              Ends-bind (IsContext before port found.2) _ _
                                (Holds-context_digest codec sha256 validator backup_path p services
                                  port found.2.0 found.2.1)
                                (Ends-Found _ before _
                                  (Holds-context_digest codec sha256 validator backup_path p
                                    services port found.2.0 found.2.1)
                                  λ w context held h. (w, held, h))
                                λ context (start, held', digested). record {
                                  at = λ w held.
                                      row_for-Filed plan_id q before w found rollback port now
                                        context held is_current asked start held' digested;
                                }

    -- `create_plan` either raises and leaves the file, the history and the plans as they were, or
    -- returns a plan and leaves the file and the history. The plan is for the revision after the
    -- newest of the history, has the port that was asked for, if any, the time of expiry and the
    -- revision to roll back to that were asked for, and its context is computed from its port, from
    -- the newest revision and from the digest of the file. The row under its identifier holds it with
    -- a target of its revision, port and artifact, waits for a confirmation, and passes the check of
    -- the digests that precedes an execution.
    pub create_plan-Filed :
        (plan_id : String) (q : PlanRequest) (w : World)
        → Filed plan_id q w (
            create_plan codec sha256 validator backup_path p services external resolve
              product_instance_id plan_id q w)
    create_plan-Filed plan_id q w = (create_plan-Ends plan_id q w).at w (refl, refl, refl)

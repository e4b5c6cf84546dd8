-- ===== src/Configuration/Executed.antt =====
-- The contract of `execute_plan` of control_plane/configuration/service.py.
use ai_agent_desktop.Base.{
  ℕ, String, Bool, true, false, Option, none, some, ◌≡◌, refl, ◌⊎◌, inl, inr, arith, sym, subst,
}
use ai_agent_desktop.Base.Dict.{lookup}
use ai_agent_desktop.Configuration.Records.{
  Bytes, ManagedConfiguration, ConfigurationPlan, PlanRecord,
}
use ai_agent_desktop.Configuration.Template.{Codec}
use ai_agent_desktop.Configuration.Disk.{
  Platform, World, Attempt, ok, raised, Exception, Attempt-cases,
}
use ai_agent_desktop.Configuration.Service.{Services, load_execution_plan}
use ai_agent_desktop.Configuration.Execute.{
  phase, checked_plan, preflight, apply_plan, execute_plan, handle_failure,
}
use ai_agent_desktop.Configuration.Sessions.{Same}
use ai_agent_desktop.Configuration.Applied.{IsNoResult, handle_none}
use ai_agent_desktop.Configuration.Outcome.{attempt-ok, Executed, apply_plan-Executed}
use ai_agent_desktop.Configuration.Preflight.{
  Holds, Holds-bind, Holds-pure, Holds-session, Holds-check_cancellation,
  Holds-validate_plan_context, Holds-verified_current, Holds-load_execution_plan,
  load_execution_plan-ok,
}

module _ (codec : Codec) (sha256 : Bytes → String)
    (validator : Bytes → Attempt ManagedConfiguration) (backup_path : String → ℕ → String)
    (result_text : ConfigurationPlan → String → String) (p : Platform) (services : Services)
    (operation_id plan_id : String) where
  Holds-phase :
      (name message : String) (final : Bool)
      → Holds (
          phase codec sha256 validator backup_path result_text p services operation_id name message
            final)
  unfolding phase
  Holds-phase name message final = Holds-session p _ (λ t. (refl, refl))

  Holds-checked_plan :
      (row : PlanRecord)
      → Holds
          (checked_plan codec sha256 validator backup_path result_text p services operation_id row)
  unfolding checked_plan
  Holds-checked_plan row =
      Holds-bind _ _
        (Holds-check_cancellation codec sha256 validator backup_path p services operation_id)
        λ _.
          Holds-bind _ _
            (Holds-validate_plan_context codec sha256 validator backup_path p services row.plan)
            λ _.
              Holds-bind _ _ (Holds-verified_current codec sha256 validator backup_path p services)
                λ current.
                  Holds-bind _ _
                    (Holds-phase "configuration_commit"
                      "Atomically replacing product-managed configuration" true)
                    λ _. Holds-pure (row, current.1)

  checked_plan-ok :
      (row : PlanRecord) (found : PlanRecord × Option String) (w : World)
      → (checked_plan codec sha256 validator backup_path result_text p services operation_id row
          w).0
        ≡ ok found
      → found.0 ≡ row
  unfolding checked_plan
  checked_plan-ok row found w h = ground (arith, h)

  Holds-preflight :
      Holds
        (preflight codec sha256 validator backup_path result_text p services operation_id plan_id)
  unfolding preflight
  Holds-preflight =
      Holds-bind _ _ (Holds-phase "configuration_preflight" "Revalidating confirmed plan" false)
        λ _.
          Holds-bind _ _
            (Holds-load_execution_plan codec sha256 validator backup_path p services plan_id)
            λ row. Holds-checked_plan row

  preflight-ok :
      (found : PlanRecord × Option String) (w : World)
      → (preflight codec sha256 validator backup_path result_text p services operation_id plan_id
          w).0
        ≡ ok found
      → lookup plan_id w.tables.plans ≡ some found.0
  unfolding preflight
  preflight-ok found w h =
      let started =
        phase codec sha256 validator backup_path result_text p services operation_id
          "configuration_preflight" "Revalidating confirmed plan" false w in
      let kept = (Holds-phase "configuration_preflight" "Revalidating confirmed plan" false).at w in
      let loaded =
        load_execution_plan codec sha256 validator backup_path p services plan_id started.1 in
      elim (Attempt-cases started.0) [
        | inr (e, q) ↦ absurd (ground (arith, h, q))
        | inl (u, q) ↦ elim (Attempt-cases loaded.0) [
          | inr (e, q') ↦ absurd (ground (arith, h, q, q'))
          | inl (row, q') ↦ ground (
            arith,
            h,
            q,
            q',
            kept,
            load_execution_plan-ok codec sha256 validator backup_path p services plan_id started.1
                row q',
            checked_plan-ok row found loaded.1,
          )
        ]
      ]

  -- The preflight returned the plan and left file and history, and what follows is `Executed`.
  pub record IsCarriedOut (before : World) (end : Attempt (Option String) × World) : Type 0 where
    pub row : PlanRecord
    pub expected : Option String
    pub start : World
    pub checked :
        preflight codec sha256 validator backup_path result_text p services operation_id plan_id
          before
        ≡ (ok (row, expected), start)
    pub planned : lookup plan_id before.tables.plans ≡ some row
    pub unchanged : Same before (tt, start)
    pub executed :
        Executed codec sha256 validator backup_path result_text p services operation_id plan_id row
          expected start end

  -- The preflight raised, there is no result, and the file and the history are as before.
  pub record IsRefused (before : World) (end : Attempt (Option String) × World) : Type 0 where
    pub exception : Exception
    pub refused :
        (preflight codec sha256 validator backup_path result_text p services operation_id plan_id
          before).0
        ≡ raised exception
    pub no_result : IsNoResult end.0
    pub unchanged : Same before end

  carried_out :
      (w : World) (found : PlanRecord × Option String)
      → ((row : PlanRecord) → lookup plan_id w.tables.plans ≡ some row → row.plan.plan_id ≡ plan_id)
      → (preflight codec sha256 validator backup_path result_text p services operation_id plan_id
          w).0
        ≡ ok found
      → let start =
          (preflight codec sha256 validator backup_path result_text p services operation_id plan_id
            w).1 in
        IsCarriedOut w (
          apply_plan codec sha256 validator backup_path result_text p services operation_id plan_id
            found.0 found.1 start)
  carried_out w found keyed h =
      let start =
        (preflight codec sha256 validator backup_path result_text p services operation_id plan_id
          w).1 in
      let kept = Holds-preflight.at w in
      let planned = preflight-ok found w h in
      let key = keyed found.0 planned in
      record {
        row = found.0;
        expected = found.1;
        start = start;
        checked = ground (arith, h);
        planned = planned;
        unchanged = (kept.0, kept.1);
        executed =
            apply_plan-Executed codec sha256 validator backup_path result_text p services
              operation_id plan_id found.0 found.0 found.1 start
              (ground (arith, kept, planned, key));
      }

  -- When each plan stands under its own identifier, an execution has one of these ends. Its
  -- preflight raises: there is no result, and the file and the history stay. The preflight returns,
  -- leaves both, and commit, recording and completing return: there is a result, the file has the
  -- text of the plan's configuration and the history its revision with the digest of that text. The
  -- commit raises: there is no result, the history stays, and the file too, unless a restoring failed
  -- or the exception is one that the commit does not handle. Recording or completing raises: there is
  -- no result, the history is as before in the first case and has the new revision in the second, and
  -- the file has the old bytes if restoring them from there returns and the new ones if that raises.
  pub execute_plan-Executed :
      (w : World)
      → ((row : PlanRecord) → lookup plan_id w.tables.plans ≡ some row → row.plan.plan_id ≡ plan_id)
      → let end =
          execute_plan codec sha256 validator backup_path result_text p services operation_id
            plan_id w in
        IsRefused w end ⊎ IsCarriedOut w end
  unfolding execute_plan
  execute_plan-Executed w keyed =
      let begun =
        preflight codec sha256 validator backup_path result_text p services operation_id plan_id
          w in
      let end =
        execute_plan codec sha256 validator backup_path result_text p services operation_id plan_id
          w in
      let kept = Holds-preflight.at w in
      elim (Attempt-cases begun.0) [
        | inr (e, h) ↦
            let (n, same) : IsNoResult end.0 × Same w end = ground (
              arith,
              kept,
              h,
              handle_none codec sha256 validator backup_path result_text p services operation_id
                  plan_id e begun.1,
            ) in
            inl (record { exception = e; refused = h; no_result = n; unchanged = same })
        | inl (found, h) ↦
            let step =
              attempt-ok
                (preflight codec sha256 validator backup_path result_text p services operation_id
                  plan_id)
                (handle_failure codec sha256 validator backup_path result_text p services
                  operation_id plan_id none false)
                (λ (found : PlanRecord × Option String).
                  apply_plan codec sha256 validator backup_path result_text p services operation_id
                    plan_id found.0 found.1)
                w found h in
            inr (subst (λ end. IsCarriedOut w end) (sym step) (carried_out w found keyed h))
      ]

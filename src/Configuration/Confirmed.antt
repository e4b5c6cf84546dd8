-- ===== src/Configuration/Confirmed.antt =====
-- A plan is confirmed once (control_plane/configuration/service.py).
use mathlib.Core.Option
use ai_agent_desktop.Base.{
  ℕ, String, Bool, true, false, not, Option, none, some, ◌≡◌, ◌⊎◌, inl, inr, arith, Option-cases,
}
use ai_agent_desktop.Base.Dict.{lookup, lookup-insert_self}
use ai_agent_desktop.Operations.Store.{Created}
use ai_agent_desktop.Configuration.Records.{Bytes, ManagedConfiguration, PlanRecord, Tables}
use ai_agent_desktop.Configuration.Template.{Codec}
use ai_agent_desktop.Configuration.Disk.{
  Platform, World, Attempt, ok, raised, ◌>>=◌, raise_if, Action, bind_from,
}
use ai_agent_desktop.Configuration.History.{session, end_session}
use ai_agent_desktop.Configuration.Service.{Services, validate_plan_context}
use ai_agent_desktop.Configuration.Confirm.{
  ConfirmationRequest, confirm_plan, confirm_row, confirm_rows, is_mismatch, awaits_confirmation,
  confirmed_plan, confirmation_mismatch, already_used,
}

-- Whether the row of the plan waits for its confirmation.
abbrev pub waits : String → Tables → Option Bool
waits plan_id t = Option.map (λ row. awaits_confirmation row.status) (lookup plan_id t.plans)

-- The session came from rows for which `P` holds, if it returned.
abbrev Ended : {A : Type 0} → (Tables → Type 0) → Attempt A × World → Type 0
Ended P (ok _, w) = P w.tables
Ended P (raised _, w) = Unit

end_session-Ended :
    {A : Type 0} (P : Tables → Type 0) (commits : Bool) (w : World) (r : Attempt A × Tables)
    → P r.1
    → Ended P (end_session commits w r)
unfolding end_session
end_session-Ended P commits w (raised e, t) h = tt
end_session-Ended P true w (ok a, t) h = h
end_session-Ended P false w (ok a, t) h = tt

record Ends {A : Type 0} (P : Tables → Type 0) (m : Action A) : Type 0 where
  pub at : (w : World) → Ended P (m w)

bind_end :
    {A B : Type 0} (P : Tables → Type 0) (f : A → Action B) (x : Attempt A × World)
    → ((a : A) → Ends P (f a))
    → Ended P (bind_from f x)
bind_end P f (ok a, w) k = (k a).at w
bind_end P f (raised e, w) k = tt

Ends-bind :
    {A B : Type 0} (P : Tables → Type 0) (m : Action A) (f : A → Action B)
    → ((a : A) → Ends P (f a))
    → Ends P (m >>= f)
Ends-bind P m f k = record { at = λ w. bind_end P f (m w) k }

module _ (codec : Codec) (sha256 : Bytes → String)
    (validator : Bytes → Attempt ManagedConfiguration) (backup_path : String → ℕ → String)
    (p : Platform) (services : Services) (body_digest : String → String) where
  waits-confirm_rows :
      (op_id key body plan_id : String) (row : PlanRecord) (t : Tables)
      → waits plan_id
          (confirm_rows codec sha256 validator backup_path p services body_digest op_id key body
            plan_id row t).1
        ≡ some false
  unfolding confirm_rows awaits_confirmation confirmed_plan
  waits-confirm_rows op_id key body plan_id row t = simp (lookup-insert_self)

  Ends-session :
      (op_id key body plan_id : String) (row : PlanRecord)
      → Ends
          (λ t. waits plan_id t ≡ some false)
          (session p (
            confirm_rows codec sha256 validator backup_path p services body_digest op_id key body
              plan_id row))
  unfolding session
  Ends-session op_id key body plan_id row = record {
    at = λ w.
        end_session-Ended (λ t. waits plan_id t ≡ some false) (p.commits w.calls) w
          (confirm_rows codec sha256 validator backup_path p services body_digest op_id key body
            plan_id row w.tables)
          (waits-confirm_rows op_id key body plan_id row w.tables);
  }

  Ends-confirm_row :
      (op_id key body : String) (q : ConfirmationRequest) (row : Option PlanRecord)
      → Ends
          (λ t. waits q.plan_id t ≡ some false)
          (confirm_row codec sha256 validator backup_path p services body_digest op_id key body q
            row)
  unfolding confirm_row
  Ends-confirm_row op_id key body q none = record { at = λ w. tt }
  Ends-confirm_row op_id key body q (some row) =
      let P : Tables → Type 0 = λ t. waits q.plan_id t ≡ some false in
      Ends-bind P (raise_if (is_mismatch row.plan q) confirmation_mismatch) _ λ _.
        Ends-bind P (raise_if (not (awaits_confirmation row.status)) already_used) _ λ _.
          Ends-bind P (validate_plan_context codec sha256 validator backup_path p services row.plan)
            _ λ _. Ends-session op_id key body q.plan_id row

  module _ (op_id key body : String) (q : ConfirmationRequest) (answer : Created) (w w' : World)
      (fresh : lookup key w.tables.operations.idempotency ≡ none)
      (done : confirm_plan codec sha256 validator backup_path p services body_digest op_id key body
          q w
        ≡ (ok answer, w')) where
    confirm_plan-waits : waits q.plan_id w'.tables ≡ some false
    unfolding confirm_plan
    confirm_plan-waits = ground (
      arith,
      fresh,
      done,
      (Ends-confirm_row op_id key body q (lookup q.plan_id w.tables.plans)).at w,
    )

    -- After a confirmation under a new key, the plan is confirmed no second time: another request
    -- for it under a new key raises and changes nothing.
    pub confirm_once :
        (op_id' key' body' : String) (q' : ConfirmationRequest)
        → q'.plan_id ≡ q.plan_id
        → lookup key' w'.tables.operations.idempotency ≡ none
        → let end =
            confirm_plan codec sha256 validator backup_path p services body_digest op_id' key' body'
              q' w' in
          ((end.0 ≡ raised confirmation_mismatch) ⊎ (end.0 ≡ raised already_used)) × (end.1 ≡ w')
    unfolding confirm_plan confirm_row
    confirm_once op_id' key' body' q' same fresh' =
        elim (Option-cases (lookup q.plan_id w'.tables.plans)) [
          | inl missing ↦ absurd (ground (arith, missing, confirm_plan-waits))
          | inr (row, found) ↦ ground (arith, same, fresh', found, confirm_plan-waits)
        ]

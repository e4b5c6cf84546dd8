-- ===== src/Configuration/Admitted.antt =====
-- What precedes a plan in `create_plan` of control_plane/configuration/service.py leaves the file, the
-- history and the plans, and finds the current revision.
use ai_agent_desktop.Base.{ℕ, String, Bool, not, Option, none, some, refl, arith}
use ai_agent_desktop.Errors
use ai_agent_desktop.Configuration.Records.{
  Bytes, ManagementOwner, ManagedConfiguration, RevisionRecord,
}
use ai_agent_desktop.Configuration.Template.{Codec}
use ai_agent_desktop.Configuration.Disk.{Platform, World, Attempt, ok, raise_if, ask, pure}
use ai_agent_desktop.Configuration.Service.{Services, ask_service, port_is_free, Current}
use ai_agent_desktop.Configuration.Planning.{
  is_managed_by_product, is_run_by_product, is_running, revision_payload, rolled_back_to,
  chosen_port, admitted, external_conflict, management_not_product, lifecycle_not_product,
  requires_stop,
}
use ai_agent_desktop.Configuration.Preflight.{
  Holds, Holds-bind, Holds-pure, Holds-raise_if, Holds-session, Holds-owners,
  Holds-verified_current,
}
use ai_agent_desktop.Configuration.Current.{
  Ends, Ends-bind, Ends-after, Found, IsCurrent, verified_current-Ending,
}

module _ (codec : Codec) (sha256 : Bytes → String)
    (validator : Bytes → Attempt ManagedConfiguration) (backup_path : String → ℕ → String)
    (p : Platform) (services : Services) (external : ℕ → Bool) (resolve : String → String)
    (product_instance_id : String) where
  Holds-ask_service : {A : Type 0} (answer : ℕ → Errors.Result A) → Holds (ask_service answer)
  Holds-ask_service answer = record { at = λ w. ground arith }

  pub Holds-port_is_free :
      (port : ℕ) → Holds (port_is_free codec sha256 validator backup_path p services port)
  unfolding port_is_free
  Holds-port_is_free port = Holds-ask_service _

  Holds-ask : {A : Type 0} (answer : ℕ → A) → Holds (ask answer)
  Holds-ask answer = record { at = λ w. (refl, refl, refl) }

  Holds-revision_payload : (row : Option RevisionRecord) → Holds (revision_payload row)
  unfolding revision_payload
  Holds-revision_payload none = record { at = λ w. (refl, refl, refl) }
  Holds-revision_payload (some row) = Holds-pure _

  pub Holds-rolled_back_to :
      (revision : Option ℕ)
      → Holds (
          rolled_back_to codec sha256 validator backup_path p services external resolve
            product_instance_id revision)
  unfolding rolled_back_to
  Holds-rolled_back_to none = Holds-pure _
  Holds-rolled_back_to (some revision) =
      Holds-bind _ _ (Holds-session p _ (λ t. (refl, refl))) λ row. Holds-revision_payload row

  pub Holds-chosen_port :
      (asked : Option ℕ) (rollback current : Option ManagedConfiguration)
      → Holds (
          chosen_port codec sha256 validator backup_path p services external resolve
            product_instance_id asked rollback current)
  unfolding chosen_port
  Holds-chosen_port (some port) rollback current = Holds-pure _
  Holds-chosen_port none (some rollback) current = Holds-pure _
  Holds-chosen_port none none (some current) = Holds-pure _
  Holds-chosen_port none none none = Holds-ask_service _

  pub Holds-admitted :
      Holds (
        admitted codec sha256 validator backup_path p services external resolve product_instance_id)
  unfolding admitted
  Holds-admitted = Holds-bind _ _ (Holds-ask_service services.current_artifact) λ artifact.
      Holds-bind _ _ (Holds-owners codec sha256 validator backup_path p services) λ found.
        Holds-bind _ _ (Holds-ask external) λ conflict.
          Holds-bind (raise_if conflict external_conflict) _ (Holds-raise_if _ _) λ _.
            Holds-bind (raise_if (not (is_managed_by_product found.0)) management_not_product) _
              (Holds-raise_if _ _)
              λ _.
                Holds-bind (raise_if (not (is_run_by_product found.1)) lifecycle_not_product) _
                  (Holds-raise_if _ _)
                  λ _.
                    Holds-bind _ _ (Holds-session p (λ t. (ok t.managed, t)) (λ t. (refl, refl)))
                      λ managed.
                        Holds-bind (raise_if (is_running managed) requires_stop) _
                          (Holds-raise_if _ _)
                          λ _.
                            Holds-bind _ _
                              (Holds-verified_current codec sha256 validator backup_path p services)
                              λ current. Holds-pure (artifact, found.0, current)

  -- What was admitted has the current revision.
  abbrev pub IsAdmitted : World → String × ManagementOwner × Current → Type 0
  IsAdmitted before found = IsCurrent codec sha256 validator backup_path p services before found.2

  pub admitted-Ends :
      (before : World)
      → Ends (Found (IsAdmitted before) before) before (
          admitted codec sha256 validator backup_path p services external resolve
            product_instance_id)
  unfolding admitted
  admitted-Ends before = Ends-after _ _ (Holds-ask_service services.current_artifact) λ artifact.
      Ends-after _ _ (Holds-owners codec sha256 validator backup_path p services) λ found.
        Ends-after _ _ (Holds-ask external) λ conflict.
          Ends-after (raise_if conflict external_conflict) _ (Holds-raise_if _ _) λ _.
            Ends-after (raise_if (not (is_managed_by_product found.0)) management_not_product) _
              (Holds-raise_if _ _)
              λ _.
                Ends-after (raise_if (not (is_run_by_product found.1)) lifecycle_not_product) _
                  (Holds-raise_if _ _)
                  λ _.
                    Ends-after _ _ (Holds-session p (λ t. (ok t.managed, t)) (λ t. (refl, refl)))
                      λ managed.
                        Ends-after (raise_if (is_running managed) requires_stop) _
                          (Holds-raise_if _ _)
                          λ _.
                            Ends-bind
                              (IsCurrent codec sha256 validator backup_path p services before) _
                              (λ current. pure (artifact, found.0, current))
                              (Holds-verified_current codec sha256 validator backup_path p services)
                              (record {
                                at =
                                    verified_current-Ending codec sha256 validator backup_path p
                                      services before;
                              })
                              λ current is_current. record { at = λ w held. (held, is_current) }

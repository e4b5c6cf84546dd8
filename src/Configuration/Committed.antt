-- ===== src/Configuration/Committed.antt =====
-- The contract of `commit` of control_plane/configuration/config_store.py.
use ai_agent_desktop.Base.{
  ℕ, String, true, Option, none, some, ◌≡◌, ◌⊎◌, inl, inr, arith, opt_str_eq,
}
use ai_agent_desktop.Configuration.Records.{Bytes, ManagedConfiguration, ConfigurationCommit}
use ai_agent_desktop.Configuration.Template.{Codec, render_managed_toml}
use ai_agent_desktop.Configuration.Disk.{Platform, World, Attempt, ok, raised, Attempt-cases}
use ai_agent_desktop.Configuration.Store.{ask_layout}
use ai_agent_desktop.Configuration.Commit.{
  optional_digest, configuration_digest, checked_previous, save_backup, relative_backup,
  replace_file, commit,
}
use ai_agent_desktop.Configuration.Atomic.{
  Excuse, checked_previous-Checked, replace_file-Replaced, file-save_backup, IsPassed,
}

module _ (codec : Codec) (sha256 : Bytes → String)
    (validator : Bytes → Attempt ManagedConfiguration) (backup_path : String → ℕ → String)
    (p : Platform) where
  abbrev Located : World → Attempt (Unit {0}) × World → Type 0
  Located before (ok _, w) = w.file ≡ before.file
  Located before (raised e, w) = (w.file ≡ before.file) × IsPassed e

  relative_backup-Located :
      (saved : Option (String × String)) (w : World)
      → Located w (relative_backup codec sha256 validator backup_path p saved w)
  unfolding relative_backup ask_layout
  relative_backup-Located none w = ground arith
  relative_backup-Located (some _) w = ground arith

  -- What a commit may come to.
  abbrev pub Committed :
      ManagedConfiguration → Option String → World → Attempt ConfigurationCommit × World → Type 0
  Committed configuration expected before (ok done, w) =
      (w.file ≡ some (render_managed_toml codec configuration))
      × (done.digest ≡ configuration_digest sha256 (render_managed_toml codec configuration))
      × (done.configuration ≡ configuration)
      × (done.previous_bytes ≡ before.file)
      × (opt_str_eq (optional_digest sha256 before.file) expected ≡ true)
  Committed configuration expected before (raised e, w) =
      (w.file ≡ before.file)
      ⊎ ((w.file ≡ some (render_managed_toml codec configuration)) × Excuse p before.file e w)

  -- On every path a commit returns, with the new text in the file, its digest, the configuration and
  -- the old bytes, which had the expected digest, or it raises. Then the file is as it was, or it has
  -- the new text because restoring failed or the error is one that commit does not handle.
  pub commit-Committed :
      (configuration : ManagedConfiguration) (operation_id : String) (expected : Option String)
      (w : World)
      → Committed configuration expected w
          (commit codec sha256 validator backup_path p configuration operation_id expected w)
  unfolding commit
  commit-Committed configuration operation_id expected w =
      let checked =
        checked_previous codec sha256 validator backup_path p configuration expected w in
      let first =
        checked_previous-Checked codec sha256 validator backup_path p configuration expected w in
      elim (Attempt-cases checked.0) [
        | inr (x, e) ↦ ground (arith, first)
        | inl (previous, e) ↦
            let revision = configuration.configuration_revision in
            let save =
              save_backup codec sha256 validator backup_path p operation_id revision previous
                checked.1 in
            let second =
              file-save_backup codec sha256 validator backup_path p operation_id revision previous
                checked.1 in
            elim (Attempt-cases save.0) [
              | inr (x, e') ↦ ground (arith, first, second)
              | inl (saved, e') ↦
                  let replaced =
                    replace_file codec sha256 validator backup_path p configuration previous
                      save.1 in
                  ground (
                    arith,
                    first,
                    second,
                    replace_file-Replaced codec sha256 validator backup_path p configuration
                        previous save.1,
                    relative_backup-Located saved replaced.1,
                  )
            ]
      ]

-- ===== src/Configuration/Recoverable.antt =====
-- What a commit of control_plane/configuration/config_store.py keeps to go back by: the previous
-- bytes, and their backup.
use ai_agent_desktop.Base.{ℕ, ◌-◌, String, Option, none, some, ◌≡◌, arith, inl, inr}
use ai_agent_desktop.Base.Dict.{lookup, lookup-insert_self}
use ai_agent_desktop.Configuration.Records.{Bytes, ManagedConfiguration, ConfigurationCommit}
use ai_agent_desktop.Configuration.Template.{Codec, render_managed_toml}
use ai_agent_desktop.Configuration.Disk.{
  Platform, World, Attempt, ok, raised, Exception, configuration_error, os_error, value_error,
  catch, Attempt-cases,
}
use ai_agent_desktop.Configuration.Store.{
  ask_layout, atomic_write, restore_previous, restore_commit,
}
use ai_agent_desktop.Configuration.Commit.{
  configuration_digest, Saved, write_configuration, before_replaced, check_written, after_replaced,
  restore_after_failure, checked_previous, save_backup, relative_backup, replace_file, commit,
}
use ai_agent_desktop.Configuration.Atomic.{restore_previous-Wrote, checked_previous-Checked}
use ai_agent_desktop.Configuration.Committed.{commit-Committed}

module _ (codec : Codec) (sha256 : Bytes → String)
    (validator : Bytes → Attempt ManagedConfiguration) (backup_path : String → ℕ → String)
    (p : Platform) where
  -- Restoring after a commit brings the bytes from before it back.
  pub restore_commit-commit :
      (configuration : ManagedConfiguration) (operation_id : String) (expected : Option String)
      (w w' w'' : World) (done : ConfigurationCommit)
      → commit codec sha256 validator backup_path p configuration operation_id expected w
        ≡ (ok done, w')
      → restore_commit p done w' ≡ (ok tt, w'')
      → w''.file ≡ w.file
  unfolding restore_commit
  restore_commit-commit configuration operation_id expected w w' w'' done h r = ground (
    arith,
    h,
    r,
    commit-Committed codec sha256 validator backup_path p configuration operation_id expected w,
    restore_previous-Wrote p done.previous_bytes w',
  )

  abbrev SavedAs : String → ℕ → Bytes → Attempt Saved × World → Type 0
  SavedAs operation_id revision raw (raised e, w) = Unit
  SavedAs operation_id revision raw (ok saved, w) =
      (saved ≡ some (backup_path operation_id (revision - 1), configuration_digest sha256 raw))
      × (lookup (backup_path operation_id (revision - 1)) w.backup_files ≡ some raw)

  save_backup-SavedAs :
      (operation_id : String) (revision : ℕ) (raw : Bytes) (w : World)
      → SavedAs operation_id revision raw
          (save_backup codec sha256 validator backup_path p operation_id revision (some raw) w)
  unfolding save_backup ask_layout atomic_write
  save_backup-SavedAs operation_id revision raw w =
      ground
        (arith, lookup-insert_self (backup_path operation_id (revision - 1)) raw w.backup_files)

  backup_files-restore_previous :
      (previous : Option Bytes) (w : World)
      → (restore_previous p previous w).1.backup_files ≡ w.backup_files
  unfolding restore_previous ask_layout atomic_write
  backup_files-restore_previous none w = ground arith
  backup_files-restore_previous (some raw) w = ground arith

  backup_files-after_replaced :
      (previous : Option Bytes) (e : Exception) (w : World)
      → (after_replaced codec sha256 validator backup_path p previous e w).1.backup_files
        ≡ w.backup_files
  unfolding after_replaced restore_after_failure
  backup_files-after_replaced previous (configuration_error e) w =
      ground (arith, backup_files-restore_previous previous w)
  backup_files-after_replaced previous os_error w =
      ground (arith, backup_files-restore_previous previous w)
  backup_files-after_replaced previous value_error w =
      ground (arith, backup_files-restore_previous previous w)
  backup_files-after_replaced previous _ w = ground arith

  backup_files-check_written :
      (configuration : ManagedConfiguration) (w : World)
      → (check_written codec sha256 validator backup_path p configuration w).1.backup_files
        ≡ w.backup_files
  unfolding check_written ask_layout
  backup_files-check_written configuration w = ground arith

  backup_files-write_configuration :
      (rendered : Bytes) (w : World)
      → (catch
          (write_configuration codec sha256 validator backup_path p rendered)
          before_replaced
          w).1.backup_files
        ≡ w.backup_files
  unfolding write_configuration before_replaced ask_layout atomic_write
  backup_files-write_configuration rendered w = ground arith

  backup_files-replace_file :
      (configuration : ManagedConfiguration) (previous : Option Bytes) (w : World)
      → (replace_file codec sha256 validator backup_path p configuration previous w).1.backup_files
        ≡ w.backup_files
  unfolding replace_file
  backup_files-replace_file configuration previous w =
      let rendered = render_managed_toml codec configuration in
      let write = write_configuration codec sha256 validator backup_path p rendered in
      let w' = (catch write before_replaced w).1 in
      let check = check_written codec sha256 validator backup_path p configuration w' in
      let first = backup_files-write_configuration rendered w in
      let second = backup_files-check_written configuration w' in
      elim (Attempt-cases check.0) [
        | inl (u, e) ↦ ground (arith, first, second)
        | inr (x, e) ↦ ground (arith, first, second, backup_files-after_replaced previous x check.1)
      ]

  backup_files-relative_backup :
      (saved : Saved) (w : World)
      → (relative_backup codec sha256 validator backup_path p saved w).1.backup_files
        ≡ w.backup_files
  unfolding relative_backup ask_layout
  backup_files-relative_backup none w = ground arith
  backup_files-relative_backup (some _) w = ground arith

  -- The backup of a commit, if it returned.
  abbrev pub HasBackup :
      String → ManagedConfiguration → Bytes → Attempt ConfigurationCommit × World → Type 0
  HasBackup operation_id configuration raw (raised e, w) = Unit
  HasBackup operation_id configuration raw (ok done, w) =
      (done.backup_relative_path
        ≡ some (backup_path operation_id (configuration.configuration_revision - 1)))
      × (done.backup_digest ≡ some (configuration_digest sha256 raw))
      × (lookup (backup_path operation_id (configuration.configuration_revision - 1)) w.backup_files
          ≡ some raw)

  -- A commit over a file that returns has backed its bytes up, under the path and with the digest
  -- that it returns.
  pub commit-HasBackup :
      (configuration : ManagedConfiguration) (operation_id : String) (expected : Option String)
      (raw : Bytes) (w : World)
      → w.file ≡ some raw
      → HasBackup operation_id configuration raw
          (commit codec sha256 validator backup_path p configuration operation_id expected w)
  unfolding commit
  commit-HasBackup configuration operation_id expected raw w file =
      let checked =
        checked_previous codec sha256 validator backup_path p configuration expected w in
      let first =
        checked_previous-Checked codec sha256 validator backup_path p configuration expected w in
      elim (Attempt-cases checked.0) [
        | inr (x, e) ↦ ground (arith, first)
        | inl (previous, e) ↦
            let revision = configuration.configuration_revision in
            let save =
              save_backup codec sha256 validator backup_path p operation_id revision (some raw)
                checked.1 in
            let same : previous ≡ some raw = ground (arith, first, e, file) in
            let second = save_backup-SavedAs operation_id revision raw checked.1 in
            elim (Attempt-cases save.0) [
              | inr (x, e') ↦ ground (arith, same, e, e')
              | inl (saved, e') ↦
                  let replaced =
                    replace_file codec sha256 validator backup_path p configuration (some raw)
                      save.1 in
                  ground (
                    arith,
                    same,
                    e,
                    e',
                    second,
                    backup_files-replace_file configuration (some raw) save.1,
                    backup_files-relative_backup saved replaced.1,
                  )
            ]
      ]

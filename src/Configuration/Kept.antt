-- ===== src/Configuration/Kept.antt =====
-- What the file operations of the configuration leave alone: they never touch the tables.
use ai_agent_desktop.Base.{ℕ, String, Option, none, some, ◌≡◌, inl, inr, arith}
use ai_agent_desktop.Configuration.Records.{Bytes, ManagedConfiguration}
use ai_agent_desktop.Configuration.Template.{Codec, render_managed_toml}
use ai_agent_desktop.Configuration.Disk.{
  Platform, World, Attempt, Exception, configuration_error, os_error, value_error, catch,
  Attempt-cases,
}
use ai_agent_desktop.Configuration.Store.{
  ask_layout, assert_safe, read_bytes, atomic_write, Target, managed, backup, restore_previous,
}
use ai_agent_desktop.Configuration.Commit.{
  write_configuration, before_replaced, check_written, after_replaced, restore_after_failure,
  checked_previous, save_backup, relative_backup, replace_file, commit,
}

tables-atomic_write :
    (p : Platform) (target : Target) (raw : Bytes) (purpose : String) (w : World)
    → (atomic_write p target raw purpose w).1.tables ≡ w.tables
unfolding atomic_write
tables-atomic_write p managed raw purpose w = ground arith
tables-atomic_write p (backup path) raw purpose w = ground arith

pub tables-restore_previous :
    (p : Platform) (previous : Option Bytes) (w : World)
    → (restore_previous p previous w).1.tables ≡ w.tables
unfolding restore_previous
tables-restore_previous p none w = ground arith
tables-restore_previous p (some raw) w =
    ground (arith, tables-atomic_write p managed raw "rollback" (ask_layout p w).1)

module _ (codec : Codec) (sha256 : Bytes → String)
    (validator : Bytes → Attempt ManagedConfiguration) (backup_path : String → ℕ → String)
    (p : Platform) where
  tables-checked_previous :
      (configuration : ManagedConfiguration) (expected : Option String) (w : World)
      → (checked_previous codec sha256 validator backup_path p configuration expected w).1.tables
        ≡ w.tables
  unfolding checked_previous ask_layout assert_safe read_bytes
  tables-checked_previous configuration expected w = ground arith

  tables-save_backup :
      (operation_id : String) (revision : ℕ) (previous : Option Bytes) (w : World)
      → (save_backup codec sha256 validator backup_path p operation_id revision previous w).1.tables
        ≡ w.tables
  unfolding save_backup ask_layout atomic_write
  tables-save_backup operation_id revision none w = ground arith
  tables-save_backup operation_id revision (some raw) w = ground arith

  tables-after_replaced :
      (previous : Option Bytes) (e : Exception) (w : World)
      → (after_replaced codec sha256 validator backup_path p previous e w).1.tables ≡ w.tables
  unfolding after_replaced restore_after_failure
  tables-after_replaced previous (configuration_error e) w =
      ground (arith, tables-restore_previous p previous w)
  tables-after_replaced previous os_error w = ground (arith, tables-restore_previous p previous w)
  tables-after_replaced previous value_error w =
      ground (arith, tables-restore_previous p previous w)
  tables-after_replaced previous _ w = ground arith

  tables-check_written :
      (configuration : ManagedConfiguration) (w : World)
      → (check_written codec sha256 validator backup_path p configuration w).1.tables ≡ w.tables
  unfolding check_written ask_layout
  tables-check_written configuration w = ground arith

  tables-write_configuration :
      (rendered : Bytes) (w : World)
      → (catch
          (write_configuration codec sha256 validator backup_path p rendered)
          before_replaced
          w).1.tables
        ≡ w.tables
  unfolding write_configuration before_replaced ask_layout atomic_write
  tables-write_configuration rendered w = ground arith

  tables-replace_file :
      (configuration : ManagedConfiguration) (previous : Option Bytes) (w : World)
      → (replace_file codec sha256 validator backup_path p configuration previous w).1.tables
        ≡ w.tables
  unfolding replace_file
  tables-replace_file configuration previous w =
      let rendered = render_managed_toml codec configuration in
      let write = write_configuration codec sha256 validator backup_path p rendered in
      let w' = (catch write before_replaced w).1 in
      let check = check_written codec sha256 validator backup_path p configuration w' in
      let first = tables-write_configuration rendered w in
      let second = tables-check_written configuration w' in
      elim (Attempt-cases check.0) [
        | inl (u, e) ↦ ground (arith, first, second)
        | inr (x, e) ↦ ground (arith, first, second, tables-after_replaced previous x check.1)
      ]

  tables-relative_backup :
      (saved : Option (String × String)) (w : World)
      → (relative_backup codec sha256 validator backup_path p saved w).1.tables ≡ w.tables
  unfolding relative_backup ask_layout
  tables-relative_backup none w = ground arith
  tables-relative_backup (some _) w = ground arith

  pub tables-commit :
      (configuration : ManagedConfiguration) (operation_id : String) (expected : Option String)
      (w : World)
      → (commit codec sha256 validator backup_path p configuration operation_id expected w).1.tables
        ≡ w.tables
  unfolding commit
  tables-commit configuration operation_id expected w =
      let checked =
        checked_previous codec sha256 validator backup_path p configuration expected w in
      let first = tables-checked_previous configuration expected w in
      elim (Attempt-cases checked.0) [
        | inr (x, e) ↦ ground (arith, first)
        | inl (previous, e) ↦
            let revision = configuration.configuration_revision in
            let save =
              save_backup codec sha256 validator backup_path p operation_id revision previous
                checked.1 in
            let second = tables-save_backup operation_id revision previous checked.1 in
            elim (Attempt-cases save.0) [
              | inr (x, e') ↦ ground (arith, first, second)
              | inl (saved, e') ↦
                  let replaced =
                    replace_file codec sha256 validator backup_path p configuration previous
                      save.1 in
                  ground (
                    arith,
                    first,
                    second,
                    tables-replace_file configuration previous save.1,
                    tables-relative_backup saved replaced.1,
                  )
            ]
      ]

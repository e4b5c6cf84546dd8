-- ===== src/Configuration/Atomic.antt =====
-- What a commit of control_plane/configuration/config_store.py does to the file, on every path.
use ai_agent_desktop.Base.{
  ℕ, String, true, Option, none, some, ◌≡◌, refl, ◌⊎◌, inl, inr, arith, opt_str_eq,
}
use ai_agent_desktop.Configuration.Records.{Bytes, ManagedConfiguration}
use ai_agent_desktop.Configuration.Template.{Codec, render_managed_toml}
use ai_agent_desktop.Configuration.Disk.{
  Platform, World, Attempt, ok, raised, Exception, installer_error, configuration_error, os_error,
  value_error, sql_error, assertion_error, catch, Attempt-cases,
}
use ai_agent_desktop.Configuration.Store.{
  ask_layout, assert_safe, atomic_write, managed, backup, read_bytes, restore_previous,
}
use ai_agent_desktop.Configuration.Commit.{
  optional_digest, write_configuration, before_replaced, check_written, after_replaced,
  checked_previous, save_backup, replace_file, restore_after_failure,
}

abbrev Wrote : Option Bytes → Bytes → Attempt (Unit {0}) × World → Type 0
Wrote before raw (ok _, w) = w.file ≡ some raw
Wrote before raw (raised _, w) = w.file ≡ before

module _ (p : Platform) (w : World) where
  file-ask_layout : (ask_layout p w).1.file ≡ w.file
  unfolding ask_layout
  file-ask_layout = ground arith

  atomic_write-Wrote :
      (raw : Bytes) (purpose : String) → Wrote w.file raw (atomic_write p managed raw purpose w)
  unfolding atomic_write
  atomic_write-Wrote raw purpose = ground arith

  file-atomic_write_backup :
      (path : String) (raw : Bytes) (purpose : String)
      → (atomic_write p (backup path) raw purpose w).1.file ≡ w.file
  unfolding atomic_write
  file-atomic_write_backup path raw purpose = ground arith

abbrev pub Wrote? : Option Bytes → Option Bytes → Attempt (Unit {0}) × World → Type 0
Wrote? before after (ok _, w) = w.file ≡ after
Wrote? before after (raised _, w) = w.file ≡ before

-- Restoring brings the previous bytes back, or raises and leaves the file.
pub restore_previous-Wrote :
    (p : Platform) (previous : Option Bytes) (w : World)
    → Wrote? w.file previous (restore_previous p previous w)
unfolding restore_previous
restore_previous-Wrote p none w = ground arith
restore_previous-Wrote p (some raw) w = ground arith

-- The exception passes the handlers that restore the file.
abbrev pub IsPassed : Exception → Type 0
IsPassed (installer_error _) = Unit
IsPassed sql_error = Unit
IsPassed assertion_error = Unit
IsPassed _ = ⊥

-- A restoring of the previous bytes that raised led to this world.
pub record IsUnrestored (p : Platform) (previous : Option Bytes) (w : World) : Type 0 where
  pub before : World
  pub exception : Exception
  pub restored : restore_previous p previous before ≡ (raised exception, w)

-- Why a file that was replaced may stay replaced.
abbrev pub Excuse : Platform → Option Bytes → Exception → World → Type 0
Excuse p previous e w = IsPassed e ⊎ IsUnrestored p previous w

-- Restoring returned or raised, with what holds then.
abbrev pub IsRestoring : Platform → Option Bytes → World → Attempt (Unit {0}) × World → Type 0
IsRestoring p previous before (r, w) =
    ((r ≡ ok tt) × (w.file ≡ previous))
    ⊎ ((e : Exception) × (r ≡ raised e) × (w.file ≡ before.file) × IsUnrestored p previous w)

restoring :
    (p : Platform) (previous : Option Bytes) (w : World) (end : Attempt (Unit {0}) × World)
    → restore_previous p previous w ≡ end
    → Wrote? w.file previous end
    → IsRestoring p previous w end
restoring p previous w (ok tt, w') h f = inl (refl, f)
restoring p previous w (raised e, w') h f =
    inr (e, refl, f, record { before = w; exception = e; restored = h })

pub restored_cases :
    (p : Platform) (previous : Option Bytes) (w : World)
    → IsRestoring p previous w (restore_previous p previous w)
restored_cases p previous w =
    restoring p previous w (restore_previous p previous w) refl
      (restore_previous-Wrote p previous w)

module _ (codec : Codec) (sha256 : Bytes → String)
    (validator : Bytes → Attempt ManagedConfiguration) (backup_path : String → ℕ → String)
    (p : Platform) where
  file-check_written :
      (configuration : ManagedConfiguration) (w : World)
      → (check_written codec sha256 validator backup_path p configuration w).1.file ≡ w.file
  unfolding check_written ask_layout
  file-check_written configuration w = ground arith

  write_configuration-Wrote :
      (rendered : Bytes) (w : World)
      → Wrote w.file rendered (
          catch
            (write_configuration codec sha256 validator backup_path p rendered)
            before_replaced
            w)
  unfolding write_configuration before_replaced ask_layout atomic_write
  write_configuration-Wrote rendered w = ground arith

  abbrev Recovered : Option Bytes → World → Attempt (Unit {0}) × World → Type 0
  Recovered previous before (ok _, w) = ⊥
  Recovered previous before (raised e, w) =
      (w.file ≡ previous) ⊎ ((w.file ≡ before.file) × Excuse p previous e w)

  after_replaced-Recovered :
      (previous : Option Bytes) (e : Exception) (w : World)
      → Recovered previous w (after_replaced codec sha256 validator backup_path p previous e w)
  unfolding after_replaced restore_after_failure
  after_replaced-Recovered previous (configuration_error e) w = elim (restored_cases p previous w) [
    | inl (r, f) ↦ ground arith
    | inr (x, r, f, u) ↦ ground arith
  ]
  after_replaced-Recovered previous os_error w = elim (restored_cases p previous w) [
    | inl (r, f) ↦ ground arith
    | inr (x, r, f, u) ↦ ground arith
  ]
  after_replaced-Recovered previous value_error w = elim (restored_cases p previous w) [
    | inl (r, f) ↦ ground arith
    | inr (x, r, f, u) ↦ ground arith
  ]
  after_replaced-Recovered previous (installer_error e) w = inr (refl, inl tt)
  after_replaced-Recovered previous sql_error w = inr (refl, inl tt)
  after_replaced-Recovered previous assertion_error w = inr (refl, inl tt)

  abbrev pub Checked : Option String → World → Attempt (Option Bytes) × World → Type 0
  Checked expected before (ok previous, w) =
      (w.file ≡ before.file)
      × (previous ≡ before.file)
      × (opt_str_eq (optional_digest sha256 before.file) expected ≡ true)
  Checked expected before (raised _, w) = w.file ≡ before.file

  pub checked_previous-Checked :
      (configuration : ManagedConfiguration) (expected : Option String) (w : World)
      → Checked expected w
          (checked_previous codec sha256 validator backup_path p configuration expected w)
  unfolding checked_previous ask_layout assert_safe read_bytes
  checked_previous-Checked configuration expected w = ground arith

  abbrev pub Replaced :
      ManagedConfiguration → Option Bytes → World → Attempt (Unit {0}) × World → Type 0
  Replaced configuration previous before (ok _, w) =
      w.file ≡ some (render_managed_toml codec configuration)
  Replaced configuration previous before (raised e, w) =
      (w.file ≡ before.file)
      ⊎ (w.file ≡ previous)
      ⊎ ((w.file ≡ some (render_managed_toml codec configuration)) × Excuse p previous e w)

  pub replace_file-Replaced :
      (configuration : ManagedConfiguration) (previous : Option Bytes) (w : World)
      → Replaced configuration previous w
          (replace_file codec sha256 validator backup_path p configuration previous w)
  unfolding replace_file
  replace_file-Replaced configuration previous w =
      let rendered = render_managed_toml codec configuration in
      let write = write_configuration codec sha256 validator backup_path p rendered in
      let w' = (catch write before_replaced w).1 in
      let check = check_written codec sha256 validator backup_path p configuration w' in
      elim (Attempt-cases check.0) [
        | inl (u, e) ↦
            ground
              (arith, write_configuration-Wrote rendered w, file-check_written configuration w')
        | inr (x, e) ↦ ground (
          arith,
          write_configuration-Wrote rendered w,
          file-check_written configuration w',
          after_replaced-Recovered previous x check.1,
        )
      ]

  pub file-save_backup :
      (operation_id : String) (revision : ℕ) (previous : Option Bytes) (w : World)
      → (save_backup codec sha256 validator backup_path p operation_id revision previous w).1.file
        ≡ w.file
  unfolding save_backup ask_layout atomic_write
  file-save_backup operation_id revision none w = ground arith
  file-save_backup operation_id revision (some raw) w = ground arith

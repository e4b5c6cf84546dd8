-- ===== src/Configuration/Commit.antt =====
-- `commit`, `read` and `digest` of `ConfigurationStore`, control_plane/configuration/config_store.py.
-- `sha256` is the hex digest of hashlib, and `validator` the reading of the bytes after the write.
use Prim.Native.String.{◌++◌}
use ai_agent_desktop.Base.{
  ℕ, ◌-◌, String, true, false, not, Option, none, some, [], ◌∷◌, opt_str_eq,
}
use ai_agent_desktop.Configuration.Records.{
  Bytes, ManagedConfiguration, ConfigurationCommit, is_same,
}
use ai_agent_desktop.Configuration.Template.{Codec, render_managed_toml, parse_managed_toml}
use ai_agent_desktop.Configuration.Disk.{
  Exception, configuration_error, installer_error, os_error, value_error, sql_error,
  assertion_error, Platform, Attempt, ok, raised, Action, pure, raise, gets, catch, ◌>>=◌, ◌>>◌,
  raise_if, ask, configuration_failure,
}
use ai_agent_desktop.Configuration.Store.{
  invalid_configuration, managed, backup, raw_bytes, ask_layout, assert_safe, read_bytes,
  atomic_write, restore_previous,
}

abbrev pub template_invalid : Exception
template_invalid =
    configuration_failure "CONFIGURATION_TEMPLATE_INVALID"
      "Generated configuration failed validation before writing." false
      ("inspect_configuration_template" ∷ [])

abbrev pub roundtrip_failed : Exception
roundtrip_failed =
    configuration_failure "CONFIGURATION_TEMPLATE_ROUNDTRIP_FAILED"
      "Generated configuration changed during TOML round-trip validation." false
      ("inspect_configuration_template" ∷ [])

abbrev pub changed_after_planning : Exception
changed_after_planning =
    configuration_failure "CONFIGURATION_REVISION_CONFLICT"
      "Configuration changed after planning; no file was written." true
      ("create_new_configuration_plan" ∷ [])

abbrev pub post_write_mismatch : Exception
post_write_mismatch =
    configuration_failure "CONFIGURATION_POST_WRITE_MISMATCH"
      "Persisted configuration does not match the confirmed plan." false
      ("automatic_configuration_rollback" ∷ [])

abbrev pub write_rollback_failed : Exception
write_rollback_failed =
    configuration_failure "CONFIGURATION_ROLLBACK_FAILED"
      "Configuration write failed and the previous bytes could not be restored." false
      ("inspect_pending_repair" ∷ [])

abbrev pub validation_failed : Exception
validation_failed =
    configuration_failure "CONFIGURATION_POST_WRITE_VALIDATION_FAILED"
      "Configuration was restored after post-write validation failed." false
      ("create_new_configuration_plan" ∷ [])

-- The bytes as a configuration, or the error given.
unfoldable pub parsed : Option ManagedConfiguration → Exception → Action ManagedConfiguration
parsed none e w = (raised e, w)
parsed (some configuration) e w = (ok configuration, w)

-- What an exception of the write itself becomes: nothing was replaced.
unfoldable pub before_replaced : Exception → Action (Unit {0})
before_replaced os_error = raise validation_failed
before_replaced value_error = raise validation_failed
before_replaced e = raise e

-- The path and the digest of a backup.
abbrev pub Saved : Type 0
Saved = Option (String × String)

abbrev pub path_of : Saved → Option String
path_of none = none
path_of (some (path, _)) = some path

abbrev pub digest_of : Saved → Option String
digest_of none = none
digest_of (some (_, digest)) = some digest

module _ (sha256 : Bytes → String) where
  unfoldable pub configuration_digest : Bytes → String
  configuration_digest raw = "sha256:" ++ sha256 raw

  abbrev pub optional_digest : Option Bytes → Option String
  optional_digest none = none
  optional_digest (some raw) = some (configuration_digest raw)

module _ (codec : Codec) (sha256 : Bytes → String)
    (validator : Bytes → Attempt ManagedConfiguration) (backup_path : String → ℕ → String)
    (p : Platform) where
  unfoldable pub parsed_file : Option Bytes → Action (Option ManagedConfiguration)
  unfolding parsed parse_managed_toml
  parsed_file none = pure none
  parsed_file (some raw) = do
    configuration ← parsed (parse_managed_toml codec raw) invalid_configuration
    pure (some configuration)

  unfoldable pub read : Action (Option ManagedConfiguration)
  unfolding parsed_file
  read = do raw ← read_bytes p; parsed_file raw

  unfoldable pub digest : Action (Option String)
  digest = do raw ← read_bytes p; pure (optional_digest sha256 raw)

  -- The backup of the previous bytes: its path is that of the previous revision.
  unfoldable pub save_backup : String → ℕ → Option Bytes → Action Saved
  save_backup operation_id revision none = pure none
  save_backup operation_id revision (some previous) = do
    ask_layout p
    atomic_write p (backup (backup_path operation_id (revision - 1))) previous "backup"
    pure (some (backup_path operation_id (revision - 1), configuration_digest sha256 previous))

  unfoldable pub validate_bytes : Bytes → Action ManagedConfiguration
  validate_bytes raw w = (validator raw, w)

  -- What follows the replacement inside the `try`.
  unfoldable pub check_written : ManagedConfiguration → Action (Unit {0})
  unfolding validate_bytes raw_bytes
  check_written configuration = do
    ask_layout p
    io ← ask p.read
    before ← gets (λ w. w.file)
    persisted ← raw_bytes io before
    found ← validate_bytes persisted
    raise_if (not (is_same found configuration)) post_write_mismatch

  unfoldable pub restore_after_failure : Option Bytes → Action (Unit {0})
  restore_after_failure previous = catch (restore_previous p previous) λ e. elim e [
    | configuration_error _ ↦ raise write_rollback_failed
    | installer_error i ↦ raise (installer_error i)
    | os_error ↦ raise os_error
    | value_error ↦ raise value_error
    | sql_error ↦ raise sql_error
    | assertion_error ↦ raise assertion_error
  ]

  -- The handlers of the `try` once the file was replaced.
  unfoldable pub after_replaced : Option Bytes → Exception → Action (Unit {0})
  unfolding restore_after_failure
  after_replaced previous (configuration_error e) = do
    restore_previous p previous
    raise (configuration_error e)
  after_replaced previous os_error = do restore_after_failure previous; raise validation_failed
  after_replaced previous value_error = do restore_after_failure previous; raise validation_failed
  after_replaced previous (installer_error e) = raise (installer_error e)
  after_replaced previous sql_error = raise sql_error
  after_replaced previous assertion_error = raise assertion_error

  unfoldable pub write_configuration : Bytes → Action (Unit {0})
  write_configuration rendered = do ask_layout p; atomic_write p managed rendered "configuration"

  -- `backup_path` is made relative, which asks the layout, only if there is one.
  unfoldable pub relative_backup : Saved → Action (Unit {0})
  relative_backup none = pure tt
  relative_backup (some _) = ask_layout p

  -- What precedes the first write: the bytes of the file, if all is as planned.
  unfoldable pub checked_previous : ManagedConfiguration → Option String → Action (Option Bytes)
  unfolding parsed
  checked_previous configuration expected_current_digest = do
    ask_layout p
    made ← ask p.make_directory
    raise_if (not made) os_error
    ask_layout p
    assert_safe p
    reparsed ←
        parsed (parse_managed_toml codec (render_managed_toml codec configuration)) template_invalid
    raise_if (not (is_same reparsed configuration)) roundtrip_failed
    previous ← read_bytes p
    raise_if (not (opt_str_eq (optional_digest sha256 previous) expected_current_digest))
        changed_after_planning
    pure previous

  -- The `try` around the replacement of the file.
  unfoldable pub replace_file : ManagedConfiguration → Option Bytes → Action (Unit {0})
  unfolding write_configuration before_replaced check_written after_replaced
  replace_file configuration previous = do
    catch (write_configuration (render_managed_toml codec configuration)) before_replaced
    catch (check_written configuration) (after_replaced previous)

  unfoldable pub commit : ManagedConfiguration → String → Option String → Action ConfigurationCommit
  commit configuration operation_id expected_current_digest = do
    previous ← checked_previous configuration expected_current_digest
    saved ← save_backup operation_id configuration.configuration_revision previous
    replace_file configuration previous
    relative_backup saved
    pure (record {
      configuration = configuration;
      digest = configuration_digest sha256 (render_managed_toml codec configuration);
      backup_relative_path = path_of saved;
      backup_digest = digest_of saved;
      previous_bytes = previous;
    })

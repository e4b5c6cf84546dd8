-- ===== src/Configuration/Store.antt =====
-- `ConfigurationStore` of control_plane/configuration/config_store.py. Readings of `self.path` in one
-- statement are one call of the layout. No one else writes the file between the calls of a method.
use Prim.Native.String.{◌++◌}
use ai_agent_desktop.Base.{String, true, false, not, Option, none, some, [], ◌∷◌}
use ai_agent_desktop.Base.Dict.{insert}
use ai_agent_desktop.Configuration.Records.{Bytes, ConfigurationCommit}
use ai_agent_desktop.Configuration.Disk.{
  Exception, os_error, Io, fine, denied, broken, littered, Platform, ok, raised, Action, ◌>>=◌,
  ◌>>◌, raise_if, ask, raise_some, map_error, configuration_failure,
}

abbrev pub unsafe_path : Exception
unsafe_path =
    configuration_failure "CONFIGURATION_PATH_UNSAFE"
      "Configuration directory cannot be a symbolic link or junction." false
      ("restore_product_data_directory" ∷ [])

abbrev pub file_inaccessible : Exception
file_inaccessible =
    configuration_failure "CONFIGURATION_FILE_INACCESSIBLE"
      "The product-managed configuration cannot be read with current-user permissions." false
      ("close_file_handles" ∷ "restore_product_directory_permissions" ∷ [])

abbrev pub read_failed : Exception
read_failed =
    configuration_failure "CONFIGURATION_READ_FAILED"
      "The product-managed configuration could not be read." true ("inspect_product_state" ∷ [])

abbrev pub invalid_configuration : Exception
invalid_configuration =
    configuration_failure "CONFIGURATION_INVALID"
      "The product-managed configuration failed UTF-8, TOML, or schema validation." false
      ("create_configuration_rollback_plan" ∷ [])

abbrev pub permission_denied : String → Exception
permission_denied purpose =
    configuration_failure "CONFIGURATION_PERMISSION_DENIED"
      ("Current user cannot write the product-managed " ++ (purpose ++ " directory.")) false
      ("restore_product_directory_permissions" ∷ [])

abbrev pub file_locked : String → Exception
file_locked purpose =
    configuration_failure "CONFIGURATION_FILE_LOCKED"
      ("The product-managed " ++ (purpose ++ " file is locked or not replaceable.")) true
      ("close_file_handles" ∷ "retry_operation" ∷ [])

abbrev pub write_failed : String → Exception
write_failed purpose =
    configuration_failure "CONFIGURATION_ATOMIC_WRITE_FAILED"
      ("The product-managed " ++ (purpose ++ " could not be replaced atomically.")) true
      ("inspect_product_state" ∷ "retry_operation" ∷ [])

abbrev pub not_removed : Exception
not_removed =
    configuration_failure "CONFIGURATION_ROLLBACK_FAILED"
      "New configuration could not be removed during rollback." false
      ("inspect_pending_repair" ∷ [])

-- The managed file, or a backup at its path.
pub data Target : Type 0 where
  managed : Target
  backup : String → Target

-- The end of `_atomic_write`, by how writing and replacing went.
unfoldable pub put_bytes : Io → Target → String → Bytes → Action (Unit {0})
put_bytes fine managed purpose raw w = (ok tt, record w { file = some raw })
put_bytes fine (backup path) purpose raw w =
    (ok tt, record w { backup_files = insert path raw w.backup_files })
put_bytes denied target purpose raw w = (raised (file_locked purpose), w)
put_bytes broken target purpose raw w = (raised (write_failed purpose), w)
put_bytes littered target purpose raw w = (raised os_error, w)

unfoldable pub found_bytes : Io → Action (Option Bytes)
found_bytes fine w = (ok w.file, w)
found_bytes denied w = (raised file_inaccessible, w)
found_bytes _ w = (raised read_failed, w)

-- `Path.read_bytes`, which raises `FileNotFoundError` if there is no file.
unfoldable pub raw_bytes : Io → Option Bytes → Action Bytes
raw_bytes fine (some raw) w = (ok raw, w)
raw_bytes _ _ w = (raised os_error, w)

unfoldable pub remove_file : Io → Action (Unit {0})
remove_file fine w = (ok tt, record w { file = none })
remove_file _ w = (raised not_removed, w)

module _ (p : Platform) where
  unfoldable pub ask_layout : Action (Unit {0})
  ask_layout = do e ← ask p.layout_error; raise_some (map_error e)

  -- `_assert_safe`
  unfoldable pub assert_safe : Action (Unit {0})
  unfolding ask_layout
  assert_safe = do
    ask_layout
    ask_layout
    is_link ← ask p.config_dir_is_link
    raise_if is_link unsafe_path

  unfoldable pub read_bytes : Action (Option Bytes)
  unfolding assert_safe found_bytes ask_layout
  read_bytes = do assert_safe; ask_layout; io ← ask p.read; found_bytes io

  -- `_atomic_write`
  unfoldable pub atomic_write : Target → Bytes → String → Action (Unit {0})
  unfolding assert_safe put_bytes
  atomic_write target raw purpose = do
    assert_safe
    made ← ask p.make_directory
    raise_if (not made) os_error
    assert_safe
    writable ← ask p.is_writable
    raise_if (not writable) (permission_denied purpose)
    io ← ask p.replace
    put_bytes io target purpose raw

  -- `_restore_previous`
  unfoldable pub restore_previous : Option Bytes → Action (Unit {0})
  unfolding atomic_write remove_file ask_layout
  restore_previous none = do ask_layout; io ← ask p.unlink; remove_file io
  restore_previous (some previous) = do ask_layout; atomic_write managed previous "rollback"

  unfoldable pub restore_commit : ConfigurationCommit → Action (Unit {0})
  restore_commit done = restore_previous done.previous_bytes

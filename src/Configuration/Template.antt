-- ===== src/Configuration/Template.antt =====
-- control_plane/configuration/templates.py: the configuration of a plan, its text and its reading.
-- `Codec` is what json, datetime, tomllib and pydantic make of values.
use Prim.Native.String.{◌++◌}
use mathlib.Core.List
use ai_agent_desktop.Base.{ℕ, String, false, Option, List, [], ◌∷◌, ◌==◌, if◌then◌else◌, ◌&&◌}
use ai_agent_desktop.Configuration.Records.{
  Bytes, ManagementOwner, LifecycleOwner, SecretReference, ManagedConfiguration,
}

pub record Codec : Type 0 where
  -- `json.dumps(value, ensure_ascii=False)` on a text
  pub dumps : String → String
  pub decimal : ℕ → String
  pub isoformat : ℕ → String
  pub encode : String → Bytes
  -- `ManagedConfiguration.model_validate(tomllib.loads(data.decode("utf-8")))`, unless it raises.
  pub loads : Bytes → Option ManagedConfiguration

abbrev pub management_value : ManagementOwner → String
management_value ManagementOwner.external = "external"
management_value ManagementOwner.product = "product"
management_value ManagementOwner.unmanaged = "unmanaged"
management_value ManagementOwner.conflict = "conflict"
management_value ManagementOwner.unknown = "unknown"

abbrev pub lifecycle_value : LifecycleOwner → String
lifecycle_value LifecycleOwner.external = "external"
lifecycle_value LifecycleOwner.product = "product"
lifecycle_value LifecycleOwner.none = "none"
lifecycle_value LifecycleOwner.conflict = "conflict"
lifecycle_value LifecycleOwner.unknown = "unknown"

-- `resolve` is the absolute path of a folder of the component.
unfoldable pub build_minimal_configuration :
    (String → String) → String → String → ℕ → ℕ → ℕ → ℕ → ManagedConfiguration
build_minimal_configuration resolve artifact_id product_instance_id port revision created updated =
    record {
      artifact_id = artifact_id;
      product_instance_id = product_instance_id;
      listen_port = port;
      data_dir = resolve "state/runtime-data";
      log_dir = resolve "state/logs";
      project_root = resolve "state/project-placeholder";
      lifecycle_owner = LifecycleOwner.product;
      management_owner = ManagementOwner.product;
      configuration_revision = revision;
      created_at = created;
      updated_at = updated;
      secret_refs =
          record {
            reference_id = "telegram-bot-token";
            backend = "windows_credential_manager";
            purpose = "telegram_bot_token";
            required = false;
          }
          ∷ [];
      health_probe = record { startup_timeout_seconds = 10; stable_window_seconds = 3 };
    }

-- The lines, each with its end.
unfoldable pub join_lines : List String → String
join_lines [] = ""
join_lines (line ∷ rest) = line ++ ("\n" ++ join_lines rest)

module _ (codec : Codec) where
  abbrev text_field : String → String → String
  text_field key value = key ++ (" = " ++ codec.dumps value)

  abbrev number_field : String → ℕ → String
  number_field key value = key ++ (" = " ++ codec.decimal value)

  reference_lines : List SecretReference → List String
  reference_lines [] = []
  reference_lines (reference ∷ rest) =
      ""
      ∷ "[[secret_refs]]"
      ∷ text_field "reference_id" reference.reference_id
      ∷ text_field "backend" reference.backend
      ∷ text_field "purpose" reference.purpose
      ∷ (if reference.required then "required = true" else "required = false")
      ∷ reference_lines rest

  managed_lines : ManagedConfiguration → List String
  managed_lines value =
      text_field "schema_version" "1.0"
      ∷ text_field "component_id" "cc-connect"
      ∷ text_field "artifact_id" value.artifact_id
      ∷ text_field "product_instance_id" value.product_instance_id
      ∷ text_field "listen_host" "127.0.0.1"
      ∷ number_field "listen_port" value.listen_port
      ∷ text_field "data_dir" value.data_dir
      ∷ text_field "log_dir" value.log_dir
      ∷ text_field "project_root" value.project_root
      ∷ text_field "lifecycle_owner" (lifecycle_value value.lifecycle_owner)
      ∷ text_field "management_owner" (management_value value.management_owner)
      ∷ number_field "configuration_revision" value.configuration_revision
      ∷ text_field "created_at" (codec.isoformat value.created_at)
      ∷ text_field "updated_at" (codec.isoformat value.updated_at)
      ∷ text_field "network_mode" "loopback_only"
      ∷ ""
      ∷ "[telegram]"
      ∷ "enabled = false"
      ∷ text_field "mode" "disabled"
      ∷ ""
      ∷ "[health_probe]"
      ∷ number_field "startup_timeout_seconds" value.health_probe.startup_timeout_seconds
      ∷ number_field "stable_window_seconds" value.health_probe.stable_window_seconds
      ∷ "local_endpoint_supported = false"
      ∷ text_field "deep_health" "unsupported"
      ∷ []

  unfoldable pub render_managed_toml : ManagedConfiguration → Bytes
  unfolding reference_lines managed_lines join_lines
  render_managed_toml value =
      codec.encode
        (join_lines (List.◌++◌ (managed_lines value) (reference_lines value.secret_refs)))

  -- The bytes without the UTF-8 mark.
  unfoldable pub without_mark : Bytes → Bytes
  without_mark (a ∷ b ∷ c ∷ rest) =
      if (a == 0xef) && (b == 0xbb) && (c == 0xbf) then rest else a ∷ b ∷ c ∷ rest
  without_mark raw = raw

  -- `none` stands for the `UnicodeDecodeError`, `ValueError` or `ValidationError` that it raises.
  unfoldable pub parse_managed_toml : Bytes → Option ManagedConfiguration
  unfolding without_mark
  parse_managed_toml raw = codec.loads (without_mark raw)

-- ===== src/Configuration/Disk.antt =====
-- The file system under `ConfigurationStore` (control_plane/configuration/config_store.py), and a
-- step that may raise. `Platform` is what the operating system answers to the n-th call.
use ai_agent_desktop.Base.{
  ℕ, suc, String, Bool, Option, none, some, List, if◌then◌else◌, ◌≡◌, refl, ◌⊎◌, inl, inr,
}
use ai_agent_desktop.Base.Dict.{Dict}
use ai_agent_desktop.Errors.{UserFacingError, user_error}
use ai_agent_desktop.Configuration.Records.{Bytes, Tables}

-- What is raised: `ConfigurationError`, another `InstallerError`, `OSError`, the `ValueError`s of
-- reading a text, `SQLAlchemyError` and `AssertionError`.
pub data Exception : Type 0 where
  configuration_error : UserFacingError → Exception
  installer_error : UserFacingError → Exception
  os_error : Exception
  value_error : Exception
  sql_error : Exception
  assertion_error : Exception

-- `denied` is a `PermissionError` and `broken` another `OSError`; at `littered` an `OSError` is
-- followed by one from the removal of the temporary file.
pub data Io : Type 0 where
  fine denied broken littered : Io

pub record Platform : Type 0 where
  -- What `ComponentLayout` raises on unsafe paths.
  pub layout_error : ℕ → Option UserFacingError
  pub config_dir_is_link : ℕ → Bool
  pub make_directory : ℕ → Bool
  pub is_writable : ℕ → Bool
  pub replace : ℕ → Io
  pub read : ℕ → Io
  pub unlink : ℕ → Io
  -- Whether the n-th session of the database commits.
  pub commits : ℕ → Bool

-- The managed file, the backups by path, the tables, and how many calls were answered.
pub record World : Type 0 where
  pub file : Option Bytes
  pub backup_files : Dict Bytes
  pub tables : Tables
  pub calls : ℕ

pub data Attempt {ℓ} (A : Type ℓ) : Type ℓ where
  ok : A → Attempt A
  raised : Exception → Attempt A

abbrev pub Action : Type 0 → Type 0
Action A = World → Attempt A × World

module _ {A : Type 0} where
  abbrev pub pure : A → Action A
  pure a w = (ok a, w)

  abbrev pub raise : Exception → Action A
  raise e w = (raised e, w)

  abbrev pub gets : (World → A) → Action A
  gets f w = (ok (f w), w)

  -- `try` with a handler of all that may be raised.
  abbrev pub catch : Action A → (Exception → Action A) → Action A
  catch m handler w = let (r, w') = m w in elim r [ ok a ↦ (ok a, w') | raised e ↦ handler e w' ]

-- The next step after an end of the last one.
abbrev pub bind_from : {A B : Type 0} → (A → Action B) → Attempt A × World → Attempt B × World
bind_from f (ok a, w) = f a w
bind_from f (raised e, w) = (raised e, w)

infixl 5 ◌>>=◌ ◌>>◌
abbrev pub ◌>>=◌ : {A B : Type 0} → Action A → (A → Action B) → Action B
◌>>=◌ m f w = bind_from f (m w)

abbrev pub ◌>>◌ : {B : Type 0} → Action (Unit {0}) → Action B → Action B
m >> k = m >>= λ _. k

abbrev pub raise_if : Bool → Exception → Action (Unit {0})
raise_if b e w = (if b then raised e else ok tt, w)

-- `try m`, `except` by the handler, `else` the rest.
abbrev pub attempt : {A B : Type 0} → Action A → (Exception → Action B) → (A → Action B) → Action B
attempt m handler next w =
    let (r, w') = m w in elim r [ ok a ↦ next a w' | raised e ↦ handler e w' ]

-- The next answer of the platform.
abbrev pub ask : {A : Type 0} → (ℕ → A) → Action A
ask answer w = (ok (answer w.calls), record w { calls = suc w.calls })

abbrev pub raise_some : Option Exception → Action (Unit {0})
raise_some none w = (ok tt, w)
raise_some (some e) w = (raised e, w)

abbrev pub map_error : Option UserFacingError → Option Exception
map_error none = none
map_error (some e) = some (installer_error e)

abbrev pub configuration_failure : String → String → Bool → List String → Exception
configuration_failure code message retryable actions =
    configuration_error (user_error code message retryable actions)

pub Attempt-cases {ℓ} :
    {A : Type ℓ} (r : Attempt A) → ((a : A) × (r ≡ ok a)) ⊎ ((e : Exception) × (r ≡ raised e))
Attempt-cases (ok a) = inl (a, refl)
Attempt-cases (raised e) = inr (e, refl)

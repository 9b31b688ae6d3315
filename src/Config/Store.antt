-- ===== src/Config/Store.antt =====
-- deployment-core/pkg/deploycore/config/config.go: Load, Write, the Store and DefaultProjectConfig.
-- Parameters: the file system, with the state `D` of the disk, and gopkg.in/yaml.v3 (`decode` with
-- unknown fields refused, `encode`).
pub mod Initial
pub mod RoundTrip
use devopsellence.Base.{
  ℕ, Bool, Option, none, some, List, [], ◌∷◌, Text, codes, ℤ, pos, Dict, Result, ok, err, ◌>>=◌,
  if◌then◌else◌,
}
use devopsellence.Config.Types.{
  HttpHealthcheck, ServicePort, ServiceConfig, BuildConfig, ProjectConfig, current_schema_version,
  default_build_platforms, default_web_port, web, empty_service,
}
use devopsellence.Config.Defaults.{is_zero, apply_defaults, http}
use devopsellence.Config.Resolved.{ConfigError}
use devopsellence.Config.Validate.{validate}

-- What os.ReadFile returns: os.ErrNotExist, another error, or the contents.
pub data FileRead : Type 0 where
  missing : FileRead
  failed contents : Text → FileRead

-- The file system, as the code uses it: path/filepath and os.
pub record FileSystem (D : Type 0) : Type 0 where
  pub join : Text → Text → Text
  pub dir : Text → Text
  pub exists : D → Text → Bool
  pub read_file : D → Text → FileRead
  pub mkdir_all : D → Text → D × Option Text
  pub write_file : D → (path text : Text) → D × Option Text

-- gopkg.in/yaml.v3
pub record Yaml : Type 0 where
  pub decode : Text → Result Text ProjectConfig
  pub encode : ProjectConfig → Result Text Text

pub data StoreError : Type 0 where
  read_failed decode_failed write_failed encode_failed : Text → StoreError
  schema_version_missing : StoreError
  config_invalid : ConfigError → StoreError
  not_initialized : Text → StoreError

unfoldable pub checked :
    Result ConfigError (Unit {0}) → ProjectConfig → Result StoreError ProjectConfig
checked (ok u) cfg = ok cfg
checked (err e) cfg = err (config_invalid e)

-- What Load does with a decoded configuration.
unfoldable pub accept : (ℕ → ℕ) → ProjectConfig → Result StoreError ProjectConfig
unfolding checked
accept lower cfg =
    if is_zero cfg.schema_version
    then err schema_version_missing
    else checked (validate lower (apply_defaults lower cfg)) (apply_defaults lower cfg)

abbrev pub file_path : Text
file_path = codes "devopsellence.yml"

unfoldable pub initialized :
    Text → Result StoreError (Option ProjectConfig) → Result StoreError ProjectConfig
initialized root (err e) = err e
initialized root (ok none) = err (not_initialized root)
initialized root (ok (some cfg)) = ok cfg

-- What a call left on the disk, and its error or what follows.
unfoldable pub unless_failed {ℓ κ} :
    {D : Type κ} {A : Type ℓ}
    → D × Option Text
    → (D → D × Result StoreError A)
    → D × Result StoreError A
unless_failed (disk, none) next = next disk
unless_failed (disk, some e) next = (disk, err (write_failed e))

module _ {D : Type 0} (fs : FileSystem D) (yaml : Yaml) (lower : ℕ → ℕ) where
  unfoldable pub accept_decoded :
      Result Text ProjectConfig → Result StoreError (Option ProjectConfig)
  unfolding accept
  accept_decoded (err e) = err (decode_failed e)
  accept_decoded (ok cfg) = accept lower cfg >>= λ accepted. ok (some accepted)

  unfoldable pub load_read : FileRead → Result StoreError (Option ProjectConfig)
  unfolding accept_decoded
  load_read missing = ok none
  load_read (failed e) = err (read_failed e)
  load_read (contents text) = accept_decoded (yaml.decode text)

  unfoldable pub load : D → Text → Result StoreError (Option ProjectConfig)
  unfolding load_read
  load disk path = load_read (fs.read_file disk path)

  unfoldable pub existing_path : D → Text → Option Text
  existing_path disk root =
      if fs.exists disk (fs.join root file_path) then some (fs.join root file_path) else none

  unfoldable pub load_if_any : D → Option Text → Result StoreError (Option ProjectConfig)
  unfolding load
  load_if_any disk none = ok none
  load_if_any disk (some path) = load disk path

  unfoldable pub load_from_root : D → Text → Result StoreError (Option ProjectConfig)
  unfolding existing_path load_if_any
  load_from_root disk root = load_if_any disk (existing_path disk root)

  -- Store.Fetch
  unfoldable pub fetch : D → Text → Result StoreError ProjectConfig
  unfolding load_from_root initialized
  fetch disk root = initialized root (load_from_root disk root)

  unfoldable pub write_encoded :
      D → Text → ProjectConfig → Result Text Text → D × Result StoreError ProjectConfig
  unfolding unless_failed
  write_encoded disk path cfg (err e) = (disk, err (encode_failed e))
  write_encoded disk path cfg (ok text) =
      unless_failed (fs.write_file disk path text) (λ disk'. (disk', ok cfg))

  -- What follows the validation.
  unfoldable pub write_checked :
      D → Text → ProjectConfig → Result ConfigError (Unit {0}) → D × Result StoreError ProjectConfig
  unfolding unless_failed write_encoded
  write_checked disk path cfg (err e) = (disk, err (config_invalid e))
  write_checked disk path cfg (ok u) =
      unless_failed (fs.mkdir_all disk (fs.dir path))
        (λ disk'. write_encoded disk' path cfg (yaml.encode cfg))

  -- The disk after the call and what it returns.
  unfoldable pub write : D → Text → ProjectConfig → D × Result StoreError ProjectConfig
  unfolding write_checked
  write disk root cfg =
      let cfg' = apply_defaults lower cfg in
      write_checked disk (fs.join root file_path) cfg' (validate lower cfg')

-- The service of DefaultProjectConfig.
unfoldable pub default_web_service : ServiceConfig
default_web_service = record empty_service {
  ports = record { name = http; port = default_web_port } ∷ [];
  healthcheck = some (record { path = codes "/up"; port = default_web_port });
}

unfoldable pub default_project_config :
    (ℕ → ℕ) → (organization project environment : Text) → ProjectConfig
unfolding default_web_service
default_project_config lower organization project environment = apply_defaults lower (record {
  schema_version = current_schema_version;
  organization = organization;
  project = project;
  default_environment = environment;
  build = record {
    context = codes ".";
    dockerfile = codes "Dockerfile";
    platforms = default_build_platforms;
  };
  services = (web, default_web_service) ∷ [];
  tasks = record { release = none };
  ingress = none;
  environments = [];
})

-- ===== src/Config.antt =====
-- The validated configuration that the components read: src/kitdev_sandboxes/config.py.
-- The loader and the schema checks are not modelled here.
pub mod Sample
use kitdev_sandboxes.Base.{ℕ, String, Bool, Option, List}

pub data LifecycleMode : Type 0 where
  production development migration : LifecycleMode

pub data DeploymentProfile : Type 0 where
  minimal standard full : DeploymentProfile

pub record DeploymentConfig : Type 0 where
  pub profile : DeploymentProfile
  pub lifecycle_mode : LifecycleMode
  pub listen_address : String
  pub public_exposure : Bool
  pub domain : Option String

pub record PathsConfig : Type 0 where
  pub install : String
  pub config : String
  pub state : String
  pub logs : String
  pub runtime : String

pub record SandboxConfig : Type 0 where
  pub default_template : String
  pub default_vcpus : ℕ
  pub default_memory_mib : ℕ
  pub default_disk_mib : ℕ
  pub default_timeout_seconds : ℕ
  pub default_ttl_seconds : ℕ
  pub max_processes : ℕ
  pub max_output_bytes : ℕ

pub record NetworkConfig : Type 0 where
  pub ipv4_cidr : String
  pub ipv6_enabled : Bool
  pub dns_resolvers : List String
  pub allow_http_egress : Bool
  pub allow_private_egress : Bool
  pub private_egress_allowlist : List String
  pub sandbox_to_sandbox : Bool

pub record FeaturesConfig : Type 0 where
  pub observability : Bool
  pub persistence : Bool
  pub backups : Bool
  pub browser_template : Bool
  pub desktop_template : Bool

pub record IdentityConfig : Type 0 where
  pub operator : Option String

pub record Configuration : Type 0 where
  pub schema_version : ℕ
  pub deployment : DeploymentConfig
  pub paths : PathsConfig
  pub sandbox : SandboxConfig
  pub network : NetworkConfig
  pub features : FeaturesConfig
  pub identity : IdentityConfig

-- `LifecycleMode.value`
abbrev pub mode_value : LifecycleMode → String
mode_value LifecycleMode.production = "production"
mode_value LifecycleMode.development = "development"
mode_value LifecycleMode.migration = "migration"

abbrev pub is_production : LifecycleMode → Bool
is_production LifecycleMode.production = Bool.true
is_production LifecycleMode.development = Bool.false
is_production LifecycleMode.migration = Bool.false

-- ===== src/Config.antt =====
-- The settings of the commands: InitializeMainConfig and InitializeConfig of commands/kappa.go,
-- InitializeServerConfig of commands/server.go, InitializeCertAuthConfig of commands/init-ca.go and
-- InitializeNewCertConfig of commands/new-cert.go. The package viper is a parameter.
pub mod Steps
pub mod Table
pub mod Sources
pub mod Declared
pub mod Casts
use kappa.Text.{lower}
use kappa.Base.{
  ℕ, Bytes, codes, List, [], ◌∷◌, ◌++◌, Bool, true, false, not, leb, ◌&&◌, ◌+◌, Option, none, some,
  ◌==◌, nat_eq, list_eq, if◌then◌else◌, ◌≡◌,
}

pub data Value : Type 0 where
  text : Bytes → Value
  number : ℕ → Value
  flag : Bool → Value

-- What viper knows of a key: the value that was set, the name of its environment variable, the value in
-- the file and the default.
pub record Layers : Type 0 where
  pub explicit : Option Value
  pub env_name : Option Bytes
  pub file : Option Value
  pub default : Option Value

abbrev pub first_of : Option Value → Option Value → Option Value
first_of none w = w
first_of (some v) w = some v

-- The operations of viper that the program calls, and their laws. The view of a configuration at a key
-- is for the laws only.
pub record Viper : Type 1 where
  pub Config : Type 0
  -- the values of environment variables, and of keys in the file that is read
  pub environment : Bytes → Option Value
  pub files : Bytes → Option Value
  pub set : Bytes → Value → Config → Config
  pub set_default : Bytes → Value → Config → Config
  pub bind_env : Bytes → Bytes → Config → Config
  pub read_in_config : Config → Config
  pub get : Config → Bytes → Option Value
  pub view : Config → Bytes → Layers

abbrev pub from_env : Viper → Option Bytes → Option Value
from_env v none = none
from_env v (some name) = v.environment name

-- A value that is set comes first, then the environment, the file and the default.
abbrev pub resolve : Viper → Layers → Option Value
resolve v l = first_of l.explicit (first_of (from_env v l.env_name) (first_of l.file l.default))

pub record ViperLaws (v : Viper) : Type 0 where
  pub get_resolves : (c : v.Config) → (k : Bytes) → v.get c k ≡ resolve v (v.view c k)
  pub view_set :
      (c : v.Config)
      → (k : Bytes) → (x : Value) → (asked : Bytes)
      → v.view (v.set k x c) asked ≡ (
          if lower k == lower asked
          then record (v.view c asked) { explicit = some x }
          else v.view c asked)
  pub view_default :
      (c : v.Config)
      → (k : Bytes) → (x : Value) → (asked : Bytes)
      → v.view (v.set_default k x c) asked ≡ (
          if lower k == lower asked
          then record (v.view c asked) { default = some x }
          else v.view c asked)
  pub view_env :
      (c : v.Config)
      → (k : Bytes) → (name : Bytes) → (asked : Bytes)
      → v.view (v.bind_env k name c) asked ≡ (
          if lower k == lower asked
          then record (v.view c asked) { env_name = some name }
          else v.view c asked)
  pub view_read :
      (c : v.Config)
      → (asked : Bytes)
      → v.view (v.read_in_config c) asked ≡ record (v.view c asked) { file = v.files asked }

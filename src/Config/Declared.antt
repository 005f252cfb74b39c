-- ===== src/Config/Declared.antt =====
-- The flags that the commands declare, in the functions `init` of commands/kappa.go, commands/server.go,
-- commands/init-ca.go and commands/new-cert.go. Their short names and texts are left out.
pub mod Typed
use kappa.Base.{
  Bytes, codes, List, [], ◌∷◌, Option, none, some, false, true, Bool, ◌==◌, nat_eq, list_eq,
  if◌then◌else◌, ◌≡◌,
}
use kappa.Config.{Value, text, number, flag}
use kappa.Config.Steps.{Flags, AllFlags}
use kappa.Config.Table.{Command, of_server, of_init_ca, of_new_cert}

pub data Kind : Type 0 where
  of_text of_number of_flag : Kind

abbrev pub kind : Value → Kind
kind (text s) = of_text
kind (number n) = of_number
kind (flag b) = of_flag

-- A call of StringVarP, IntVarP or BoolVarP, by the kind of its default.
pub record Declared : Type 0 where
  pub name : Bytes
  pub default : Value

abbrev declare : Bytes → Value → Declared
declare name default = record { name = name; default = default }

abbrev pub main_flags : List Declared
main_flags = declare (codes "config") (text (codes "./")) ∷ []

abbrev pub server_flags : List Declared
server_flags =
    declare (codes "ssh-key") (text [])
    ∷ declare (codes "admin-cert") (text [])
    ∷ declare (codes "ca-cert") (text [])
    ∷ declare (codes "tls-cert") (text [])
    ∷ declare (codes "tls-key") (text [])
    ∷ declare (codes "data") (text [])
    ∷ declare (codes "ssh-listen") (text [])
    ∷ declare (codes "http-listen") (text (codes ":"))
    ∷ declare (codes "node-name") (text [])
    ∷ declare (codes "cluster") (text [])
    ∷ declare (codes "nodes") (text [])
    ∷ declare (codes "bootstrap") (flag false)
    ∷ declare (codes "bootstrap-expect") (number 0)
    ∷ declare (codes "gossip-bind-addr") (text [])
    ∷ declare (codes "gossip-bind-port") (number 7946)
    ∷ declare (codes "gossip-advert-addr") (text [])
    ∷ declare (codes "gossip-advert-port") (number 7946)
    ∷ []

abbrev pub init_ca_flags : List Declared
init_ca_flags =
    declare (codes "bits") (number 4096)
    ∷ declare (codes "years") (number 10)
    ∷ declare (codes "organization") (text (codes "kappa-ca"))
    ∷ declare (codes "country") (text (codes "USA"))
    ∷ declare (codes "hosts") (text (codes "127.0.0.1"))
    ∷ declare (codes "overwrite") (flag false)
    ∷ []

abbrev pub new_cert_flags : List Declared
new_cert_flags =
    declare (codes "bits") (number 4096)
    ∷ declare (codes "hosts") (text (codes "127.0.0.1"))
    ∷ declare (codes "years") (number 10)
    ∷ declare (codes "organization") (text (codes "kappa-ca"))
    ∷ declare (codes "country") (text (codes "USA"))
    ∷ declare (codes "name") (text (codes "localhost"))
    ∷ declare (codes "overwrite") (flag false)
    ∷ []

abbrev pub declared_by : Command → List Declared
declared_by of_server = server_flags
declared_by of_init_ca = init_ca_flags
declared_by of_new_cert = new_cert_flags

-- `Lookup`, which is nil for a flag that is not declared.
abbrev pub find_flag : Bytes → List Declared → Option Declared
find_flag name [] = none
find_flag name (d ∷ ds) = if d.name == name then some d else find_flag name ds

-- What the package pflag reads from a command line: values of flags that are declared, of their kinds.
abbrev pub Conforms : List Declared → Flags → Type 0
Conforms ds flags =
    (name : Bytes) (x : Value)
    → flags name ≡ some x
    → (d : Declared) × (find_flag name ds ≡ some d) × (kind x ≡ kind d.default)

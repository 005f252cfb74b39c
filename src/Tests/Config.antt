-- ===== src/Tests/Config.antt =====
-- A viper whose configuration is a function from keys, with one environment variable and one entry in
-- the file.
use kappa.Base.{
  Bytes, codes, Option, none, some, ◌==◌, nat_eq, list_eq, list_beq, if◌then◌else◌, ◌≡◌, refl, ap,
  [], Bool, false,
}
use kappa.Cluster.Atoi.{ℤ, pos}
use kappa.Config.Casts.{Casts}
use kappa.Pki.Sources.{settings_of, expected, settings_of-initialize_config}
use kappa.Config.{Value, text, number, flag, Layers, first_of, Viper, from_env, resolve, ViperLaws}
use kappa.Text.{lower}
use kappa.Config.Steps.{Flags, AllFlags, initialize_config}
use kappa.Config.Sources.{blank}

abbrev pub one_of : Bytes → Bytes → Bytes → Option Value
one_of name value asked = if name == asked then some (text value) else none

abbrev environment : Bytes → Option Value
environment = one_of (codes "KAPPA_SSH_KEY") (codes "env.key")

abbrev pub files : Bytes → Option Value
files = one_of (codes "Bits") (codes "2048")

abbrev env_value : Option Bytes → Option Value
env_value none = none
env_value (some name) = environment name

abbrev with_layer : Bytes → (Layers → Layers) → (Bytes → Layers) → Bytes → Layers
with_layer key change c asked = if lower key == lower asked then change (c asked) else c asked

abbrev pub functions : Viper
functions = record {
  Config = Bytes → Layers;
  environment = environment;
  files = files;
  set = λ k x c. with_layer k (λ l. record l { explicit = some x }) c;
  set_default = λ k x c. with_layer k (λ l. record l { default = some x }) c;
  bind_env = λ k name c. with_layer k (λ l. record l { env_name = some name }) c;
  read_in_config = λ c asked. record (c asked) { file = files asked };
  get = λ c k.
      first_of (c k).explicit
        (first_of (env_value (c k).env_name) (first_of (c k).file (c k).default));
  view = λ c k. c k;
}

same_env : (name : Option Bytes) → env_value name ≡ from_env functions name
same_env none = refl
same_env (some n) = refl

get_functions :
    (l : Layers)
    → first_of l.explicit (first_of (env_value l.env_name) (first_of l.file l.default))
      ≡ resolve functions l
get_functions l =
    ap (λ w. first_of l.explicit (first_of w (first_of l.file l.default))) (same_env l.env_name)

pub functions-ViperLaws : ViperLaws functions
functions-ViperLaws = record {
  get_resolves = λ c k. get_functions (c k);
  view_set = λ c k x asked. refl;
  view_default = λ c k x asked. refl;
  view_env = λ c k name asked. refl;
  view_read = λ c asked. refl;
}

abbrev pub no_flags : Flags
no_flags name = none

-- `new-cert` with a flag for the size of the key
abbrev pub new_cert_flags : AllFlags
new_cert_flags = record {
  main = no_flags;
  server = no_flags;
  init_ca = no_flags;
  new_cert = one_of (codes "bits") (codes "1024");
}

-- The size in the flag is not taken, and the one in the file is.
new_cert_run :
    functions.get (initialize_config functions new_cert_flags (λ k. blank)) (codes "Bits")
    ≡ some (text (codes "2048"))
unfolding initialize_config list_beq
new_cert_run = refl

abbrev as_text : Option Value → Bytes
as_text (some (text s)) = s
as_text _ = []

abbrev as_flag : Option Value → Bool
as_flag (some (flag b)) = b
as_flag _ = false

abbrev as_number : Option Value → ℤ
as_number (some (number n)) = pos n
as_number _ = pos 0

-- Texts that are no numbers are 0.
abbrev pub plain_casts : Casts
plain_casts = record { to_string = as_text; to_bool = as_flag; to_int = as_number }

settings_of-initialize_config_example :
    settings_of functions plain_casts (initialize_config functions new_cert_flags (λ k. blank))
    ≡ expected functions plain_casts new_cert_flags
settings_of-initialize_config_example =
    settings_of-initialize_config functions plain_casts new_cert_flags functions-ViperLaws
      (λ k. blank) refl

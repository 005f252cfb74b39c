-- ===== src/Client/Connect.antt =====
-- The client before its session: InitializeClientConfig, and the Run function of commands/cli.go down to
-- the history. The packages that read files, parse keys and addresses and speak ssh are a record of
-- functions.
pub mod Dialled
use kappa.Base.{
  Bytes, codes, List, [], ◌∷◌, Bool, true, false, Option, none, some, nonempty, Result, ok, err,
}
use kappa.Config.{text, Viper}
use kappa.Config.Steps.{Flags, Step, set_default, set_if_changed, run_steps}
use kappa.Config.Casts.{Casts, get_string}

abbrev pub client_steps : List Step
client_steps =
    set_default (codes "ClientKey") (text (codes "~/.ssh/id_rsa"))
    ∷ set_if_changed (codes "identity-file") (codes "ClientKey")
    ∷ []

unfoldable pub initialize_client_config : (v : Viper) → Flags → v.Config → v.Config
initialize_client_config v flags = run_steps v flags client_steps

-- `url.URL`, with the name of its user, `none` for a nil User.
pub record Url : Type 0 where
  pub user : Option Bytes
  pub host : Bytes

pub record Network : Type 1 where
  pub Error : Type 0
  pub Key : Type 0
  pub Client : Type 0
  pub read_file : Bytes → Result Error Bytes
  pub parse_private_key : Bytes → Result Error Key
  pub parse_url : Bytes → Result Error Url
  -- ssh.Dial, of the host, the user and the key
  pub dial : Bytes → Bytes → Key → Result Error Client

pub data Refused (E : Type 0) : Type 0 where
  unreadable_key invalid_key invalid_url not_dialled : E → Refused E
  missing_url missing_username : Refused E

module _ (n : Network) where
  abbrev pub Connected : Type 0
  Connected = Result (Refused n.Error) n.Client

  abbrev pub dialled : Result n.Error n.Client → Connected
  dialled (ok client) = ok client
  dialled (err e) = err (not_dialled e)

  abbrev pub as_user : n.Key → Bytes → Bytes → Bool → Connected
  as_user key host user true = dialled (n.dial host user key)
  as_user key host user false = err missing_username

  -- A name that is missing and an empty one have the same message.
  abbrev pub to_host : n.Key → Bytes → Option Bytes → Connected
  to_host key host none = err missing_username
  to_host key host (some user) = as_user key host user (nonempty user)

  abbrev pub to_url : n.Key → Result n.Error Url → Connected
  to_url key (err e) = err (invalid_url e)
  to_url key (ok u) = to_host key u.host u.user

  -- `if len(args) < 1`: the other arguments are not read.
  abbrev pub to_args : n.Key → List Bytes → Connected
  to_args key [] = err missing_url
  to_args key (address ∷ args) = to_url key (n.parse_url address)

  abbrev pub with_key : List Bytes → Result n.Error n.Key → Connected
  with_key args (err e) = err (invalid_key e)
  with_key args (ok key) = to_args key args

  abbrev pub with_bytes : List Bytes → Result n.Error Bytes → Connected
  with_bytes args (err e) = err (unreadable_key e)
  with_bytes args (ok bytes) = with_key args (n.parse_private_key bytes)

  unfoldable pub connect : Bytes → List Bytes → Connected
  connect key_file args = with_bytes args (n.read_file key_file)

  unfoldable pub start_client : (v : Viper) → Casts → Flags → List Bytes → v.Config → Connected
  unfolding initialize_client_config connect
  start_client v casts flags args c =
      connect (get_string v casts (initialize_client_config v flags c) (codes "ClientKey")) args

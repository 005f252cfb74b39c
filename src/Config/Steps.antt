-- ===== src/Config/Steps.antt =====
-- The settings that the commands make, in the order of the calls.
use kappa.Base.{Bytes, codes, List, [], ◌∷◌, Option, none, some, false}
use kappa.Config.{Value, text, number, flag, Viper}

-- The value of each flag of a command that is `Changed`.
abbrev pub Flags : Type 0
Flags = Bytes → Option Value

-- A call of SetDefault or of BindEnv, or a call of Set if a flag is changed.
pub data Step : Type 0 where
  set_default : Bytes → Value → Step
  bind_env : Bytes → Bytes → Step
  set_if_changed : Bytes → Bytes → Step

module _ (v : Viper) (flags : Flags) where
  abbrev pub set_changed : Bytes → Option Value → v.Config → v.Config
  set_changed key none c = c
  set_changed key (some x) c = v.set key x c

  abbrev pub run_step : Step → v.Config → v.Config
  run_step (set_default key x) c = v.set_default key x c
  run_step (bind_env key name) c = v.bind_env key name c
  run_step (set_if_changed name key) c = set_changed key (flags name) c

  abbrev pub run_steps : List Step → v.Config → v.Config
  run_steps [] c = c
  run_steps (s ∷ ss) c = run_steps ss (run_step s c)

abbrev pub server_steps : List Step
server_steps =
    set_default (codes "CACert") (text (codes "ca.crt"))
    ∷ bind_env (codes "CACert") (codes "KAPPA_CA_CERT")
    ∷ set_default (codes "AdminCert") (text (codes "admin.crt"))
    ∷ bind_env (codes "AdminCert") (codes "KAPPA_ADMIN_CERT")
    ∷ set_default (codes "SSHKey") (text (codes "ssh-identity.key"))
    ∷ bind_env (codes "SSHKey") (codes "KAPPA_SSH_KEY")
    ∷ set_default (codes "TLSCert") (text (codes "tls-identity.crt"))
    ∷ bind_env (codes "TLSCert") (codes "KAPPA_TLS_CERT")
    ∷ set_default (codes "TLSKey") (text (codes "tls-identity.key"))
    ∷ bind_env (codes "TLSKey") (codes "KAPPA_TLS_KEY")
    ∷ set_default (codes "DataPath") (text (codes "./data"))
    ∷ bind_env (codes "DataPath") (codes "KAPPA_DATA_PATH")
    ∷ set_default (codes "SSHListen") (text (codes ":9022"))
    ∷ bind_env (codes "SSHListen") (codes "KAPPA_SSH_LISTEN")
    ∷ set_default (codes "HTTPListen") (text (codes ":19022"))
    ∷ bind_env (codes "HTTPListen") (codes "KAPPA_HTTP_LISTEN")
    ∷ set_default (codes "ClusterNodes") (text (codes ""))
    ∷ bind_env (codes "ClusterNodes") (codes "KAPPA_CLUSTER_NODES")
    ∷ set_default (codes "NodeName") (text (codes "kappa-server"))
    ∷ bind_env (codes "NodeName") (codes "KAPPA_NODE_NAME")
    ∷ set_default (codes "ClusterName") (text (codes "kappa"))
    ∷ bind_env (codes "ClusterName") (codes "KAPPA_CLUSTER_NAME")
    ∷ set_default (codes "Bootstrap") (flag false)
    ∷ bind_env (codes "Bootstrap") (codes "KAPPA_BOOTSTRAP")
    ∷ set_default (codes "BootstrapExpect") (number 0)
    ∷ set_default (codes "GossipBindAddr") (text (codes "0.0.0.0"))
    ∷ bind_env (codes "GossipBindAddr") (codes "KAPPA_GOSSIP_BIND_ADDR")
    ∷ set_default (codes "GossipBindPort") (number 7946)
    ∷ bind_env (codes "GossipBindPort") (codes "KAPPA_GOSSIP_BIND_PORT")
    ∷ set_default (codes "GossipAdvertiseAddr") (text (codes ""))
    ∷ bind_env (codes "GossipAdvertiseAddr") (codes "KAPPA_GOSSIP_ADVERTISE_ADDR")
    ∷ set_default (codes "GossipAdvertisePort") (number 7946)
    ∷ bind_env (codes "GossipAdvertisePort") (codes "KAPPA_GOSSIP_ADVERTISE_PORT")
    ∷ set_if_changed (codes "ca-cert") (codes "CACert")
    ∷ set_if_changed (codes "admin-cert") (codes "AdminCert")
    ∷ set_if_changed (codes "ssh-key") (codes "SSHKey")
    ∷ set_if_changed (codes "tls-cert") (codes "TLSCert")
    ∷ set_if_changed (codes "tls-key") (codes "TLSKey")
    ∷ set_if_changed (codes "ssh-listen") (codes "SSHListen")
    ∷ set_if_changed (codes "http-listen") (codes "HTTPListen")
    ∷ set_if_changed (codes "data") (codes "DataPath")
    ∷ set_if_changed (codes "nodes") (codes "ClusterNodes")
    ∷ set_if_changed (codes "node-name") (codes "NodeName")
    ∷ set_if_changed (codes "cluster") (codes "ClusterName")
    ∷ set_if_changed (codes "bootstrap") (codes "Bootstrap")
    ∷ set_if_changed (codes "bootstrap-expect") (codes "BootstrapExpect")
    ∷ set_if_changed (codes "gossip-bind-addr") (codes "GossipBindAddr")
    ∷ set_if_changed (codes "gossip-bind-port") (codes "GossipBindPort")
    ∷ set_if_changed (codes "gossip-advert-addr") (codes "GossipAdvertiseAddr")
    ∷ set_if_changed (codes "gossip-advert-port") (codes "GossipAdvertisePort")
    ∷ []

abbrev pub cert_auth_steps : List Step
cert_auth_steps =
    set_default (codes "Bits") (text (codes "4096"))
    ∷ set_default (codes "Years") (text (codes "10"))
    ∷ set_default (codes "Organization") (text (codes "kappa-ca"))
    ∷ set_default (codes "Country") (text (codes "USA"))
    ∷ set_if_changed (codes "bits") (codes "Bits")
    ∷ set_if_changed (codes "years") (codes "Years")
    ∷ set_if_changed (codes "organization") (codes "Organization")
    ∷ set_if_changed (codes "country") (codes "Country")
    ∷ set_if_changed (codes "hosts") (codes "Hosts")
    ∷ []

abbrev pub new_cert_steps : List Step
new_cert_steps =
    set_default (codes "Name") (text (codes "localhost"))
    ∷ set_default (codes "ForceOverwrite") (text (codes "false"))
    ∷ set_if_changed (codes "name") (codes "Name")
    ∷ set_if_changed (codes "overwrite") (codes "ForceOverwrite")
    ∷ []

-- The flags of the main command, of `server`, of `init-ca` and of `new-cert`.
pub record AllFlags : Type 0 where
  pub main : Flags
  pub server : Flags
  pub init_ca : Flags
  pub new_cert : Flags

module _ (v : Viper) where
  -- A file that cannot be read is only logged.
  unfoldable pub initialize_main_config : Flags → v.Config → v.Config
  initialize_main_config flags c =
      v.read_in_config (set_changed v flags (codes "ConfigPath") (flags (codes "config")) c)

  unfoldable pub initialize_server_config : Flags → v.Config → v.Config
  initialize_server_config flags = run_steps v flags server_steps

  unfoldable pub initialize_cert_auth_config : Flags → v.Config → v.Config
  initialize_cert_auth_config flags = run_steps v flags cert_auth_steps

  unfoldable pub initialize_new_cert_config : Flags → v.Config → v.Config
  initialize_new_cert_config flags = run_steps v flags new_cert_steps

  -- No call fails.
  unfoldable pub initialize_config : AllFlags → v.Config → v.Config
  unfolding initialize_main_config initialize_server_config initialize_cert_auth_config
      initialize_new_cert_config
  initialize_config f c = initialize_new_cert_config f.new_cert (
      initialize_cert_auth_config f.init_ca
        (initialize_server_config f.server (initialize_main_config f.main c)))

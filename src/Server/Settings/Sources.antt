-- ===== src/Server/Settings/Sources.antt =====
-- The configuration of a server, traced back to the command line, the environment and the file.
use kappa.Base.{Bytes, codes, [], Option, none, some, false, ◌≡◌}
use kappa.Text.{comma, split}
use kappa.Config.{Value, text, number, flag, first_of, Viper, from_env, ViperLaws}
use kappa.Config.Steps.{AllFlags, initialize_config}
use kappa.Config.Sources.{blank, initialize_config-IsResolved}
use kappa.Server.{DatabaseConfig}
use kappa.Config.Casts.{Casts}
use kappa.Server.Settings.{database_config}

module _ (v : Viper) (casts : Casts) (f : AllFlags) where
  -- The value of the server's flag where that is changed, else of the variable, else in the file, else
  -- the default.
  abbrev pub chosen : Bytes → Option Bytes → Bytes → Value → Option Value
  chosen flag_name variable key default =
      first_of (f.server flag_name)
        (first_of (from_env v variable) (first_of (v.files key) (some default)))

  abbrev pub text_of : Bytes → Bytes → Bytes → Bytes → Bytes
  text_of flag_name variable key default =
      casts.to_string (chosen flag_name (some variable) key (text default))

  abbrev pub configured : DatabaseConfig
  configured = record {
    node_name =
        text_of (codes "node-name") (codes "KAPPA_NODE_NAME") (codes "NodeName")
          (codes "kappa-server");
    cluster_name =
        text_of (codes "cluster") (codes "KAPPA_CLUSTER_NAME") (codes "ClusterName")
          (codes "kappa");
    existing_nodes =
        split comma
          (text_of (codes "nodes") (codes "KAPPA_CLUSTER_NODES") (codes "ClusterNodes") []);
    bootstrap = casts.to_bool (
        chosen (codes "bootstrap") (some (codes "KAPPA_BOOTSTRAP")) (codes "Bootstrap")
          (flag false));
    bootstrap_expect =
        casts.to_int (chosen (codes "bootstrap-expect") none (codes "BootstrapExpect") (number 0));
    build = [];
    admin_certificate_file =
        text_of (codes "admin-cert") (codes "KAPPA_ADMIN_CERT") (codes "AdminCert")
          (codes "admin.crt");
    ca_certificate_file =
        text_of (codes "ca-cert") (codes "KAPPA_CA_CERT") (codes "CACert") (codes "ca.crt");
    data_path =
        text_of (codes "data") (codes "KAPPA_DATA_PATH") (codes "DataPath") (codes "./data");
    ssh_bind_address =
        text_of (codes "ssh-listen") (codes "KAPPA_SSH_LISTEN") (codes "SSHListen") (codes ":9022");
    ssh_private_key_file =
        text_of (codes "ssh-key") (codes "KAPPA_SSH_KEY") (codes "SSHKey")
          (codes "ssh-identity.key");
    gossip_bind_addr =
        text_of (codes "gossip-bind-addr") (codes "KAPPA_GOSSIP_BIND_ADDR") (codes "GossipBindAddr")
          (codes "0.0.0.0");
    gossip_bind_port = casts.to_int (
        chosen (codes "gossip-bind-port") (some (codes "KAPPA_GOSSIP_BIND_PORT"))
          (codes "GossipBindPort") (number 7946));
    gossip_advertise_addr =
        text_of (codes "gossip-advert-addr") (codes "KAPPA_GOSSIP_ADVERTISE_ADDR")
          (codes "GossipAdvertiseAddr") [];
    gossip_advertise_port = casts.to_int (
        chosen (codes "gossip-advert-port") (some (codes "KAPPA_GOSSIP_ADVERTISE_PORT"))
          (codes "GossipAdvertisePort") (number 7946));
  }

  -- The command `server` runs a server with the configuration that its flags, its environment and the
  -- file choose, each field from its own sources and default. Viper knew of no key before.
  pub database_config-initialize_config :
      (law : ViperLaws v) (c : v.Config)
      → v.view c ≡ (λ k. blank)
      → database_config v casts (initialize_config v f c) ≡ configured
  unfolding database_config
  database_config-initialize_config law c fresh =
      let files = initialize_config-IsResolved v law f c fresh in
      let paths = files.1.1.1.1.1 in
      let cluster = paths.1.1.1 in
      let gossip = cluster.1.1.1.1.1 in
      λ i. record {
        node_name = casts.to_string (cluster.1.0 i);
        cluster_name = casts.to_string (cluster.1.1.0 i);
        existing_nodes = split comma (casts.to_string (cluster.0 i));
        bootstrap = casts.to_bool (cluster.1.1.1.0 i);
        bootstrap_expect = casts.to_int (cluster.1.1.1.1.0 i);
        build = [];
        admin_certificate_file = casts.to_string (files.1.0 i);
        ca_certificate_file = casts.to_string (files.0 i);
        data_path = casts.to_string (paths.0 i);
        ssh_bind_address = casts.to_string (paths.1.0 i);
        ssh_private_key_file = casts.to_string (files.1.1.0 i);
        gossip_bind_addr = casts.to_string (gossip.0 i);
        gossip_bind_port = casts.to_int (gossip.1.0 i);
        gossip_advertise_addr = casts.to_string (gossip.1.1.0 i);
        gossip_advertise_port = casts.to_int (gossip.1.1.1.0 i);
      }

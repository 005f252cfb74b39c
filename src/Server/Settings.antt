-- ===== src/Server/Settings.antt =====
-- The configuration that the command `server` makes of the settings: commands/server.go. The
-- log output and the connection's deadline are left out, as in DatabaseConfig.
pub mod Sources
pub mod Cluster
use kappa.Base.{Bytes, codes, [], Bool, Option}
use kappa.Text.{comma, split}
use kappa.Cluster.Atoi.{ℤ}
use kappa.Config.{Viper}
use kappa.Config.Casts.{Casts, get_string, get_bool, get_int}
use kappa.Server.{DatabaseConfig}

module _ (v : Viper) (casts : Casts) where
  -- The build is not set, so it is empty.
  unfoldable pub database_config : v.Config → DatabaseConfig
  unfolding split
  database_config s = record {
    node_name = get_string v casts s (codes "NodeName");
    cluster_name = get_string v casts s (codes "ClusterName");
    existing_nodes = split comma (get_string v casts s (codes "ClusterNodes"));
    bootstrap = get_bool v casts s (codes "Bootstrap");
    bootstrap_expect = get_int v casts s (codes "BootstrapExpect");
    build = [];
    admin_certificate_file = get_string v casts s (codes "AdminCert");
    ca_certificate_file = get_string v casts s (codes "CACert");
    data_path = get_string v casts s (codes "DataPath");
    ssh_bind_address = get_string v casts s (codes "SSHListen");
    ssh_private_key_file = get_string v casts s (codes "SSHKey");
    gossip_bind_addr = get_string v casts s (codes "GossipBindAddr");
    gossip_bind_port = get_int v casts s (codes "GossipBindPort");
    gossip_advertise_addr = get_string v casts s (codes "GossipAdvertiseAddr");
    gossip_advertise_port = get_int v casts s (codes "GossipAdvertisePort");
  }

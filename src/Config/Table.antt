-- ===== src/Config/Table.antt =====
-- The settings as a table: where each one can come from.
use kappa.Base.{Bytes, codes, List, [], ◌∷◌, ◌++◌, Option, none, some, false}
use kappa.Config.{Value, text, number, flag}
use kappa.Config.Steps.{Flags, AllFlags}

pub data Command : Type 0 where
  of_server of_init_ca of_new_cert : Command

abbrev pub flags_of : Command → AllFlags → Flags
flags_of of_server f = f.server
flags_of of_init_ca f = f.init_ca
flags_of of_new_cert f = f.new_cert

pub record Row : Type 0 where
  pub key : Bytes
  pub command : Command
  pub flag_name : Bytes
  pub variable : Option Bytes
  pub default : Option Value

abbrev pub row : Command → Bytes → Bytes → Option Bytes → Option Value → Row
row command key flag_name variable default = record {
  key = key;
  command = command;
  flag_name = flag_name;
  variable = variable;
  default = default;
}

abbrev pub server_rows : List Row
server_rows =
    row of_server (codes "CACert") (codes "ca-cert") (some (codes "KAPPA_CA_CERT"))
      (some (text (codes "ca.crt")))
    ∷ row of_server (codes "AdminCert") (codes "admin-cert") (some (codes "KAPPA_ADMIN_CERT"))
        (some (text (codes "admin.crt")))
    ∷ row of_server (codes "SSHKey") (codes "ssh-key") (some (codes "KAPPA_SSH_KEY"))
        (some (text (codes "ssh-identity.key")))
    ∷ row of_server (codes "TLSCert") (codes "tls-cert") (some (codes "KAPPA_TLS_CERT"))
        (some (text (codes "tls-identity.crt")))
    ∷ row of_server (codes "TLSKey") (codes "tls-key") (some (codes "KAPPA_TLS_KEY"))
        (some (text (codes "tls-identity.key")))
    ∷ row of_server (codes "DataPath") (codes "data") (some (codes "KAPPA_DATA_PATH"))
        (some (text (codes "./data")))
    ∷ row of_server (codes "SSHListen") (codes "ssh-listen") (some (codes "KAPPA_SSH_LISTEN"))
        (some (text (codes ":9022")))
    ∷ row of_server (codes "HTTPListen") (codes "http-listen") (some (codes "KAPPA_HTTP_LISTEN"))
        (some (text (codes ":19022")))
    ∷ row of_server (codes "ClusterNodes") (codes "nodes") (some (codes "KAPPA_CLUSTER_NODES"))
        (some (text (codes "")))
    ∷ row of_server (codes "NodeName") (codes "node-name") (some (codes "KAPPA_NODE_NAME"))
        (some (text (codes "kappa-server")))
    ∷ row of_server (codes "ClusterName") (codes "cluster") (some (codes "KAPPA_CLUSTER_NAME"))
        (some (text (codes "kappa")))
    ∷ row of_server (codes "Bootstrap") (codes "bootstrap") (some (codes "KAPPA_BOOTSTRAP"))
        (some (flag false))
    ∷ row of_server (codes "BootstrapExpect") (codes "bootstrap-expect") none (some (number 0))
    ∷ row of_server (codes "GossipBindAddr") (codes "gossip-bind-addr")
        (some (codes "KAPPA_GOSSIP_BIND_ADDR")) (some (text (codes "0.0.0.0")))
    ∷ row of_server (codes "GossipBindPort") (codes "gossip-bind-port")
        (some (codes "KAPPA_GOSSIP_BIND_PORT")) (some (number 7946))
    ∷ row of_server (codes "GossipAdvertiseAddr") (codes "gossip-advert-addr")
        (some (codes "KAPPA_GOSSIP_ADVERTISE_ADDR")) (some (text (codes "")))
    ∷ row of_server (codes "GossipAdvertisePort") (codes "gossip-advert-port")
        (some (codes "KAPPA_GOSSIP_ADVERTISE_PORT")) (some (number 7946))
    ∷ []

abbrev pub cert_rows : List Row
cert_rows =
    row of_init_ca (codes "Bits") (codes "bits") none (some (text (codes "4096")))
    ∷ row of_init_ca (codes "Years") (codes "years") none (some (text (codes "10")))
    ∷ row of_init_ca (codes "Organization") (codes "organization") none
        (some (text (codes "kappa-ca")))
    ∷ row of_init_ca (codes "Country") (codes "country") none (some (text (codes "USA")))
    ∷ row of_init_ca (codes "Hosts") (codes "hosts") none none
    ∷ row of_new_cert (codes "Name") (codes "name") none (some (text (codes "localhost")))
    ∷ row of_new_cert (codes "ForceOverwrite") (codes "overwrite") none
        (some (text (codes "false")))
    ∷ []

abbrev pub rows : List Row
rows = server_rows ++ cert_rows

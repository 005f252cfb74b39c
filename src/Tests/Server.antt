-- ===== src/Tests/Server.antt =====
-- The start of a server over an empty keyspace.
use kappa.Base.{
  Bytes, codes, [], Bool, true, none, some, ◌≡◌, refl, arith, nat_eq, list_eq, list_beq, ok,
}
use kappa.Cluster.Atoi.{pos}
use kappa.Cluster.{get_kappa_server}
use kappa.Bolt.Memory.{Table, bucket, get, put, create_bucket, memory}
use kappa.Bolt.Memory.Laws.{memory_laws}
use kappa.Auth.{create_fingerprint}
use kappa.Users
use kappa.Users.{Crypto, read_key}
use kappa.Ssh.{public_key_callback}
use kappa.Server.{DatabaseConfig}
use kappa.Server.Tags.{member_of, details_of, get_kappa_server-serf_tags}
use kappa.Server.Boot.{Answers, admin, new_server}
use kappa.Server.Start.{log_in-new_server}

abbrev pub config : DatabaseConfig
config = record {
  node_name = codes "west";
  cluster_name = codes "blue";
  existing_nodes = [];
  bootstrap = true;
  bootstrap_expect = pos 3;
  build = codes "1";
  admin_certificate_file = codes "admin.crt";
  ca_certificate_file = codes "ca.crt";
  data_path = codes "data";
  ssh_bind_address = codes ":9022";
  ssh_private_key_file = codes "ssh.key";
  gossip_bind_addr = codes "0.0.0.0";
  gossip_bind_port = pos 7946;
  gossip_advertise_addr = [];
  gossip_advertise_port = pos 7946;
}

abbrev pub ip : Bytes
ip = codes "10.0.0.1"

abbrev pub id : Bytes
id = codes "1234"

get_kappa_server-serf_tags_example :
    get_kappa_server (member_of config id (pos 9022) ip) ≡ ok (details_of config (pos 9022) ip)
get_kappa_server-serf_tags_example =
    get_kappa_server-serf_tags config id (pos 9022) ip (omega arith)

-- Hashes and keys stand for themselves.
abbrev pub plain_crypto : Crypto
plain_crypto = record {
  sha256 = λ s. s;
  md5 = λ s. s;
  pem_decode = λ s. some s;
  parse_certificate = λ s. some s;
  new_public_key = λ s. some s;
}

abbrev pub certificate : Bytes
certificate = codes "key"

-- Errors and servers are texts; every call succeeds, and the root file has a certificate or not.
abbrev pub answers : Bool → Answers Bytes Bytes
answers parses = record {
  make_data_path = none;
  working_directory = none;
  new_system = none;
  ssh_key_file = ok (codes "ssh");
  parse_private_key = λ bytes. none;
  admin_certificate = ok certificate;
  user_store = none;
  root_certificate = ok (codes "root");
  append_certs = λ s. parses;
  callback_user_store = none;
  new_ssh_server = none;
  uuid = ok id;
  ssh_port = pos 9022;
  snapshot_path = codes "data/serf";
  ensure_path = none;
  create_serf = λ c. ok (codes "serf");
  log_error = λ e. some e;
}

abbrev pub empty : Table
empty = []

log_in-new_server_example :
    (public_key_callback memory plain_crypto admin certificate
      (new_server memory Bytes Bytes plain_crypto config (answers true) empty).1).0
    ≡ ok (record { pubkey = certificate; username = admin })
unfolding read_key get bucket create_fingerprint new_server Users.create create_bucket
    Users.add_public_key list_beq put
log_in-new_server_example =
    log_in-new_server memory memory_laws Bytes Bytes plain_crypto empty config (answers true)
      certificate certificate (codes "serf") refl refl refl refl refl refl refl refl

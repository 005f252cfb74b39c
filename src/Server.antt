-- ===== src/Server.antt =====
-- The start of the server: NewServer and setupSerf of server/server.go, and the configuration of
-- server/config.go. What the operating system and other packages answer is a record of answers, one
-- field for each call in the order of the calls; loggers, channels and handlers that are only handed on
-- are left out. UUID4 of pkg/uuid/uuid.go is modelled in Uuid.
pub mod Tags
pub mod Boot
pub mod Start
pub mod Settings
pub mod Events
pub mod Lifecycle
use kappa.Base.{
  ℕ, zero, Bytes, codes, List, [], ◌∷◌, Bool, true, false, Option, none, some, if◌then◌else◌, ◌==◌,
  nat_eq, list_eq, insert, Result, ok, err, State,
}
use kappa.Cluster.Atoi.{ℤ, pos}
use kappa.Cluster.Ports.{show_int}
use kappa.Bolt.{Bolt}
use kappa.Users
use kappa.Users.{Crypto, UserError}

-- The fields of `DatabaseConfig` but the log output and the connection's deadline.
pub record DatabaseConfig : Type 0 where
  pub node_name : Bytes
  pub cluster_name : Bytes
  pub existing_nodes : List Bytes
  pub bootstrap : Bool
  pub bootstrap_expect : ℤ
  pub build : Bytes
  pub admin_certificate_file : Bytes
  pub ca_certificate_file : Bytes
  pub data_path : Bytes
  pub ssh_bind_address : Bytes
  pub ssh_private_key_file : Bytes
  pub gossip_bind_addr : Bytes
  pub gossip_bind_port : ℤ
  pub gossip_advertise_addr : Bytes
  pub gossip_advertise_port : ℤ

abbrev pub Tags : Type 0
Tags = List (Bytes × Bytes)

-- The fields of `serf.Config` that setupSerf sets. `conf.ProtocolVersion` is set to itself.
pub record SerfConfig : Type 0 where
  pub node_name : Bytes
  pub bind_addr : Bytes
  pub bind_port : ℤ
  pub advertise_addr : Bytes
  pub advertise_port : ℤ
  pub tags : Tags
  pub snapshot_path : Bytes
  pub rejoin_after_leave : Bool
  pub enable_name_conflict_resolution : Bool
  -- the name that the merge delegate compares with
  pub merge_name : Bytes

abbrev pub is_zero : ℤ → Bool
is_zero (pos zero) = true
is_zero _ = false

abbrev tag_if : Bool → Bytes → Bytes → Tags → Tags
tag_if b key value tags = if b then insert key value tags else tags

-- The tags, which start as the empty map that `conf.Init` makes.
unfoldable pub serf_tags : DatabaseConfig → Bytes → ℤ → Tags
unfolding insert show_int
serf_tags c id port =
    let tags : Tags = insert (codes "port") (show_int port) (
      insert (codes "build") c.build (
        insert (codes "cluster") c.cluster_name
          (insert (codes "role") (codes "kappa-server") (insert (codes "id") id [])))) in
    let tags : Tags = tag_if c.bootstrap (codes "bootstrap") (codes "1") tags in
    if is_zero c.bootstrap_expect
    then tags
    else insert (codes "expect") (show_int c.bootstrap_expect) tags

-- `path` is `filepath.Join(s.config.DataPath, serfSnapshot)`.
unfoldable pub serf_config : DatabaseConfig → Bytes → ℤ → Bytes → SerfConfig
unfolding serf_tags
serf_config c id port path = record {
  node_name = c.node_name;
  bind_addr = c.gossip_bind_addr;
  bind_port = c.gossip_bind_port;
  advertise_addr = c.gossip_advertise_addr;
  advertise_port = c.gossip_advertise_port;
  tags = serf_tags c id port;
  snapshot_path = path;
  rejoin_after_leave = true;
  enable_name_conflict_resolution = false;
  merge_name = c.cluster_name;
}

module _ (E Serf : Type 0) where
  -- `ensure` is the error of ensurePath, and `create` is serf.Create.
  abbrev create_serf :
      DatabaseConfig → ℤ → Bytes → Option E → (SerfConfig → Result E Serf) → Bytes → Result E Serf
  create_serf c port path (some e) create id = err e
  create_serf c port path none create id = create (serf_config c id port path)

  unfoldable pub setup_serf :
      DatabaseConfig
      → Result E Bytes
      → ℤ
      → Bytes
      → Option E
      → (SerfConfig → Result E Serf)
      → Result E Serf
  unfolding serf_config
  setup_serf c (err e) port path ensure create = err e
  setup_serf c (ok id) port path ensure create = create_serf c port path ensure create id

-- ===== src/Server/Tags.antt =====
-- The tags that a server gives itself are those that other servers take it by.
use kappa.Base.{
  Bytes, codes, [], ◌≡◌, refl, lookup, nat_eq, list_eq, list_beq, ok, Bool-cases, inl, inr, ◌↔◌,
}
use kappa.Cluster.Atoi.{ℤ, pos}
use kappa.Cluster.Ports.{IsInt, atoi-show_int}
use kappa.Cluster.{Member, NodeDetails, get_kappa_server, validate_node}
use kappa.Cluster.Members.{IsMemberOf}
use kappa.Server.{DatabaseConfig, serf_tags, is_zero}

-- The member that serf makes of the server: its name, its address and its tags.
abbrev pub member_of : DatabaseConfig → Bytes → ℤ → Bytes → Member
member_of c id port ip = record { name = c.node_name; addr = ip; tags = serf_tags c id port }

abbrev pub details_of : DatabaseConfig → ℤ → Bytes → NodeDetails
details_of c port ip = record {
  name = c.node_name;
  role = codes "kappa-server";
  cluster = c.cluster_name;
  data_center = [];
  service = [];
  ssh_port = port;
  bootstrap = c.bootstrap;
  addr = record { ip = ip; port = port };
  expect = pos 0;
}

module _ (c : DatabaseConfig) (id : Bytes) (port : ℤ) (ip : Bytes) (small : IsInt port) where
  -- Another server takes the server for a Kappa server and reads its cluster, its port and its
  -- bootstrap mode as they are configured. The port is an integer of 64 bits.
  pub get_kappa_server-serf_tags :
      get_kappa_server (member_of c id port ip) ≡ ok (details_of c port ip)
  unfolding get_kappa_server validate_node serf_tags lookup list_beq
  get_kappa_server-serf_tags = elim (Bool-cases c.bootstrap) [
    | inl b ↦ elim (Bool-cases (is_zero c.bootstrap_expect)) [
      | inl z ↦ rw (b, z, atoi-show_int port small) refl
      | inr z ↦ rw (b, z, atoi-show_int port small) refl
    ]
    | inr b ↦ elim (Bool-cases (is_zero c.bootstrap_expect)) [
      | inl z ↦ rw (b, z, atoi-show_int port small) refl
      | inr z ↦ rw (b, z, atoi-show_int port small) refl
    ]
  ]

  -- A server takes another for a member of the cluster `name` exactly where the other's settings name it
  -- so. The port is an integer of 64 bits.
  pub IsMemberOf-member_of :
      (name : Bytes) → IsMemberOf name (member_of c id port ip) ↔ (c.cluster_name ≡ name)
  IsMemberOf-member_of name = rw get_kappa_server-serf_tags (λ (n, e, same). cc, λ e. (_, refl, e))

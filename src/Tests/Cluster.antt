-- ===== src/Tests/Cluster.antt =====
-- A node list and the members of a cluster.
use kappa.Base.{
  Bytes, codes, [], ◌∷◌, Bool, false, ◌≡◌, refl, ◌==◌, nat_eq, list_eq, list_beq, lookup,
  HasUniqueKeys, ok,
}
use kappa.Cluster.Atoi.{pos, atoi}
use kappa.Cluster.{Addr, NodeDetails, Member, Nodes, get_kappa_server}

-- The addresses are told apart by their hosts.
abbrev host : Addr → Bytes
host a = a.ip

abbrev member : Bytes → Bytes → Member
member name ip = record {
  name = name;
  addr = ip;
  tags =
      (codes "role", codes "kappa-server")
      ∷ (codes "cluster", codes "blue")
      ∷ (codes "port", codes "9022")
      ∷ [];
}

abbrev node : Bytes → Bytes → NodeDetails
node name ip = record {
  name = name;
  role = codes "kappa-server";
  cluster = codes "blue";
  data_center = [];
  service = [];
  ssh_port = pos 9022;
  bootstrap = false;
  addr = record { ip = ip; port = pos 9022 };
  expect = pos 0;
}

abbrev west : NodeDetails
west = node (codes "west") (codes "10.0.0.1")

abbrev east : NodeDetails
east = node (codes "east") (codes "10.0.0.2")

abbrev nodes : Nodes
nodes = (codes "10.0.0.1", west) ∷ []

nodes-HasUniqueKeys : HasUniqueKeys nodes
unfolding lookup
nodes-HasUniqueKeys = (refl, tt)

west_is_server : get_kappa_server (member (codes "west") (codes "10.0.0.1")) ≡ ok west
unfolding get_kappa_server atoi lookup list_beq
west_is_server = refl

abbrev is_west : NodeDetails → Bool
is_west d = d.name == codes "west"

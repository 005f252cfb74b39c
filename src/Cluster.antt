-- ===== src/Cluster.antt =====
-- The cluster's nodes: server/manager.go, and the checks of members in server/utils.go and
-- server/merge.go. The map of a node list is an association list; Go iterates over a map in no fixed
-- order, and the order of a result means nothing. The lock around each method is not modelled. The
-- key `addr.String()` of package net is the argument `addr_string`.
pub mod Atoi
pub mod Ports
pub mod Nodes
pub mod Members
pub mod Events
pub mod Roster
pub mod Channels
use kappa.Base.{
  ℕ, Bytes, codes, List, [], ◌∷◌, ◌++◌, map, Bool, true, false, not, Option, none, some, ◌==◌,
  nat_eq, list_eq, if◌then◌else◌, length, Result, ok, err, lookup, insert, remove,
}
use kappa.Text.{has_prefix, drop}
use kappa.Cluster.Atoi.{ℤ, pos, atoi}

pub record Addr : Type 0 where
  pub ip : Bytes
  pub port : ℤ

pub record NodeDetails : Type 0 where
  pub name : Bytes
  pub role : Bytes
  pub cluster : Bytes
  pub data_center : Bytes
  pub service : Bytes
  pub ssh_port : ℤ
  pub bootstrap : Bool
  pub addr : Addr
  pub expect : ℤ

-- The fields of a `serf.Member` that the program reads.
pub record Member : Type 0 where
  pub name : Bytes
  pub addr : Bytes
  pub tags : List (Bytes × Bytes)

abbrev pub event_prefix : Bytes
event_prefix = codes "kappa-event:"

unfoldable pub get_kappa_event_name : Bytes → Bytes
get_kappa_event_name name = event_prefix ++ name

unfoldable pub is_kappa_event : Bytes → Bool
unfolding has_prefix
is_kappa_event name = has_prefix name event_prefix

-- `strings.TrimPrefix`
unfoldable pub get_raw_event_name : Bytes → Bytes
unfolding has_prefix
get_raw_event_name name =
    if has_prefix name event_prefix then drop (length event_prefix) name else name

abbrev check_cluster : Bytes → Option Bytes → Bool × Bytes × Bytes
check_cluster role none = (false, [], [])
check_cluster role (some cluster) = (true, role, cluster)

abbrev pub check_role : Option Bytes → Option Bytes → Bool × Bytes × Bytes
check_role none cluster = (false, [], [])
check_role (some role) cluster =
    if not (role == codes "kappa-server") then (false, [], []) else check_cluster role cluster

unfoldable pub validate_node : Member → Bool × Bytes × Bytes
unfolding lookup
validate_node m = check_role (lookup (codes "role") m.tags) (lookup (codes "cluster") m.tags)

pub data MemberError : Type 0 where
  invalid_server_node missing_ssh_port port_not_a_number : MemberError

abbrev is_tagged : Option Bytes → Bool
is_tagged none = false
is_tagged (some v) = true

abbrev details : Member → Bytes → Bytes → ℤ → NodeDetails
details m role cluster p = record {
  name = m.name;
  role = role;
  cluster = cluster;
  data_center = [];
  service = [];
  ssh_port = p;
  bootstrap = is_tagged (lookup (codes "bootstrap") m.tags);
  addr = record { ip = m.addr; port = p };
  expect = pos 0;
}

abbrev number_port : Member → Bytes → Bytes → Option ℤ → Result MemberError NodeDetails
number_port m role cluster none = err port_not_a_number
number_port m role cluster (some p) = ok (details m role cluster p)

abbrev pub find_port : Member → Bytes → Bytes → Option Bytes → Result MemberError NodeDetails
find_port m role cluster none = err missing_ssh_port
find_port m role cluster (some port) = number_port m role cluster (atoi port)

abbrev pub admit : Member → Bool × Bytes × Bytes → Result MemberError NodeDetails
admit m (false, role, cluster) = err invalid_server_node
admit m (true, role, cluster) = find_port m role cluster (lookup (codes "port") m.tags)

unfoldable pub get_kappa_server : Member → Result MemberError NodeDetails
unfolding validate_node
get_kappa_server m = admit m (validate_node m)

pub data MergeError : Type 0 where
  member_error : MemberError → MergeError
  wrong_cluster : Bytes → Bytes → MergeError

-- One round of the loop of `NotifyMerge`; `rest` is what the later rounds return.
abbrev pub check_member :
    Bytes → Member → Option MergeError → Result MemberError NodeDetails → Option MergeError
check_member name m rest (err e) = some (member_error e)
check_member name m rest (ok node) =
    if not (node.cluster == name) then some (wrong_cluster m.name node.cluster) else rest

-- The error of `NotifyMerge`, or `none` for nil.
unfoldable pub notify_merge : Bytes → List Member → Option MergeError
notify_merge name [] = none
notify_merge name (m ∷ ms) = check_member name m (notify_merge name ms) (get_kappa_server m)

abbrev pub Nodes : Type 0
Nodes = List (Bytes × NodeDetails)

-- `append` of the values that pass, in the order of the map.
unfoldable pub filter : (NodeDetails → Bool) → Nodes → List NodeDetails
filter test [] = []
filter test ((k, d) ∷ nodes) = let rest = filter test nodes in if test d then d ∷ rest else rest

unfoldable pub find_by_role : Bytes → Nodes → List NodeDetails
unfolding filter
find_by_role role = filter (λ d. role == d.role)

unfoldable pub find_by_data_center : Bytes → Nodes → List NodeDetails
unfolding filter
find_by_data_center dc = filter (λ d. dc == d.data_center)

unfoldable pub find_by_service : Bytes → Nodes → List NodeDetails
unfolding filter
find_by_service svc = filter (λ d. svc == d.service)

unfoldable pub get_nodes : Nodes → List NodeDetails
get_nodes [] = []
get_nodes ((k, d) ∷ nodes) = d ∷ get_nodes nodes

unfoldable pub size : Nodes → ℕ
size nodes = length nodes

module _ (addr_string : Addr → Bytes) where
  unfoldable pub add_node : NodeDetails → Nodes → Nodes
  unfolding insert
  add_node d nodes = insert (addr_string d.addr) d nodes

  unfoldable pub remove_node : NodeDetails → Nodes → Nodes
  unfolding remove
  remove_node d nodes = remove (addr_string d.addr) nodes

  abbrev pub when_valid :
      (NodeDetails → Nodes → Nodes) → Result MemberError NodeDetails → Nodes → Nodes
  when_valid change (ok d) nodes = change d nodes
  when_valid change (err e) nodes = nodes

  -- The handlers of join events and of update events, which do the same.
  unfoldable pub handle_join : List Member → Nodes → Nodes
  unfolding add_node
  handle_join [] nodes = nodes
  handle_join (m ∷ ms) nodes = handle_join ms (when_valid add_node (get_kappa_server m) nodes)

  -- The handler of leave, fail and reap events.
  unfoldable pub handle_leave : List Member → Nodes → Nodes
  unfolding remove_node
  handle_leave [] nodes = nodes
  handle_leave (m ∷ ms) nodes = handle_leave ms (when_valid remove_node (get_kappa_server m) nodes)

-- ===== src/Cluster/Members.antt =====
-- Which members are Kappa servers of the cluster, and the names of Kappa's events.
use kappa.Base.{
  Bytes, codes, List, [], ◌∷◌, ◌++◌, Bool, true, false, Option, none, some, ◌≡◌, ◌↔◌, refl, arith,
  eq_iff, eq_refl, nat_eq, list_eq, length, lookup, All, Result, ok, err, nat_beq_iff, ap, sym, ◌∙◌,
}
use kappa.Text.{has_prefix, drop}
use kappa.Cluster.Atoi.{atoi}
use kappa.Cluster.{
  Member, NodeDetails, MemberError, MergeError, event_prefix, get_kappa_event_name, is_kappa_event,
  get_raw_event_name, validate_node, find_port, check_role, admit, get_kappa_server, notify_merge,
  check_member,
}

found_port :
    (m : Member) (role cluster : Bytes) (port : Option Bytes) (n : NodeDetails)
    → find_port m role cluster port ≡ ok n
    → ((text : Bytes) × (port ≡ some text) × (atoi text ≡ some n.ssh_port))
      × (n.role ≡ role)
      × (n.cluster ≡ cluster)
      × (n.addr.port ≡ n.ssh_port)
      × (n.addr.ip ≡ m.addr)
      × (n.name ≡ m.name)
      × (n.data_center ≡ [])
      × (n.service ≡ [])
found_port m role cluster none n h = cc
found_port m role cluster (some text) n h = (
  (text, refl, ground arith),
  ground arith,
  ground arith,
  ground arith,
  ground arith,
  ground arith,
  ground arith,
  ground arith,
)

admitted :
    (m : Member) (t : Bool × Bytes × Bytes) (n : NodeDetails)
    → admit m t ≡ ok n
    → (t.0 ≡ true) × (find_port m t.1 t.2 (lookup (codes "port") m.tags) ≡ ok n)
admitted m (false, role, cluster) n h = cc
admitted m (true, role, cluster) n h = (refl, h)

checked :
    (role cluster : Option Bytes)
    → (check_role role cluster).0 ≡ true
    → (role ≡ some (codes "kappa-server")) × (cluster ≡ some (check_role role cluster).2)
checked none cluster h = cc
checked (some r) none h = ground arith
checked (some r) (some c) h = ground (arith, eq_iff r (codes "kappa-server"))

-- A member that GetKappaServer takes has the role kappa-server, a cluster and a decimal port, and its
-- details are those tags, with no data center and no service.
pub get_kappa_server_sound :
    (m : Member) (n : NodeDetails)
    → get_kappa_server m ≡ ok n
    → (lookup (codes "role") m.tags ≡ some (codes "kappa-server"))
      × (lookup (codes "cluster") m.tags ≡ some n.cluster)
      × ((port : Bytes) × (lookup (codes "port") m.tags ≡ some port)
          × (atoi port ≡ some n.ssh_port))
      × (n.addr.port ≡ n.ssh_port)
      × (n.addr.ip ≡ m.addr)
      × (n.name ≡ m.name)
      × (n.data_center ≡ [])
      × (n.service ≡ [])
unfolding get_kappa_server validate_node
get_kappa_server_sound m n h =
    let role = lookup (codes "role") m.tags in
    let cluster = lookup (codes "cluster") m.tags in
    let (valid, found) = admitted m (check_role role cluster) n h in
    let (is_server, has_cluster) = checked role cluster valid in
    let (port, r, same_cluster, addr_port, ip, name, dc, svc) =
      found_port m (check_role role cluster).1 (check_role role cluster).2
        (lookup (codes "port") m.tags) n found in
    (is_server, has_cluster ∙ ap some (sym same_cluster), port, addr_port, ip, name, dc, svc)

abbrev pub IsMemberOf : Bytes → Member → Type 0
IsMemberOf name m = (n : NodeDetails) × (get_kappa_server m ≡ ok n) × (n.cluster ≡ name)

merged :
    (name : Bytes) (m : Member) (rest : Option MergeError) (r : Result MemberError NodeDetails)
    → check_member name m rest r ≡ none
    → ((n : NodeDetails) × (r ≡ ok n) × (n.cluster ≡ name)) × (rest ≡ none)
merged name m rest (err e) h = cc
merged name m rest (ok n) h =
    ((n, refl, ground (arith, eq_iff n.cluster name)), ground (arith, eq_iff n.cluster name))

-- NotifyMerge lets a merge pass exactly where every member is a Kappa server of the cluster.
pub notify_merge_iff :
    (name : Bytes) (ms : List Member) → (notify_merge name ms ≡ none) ↔ All (IsMemberOf name) ms
unfolding notify_merge
notify_merge_iff name [] = (λ _. tt, λ _. refl)
notify_merge_iff name (m ∷ ms) = (
  λ h.
      let (first, rest) = merged name m (notify_merge name ms) (get_kappa_server m) h in
      (first, (notify_merge_iff name ms).0 rest),
  λ h. let (n, e, same) = h.0 in rw (e, same, eq_refl name) ((notify_merge_iff name ms).1 h.1),
)

append-drop : (p s : Bytes) → has_prefix s p ≡ true → p ++ drop (length p) s ≡ s
unfolding has_prefix
append-drop [] s h = refl
append-drop (c ∷ p) [] h = cc
append-drop (c ∷ p) (d ∷ s) h = ground (arith, append-drop p s, nat_beq_iff d c)

-- A Kappa event is told by its name, and the raw name comes back from it.
pub raw-event_name :
    (name : Bytes)
    → (is_kappa_event (get_kappa_event_name name) ≡ true)
      × (get_raw_event_name (get_kappa_event_name name) ≡ name)
unfolding is_kappa_event get_kappa_event_name get_raw_event_name
raw-event_name name = (refl, refl)

-- A name that is taken for a Kappa event is the event name of its raw name.
pub event_name-raw :
    (s : Bytes) → is_kappa_event s ≡ true → get_kappa_event_name (get_raw_event_name s) ≡ s
unfolding is_kappa_event get_kappa_event_name get_raw_event_name
event_name-raw s h = rw h (append-drop event_prefix s h)

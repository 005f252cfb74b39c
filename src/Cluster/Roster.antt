-- ===== src/Cluster/Roster.antt =====
-- The node list over the life of a server: what every run of membership events keeps true of it.
use kappa.Base.{
  Bytes, codes, List, [], ◌∷◌, none, some, ◌≡◌, refl, arith, nat_eq, list_eq, lookup, insert,
  remove, HasUniqueKeys, insert-HasUniqueKeys, remove-HasUniqueKeys, All, Result, ok, err, eq_iff,
  Option,
}
use kappa.Cluster.{
  Addr, Member, MemberError, NodeDetails, Nodes, get_kappa_server, validate_node, admit, check_role,
  add_node, remove_node, handle_join, handle_leave, when_valid,
}

module _ (addr_string : Addr → Bytes) where
  -- A membership event: a join or an update, or a leave, a failure or a reap.
  pub data Step : Nodes → Nodes → Type 0 where
    joined : {nodes : Nodes} → (ms : List Member) → Step nodes (handle_join addr_string ms nodes)
    left : {nodes : Nodes} → (ms : List Member) → Step nodes (handle_leave addr_string ms nodes)

  -- Any number of events, one behind the other.
  pub data Steps : Nodes → Nodes → Type 0 where
    here : {nodes : Nodes} → Steps nodes nodes
    then_step : {nodes next last : Nodes} → Step nodes next → Steps next last → Steps nodes last

  abbrev pub IsEntry : Bytes × NodeDetails → Type 0
  IsEntry (k, d) =
      (addr_string d.addr ≡ k) × (d.role ≡ codes "kappa-server") × (d.addr.port ≡ d.ssh_port)

  pub record IsRoster (nodes : Nodes) : Type 0 where
    pub unique : HasUniqueKeys nodes
    pub entries : All IsEntry nodes

  insert-entries :
      (k : Bytes) (d : NodeDetails) (nodes : Nodes)
      → IsEntry (k, d)
      → All IsEntry nodes
      → All IsEntry (insert k d nodes)
  unfolding insert
  insert-entries k d [] e h = (e, tt)
  insert-entries k d ((j, old) ∷ nodes) e (i, h) = ground (arith, insert-entries k d nodes e h)

  remove-entries : (k : Bytes) (nodes : Nodes) → All IsEntry nodes → All IsEntry (remove k nodes)
  unfolding remove
  remove-entries k [] h = tt
  remove-entries k ((j, old) ∷ nodes) (i, h) = ground (arith, remove-entries k nodes h)

  server_role :
      (m : Member) (role cluster : Option Bytes) (d : NodeDetails)
      → admit m (check_role role cluster) ≡ ok d
      → (d.role ≡ codes "kappa-server") × (d.addr.port ≡ d.ssh_port)
  server_role m none cluster d h = cc
  server_role m (some role) none d h = ground arith
  server_role m (some role) (some cluster) d h = ground (arith, eq_iff role (codes "kappa-server"))

  server_entry :
      (m : Member) (d : NodeDetails) → get_kappa_server m ≡ ok d → IsEntry (addr_string d.addr, d)
  unfolding get_kappa_server validate_node
  server_entry m d h =
      let (role, port) =
        server_role m (lookup (codes "role") m.tags) (lookup (codes "cluster") m.tags) d h in
      (refl, role, port)

  added-IsRoster :
      (m : Member) (nodes : Nodes) (r : Result MemberError NodeDetails)
      → get_kappa_server m ≡ r
      → IsRoster nodes
      → IsRoster (when_valid addr_string (add_node addr_string) r nodes)
  unfolding add_node
  added-IsRoster m nodes (err e) p h = h
  added-IsRoster m nodes (ok d) p h = record {
    unique = insert-HasUniqueKeys (addr_string d.addr) d nodes h.unique;
    entries = insert-entries (addr_string d.addr) d nodes (server_entry m d p) h.entries;
  }

  removed-IsRoster :
      (nodes : Nodes) (r : Result MemberError NodeDetails)
      → IsRoster nodes
      → IsRoster (when_valid addr_string (remove_node addr_string) r nodes)
  unfolding remove_node
  removed-IsRoster nodes (err e) h = h
  removed-IsRoster nodes (ok d) h = record {
    unique = remove-HasUniqueKeys (addr_string d.addr) nodes h.unique;
    entries = remove-entries (addr_string d.addr) nodes h.entries;
  }

  joined-IsRoster :
      (ms : List Member) (nodes : Nodes)
      → IsRoster nodes
      → IsRoster (handle_join addr_string ms nodes)
  unfolding handle_join
  joined-IsRoster [] nodes h = h
  joined-IsRoster (m ∷ ms) nodes h =
      joined-IsRoster ms (when_valid addr_string (add_node addr_string) (get_kappa_server m) nodes)
        (added-IsRoster m nodes (get_kappa_server m) refl h)

  left-IsRoster :
      (ms : List Member) (nodes : Nodes)
      → IsRoster nodes
      → IsRoster (handle_leave addr_string ms nodes)
  unfolding handle_leave
  left-IsRoster [] nodes h = h
  left-IsRoster (m ∷ ms) nodes h =
      left-IsRoster ms (when_valid addr_string (remove_node addr_string) (get_kappa_server m) nodes)
        (removed-IsRoster nodes (get_kappa_server m) h)

  Step-IsRoster : {nodes next : Nodes} → Step nodes next → IsRoster nodes → IsRoster next
  Step-IsRoster (joined ms) h = joined-IsRoster ms _ h
  Step-IsRoster (left ms) h = left-IsRoster ms _ h

  -- Whatever membership events come, in whatever order: if in the node list each address stands once, and
  -- each node stands under its own address, has the role kappa-server and has its SSH port in its
  -- address, then it is so behind the events.
  pub Steps-IsRoster : {nodes next : Nodes} → Steps nodes next → IsRoster nodes → IsRoster next
  Steps-IsRoster here h = h
  Steps-IsRoster (then_step s ss) h = Steps-IsRoster ss (Step-IsRoster s h)

-- ===== src/Cluster/Events.antt =====
-- What the membership events do to the node list.
use kappa.Base.{
  Bytes, List, [], ◌∷◌, Bool, false, ◌||◌, none, some, ◌≡◌, refl, arith, ◌∙◌, ap, ◌==◌, nat_eq,
  list_eq, if◌then◌else◌, lookup, lookup-insert, lookup-remove, Result, ok, err, Option,
}
use kappa.Cluster.{
  Addr, NodeDetails, Member, MemberError, Nodes, get_kappa_server, add_node, remove_node,
  handle_join, handle_leave, when_valid,
}

module _ (addr_string : Addr → Bytes) where
  abbrev is_at : Bytes → Result MemberError NodeDetails → Bool
  is_at k (ok d) = addr_string d.addr == k
  is_at k (err e) = false

  -- Some member of the event is a Kappa server at the address.
  unfoldable pub names : Bytes → List Member → Bool
  names k [] = false
  names k (m ∷ ms) = is_at k (get_kappa_server m) || names k ms

  lookup-left :
      (k : Bytes) (r : Result MemberError NodeDetails) (nodes : Nodes)
      → lookup k (when_valid addr_string (remove_node addr_string) r nodes)
        ≡ (if is_at k r then none else lookup k nodes)
  unfolding remove_node
  lookup-left k (ok d) nodes = lookup-remove (addr_string d.addr) k nodes
  lookup-left k (err e) nodes = refl

  -- A leave, fail or reap event takes away exactly the nodes at the addresses of its valid members.
  pub lookup-handle_leave :
      (k : Bytes) (ms : List Member) (nodes : Nodes)
      → lookup k (handle_leave addr_string ms nodes) ≡ (if names k ms then none else lookup k nodes)
  unfolding handle_leave names
  lookup-handle_leave k [] nodes = refl
  lookup-handle_leave k (m ∷ ms) nodes = ground (
    arith,
    lookup-handle_leave k ms
        (when_valid addr_string (remove_node addr_string) (get_kappa_server m) nodes),
    lookup-left k (get_kappa_server m) nodes,
  )

  lookup-joined :
      (k : Bytes) (r : Result MemberError NodeDetails) (nodes : Nodes)
      → lookup k (when_valid addr_string (add_node addr_string) r nodes) ≡ elim r [
        | ok d ↦ if addr_string d.addr == k then some d else lookup k nodes
        | err e ↦ lookup k nodes
      ]
  unfolding add_node
  lookup-joined k (ok d) nodes = lookup-insert (addr_string d.addr) k d nodes
  lookup-joined k (err e) nodes = refl

  -- The details of the last member at the address, if there is one, and the old ones if not.
  unfoldable pub last_at : Bytes → List Member → Option NodeDetails → Option NodeDetails
  last_at k [] old = old
  last_at k (m ∷ ms) old = last_at k ms (elim (get_kappa_server m) [
    | ok d ↦ if addr_string d.addr == k then some d else old
    | err e ↦ old
  ])

  -- After a join or update event the node at an address is the last valid member of the event that has
  -- the address, and the node that was there if no valid member has it.
  pub lookup-handle_join :
      (k : Bytes) (ms : List Member) (nodes : Nodes)
      → lookup k (handle_join addr_string ms nodes) ≡ last_at k ms (lookup k nodes)
  unfolding handle_join last_at add_node
  lookup-handle_join k [] nodes = refl
  lookup-handle_join k (m ∷ ms) nodes =
      lookup-handle_join k ms
        (when_valid addr_string (add_node addr_string) (get_kappa_server m) nodes)
      ∙ ap (last_at k ms) (lookup-joined k (get_kappa_server m) nodes)

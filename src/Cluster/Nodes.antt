-- ===== src/Cluster/Nodes.antt =====
-- The node list is a map from addresses to nodes.
use kappa.Base.{
  ◌+◌, Bytes, List, [], ◌∷◌, Bool, true, false, none, some, ◌≡◌, ◌⊎◌, ◌↔◌, inl, inr, refl, sym,
  arith, ◌==◌, eq_iff, eq_refl, nat_eq, list_eq, if◌then◌else◌, lookup, lookup-insert,
  lookup-remove, length-insert, is_present, HasUniqueKeys, insert-HasUniqueKeys,
  remove-HasUniqueKeys, ap,
}
use kappa.Cluster.{Addr, NodeDetails, Nodes, filter, size, add_node, remove_node}

abbrev pub In : NodeDetails → List NodeDetails → Type 0
In d [] = ⊥
In d (e ∷ es) = (d ≡ e) ⊎ In d es

module _ (addr_string : Addr → Bytes) (d : NodeDetails) (nodes : Nodes) where
  -- AddNode puts the node under its address, in place of the one that was there, and leaves the others;
  -- Size grows by one exactly where the address is new; and an address stands once.
  pub add_node_refines :
      (k : Bytes)
      → HasUniqueKeys nodes
      → (lookup k (add_node addr_string d nodes)
          ≡ (if addr_string d.addr == k then some d else lookup k nodes))
        × (size (add_node addr_string d nodes) ≡ (
            if is_present (lookup (addr_string d.addr) nodes) then size nodes else size nodes + 1))
        × HasUniqueKeys (add_node addr_string d nodes)
  unfolding add_node size
  add_node_refines k h = (
    lookup-insert (addr_string d.addr) k d nodes,
    length-insert (addr_string d.addr) d nodes,
    insert-HasUniqueKeys (addr_string d.addr) d nodes h,
  )

  -- RemoveNode takes away the node at the address, whatever its other details are, and leaves the others.
  pub remove_node_refines :
      (k : Bytes)
      → HasUniqueKeys nodes
      → (lookup k (remove_node addr_string d nodes)
          ≡ (if addr_string d.addr == k then none else lookup k nodes))
        × HasUniqueKeys (remove_node addr_string d nodes)
  unfolding remove_node
  remove_node_refines k h = (
    lookup-remove (addr_string d.addr) k nodes,
    remove-HasUniqueKeys (addr_string d.addr) nodes h,
  )

-- Filter returns every node of the map that passes.
pub filter_complete :
    (test : NodeDetails → Bool) (k : Bytes) (d : NodeDetails) (nodes : Nodes)
    → lookup k nodes ≡ some d
    → test d ≡ true
    → In d (filter test nodes)
unfolding filter lookup
filter_complete test k d [] h t = cc
filter_complete test k d ((j, e) ∷ nodes) h t = ground (arith, filter_complete test k d nodes)

filter_cons :
    (test : NodeDetails → Bool) (d : NodeDetails) (j : Bytes) (e : NodeDetails) (nodes : Nodes)
    → In d (filter test ((j, e) ∷ nodes))
    → ((d ≡ e) × (test e ≡ true)) ⊎ In d (filter test nodes)
unfolding filter
filter_cons test d j e nodes i = step (test e) refl i
  where
    step :
        (t : Bool)
        → test e ≡ t
        → In d (if t then e ∷ filter test nodes else filter test nodes)
        → ((d ≡ e) × (test e ≡ true)) ⊎ In d (filter test nodes)
    step true p (inl same) = inl (same, p)
    step true p (inr later) = inr later
    step false p later = inr later

-- Filter returns only nodes of the map, and only those that pass.
pub filter_sound :
    (test : NodeDetails → Bool) (d : NodeDetails) (nodes : Nodes)
    → HasUniqueKeys nodes
    → In d (filter test nodes)
    → (test d ≡ true) × ((k : Bytes) × (lookup k nodes ≡ some d))
unfolding filter lookup
filter_sound test d [] h i = elim i [ ]
filter_sound test d ((j, e) ∷ nodes) (fresh, h) i = elim (filter_cons test d j e nodes i) [
  | inl (same, t) ↦ (rw same t, (j, rw (eq_refl j) (ap some (sym same))))
  | inr later ↦
      let (t, (k, found)) = filter_sound test d nodes h later in
      (t, (k, ground (arith, eq_iff j k)))
]

-- Filter returns exactly the nodes of the map that pass. Each address stands once in the map.
pub filter_iff :
    (test : NodeDetails → Bool) (d : NodeDetails) (nodes : Nodes)
    → HasUniqueKeys nodes
    → In d (filter test nodes) ↔ ((test d ≡ true) × ((k : Bytes) × (lookup k nodes ≡ some d)))
filter_iff test d nodes h =
    (λ i. filter_sound test d nodes h i, λ (t, (k, found)). filter_complete test k d nodes found t)

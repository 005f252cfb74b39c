-- ===== src/Server/Events/Run.antt =====
-- What a server knows behind any run of membership events.
use kappa.Base.{
  Bytes, List, [], ◌∷◌, ◌++◌, Bool, true, false, Option, none, some, ◌≡◌, ◌↔◌, refl, sym, ap, ◌∙◌,
  lookup, nat_eq, list_eq, if◌then◌else◌,
}
use kappa.Cluster.{Addr, Member, NodeDetails, Nodes, filter, handle_join, handle_leave}
use kappa.Cluster.Events.{names, last_at, lookup-handle_join, lookup-handle_leave}
use kappa.Cluster.Nodes.{In, filter_iff}
use kappa.Cluster.Channels.{Channel, reconcile, reconcile_all, first, reconcile_all-first}
use kappa.Cluster.Roster.{Steps, here, then_step, joined, left, IsRoster, Steps-IsRoster}
use kappa.Server.Events.{
  MemberKind, member_join, member_leave, member_failed, member_update, member_reap, Event,
  member_event, Wiring, new_wiring, MemberHandler, EventHandler, member_handler, event_handler,
  reconciled, SerferLaws, run_events,
}

-- Membership events, of any kinds.
abbrev pub Batch : Type 0
Batch = List (MemberKind × List Member)

abbrev pub members_of : Batch → List Member
members_of [] = []
members_of ((k, ms) ∷ es) = ms ++ members_of es

-- The kinds of event whose members are in the cluster; those of the others are not, or no longer.
abbrev pub is_arrival : MemberKind → Bool
is_arrival member_join = true
is_arrival member_update = true
is_arrival member_leave = false
is_arrival member_failed = false
is_arrival member_reap = false

-- What is known of the node at an address behind the events: the last Kappa server that arrived there,
-- unless one has left the address since.
abbrev pub known_at : (Addr → Bytes) → Bytes → Batch → Option NodeDetails → Option NodeDetails
known_at addr_string k [] old = old
known_at addr_string k ((kind, ms) ∷ es) old = known_at addr_string k es (
    if is_arrival kind
    then last_at addr_string k ms old
    else if names addr_string k ms
    then none
    else old)

module _ (UserEvent : Type 0) where
  abbrev pub events_of : Batch → List (Event UserEvent)
  events_of [] = []
  events_of ((k, ms) ∷ es) = member_event k ms ∷ events_of es

  reconciled-eq-all :
      (ms : List Member) (ch : Channel Member) → reconciled reconcile ms ch ≡ reconcile_all ms ch
  reconciled-eq-all [] ch = refl
  reconciled-eq-all (m ∷ ms) ch = reconciled-eq-all ms (reconcile m ch)

  reconcile_all-append :
      (ms ns : List Member) (ch : Channel Member)
      → reconcile_all (ms ++ ns) ch ≡ reconcile_all ns (reconcile_all ms ch)
  reconcile_all-append [] ns ch = refl
  reconcile_all-append (m ∷ ms) ns ch = reconcile_all-append ms ns (reconcile m ch)

  module _ (addr_string : Addr → Bytes) where
    abbrev handled : MemberKind → MemberHandler
    handled member_join = handle_join addr_string
    handled member_update = handle_join addr_string
    handled member_leave = handle_leave addr_string
    handled member_failed = handle_leave addr_string
    handled member_reap = handle_leave addr_string

    member_handler-handled : (k : MemberKind) → member_handler addr_string k ≡ some (handled k)
    member_handler-handled member_join = refl
    member_handler-handled member_update = refl
    member_handler-handled member_leave = refl
    member_handler-handled member_failed = refl
    member_handler-handled member_reap = refl

    abbrev nodes_behind : Batch → Nodes → Nodes
    nodes_behind [] nodes = nodes
    nodes_behind ((k, ms) ∷ es) nodes = nodes_behind es (handled k ms nodes)

    Steps-nodes_behind :
        (es : Batch) (nodes : Nodes) → Steps addr_string nodes (nodes_behind es nodes)
    Steps-nodes_behind [] nodes = here
    Steps-nodes_behind ((member_join, ms) ∷ es) nodes =
        then_step (joined ms) (Steps-nodes_behind es (handle_join addr_string ms nodes))
    Steps-nodes_behind ((member_update, ms) ∷ es) nodes =
        then_step (joined ms) (Steps-nodes_behind es (handle_join addr_string ms nodes))
    Steps-nodes_behind ((member_leave, ms) ∷ es) nodes =
        then_step (left ms) (Steps-nodes_behind es (handle_leave addr_string ms nodes))
    Steps-nodes_behind ((member_failed, ms) ∷ es) nodes =
        then_step (left ms) (Steps-nodes_behind es (handle_leave addr_string ms nodes))
    Steps-nodes_behind ((member_reap, ms) ∷ es) nodes =
        then_step (left ms) (Steps-nodes_behind es (handle_leave addr_string ms nodes))

    lookup-handled :
        (k : Bytes) (kind : MemberKind) (ms : List Member) (nodes : Nodes)
        → lookup k (handled kind ms nodes) ≡ (
            if is_arrival kind
            then last_at addr_string k ms (lookup k nodes)
            else if names addr_string k ms
            then none
            else lookup k nodes)
    lookup-handled k member_join ms nodes = lookup-handle_join addr_string k ms nodes
    lookup-handled k member_update ms nodes = lookup-handle_join addr_string k ms nodes
    lookup-handled k member_leave ms nodes = lookup-handle_leave addr_string k ms nodes
    lookup-handled k member_failed ms nodes = lookup-handle_leave addr_string k ms nodes
    lookup-handled k member_reap ms nodes = lookup-handle_leave addr_string k ms nodes

    lookup-nodes_behind :
        (k : Bytes) (es : Batch) (nodes : Nodes)
        → lookup k (nodes_behind es nodes) ≡ known_at addr_string k es (lookup k nodes)
    lookup-nodes_behind k [] nodes = refl
    lookup-nodes_behind k ((kind, ms) ∷ es) nodes =
        lookup-nodes_behind k es (handled kind ms nodes)
        ∙ ap (known_at addr_string k es) (lookup-handled k kind ms nodes)

    module _
        (handle : EventHandler UserEvent
          → Event UserEvent
          → Wiring UserEvent
          → Option (Wiring UserEvent))
        (laws : SerferLaws UserEvent handle) where
      abbrev behind : Batch → Wiring UserEvent → Wiring UserEvent
      behind es w = record w {
        nodes = nodes_behind es w.nodes;
        reconcile_ch = reconcile_all (members_of es) w.reconcile_ch;
      }

      run_events-behind :
          (es : Batch) (w : Wiring UserEvent)
          → run_events UserEvent handle (event_handler UserEvent addr_string) (events_of es) w
            ≡ some (behind es w)
      unfolding event_handler
      run_events-behind [] w = refl
      run_events-behind ((k, ms) ∷ es) w =
          rw
            (
              laws.handles_members (event_handler UserEvent addr_string) k ms w (handled k)
                  reconcile (member_handler-handled k) refl,
              reconciled-eq-all ms w.reconcile_ch,
              reconcile_all-append ms (members_of es) w.reconcile_ch,
            )
            (run_events-behind es (record w {
              nodes = handled k ms w.nodes;
              reconcile_ch = reconcile_all ms w.reconcile_ch;
            }))

      -- What a server holds behind a batch of events: serfer has handled them all; at each address the node
      -- list has what is known of it; each address stands once with a Kappa server under its own address;
      -- and the first 32 members of the events wait to be reconciled.
      abbrev pub IsFollowed : Batch → Wiring UserEvent → Type 0
      IsFollowed es w =
          (run_events UserEvent handle (event_handler UserEvent addr_string) (events_of es)
              (new_wiring UserEvent)
            ≡ some w)
          × ((k : Bytes) → lookup k w.nodes ≡ known_at addr_string k es none)
          × IsRoster addr_string w.nodes
          × (w.reconcile_ch.queue ≡ first 32 (members_of es))

      -- The handlers that NewServer wires follow every run of membership events, of whatever kinds: none
      -- of them panics or waits; at each address the node list has the last Kappa server that a join or an
      -- update event brought there, and none where a later leave, failure or reap event names the address;
      -- the nodes stand once and under their own addresses; and of the members of the events the first 32
      -- wait to be reconciled, for no code receives them. Serfer hands an event to the handler of its
      -- kind, and its members to the reconciler.
      pub run_events-IsFollowed : (es : Batch) → (w : Wiring UserEvent) × IsFollowed es w
      unfolding lookup
      run_events-IsFollowed es = (
        behind es (new_wiring UserEvent),
        (
          run_events-behind es (new_wiring UserEvent),
          λ k. lookup-nodes_behind k es [],
          Steps-IsRoster addr_string (Steps-nodes_behind es [])
              (record { unique = tt; entries = tt }),
          (reconcile_all-first 32 (members_of es)).0,
        ),
      )

      -- Behind every run of membership events Filter gives exactly the nodes that pass the test among those
      -- that are known at some address, and the list is the one that the handlers of NewServer leave.
      -- Serfer hands an event to the handler of its kind, and its members to the reconciler.
      pub filter-run_events :
          (es : Batch) (test : NodeDetails → Bool) (d : NodeDetails)
          → (w : Wiring UserEvent) × (run_events UserEvent handle
                (event_handler UserEvent addr_string)
                (events_of es)
                (new_wiring UserEvent)
              ≡ some w)
            × (In d (filter test w.nodes)
                ↔ ((test d ≡ true) × ((k : Bytes) × (known_at addr_string k es none ≡ some d))))
      filter-run_events es test d =
          let (w, (runs, known, roster, queue)) = run_events-IsFollowed es in
          let (to, from) = filter_iff test d w.nodes roster.unique in
          (
            w,
            runs,
            (
              λ i. let (t, (k, found)) = to i in (t, (k, sym (known k) ∙ found)),
              λ (t, (k, found)). from (t, (k, known k ∙ found)),
            ),
          )

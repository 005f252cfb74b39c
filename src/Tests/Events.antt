-- ===== src/Tests/Events.antt =====
-- A server that a member joins and leaves. The package serfer is a function that hands the members to
-- their handler and then to the reconciler, and fails at a user event where nothing tells whether it is
-- about the leader.
use kappa.Base.{
  Bytes, codes, List, [], ◌∷◌, Bool, true, false, Option, none, some, ◌≡◌, ◌↔◌, refl, if◌then◌else◌,
}
use kappa.Cluster.{Addr, Member, NodeDetails, filter}
use kappa.Cluster.Atoi.{pos}
use kappa.Cluster.Nodes.{In}
use kappa.Cluster.Channels.{Channel}
use kappa.Server.Events.{
  Event, member_event, user_event, Wiring, EventHandler, MemberHandler, reconciled, SerferLaws,
  MemberKind, member_join, member_failed, event_handler, new_wiring, run_events,
}
use kappa.Server.Events.Run.{
  Batch, events_of, known_at, IsFollowed, run_events-IsFollowed, filter-run_events,
}

abbrev host : Addr → Bytes
host a = a.ip

abbrev west : Member
west = record {
  name = codes "west";
  addr = codes "10.0.0.1";
  tags =
      (codes "role", codes "kappa-server")
      ∷ (codes "cluster", codes "blue")
      ∷ (codes "port", codes "9022")
      ∷ [];
}

abbrev west_node : NodeDetails
west_node = record {
  name = codes "west";
  role = codes "kappa-server";
  cluster = codes "blue";
  data_center = [];
  service = [];
  ssh_port = pos 9022;
  bootstrap = false;
  addr = record { ip = codes "10.0.0.1"; port = pos 9022 };
  expect = pos 0;
}

abbrev members :
    EventHandler Bytes
    → MemberKind
    → List Member
    → Wiring Bytes
    → Option MemberHandler
    → Option (Member → Channel Member → Channel Member)
    → Option (Wiring Bytes)
members h k ms w (some f) (some r) = some (record w {
  nodes = f ms w.nodes;
  reconcile_ch =
      if h.is_leader
      then (if h.reconcile_on k then reconciled r ms w.reconcile_ch else w.reconcile_ch)
      else w.reconcile_ch;
})
members h k ms w (some f) none = some (record w { nodes = f ms w.nodes })
members h k ms w none r = some w

abbrev when_set : Option (Bytes → Bool) → Wiring Bytes → Option (Wiring Bytes)
when_set none w = none
when_set (some f) w = some w

abbrev handle : EventHandler Bytes → Event Bytes → Wiring Bytes → Option (Wiring Bytes)
handle h (member_event k ms) w = members h k ms w (h.on_member k) h.reconciler
handle h (user_event e) w = when_set h.is_leader_event w

handle-SerferLaws : SerferLaws Bytes handle
handle-SerferLaws = record { handles_members = λ h k ms w f r e e'. rw (e, e') refl }

abbrev batch : Batch
batch = (member_join, west ∷ []) ∷ (member_failed, west ∷ []) ∷ []

run_events-IsFollowed_example :
    (w : Wiring Bytes) × IsFollowed Bytes host handle handle-SerferLaws batch w
run_events-IsFollowed_example = run_events-IsFollowed Bytes host handle handle-SerferLaws batch

abbrev back_again : Batch
back_again = (member_failed, west ∷ []) ∷ (member_join, west ∷ []) ∷ []

filter-run_events_example :
    (w : Wiring Bytes) × (run_events Bytes handle
        (event_handler Bytes host)
        (events_of Bytes back_again)
        (new_wiring Bytes)
      ≡ some w)
    × (In west_node (filter (λ d. true) w.nodes)
        ↔ ((true ≡ true) × ((k : Bytes) × (known_at host k back_again none ≡ some west_node))))
filter-run_events_example =
    filter-run_events Bytes host handle handle-SerferLaws back_again (λ d. true) west_node

-- Where IsLeaderEvent is not set, a user event is never handled by this function.
user_event_fails :
    handle (event_handler Bytes host) (user_event (codes "kappa:x")) (new_wiring Bytes) ≡ none
unfolding event_handler
user_event_fails = refl

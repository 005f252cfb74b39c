-- ===== src/Server/Events.antt =====
-- The handlers of serf's events, as NewServer of server/server.go hands them to the package serfer, with
-- the channels that it makes. What that package does with them is a parameter. The status of a member,
-- which it changes for a reap, is not in the model. User events are of any type.
pub mod Run
use kappa.Base.{
  Bytes, codes, List, [], ◌∷◌, Bool, true, false, Option, none, some, if◌then◌else◌, ◌≡◌,
}
use kappa.Cluster.{Addr, Member, Nodes, handle_join, handle_leave}
use kappa.Cluster.Channels.{Channel, make_channel, reconcile, handle_user_event, reconcile_all}

pub data MemberKind : Type 0 where
  member_join member_leave member_failed member_update member_reap : MemberKind

abbrev pub MemberHandler : Type 0
MemberHandler = List Member → Nodes → Nodes

-- NodeJoined, NodeUpdated, NodeLeft, NodeFailed and NodeReaped
abbrev pub member_handler : (Addr → Bytes) → MemberKind → Option MemberHandler
member_handler addr_string member_join = some (handle_join addr_string)
member_handler addr_string member_update = some (handle_join addr_string)
member_handler addr_string member_leave = some (handle_leave addr_string)
member_handler addr_string member_failed = some (handle_leave addr_string)
member_handler addr_string member_reap = some (handle_leave addr_string)

-- The calls of a reconciler for the members of an event.
abbrev pub reconciled :
    (Member → Channel Member → Channel Member) → List Member → Channel Member → Channel Member
reconciled f [] ch = ch
reconciled f (m ∷ ms) ch = reconciled f ms (f m ch)

module _ (UserEvent : Type 0) where
  pub data Event : Type 0 where
    member_event : MemberKind → List Member → Event
    user_event : UserEvent → Event

  -- The node list, and the channels of members to reconcile and of user events.
  pub record Wiring : Type 0 where
    pub nodes : Nodes
    pub reconcile_ch : Channel Member
    pub user_event_ch : Channel UserEvent

  -- `NewNodeList()`, and the channels with 32 and with 256 places. The channel of serf's events is
  -- handed on to serf.
  abbrev pub new_wiring : Wiring
  new_wiring = record {
    nodes = [];
    reconcile_ch = make_channel 32;
    user_event_ch = make_channel 256;
  }

  abbrev pub UserHandler : Type 0
  UserHandler = UserEvent → Channel UserEvent → Option (Channel UserEvent)

  -- `serfer.SerfEventHandler` without its logger, `none` for a nil field. A flag for each kind of member
  -- event says whether its members are reconciled.
  pub record EventHandler : Type 0 where
    pub service_prefix : Bytes
    pub reconcile_on : MemberKind → Bool
    pub on_member : MemberKind → Option MemberHandler
    pub on_user_event : Option UserHandler
    pub on_unknown_event : Option UserHandler
    pub reconciler : Option (Member → Channel Member → Channel Member)
    pub is_leader : Bool
    pub is_leader_event : Option (UserEvent → Bool)

  module _ (addr_string : Addr → Bytes) where
    -- IsLeaderEvent and LeaderElectionHandler are not set.
    unfoldable pub event_handler : EventHandler
    unfolding handle_user_event reconcile
    event_handler = record {
      service_prefix = codes "kappa";
      reconcile_on = λ k. true;
      on_member = member_handler addr_string;
      on_user_event = some handle_user_event;
      on_unknown_event = some handle_user_event;
      reconciler = some reconcile;
      is_leader = true;
      is_leader_event = none;
    }

  -- HandleEvent of serfer, `none` where it panics or never returns. A membership event is handed to the
  -- handler of its kind, and then each of its members is reconciled, where the flag says so and the
  -- server is the leader.
  pub record SerferLaws (handle_event : EventHandler → Event → Wiring → Option Wiring)
      : Type 0 where
    pub handles_members :
        (h : EventHandler) (k : MemberKind) (ms : List Member) (w : Wiring) (f : MemberHandler)
        (r : Member → Channel Member → Channel Member)
        → h.on_member k ≡ some f
        → h.reconciler ≡ some r
        → handle_event h (member_event k ms) w
          ≡ some (record w {
            nodes = f ms w.nodes;
            reconcile_ch =
                if h.is_leader
                then (if h.reconcile_on k then reconciled r ms w.reconcile_ch else w.reconcile_ch)
                else w.reconcile_ch;
          })

  -- The events of a channel, one behind the other.
  abbrev pub run_events :
      (EventHandler → Event → Wiring → Option Wiring)
      → EventHandler
      → List Event
      → Wiring
      → Option Wiring
  run_events handle h [] w = some w
  run_events handle h (e ∷ es) w = elim (handle h e w) [
    | none ↦ none
    | some w' ↦ run_events handle h es w'
  ]

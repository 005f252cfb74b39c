-- ===== src/Server/Settings/Cluster.antt =====
-- Servers that the command `server` runs, each with its own settings, and their cluster.
use kappa.Base.{Bytes, codes, List, [], ◌∷◌, map, none, ◌≡◌, ◌↔◌, ap, sym, ◌∙◌, All}
use kappa.Cluster.Atoi.{ℤ}
use kappa.Cluster.Ports.{IsInt}
use kappa.Cluster.{Member, notify_merge}
use kappa.Cluster.Members.{IsMemberOf, notify_merge_iff}
use kappa.Config.{Viper, ViperLaws}
use kappa.Config.Steps.{AllFlags, initialize_config}
use kappa.Config.Sources.{blank}
use kappa.Server.{DatabaseConfig, serf_config}
use kappa.Server.Tags.{member_of, IsMemberOf-member_of}
use kappa.Config.Casts.{Casts}
use kappa.Server.Settings.{database_config}
use kappa.Server.Settings.Sources.{text_of, database_config-initialize_config}

-- The settings of a server: a viper that knew of no key, and the flags.
pub record Machine : Type 1 where
  pub viper : Viper
  pub laws : ViperLaws viper
  pub casts : Casts
  pub flags : AllFlags
  pub start : viper.Config
  pub fresh : viper.view start ≡ (λ k. blank)

abbrev pub config_of : Machine → DatabaseConfig
config_of m = database_config m.viper m.casts (initialize_config m.viper m.flags m.start)

abbrev pub cluster_of : Machine → Bytes
cluster_of m =
    text_of m.viper m.casts m.flags (codes "cluster") (codes "KAPPA_CLUSTER_NAME")
      (codes "ClusterName") (codes "kappa")

cluster_name-config_of : (m : Machine) → (config_of m).cluster_name ≡ cluster_of m
cluster_name-config_of m =
    ap (λ (c : DatabaseConfig). c.cluster_name)
      (database_config-initialize_config m.viper m.casts m.flags m.laws m.start m.fresh)

-- A server of another machine, with the port and the address it serves at; the port is an integer of 64 bits.
pub record Peer : Type 1 where
  pub machine : Machine
  pub id : Bytes
  pub port : ℤ
  pub ip : Bytes
  pub small : IsInt port

abbrev pub peer_member : Peer → Member
peer_member p = member_of (config_of p.machine) p.id p.port p.ip

abbrev pub InCluster : Bytes → Peer → Type 0
InCluster name p = cluster_of p.machine ≡ name

IsMemberOf-peer_member :
    (name : Bytes) (p : Peer) → IsMemberOf name (peer_member p) ↔ InCluster name p
IsMemberOf-peer_member name p =
    let (to, from) = IsMemberOf-member_of (config_of p.machine) p.id p.port p.ip p.small name in
    let same = cluster_name-config_of p.machine in (λ h. sym same ∙ to h, λ h. from (same ∙ h))

All-peer_member :
    (name : Bytes) (ps : List Peer)
    → All (IsMemberOf name) (map peer_member ps) ↔ All (InCluster name) ps
All-peer_member name [] = (λ h. h, λ h. h)
All-peer_member name (p ∷ ps) =
    let (to, from) = IsMemberOf-peer_member name p in
    let (all_to, all_from) = All-peer_member name ps in
    (λ h. (to h.0, all_to h.1), λ h. (from h.0, all_from h.1))

-- A server that the command `server` runs lets a merge of such servers pass exactly where the settings of
-- each of them choose its own cluster name: by the flag `cluster`, else the variable KAPPA_CLUSTER_NAME,
-- else the file, else "kappa". On each machine Viper knew of no key before, and each port is an integer
-- of 64 bits.
pub notify_merge-config_of :
    (here : Machine) (id : Bytes) (port : ℤ) (ip : Bytes) (peers : List Peer)
    → (notify_merge (serf_config (config_of here) id port ip).merge_name (map peer_member peers)
        ≡ none)
      ↔ All (InCluster (cluster_of here)) peers
unfolding serf_config
notify_merge-config_of here id port ip peers = rw (cluster_name-config_of here) (
    let (passes, lets) = notify_merge_iff (cluster_of here) (map peer_member peers) in
    let (to, from) = All-peer_member (cluster_of here) peers in
    (λ h. to (passes h), λ h. lets (from h)))

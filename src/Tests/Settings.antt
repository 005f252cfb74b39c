-- ===== src/Tests/Settings.antt =====
-- Servers that the command `server` runs, with a flag for the cluster or without.
use kappa.Base.{
  Bytes, codes, [], ◌∷◌, All, map, none, ◌≡◌, ◌↔◌, refl, nat_eq, list_eq, list_beq, arith,
}
use kappa.Text.{split}
use kappa.Cluster.Atoi.{pos}
use kappa.Cluster.{notify_merge}
use kappa.Config.Steps.{AllFlags, initialize_config}
use kappa.Config.Sources.{blank}
use kappa.Server.{serf_config}
use kappa.Server.Settings.{database_config}
use kappa.Server.Settings.Sources.{configured, database_config-initialize_config}
use kappa.Server.Settings.Cluster.{
  Machine, config_of, cluster_of, Peer, peer_member, InCluster, notify_merge-config_of,
}
use kappa.Tests.Config.{one_of, functions, functions-ViperLaws, no_flags, plain_casts}

abbrev blue_flags : AllFlags
blue_flags = record {
  main = no_flags;
  server = one_of (codes "cluster") (codes "blue");
  init_ca = no_flags;
  new_cert = no_flags;
}

abbrev plain_flags : AllFlags
plain_flags = record { main = no_flags; server = no_flags; init_ca = no_flags; new_cert = no_flags }

database_config-initialize_config_example :
    database_config functions plain_casts (initialize_config functions blue_flags (λ k. blank))
    ≡ configured functions plain_casts blue_flags
database_config-initialize_config_example =
    database_config-initialize_config functions plain_casts blue_flags functions-ViperLaws
      (λ k. blank) refl

-- A server without flags joins the one address of no characters.
no_nodes : (configured functions plain_casts plain_flags).existing_nodes ≡ ([] ∷ [])
unfolding split list_beq
no_nodes = refl

abbrev with_flags : AllFlags → Machine
with_flags f = record {
  viper = functions;
  laws = functions-ViperLaws;
  casts = plain_casts;
  flags = f;
  start = λ k. blank;
  fresh = refl;
}

abbrev address : Bytes
address = codes "10.0.0.2"

abbrev peer : AllFlags → Peer
peer f = record {
  machine = with_flags f;
  id = codes "1";
  port = pos 9022;
  ip = address;
  small = omega arith;
}

notify_merge-config_of_example :
    (notify_merge
        (serf_config (config_of (with_flags blue_flags)) (codes "1") (pos 9022) address).merge_name
        (map peer_member (peer blue_flags ∷ peer plain_flags ∷ []))
      ≡ none)
    ↔ All (InCluster (cluster_of (with_flags blue_flags))) (peer blue_flags ∷ peer plain_flags ∷ [])
notify_merge-config_of_example =
    notify_merge-config_of (with_flags blue_flags) (codes "1") (pos 9022) address
      (peer blue_flags ∷ peer plain_flags ∷ [])

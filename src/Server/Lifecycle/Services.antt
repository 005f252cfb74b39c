-- ===== src/Server/Lifecycle/Services.antt =====
-- The services that the command `server` runs while it waits for a signal.
use kappa.Base.{
  List, [], ◌∷◌, Bool, true, false, ◌↔◌, ◌⊎◌, Option, none, some, ◌≡◌, ◌≢◌, refl, arith, Result, ok,
  err,
}
use kappa.Bolt.{Bolt}
use kappa.Users.{Crypto}
use kappa.Server.{DatabaseConfig}
use kappa.Server.Boot.{Answers, StartError, Stop, returned, panicked, new_server}
use kappa.Server.Lifecycle.{
  Call, start_ssh, stop_ssh, start_handlers, stop_handlers, leave, shutdown, await_shutdown,
  await_signal, join, Network, joined, start, stop, Ended, nil_server, serve, run_created,
  run_server,
}

-- Whether the ssh server, the event handlers and serf run, and whether serf has left its cluster.
pub record Services : Type 0 where
  pub ssh : Bool
  pub handlers : Bool
  pub serf : Bool
  pub is_member : Bool

abbrev pub after_call : Call → Services → Services
after_call start_ssh s = record s { ssh = true }
after_call stop_ssh s = record s { ssh = false }
after_call start_handlers s = record s { handlers = true }
after_call stop_handlers s = record s { handlers = false }
after_call leave s = record s { is_member = false }
after_call shutdown s = record s { serf = false }
after_call await_shutdown s = s
after_call await_signal s = s
after_call (join nodes ignore_old) s = record s { is_member = true }

abbrev pub all_off : Services
all_off = record { ssh = false; handlers = false; serf = false; is_member = false }

-- Of these services NewServer starts serf, where it returns a server. The listener that NewSSHServer opens
-- is none of them.
abbrev pub created : {S A : Type 0} → Result S A → Services
created (ok serf) = record all_off { serf = true }
created (err s) = all_off

-- The services that run where the command stops for the signal.
abbrev pub at_signal : List Call → Services → Option Services
at_signal [] s = none
at_signal (await_signal ∷ cs) s = some s
at_signal (c ∷ cs) s = at_signal cs (after_call c s)

-- Every service runs, and the server has tried to join its cluster.
abbrev pub all_on : Services
all_on = record { ssh = true; handlers = true; serf = true; is_member = true }

abbrev serf_only : Services
serf_only = record all_off { serf = true }

-- What the server was able to do: NewServer returned it, and it bootstraps or has joined its cluster.
abbrev pub IsReady : {E S A : Type 0} → DatabaseConfig → Network E → Result S A → Type 0
IsReady {A = A} config net r =
    ((serf : A) × (r ≡ ok serf))
    × ((config.bootstrap ≡ true) ⊎ (net.join config.existing_nodes ≡ none))

module _ (b : Bolt) (E Serf : Type 0) (config : DatabaseConfig) (net : Network E) where
  abbrev served : Option E → List Call × Ended E (StartError b E Serf)
  served e = serve ((start config net).0, e)

  at_signal-served : (e : Option E) → (at_signal (served e).0 serf_only ≡ some all_on) ↔ (e ≡ none)
  unfolding start stop
  at_signal-served none = ground arith
  at_signal-served (some e) = ground arith

  joined_iff :
      ((e : E) → net.log_error e ≢ none)
      → (bootstrap : Bool) (e : Option E)
      → (joined net bootstrap e ≡ none) ↔ ((bootstrap ≡ true) ⊎ (e ≡ none))
  joined_iff never true none = ground arith
  joined_iff never true (some e) = ground arith
  joined_iff never false none = ground arith
  joined_iff never false (some e) = ground (arith, never e)

  at_signal-run_created :
      ((e : E) → net.log_error e ≢ none)
      → (r : Result (Stop b E Serf) Serf)
      → (at_signal (run_created b E Serf config net r).0 (created r) ≡ some all_on)
        ↔ IsReady config net r
  unfolding start
  at_signal-run_created never (ok serf) =
      let e = joined net config.bootstrap (net.join config.existing_nodes) in
      let (there, back) = at_signal-served e in
      let (from, to) = joined_iff never config.bootstrap (net.join config.existing_nodes) in
      (λ h. ((serf, refl), from (there h)), λ h. back (to h.1))
  at_signal-run_created never (err (returned none)) = (λ h. cc, λ h. cc h.0.1)
  at_signal-run_created never (err (returned (some e))) = (λ h. cc, λ h. cc h.0.1)
  at_signal-run_created never (err panicked) = (λ h. cc, λ h. cc h.0.1)

  nil_server-serve : (e : Option E) → (served e).1 ≢ nil_server
  nil_server-serve none h = cc
  nil_server-serve (some e) h = cc

  pub run_created-nil_server :
      (r : Result (Stop b E Serf) Serf)
      → r ≢ err panicked
      → ((run_created b E Serf config net r).1 ≡ nil_server) ↔ (r ≡ err (returned none))
  unfolding start
  run_created-nil_server (ok serf) ne = (
    λ h. absurd (nil_server-serve (joined net config.bootstrap (net.join config.existing_nodes)) h),
    λ h. cc,
  )
  run_created-nil_server (err (returned none)) ne = (λ h. refl, λ h. refl)
  run_created-nil_server (err (returned (some e))) ne = (λ h. cc, λ h. cc)
  run_created-nil_server (err panicked) ne = absurd (ne refl)

module _ (b : Bolt) (E Serf : Type 0) (c : Crypto) (config : DatabaseConfig) (a : Answers E Serf)
    (net : Network E) (db : b.Db) where
  -- The command comes to wait for a signal, with the ssh server, the event handlers and serf running
  -- and the cluster asked for, exactly where NewServer returns a server and it bootstraps or joins with
  -- no error. The logger's method Error never returns nil.
  pub run_server_serves :
      ((e : E) → net.log_error e ≢ none)
      → (at_signal
            (run_server b E Serf c config a net db).0.0
            (created (new_server b E Serf c config a db).0)
          ≡ some all_on)
        ↔ IsReady config net (new_server b E Serf c config a db).0
  unfolding run_server
  run_server_serves never =
      at_signal-run_created b E Serf config net never (new_server b E Serf c config a db).0

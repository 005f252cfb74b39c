-- ===== src/Server/Lifecycle.antt =====
-- The life of a server: Start and Stop of server/server.go, and the command `server` behind its
-- settings, commands/server.go. The calls of the ssh server, of serf and of serfer are written down in
-- their order; what Join, Stop and the logger's method Error answer is a record of answers. That a
-- signal comes is taken for granted: the command stops at its receive until then.
pub mod Services
pub mod Crash
use kappa.Base.{Bytes, List, [], ◌∷◌, ◌++◌, Bool, true, false, Option, none, some, Result, ok, err}
use kappa.Bolt.{Bolt}
use kappa.Users.{Crypto}
use kappa.Server.{DatabaseConfig}
use kappa.Server.Boot
use kappa.Server.Boot.{Answers, StartError, Stop, returned, panicked, new_server}

pub data Call : Type 0 where
  start_ssh stop_ssh start_handlers stop_handlers leave shutdown await_shutdown await_signal : Call
  join : List Bytes → Bool → Call

-- The error of Join, `none` for no error, and what `logger.Error` returns for an error.
pub record Network (E : Type 0) : Type 0 where
  pub join : List Bytes → Option E
  pub log_error : E → Option E

module _ {E : Type 0} where
  -- `if err != nil && !s.config.Bootstrap`: the logger's error is returned.
  abbrev pub joined : Network E → Bool → Option E → Option E
  joined net bootstrap none = none
  joined net true (some e) = none
  joined net false (some e) = net.log_error e

  -- The calls of Start, and its error.
  unfoldable pub start : DatabaseConfig → Network E → List Call × Option E
  start config net = (
    start_ssh ∷ start_handlers ∷ join config.existing_nodes true ∷ [],
    joined net config.bootstrap (net.join config.existing_nodes),
  )

-- The calls of Stop. An error of serfer's Stop is only logged.
unfoldable pub stop : List Call
stop = stop_ssh ∷ leave ∷ shutdown ∷ await_shutdown ∷ stop_handlers ∷ []

-- How the command ends here: with the error of NewServer, with that of Start, behind a signal, or in the
-- panic at its call of Start on a nil server. A panic of NewServer is put with the last. What a handler of
-- an event does while the server runs is not in this model.
pub data Ended (E F : Type 0) : Type 0 where
  not_created : F → Ended E F
  not_started : E → Ended E F
  signalled nil_server : Ended E F

module _ {E F : Type 0} where
  -- The rest of the command behind Start.
  abbrev pub serve : List Call × Option E → List Call × Ended E F
  serve (calls, some e) = (calls ++ stop, not_started e)
  serve (calls, none) = (calls ++ await_signal ∷ stop, signalled)

module _ (b : Bolt) (E Serf : Type 0) where
  -- Behind NewServer. Where it returns neither a server nor an error, the first call of Start reads a
  -- field of a nil server.
  abbrev pub run_created :
      DatabaseConfig
      → Network E
      → Result (Stop b E Serf) Serf
      → List Call × Ended E (StartError b E Serf)
  run_created config net (ok serf) = serve (start config net)
  run_created config net (err (returned (some e))) = ([], not_created e)
  run_created config net (err (returned none)) = ([], nil_server)
  run_created config net (err panicked) = ([], nil_server)

  unfoldable pub run_server :
      Crypto
      → DatabaseConfig
      → Answers E Serf
      → Network E
      → b.Db
      → (List Call × Ended E (StartError b E Serf)) × b.Db
  unfolding new_server
  run_server c config a net db =
      let (r, db') = new_server b E Serf c config a db in (run_created config net r, db')

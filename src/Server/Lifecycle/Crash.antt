-- ===== src/Server/Lifecycle/Crash.antt =====
-- When the command `server` calls Start on a nil server.
use kappa.Base.{Bytes, true, ◌↔◌, Option, none, some, ◌≡◌, ◌≢◌, arith, Result, ok, err}
use kappa.Bolt.{Bolt, BoltLaws}
use kappa.Users
use kappa.Users.{Crypto}
use kappa.Server.{DatabaseConfig, setup_serf}
use kappa.Server.Boot.{
  Answers, read_private_key, Stop, panicked, add_admin, new_server, logged, start_serf,
  start_listeners, pass,
}
use kappa.Server.Start.{is_unparsed, behind_admin, new_server_neither}
use kappa.Server.Lifecycle.{Network, nil_server, run_server}
use kappa.Server.Lifecycle.Services.{run_created-nil_server}

module _ (b : Bolt) (law : BoltLaws b) (E Serf : Type 0) (c : Crypto) (config : DatabaseConfig)
    (a : Answers E Serf) (db : b.Db) where
  add_admin-ne-panicked : (cert : Bytes) → (add_admin b E Serf c cert db).0 ≢ err panicked
  unfolding add_admin Users.create
  add_admin-ne-panicked cert = rw law.write_tx_runs (ground arith)

  logged-ne-panicked : (e : Option E) → logged b E Serf e ≢ panicked
  logged-ne-panicked none h = cc
  logged-ne-panicked (some e) h = cc

  start_serf-ne-panicked :
      (r : Result E Serf) (d : b.Db) → (start_serf b E Serf a r d).0 ≢ err panicked
  start_serf-ne-panicked (ok serf) d h = cc
  start_serf-ne-panicked (err e) d h = ground (arith, logged-ne-panicked (a.log_error e))

  start_listeners-ne-panicked : (d : b.Db) → (start_listeners b E Serf config a d).0 ≢ err panicked
  unfolding start_listeners
  start_listeners-ne-panicked d = ground (
    arith,
    start_serf-ne-panicked
        (setup_serf E Serf config a.uuid a.ssh_port a.snapshot_path a.ensure_path a.create_serf) d,
  )

  pass-ne-panicked :
      (r : Result (Stop b E Serf) Bytes) (d : b.Db)
      → r ≢ err panicked
      → (pass b E Serf (λ f. start_listeners b E Serf config a) r d).0 ≢ err panicked
  pass-ne-panicked (ok f) d ne = start_listeners-ne-panicked d
  pass-ne-panicked (err s) d ne = λ h. ne (cc)

  -- The command `server` calls Start on a nil server, which panics, exactly where the admin's account is
  -- made, and the root certificate is read and no certificate is found in it: NewServer then returns a nil
  -- server with no error. The calls before the account succeed, and the logger's method Error never
  -- returns nil.
  pub run_server-nil_server :
      (net : Network E) (cert : Bytes)
      → ((e : E) → a.log_error e ≢ none)
      → a.make_data_path ≡ none
      → a.working_directory ≡ none
      → a.new_system ≡ none
      → read_private_key a ≡ none
      → a.admin_certificate ≡ ok cert
      → a.user_store ≡ none
      → ((run_server b E Serf c config a net db).0.1 ≡ nil_server) ↔ (
          ((fingerprint : Bytes) × ((add_admin b E Serf c cert db).0 ≡ ok fingerprint))
          × (is_unparsed a a.root_certificate ≡ true))
  unfolding run_server
  run_server-nil_server net cert never m w n r k u =
      let (there, back) = new_server_neither b law E Serf c config a db cert never m w n r k u in
      let (from, to) =
        run_created-nil_server b E Serf config net (new_server b E Serf c config a db).0 (
          rw (behind_admin b law E Serf c config a db cert m w n r k u) (
            pass-ne-panicked (add_admin b E Serf c cert db).0 (add_admin b E Serf c cert db).1
              (add_admin-ne-panicked cert))) in
      (λ h. there (from h), λ h. to (back h))

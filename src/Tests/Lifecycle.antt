-- ===== src/Tests/Lifecycle.antt =====
-- The command `server`, with the answers of Tests.Server: its services and its end.
use kappa.Base.{Bytes, codes, true, false, some, ◌≡◌, ◌↔◌, refl, ok, nat_eq, list_eq}
use kappa.Bolt.Memory.{memory}
use kappa.Bolt.Memory.Laws.{memory_laws}
use kappa.Server.Boot.{add_admin, new_server, read_private_key}
use kappa.Server.Start.{is_unparsed}
use kappa.Server.Lifecycle.{Network, nil_server, run_server}
use kappa.Server.Lifecycle.Services.{at_signal, created, all_on, IsReady, run_server_serves}
use kappa.Server.Lifecycle.Crash.{run_server-nil_server}
use kappa.Tests.Server.{config, plain_crypto, certificate, answers, empty}

-- No node can be joined.
abbrev alone : Network Bytes
alone = record { join = λ nodes. some (codes "no answer"); log_error = λ e. some e }

run_server_serves_example :
    (at_signal
        (run_server memory Bytes Bytes plain_crypto config (answers true) alone empty).0.0
        (created (new_server memory Bytes Bytes plain_crypto config (answers true) empty).0)
      ≡ some all_on)
    ↔ IsReady config alone
        (new_server memory Bytes Bytes plain_crypto config (answers true) empty).0
run_server_serves_example =
    run_server_serves memory Bytes Bytes plain_crypto config (answers true) alone empty (λ e h. cc)

run_server-nil_server_example :
    ((run_server memory Bytes Bytes plain_crypto config (answers false) alone empty).0.1
      ≡ nil_server)
    ↔ (((fingerprint : Bytes) × ((add_admin memory Bytes Bytes plain_crypto certificate empty).0
            ≡ ok fingerprint))
        × (is_unparsed (answers false) (ok (codes "root")) ≡ true))
unfolding read_private_key
run_server-nil_server_example =
    run_server-nil_server memory memory_laws Bytes Bytes plain_crypto config (answers false) empty
      alone certificate (λ e h. cc) refl refl refl refl refl refl

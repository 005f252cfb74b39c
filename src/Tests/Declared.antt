-- ===== src/Tests/Declared.antt =====
-- The settings of a server with a flag, a variable and an entry in the file.
use kappa.Base.{Bytes, codes, some, nat_eq, list_eq, ◌≡◌}
use kappa.Config.{Value}
use kappa.Config.Steps.{AllFlags}
use kappa.Config.Declared.{Declared, server_flags, find_flag, kind}
use kappa.Tests.Config.{no_flags, one_of}

abbrev blue_flags : AllFlags
blue_flags = record {
  main = no_flags;
  server = one_of (codes "cluster") (codes "blue");
  init_ca = no_flags;
  new_cert = no_flags;
}

abbrev IsConform : Bytes → Value → Type 0
IsConform name x =
    (d : Declared) × (find_flag name server_flags ≡ some d) × (kind x ≡ kind d.default)

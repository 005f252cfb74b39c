-- ===== src/Pki/Sources.antt =====
-- The settings of init-ca and new-cert: what they read from viper, in commands/init-ca.go and
-- commands/new-cert.go, traced back to the command line, the environment and the file.
use kappa.Base.{Bytes, codes, Option, none, some, ◌≡◌}
use kappa.Config.{Value, text, first_of, Viper, ViperLaws}
use kappa.Config.Casts.{Casts, get_string, get_bool, get_int}
use kappa.Config.Steps.{Flags, AllFlags, initialize_config}
use kappa.Config.Sources.{blank, initialize_config-IsResolved}
use kappa.Pki.{Settings}

module _ (v : Viper) (casts : Casts) where
  -- init-ca does not read the name.
  unfoldable pub settings_of : v.Config → Settings
  settings_of c = record {
    bits = get_int v casts c (codes "Bits");
    years = get_int v casts c (codes "Years");
    organization = get_string v casts c (codes "Organization");
    country = get_string v casts c (codes "Country");
    hosts = get_string v casts c (codes "Hosts");
    name = get_string v casts c (codes "Name");
    force_overwrite = get_bool v casts c (codes "ForceOverwrite");
  }

  -- The value of a flag where it is changed, else in the file, else the default.
  abbrev pub chosen : Flags → Bytes → Bytes → Option Value → Option Value
  chosen flags flag_name key default = first_of (flags flag_name) (first_of (v.files key) default)

  -- What both commands run with: the flags of init-ca for the key and the subject, and those of
  -- new-cert for the name and the question.
  abbrev pub expected : AllFlags → Settings
  expected f = record {
    bits =
        casts.to_int (chosen f.init_ca (codes "bits") (codes "Bits") (some (text (codes "4096"))));
    years =
        casts.to_int (chosen f.init_ca (codes "years") (codes "Years") (some (text (codes "10"))));
    organization = casts.to_string (
        chosen f.init_ca (codes "organization") (codes "Organization")
          (some (text (codes "kappa-ca"))));
    country =
        casts.to_string
          (chosen f.init_ca (codes "country") (codes "Country") (some (text (codes "USA"))));
    hosts = casts.to_string (chosen f.init_ca (codes "hosts") (codes "Hosts") none);
    name =
        casts.to_string
          (chosen f.new_cert (codes "name") (codes "Name") (some (text (codes "localhost"))));
    force_overwrite = casts.to_bool (
        chosen f.new_cert (codes "overwrite") (codes "ForceOverwrite")
          (some (text (codes "false"))));
  }

  -- Both certificate commands take the key and the subject from the flags of init-ca, the name and
  -- whether to overwrite from those of new-cert, and each else from the file or its default; the hosts
  -- have no default. Viper knew of no key before.
  pub settings_of-initialize_config :
      (f : AllFlags) (law : ViperLaws v) (c : v.Config)
      → v.view c ≡ (λ k. blank)
      → settings_of (initialize_config v f c) ≡ expected f
  unfolding settings_of
  settings_of-initialize_config f law c fresh =
      let server = initialize_config-IsResolved v law f c fresh in
      let last = server.1.1.1.1.1.1.1.1.1.1.1.1.1.1.1.1 in
      let subject = last.1 in
      let own = subject.1.1.1.1.1 in
      λ i. record {
        bits = casts.to_int (subject.0 i);
        years = casts.to_int (subject.1.0 i);
        organization = casts.to_string (subject.1.1.0 i);
        country = casts.to_string (subject.1.1.1.0 i);
        hosts = casts.to_string (subject.1.1.1.1.0 i);
        name = casts.to_string (own.0 i);
        force_overwrite = casts.to_bool (own.1.0 i);
      }

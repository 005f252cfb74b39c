-- ===== src/Pki/Hosts.antt =====
-- Where the hosts of the settings go in a certificate's template.
use kappa.Base.{
  Bytes, List, [], ◌∷◌, ◌++◌, append_assoc, append-nil, Option, none, some, ◌≡◌, refl, ap, ◌∙◌,
}
use kappa.Text.{comma, split}
use kappa.Pki.{Names, Tools, add_host, add_hosts, names_of}

abbrev keep_ip : {A : Type 0} → Option A → List A → List A
keep_ip none ips = ips
keep_ip (some ip) ips = ip ∷ ips

abbrev keep_name : {A : Type 0} → Option A → Bytes → List Bytes → List Bytes
keep_name none h hs = h ∷ hs
keep_name (some ip) h hs = hs

module _ (t : Tools) where
  -- The addresses that can be parsed, and the hosts that cannot.
  abbrev pub ips : List Bytes → List t.Ip
  ips [] = []
  ips (h ∷ hs) = keep_ip (t.parse_ip h) (ips hs)

  abbrev pub others : List Bytes → List Bytes
  others [] = []
  others (h ∷ hs) = keep_name (t.parse_ip h) h (others hs)

  abbrev behind : Names t.Ip → List t.Ip → List Bytes → Names t.Ip
  behind names is hs = record {
    ip_addresses = names.ip_addresses ++ is;
    dns_names = names.dns_names ++ hs;
  }

  add_host-behind :
      (h : Bytes) (r : Option t.Ip) (names : Names t.Ip) (is : List t.Ip) (hs : List Bytes)
      → behind (add_host t h r names) is hs ≡ behind names (keep_ip r is) (keep_name r h hs)
  add_host-behind h none names is hs =
      ap (λ ds. record { ip_addresses = names.ip_addresses ++ is; dns_names = ds })
        (append_assoc names.dns_names (h ∷ []) hs)
  add_host-behind h (some ip) names is hs =
      ap (λ addresses. record { ip_addresses = addresses; dns_names = names.dns_names ++ hs })
        (append_assoc names.ip_addresses (ip ∷ []) is)

  add_hosts-behind :
      (hs : List Bytes) (names : Names t.Ip)
      → add_hosts t hs names ≡ behind names (ips hs) (others hs)
  add_hosts-behind [] names = rw (append-nil names.ip_addresses, append-nil names.dns_names) refl
  add_hosts-behind (h ∷ hs) names =
      add_hosts-behind hs (add_host t h (t.parse_ip h) names)
      ∙ add_host-behind h (t.parse_ip h) names (ips hs) (others hs)

  -- Each host of the comma-separated list stands in the template once and in its order: among the
  -- addresses where ParseIP takes it, and among the names where it does not.
  pub names_of-eq-filtered :
      (hosts : Bytes)
      → names_of t hosts
        ≡ record { ip_addresses = ips (split comma hosts); dns_names = others (split comma hosts) }
  unfolding names_of
  names_of-eq-filtered hosts =
      add_hosts-behind (split comma hosts) (record { ip_addresses = []; dns_names = [] })

-- ===== src/Pki.antt =====
-- The certificates and the files of `init-ca` and `new-cert`: auth/keys.go, commands/init-ca.go and
-- commands/new-cert.go. The files are a map from clean paths to contents, and a file can
-- always be written.
-- The packages of cryptography, net and encoding/pem are a record of operations.
pub mod Templates
pub mod Commands
pub mod Files
pub mod Authority
pub mod Signed
pub mod Issued
pub mod Sources
pub mod Hosts
use kappa.Base.{
  ℕ, Bytes, codes, List, [], ◌∷◌, ◌++◌, Bool, true, false, not, ◌==◌, nat_eq, list_eq, Option, none,
  some, if◌then◌else◌, nonempty, contains, lookup, insert, is_present, Result, ok, err,
}
use kappa.Text.{comma, split}
use kappa.Text.{lower}
use kappa.Cluster.Atoi.{ℤ}

abbrev pub Files : Type 0
Files = List (Bytes × Bytes)

-- The settings that the commands read.
pub record Settings : Type 0 where
  pub bits : ℤ
  pub years : ℤ
  pub organization : Bytes
  pub country : Bytes
  pub hosts : Bytes
  pub name : Bytes
  pub force_overwrite : Bool

-- The addresses and names in a certificate's template.
pub record Names (Ip : Type 0) : Type 0 where
  pub ip_addresses : List Ip
  pub dns_names : List Bytes

-- `pkix.Name`, of which these fields are set.
pub record Name : Type 0 where
  pub country : List Bytes
  pub organization : List Bytes
  pub organizational_unit : List Bytes

pub data KeyUsage : Type 0 where
  digital_signature cert_sign : KeyUsage

pub data ExtKeyUsage : Type 0 where
  client_auth server_auth : ExtKeyUsage

-- `x509.Certificate` as a template. The algorithms, which are the same for all, are left out.
pub record Template (Ip Time : Type 0) : Type 0 where
  pub is_ca : Bool
  pub basic_constraints_valid : Bool
  pub subject_key_id : Bytes
  pub serial_number : ℕ
  pub subject : Name
  pub not_before : Time
  pub not_after : Time
  pub ext_key_usage : List ExtKeyUsage
  pub key_usage : List KeyUsage
  pub names : Names Ip

-- `x509.CertificateRequest` as a template.
pub record Request (Ip : Type 0) : Type 0 where
  pub subject : Name
  pub names : Names Ip

-- The packages. `create_certificate` signs a template by the certificate of its issuer, `none` for the
-- template itself, with the public part of the first key, and the second key as the issuer's.
pub record Tools : Type 1 where
  pub Ip : Type 0
  pub Time : Type 0
  pub Key : Type 0
  pub Certificate : Type 0
  pub Error : Type 0
  pub parse_ip : Bytes → Option Ip
  pub generate_key : ℤ → Result Error Key
  pub marshal_key : Key → Bytes
  pub parse_key : Bytes → Result Error Key
  pub parse_certificate : Bytes → Result Error Certificate
  -- asn1.Marshal of the public key, and sha1.Sum
  pub marshal_public_key : Key → Result Error Bytes
  pub sha1 : Bytes → Bytes
  -- rand.Int, with its limit
  pub random_int : ℕ → Result Error ℕ
  -- Now, Add of nanoseconds, and AddDate of years, months and days
  pub now : Time
  pub add : ℤ → Time → Time
  pub add_date : ℤ → ℤ → ℤ → Time → Time
  pub create_certificate : Template Ip Time → Option Certificate → Key → Key → Result Error Bytes
  pub create_request : Request Ip → Key → Result Error Bytes
  pub encode : Bytes → Bytes → Bytes
  pub decode : Bytes → Option (Bytes × Bytes)

abbrev pub ca_crt : Bytes
ca_crt = codes "pki/ca.crt"

abbrev pub ca_key : Bytes
ca_key = codes "pki/private/ca.key"

abbrev pub certificate_type : Bytes
certificate_type = codes "CERTIFICATE"

abbrev pub key_type : Bytes
key_type = codes "RSA PRIVATE KEY"

abbrev pub request_type : Bytes
request_type = codes "CERTIFICATE REQUEST"

-- The files that are there.
abbrev pub existing : List Bytes → Files → List Bytes
existing [] files = []
existing (f ∷ fs) files =
    let rest = existing fs files in if is_present (lookup f files) then f ∷ rest else rest

-- `strings.Contains(strings.ToLower(input), "y")`
abbrev pub agrees : Bytes → Bool
agrees input = contains b'y' (lower input)

-- Whether the command goes on, for the answer that the user gives if there is a question.
unfoldable pub may_write : Bool → List Bytes → Bytes → Files → Bool
unfolding lookup contains
may_write force names input files =
    if force then true else if nonempty (existing names files) then agrees input else true

infixl 5 ◌>>=◌
abbrev pub ◌>>=◌ : {E A B : Type 0} → Result E A → (A → Result E B) → Result E B
ok a >>= f = f a
err e >>= f = err e

module _ (t : Tools) where
  -- One round of the loop over the hosts, for what ParseIP answers.
  abbrev pub add_host : Bytes → Option t.Ip → Names t.Ip → Names t.Ip
  add_host h (some ip) names = record names { ip_addresses = names.ip_addresses ++ ip ∷ [] }
  add_host h none names = record names { dns_names = names.dns_names ++ h ∷ [] }

  abbrev pub add_hosts : List Bytes → Names t.Ip → Names t.Ip
  add_hosts [] names = names
  add_hosts (h ∷ hs) names = add_hosts hs (add_host h (t.parse_ip h) names)

  unfoldable pub names_of : Bytes → Names t.Ip
  unfolding split
  names_of hosts = add_hosts (split comma hosts) (record { ip_addresses = []; dns_names = [] })

  pub data PkiError : Type 0 where
    of_package : t.Error → PkiError
    no_serial_number : t.Error → PkiError
    unreadable_file no_pem different_header : PkiError

  abbrev pub Outcome : Type 0 → Type 0
  Outcome A = Result PkiError A

  abbrev pub called : {A : Type 0} → Result t.Error A → Outcome A
  called (ok a) = ok a
  called (err e) = err (of_package e)

  abbrev pub save : Bytes → Bytes → Bytes → Files → Files
  save kind bytes name files = insert name (t.encode kind bytes) files

  abbrev headed : Bytes → Option (Bytes × Bytes) → Outcome Bytes
  headed kind none = err no_pem
  headed kind (some (header, bytes)) = if header == kind then ok bytes else err different_header

  abbrev decoded : Bytes → Option Bytes → Outcome Bytes
  decoded kind none = err unreadable_file
  decoded kind (some file) = headed kind (t.decode file)

  unfoldable pub read_certificate : Bytes → Bytes → Files → Outcome Bytes
  unfolding lookup
  read_certificate name kind files = decoded kind (lookup name files)

  -- The certificate and the key of the authority are read from their files.
  unfoldable pub read_authority : Files → Outcome (t.Certificate × t.Key)
  unfolding read_certificate
  read_authority files = do
    certificate ← read_certificate ca_crt certificate_type files
    authority ← called (t.parse_certificate certificate)
    bytes ← read_certificate ca_key key_type files
    key ← called (t.parse_key bytes)
    ok (authority, key)

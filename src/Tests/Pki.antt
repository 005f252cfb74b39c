-- ===== src/Tests/Pki.antt =====
-- A new authority in an empty directory, and a second one beside it. Keys and certificates are texts, and
-- a block in a file is its kind, a byte and its bytes.
use kappa.Base.{
  err, ltb, leb, ◌<◌, arith, if◌then◌else◌, ℕ, zero, suc, Bytes, codes, [], ◌∷◌, ◌++◌, false,
  Option, none, some, nat_eq, list_eq, list_beq, lookup, ok, ◌≡◌, refl, inl, contains, ap,
}
use kappa.Text.{comma, split}
use kappa.Cluster.Atoi.{ℤ, pos}
use kappa.Pki.Issued.{IsIssued, run_command-IsIssued}
use kappa.Pki.Hosts.{ips, others, names_of-eq-filtered}
use kappa.Pki.{
  Files, Settings, Tools, ca_crt, ca_key, certificate_type, key_type, names_of, read_authority,
}
use kappa.Pki.Authority.{read_authority-new_cert}
use kappa.Pki.Commands.{done, init_ca, new_cert, req_file, priv_file, crt_file}
use kappa.Pki.Files.{authority, run_command, lookup-run_command, IsReadBack, read_authority-init_ca}

abbrev encode : Bytes → Bytes → Bytes
encode [] bytes = 0 ∷ bytes
encode (c ∷ kind) bytes = 1 ∷ c ∷ encode kind bytes

abbrev kind_byte : ℕ → Option (Bytes × Bytes) → Option (Bytes × Bytes)
kind_byte c none = none
kind_byte c (some (kind, bytes)) = some (c ∷ kind, bytes)

abbrev decode : Bytes → Option (Bytes × Bytes)
decode [] = none
decode (zero ∷ bytes) = some ([], bytes)
decode (suc n ∷ []) = none
decode (suc n ∷ c ∷ s) = kind_byte c (decode s)

decode-encode : (kind bytes : Bytes) → decode (encode kind bytes) ≡ some (kind, bytes)
decode-encode [] bytes = refl
decode-encode (c ∷ kind) bytes = ap (kind_byte c) (decode-encode kind bytes)

-- Texts that begin with a digit are addresses.
abbrev numeral : Bytes → Option Bytes
numeral [] = none
numeral (c ∷ s) = if leb c b'9' then some (c ∷ s) else none

abbrev plain : Tools
plain = record {
  Ip = Bytes;
  Time = ℤ;
  Key = Bytes;
  Certificate = Bytes;
  Error = Unit {0};
  parse_ip = numeral;
  generate_key = λ bits. ok (codes "key");
  marshal_key = λ key. key;
  parse_key = λ bytes. ok bytes;
  parse_certificate = λ bytes. ok bytes;
  marshal_public_key = λ key. ok key;
  sha1 = λ bytes. bytes;
  random_int = λ limit. if ltb 7 limit then ok 7 else err tt;
  now = pos 5;
  add = λ n time. time;
  add_date = λ years months days time. years;
  create_certificate = λ template issuer key signer. ok (template.subject_key_id ++ signer);
  create_request = λ request key. ok key;
  encode = encode;
  decode = decode;
}

abbrev settings : Settings
settings = record {
  bits = pos 4096;
  years = pos 10;
  organization = codes "kappa-ca";
  country = codes "USA";
  hosts = codes "127.0.0.1,localhost";
  name = codes "web";
  force_overwrite = false;
}

abbrev no_error : Bytes → Option (Unit {0})
no_error path = none

abbrev old_key : Bytes
old_key = codes "old"

abbrev old_files : Files
old_files = (ca_key, old_key) ∷ []

-- The key is kept, for the answer is no.
lookup-run_command_example :
    lookup ca_key (run_command plain no_error settings (codes "No") old_files authority).1
    ≡ lookup ca_key old_files
unfolding lookup list_beq contains
lookup-run_command_example =
    lookup-run_command plain no_error settings (codes "No") old_files ca_key authority
      (inl (refl, refl, refl))

first_run : (init_ca plain no_error settings [] []).0 ≡ done
unfolding init_ca lookup
first_run = refl

read_authority-init_ca_example :
    IsReadBack plain no_error settings [] [] (init_ca plain no_error settings [] [])
read_authority-init_ca_example =
    read_authority-init_ca plain no_error settings [] [] decode-encode (λ key. refl)
      (λ template key cert e. (cert, refl)) first_run

abbrev no_files : Files
no_files = []

below : (limit n : ℕ) → plain.random_int limit ≡ ok n → n < limit
below limit n h = ground arith

run_command-IsIssued_example :
    IsIssued plain settings authority no_files
      (run_command plain no_error settings [] no_files authority)
run_command-IsIssued_example =
    run_command-IsIssued plain settings below decode-encode no_files no_error [] authority first_run

names_of-eq-filtered_example : names_of plain (codes "127.0.0.1,localhost") ≡ record {
  ip_addresses = ips plain (split comma (codes "127.0.0.1,localhost"));
  dns_names = others plain (split comma (codes "127.0.0.1,localhost"));
}
names_of-eq-filtered_example = names_of-eq-filtered plain (codes "127.0.0.1,localhost")

-- A list without hosts gives one name of no characters.
no_hosts : names_of plain [] ≡ record { ip_addresses = []; dns_names = [] ∷ [] }
unfolding names_of split
no_hosts = refl

web_file : crt_file (codes "web") ≡ codes "pki/public/web.crt"
unfolding crt_file list_beq
web_file = refl

-- The certificate of this name is that of the authority.
over_authority : crt_file (codes "../ca") ≡ ca_crt
unfolding crt_file list_beq
over_authority = refl

-- The key of this name is that of the authority.
over_authority_key : priv_file (codes "ca") ≡ ca_key
unfolding priv_file list_beq
over_authority_key = refl

abbrev authority_files : Files
authority_files =
    (ca_crt, encode certificate_type (codes "ca")) ∷ (ca_key, encode key_type old_key) ∷ []

new_cert_run : (new_cert plain no_error settings [] authority_files).0 ≡ done
unfolding new_cert req_file priv_file crt_file lookup list_beq
new_cert_run = refl

read_authority-new_cert_example :
    read_authority plain (new_cert plain no_error settings [] authority_files).1
    ≡ read_authority plain authority_files
unfolding contains list_beq
read_authority-new_cert_example =
    read_authority-new_cert plain no_error settings [] authority_files refl refl

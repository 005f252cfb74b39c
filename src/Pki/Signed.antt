-- ===== src/Pki/Signed.antt =====
-- What the certificates of init-ca and new-cert are signed as.
use kappa.Base.{
  ℕ, ◌<◌, Bytes, List, [], ◌∷◌, Bool, true, false, nat_eq, list_eq, Option, none, some, Result, ok,
  err, ◌≡◌, refl, arith,
}
use kappa.Pki.{
  Files, Settings, Name, Template, KeyUsage, digital_signature, cert_sign, Tools, ca_crt, ◌>>=◌,
  called, read_authority,
}
use kappa.Pki.Templates.{
  serial_number_limit, numbered, serial_number, generate_subject_key_id, authority_template,
  certificate_template, request_template, create_certificate_authority, create_certificate,
}
use kappa.Pki.Commands.{crt_file}
use kappa.Pki.Files.{Command, authority, certificate}

-- Whether a key with these usages may sign certificates.
abbrev pub may_sign : List KeyUsage → Bool
may_sign [] = false
may_sign (cert_sign ∷ usages) = true
may_sign (digital_signature ∷ usages) = may_sign usages

abbrev pub is_authority : Command → Bool
is_authority authority = true
is_authority certificate = false

abbrev pub certificate_file : Command → Settings → Bytes
certificate_file authority s = ca_crt
certificate_file certificate s = crt_file s.name

abbrev pub subject_of : Command → Settings → Name
subject_of authority s = record {
  country = s.country ∷ [];
  organization = s.organization ∷ [];
  organizational_unit = [];
}
subject_of certificate s = record {
  country = s.country ∷ [];
  organization = s.organization ∷ [];
  organizational_unit = s.name ∷ [];
}

pub bound_ok :
    {E A B : Type 0} (m : Result E A) (f : A → Result E B) (b : B)
    → (m >>= f) ≡ ok b
    → (a : A) × (m ≡ ok a) × (f a ≡ ok b)
bound_ok (ok a) f b h = (a, refl, h)
bound_ok (err e) f b h = cc

module _ (t : Tools) where
  -- Who signs: the new key itself for an authority, and the authority of the files for a certificate.
  abbrev pub IsSigner : Command → Files → t.Key → Option t.Certificate × t.Key → Type 0
  IsSigner authority files key (issuer, signer) = (issuer ≡ none) × (signer ≡ key)
  IsSigner certificate files key (issuer, signer) =
      (a : t.Certificate) × (issuer ≡ some a) × (read_authority t files ≡ ok (a, signer))

  -- A certificate was signed in the right way.
  pub record IsSigned (k : Command) (s : Settings) (files : Files) (key : t.Key) (cert : Bytes)
      : Type 0 where
    pub template : Template t.Ip t.Time
    pub issuer : Option t.Certificate
    pub signer : t.Key
    pub signed : t.create_certificate template issuer key signer ≡ ok cert
    pub by_signer : IsSigner k files key (issuer, signer)
    pub role : (template.is_ca ≡ is_authority k) × (may_sign template.key_usage ≡ is_authority k)
    pub subject : template.subject ≡ subject_of k s
    pub serial : template.serial_number < serial_number_limit

  module _ (s : Settings) (below : (limit n : ℕ) → t.random_int limit ≡ ok n → n < limit) where
    serial_below : (n : ℕ) → serial_number t ≡ ok n → n < serial_number_limit
    unfolding serial_number
    serial_below n h = by_result (t.random_int serial_number_limit) refl h
      where
        by_result :
            (r : Result t.Error ℕ)
            → t.random_int serial_number_limit ≡ r
            → numbered t r ≡ ok n
            → n < serial_number_limit
        by_result (ok m) e h = below serial_number_limit n (ground arith)
        by_result (err x) e h = cc

    called_ok : {A : Type 0} (r : Result t.Error A) (a : A) → called t r ≡ ok a → r ≡ ok a
    called_ok (ok a) b h = ground arith
    called_ok (err e) b h = cc

    pub authority-IsSigned :
        (files : Files) (key : t.Key) (cert : Bytes)
        → create_certificate_authority t key s ≡ ok cert
        → IsSigned authority s files key cert
    unfolding create_certificate_authority authority_template
    authority-IsSigned files key cert h =
        let (id, _, h) = bound_ok (called t (generate_subject_key_id t key)) _ cert h in
        let (serial, e, h) = bound_ok (serial_number t) _ cert h in
        record {
          template = authority_template t s id serial;
          issuer = none;
          signer = key;
          signed = called_ok _ cert h;
          by_signer = (refl, refl);
          role = (refl, refl);
          subject = refl;
          serial = serial_below serial e;
        }

    pub certificate-IsSigned :
        (files : Files) (key : t.Key) (cert : Bytes)
        → create_certificate t (request_template t s) key s files ≡ ok cert
        → IsSigned certificate s files key cert
    unfolding create_certificate certificate_template request_template
    certificate-IsSigned files key cert h =
        let ((a, signer), from, h) = bound_ok (read_authority t files) _ cert h in
        let (id, _, h) = bound_ok (called t (generate_subject_key_id t key)) _ cert h in
        let (serial, e, h) = bound_ok (serial_number t) _ cert h in
        record {
          template = certificate_template t (request_template t s) s id serial;
          issuer = some a;
          signer = signer;
          signed = called_ok _ cert h;
          by_signer = (a, refl, from);
          role = (refl, refl);
          subject = refl;
          serial = serial_below serial e;
        }

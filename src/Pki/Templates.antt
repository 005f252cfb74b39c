-- ===== src/Pki/Templates.antt =====
-- The certificates and requests that auth/keys.go asks the package x509 to sign.
use kappa.Base.{ℕ, ◌^◌, Bytes, [], ◌∷◌, true, false, none, some, Result, ok, err}
use kappa.Cluster.Atoi.{ℤ, pos, negsuc}
use kappa.Pki.{
  Files, Settings, Template, Request, Tools, digital_signature, cert_sign, client_auth, server_auth,
  names_of, no_serial_number, Outcome, ◌>>=◌, called, read_authority,
}

-- `new(big.Int).Lsh(big.NewInt(1), 128)`
abbrev pub serial_number_limit : ℕ
serial_number_limit = 2 ^ 128

module _ (t : Tools) where
  unfoldable pub generate_subject_key_id : t.Key → Result t.Error Bytes
  generate_subject_key_id key = do pub_key ← t.marshal_public_key key; ok (t.sha1 pub_key)

  abbrev pub numbered : Result t.Error ℕ → Outcome t ℕ
  numbered (ok n) = ok n
  numbered (err e) = err (no_serial_number e)

  unfoldable pub serial_number : Outcome t ℕ
  serial_number = numbered (t.random_int serial_number_limit)

  -- `time.Now().Add(-600)`, a duration in nanoseconds
  abbrev pub not_before : t.Time
  not_before = t.add (negsuc 599) t.now

  abbrev pub not_after : ℤ → t.Time
  not_after years = t.add_date years (pos 0) (pos 0) t.now

  unfoldable pub authority_template : Settings → Bytes → ℕ → Template t.Ip t.Time
  unfolding names_of
  authority_template s subject_key_id serial = record {
    is_ca = true;
    basic_constraints_valid = true;
    subject_key_id = subject_key_id;
    serial_number = serial;
    subject = record {
      country = s.country ∷ [];
      organization = s.organization ∷ [];
      organizational_unit = [];
    };
    not_before = not_before;
    not_after = not_after s.years;
    ext_key_usage = client_auth ∷ server_auth ∷ [];
    key_usage = digital_signature ∷ cert_sign ∷ [];
    names = names_of t s.hosts;
  }

  unfoldable pub create_certificate_authority : t.Key → Settings → Outcome t Bytes
  unfolding generate_subject_key_id serial_number authority_template
  create_certificate_authority key s = do
    subject_key_id ← called t (generate_subject_key_id key)
    serial ← serial_number
    called t (t.create_certificate (authority_template s subject_key_id serial) none key key)

  unfoldable pub request_template : Settings → Request t.Ip
  unfolding names_of
  request_template s = record {
    subject = record {
      country = s.country ∷ [];
      organization = s.organization ∷ [];
      organizational_unit = s.name ∷ [];
    };
    names = names_of t s.hosts;
  }

  -- The template, and the bytes of the request.
  unfoldable pub create_certificate_request : t.Key → Settings → Outcome t (Request t.Ip × Bytes)
  unfolding request_template
  create_certificate_request key s = do
    bytes ← called t (t.create_request (request_template s) key)
    ok (request_template s, bytes)

  unfoldable pub certificate_template : Request t.Ip → Settings → Bytes → ℕ → Template t.Ip t.Time
  unfolding names_of
  certificate_template request s subject_key_id serial = record {
    is_ca = false;
    basic_constraints_valid = false;
    subject_key_id = subject_key_id;
    serial_number = serial;
    subject = request.subject;
    not_before = not_before;
    not_after = not_after s.years;
    ext_key_usage = client_auth ∷ server_auth ∷ [];
    key_usage = digital_signature ∷ [];
    names = names_of t s.hosts;
  }

  unfoldable pub create_certificate : Request t.Ip → t.Key → Settings → Files → Outcome t Bytes
  unfolding read_authority generate_subject_key_id serial_number certificate_template
  create_certificate request key s files = do
    authority ← read_authority t files
    subject_key_id ← called t (generate_subject_key_id key)
    serial ← serial_number
    called t (
        t.create_certificate (certificate_template request s subject_key_id serial)
          (some authority.0) key authority.1)

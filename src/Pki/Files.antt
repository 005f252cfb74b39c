-- ===== src/Pki/Files.antt =====
-- Which files the certificate commands change, and what is read back from them.
use kappa.Base.{
  ℕ, Result, Bytes, List, [], ◌∷◌, Bool, true, false, ◌==◌, nat_eq, list_eq, list_beq, Option, none,
  some, if◌then◌else◌, nonempty, contains, lookup, insert, lookup-insert, ok, err, ◌≡◌, refl, arith,
  ◌⊎◌, inl, inr, ◌∙◌,
}
use kappa.Pki.{
  Files, Settings, Template, Tools, request_type, ca_crt, ca_key, certificate_type, key_type,
  existing, agrees, may_write, Outcome, ◌>>=◌, called, save, read_certificate, read_authority,
}
use kappa.Pki.Templates.{
  generate_subject_key_id, serial_number, authority_template, create_certificate_authority,
}
use kappa.Pki.Commands.{
  req_file, priv_file, crt_file, Ended, done, not_created, init_ca, new_cert, make_authority,
  save_authority, write_authority, write_certificate, save_certificate, make_certificate,
  create_pki_directories,
}

-- A question is asked, and the answer has no y in it.
abbrev pub IsRefused : Settings → List Bytes → Bytes → Files → Type 0
IsRefused s names input files =
    (s.force_overwrite ≡ false) × (nonempty (existing names files) ≡ true) × (agrees input ≡ false)

refused :
    (s : Settings) (names : List Bytes) (input : Bytes) (files : Files)
    → IsRefused s names input files
    → may_write s.force_overwrite names input files ≡ false
unfolding may_write
refused s names input files (f, e, a) = ground arith

pub data Command : Type 0 where
  authority certificate : Command

abbrev pub outputs : Command → Settings → List Bytes
outputs authority s = ca_key ∷ ca_crt ∷ []
outputs certificate s = req_file s.name ∷ priv_file s.name ∷ crt_file s.name ∷ []

lookup-insert_other :
    (asked name value : Bytes) (files : Files)
    → (name == asked) ≡ false
    → lookup asked (insert name value files) ≡ lookup asked files
lookup-insert_other asked name value files h = rw (lookup-insert name asked value files, h) refl

module _ (t : Tools) (mkdir_all : Bytes → Option t.Error) (s : Settings) (input : Bytes)
    (files : Files) where
  abbrev pub run_command : Command → Ended t × Files
  run_command authority = init_ca t mkdir_all s input files
  run_command certificate = new_cert t mkdir_all s input files

  module _ (asked : Bytes) where
    abbrev Kept : Ended t × Files → Type 0
    Kept p = lookup asked p.1 ≡ lookup asked files

    save_authority-Kept :
        (m : Outcome t (Bytes × t.Key))
        → contains asked (outputs authority s) ≡ false
        → Kept (save_authority t m files)
    unfolding contains
    save_authority-Kept (err e) h = refl
    save_authority-Kept (ok (cert, key)) h =
        let with_cert = save t certificate_type cert ca_crt files in
        lookup-insert_other asked ca_key (t.encode key_type (t.marshal_key key)) with_cert
          (ground arith)
        ∙ lookup-insert_other asked ca_crt (t.encode certificate_type cert) files (ground arith)

    save_certificate-Kept :
        (m : Outcome t (t.Key × Bytes × Bytes))
        → contains asked (outputs certificate s) ≡ false
        → Kept (save_certificate t s m files)
    unfolding contains
    save_certificate-Kept (err e) h = refl
    save_certificate-Kept (ok (key, request, cert)) h =
        let with_request = save t request_type request (req_file s.name) files in
        let with_key = save t key_type (t.marshal_key key) (priv_file s.name) with_request in
        lookup-insert_other asked (crt_file s.name) (t.encode certificate_type cert) with_key
          (ground arith)
        ∙ lookup-insert_other asked (priv_file s.name) (t.encode key_type (t.marshal_key key))
            with_request (ground arith)
        ∙ lookup-insert_other asked (req_file s.name) (t.encode request_type request) files
            (ground arith)

    abbrev IsProtected : Command → Type 0
    IsProtected k = IsRefused s (outputs k s) input files ⊎ (contains asked (outputs k s) ≡ false)

    if-Kept : (b : Bool) (p q : Ended t × Files) → Kept p → Kept q → Kept (if b then p else q)
    if-Kept true p q hp hq = hp
    if-Kept false p q hp hq = hq

    write_authority-Kept :
        (d : Option t.Error) → IsProtected authority → Kept (write_authority t s input d files)
    write_authority-Kept (some e) h = refl
    write_authority-Kept none (inl r) = rw (refused s (outputs authority s) input files r) refl
    write_authority-Kept none (inr other) =
        if-Kept (may_write s.force_overwrite (outputs authority s) input files) _ _
          (save_authority-Kept (make_authority t s) other) refl

    write_certificate-Kept :
        (d : Option t.Error) → IsProtected certificate → Kept (write_certificate t s input d files)
    write_certificate-Kept (some e) h = refl
    write_certificate-Kept none (inl r) = rw (refused s (outputs certificate s) input files r) refl
    write_certificate-Kept none (inr other) =
        if-Kept (may_write s.force_overwrite (outputs certificate s) input files) _ _
          (save_certificate-Kept (make_certificate t s files) other) refl

    -- init-ca and new-cert leave a file as it was in either of two cases: it is none of those that they
    -- save; or one of those is there, the setting to overwrite is off and the user's answer has no y.
    pub lookup-run_command :
        (k : Command)
        → IsRefused s (outputs k s) input files ⊎ (contains asked (outputs k s) ≡ false)
        → lookup asked (run_command k).1 ≡ lookup asked files
    unfolding init_ca new_cert
    lookup-run_command authority h = write_authority-Kept (create_pki_directories mkdir_all) h
    lookup-run_command certificate h = write_certificate-Kept (create_pki_directories mkdir_all) h

  abbrev pub IsReadBack : Ended t × Files → Type 0
  IsReadBack p =
      (cert : Bytes) × (key : t.Key) × (a : t.Certificate) × (make_authority t s ≡ ok (cert, key))
      × (t.parse_certificate cert ≡ ok a)
      × (read_authority t p.1 ≡ ok (a, key))

  abbrev pub Parses : Type 0
  Parses =
      (template : Template t.Ip t.Time) (key : t.Key) (cert : Bytes)
      → t.create_certificate template none key key ≡ ok cert
      → (a : t.Certificate) × (t.parse_certificate cert ≡ ok a)

  module _
      (back : (kind : Bytes)
        → (bytes : Bytes) → t.decode (t.encode kind bytes) ≡ some (kind, bytes))
      (key_back : (key : t.Key) → t.parse_key (t.marshal_key key) ≡ ok key) where
    saved_authority :
        (cert : Bytes) (key : t.Key)
        → (read_certificate t ca_crt certificate_type (save_authority t (ok (cert, key)) files).1
            ≡ ok cert)
          × (read_certificate t ca_key key_type (save_authority t (ok (cert, key)) files).1
              ≡ ok (t.marshal_key key))
    unfolding read_certificate list_beq
    saved_authority cert key =
        let with_cert = save t certificate_type cert ca_crt files in
        rw
          (
            lookup-insert ca_key ca_crt (t.encode key_type (t.marshal_key key)) with_cert,
            lookup-insert ca_crt ca_crt (t.encode certificate_type cert) files,
            lookup-insert ca_key ca_key (t.encode key_type (t.marshal_key key)) with_cert,
            back certificate_type cert,
            back key_type (t.marshal_key key),
          )
          (refl, refl)

    read-saved :
        (cert : Bytes) (key : t.Key) (a : t.Certificate)
        → t.parse_certificate cert ≡ ok a
        → read_authority t (save_authority t (ok (cert, key)) files).1 ≡ ok (a, key)
    unfolding read_authority
    read-saved cert key a parses =
        let (c, k) = saved_authority cert key in rw (c, parses, k, key_back key) refl

    created_authority :
        (key : t.Key) (id : Result t.Error Bytes) (serial : Outcome t ℕ) (cert : Bytes)
        → (called t id >>= λ i. serial >>= λ n.
            called t (t.create_certificate (authority_template t s i n) none key key))
          ≡ ok cert
        → (template : Template t.Ip t.Time) × (t.create_certificate template none key key ≡ ok cert)
    created_authority key (err x) serial cert e = cc
    created_authority key (ok i) (err x) cert e = cc
    created_authority key (ok i) (ok n) cert e = (authority_template t s i n, ground arith)

    made_authority :
        (cert : Bytes) (key : t.Key)
        → make_authority t s ≡ ok (cert, key)
        → create_certificate_authority t key s ≡ ok cert
    made_authority cert key e = ground arith

    parses_authority :
        Parses
        → (cert : Bytes) (key : t.Key) → create_certificate_authority t key s ≡ ok cert
        → (a : t.Certificate) × (t.parse_certificate cert ≡ ok a)
    unfolding create_certificate_authority
    parses_authority parses cert key e =
        let (template, signed) =
          created_authority key (generate_subject_key_id t key) (serial_number t) cert e in
        parses template key cert signed

    save_authority-IsReadBack :
        (parses : Parses) (m : Outcome t (Bytes × t.Key))
        → make_authority t s ≡ m
        → (save_authority t m files).0 ≡ done
        → IsReadBack (save_authority t m files)
    save_authority-IsReadBack parses (err e) made h = cc
    save_authority-IsReadBack parses (ok (cert, key)) made h =
        let (a, e) = parses_authority parses cert key (made_authority cert key made) in
        (cert, key, a, made, e, read-saved cert key a e)

    if-IsReadBack :
        (b : Bool) (p q : Ended t × Files)
        → (p.0 ≡ done → IsReadBack p)
        → (q.0 ≡ done → IsReadBack q)
        → (if b then p else q).0 ≡ done
        → IsReadBack (if b then p else q)
    if-IsReadBack true p q hp hq h = hp h
    if-IsReadBack false p q hp hq h = hq h

    write_authority-IsReadBack :
        (parses : Parses) (d : Option t.Error)
        → (write_authority t s input d files).0 ≡ done
        → IsReadBack (write_authority t s input d files)
    write_authority-IsReadBack parses (some e) h = cc
    write_authority-IsReadBack parses none h =
        if-IsReadBack (may_write s.force_overwrite (outputs authority s) input files)
          (save_authority t (make_authority t s) files) (not_created, files)
          (save_authority-IsReadBack parses (make_authority t s) refl) (λ e. cc) h

    -- After an init-ca that is done, new-cert reads the authority's certificate and key from the files, and
    -- they are those that init-ca made. Blocks in the PEM format and keys are read back as they were
    -- written, and the certificates that are made for these settings can be parsed.
    pub read_authority-init_ca :
        Parses
        → (init_ca t mkdir_all s input files).0 ≡ done
        → IsReadBack (init_ca t mkdir_all s input files)
    unfolding init_ca
    read_authority-init_ca parses h =
        write_authority-IsReadBack parses (create_pki_directories mkdir_all) h

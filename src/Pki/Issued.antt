-- ===== src/Pki/Issued.antt =====
-- What the files of the certificates hold behind init-ca and new-cert.
use kappa.Base.{
  ℕ, ◌<◌, Bytes, [], ◌∷◌, Bool, true, false, nat_eq, list_eq, list_beq, Option, none, some,
  if◌then◌else◌, lookup-insert, eq_refl, ok, err, ◌≡◌, refl, arith,
}
use kappa.Pki.{
  Files, Settings, Tools, ca_crt, ca_key, certificate_type, key_type, request_type, may_write,
  Outcome, called, save, read_certificate,
}
use kappa.Pki.Templates.{request_template, create_certificate_request, create_certificate}
use kappa.Pki.Commands.{
  req_file, priv_file, crt_file, Ended, done, not_created, init_ca, new_cert, make_authority,
  save_authority, write_authority, write_certificate, save_certificate, make_certificate,
  create_pki_directories,
}
use kappa.Pki.Signed.{
  certificate_file, bound_ok, IsSigned, authority-IsSigned, certificate-IsSigned,
}
use kappa.Pki.Files.{Command, authority, certificate, run_command}

module _ (t : Tools) (s : Settings) where
  -- The file of the certificate holds one that was signed in the right way.
  abbrev pub IsIssued : Command → Files → Ended t × Files → Type 0
  IsIssued k files p =
      (key : t.Key) × (cert : Bytes) × IsSigned t k s files key cert
      × (read_certificate t (certificate_file k s) certificate_type p.1 ≡ ok cert)

  if-IsIssued :
      (k : Command) (files : Files) (b : Bool) (p q : Ended t × Files)
      → (p.0 ≡ done → IsIssued k files p)
      → (q.0 ≡ done → IsIssued k files q)
      → (if b then p else q).0 ≡ done
      → IsIssued k files (if b then p else q)
  if-IsIssued k files true p q hp hq h = hp h
  if-IsIssued k files false p q hp hq h = hq h

  module _ (below : (limit n : ℕ) → t.random_int limit ≡ ok n → n < limit)
      (back : (kind : Bytes)
        → (bytes : Bytes) → t.decode (t.encode kind bytes) ≡ some (kind, bytes))
      (files : Files) where
    made_request :
        (key : t.Key) (request cert : Bytes)
        → make_certificate t s files ≡ ok (key, request, cert)
        → create_certificate t (request_template t s) key s files ≡ ok cert
    unfolding create_certificate_request
    made_request key request cert h =
        let (key', _, h) = bound_ok (called t (t.generate_key s.bits)) _ _ h in
        let (made, e, h) = bound_ok (create_certificate_request t key' s) _ _ h in
        let (bytes, _, same) =
          bound_ok (called t (t.create_request (request_template t s) key')) _ made e in
        let (cert', e', h) = bound_ok (create_certificate t made.0 key' s files) _ _ h in
        ground arith

    saved_certificate :
        (key : t.Key) (request cert : Bytes)
        → read_certificate t
            (crt_file s.name)
            certificate_type
            (save_certificate t s (ok (key, request, cert)) files).1
          ≡ ok cert
    unfolding read_certificate
    saved_certificate key request cert =
        let with_request = save t request_type request (req_file s.name) files in
        let with_key = save t key_type (t.marshal_key key) (priv_file s.name) with_request in
        rw
          (
            lookup-insert (crt_file s.name) (crt_file s.name) (t.encode certificate_type cert)
                with_key,
            eq_refl (crt_file s.name),
            back certificate_type cert,
            eq_refl certificate_type,
          )
          refl

    kept_authority :
        (cert : Bytes) (key : t.Key)
        → read_certificate t ca_crt certificate_type (save_authority t (ok (cert, key)) files).1
          ≡ ok cert
    unfolding read_certificate list_beq
    kept_authority cert key =
        let with_cert = save t certificate_type cert ca_crt files in
        rw
          (
            lookup-insert ca_key ca_crt (t.encode key_type (t.marshal_key key)) with_cert,
            lookup-insert ca_crt ca_crt (t.encode certificate_type cert) files,
            back certificate_type cert,
          )
          refl

    save_certificate-IsIssued :
        (m : Outcome t (t.Key × Bytes × Bytes))
        → make_certificate t s files ≡ m
        → (save_certificate t s m files).0 ≡ done
        → IsIssued certificate files (save_certificate t s m files)
    save_certificate-IsIssued (err e) made h = cc
    save_certificate-IsIssued (ok (key, request, cert)) made h = (
      key,
      cert,
      certificate-IsSigned t s below files key cert (made_request key request cert made),
      saved_certificate key request cert,
    )

    save_authority-IsIssued :
        (m : Outcome t (Bytes × t.Key))
        → make_authority t s ≡ m
        → (save_authority t m files).0 ≡ done
        → IsIssued authority files (save_authority t m files)
    save_authority-IsIssued (err e) made h = cc
    save_authority-IsIssued (ok (cert, key)) made h = (
      key,
      cert,
      authority-IsSigned t s below files key cert (ground arith),
      kept_authority cert key,
    )

    write_certificate-IsIssued :
        (input : Bytes) (d : Option t.Error)
        → (write_certificate t s input d files).0 ≡ done
        → IsIssued certificate files (write_certificate t s input d files)
    write_certificate-IsIssued input (some e) h = cc
    write_certificate-IsIssued input none h =
        if-IsIssued certificate files
          (may_write s.force_overwrite (req_file s.name ∷ priv_file s.name ∷ crt_file s.name ∷ [])
            input files)
          (save_certificate t s (make_certificate t s files) files) (not_created, files)
          (save_certificate-IsIssued (make_certificate t s files) refl) (λ e. cc) h

    write_authority-IsIssued :
        (input : Bytes) (d : Option t.Error)
        → (write_authority t s input d files).0 ≡ done
        → IsIssued authority files (write_authority t s input d files)
    write_authority-IsIssued input (some e) h = cc
    write_authority-IsIssued input none h =
        if-IsIssued authority files (may_write s.force_overwrite (ca_key ∷ ca_crt ∷ []) input files)
          (save_authority t (make_authority t s) files) (not_created, files)
          (save_authority-IsIssued (make_authority t s) refl) (λ e. cc) h

    -- Behind an init-ca or a new-cert that is done, the file of its certificate holds one that was
    -- signed in the right way. That of init-ca is an authority's, signed by its own key. That of
    -- new-cert is not, may not sign, and was signed by the authority in the files. The subject is from
    -- the settings, and the serial number is below 2 ^ 128. Blocks in the PEM format are read back as
    -- they were written, and rand.Int stays below its limit.
    pub run_command-IsIssued :
        (mkdir_all : Bytes → Option t.Error) (input : Bytes) (k : Command)
        → (run_command t mkdir_all s input files k).0 ≡ done
        → IsIssued k files (run_command t mkdir_all s input files k)
    unfolding init_ca new_cert
    run_command-IsIssued mkdir_all input authority h =
        write_authority-IsIssued input (create_pki_directories mkdir_all) h
    run_command-IsIssued mkdir_all input certificate h =
        write_certificate-IsIssued input (create_pki_directories mkdir_all) h

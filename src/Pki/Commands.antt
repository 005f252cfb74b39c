-- ===== src/Pki/Commands.antt =====
-- The commands `init-ca` and `new-cert` behind their settings: the question before files are
-- overwritten, the calls that make a key and a certificate, and the files that are saved.
use kappa.Base.{Bytes, codes, List, [], ◌∷◌, ◌++◌, Option, none, some, if◌then◌else◌, ok, err}
use kappa.Text.Paths.{join_path}
use kappa.Pki.{
  Files, Settings, Tools, ca_crt, ca_key, certificate_type, key_type, request_type, may_write,
  PkiError, Outcome, ◌>>=◌, called, save,
}
use kappa.Pki.Templates.{
  create_certificate_authority, create_certificate_request, create_certificate,
}

-- The directories that CreatePkiDirectories makes, one behind the other.
abbrev pub directories : List Bytes
directories = codes "pki" ∷ codes "pki/public" ∷ codes "pki/private" ∷ codes "pki/reqs" ∷ []

-- The first error of MkdirAll.
abbrev pub make_all : {E : Type 0} → (Bytes → Option E) → List Bytes → Option E
make_all mkdir_all [] = none
make_all mkdir_all (d ∷ ds) = elim (mkdir_all d) [ some e ↦ some e | none ↦ make_all mkdir_all ds ]

unfoldable pub create_pki_directories : {E : Type 0} → (Bytes → Option E) → Option E
create_pki_directories mkdir_all = make_all mkdir_all directories

-- `path.Join(pki, directory, name+extension)`, where `pki` is `path.Join(".", "pki")`. The path is clean, so
-- a name with `..` in it leads out of the directory.
abbrev pub pki_file : Bytes → Bytes → Bytes → Bytes
pki_file directory extension name =
    join_path (join_path (codes "." ∷ codes "pki" ∷ []) ∷ directory ∷ (name ++ extension) ∷ [])

unfoldable pub req_file : Bytes → Bytes
unfolding join_path
req_file name = pki_file (codes "reqs") (codes ".req") name

unfoldable pub priv_file : Bytes → Bytes
unfolding join_path
priv_file name = pki_file (codes "private") (codes ".key") name

unfoldable pub crt_file : Bytes → Bytes
unfolding join_path
crt_file name = pki_file (codes "public") (codes ".crt") name

module _ (t : Tools) where
  -- How a command ends.
  pub data Ended : Type 0 where
    done not_created : Ended
    no_directories : t.Error → Ended
    failed : PkiError t → Ended

  -- The certificate and the key of a new authority.
  abbrev pub make_authority : Settings → Outcome t (Bytes × t.Key)
  make_authority s = do
    key ← called t (t.generate_key s.bits)
    cert ← create_certificate_authority t key s
    ok (cert, key)

  abbrev pub save_authority : Outcome t (Bytes × t.Key) → Files → Ended × Files
  save_authority (err e) files = (failed e, files)
  save_authority (ok (cert, key)) files =
      (done, save t key_type (t.marshal_key key) ca_key (save t certificate_type cert ca_crt files))

  abbrev pub write_authority : Settings → Bytes → Option t.Error → Files → Ended × Files
  write_authority s input (some e) files = (no_directories e, files)
  write_authority s input none files =
      if may_write s.force_overwrite (ca_key ∷ ca_crt ∷ []) input files
      then save_authority (make_authority s) files
      else (not_created, files)

  -- `input` is what the user answers to the question.
  unfoldable pub init_ca : (Bytes → Option t.Error) → Settings → Bytes → Files → Ended × Files
  unfolding create_pki_directories may_write create_certificate_authority
  init_ca mkdir_all s input files = write_authority s input (create_pki_directories mkdir_all) files

  abbrev pub Made : Type 0
  Made = t.Key × Bytes × Bytes

  -- The key, the request and the certificate.
  abbrev pub make_certificate : Settings → Files → Outcome t Made
  make_certificate s files = do
    key ← called t (t.generate_key s.bits)
    request ← create_certificate_request t key s
    cert ← create_certificate t request.0 key s files
    ok (key, request.1, cert)

  abbrev pub save_certificate : Settings → Outcome t Made → Files → Ended × Files
  save_certificate s (err e) files = (failed e, files)
  save_certificate s (ok (key, request, cert)) files = (
    done,
    save t certificate_type cert (crt_file s.name) (
        save t key_type (t.marshal_key key) (priv_file s.name)
          (save t request_type request (req_file s.name) files)),
  )

  abbrev pub write_certificate : Settings → Bytes → Option t.Error → Files → Ended × Files
  write_certificate s input (some e) files = (no_directories e, files)
  write_certificate s input none files =
      if may_write s.force_overwrite (req_file s.name ∷ priv_file s.name ∷ crt_file s.name ∷ [])
        input files
      then save_certificate s (make_certificate s files) files
      else (not_created, files)

  unfoldable pub new_cert : (Bytes → Option t.Error) → Settings → Bytes → Files → Ended × Files
  unfolding create_pki_directories may_write create_certificate create_certificate_request
  new_cert mkdir_all s input files =
      write_certificate s input (create_pki_directories mkdir_all) files

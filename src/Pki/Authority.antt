-- ===== src/Pki/Authority.antt =====
-- The authority's files under new-cert.
use kappa.Base.{
  Bytes, codes, ◌++◌, false, ◌==◌, ◌≡◌, refl, nat_eq, list_eq, list_beq, contains, Option, inr,
}
use kappa.Text.Parts.{Lacks, same_behind}
use kappa.Text.Paths.Plain.{IsPlain, join_path-plain, with_extension-IsPlain}
use kappa.Pki.{Files, Settings, Tools, ca_crt, ca_key, read_certificate, read_authority}
use kappa.Pki.Commands.{req_file, priv_file, crt_file, new_cert}
use kappa.Pki.Files.{certificate, outputs, lookup-run_command}

reqs-IsPlain : IsPlain (codes "reqs")
unfolding list_beq contains
reqs-IsPlain = record { full = refl; lacks = refl; is_part = refl; no_dot = refl; no_up = refl }

private-IsPlain : IsPlain (codes "private")
unfolding list_beq contains
private-IsPlain = record { full = refl; lacks = refl; is_part = refl; no_dot = refl; no_up = refl }

public-IsPlain : IsPlain (codes "public")
unfolding list_beq contains
public-IsPlain = record { full = refl; lacks = refl; is_part = refl; no_dot = refl; no_up = refl }

module _ (name : Bytes) (h : Lacks b'/' name) where
  req_file-plain : req_file name ≡ codes "pki/reqs/" ++ name ++ codes ".req"
  unfolding req_file contains list_beq
  req_file-plain =
      join_path-plain (codes "reqs") (name ++ codes ".req") reqs-IsPlain
        (with_extension-IsPlain name b'r' b'e' b'q' h refl)

  priv_file-plain : priv_file name ≡ codes "pki/private/" ++ name ++ codes ".key"
  unfolding priv_file contains list_beq
  priv_file-plain =
      join_path-plain (codes "private") (name ++ codes ".key") private-IsPlain
        (with_extension-IsPlain name b'k' b'e' b'y' h refl)

  crt_file-plain : crt_file name ≡ codes "pki/public/" ++ name ++ codes ".crt"
  unfolding crt_file contains list_beq
  crt_file-plain =
      join_path-plain (codes "public") (name ++ codes ".crt") public-IsPlain
        (with_extension-IsPlain name b'c' b'r' b't' h refl)

module _ (s : Settings) (plain : Lacks b'/' s.name) where
  certificate_kept : contains ca_crt (outputs certificate s) ≡ false
  unfolding contains list_beq
  certificate_kept =
      rw (req_file-plain s.name plain, priv_file-plain s.name plain, crt_file-plain s.name plain)
        refl

  key_kept : (s.name == codes "ca") ≡ false → contains ca_key (outputs certificate s) ≡ false
  unfolding contains list_beq
  key_kept other =
      rw
        (
          req_file-plain s.name plain,
          priv_file-plain s.name plain,
          crt_file-plain s.name plain,
          same_behind s.name (codes "ca") (codes ".key"),
          other,
        )
        refl

module _ (t : Tools) (mkdir_all : Bytes → Option t.Error) (s : Settings) (input : Bytes)
    (files : Files) where
  -- new-cert leaves the authority's certificate and key as they are, whatever it is answered and however it
  -- ends, so that the next new-cert signs by the same authority: if the name in the settings has no slash
  -- and is not "ca". With that name the key of the authority is one of the files that are saved.
  pub read_authority-new_cert :
      Lacks b'/' s.name
      → (s.name == codes "ca") ≡ false
      → read_authority t (new_cert t mkdir_all s input files).1 ≡ read_authority t files
  unfolding read_authority read_certificate
  read_authority-new_cert plain other =
      rw
        (
          lookup-run_command t mkdir_all s input files ca_crt certificate
              (inr (certificate_kept s plain)),
          lookup-run_command t mkdir_all s input files ca_key certificate
              (inr (key_kept s plain other)),
        )
        refl

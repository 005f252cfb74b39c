-- ===== src/Tests/Users.antt =====
-- A keyspace with the user ann, her roles in acme and her key ring. Hashes and keys stand for
-- themselves.
use kappa.Base.{
  List, Bytes, codes, [], ◌∷◌, ◌++◌, none, some, ◌≡◌, refl, ◌==◌, nat_eq, list_eq, list_beq,
  if◌then◌else◌, err,
}
use kappa.Bolt.Memory.{Table, bucket, get, put, create_bucket, memory}
use kappa.Bolt.Memory.Laws.{memory_laws}
use kappa.Auth.{create_fingerprint}
use kappa.Users
use kappa.Users.{Crypto, namespaces_key, keys_key, user_does_not_exist}
use kappa.Users.Shape.{IsUser}
use kappa.Users.Passwords.{validate_password-update_password}
use kappa.Ssh.{check_ring, public_key_callback, user_error, invalid_public_key}
use kappa.Ssh.Accounts.{log_in-create-delete}
use kappa.Ssh.Rings.{
  KeyChange, add_key, remove_key, try_key, held_after, holds, run_changes, AreAllowed,
  log_in-run_changes,
}

abbrev pub ann : Bytes
ann = codes "ann"

abbrev acme : Bytes
acme = codes "acme"

abbrev ops : Bytes
ops = codes "ops"

abbrev dev : Bytes
dev = codes "dev"

abbrev pub table : Table
table =
    (ann ∷ [], none)
    ∷ (codes "namespaces" ∷ ann ∷ [], none)
    ∷ (acme ∷ codes "namespaces" ∷ ann ∷ [], some ops)
    ∷ []

abbrev pub plain_crypto : Crypto
plain_crypto = record {
  sha256 = λ s. s;
  md5 = λ s. s;
  pem_decode = λ s. some s;
  parse_certificate = λ s. some s;
  new_public_key = λ s. some s;
}

fingerprint_run : create_fingerprint plain_crypto.md5 (codes "AZ") ≡ codes "41:5a"
unfolding create_fingerprint
fingerprint_run = refl

ann-IsUser : IsUser memory table namespaces_key ann
unfolding bucket get list_beq
ann-IsUser = record { exists = refl; free = refl }

pub ann-IsUser_keys : IsUser memory table keys_key ann
unfolding bucket get list_beq
ann-IsUser_keys = record { exists = refl; free = refl }

abbrev salt : Bytes
salt = codes "pepper"

validate_password-update_password_example :
    ((Users.update_password memory plain_crypto (some salt) ann (codes "secret") table).0 ≡ none)
    × (Users.validate_password memory plain_crypto ann
          (codes "secret")
          (Users.update_password memory plain_crypto (some salt) ann (codes "secret") table).1
        ≡ (plain_crypto.sha256 (salt ++ codes "secret")
            == plain_crypto.sha256 (salt ++ codes "secret")))
unfolding bucket list_beq
validate_password-update_password_example =
    validate_password-update_password memory memory_laws plain_crypto table ann salt
      (codes "secret") (codes "secret") refl refl refl refl refl

abbrev pub key : Bytes
key = codes "k1"

abbrev changes : List KeyChange
changes = add_key key key ∷ try_key key ∷ remove_key (codes "6b:31") ∷ []

changes-AreAllowed : AreAllowed plain_crypto memory ann changes table
unfolding bucket list_beq get Users.read_key create_fingerprint Users.add_public_key
    public_key_callback Users.get create_bucket put Users.contains
changes-AreAllowed = ((refl, refl, refl, refl), (tt, (refl, tt)))

log_in-run_changes_example :
    (public_key_callback memory plain_crypto ann key
      (run_changes plain_crypto memory ann changes table)).0
    ≡ check_ring memory ann key
        (held_after plain_crypto changes key (holds plain_crypto memory ann key table))
log_in-run_changes_example =
    log_in-run_changes plain_crypto memory ann memory_laws changes table key ann-IsUser_keys
      changes-AreAllowed

abbrev with_keys : Table
with_keys =
    (codes "6b:31" ∷ codes "keys" ∷ ann ∷ [], some key) ∷ (codes "keys" ∷ ann ∷ [], none) ∷ table

log_in-create-delete_example :
    ((Users.delete memory ann with_keys).0 ≡ none)
    × ((Users.create memory ann (Users.delete memory ann with_keys).1).0 ≡ (some ann, none))
    × ((public_key_callback memory plain_crypto ann key (Users.delete memory ann with_keys).1).0 ≡ (
        if ann == ann
        then err (user_error user_does_not_exist)
        else (public_key_callback memory plain_crypto ann key with_keys).0))
    × ((public_key_callback memory plain_crypto ann key
          (Users.create memory ann (Users.delete memory ann with_keys).1).1).0
        ≡ (if ann == ann
            then err invalid_public_key
            else (public_key_callback memory plain_crypto ann key with_keys).0))
unfolding bucket get list_beq
log_in-create-delete_example =
    log_in-create-delete memory memory_laws plain_crypto with_keys ann refl ann key refl refl

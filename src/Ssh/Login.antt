-- ===== src/Ssh/Login.antt =====
-- Who may log in after a key was added or removed.
use kappa.Base.{
  Bytes, true, false, not, ◌&&◌, ◌||◌, ◌≡◌, ◌∙◌, refl, ap, ◌==◌, nat_eq, list_eq, nonempty, ◌∷◌,
  inr, err,
}
use kappa.Bolt.{Bolt, BoltLaws}
use kappa.Auth.{create_fingerprint}
use kappa.Users
use kappa.Users.{
  Crypto, keys_key, keys_of, bucket_of, read_key, add_public_key, remove_public_key, contains,
  user_does_not_exist,
}
use kappa.Users.Shape.{IsUser, IsUser-written, IsUser-removed}
use kappa.Users.KeyRing.{
  add_public_key-saved, remove_public_key-saved, contains-add_public_key,
  contains-remove_public_key,
}
use kappa.Ssh.{check_ring, public_key_callback, user_error}

module _ (b : Bolt) (law : BoltLaws b) (c : Crypto) where
  pub log_in_user :
      (db : b.Db) (name key : Bytes)
      → b.bucket db (bucket_of name) ≡ true
      → (public_key_callback b c name key db).0 ≡ check_ring b name key (contains b c name key db).0
  unfolding public_key_callback Users.get
  log_in_user db name key there = rw (law.read_tx_runs, there) refl

  -- Nobody logs in as a user who does not exist, and the try changes nothing.
  pub log_in_stranger :
      (db : b.Db) (name key : Bytes)
      → b.bucket db (bucket_of name) ≡ false
      → public_key_callback b c name key db ≡ (err (user_error user_does_not_exist), db)
  unfolding public_key_callback Users.get
  log_in_stranger db name key missing = rw (law.read_tx_runs, missing) refl

module _ (b : Bolt) (law : BoltLaws b) (c : Crypto) (db : b.Db) (name : Bytes)
    (u : IsUser b db keys_key name) where
  -- After AddPublicKey a client logs in as the user exactly with a key that has the fingerprint of the new
  -- one, or with one that the ring contained before. The PEM text is read as the key, the user exists, and
  -- the write is within the limits of Put.
  pub log_in-add_public_key :
      (pem key other : Bytes)
      → nonempty pem ≡ true
      → read_key b c pem ≡ inr key
      → b.bucket db (create_fingerprint c.md5 key ∷ keys_of name) ≡ false
      → b.fits (create_fingerprint c.md5 key) key ≡ true
      → (public_key_callback b c name other (add_public_key b c name pem db).1).0
        ≡ check_ring b name other (
            create_fingerprint c.md5 key == create_fingerprint c.md5 other
            || (contains b c name other db).0)
  log_in-add_public_key pem key other full reads plain fits =
      log_in_user b law c (add_public_key b c name pem db).1 name other (
        rw (add_public_key-saved b law c db name u pem key full reads plain fits)
          (IsUser-written b law db keys_key name u refl (create_fingerprint c.md5 key) plain
            key).exists)
      ∙ ap (check_ring b name other)
          (contains-add_public_key b law c db name u pem key other full reads plain fits).1

  -- After RemovePublicKey no client logs in as the user with a key that has the fingerprint, and with any
  -- other key exactly where the ring contained it. The user exists, and no bucket stands in the key's place.
  pub log_in-remove_public_key :
      (fingerprint other : Bytes)
      → b.bucket db (fingerprint ∷ keys_of name) ≡ false
      → (public_key_callback b c name other (remove_public_key b name fingerprint db).1).0
        ≡ check_ring b name other
            (not (fingerprint == create_fingerprint c.md5 other) && (contains b c name other db).0)
  log_in-remove_public_key fingerprint other plain =
      log_in_user b law c (remove_public_key b name fingerprint db).1 name other (
        rw (remove_public_key-saved b law c db name u fingerprint)
          (IsUser-removed b law db keys_key name u refl fingerprint plain).exists)
      ∙ ap (check_ring b name other)
          (contains-remove_public_key b law c db name u fingerprint other plain).1

-- ===== src/Users/Passwords.antt =====
-- ValidatePassword and UpdatePassword.
use kappa.Base.{
  Bytes, ◌∷◌, ◌++◌, true, false, none, some, ◌≡◌, ◌∙◌, refl, ◌==◌, eq_refl, nat_eq, list_eq,
  list_beq, saved,
}
use kappa.Bolt.{Bolt, BoltLaws, Location}
use kappa.Bolt.Laws.{error-put, get-saved_put, bucket-saved_put}
use kappa.Auth.Compare.{secure_compare-eq}
use kappa.Users.{Crypto, salt_key, password_key, bucket_of, validate_password, update_password}

module _ (b : Bolt) (law : BoltLaws b) (c : Crypto) (db : b.Db) (name : Bytes) where
  abbrev salted : Bytes → b.Db
  salted salt = saved (b.put db (salt_key ∷ bucket_of name) salt) db

  abbrev secured : Bytes → Bytes → b.Db
  secured salt hash = saved (b.put (salted salt) (password_key ∷ bucket_of name) hash) (salted salt)

  -- After UpdatePassword, ValidatePassword accepts exactly the passwords that hash, behind the new salt,
  -- to what the new password hashes to. The user exists, no bucket stands in the place of the salt or
  -- the hash, both are within the limits of Put, and the random source gives the salt.
  pub validate_password-update_password :
      (salt password given : Bytes)
      → b.bucket db (bucket_of name) ≡ true
      → b.bucket db (salt_key ∷ bucket_of name) ≡ false
      → b.bucket db (password_key ∷ bucket_of name) ≡ false
      → b.fits salt_key salt ≡ true
      → b.fits password_key (c.sha256 (salt ++ password)) ≡ true
      → ((update_password b c (some salt) name password db).0 ≡ none)
        × (validate_password b c name given (update_password b c (some salt) name password db).1
            ≡ (c.sha256 (salt ++ given) == c.sha256 (salt ++ password)))
  unfolding update_password validate_password list_beq
  validate_password-update_password salt password given exists salt_plain hash_plain fits_salt
        fits_hash =
      let hash = c.sha256 (salt ++ password) in
      let kept = λ (l : Location). bucket-saved_put law db (salt_key ∷ bucket_of name) l salt in
      let got_salt =
        get-saved_put law db salt_key (bucket_of name) exists salt_plain salt fits_salt in
      let got =
        get-saved_put law (salted salt) password_key (bucket_of name)
          (kept (bucket_of name) ∙ exists) (kept (password_key ∷ bucket_of name) ∙ hash_plain) hash
          fits_hash in
      rw
        (
          law.write_tx_runs,
          law.read_tx_runs,
          exists,
          error-put law db salt_key (bucket_of name) exists salt_plain salt fits_salt,
          bucket-saved_put law (salted salt) (password_key ∷ bucket_of name) (bucket_of name) hash,
          kept (bucket_of name),
          exists,
          got (salt_key ∷ bucket_of name),
          got (password_key ∷ bucket_of name),
          got_salt (salt_key ∷ bucket_of name),
        )
        (refl, rw (eq_refl name) (secure_compare-eq (c.sha256 (salt ++ given)) hash))

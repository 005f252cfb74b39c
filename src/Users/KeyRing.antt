-- ===== src/Users/KeyRing.antt =====
-- The key ring: AddPublicKey, RemovePublicKey and Contains.
use kappa.Base.{
  Bytes, Bool, ◌∷◌, true, false, not, ◌&&◌, ◌||◌, Option, none, ◌≡◌, ◌∙◌, refl, arith, ◌==◌, nat_eq,
  list_eq, nonempty, inr, if◌then◌else◌,
}
use kappa.Bolt.{Bolt, BoltLaws}
use kappa.Bolt.Laws.{error-put}
use kappa.Auth.{create_fingerprint}
use kappa.Users.{
  Crypto, keys_key, keys_of, is_held, read_key, add_public_key, remove_public_key, contains,
}
use kappa.Users.Shape.{
  IsUser, with_nested, in_nested-runs, bucket-with_nested, bucket-with_nested_entry,
  get-with_nested, written, removed, IsUser-written, IsUser-removed, get-written, get-removed,
}

module _ (b : Bolt) (law : BoltLaws b) (c : Crypto) (db : b.Db) (name : Bytes) where
  pub contains-held :
      (key : Bytes)
      → IsUser b db keys_key name
      → contains b c name key db ≡ (
        is_held b (b.get db (create_fingerprint c.md5 key ∷ keys_of name)),
        with_nested b db keys_key name,
      )
  unfolding contains
  contains-held key u = rw (
    law.write_tx_runs,
    in_nested-runs b law db keys_key name u refl,
    get-with_nested b law db keys_key name u refl,
  )

  module _ (u : IsUser b db keys_key name) where
    pub add_public_key-saved :
        (pem key : Bytes)
        → nonempty pem ≡ true
        → read_key b c pem ≡ inr key
        → b.bucket db (create_fingerprint c.md5 key ∷ keys_of name) ≡ false
        → b.fits (create_fingerprint c.md5 key) key ≡ true
        → add_public_key b c name pem db ≡ (
          (create_fingerprint c.md5 key, none),
          written b db keys_key name (create_fingerprint c.md5 key) key,
        )
    unfolding add_public_key
    add_public_key-saved pem key full reads plain fits = rw (
      law.write_tx_runs,
      full,
      in_nested-runs b law db keys_key name u refl,
      reads,
      error-put law (with_nested b db keys_key name) (create_fingerprint c.md5 key) (keys_of name)
          (bucket-with_nested b law db keys_key name u refl)
          (bucket-with_nested_entry b law db keys_key name u refl (create_fingerprint c.md5 key)
            ∙ plain)
          key fits,
    )

    pub remove_public_key-saved :
        (fingerprint : Bytes)
        → remove_public_key b name fingerprint db ≡ (none, removed b db keys_key name fingerprint)
    unfolding remove_public_key
    remove_public_key-saved fingerprint =
        rw (law.write_tx_runs, in_nested-runs b law db keys_key name u refl)

-- A test on the value of a key, taken into the branches.
is_held-if :
    (b : Bolt) (t : Bool) (v o : Option Bytes)
    → is_held b (if t then v else o) ≡ (if t then is_held b v else is_held b o)
is_held-if b true v o = refl
is_held-if b false v o = refl

module _ (b : Bolt) (law : BoltLaws b) (c : Crypto) (db : b.Db) (name : Bytes)
    (u : IsUser b db keys_key name) where
  -- AddPublicKey returns the key's fingerprint with no error, and from then on the ring contains that
  -- key and what it contained before: Contains goes by fingerprints. The PEM text is read as the key,
  -- the user exists, and the write is within the limits of Put.
  pub contains-add_public_key :
      (pem key other : Bytes)
      → nonempty pem ≡ true
      → read_key b c pem ≡ inr key
      → b.bucket db (create_fingerprint c.md5 key ∷ keys_of name) ≡ false
      → b.fits (create_fingerprint c.md5 key) key ≡ true
      → ((add_public_key b c name pem db).0 ≡ (create_fingerprint c.md5 key, none))
        × ((contains b c name other (add_public_key b c name pem db).1).0 ≡ (
            create_fingerprint c.md5 key == create_fingerprint c.md5 other
            || (contains b c name other db).0))
  contains-add_public_key pem key other full reads plain fits =
      rw
        (
          add_public_key-saved b law c db name u pem key full reads plain fits,
          contains-held b law c db name other u,
          contains-held b law c (written b db keys_key name (create_fingerprint c.md5 key) key) name
              other
              (IsUser-written b law db keys_key name u refl (create_fingerprint c.md5 key) plain
                key),
          get-written b law db keys_key name u refl (create_fingerprint c.md5 key) plain key
              (create_fingerprint c.md5 other) fits,
          is_held-if b,
        )
        (refl, ground arith)

  -- After RemovePublicKey the ring contains no key with that fingerprint, and every other key that it
  -- contained before. The user exists, and no bucket stands in the key's place.
  pub contains-remove_public_key :
      (fingerprint other : Bytes)
      → b.bucket db (fingerprint ∷ keys_of name) ≡ false
      → ((remove_public_key b name fingerprint db).0 ≡ none)
        × ((contains b c name other (remove_public_key b name fingerprint db).1).0 ≡ (
            not (fingerprint == create_fingerprint c.md5 other) && (contains b c name other db).0))
  contains-remove_public_key fingerprint other plain =
      rw
        (
          remove_public_key-saved b law c db name u fingerprint,
          contains-held b law c db name other u,
          contains-held b law c (removed b db keys_key name fingerprint) name other
              (IsUser-removed b law db keys_key name u refl fingerprint plain),
          get-removed b law db keys_key name u refl fingerprint plain
              (create_fingerprint c.md5 other),
          is_held-if b,
        )
        (refl, ground arith)

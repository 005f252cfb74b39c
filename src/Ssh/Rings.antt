-- ===== src/Ssh/Rings.antt =====
-- Who may log in over any run of changes to a user's key ring, with tries to log in between them.
use kappa.Base.{
  Bytes, List, [], ◌∷◌, Bool, true, false, not, ◌&&◌, ◌||◌, ◌≡◌, ◌∙◌, refl, sym, ap, ◌==◌, nat_eq,
  list_eq, nonempty, inr,
}
use kappa.Bolt.{Bolt, BoltLaws}
use kappa.Auth.{create_fingerprint}
use kappa.Users
use kappa.Users.{
  Crypto, keys_key, keys_of, read_key, add_public_key, remove_public_key, contains, is_held,
}
use kappa.Users.Shape.{
  IsUser, with_nested, IsUser-with_nested, get-with_nested, IsUser-written, IsUser-removed,
}
use kappa.Users.KeyRing.{
  add_public_key-saved, remove_public_key-saved, contains-held, contains-add_public_key,
  contains-remove_public_key,
}
use kappa.Ssh.{check_ring, public_key_callback}
use kappa.Ssh.Login.{log_in_user}

-- A PEM text is added, which is read as the key behind it; a fingerprint is removed; or a key is tried.
pub data KeyChange : Type 0 where
  add_key : Bytes → Bytes → KeyChange
  remove_key : Bytes → KeyChange
  try_key : Bytes → KeyChange

module _ (c : Crypto) where
  abbrev pub print_of : Bytes → Bytes
  print_of key = create_fingerprint c.md5 key

  -- Whether the ring contains a key, behind one change and behind many.
  abbrev pub step_held : KeyChange → Bytes → Bool → Bool
  step_held (add_key pem key) other held = print_of key == print_of other || held
  step_held (remove_key print) other held = not (print == print_of other) && held
  step_held (try_key key) other held = held

  abbrev pub held_after : List KeyChange → Bytes → Bool → Bool
  held_after [] other held = held
  held_after (k ∷ ks) other held = held_after ks other (step_held k other held)

  module _ (b : Bolt) (name : Bytes) where
    abbrev pub run_change : KeyChange → b.Db → b.Db
    run_change (add_key pem key) db = (add_public_key b c name pem db).1
    run_change (remove_key print) db = (remove_public_key b name print db).1
    run_change (try_key key) db = (public_key_callback b c name key db).1

    abbrev pub run_changes : List KeyChange → b.Db → b.Db
    run_changes [] db = db
    run_changes (k ∷ ks) db = run_changes ks (run_change k db)

    -- The PEM text is read as the key, no bucket stands in the key's place, and the write is within the
    -- limits of Put.
    abbrev pub IsAllowed : KeyChange → b.Db → Type 0
    IsAllowed (add_key pem key) db =
        (nonempty pem ≡ true)
        × (read_key b c pem ≡ inr key)
        × (b.bucket db (print_of key ∷ keys_of name) ≡ false)
        × (b.fits (print_of key) key ≡ true)
    IsAllowed (remove_key print) db = b.bucket db (print ∷ keys_of name) ≡ false
    IsAllowed (try_key key) db = Unit {0}

    abbrev pub AreAllowed : List KeyChange → b.Db → Type 0
    AreAllowed [] db = Unit {0}
    AreAllowed (k ∷ ks) db = IsAllowed k db × AreAllowed ks (run_change k db)

    abbrev pub holds : Bytes → b.Db → Bool
    holds key db = (contains b c name key db).0

    module _ (law : BoltLaws b) where
      moved :
          {A : Type 0} (x y : A × b.Db)
          → x ≡ y
          → IsUser b y.1 keys_key name
          → IsUser b x.1 keys_key name
      moved x y e u = rw e u

      -- A try leaves the ring with the bucket that Contains makes.
      try_key-state :
          (key : Bytes) (db : b.Db)
          → IsUser b db keys_key name
          → (public_key_callback b c name key db).1 ≡ with_nested b db keys_key name
      unfolding public_key_callback Users.get
      try_key-state key db u =
          rw (law.read_tx_runs, u.exists)
            (ap (λ (x : Bool × b.Db). x.1) (contains-held b law c db name key u))

      run_change-IsUser :
          (k : KeyChange) (db : b.Db)
          → IsUser b db keys_key name
          → IsAllowed k db
          → IsUser b (run_change k db) keys_key name
      run_change-IsUser (add_key pem key) db u (full, reads, plain, fits) =
          moved _ _ (add_public_key-saved b law c db name u pem key full reads plain fits)
            (IsUser-written b law db keys_key name u refl (print_of key) plain key)
      run_change-IsUser (remove_key print) db u plain =
          moved _ _ (remove_public_key-saved b law c db name u print)
            (IsUser-removed b law db keys_key name u refl print plain)
      run_change-IsUser (try_key key) db u h =
          rw (try_key-state key db u) (IsUser-with_nested b law db keys_key name u refl)

      holds-with_nested :
          (key : Bytes) (db : b.Db)
          → IsUser b db keys_key name
          → holds key (with_nested b db keys_key name) ≡ holds key db
      holds-with_nested key db u =
          ap (λ (x : Bool × b.Db). x.0)
            (contains-held b law c (with_nested b db keys_key name) name key
              (IsUser-with_nested b law db keys_key name u refl))
          ∙ ap (is_held b)
              (get-with_nested b law db keys_key name u refl (print_of key ∷ keys_of name))
          ∙ sym (ap (λ (x : Bool × b.Db). x.0) (contains-held b law c db name key u))

      holds-run_change :
          (k : KeyChange) (db : b.Db) (other : Bytes)
          → IsUser b db keys_key name
          → IsAllowed k db
          → holds other (run_change k db) ≡ step_held k other (holds other db)
      holds-run_change (add_key pem key) db other u (full, reads, plain, fits) =
          (contains-add_public_key b law c db name u pem key other full reads plain fits).1
      holds-run_change (remove_key print) db other u plain =
          (contains-remove_public_key b law c db name u print other plain).1
      holds-run_change (try_key key) db other u h =
          ap (holds other) (try_key-state key db u) ∙ holds-with_nested other db u

      -- Over any run of calls of AddPublicKey and RemovePublicKey for a user, with tries to log in as
      -- the user between them, a client logs in with a key exactly where the calls, as additions and
      -- removals of fingerprints, leave the fingerprint of that key in the ring; the tries change
      -- nothing of it. The user exists, and each call is allowed where it is made.
      pub log_in-run_changes :
          (ks : List KeyChange) (db : b.Db) (other : Bytes)
          → IsUser b db keys_key name
          → AreAllowed ks db
          → (public_key_callback b c name other (run_changes ks db)).0
            ≡ check_ring b name other (held_after ks other (holds other db))
      log_in-run_changes [] db other u h = log_in_user b law c db name other u.exists
      log_in-run_changes (k ∷ ks) db other u (h, hs) =
          log_in-run_changes ks (run_change k db) other (run_change-IsUser k db u h) hs
          ∙ ap (λ held. check_ring b name other (held_after ks other held))
              (holds-run_change k db other u h)

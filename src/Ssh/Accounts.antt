-- ===== src/Ssh/Accounts.antt =====
-- Who may log in after a user was deleted, and after a user of that name was made again.
use kappa.Base.{
  Bytes, [], ◌∷◌, true, false, none, some, ◌≡◌, ◌∙◌, refl, sym, ap, arith, ◌==◌, eq_iff, eq_refl,
  nat_eq, list_eq, list_beq, nonempty, saved, if◌then◌else◌, Bool-cases, inl, inr, err, ok, ◌||◌,
}
use kappa.Bolt.{Location, Bolt, BoltLaws, within}
use kappa.Bolt.Laws.{get-saved_create, bucket-saved_create, error-create, within-bucket}
use kappa.Auth.{create_fingerprint}
use kappa.Users
use kappa.Users.{Crypto, bucket_of, keys_key, keys_of, contains, user_does_not_exist}
use kappa.Users.Shape.{IsUser}
use kappa.Users.KeyRing.{contains-held}
use kappa.Ssh.{LoggedIn, public_key_callback, user_error, invalid_public_key}
use kappa.Ssh.Login.{log_in_user, log_in_stranger}

-- What the login check reads of a user is the same in both.
pub record IsUnchanged (b : Bolt) (db db' : b.Db) (name : Bytes) : Type 0 where
  pub exists : b.bucket db' (bucket_of name) ≡ b.bucket db (bucket_of name)
  pub ring : b.get db' (keys_key ∷ bucket_of name) ≡ b.get db (keys_key ∷ bucket_of name)
  pub keys : (k : Bytes) → b.get db' (k ∷ keys_of name) ≡ b.get db (k ∷ keys_of name)

within-ring : (name m : Bytes) → within (bucket_of name) (keys_key ∷ bucket_of m) ≡ (name == m)
unfolding within list_beq
within-ring name m = ground arith

within-keys : (name m k : Bytes) → within (bucket_of name) (k ∷ keys_of m) ≡ (name == m)
unfolding within list_beq
within-keys name m k = ground arith

module _ (b : Bolt) (law : BoltLaws b) (c : Crypto) where
  module _ (db db' : b.Db) (name key : Bytes) (same : IsUnchanged b db db' name)
      (free : b.get db (keys_key ∷ bucket_of name) ≡ none) where
    log_in-held :
        b.bucket db (bucket_of name) ≡ true
        → (public_key_callback b c name key db').0 ≡ (public_key_callback b c name key db).0
    log_in-held there =
        let there' = same.exists ∙ there in
        rw
          (
            log_in_user b law c db name key there,
            log_in_user b law c db' name key there',
            contains-held b law c db name key (record { exists = there; free = free }),
            contains-held b law c db' name key
                (record { exists = there'; free = same.ring ∙ free }),
            same.keys (create_fingerprint c.md5 key),
          )
          refl

    pub log_in-unchanged :
        (public_key_callback b c name key db').0 ≡ (public_key_callback b c name key db).0
    log_in-unchanged = elim (Bool-cases (b.bucket db (bucket_of name))) [
      | inl there ↦ log_in-held there
      | inr missing ↦
          rw
            (
              log_in_stranger b law c db name key missing,
              log_in_stranger b law c db' name key (same.exists ∙ missing),
            )
            refl
    ]

  -- The store behind Create.
  abbrev made : b.Db → Bytes → b.Db
  made db name = saved (b.create_bucket db (bucket_of name)) db

  module _ (db : b.Db) (name : Bytes) (named : nonempty name ≡ true)
      (free : b.get db (bucket_of name) ≡ none) where
    created : Users.create b name db ≡ ((some name, none), made db name)
    unfolding Users.create
    created =
        rw (law.write_tx_runs, error-create law db name [] (law.bucket_root db) named free) refl

    made-bucket :
        (m : Bytes)
        → b.bucket (made db name) (bucket_of m) ≡ (name == m || b.bucket db (bucket_of m))
    unfolding list_beq
    made-bucket m =
        bucket-saved_create law db name [] (law.bucket_root db) named free (bucket_of m)
        ∙ ground arith

    made-value : (q : Location) → b.get (made db name) q ≡ b.get db q
    made-value q = get-saved_create law db (bucket_of name) q

    made-IsUnchanged : (m : Bytes) → (name == m) ≡ false → IsUnchanged b db (made db name) m
    made-IsUnchanged m ne = record {
      exists = rw (made-bucket m, ne) refl;
      ring = made-value (keys_key ∷ bucket_of m);
      keys = λ k. made-value (k ∷ keys_of m);
    }

    -- The ring of a new user is empty.
    log_in-made :
        (key : Bytes)
        → b.get db (keys_key ∷ bucket_of name) ≡ none
        → ((k : Bytes) → b.get db (k ∷ keys_of name) ≡ none)
        → (public_key_callback b c name key (made db name)).0 ≡ err invalid_public_key
    log_in-made key no_ring no_keys =
        let there = made-bucket name ∙ ap (λ t. t || b.bucket db (bucket_of name)) (eq_refl name) in
        let u : IsUser b (made db name) keys_key name = record {
          exists = there;
          free = made-value (keys_key ∷ bucket_of name) ∙ no_ring;
        } in
        rw
          (
            log_in_user b law c (made db name) name key there,
            contains-held b law c (made db name) name key u,
            made-value,
            no_keys (create_fingerprint c.md5 key),
          )
          refl

  module _ (db : b.Db) (name : Bytes) (there : b.bucket db (bucket_of name) ≡ true) where
    abbrev gone : b.Db
    gone = (Users.delete b name db).1

    pub deleted :
        (after : b.Db) × (b.delete_bucket db (bucket_of name) ≡ ok after)
        × (Users.delete b name db ≡ (none, after))
    unfolding Users.delete
    deleted =
        let (after, e) = law.delete_bucket_ok db name [] there in
        (after, e, rw (law.write_tx_runs, e) refl)

    gone-value :
        (q : Location) → b.get gone q ≡ (if within (bucket_of name) q then none else b.get db q)
    gone-value q =
        let (after, e, runs) = deleted in
        ap (λ (r : Users.Failure b × b.Db). b.get r.1 q) runs
        ∙ law.get-delete_bucket db after (bucket_of name) q e

    gone-bucket :
        (q : Location)
        → b.bucket gone q ≡ (if within (bucket_of name) q then false else b.bucket db q)
    gone-bucket q =
        let (after, e, runs) = deleted in
        ap (λ (r : Users.Failure b × b.Db). b.bucket r.1 q) runs
        ∙ law.bucket-delete_bucket db after (bucket_of name) q e

    gone-free : b.get gone (bucket_of name) ≡ none
    gone-free = rw (gone-value (bucket_of name), within-bucket name name, eq_refl name) refl

    gone-ring : b.get gone (keys_key ∷ bucket_of name) ≡ none
    gone-ring =
        rw (gone-value (keys_key ∷ bucket_of name), within-ring name name, eq_refl name) refl

    gone-keys : (k : Bytes) → b.get gone (k ∷ keys_of name) ≡ none
    gone-keys k = rw (gone-value (k ∷ keys_of name), within-keys name name k, eq_refl name) refl

    gone-missing : b.bucket gone (bucket_of name) ≡ false
    gone-missing = rw (gone-bucket (bucket_of name), within-bucket name name, eq_refl name) refl

    gone-IsUnchanged : (m : Bytes) → (name == m) ≡ false → IsUnchanged b db gone m
    gone-IsUnchanged m ne = record {
      exists = rw (gone-bucket (bucket_of m), within-bucket name m, ne) refl;
      ring = rw (gone-value (keys_key ∷ bucket_of m), within-ring name m, ne) refl;
      keys = λ k. rw (gone-value (k ∷ keys_of m), within-keys name m k, ne) refl;
    }

    module _ (other key : Bytes) (free : b.get db (keys_key ∷ bucket_of other) ≡ none) where
      gone-log_in : (public_key_callback b c other key gone).0 ≡ (
          if name == other
          then err (user_error user_does_not_exist)
          else (public_key_callback b c other key db).0)
      gone-log_in = elim (Bool-cases (name == other)) [
        | inl same ↦
            rw (sym ((eq_iff name other).0 same), eq_refl name)
              (ap (λ (r : LoggedIn b × b.Db). r.0)
                (log_in_stranger b law c gone name key gone-missing))
        | inr ne ↦ rw ne (log_in-unchanged db gone other key (gone-IsUnchanged other ne) free)
      ]

      made-log_in :
          nonempty name ≡ true
          → (public_key_callback b c other key (made gone name)).0 ≡ (
              if name == other
              then err invalid_public_key
              else (public_key_callback b c other key db).0)
      made-log_in named = elim (Bool-cases (name == other)) [
        | inl same ↦
            rw (sym ((eq_iff name other).0 same), eq_refl name)
              (log_in-made gone name named gone-free key gone-ring gone-keys)
        | inr ne ↦
            let kept = gone-IsUnchanged other ne in
            rw ne (
              log_in-unchanged gone (made gone name) other key
                (made-IsUnchanged gone name named gone-free other ne) (kept.ring ∙ free)
              ∙ log_in-unchanged db gone other key kept free)
      ]

    -- Delete and Create report no error. Behind Delete nobody logs in as the user, and behind a Create of
    -- the same name no key does: the keys of the user who was deleted do not come back. Every other user
    -- logs in as before. The user exists, and has a name; no value stands where a key ring belongs.
    pub log_in-create-delete :
        (other key : Bytes)
        → nonempty name ≡ true
        → b.get db (keys_key ∷ bucket_of other) ≡ none
        → ((Users.delete b name db).0 ≡ none)
          × ((Users.create b name gone).0 ≡ (some name, none))
          × ((public_key_callback b c other key gone).0 ≡ (
              if name == other
              then err (user_error user_does_not_exist)
              else (public_key_callback b c other key db).0))
          × ((public_key_callback b c other key (Users.create b name gone).1).0 ≡ (
              if name == other
              then err invalid_public_key
              else (public_key_callback b c other key db).0))
    log_in-create-delete other key named free =
        let (after, e, runs) = deleted in
        let made_again = created gone name named gone-free in
        (
          ap (λ (r : Users.Failure b × b.Db). r.0) runs,
          ap (λ (r : Users.Opened b × b.Db). r.0) made_again,
          gone-log_in other key free,
          ap (λ (r : Users.Opened b × b.Db). (public_key_callback b c other key r.1).0) made_again
              ∙ made-log_in other key free named,
        )

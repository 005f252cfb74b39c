-- ===== src/Namespaces/Users.antt =====
-- The users of a namespace: AddUser, RemoveUser, HasAccess and Users.
use kappa.Base.{
  Bytes, [], ◌∷◌, ◌++◌, true, false, not, ◌&&◌, none, some, ◌≡◌, ◌≢◌, refl, arith, ◌==◌, eq_refl,
  nat_eq, list_eq, nonempty, contains, saved, Bool-cases, ◌∙◌, inl, inr,
}
use kappa.Text.{comma, fields, add_field, remove_field}
use kappa.Text.Parts.{Lacks}
use kappa.Text.Fields.{fields-add_field, contains-fields-remove, contains-fields-blank}
use kappa.Bolt.{Location, Bolt, BoltLaws}
use kappa.Bolt.Laws.{get-saved_put, get-saved_put_ne, bucket-saved_put}
use kappa.Namespaces.Shape.{IsNamespace, stored_users, users_of-ne}
use kappa.Namespaces.{
  namespace_does_not_exist, users_key, bucket_of, users_of, users, has_access, add_user,
  remove_user,
}

module _ (b : Bolt) (law : BoltLaws b) (db : b.Db) (name : Bytes) where
  pub users-eq-fields :
      b.bucket db (bucket_of name) ≡ true → users b name db ≡ fields (stored_users b db name)
  unfolding users
  users-eq-fields h = rw (law.read_tx_runs, h)

  -- HasAccess says whether the user is in the list that Users returns, whatever the database holds.
  pub has_access-eq-contains :
      (username : Bytes) → has_access b name username db ≡ contains username (users b name db)
  unfolding users has_access
  has_access-eq-contains username = simp law.read_tx_runs (unfold contains in ground arith)

  add_user-saved :
      (username : Bytes)
      → b.bucket db (bucket_of name) ≡ true
      → add_user b name username db
        ≡ (none, saved (b.put db (users_of name) (add_field (stored_users b db name) username)) db)
  unfolding add_user
  add_user-saved username h = rw (law.write_tx_runs, h)

  add_user-missing :
      (username : Bytes)
      → b.bucket db (bucket_of name) ≡ false
      → add_user b name username db ≡ (some namespace_does_not_exist, db)
  unfolding add_user
  add_user-missing username h = rw (law.write_tx_runs, h)

  remove_user-saved :
      (username : Bytes)
      → b.bucket db (bucket_of name) ≡ true
      → nonempty (stored_users b db name) ≡ true
      → remove_user b name username db ≡ (
        none,
        saved (b.put db (users_of name) (remove_field (stored_users b db name) username)) db,
      )
  unfolding remove_user
  remove_user-saved username h full = rw (law.write_tx_runs, h, full)

  remove_user-blank :
      (username : Bytes)
      → b.bucket db (bucket_of name) ≡ true
      → nonempty (stored_users b db name) ≡ false
      → remove_user b name username db ≡ (none, db)
  unfolding remove_user
  remove_user-blank username h blank = rw (law.write_tx_runs, h, blank)

  remove_user-missing :
      (username : Bytes)
      → b.bucket db (bucket_of name) ≡ false
      → remove_user b name username db ≡ (some namespace_does_not_exist, db)
  unfolding remove_user
  remove_user-missing username h = rw (law.write_tx_runs, h)

-- what a write of the user list leaves to be read
module _ (b : Bolt) (law : BoltLaws b) (db : b.Db) (name v : Bytes) where
  users-saved :
      IsNamespace b db name
      → b.fits users_key v ≡ true
      → users b name (saved (b.put db (users_of name) v) db) ≡ fields v
  users-saved s fits = rw (
    users-eq-fields b law (saved (b.put db (users_of name) v) db) name
        (bucket-saved_put law db (users_of name) (bucket_of name) v ∙ s.exists),
    get-saved_put law db users_key (bucket_of name) s.exists s.users_plain v fits (users_of name),
    eq_refl {A = Location} (users_of name),
  )

  users-saved_other :
      (m : Bytes) → name ≢ m → users b m (saved (b.put db (users_of name) v) db) ≡ users b m db
  unfolding users
  users-saved_other m h = simp (
    law.read_tx_runs,
    bucket-saved_put law db (users_of name) (bucket_of m) v,
    get-saved_put_ne law db (users_of name) (users_of m) v (users_of-ne name m h),
  )

module _ (b : Bolt) (law : BoltLaws b) (db : b.Db) (name username : Bytes) where
  -- AddUser puts a user whose name is not blank and has no comma behind the users that were there, and
  -- reports no error, in a namespace of the expected shape, if the list is within the limits of Put.
  pub users-add_user :
      IsNamespace b db name
      → b.fits users_key (add_field (stored_users b db name) username) ≡ true
      → nonempty username ≡ true
      → Lacks comma username
      → ((add_user b name username db).0 ≡ none)
        × (users b name (add_user b name username db).1 ≡ users b name db ++ username ∷ [])
  users-add_user s fits named plain =
      rw (add_user-saved b law db name username s.exists, users-eq-fields b law db name s.exists)
        (refl, users-saved b law db name _ s fits ∙ fields-add_field _ username named plain)

  -- After RemoveUser, HasAccess denies the user, and answers for any other user as before, for names
  -- that are not blank, in a namespace of the expected shape, if the list is within the limits of Put.
  pub has_access-remove_user :
      (u : Bytes)
      → IsNamespace b db name
      → b.fits users_key (remove_field (stored_users b db name) username) ≡ true
      → nonempty u ≡ true
      → ((remove_user b name username db).0 ≡ none)
        × (has_access b name u (remove_user b name username db).1
            ≡ (not (username == u) && has_access b name u db))
  has_access-remove_user u s fits named = elim (Bool-cases (nonempty (stored_users b db name))) [
    | inl full ↦
        rw
          (
            remove_user-saved b law db name username s.exists full,
            has_access-eq-contains b law db name u,
            has_access-eq-contains b law
                (saved (b.put db (users_of name) (remove_field (stored_users b db name) username))
                  db)
                name u,
            users-saved b law db name _ s fits,
            users-eq-fields b law db name s.exists,
          )
          (refl, contains-fields-remove _ username u full named)
    | inr blank ↦
        rw
          (
            remove_user-blank b law db name username s.exists blank,
            has_access-eq-contains b law db name u,
            users-eq-fields b law db name s.exists,
            contains-fields-blank _ u blank,
          )
          (refl, ground arith)
  ]

  -- AddUser and RemoveUser leave the user list of every other namespace as it was, whether or not the
  -- namespace exists and the write succeeds.
  pub users_of_others :
      (m : Bytes)
      → name ≢ m
      → (users b m (add_user b name username db).1 ≡ users b m db)
        × (users b m (remove_user b name username db).1 ≡ users b m db)
  users_of_others m h = elim (Bool-cases (b.bucket db (bucket_of name))) [
    | inl e ↦ (
      rw (add_user-saved b law db name username e) (users-saved_other b law db name _ m h),
      elim (Bool-cases (nonempty (stored_users b db name))) [
        | inl full ↦
            rw (remove_user-saved b law db name username e full)
              (users-saved_other b law db name _ m h)
        | inr blank ↦ rw (remove_user-blank b law db name username e blank)
      ],
    )
    | inr e ↦ (
      rw (add_user-missing b law db name username e),
      rw (remove_user-missing b law db name username e),
    )
  ]

  -- On a namespace that does not exist, AddUser and RemoveUser report that and change nothing.
  pub users_missing :
      b.bucket db (bucket_of name) ≡ false
      → (add_user b name username db ≡ (some namespace_does_not_exist, db))
        × (remove_user b name username db ≡ (some namespace_does_not_exist, db))
  users_missing e =
      (add_user-missing b law db name username e, remove_user-missing b law db name username e)

-- ===== src/Namespaces/Children.antt =====
-- CreateChild: the bucket of the child, and its users.
use kappa.Base.{
  Bytes, List, [], ◌∷◌, true, false, ◌||◌, Option, none, some, ◌≡◌, refl, arith, ◌==◌, nat_eq,
  list_eq, list_beq, if◌then◌else◌, nonempty, saved, ok, err, Result, eq_iff, ◌∙◌, ap,
}
use kappa.Text.{value_of, fields}
use kappa.Bolt.{Bolt, BoltLaws, Location}
use kappa.Bolt.Laws.{
  get-saved_create, get-saved_put_ne, bucket-saved_put, bucket-saved_create, bucket-saved_create_ne,
  bucket-saved_create_true, error-create,
}
use kappa.Namespaces.{
  roles_key, users_key, bucket_of, users_of, roles_of, create_child, copy_entries, get, users,
}
use kappa.Namespaces.Shape.{IsNamespace, with_roles, stored_users, IsNamespace-saved_create}
use kappa.Namespaces.Lifecycle.{get-found}

role-ne-users : (name m k : Bytes) → ((k ∷ roles_of name) == users_of m) ≡ false
unfolding list_beq
role-ne-users name m k = ground arith

roles-ne-bucket : (name m : Bytes) → (roles_of name == bucket_of m) ≡ false
unfolding list_beq
roles-ne-bucket name m = ground arith

pub bucket-ne-users : (name m : Bytes) → (bucket_of name == users_of m) ≡ false
unfolding list_beq
bucket-ne-users name m = ground arith

key-ne-users :
    (child v : Bytes) → (v == users_key) ≡ false → ((v ∷ bucket_of child) == users_of child) ≡ false
unfolding list_beq
key-ne-users child v h = ground arith

same_bucket : (name m : Bytes) → (bucket_of name == bucket_of m) ≡ (name == m)
unfolding list_beq
same_bucket name m = ground arith

module _ (b : Bolt) (law : BoltLaws b) where
  pub copy_entries_put :
      (k : Bytes) (v : Option Bytes) (es : List (Bytes × Option Bytes)) (into : Location)
      (db db' : b.Db)
      → b.put db (k ∷ into) (value_of v) ≡ ok db'
      → copy_entries b ((k, v) ∷ es) into db ≡ copy_entries b es into db'
  unfolding copy_entries
  copy_entries_put k v es into db db' h = rw h refl

  copy_entries_stop :
      (k : Bytes) (v : Option Bytes) (es : List (Bytes × Option Bytes)) (into : Location)
      (db : b.Db) (e : b.Error)
      → b.put db (k ∷ into) (value_of v) ≡ err e
      → copy_entries b ((k, v) ∷ es) into db ≡ (some e, db)
  unfolding copy_entries
  copy_entries_stop k v es into db e h = rw h refl

  abbrev Keeps : Location → Location → b.Db → b.Db → Type 0
  Keeps l q db db' = (b.bucket db' q ≡ b.bucket db q) × (b.get db' l ≡ b.get db l)

  -- Copying roles touches no bucket, and no value but the roles.
  pub copy_entries-Keeps :
      (es : List (Bytes × Option Bytes)) (into l q : Location) (db : b.Db)
      → ((k : Bytes) → ((k ∷ into) == l) ≡ false)
      → Keeps l q db (copy_entries b es into db).1
  unfolding copy_entries
  copy_entries-Keeps [] into l q db apart = (refl, refl)
  copy_entries-Keeps ((k, v) ∷ es) into l q db apart =
      step (λ db'. copy_entries-Keeps es into l q db' apart) (b.put db (k ∷ into) (value_of v)) refl
    where
      step :
          ((db' : b.Db) → Keeps l q db' (copy_entries b es into db').1)
          → (r : Result b.Error b.Db) → b.put db (k ∷ into) (value_of v) ≡ r
          → Keeps l q db (copy_entries b ((k, v) ∷ es) into db).1
      step rest (ok db') h =
          let (same, kept) = rest db' in
          rw (copy_entries_put k v es into db db' h) (
            same ∙ law.bucket-put db db' (k ∷ into) q (value_of v) h,
            kept ∙ rw (law.get-put db db' (k ∷ into) l (value_of v) h, apart k) refl,
          )
      step rest (err e) h = rw (copy_entries_stop k v es into db e h) (refl, refl)

module _ (b : Bolt) (law : BoltLaws b) (db : b.Db) (name child : Bytes) (s : IsNamespace b db name)
    (named : nonempty child ≡ true) (free : b.get db (bucket_of child) ≡ none)
    (no_roles : b.get db (roles_of child) ≡ none) where
  abbrev pub with_child : b.Db
  with_child = saved (b.create_bucket db (bucket_of child)) db

  pub child-IsNamespace : IsNamespace b with_child name
  child-IsNamespace =
      IsNamespace-saved_create b law db name s (bucket_of child) (bucket-ne-users child name)

  abbrev pub with_both : b.Db
  with_both =
      saved (b.create_bucket (with_roles b with_child name) (roles_of child))
        (with_roles b with_child name)

  abbrev pub copied : b.Db
  copied = (copy_entries b (b.entries with_both (roles_of name)) (roles_of child) with_both).1

  abbrev pub final : b.Db
  final =
      saved
        (b.put copied (stored_users b copied name ∷ bucket_of child) (stored_users b copied name))
        copied

  pub bucket-child : b.bucket (with_roles b with_child name) (bucket_of child) ≡ true
  bucket-child = bucket-saved_create_true law with_child (roles_of name) (bucket_of child) (
      rw
        (
          bucket-saved_create law db child [] (law.bucket_root db) named free (bucket_of child),
          same_bucket child child,
          (eq_iff child child).1 refl,
        )
        refl)

  pub no_roles_yet : b.get (with_roles b with_child name) (roles_key ∷ bucket_of child) ≡ none
  no_roles_yet =
      get-saved_create law with_child (roles_of name) (roles_of child)
      ∙ get-saved_create law db (bucket_of child) (roles_of child)
      ∙ no_roles

  pub create_child-final : create_child b name child db ≡ ((some child, none), final)
  unfolding create_child
  create_child-final =
      rw
        (
          law.write_tx_runs,
          s.exists,
          error-create law db child [] (law.bucket_root db) named free,
          error-create law with_child roles_key (bucket_of name) child-IsNamespace.exists refl
              child-IsNamespace.roles_nested,
          error-create law (with_roles b with_child name) roles_key (bucket_of child) bucket-child
              refl no_roles_yet,
        )
        refl

  module _ (m : Bytes) where
    pub bucket-final : b.bucket final (bucket_of m) ≡ (child == m || b.bucket db (bucket_of m))
    bucket-final =
        bucket-saved_put law copied (stored_users b copied name ∷ bucket_of child) (bucket_of m)
          (stored_users b copied name)
        ∙ (copy_entries-Keeps b law (b.entries with_both (roles_of name)) (roles_of child)
            (users_of m) (bucket_of m) with_both (role-ne-users child m)).0
        ∙ bucket-saved_create_ne law (with_roles b with_child name) (roles_of child) (bucket_of m)
            (roles-ne-bucket child m)
        ∙ bucket-saved_create_ne law with_child (roles_of name) (bucket_of m)
            (roles-ne-bucket name m)
        ∙ rw
            (
              bucket-saved_create law db child [] (law.bucket_root db) named free (bucket_of m),
              same_bucket child m,
            )
            refl

    -- CreateChild on an existing namespace returns the child with no error, and from then on Get finds it,
    -- and finds of all others those that it found before. The child's name is not blank, and no value
    -- stands in the places of its bucket and of its roles' bucket.
    pub get-create_child :
        ((create_child b name child db).0 ≡ (some child, none))
        × (get b m (create_child b name child db).1
            ≡ (if child == m then (some m, none) else get b m db))
    get-create_child =
        rw (create_child-final, get-found b law db m, get-found b law final m, bucket-final)
          (refl, ground arith)

  pub users-copied : (m : Bytes) → b.get copied (users_of m) ≡ b.get db (users_of m)
  users-copied m =
      (copy_entries-Keeps b law (b.entries with_both (roles_of name)) (roles_of child) (users_of m)
        [] with_both (role-ne-users child m)).1
      ∙ get-saved_create law (with_roles b with_child name) (roles_of child) (users_of m)
      ∙ get-saved_create law with_child (roles_of name) (users_of m)
      ∙ get-saved_create law db (bucket_of child) (users_of m)

  key-copied :
      (stored_users b db name == users_key) ≡ false
      → (stored_users b copied name == users_key) ≡ false
  key-copied named_else = ap (λ v. value_of v == users_key) (users-copied name) ∙ named_else

  users-final :
      (stored_users b db name == users_key) ≡ false
      → b.get final (users_of child) ≡ b.get db (users_of child)
  users-final named_else =
      get-saved_put_ne law copied (stored_users b copied name ∷ bucket_of child) (users_of child)
        (stored_users b copied name)
        (key-ne-users child (stored_users b copied name) (key-copied named_else))
      ∙ users-copied child

  -- CreateChild does not give the parent's users to the child: a child whose bucket had no list of users
  -- has none, whatever users the parent has, unless their list spells "users". The conditions are
  -- those of CreateChild's success.
  pub users-create_child :
      b.get db (users_of child) ≡ none
      → (stored_users b db name == users_key) ≡ false
      → users b child (create_child b name child db).1 ≡ []
  unfolding users fields
  users-create_child no_users named_else =
      rw
        (
          create_child-final,
          law.read_tx_runs,
          bucket-final child,
          (eq_iff child child).1 refl,
          users-final named_else,
          no_users,
        )
        refl

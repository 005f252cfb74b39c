-- ===== src/Namespaces/ChildRoles.antt =====
-- CreateChild: the roles of the parent and their permissions, copied to the child.
use kappa.Base.{
  Bytes, List, ◌∷◌, Bool, true, false, Option, none, some, ◌≡◌, refl, sym, ap, arith, ◌∙◌, ◌==◌,
  eq_iff, nat_eq, list_eq, list_beq, nonempty, saved, All, Bool-cases, inl, inr,
}
use kappa.Text.{value_of}
use kappa.Bolt.{Bolt, BoltLaws, Location, find_entry, entry_at}
use kappa.Bolt.Laws.{
  get-saved_create, get-saved_put_ne, bucket-saved_put, bucket-saved_create, bucket-saved_create_ne,
}
use kappa.Namespaces.{roles_key, bucket_of, users_of, roles_of, create_child, has_permission}
use kappa.Namespaces.Shape.{
  IsNamespace, with_roles, stored_users, stored_permissions, roles-ne-role, roles-ne-users,
}
use kappa.Namespaces.Permissions.{has_permission-eq-contains}
use kappa.Namespaces.Roles.{is_some}
use kappa.Namespaces.Children.{
  copy_entries-Keeps, with_child, with_both, copied, final, create_child-final, bucket-final,
  bucket-ne-users, bucket-child, no_roles_yet,
}
use kappa.Namespaces.Copies.{IsCopied, key-ne-role, role-ne-roles, value-copy_entries}

bucket-ne-role : (name m role : Bytes) → (bucket_of name == (role ∷ roles_of m)) ≡ false
unfolding list_beq
bucket-ne-role name m role = ground arith

no_entry : (there : Bool) (v : Option Bytes) → is_some (entry_at there v) ≡ false → v ≡ none
no_entry true v h = cc
no_entry false none h = refl
no_entry false (some v) h = cc

module _ (b : Bolt) (law : BoltLaws b) where
  -- A write leaves the value in a bucket's place, which is none, as it was.
  get-put_bucket :
      (db : b.Db) (l q : Location) (v : Bytes)
      → b.bucket db q ≡ true
      → b.get (saved (b.put db l v) db) q ≡ b.get db q
  get-put_bucket db l q v there = elim (Bool-cases (l == q)) [
    | inl same ↦
        let (e, h) = law.put_bucket db l v (ap (b.bucket db) ((eq_iff l q).0 same) ∙ there) in
        rw h refl
    | inr ne ↦ get-saved_put_ne law db l q v ne
  ]

module _ (b : Bolt) (law : BoltLaws b) (db : b.Db) (name child : Bytes) (s : IsNamespace b db name)
    (named : nonempty child ≡ true) (free : b.get db (bucket_of child) ≡ none)
    (no_roles : b.get db (roles_of child) ≡ none) where
  abbrev before : b.Db
  before = with_child b law db name child s named free no_roles

  abbrev both : b.Db
  both = with_both b law db name child s named free no_roles

  abbrev copies : b.Db
  copies = copied b law db name child s named free no_roles

  abbrev at_end : b.Db
  at_end = final b law db name child s named free no_roles

  -- What ForEach hands over for the parent's roles, when they are copied.
  abbrev pub parent_roles : List (Bytes × Option Bytes)
  parent_roles = b.entries both (roles_of name)

  get-both : (q : Location) → b.get both q ≡ b.get db q
  get-both q =
      get-saved_create law (with_roles b before name) (roles_of child) q
      ∙ get-saved_create law before (roles_of name) q
      ∙ get-saved_create law db (bucket_of child) q

  bucket-both :
      (q : Location)
      → (roles_of child == q) ≡ false
      → (roles_of name == q) ≡ false
      → (bucket_of child == q) ≡ false
      → b.bucket both q ≡ b.bucket db q
  bucket-both q h i j =
      bucket-saved_create_ne law (with_roles b before name) (roles_of child) q h
      ∙ bucket-saved_create_ne law before (roles_of name) q i
      ∙ bucket-saved_create_ne law db (bucket_of child) q j

  roles-both : b.bucket both (roles_of child) ≡ true
  roles-both =
      bucket-saved_create law (with_roles b before name) roles_key (bucket_of child)
        (bucket-child b law db name child s named free no_roles) refl
        (no_roles_yet b law db name child s named free no_roles) (roles_of child)
      ∙ rw ((eq_iff (roles_of child) (roles_of child)).1 refl) refl

  final-IsNamespace : b.bucket db (users_of child) ≡ false → IsNamespace b at_end child
  final-IsNamespace users_free =
      let (plain, kept) =
        copy_entries-Keeps b law parent_roles (roles_of child) (roles_of child) (users_of child)
          both (role-ne-roles child child) in
      let (nested, kept') =
        copy_entries-Keeps b law parent_roles (roles_of child) (roles_of child) (roles_of child)
          both (role-ne-roles child child) in
      record {
        exists =
            bucket-final b law db name child s named free no_roles child
            ∙ rw ((eq_iff child child).1 refl) refl;
        users_plain =
            bucket-saved_put law copies (stored_users b copies name ∷ bucket_of child)
              (users_of child) (stored_users b copies name)
            ∙ plain
            ∙ bucket-both (users_of child) (roles-ne-users child child) (roles-ne-users name child)
                (bucket-ne-users child child)
            ∙ users_free;
        roles_nested =
            get-put_bucket b law copies (stored_users b copies name ∷ bucket_of child)
              (roles_of child) (stored_users b copies name) (nested ∙ roles-both)
            ∙ kept
            ∙ get-both (roles_of child)
            ∙ no_roles;
      }

  module _ (fresh : (k : Bytes) → b.get db (k ∷ roles_of child) ≡ none)
      (plain : (k : Bytes) → b.bucket db (k ∷ roles_of child) ≡ false)
      (entries : All (IsCopied b (λ k. b.get db (k ∷ roles_of name))) parent_roles) where
    permissions-final :
        (k : Bytes) → stored_permissions b at_end child k ≡ stored_permissions b db name k
    permissions-final k =
        ap value_of (
          get-saved_put_ne law copies (stored_users b copies name ∷ bucket_of child)
            (k ∷ roles_of child) (stored_users b copies name)
            (key-ne-role child (stored_users b copies name) k))
        ∙ value-copy_entries b law (λ j. b.get db (j ∷ roles_of name)) parent_roles child k both
            entries roles-both
            (λ j.
              bucket-both (j ∷ roles_of child) (roles-ne-role child child j)
                (roles-ne-role name child j) (bucket-ne-role child child j)
              ∙ plain j)
        ∙ elim (Bool-cases (is_some (find_entry k parent_roles))) [
          | inl there ↦ rw there refl
          | inr missing ↦
              rw (missing, get-both (k ∷ roles_of child), fresh k)
                (sym (
                  ap value_of (
                    sym (get-both (k ∷ roles_of name))
                    ∙ no_entry (b.bucket both (k ∷ roles_of name)) (b.get both (k ∷ roles_of name))
                        (ap is_some (sym (law.find-entries both (roles_of name) k)) ∙ missing))))
        ]

    -- CreateChild copies the roles: in the child every role has exactly the permissions that it has in the
    -- parent. The parent has the expected shape, the child's name is not blank, nothing is stored in the
    -- places of the child's bucket, users and roles, and what ForEach hands over for a role of the parent
    -- is its value, within the limits of Put.
    pub has_permission-create_child :
        (role permission : Bytes)
        → b.bucket db (users_of child) ≡ false
        → (has_permission b child role permission (create_child b name child db).1).0
          ≡ (has_permission b name role permission db).0
    has_permission-create_child role permission users_free =
        rw
          (
            create_child-final b law db name child s named free no_roles,
            has_permission-eq-contains b law at_end child (final-IsNamespace users_free) role
                permission,
            has_permission-eq-contains b law db name s role permission,
            permissions-final role,
          )
          refl

-- ===== src/Executor/SubNamespaces.antt =====
-- CREATE NAMESPACE of a sub-namespace, the whole way to CreateChild.
use kappa.Base.{
  Bytes, codes, [], ◌∷◌, ◌++◌, Bool, true, false, ◌||◌, none, some, ◌≡◌, ◌∙◌, refl, eq_iff, nat_eq,
  list_eq, nonempty, Bool-cases, inl, inr,
}
use kappa.Bolt.{Bolt, BoltLaws}
use kappa.Namespaces.{bucket_of, roles_of}
use kappa.Namespaces.Shape.{IsNamespace}
use kappa.Namespaces.Lifecycle.{get-found}
use kappa.Namespaces.Children.{create_child-final, bucket-final}
use kappa.Users
use kappa.Skl.{create_namespace_statement, is_root_namespace}
use kappa.Executor.{
  Executor, Reply, execute, handle_create_namespace, create_sub_namespace, scan_roles, parent_of,
  created,
}
use kappa.Executor.Create.{any_permits, scan_roles_lem, denied}

-- The user is the admin, or has a role with the permission "create.namespace" in the parent.
abbrev pub may_create : (b : Bolt) → Bytes → Bytes → Executor b → Bool
may_create b name user e =
    Users.is_admin user
    || any_permits b (parent_of name) (codes "create.namespace")
        (Users.roles b user (parent_of name) e.users).0 e.namespaces

abbrev pub sub_reply : Bytes → Bool → Reply
sub_reply name true = created
sub_reply name false = denied name

module _ (b : Bolt) (law : BoltLaws b) (e : Executor b) (user name : Bytes) where
  -- A sub-namespace is created exactly where the user is the admin or some role of the user in the
  -- parent namespace has the permission "create.namespace" there, and the reply says which it was. The
  -- namespace did not exist and no value stands in the places of its bucket and of its roles' bucket,
  -- the parent has the expected shape, the session has a user, and the namespace store opens.
  pub create_sub :
      e.user ≡ some user
      → e.store_open ≡ true
      → is_root_namespace name ≡ false
      → nonempty name ≡ true
      → b.bucket e.namespaces (bucket_of name) ≡ false
      → b.get e.namespaces (bucket_of name) ≡ none
      → b.get e.namespaces (roles_of name) ≡ none
      → IsNamespace b e.namespaces (parent_of name)
      → (b.bucket (execute b (create_namespace_statement name) e).namespaces (bucket_of name)
          ≡ may_create b name user e)
        × ((execute b (create_namespace_statement name) e).output
            ≡ e.output ++ sub_reply name (may_create b name user e) ∷ [])
  unfolding execute handle_create_namespace create_sub_namespace
  create_sub has_user is_open sub named missing free no_roles s =
      let scan =
        scan_roles b (parent_of name) (codes "create.namespace")
          (Users.roles b user (parent_of name) e.users).0 false e.namespaces in
      let (access, bucket, get, n) =
        scan_roles_lem b law (parent_of name) (codes "create.namespace")
          (Users.roles b user (parent_of name) e.users).0 false e.namespaces name (bucket_of name)
          s in
      let (access', bucket', get', n') =
        scan_roles_lem b law (parent_of name) (codes "create.namespace")
          (Users.roles b user (parent_of name) e.users).0 false e.namespaces name (roles_of name)
          s in
      rw
        (
          has_user,
          is_open,
          get-found b law e.namespaces name,
          missing,
          sub,
          get-found b law e.namespaces (parent_of name),
          s.exists,
        )
        (elim (Bool-cases (Users.is_admin user)) [
          | inl admin ↦
              rw
                (
                  admin,
                  create_child-final b law e.namespaces (parent_of name) name s named free no_roles,
                  bucket-final b law e.namespaces (parent_of name) name s named free no_roles name,
                  (eq_iff name name).1 refl,
                )
                (refl, refl)
          | inr plain ↦
              elim (Bool-cases (
                any_permits b (parent_of name) (codes "create.namespace")
                  (Users.roles b user (parent_of name) e.users).0 e.namespaces)) [
                    | inl permits ↦
                        rw
                          (
                            plain,
                            access,
                            permits,
                            create_child-final b law scan.1 (parent_of name) name n named
                                (get ∙ free) (get' ∙ no_roles),
                            bucket-final b law scan.1 (parent_of name) name n named (get ∙ free)
                                (get' ∙ no_roles) name,
                            (eq_iff name name).1 refl,
                          )
                          (refl, refl)
                    | inr refused ↦ rw (plain, access, refused) (bucket ∙ missing, refl)
                  ]
        ])

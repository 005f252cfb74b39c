-- ===== src/Namespaces/Permissions.antt =====
-- The permissions of a role: GrantPermissions, RevokePermission and HasPermission.
use kappa.Base.{
  Bytes, List, [], ◌∷◌, true, false, not, ◌&&◌, ◌||◌, none, ◌≡◌, ◌≢◌, ◌∙◌, refl, arith, ◌==◌,
  eq_refl, nat_eq, list_eq, nonempty, contains, contains-append, saved, All, Bool-cases, inl, inr,
}
use kappa.Text.{comma, join, fields, add_field, remove_field}
use kappa.Text.Parts.{Lacks}
use kappa.Text.Fields.{fields-add_joined, contains-fields-remove, contains-fields-blank}
use kappa.Bolt.{Location, Bolt, BoltLaws}
use kappa.Bolt.Laws.{get-saved_put, get-saved_create, bucket-saved_create_ne}
use kappa.Namespaces.{roles_of, has_permission, grant_permissions, revoke_permission}
use kappa.Namespaces.Shape.{
  IsNamespace, stored_permissions, with_roles, role-ne-roles, in_roles-runs, bucket-with_roles,
  IsNamespace-with_roles, IsNamespace-saved_put, roles-ne-role,
}

module _ (b : Bolt) (law : BoltLaws b) (db : b.Db) (name : Bytes) (s : IsNamespace b db name) where
  pub has_permission-eq-contains :
      (role permission : Bytes)
      → has_permission b name role permission db
        ≡ (contains permission (fields (stored_permissions b db name role)), with_roles b db name)
  unfolding has_permission
  has_permission-eq-contains role permission = rw (
    law.write_tx_runs,
    in_roles-runs b law db name s,
    get-saved_create law db (roles_of name) (role ∷ roles_of name),
  )

  pub grant_permissions-saved :
      (role : Bytes) (permissions : List Bytes)
      → grant_permissions b name role permissions db ≡ (
        none,
        saved
            (b.put
              (with_roles b db name)
              (role ∷ roles_of name)
              (add_field (stored_permissions b db name role) (join comma permissions)))
            (with_roles b db name),
      )
  unfolding grant_permissions
  grant_permissions-saved role permissions = rw (
    law.write_tx_runs,
    in_roles-runs b law db name s,
    get-saved_create law db (roles_of name) (role ∷ roles_of name),
  )

  -- The permissions that a write of a role's list leaves to be read.
  stored-saved :
      (role v : Bytes)
      → b.bucket db (role ∷ roles_of name) ≡ false
      → b.fits role v ≡ true
      → stored_permissions b
          (saved (b.put (with_roles b db name) (role ∷ roles_of name) v) (with_roles b db name))
          name
          role
        ≡ v
  stored-saved role v plain fits = rw (
    get-saved_put law (with_roles b db name) role (roles_of name)
        (bucket-with_roles b law db name s)
        (bucket-saved_create_ne law db (roles_of name) (role ∷ roles_of name)
            (roles-ne-role name name role)
          ∙ plain)
        v fits (role ∷ roles_of name),
    eq_refl {A = Location} (role ∷ roles_of name),
  )

module _ (b : Bolt) (law : BoltLaws b) (db : b.Db) (name : Bytes) (s : IsNamespace b db name) where
  -- The state behind a write to one role's list is a namespace again.
  pub IsNamespace-role_saved :
      (role v : Bytes)
      → IsNamespace b
          (saved (b.put (with_roles b db name) (role ∷ roles_of name) v) (with_roles b db name))
          name
  IsNamespace-role_saved role v =
      IsNamespace-saved_put b law (with_roles b db name) name
        (IsNamespace-with_roles b law db name s name) (role ∷ roles_of name) v
        (role-ne-roles name name role)

  has_permission-saved :
      (role v p : Bytes)
      → b.bucket db (role ∷ roles_of name) ≡ false
      → b.fits role v ≡ true
      → (has_permission b name role p
          (saved (b.put (with_roles b db name) (role ∷ roles_of name) v) (with_roles b db name))).0
        ≡ contains p (fields v)
  has_permission-saved role v p plain fits = rw (
    has_permission-eq-contains b law
        (saved (b.put (with_roles b db name) (role ∷ roles_of name) v) (with_roles b db name)) name
        (IsNamespace-role_saved role v) role p,
    stored-saved b law db name s role v plain fits,
  )

  -- After GrantPermissions a role has the permissions granted and those that it had, and no other, if at
  -- least one is granted, none is blank or has a comma, and the list is within the limits of Put. The
  -- namespace has the expected shape, and no bucket stands in the role's place.
  pub has_permission-grant_permissions :
      (role : Bytes) (permissions : List Bytes) (p : Bytes)
      → b.bucket db (role ∷ roles_of name) ≡ false
      → b.fits role (add_field (stored_permissions b db name role) (join comma permissions)) ≡ true
      → permissions ≢ []
      → All (λ q. nonempty q ≡ true) permissions
      → All (Lacks comma) permissions
      → ((grant_permissions b name role permissions db).0 ≡ none)
        × ((has_permission b name role p (grant_permissions b name role permissions db).1).0
            ≡ ((has_permission b name role p db).0 || contains p permissions))
  has_permission-grant_permissions role permissions p plain fits some_granted named lacking =
      rw
        (
          grant_permissions-saved b law db name s role permissions,
          has_permission-saved role _ p plain fits,
          has_permission-eq-contains b law db name s role p,
          fields-add_joined (stored_permissions b db name role) permissions some_granted named
              lacking,
        )
        (refl, contains-append p (fields (stored_permissions b db name role)) permissions)

  pub revoke_permission-saved :
      (role permission : Bytes)
      → nonempty (stored_permissions b db name role) ≡ true
      → revoke_permission b name role permission db ≡ (
        none,
        saved
            (b.put
              (with_roles b db name)
              (role ∷ roles_of name)
              (remove_field (stored_permissions b db name role) permission))
            (with_roles b db name),
      )
  unfolding revoke_permission
  revoke_permission-saved role permission full = rw (
    law.write_tx_runs,
    in_roles-runs b law db name s,
    get-saved_create law db (roles_of name) (role ∷ roles_of name),
    full,
  )

  pub revoke_permission-blank :
      (role permission : Bytes)
      → nonempty (stored_permissions b db name role) ≡ false
      → revoke_permission b name role permission db ≡ (none, with_roles b db name)
  unfolding revoke_permission
  revoke_permission-blank role permission blank = rw (
    law.write_tx_runs,
    in_roles-runs b law db name s,
    get-saved_create law db (roles_of name) (role ∷ roles_of name),
    blank,
  )

  -- After RevokePermission a role lacks the permission, and every other permission, if it is not blank,
  -- stands as it did, if the list is within the limits of Put. The namespace has the expected shape, and
  -- no bucket stands in the role's place.
  pub has_permission-revoke_permission :
      (role permission p : Bytes)
      → b.bucket db (role ∷ roles_of name) ≡ false
      → b.fits role (remove_field (stored_permissions b db name role) permission) ≡ true
      → nonempty p ≡ true
      → ((revoke_permission b name role permission db).0 ≡ none)
        × ((has_permission b name role p (revoke_permission b name role permission db).1).0
            ≡ (not (permission == p) && (has_permission b name role p db).0))
  has_permission-revoke_permission role permission p plain fits named =
      elim (Bool-cases (nonempty (stored_permissions b db name role))) [
        | inl full ↦
            rw
              (
                revoke_permission-saved role permission full,
                has_permission-saved role _ p plain fits,
                has_permission-eq-contains b law db name s role p,
              )
              (refl, contains-fields-remove _ permission p full named)
        | inr blank ↦
            rw
              (
                revoke_permission-blank role permission blank,
                has_permission-eq-contains b law db name s role p,
                has_permission-eq-contains b law (with_roles b db name) name
                    (IsNamespace-with_roles b law db name s name) role p,
                get-saved_create law db (roles_of name) (role ∷ roles_of name),
                contains-fields-blank _ p blank,
              )
              (refl, ground arith)
      ]

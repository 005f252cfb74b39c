-- ===== src/Namespaces/Roles.antt =====
-- The roles of a namespace: AddRole, RemoveRole and Roles.
use kappa.Base.{
  Bytes, List, [], ◌∷◌, map, Bool, true, false, not, ◌&&◌, ◌||◌, Option, none, some, ◌≡◌, ◌∙◌, refl,
  arith, ◌==◌, eq_iff, nat_eq, list_eq, list_beq, contains, saved, Option-cases, inl, inr,
}
use kappa.Bolt.{Bolt, BoltLaws, find_entry, entry_at}
use kappa.Bolt.Laws.{
  get-saved_put, get-saved_create, get-saved_delete, bucket-saved_create_ne, bucket-saved_put,
  bucket-saved_delete,
}
use kappa.Namespaces.{roles_of, roles, add_role, remove_role}
use kappa.Namespaces.Shape.{
  IsNamespace, with_roles, role-ne-roles, roles-ne-role, in_roles-runs, bucket-with_roles,
  IsNamespace-with_roles, IsNamespace-saved_delete,
}
use kappa.Namespaces.Permissions.{IsNamespace-role_saved}

abbrev pub is_some : Option (Option Bytes) → Bool
is_some none = false
is_some (some v) = true

pub contains-map :
    (k : Bytes) (es : List (Bytes × Option Bytes))
    → contains k (map (λ e. e.0) es) ≡ is_some (find_entry k es)
unfolding contains find_entry
contains-map k [] = refl
contains-map k ((j, v) ∷ es) = ground (arith, contains-map k es)

module _ (b : Bolt) (law : BoltLaws b) (db : b.Db) (name : Bytes) (s : IsNamespace b db name) where
  roles-entries :
      roles b name db
      ≡ (map (λ e. e.0) (b.entries (with_roles b db name) (roles_of name)), with_roles b db name)
  unfolding roles
  roles-entries = rw (law.write_tx_runs, in_roles-runs b law db name s [] [])

  -- A role is listed where an entry has its name.
  contains-roles :
      (r : Bytes)
      → contains r (roles b name db).0
        ≡ is_some (entry_at (b.bucket db (r ∷ roles_of name)) (b.get db (r ∷ roles_of name)))
  contains-roles r = rw (
    roles-entries,
    contains-map r (b.entries (with_roles b db name) (roles_of name)),
    law.find-entries (with_roles b db name) (roles_of name) r,
    get-saved_create law db (roles_of name) (r ∷ roles_of name),
    bucket-saved_create_ne law db (roles_of name) (r ∷ roles_of name) (roles-ne-role name name r),
  )

  add_role-new :
      (role : Bytes)
      → b.get db (role ∷ roles_of name) ≡ none
      → add_role b name role db ≡ (
        none,
        saved (b.put (with_roles b db name) (role ∷ roles_of name) []) (with_roles b db name),
      )
  unfolding add_role
  add_role-new role new = rw (
    law.write_tx_runs,
    in_roles-runs b law db name s,
    get-saved_create law db (roles_of name) (role ∷ roles_of name),
    new,
  )

  add_role-held :
      (role v : Bytes)
      → b.get db (role ∷ roles_of name) ≡ some v
      → add_role b name role db ≡ (none, with_roles b db name)
  unfolding add_role
  add_role-held role v held = rw (
    law.write_tx_runs,
    in_roles-runs b law db name s,
    get-saved_create law db (roles_of name) (role ∷ roles_of name),
    held,
  )

  remove_role-saved :
      (role : Bytes)
      → remove_role b name role db ≡ (
        none,
        saved (b.delete (with_roles b db name) (role ∷ roles_of name)) (with_roles b db name),
      )
  unfolding remove_role
  remove_role-saved role = rw (law.write_tx_runs, in_roles-runs b law db name s)

  bucket-with_roles_role :
      (r : Bytes)
      → b.bucket (with_roles b db name) (r ∷ roles_of name) ≡ b.bucket db (r ∷ roles_of name)
  bucket-with_roles_role r =
      bucket-saved_create_ne law db (roles_of name) (r ∷ roles_of name) (roles-ne-role name name r)

module _ (b : Bolt) (law : BoltLaws b) (db : b.Db) (name : Bytes) (s : IsNamespace b db name) where
  contains-roles-with_roles :
      (r : Bytes)
      → contains r (roles b name (with_roles b db name)).0 ≡ contains r (roles b name db).0
  contains-roles-with_roles r = rw (
    contains-roles b law (with_roles b db name) name (IsNamespace-with_roles b law db name s name)
        r,
    contains-roles b law db name s r,
    get-saved_create law db (roles_of name) (r ∷ roles_of name),
    bucket-with_roles_role b law db name s r,
  )

  role_eq_iff : (role r : Bytes) → ((role ∷ roles_of name) == (r ∷ roles_of name)) ≡ (role == r)
  unfolding list_beq
  role_eq_iff role r = ground (arith, eq_iff name name)

  contains-roles-saved :
      (role r : Bytes)
      → b.bucket db (role ∷ roles_of name) ≡ false
      → b.fits role [] ≡ true
      → contains r
          (roles b name (
            saved
              (b.put (with_roles b db name) (role ∷ roles_of name) [])
              (with_roles b db name))).0
        ≡ (role == r || contains r (roles b name db).0)
  contains-roles-saved role r plain fits =
      let after =
        saved (b.put (with_roles b db name) (role ∷ roles_of name) []) (with_roles b db name) in
      rw
        (
          contains-roles b law after name (IsNamespace-role_saved b law db name s role []) r,
          contains-roles b law db name s r,
          bucket-saved_put law (with_roles b db name) (role ∷ roles_of name) (r ∷ roles_of name) [],
          get-saved_put law (with_roles b db name) role (roles_of name)
              (bucket-with_roles b law db name s)
              (bucket-with_roles_role b law db name s role ∙ plain) [] fits (r ∷ roles_of name),
          get-saved_create law db (roles_of name) (r ∷ roles_of name),
          bucket-with_roles_role b law db name s r,
          role_eq_iff role r,
        )
        (ground (arith, eq_iff role r))

  -- AddRole adds the role to those that Roles lists, and no other, if the role is within the limits of
  -- Put. The namespace has the expected shape, and no bucket stands in the role's place.
  pub roles-add_role :
      (role r : Bytes)
      → b.bucket db (role ∷ roles_of name) ≡ false
      → b.fits role [] ≡ true
      → ((add_role b name role db).0 ≡ none)
        × (contains r (roles b name (add_role b name role db).1).0
            ≡ (role == r || contains r (roles b name db).0))
  roles-add_role role r plain fits = elim (Option-cases (b.get db (role ∷ roles_of name))) [
    | inl new ↦
        rw (add_role-new b law db name s role new) (refl, contains-roles-saved role r plain fits)
    | inr (v, held) ↦
        rw
          (
            add_role-held b law db name s role v held,
            contains-roles-with_roles r,
            contains-roles b law db name s r,
          )
          (refl, ground (arith, eq_iff role r))
  ]

  -- RemoveRole takes the role from those that Roles lists, and no other. The namespace has the expected
  -- shape, and no bucket stands in the role's place.
  pub roles-remove_role :
      (role r : Bytes)
      → b.bucket db (role ∷ roles_of name) ≡ false
      → ((remove_role b name role db).0 ≡ none)
        × (contains r (roles b name (remove_role b name role db).1).0
            ≡ (not (role == r) && contains r (roles b name db).0))
  roles-remove_role role r plain =
      let after =
        saved (b.delete (with_roles b db name) (role ∷ roles_of name)) (with_roles b db name) in
      rw
        (
          remove_role-saved b law db name s role,
          contains-roles b law after name
              (IsNamespace-saved_delete b law (with_roles b db name) name
                (IsNamespace-with_roles b law db name s name) (role ∷ roles_of name)
                (role-ne-roles name name role))
              r,
          contains-roles b law db name s r,
          bucket-saved_delete law (with_roles b db name) (role ∷ roles_of name) (r ∷ roles_of name),
          get-saved_delete law (with_roles b db name) role (roles_of name)
              (bucket-with_roles b law db name s)
              (bucket-with_roles_role b law db name s role ∙ plain) (r ∷ roles_of name),
          get-saved_create law db (roles_of name) (r ∷ roles_of name),
          bucket-with_roles_role b law db name s r,
          role_eq_iff role r,
        )
        (refl, ground (arith, eq_iff role r))

  -- AddRole reports no error for a new role beyond the limits of Put, such as a blank name, though the
  -- write fails and Roles lists what it listed before. The namespace has the expected shape.
  add_role_loses_error :
      (role r : Bytes)
      → b.get db (role ∷ roles_of name) ≡ none
      → b.fits role [] ≡ false
      → ((add_role b name role db).0 ≡ none)
        × (contains r (roles b name (add_role b name role db).1).0 ≡ contains r (roles b name db).0)
  add_role_loses_error role r new unfit =
      let (e, failed) = law.put_unfit (with_roles b db name) role (roles_of name) [] unfit in
      rw (add_role-new b law db name s role new, failed) (refl, contains-roles-with_roles r)

-- ===== src/Users/Roles.antt =====
-- The roles of a user in each namespace: AddRole, RemoveRole, Roles and Namespaces.
use kappa.Base.{
  Bytes, [], ◌∷◌, ◌++◌, true, false, not, ◌&&◌, none, ◌≡◌, refl, arith, ◌==◌, eq_refl, nat_eq,
  list_eq, if◌then◌else◌, nonempty, contains, Bool-cases, inl, inr,
}
use kappa.Text.{value_of, fields, add_field, remove_field}
use kappa.Text.Parts.{Lacks}
use kappa.Text.Fields.{fields-add_field, contains-fields-remove, contains-fields-blank}
use kappa.Bolt.{Bolt, BoltLaws}
use kappa.Users.{namespaces_key, namespaces_of, roles, add_role, remove_role}
use kappa.Users.Shape.{
  IsUser, with_nested, in_nested-runs, get-with_nested, IsUser-with_nested, written, IsUser-written,
  get-written,
}

abbrev pub stored_roles : (b : Bolt) → b.Db → Bytes → Bytes → Bytes
stored_roles b db name namespace = value_of (b.get db (namespace ∷ namespaces_of name))

module _ (b : Bolt) (law : BoltLaws b) (db : b.Db) (name : Bytes)
    (u : IsUser b db namespaces_key name) where
  roles-fields :
      (namespace : Bytes)
      → roles b name namespace db
        ≡ (fields (stored_roles b db name namespace), with_nested b db namespaces_key name)
  unfolding roles
  roles-fields namespace = rw (
    law.write_tx_runs,
    in_nested-runs b law db namespaces_key name u refl,
    get-with_nested b law db namespaces_key name u refl,
  )

  add_role-written :
      (namespace role : Bytes)
      → add_role b name namespace role db ≡ (
        none,
        written b db namespaces_key name namespace
            (add_field (stored_roles b db name namespace) role),
      )
  unfolding add_role
  add_role-written namespace role = rw (
    law.write_tx_runs,
    in_nested-runs b law db namespaces_key name u refl,
    get-with_nested b law db namespaces_key name u refl,
  )

  remove_role-written :
      (namespace role : Bytes)
      → nonempty (stored_roles b db name namespace) ≡ true
      → remove_role b name namespace role db ≡ (
        none,
        written b db namespaces_key name namespace
            (remove_field (stored_roles b db name namespace) role),
      )
  unfolding remove_role
  remove_role-written namespace role full = rw (
    law.write_tx_runs,
    in_nested-runs b law db namespaces_key name u refl,
    get-with_nested b law db namespaces_key name u refl,
    full,
  )

  remove_role-blank :
      (namespace role : Bytes)
      → nonempty (stored_roles b db name namespace) ≡ false
      → remove_role b name namespace role db ≡ (none, with_nested b db namespaces_key name)
  unfolding remove_role
  remove_role-blank namespace role blank = rw (
    law.write_tx_runs,
    in_nested-runs b law db namespaces_key name u refl,
    get-with_nested b law db namespaces_key name u refl,
    blank,
  )

module _ (b : Bolt) (law : BoltLaws b) (db : b.Db) (name : Bytes)
    (u : IsUser b db namespaces_key name) (namespace : Bytes)
    (plain : b.bucket db (namespace ∷ namespaces_of name) ≡ false) where
  roles-written :
      (n v : Bytes)
      → b.fits namespace v ≡ true
      → (roles b name n (written b db namespaces_key name namespace v)).0
        ≡ (if namespace == n then fields v else (roles b name n db).0)
  roles-written n v fits =
      rw
        (
          roles-fields b law (written b db namespaces_key name namespace v) name
              (IsUser-written b law db namespaces_key name u refl namespace plain v) n,
          roles-fields b law db name u n,
          get-written b law db namespaces_key name u refl namespace plain v n fits,
        )
        (ground arith)

  -- AddRole puts a role that is not blank and has no comma behind the user's roles in the namespace, and
  -- leaves the roles in all other namespaces, if the list is within the limits of Put. The user exists,
  -- and no bucket stands in the namespace's place.
  pub user_roles-add_role :
      (role n : Bytes)
      → b.fits namespace (add_field (stored_roles b db name namespace) role) ≡ true
      → nonempty role ≡ true
      → Lacks b',' role
      → ((add_role b name namespace role db).0 ≡ none)
        × ((roles b name n (add_role b name namespace role db).1).0 ≡ (
            if namespace == n
            then (roles b name namespace db).0 ++ role ∷ []
            else (roles b name n db).0))
  user_roles-add_role role n fits named lacking =
      rw
        (
          add_role-written b law db name u namespace role,
          roles-written n _ fits,
          roles-fields b law db name u namespace,
          fields-add_field (stored_roles b db name namespace) role named lacking,
        )
        (refl, refl)

  -- After RemoveRole the user lacks the role in the namespace, and has there every other role, whose name
  -- is not blank, that it had, if the list is within the limits of Put. The user exists, and no bucket
  -- stands in the namespace's place.
  pub contains-user_roles-remove_role :
      (role r : Bytes)
      → b.fits namespace (remove_field (stored_roles b db name namespace) role) ≡ true
      → nonempty r ≡ true
      → ((remove_role b name namespace role db).0 ≡ none)
        × (contains r (roles b name namespace (remove_role b name namespace role db).1).0
            ≡ (not (role == r) && contains r (roles b name namespace db).0))
  contains-user_roles-remove_role role r fits named =
      elim (Bool-cases (nonempty (stored_roles b db name namespace))) [
        | inl full ↦
            rw
              (
                remove_role-written b law db name u namespace role full,
                roles-written namespace _ fits,
                eq_refl namespace,
                roles-fields b law db name u namespace,
              )
              (refl, contains-fields-remove _ role r full named)
        | inr blank ↦
            rw
              (
                remove_role-blank b law db name u namespace role blank,
                roles-fields b law db name u namespace,
                roles-fields b law (with_nested b db namespaces_key name) name
                    (IsUser-with_nested b law db namespaces_key name u refl) namespace,
                get-with_nested b law db namespaces_key name u refl
                    (namespace ∷ namespaces_of name),
                contains-fields-blank _ r blank,
              )
              (refl, ground arith)
      ]

-- ===== src/Tests/Namespaces.antt =====
-- A keyspace with the namespace acme, its users ann and bob, and its role ops.
use kappa.Base.{
  Bytes, codes, [], ◌∷◌, List, false, not, ◌&&◌, none, some, arith, ◌≡◌, ◌≢◌, refl, ◌==◌, nat_eq,
  list_eq, list_beq, contains,
}
use kappa.Text.{fields, add_field}
use kappa.Bolt.Memory.{Table, bucket, get, put, entries, create_bucket, memory}
use kappa.Bolt.Memory.Laws.{memory_laws}
use kappa.Namespaces
use kappa.Namespaces.{namespace_does_not_exist}
use kappa.Namespaces.Shape.{IsNamespace}
use kappa.Namespaces.Permissions.{has_permission-revoke_permission}
use kappa.Namespaces.Grants.{
  Change, grant, revoke, held_after, holds, run_changes, AreAllowed, holds-run_changes,
}
use kappa.Namespaces.Children.{users-create_child}
use kappa.Namespaces.ChildRoles.{has_permission-create_child}

abbrev acme : Bytes
acme = codes "acme"

abbrev ann : Bytes
ann = codes "ann"

abbrev cid : Bytes
cid = codes "cid"

abbrev ops : Bytes
ops = codes "ops"

abbrev table : Table
table =
    (acme ∷ [], none)
    ∷ (codes "users" ∷ acme ∷ [], some (codes "ann,bob"))
    ∷ (codes "roles" ∷ acme ∷ [], none)
    ∷ (ops ∷ codes "roles" ∷ acme ∷ [], some (codes "log.read"))
    ∷ []

acme-IsNamespace : IsNamespace memory table acme
unfolding bucket get list_beq
acme-IsNamespace = record { exists = refl; users_plain = refl; roles_nested = refl }

run_users :
    Namespaces.users memory acme (Namespaces.add_user memory acme cid table).1
    ≡ ann ∷ codes "bob" ∷ cid ∷ []
unfolding Namespaces.users Namespaces.add_user put bucket get list_beq fields add_field
run_users = refl

abbrev other : Bytes
other = codes "other"

acme-ne-other : acme ≢ other
acme-ne-other e = cc

abbrev granted : List Bytes
granted = codes "create.namespace" ∷ codes "log.write" ∷ []

has_permission-revoke_permission_example :
    ((Namespaces.revoke_permission memory acme ops (codes "log.read") table).0 ≡ none)
    × ((Namespaces.has_permission memory acme ops
          (codes "log.read")
          (Namespaces.revoke_permission memory acme ops (codes "log.read") table).1).0
        ≡ (not (codes "log.read" == codes "log.read")
            && (Namespaces.has_permission memory acme ops (codes "log.read") table).0))
unfolding bucket list_beq
has_permission-revoke_permission_example =
    has_permission-revoke_permission memory memory_laws table acme acme-IsNamespace ops
      (codes "log.read") (codes "log.read") refl refl refl

abbrev web : Bytes
web = codes "acme.web"

users-create_child_example :
    Namespaces.users memory web (Namespaces.create_child memory acme web table).1 ≡ []
unfolding get list_beq
users-create_child_example =
    users-create_child memory memory_laws table acme web acme-IsNamespace refl refl refl refl refl

no_child_roles : (k : Bytes) → get table (k ∷ codes "roles" ∷ web ∷ []) ≡ none
unfolding get list_beq
no_child_roles k = ground arith

no_child_buckets : (k : Bytes) → bucket table (k ∷ codes "roles" ∷ web ∷ []) ≡ false
unfolding bucket list_beq
no_child_buckets k = ground arith

has_permission-create_child_example :
    (Namespaces.has_permission memory web ops
      (codes "log.read")
      (Namespaces.create_child memory acme web table).1).0
    ≡ (Namespaces.has_permission memory acme ops (codes "log.read") table).0
unfolding get bucket list_beq entries create_bucket
has_permission-create_child_example =
    has_permission-create_child memory memory_laws table acme web acme-IsNamespace refl refl refl
      no_child_roles no_child_buckets ((refl, refl), tt) ops (codes "log.read") refl

abbrev changes : List Change
changes = grant ops granted ∷ revoke ops (codes "log.read") ∷ []

changes-AreAllowed : AreAllowed memory acme changes table
unfolding bucket list_beq get Namespaces.grant_permissions create_bucket put contains
changes-AreAllowed = ((refl, refl, cc, (refl, (refl, tt)), (refl, (refl, tt))), ((refl, refl), tt))

holds-run_changes_example :
    holds memory acme ops (codes "log.read") (run_changes memory acme changes table)
    ≡ held_after changes ops (codes "log.read") (holds memory acme ops (codes "log.read") table)
holds-run_changes_example =
    holds-run_changes memory acme memory_laws changes table ops (codes "log.read") acme-IsNamespace
      changes-AreAllowed refl

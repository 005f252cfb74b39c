-- ===== src/Executor/Create.antt =====
-- CREATE NAMESPACE: who may create a namespace, and what becomes of the request.
use kappa.Base.{
  Bytes, codes, List, [], ◌∷◌, ◌++◌, Bool, true, false, ◌||◌, none, some, ◌≡◌, ◌∙◌, ap, refl, arith,
  ◌==◌, nat_eq, list_eq, list_beq, if◌then◌else◌, contains, nonempty, suc, Option-cases, Bool-cases,
  eq_refl, inl, inr,
}
use kappa.Text.{dot, last_index, drop, fields}
use kappa.Text.Dots.{last_index-lacks, last_index-cut}
use kappa.Bolt.{Bolt, BoltLaws, Location}
use kappa.Bolt.Laws.{get-saved_create, bucket-saved_create_ne, bucket-saved_create, error-create}
use kappa.Namespaces
use kappa.Namespaces.{bucket_of, roles_of, has_permission}
use kappa.Namespaces.Shape.{IsNamespace, stored_permissions, with_roles, IsNamespace-with_roles}
use kappa.Namespaces.Permissions.{has_permission-eq-contains}
use kappa.Namespaces.Lifecycle.{found, get-found}
use kappa.Users
use kappa.Skl.{create_namespace_statement, is_root_namespace}
use kappa.Executor.{
  Executor, Reply, fail, unauthorized, execute, handle_create_namespace, scan_roles, parent_of,
  handle_create_root_namespace, created,
}

-- A namespace that is no root namespace is its parent's name, a period, and a part with no period.
pub parent_of-cut :
    (name : Bytes)
    → is_root_namespace name ≡ false
    → (last : Bytes) × (parent_of name ++ dot ∷ last ≡ name) × (contains dot last ≡ false)
unfolding is_root_namespace parent_of
parent_of-cut name h = elim (Option-cases (last_index dot name)) [
  | inl e ↦ absurd (ground (arith, last_index-lacks dot name e))
  | inr (i, e) ↦
      let (whole, lacking) = last_index-cut dot name i e in (drop (suc i) name, rw e whole, lacking)
]

-- Some role of the list has the permission in the namespace.
abbrev pub any_permits : (b : Bolt) → Bytes → Bytes → List Bytes → b.Db → Bool
any_permits b parent permission [] db = false
any_permits b parent permission (role ∷ roles) db =
    (has_permission b parent role permission db).0 || any_permits b parent permission roles db

roles-ne-bucket : (name m : Bytes) → (roles_of name == bucket_of m) ≡ false
unfolding list_beq
roles-ne-bucket name m = ground arith

module _ (b : Bolt) (law : BoltLaws b) (parent permission : Bytes) where
  any_permits-with_roles :
      (roles : List Bytes) (db : b.Db)
      → IsNamespace b db parent
      → any_permits b parent permission roles (with_roles b db parent)
        ≡ any_permits b parent permission roles db
  any_permits-with_roles [] db s = refl
  any_permits-with_roles (role ∷ roles) db s = rw (
    has_permission-eq-contains b law db parent s role permission,
    has_permission-eq-contains b law (with_roles b db parent) parent
        (IsNamespace-with_roles b law db parent s parent) role permission,
    get-saved_create law db (roles_of parent) (role ∷ roles_of parent),
    any_permits-with_roles roles db s,
  )

  scan_step :
      (role : Bytes) (roles : List Bytes) (access : Bool) (db : b.Db)
      → IsNamespace b db parent
      → scan_roles b parent permission (role ∷ roles) access db
        ≡ scan_roles b parent permission roles
            (if contains permission (fields (stored_permissions b db parent role))
              then true
              else access)
            (with_roles b db parent)
  unfolding scan_roles
  scan_step role roles access db s =
      ap
        (λ (p : Bool × b.Db).
          scan_roles b parent permission roles (if p.0 then true else access) p.1)
        (has_permission-eq-contains b law db parent s role permission)

  -- The scan finds a permission where some role has it, and makes or loses no namespace.
  pub scan_roles_lem :
      (roles : List Bytes) (access : Bool) (db : b.Db) (m : Bytes) (q : Location)
      → IsNamespace b db parent
      → ((scan_roles b parent permission roles access db).0
          ≡ (access || any_permits b parent permission roles db))
        × (b.bucket (scan_roles b parent permission roles access db).1 (bucket_of m)
            ≡ b.bucket db (bucket_of m))
        × (b.get (scan_roles b parent permission roles access db).1 q ≡ b.get db q)
        × IsNamespace b (scan_roles b parent permission roles access db).1 parent
  unfolding scan_roles
  scan_roles_lem [] access db m q s = (ground arith, refl, refl, s)
  scan_roles_lem (role ∷ roles) access db m q s =
      rw
        (
          scan_step role roles access db s,
          has_permission-eq-contains b law db parent s role permission,
        )
        (let w = IsNamespace-with_roles b law db parent s parent in
          let here = contains permission (fields (stored_permissions b db parent role)) in
          let (found, bucket, get, n) =
            scan_roles_lem roles (if here then true else access) (with_roles b db parent) m q w in
          (
            found ∙ rw (any_permits-with_roles roles db s) (ground arith),
            bucket
                ∙ bucket-saved_create_ne law db (roles_of parent) (bucket_of m)
                    (roles-ne-bucket parent m),
            get ∙ get-saved_create law db (roles_of parent) q,
            n,
          ))

abbrev pub denied : Bytes → Reply
denied name = fail unauthorized (codes "cannot create namespace '%s'") (name ∷ [])

abbrev pub root_reply : Bool → Reply
root_reply true = created
root_reply false =
    fail unauthorized (codes "root namespaces can only be created by the admin account") []

module _ (b : Bolt) (law : BoltLaws b) (e : Executor b) (user name : Bytes) where
  -- A root namespace is created exactly where the user is the admin, and the reply says so, or that only
  -- the admin may. The namespace did not exist, its name is not blank and no value is stored under it,
  -- the session has a user, and the namespace store opens.
  pub create_root :
      e.user ≡ some user
      → e.store_open ≡ true
      → is_root_namespace name ≡ true
      → nonempty name ≡ true
      → b.bucket e.namespaces (bucket_of name) ≡ false
      → b.get e.namespaces (bucket_of name) ≡ none
      → (b.bucket (execute b (create_namespace_statement name) e).namespaces (bucket_of name)
          ≡ Users.is_admin user)
        × ((execute b (create_namespace_statement name) e).output
            ≡ e.output ++ root_reply (Users.is_admin user) ∷ [])
  unfolding execute handle_create_namespace handle_create_root_namespace Namespaces.create
  create_root has_user is_open root named missing free =
      rw
        (
          has_user,
          is_open,
          get-found b law e.namespaces name,
          missing,
          root,
          law.write_tx_runs,
          error-create law e.namespaces name [] (law.bucket_root e.namespaces) named free,
        )
        (elim (Bool-cases (Users.is_admin user)) [
          | inl admin ↦
              rw
                (
                  admin,
                  bucket-saved_create law e.namespaces name [] (law.bucket_root e.namespaces) named
                      free (bucket_of name),
                  eq_refl {A = Location} (bucket_of name),
                )
                (refl, refl)
          | inr plain ↦ rw plain (missing, refl)
        ])

-- ===== src/Namespaces.antt =====
-- datamodel/namespaces.go: the namespaces, with their users and their roles' permissions, as functions
-- on the contents of the namespace keyspace. A `boltNamespace` is its name. An operation gives its
-- result and the new contents.
-- Where the source writes `roles, err := ...` inside a transaction, that `err` is a new variable, so an
-- error of the database is lost and the method returns nil: the model returns `none` there too.
pub mod Users
pub mod Shape
pub mod Roles
pub mod Permissions
pub mod Grants
pub mod Lifecycle
pub mod Growth
pub mod Children
pub mod Copies
pub mod ChildRoles
use kappa.Base.{
  ℕ, Bytes, codes, List, [], ◌∷◌, map, Bool, true, false, Option, none, some, ◌==◌, nat_eq, list_eq,
  if◌then◌else◌, nonempty, contains, State, ◌>>=◌, ◌>>◌, pure, gets, attempt,
}
use kappa.Text.{comma, join, value_of, fields, add_field, remove_field}
use kappa.Bolt.{Location, Bolt}

pub data NamespaceError (E : Type 0) : Type 0 where
  namespace_does_not_exist : NamespaceError E
  database : E → NamespaceError E

abbrev pub users_key : Bytes
users_key = codes "users"

abbrev pub roles_key : Bytes
roles_key = codes "roles"

abbrev pub bucket_of : Bytes → Location
bucket_of name = name ∷ []

abbrev pub users_of : Bytes → Location
users_of name = users_key ∷ name ∷ []

abbrev pub roles_of : Bytes → Location
roles_of name = roles_key ∷ name ∷ []

module _ (b : Bolt) where
  abbrev pub Failure : Type 0
  Failure = Option (NamespaceError b.Error)

  -- a `(Namespace, error)` pair
  abbrev pub Opened : Type 0
  Opened = Option Bytes × Failure

  abbrev opened : Bytes → Option b.Error → Opened
  opened name none = (some name, none)
  opened name (some e) = (none, some (database e))

  -- boltNamespaceStore
  unfoldable pub create : Bytes → State b.Db Opened
  create name =
      b.write_tx Opened (none, none)
        (do e ← attempt (λ db. b.create_bucket db (bucket_of name)); pure (opened name e))

  unfoldable pub get : Bytes → b.Db → Opened
  get name =
      b.read_tx Opened (none, none)
        λ db.
          if b.bucket db (bucket_of name)
          then (some name, none)
          else (none, some namespace_does_not_exist)

  -- the names that the channel hands over before it is closed
  -- The names that the channel gives until it is closed; `none` where it is never closed, since the
  -- transaction in which it is closed does not begin.
  unfoldable pub stream : b.Db → Option (List Bytes)
  stream = b.read_tx (Option (List Bytes)) none λ db. some (map (λ e. e.0) (b.entries db []))

  abbrev failure : Option b.Error → Failure
  failure none = none
  failure (some e) = some (database e)

  unfoldable pub delete : Bytes → State b.Db Failure
  delete name =
      b.write_tx Failure none
        (do e ← attempt (λ db. b.delete_bucket db (bucket_of name)); pure (failure e))

  -- `ns := bkt.Bucket(b.name)`, and an early return where it is nil
  abbrev pub in_namespace : {A : Type 0} → A → Bytes → State b.Db A → State b.Db A
  in_namespace missing name body db =
      if b.bucket db (bucket_of name) then body db else (missing, db)

  abbrev pub unless_failed :
      {A : Type 0} → Option b.Error → (b.Error → A) → State b.Db A → State b.Db A
  unless_failed none failed body = body
  unless_failed (some e) failed body = pure (failed e)

  -- and then `roles, err := ns.CreateBucketIfNotExists("roles")`
  abbrev pub in_roles : {A : Type 0} → A → A → Bytes → State b.Db A → State b.Db A
  in_roles missing failed name body = in_namespace missing name (do
    e ← attempt (λ db. b.create_bucket db (roles_of name))
    unless_failed e (λ _. failed) body)

  unfoldable pub users : Bytes → b.Db → List Bytes
  users name = b.read_tx (List Bytes) [] λ db.
      if b.bucket db (bucket_of name) then fields (value_of (b.get db (users_of name))) else []

  unfoldable pub has_access : Bytes → Bytes → b.Db → Bool
  has_access name username = b.read_tx Bool false λ db.
      if b.bucket db (bucket_of name)
      then contains username (fields (value_of (b.get db (users_of name))))
      else false

  unfoldable pub add_user : Bytes → Bytes → State b.Db Failure
  add_user name username = b.write_tx Failure none (
      in_namespace (some namespace_does_not_exist) name (do
        v ← gets (λ db. value_of (b.get db (users_of name)))
        attempt (λ db. b.put db (users_of name) (add_field v username))
        pure none))

  unfoldable pub remove_user : Bytes → Bytes → State b.Db Failure
  remove_user name username = b.write_tx Failure none (
      in_namespace (some namespace_does_not_exist) name (do
        v ← gets (λ db. value_of (b.get db (users_of name)))
        if nonempty v
            then (do attempt (λ db. b.put db (users_of name) (remove_field v username)); pure none)
            else pure none))

  abbrev unless_held : Option Bytes → State b.Db (Option b.Error) → State b.Db (Option b.Error)
  unless_held none body = body
  unless_held (some v) body = pure none

  unfoldable pub add_role : Bytes → Bytes → State b.Db Failure
  add_role name role = b.write_tx Failure none (
      in_roles (some namespace_does_not_exist) none name (do
        v ← gets (λ db. b.get db (role ∷ roles_of name))
        unless_held v (attempt (λ db. b.put db (role ∷ roles_of name) []))
        pure none))

  unfoldable pub remove_role : Bytes → Bytes → State b.Db Failure
  remove_role name role = b.write_tx Failure none (
      in_roles (some namespace_does_not_exist) none name
        (do attempt (λ db. b.delete db (role ∷ roles_of name)); pure none))

  unfoldable pub roles : Bytes → State b.Db (List Bytes)
  roles name =
      b.write_tx (List Bytes) []
        (in_roles [] [] name (gets (λ db. map (λ e. e.0) (b.entries db (roles_of name)))))

  unfoldable pub grant_permissions : Bytes → Bytes → List Bytes → State b.Db Failure
  grant_permissions name role permissions = b.write_tx Failure none (
      in_roles (some namespace_does_not_exist) none name (do
        v ← gets (λ db. value_of (b.get db (role ∷ roles_of name)))
        attempt (λ db. b.put db (role ∷ roles_of name) (add_field v (join comma permissions)))
        pure none))

  unfoldable pub revoke_permission : Bytes → Bytes → Bytes → State b.Db Failure
  revoke_permission name role permission = b.write_tx Failure none (
      in_roles (some namespace_does_not_exist) none name (do
        v ← gets (λ db. value_of (b.get db (role ∷ roles_of name)))
        if nonempty v
            then (do
              attempt (λ db. b.put db (role ∷ roles_of name) (remove_field v permission))
              pure none)
            else pure none))

  unfoldable pub has_permission : Bytes → Bytes → Bytes → State b.Db Bool
  has_permission name role permission = b.write_tx Bool false (
      in_roles false false name
        (gets (λ db. contains permission (fields (value_of (b.get db (role ∷ roles_of name)))))))

  abbrev pub carry_on : Option b.Error → State b.Db (Option b.Error) → State b.Db (Option b.Error)
  carry_on none rest = rest
  carry_on (some e) rest = pure (some e)

  -- The copy stops at the first error; a nested bucket has no value, and is copied as an empty one.
  unfoldable pub copy_entries : List (Bytes × Option Bytes) → Location → State b.Db (Option b.Error)
  copy_entries [] into = pure none
  copy_entries ((k, v) ∷ es) into = do
    e ← attempt (λ db. b.put db (k ∷ into) (value_of v))
    carry_on e (copy_entries es into)

  abbrev refused : b.Error → Opened
  refused e = (none, some (database e))

  -- The users are put under the key that their own list spells, and not under "users".
  unfoldable pub create_child : Bytes → Bytes → State b.Db Opened
  unfolding copy_entries
  create_child name child =
      b.write_tx Opened (none, none)
        (in_namespace (none, some namespace_does_not_exist) name
          (do
            e ← attempt (λ db. b.create_bucket db (bucket_of child))
            unless_failed e refused (do
              e' ← attempt (λ db. b.create_bucket db (roles_of name))
              unless_failed e' refused (do
                e'' ← attempt (λ db. b.create_bucket db (roles_of child))
                unless_failed e'' refused (do
                  es ← gets (λ db. b.entries db (roles_of name))
                  copy_entries es (roles_of child)
                  v ← gets (λ db. value_of (b.get db (users_of name)))
                  attempt (λ db. b.put db (v ∷ bucket_of child) v)
                  pure (some child, none))))))

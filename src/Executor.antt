-- ===== src/Executor.antt =====
-- executor/executor.go: statements run for a session, over the user store and the namespace store.
-- What is written to the client is a list of replies, the latest last; a reply keeps its status code,
-- its format and its arguments (common/codes.go, and Fail and Success of common/writer.go). The
-- executor's state has the contents of both keyspaces, and whether the database opens the namespace
-- keyspace. The type assertions of the handlers hold for the statements of skl/ast.go.
pub mod Use
pub mod Show
pub mod Create
pub mod SubNamespaces
pub mod Runs
pub mod Replies
pub mod Logins
use kappa.Base.{
  ℕ, Bytes, codes, List, [], ◌∷◌, ◌++◌, map, Bool, true, false, not, Option, none, some, nat_eq,
  list_eq, if◌then◌else◌, contains, State, ◌>>=◌, ◌>>◌, pure,
}
use kappa.Text.{dot, last_index, take}
use kappa.Bolt.{Bolt}
use kappa.Namespaces
use kappa.Namespaces.{NamespaceError, namespace_does_not_exist}
use kappa.Users
use kappa.Skl.{
  Statement, use_statement, create_namespace_statement, drop_namespace_statement,
  show_namespaces_statement, required_permissions, is_root_namespace,
}

pub data StatusCode : Type 0 where
  ok_code namespace_already_exists user_already_exists : StatusCode
  unauthorized : StatusCode
  internal_server_error invalid_statement_type namespace_does_not_exist_code : StatusCode
  user_does_not_exist_code create_namespace_error : StatusCode

pub data Reply : Type 0 where
  success : StatusCode → Bytes → List Bytes → Reply
  fail : StatusCode → Bytes → List Bytes → Reply
  written : Bytes → Reply

abbrev pub no_access : Reply
no_access = fail internal_server_error (codes "could not access namespace data") []

abbrev pub created : Reply
created = success ok_code (codes "namespace created") []

-- ANSI colours of common/writer.go
abbrev pub light_yellow : Bytes
light_yellow = 27 ∷ codes "[93m"

abbrev pub yellow : Bytes
yellow = 27 ∷ codes "[33m"

abbrev pub reset : Bytes
reset = 27 ∷ codes "[0m"

-- A statement that never comes to its end: it waits for ever, or it panics.
pub data Halt : Type 0 where
  waits panics : Halt

pub record Executor (b : Bolt) : Type 0 where
  pub namespace : Bytes
  pub user : Option Bytes
  pub prompt : Bytes
  pub users : b.Db
  pub namespaces : b.Db
  pub store_open : Bool
  pub output : List Reply
  pub halted : Option Halt

-- `namespace[:index]`; there is an index, since only a root namespace has no period
abbrev pub parent_at : Bytes → Option ℕ → Bytes
parent_at name none = []
parent_at name (some index) = take index name

unfoldable pub parent_of : Bytes → Bytes
unfolding last_index
parent_of name = parent_at name (last_index dot name)

module _ (b : Bolt) where
  abbrev pub say : Reply → Executor b → Executor b
  say r e = record e { output = e.output ++ r ∷ [] }

  abbrev pub say_all : List Reply → Executor b → Executor b
  say_all rs e = record e { output = e.output ++ rs }

  abbrev pub halt : Halt → Executor b → Executor b
  halt h e = record e { halted = some h }

  abbrev pub prompt_of : Bytes → Bytes
  prompt_of name = codes "kappa: " ++ name ++ codes "> "

  abbrev pub enter : Bytes → Executor b → Executor b
  enter name e =
      say (success ok_code [] []) (record e { namespace = name; prompt = prompt_of name })

  -- the test on the session's user, and then the loop over the user's namespaces
  abbrev pub admit_user : Bytes → Bytes → Executor b → Executor b
  admit_user name user e =
      if Users.is_admin user
      then enter name e
      else let (list, users') = Users.namespaces b user e.users in
        let e' : Executor b = record e { users = users' } in
        if contains name list then enter name e' else say (fail unauthorized [] []) e'

  abbrev pub use_found : Bytes → Bytes → Executor b → Option (NamespaceError b.Error) → Executor b
  use_found name user e none = admit_user name user e
  use_found name user e (some namespace_does_not_exist) =
      say (fail namespace_does_not_exist_code name []) e
  use_found name user e (some (Namespaces.database x)) = say no_access e

  unfoldable pub handle_use_statement : Bytes → Bytes → Executor b → Executor b
  handle_use_statement name user e =
      if not e.store_open
      then say no_access e
      else use_found name user e (Namespaces.get b name e.namespaces).1

  abbrev pub is_nil : {A : Type 0} → Option A → Bool
  is_nil none = true
  is_nil (some a) = false

  unfoldable pub namespace_already_exists? : Bytes → b.Db → Bool
  namespace_already_exists? name db = is_nil (Namespaces.get b name db).1

  abbrev pub finish : Bytes → Option (NamespaceError b.Error) → Executor b → Executor b
  finish name none e = say created e
  finish name (some x) e =
      say (fail create_namespace_error (codes "cannot create namespace '%s'") (name ∷ [])) e

  unfoldable pub handle_create_root_namespace : Bytes → Bytes → Executor b → Executor b
  unfolding namespace_already_exists?
  handle_create_root_namespace name user e =
      if namespace_already_exists? name e.namespaces
      then say (success namespace_already_exists name []) e
      else if Users.is_admin user
      then (let (r, db) = Namespaces.create b name e.namespaces in
          let e' : Executor b = record e { namespaces = db } in
          if is_nil r.1
          then say created e'
          else say
              (fail create_namespace_error (codes "could not create namespace '%s'") (name ∷ []))
              e')
      else say
          (fail unauthorized (codes "root namespaces can only be created by the admin account") [])
          e

  -- The loop does not stop at the first role that has the permission.
  unfoldable pub scan_roles : Bytes → Bytes → List Bytes → Bool → State b.Db Bool
  scan_roles parent permission [] access = pure access
  scan_roles parent permission (role ∷ roles) access = do
    allow ← Namespaces.has_permission b parent role permission
    scan_roles parent permission roles (if allow then true else access)

  -- `parent.CreateChild(namespace)`, and the reply
  abbrev pub make_child : Bytes → Bytes → Executor b → Executor b
  make_child parent name e =
      let (r, db) = Namespaces.create_child b parent name e.namespaces in
      finish name r.1 (record e { namespaces = db })

  -- Where the transaction of Get does not begin, the parent is nil with no error, and its method panics.
  abbrev pub admin_parent : Bytes → Bytes → Executor b → Namespaces.Opened b → Executor b
  admin_parent parent name e (some ns, none) = make_child parent name e
  admin_parent parent name e (none, none) = halt panics e
  admin_parent parent name e (ns, some x) =
      say (fail internal_server_error (codes "parent namespace does not exist") []) e

  abbrev pub check_roles : Bytes → Bytes → List Bytes → Executor b → Executor b
  check_roles parent name roles e =
      let (access, db) =
        scan_roles parent (required_permissions (create_namespace_statement name)) roles false
          e.namespaces in
      let e' : Executor b = record e { namespaces = db } in
      if not access
      then say (fail unauthorized (codes "cannot create namespace '%s'") (name ∷ [])) e'
      else make_child parent name e'

  -- The loop over the roles with a parent that is nil: the first HasPermission panics.
  abbrev pub nil_parent : Bytes → Bytes → List Bytes → Executor b → Executor b
  nil_parent parent name [] e = check_roles parent name [] e
  nil_parent parent name (role ∷ roles) e = halt panics e

  abbrev pub user_parent :
      Bytes → Bytes → List Bytes → Executor b → Namespaces.Opened b → Executor b
  user_parent parent name roles e (some ns, none) = check_roles parent name roles e
  user_parent parent name roles e (none, none) = nil_parent parent name roles e
  user_parent parent name roles e (ns, some namespace_does_not_exist) =
      say (fail namespace_does_not_exist_code parent []) e
  user_parent parent name roles e (ns, some (Namespaces.database x)) =
      say (fail internal_server_error [] []) e

  unfoldable pub create_sub_namespace : Bytes → Bytes → Bytes → Executor b → Executor b
  unfolding scan_roles required_permissions
  create_sub_namespace parent name user e =
      if Users.is_admin user
      then admin_parent parent name e (Namespaces.get b parent e.namespaces)
      else let (roles, users') = Users.roles b user parent e.users in
        user_parent parent name roles (record e { users = users' })
          (Namespaces.get b parent e.namespaces)

  unfoldable pub handle_create_namespace : Bytes → Bytes → Executor b → Executor b
  unfolding namespace_already_exists? parent_of
  handle_create_namespace name user e =
      if not e.store_open
      then say no_access e
      else if namespace_already_exists? name e.namespaces
      then say (success namespace_already_exists name []) e
      else if is_root_namespace name
      then handle_create_root_namespace name user e
      else create_sub_namespace (parent_of name) name user e

  abbrev pub line : Bytes → Reply
  line name = written (codes " " ++ name ++ codes "\r\n")

  abbrev pub listing : Bytes → List Bytes → List Reply
  listing color names = written color ∷ map line names ++ written reset ∷ success ok_code [] [] ∷ []

  -- The loop over the channel of names.
  abbrev pub shown : Option (List Bytes) → Executor b → Executor b
  shown (some names) e = say_all (listing light_yellow names) e
  shown none e = halt waits (say (written light_yellow) e)

  unfoldable pub handle_show_namespace : Bytes → Executor b → Executor b
  handle_show_namespace user e =
      if Users.is_admin user
      then (if not e.store_open
          then say no_access e
          else shown (Namespaces.stream b e.namespaces) e)
      else let (list, users') = Users.namespaces b user e.users in
        say_all (listing yellow list) (record e { users = users' })

  -- There is no case for DROP NAMESPACE.
  abbrev pub dispatch : Statement → Bytes → Executor b → Executor b
  dispatch (use_statement name) user e = handle_use_statement name user e
  dispatch (create_namespace_statement name) user e = handle_create_namespace name user e
  dispatch (drop_namespace_statement name) user e = e
  dispatch show_namespaces_statement user e = handle_show_namespace user e

  abbrev pub for_user : Statement → Executor b → Option Bytes → Executor b
  for_user stmt e none =
      say (fail internal_server_error (codes "could not determine session user") []) e
  for_user stmt e (some user) = dispatch stmt user e

  unfoldable pub execute : Statement → Executor b → Executor b
  execute stmt e = for_user stmt e e.user

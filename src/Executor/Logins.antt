-- ===== src/Executor/Logins.antt =====
-- Statements, and who may log in.
use kappa.Base.{
  Bytes, List, [], ◌∷◌, false, Option, none, some, ◌≡◌, ◌∙◌, refl, arith, ◌==◌, nat_eq, list_eq,
  list_beq, gets,
}
use kappa.Bolt.{Location, Bolt, BoltLaws}
use kappa.Bolt.Laws.{get-saved_create, bucket-saved_create_ne}
use kappa.Users
use kappa.Users.{Crypto, keys_key, bucket_of, in_nested, after, validate_password}
use kappa.Ssh.{public_key_callback}
use kappa.Ssh.Accounts.{IsUnchanged, log_in-unchanged}
use kappa.Skl.{
  Statement, use_statement, create_namespace_statement, drop_namespace_statement,
  show_namespaces_statement,
}
use kappa.Executor.{
  Executor, for_user, execute, handle_use_statement, handle_create_namespace, create_sub_namespace,
  handle_create_root_namespace, handle_show_namespace, parent_of,
}
use kappa.Executor.Runs.{run, unless_halted-both}

nested-ne-bucket_of :
    (nested user name : Bytes) → ((nested ∷ bucket_of user) == bucket_of name) ≡ false
unfolding list_beq
nested-ne-bucket_of nested user name = ground arith

module _ (b : Bolt) (law : BoltLaws b) where
  -- The same values, and the same users.
  record IsKept (db db' : b.Db) : Type 0 where
    values : (l : Location) → b.get db' l ≡ b.get db l
    users : (name : Bytes) → b.bucket db' (bucket_of name) ≡ b.bucket db (bucket_of name)

  after-state :
      {A : Type 0} (failed : A) (read : b.Db → A) (e : Option b.Error) (db : b.Db)
      → (after b failed (gets read) e db).1 ≡ db
  after-state failed read none db = refl
  after-state failed read (some e) db = refl

  module _ {A : Type 0} (missing failed : A) (nested user : Bytes) (read : b.Db → A)
      (db : b.Db) where
    abbrev opened : b.Db
    opened = (in_nested b missing failed nested user (gets read) db).1

    in_nested-IsKept : IsKept db opened
    in_nested-IsKept = record {
      values = λ l.
          ground
            (arith, after-state failed read, get-saved_create law db (nested ∷ bucket_of user) l);
      users = λ name. ground (
        arith,
        after-state failed read,
        bucket-saved_create_ne law db (nested ∷ bucket_of user) (bucket_of name)
            (nested-ne-bucket_of nested user name),
      );
    }

  roles-IsKept :
      (user namespace : Bytes) (db : b.Db) → IsKept db (Users.roles b user namespace db).1
  unfolding Users.roles
  roles-IsKept user namespace db =
      rw law.write_tx_runs (in_nested-IsKept [] [] Users.namespaces_key user _ db)

  namespaces-IsKept : (user : Bytes) (db : b.Db) → IsKept db (Users.namespaces b user db).1
  unfolding Users.namespaces
  namespaces-IsKept user db =
      rw law.write_tx_runs (in_nested-IsKept [] [] Users.namespaces_key user _ db)

  IsKept-refl : (db : b.Db) → IsKept db db
  IsKept-refl db = record { values = λ l. refl; users = λ name. refl }

  IsKept-trans : (d d' d'' : b.Db) → IsKept d d' → IsKept d' d'' → IsKept d d''
  IsKept-trans d d' d'' h k = record {
    values = λ l. k.values l ∙ h.values l;
    users = λ name. k.users name ∙ h.users name;
  }

  -- The user store behind a statement is the one before it, or the one behind a read of a user's roles.
  for_user-users :
      (P : b.Db → Type 0) (stmt : Statement) (e : Executor b) (u : Option Bytes)
      → P e.users
      → ((user namespace : Bytes) → P (Users.roles b user namespace e.users).1)
      → ((user : Bytes) → P (Users.namespaces b user e.users).1)
      → P (for_user b stmt e u).users
  unfolding handle_use_statement handle_create_namespace create_sub_namespace
      handle_create_root_namespace handle_show_namespace
  for_user-users P stmt e none same roles names = same
  for_user-users P (use_statement name) e (some user) same roles names =
      ground (arith, same, names user)
  for_user-users P (create_namespace_statement name) e (some user) same roles names =
      ground (arith, same, roles user (parent_of name))
  for_user-users P (drop_namespace_statement name) e (some user) same roles names = same
  for_user-users P show_namespaces_statement e (some user) same roles names =
      ground (arith, same, names user)

  execute-IsKept : (stmt : Statement) (e : Executor b) → IsKept e.users (execute b stmt e).users
  unfolding execute
  execute-IsKept stmt e =
      for_user-users (λ db. IsKept e.users db) stmt e e.user (IsKept-refl e.users)
        (λ user namespace. roles-IsKept user namespace e.users)
        (λ user. namespaces-IsKept user e.users)

  run-IsKept : (stmts : List Statement) (e : Executor b) → IsKept e.users (run b law stmts e).users
  unfolding run
  run-IsKept [] e = IsKept-refl e.users
  run-IsKept (stmt ∷ stmts) e =
      let e' : Executor b = execute b stmt e in
      unless_halted-both b law (λ last. IsKept e.users last.users) e'.halted (run b law stmts e') e'
        (IsKept-trans e.users e'.users (run b law stmts e').users (execute-IsKept stmt e)
          (run-IsKept stmts e'))
        (execute-IsKept stmt e)

  module _ (c : Crypto) (db db' : b.Db) (k : IsKept db db') (name : Bytes) where
    validate_password-IsKept :
        (password : Bytes)
        → validate_password b c name password db' ≡ validate_password b c name password db
    unfolding validate_password
    validate_password-IsKept password =
        rw
          (
            law.read_tx_runs,
            law.read_tx_runs,
            k.users name,
            k.values (Users.salt_key ∷ bucket_of name),
            k.values (Users.password_key ∷ bucket_of name),
          )
          refl

    unchanged : IsUnchanged b db db' name
    unchanged = record {
      exists = k.users name;
      ring = k.values (keys_key ∷ bucket_of name);
      keys = λ entry. k.values (entry ∷ Users.keys_of name);
    }

  -- No run of statements changes who may log in: the callback for a public key answers as before, and so
  -- does the check of a password, for every user, also one that does not exist. No value stands where the
  -- user's key ring belongs.
  pub log_in-run :
      (c : Crypto) (stmts : List Statement) (e : Executor b) (name key password : Bytes)
      → b.get e.users (keys_key ∷ bucket_of name) ≡ none
      → ((public_key_callback b c name key (run b law stmts e).users).0
          ≡ (public_key_callback b c name key e.users).0)
        × (validate_password b c name password (run b law stmts e).users
            ≡ validate_password b c name password e.users)
  log_in-run c stmts e name key password free = (
    log_in-unchanged b law c e.users (run b law stmts e).users name key
        (unchanged c e.users (run b law stmts e).users (run-IsKept stmts e) name) free,
    validate_password-IsKept c e.users (run b law stmts e).users (run-IsKept stmts e) name password,
  )

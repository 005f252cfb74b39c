-- ===== src/Executor/Replies.antt =====
-- What the client is answered.
use kappa.Base.{
  Bytes, codes, List, [], ◌∷◌, ◌++◌, map, Bool, true, false, not, Option, none, some, ◌≡◌, ◌≢◌,
  refl, ap, if◌then◌else◌, contains, nat_eq, list_eq,
}
use kappa.Bolt.{Bolt, BoltLaws}
use kappa.Namespaces
use kappa.Namespaces.{NamespaceError, namespace_does_not_exist, Opened}
use kappa.Namespaces.Lifecycle.{found, get-found, stream_runs}
use kappa.Users
use kappa.Skl.{
  Statement, use_statement, create_namespace_statement, drop_namespace_statement,
  show_namespaces_statement, required_permissions, is_root_namespace, node_type,
  drop_namespace_type,
}
use kappa.Executor.{
  Executor, Reply, success, fail, written, line, light_yellow, yellow, reset, say, say_all, created,
  no_access, create_namespace_error, unauthorized, namespace_does_not_exist_code,
  internal_server_error, namespace_already_exists, ok_code, execute, for_user, finish, listing,
  is_nil, make_child, use_found, admit_user, check_roles, user_parent, admin_parent,
  handle_use_statement, handle_create_namespace, create_sub_namespace, handle_create_root_namespace,
  handle_show_namespace, scan_roles, namespace_already_exists?, parent_of,
}

abbrev is_status : Reply → Bool
is_status (success code format args) = true
is_status (fail code format args) = true
is_status (written s) = false

-- The last of the replies is a status.
abbrev pub ends_in_status : List Reply → Bool
ends_in_status [] = false
ends_in_status (r ∷ []) = is_status r
ends_in_status (r ∷ s ∷ rs) = ends_in_status (s ∷ rs)

ends_in_status-append :
    (xs : List Reply) (s r : Reply) → is_status r ≡ true → ends_in_status (xs ++ s ∷ r ∷ []) ≡ true
ends_in_status-append [] s r h = h
ends_in_status-append (x ∷ []) s r h = h
ends_in_status-append (x ∷ y ∷ xs) s r h = ends_in_status-append (y ∷ xs) s r h

module _ (b : Bolt) (law : BoltLaws b) where
  -- Replies are added, the last of them is a status, and the session neither waits for ever nor panics
  -- where it did not before.
  abbrev pub Answers : Executor b → Executor b → Type 0
  Answers e e' =
      (rs : List Reply) × (e'.output ≡ e.output ++ rs)
      × (ends_in_status rs ≡ true)
      × (e'.halted ≡ e.halted)

  if-Answers :
      (e x y : Executor b) (t : Bool) → Answers e x → Answers e y → Answers e (if t then x else y)
  if-Answers e x y true hx hy = hx
  if-Answers e x y false hx hy = hy

  module _ (e0 : Executor b) where
    said :
        (r : Reply) (e : Executor b)
        → e.output ≡ e0.output
        → e.halted ≡ e0.halted
        → is_status r ≡ true
        → Answers e0 (say b r e)
    said r e h on status = (r ∷ [], ap (λ o. o ++ r ∷ []) h, status, on)

    make_child-Answers :
        (parent name : Bytes) (e : Executor b)
        → e.output ≡ e0.output
        → e.halted ≡ e0.halted
        → Answers e0 (make_child b parent name e)
    make_child-Answers parent name e h on =
        finished (Namespaces.create_child b parent name e.namespaces).0.1
      where
        e' : Executor b
        e' = record e { namespaces = (Namespaces.create_child b parent name e.namespaces).1 }

        finished : (r : Option (NamespaceError b.Error)) → Answers e0 (finish b name r e')
        finished none = said created e' h on refl
        finished (some x) =
            said (fail create_namespace_error (codes "cannot create namespace '%s'") (name ∷ [])) e'
              h on refl

    check_roles-Answers :
        (parent name : Bytes) (roles : List Bytes) (e : Executor b)
        → e.output ≡ e0.output
        → e.halted ≡ e0.halted
        → Answers e0 (check_roles b parent name roles e)
    check_roles-Answers parent name roles e h on =
        let scanned =
          scan_roles b parent (required_permissions (create_namespace_statement name)) roles false
            e.namespaces in
        let e' : Executor b = record e { namespaces = scanned.1 } in
        if-Answers e0 _ _ (not scanned.0)
          (said (fail unauthorized (codes "cannot create namespace '%s'") (name ∷ [])) e' h on refl)
          (make_child-Answers parent name e' h on)

    user_parent-Answers :
        (parent name : Bytes) (roles : List Bytes) (e : Executor b) (there : Bool)
        → e.output ≡ e0.output
        → e.halted ≡ e0.halted
        → Answers e0 (user_parent b parent name roles e (found b parent there))
    user_parent-Answers parent name roles e true h on = check_roles-Answers parent name roles e h on
    user_parent-Answers parent name roles e false h on =
        said (fail namespace_does_not_exist_code parent []) e h on refl

    admin_parent-Answers :
        (parent name : Bytes) (there : Bool)
        → Answers e0 (admin_parent b parent name e0 (found b parent there))
    admin_parent-Answers parent name true = make_child-Answers parent name e0 refl refl
    admin_parent-Answers parent name false =
        said (fail internal_server_error (codes "parent namespace does not exist") []) e0 refl refl
          refl

    sub-Answers :
        (parent name user : Bytes) → Answers e0 (create_sub_namespace b parent name user e0)
    unfolding create_sub_namespace
    sub-Answers parent name user = rw (get-found b law e0.namespaces parent) (
        let there = b.bucket e0.namespaces (Namespaces.bucket_of parent) in
        if-Answers e0 _ _ (Users.is_admin user) (admin_parent-Answers parent name there) (
          user_parent-Answers parent name (Users.roles b user parent e0.users).0
            (record e0 { users = (Users.roles b user parent e0.users).1 }) there refl refl))

    root-Answers : (name user : Bytes) → Answers e0 (handle_create_root_namespace b name user e0)
    unfolding handle_create_root_namespace
    root-Answers name user =
        let (r, db) = Namespaces.create b name e0.namespaces in
        let e' : Executor b = record e0 { namespaces = db } in
        if-Answers e0 _ _ (namespace_already_exists? b name e0.namespaces)
          (said (success namespace_already_exists name []) e0 refl refl refl)
          (if-Answers e0 _ _ (Users.is_admin user)
            (if-Answers e0 _ _ (is_nil b r.1) (said created e' refl refl refl) (
              said
                (fail create_namespace_error (codes "could not create namespace '%s'") (name ∷ []))
                e' refl refl refl))
            (said
              (fail unauthorized (codes "root namespaces can only be created by the admin account")
                [])
              e0 refl refl refl))

    create-Answers : (name user : Bytes) → Answers e0 (handle_create_namespace b name user e0)
    unfolding handle_create_namespace
    create-Answers name user =
        if-Answers e0 _ _ (not e0.store_open) (said no_access e0 refl refl refl) (
          if-Answers e0 _ _ (namespace_already_exists? b name e0.namespaces)
            (said (success namespace_already_exists name []) e0 refl refl refl)
            (if-Answers e0 _ _ (is_root_namespace name) (root-Answers name user)
              (sub-Answers (parent_of name) name user)))

    admit-Answers : (name user : Bytes) → Answers e0 (admit_user b name user e0)
    admit-Answers name user =
        let (list, users') = Users.namespaces b user e0.users in
        let e' : Executor b = record e0 { users = users' } in
        if-Answers e0 _ _ (Users.is_admin user) (success ok_code [] [] ∷ [], refl, refl, refl)
          (if-Answers e0 _ _ (contains name list) (success ok_code [] [] ∷ [], refl, refl, refl)
            (said (fail unauthorized [] []) e' refl refl refl))

    use_found-Answers :
        (name user : Bytes) (r : Option (NamespaceError b.Error))
        → Answers e0 (use_found b name user e0 r)
    use_found-Answers name user none = admit-Answers name user
    use_found-Answers name user (some namespace_does_not_exist) =
        said (fail namespace_does_not_exist_code name []) e0 refl refl refl
    use_found-Answers name user (some (Namespaces.database x)) = said no_access e0 refl refl refl

    use-Answers : (name user : Bytes) → Answers e0 (handle_use_statement b name user e0)
    unfolding handle_use_statement
    use-Answers name user =
        if-Answers e0 _ _ (not e0.store_open) (said no_access e0 refl refl refl)
          (use_found-Answers name user (Namespaces.get b name e0.namespaces).1)

    listed :
        (color : Bytes) (names : List Bytes) (e : Executor b)
        → e.output ≡ e0.output
        → e.halted ≡ e0.halted
        → Answers e0 (say_all b (listing b color names) e)
    listed color names e h on = (
      listing b color names,
      ap (λ o. o ++ listing b color names) h,
      ends_in_status-append (written color ∷ map (line b) names) (written reset)
          (success ok_code [] []) refl,
      on,
    )

    show-Answers : (user : Bytes) → Answers e0 (handle_show_namespace b user e0)
    unfolding handle_show_namespace
    show-Answers user =
        if-Answers e0 _ _ (Users.is_admin user)
          (if-Answers e0 _ _ (not e0.store_open) (said no_access e0 refl refl refl) (
            rw (stream_runs b law e0.namespaces)
              (listed light_yellow (map (λ e. e.0) (b.entries e0.namespaces [])) e0 refl refl)))
          (listed yellow (Users.namespaces b user e0.users).0
            (record e0 { users = (Users.namespaces b user e0.users).1 }) refl refl)

    for_user-Answers :
        (stmt : Statement) (u : Option Bytes)
        → node_type stmt ≢ drop_namespace_type
        → Answers e0 (for_user b stmt e0 u)
    unfolding node_type
    for_user-Answers stmt none h =
        said (fail internal_server_error (codes "could not determine session user") []) e0 refl refl
          refl
    for_user-Answers (use_statement name) (some user) h = use-Answers name user
    for_user-Answers (create_namespace_statement name) (some user) h = create-Answers name user
    for_user-Answers (drop_namespace_statement name) (some user) h = absurd (h refl)
    for_user-Answers show_namespaces_statement (some user) h = show-Answers user

  -- Every statement but DROP NAMESPACE comes to its end and is answered, whatever the stores hold and whether
  -- or not the user exists or may do it: replies are put behind those that were written before, and the
  -- last of them is a status, a success or a failure.
  pub execute-Answers :
      (stmt : Statement) (e : Executor b)
      → node_type stmt ≢ drop_namespace_type
      → Answers e (execute b stmt e)
  unfolding execute
  execute-Answers stmt e h = for_user-Answers e stmt e.user h

  -- DROP NAMESPACE is not answered, and does nothing. The session has a user.
  pub execute_drop :
      (name user : Bytes) (e : Executor b)
      → e.user ≡ some user
      → execute b (drop_namespace_statement name) e ≡ e
  unfolding execute
  execute_drop name user e h = ap (for_user b (drop_namespace_statement name) e) h

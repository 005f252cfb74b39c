-- ===== src/Executor/Runs.antt =====
-- Sessions: statements one after another.
use kappa.Base.{
  Bytes, List, [], ◌∷◌, Bool, true, false, Option, none, some, ◌≡◌, ◌⊎◌, inl, inr, arith, ◌∙◌, ap,
  if◌then◌else◌, nat_eq, list_eq,
}
use kappa.Bolt.{Bolt, BoltLaws}
use kappa.Namespaces
use kappa.Namespaces.{bucket_of}
use kappa.Namespaces.Growth.{
  Grows, IsSafe, IsSafe->>=, IsSafe-pure, create-IsSafe, has_permission-IsSafe, create_child-IsSafe,
}
use kappa.Namespaces.Lifecycle.{get-found}
use kappa.Users
use kappa.Skl.{
  Statement, use_statement, create_namespace_statement, drop_namespace_statement,
  show_namespaces_statement, required_permissions,
}
use kappa.Executor.{
  Halt, Executor, for_user, execute, handle_use_statement, handle_create_namespace,
  create_sub_namespace, handle_create_root_namespace, handle_show_namespace, scan_roles, parent_of,
}

module _ (b : Bolt) (law : BoltLaws b) where
  scan_roles-IsSafe :
      (parent permission : Bytes) (roles : List Bytes) (access : Bool)
      → IsSafe b (scan_roles b parent permission roles access)
  unfolding scan_roles
  scan_roles-IsSafe parent permission [] access = IsSafe-pure b access
  scan_roles-IsSafe parent permission (role ∷ roles) access =
      IsSafe->>= b (Namespaces.has_permission b parent role permission)
        (λ allow. scan_roles b parent permission roles (if allow then true else access))
        (has_permission-IsSafe b law parent role permission)
        (λ allow. scan_roles-IsSafe parent permission roles (if allow then true else access))

  module _ (user name : Bytes) (e : Executor b) where
    use-Grows : Grows b e.namespaces (handle_use_statement b name user e).namespaces
    unfolding handle_use_statement
    use-Grows l t = ground arith

    root-Grows : Grows b e.namespaces (handle_create_root_namespace b name user e).namespaces
    unfolding handle_create_root_namespace
    root-Grows l t = ground (arith, (create-IsSafe b law name).grows e.namespaces l)

    show-Grows : Grows b e.namespaces (handle_show_namespace b user e).namespaces
    unfolding handle_show_namespace
    show-Grows l t = ground arith

    sub-Grows :
        (parent : Bytes)
        → Grows b e.namespaces (create_sub_namespace b parent name user e).namespaces
    unfolding create_sub_namespace
    sub-Grows parent l t =
        let roles = (Users.roles b user parent e.users).0 in
        let permission = required_permissions (create_namespace_statement name) in
        let scanned = (scan_roles b parent permission roles false e.namespaces).1 in
        ground (
          arith,
          (scan_roles-IsSafe parent permission roles false).grows e.namespaces l,
          (create_child-IsSafe b law parent name).grows e.namespaces l,
          (create_child-IsSafe b law parent name).grows scanned l,
        )

    create-Grows : Grows b e.namespaces (handle_create_namespace b name user e).namespaces
    unfolding handle_create_namespace
    create-Grows l t = ground (arith, root-Grows l t, sub-Grows (parent_of name) l t)

  for_user-Grows :
      (stmt : Statement) (e : Executor b) (u : Option Bytes)
      → Grows b e.namespaces (for_user b stmt e u).namespaces
  for_user-Grows stmt e none l t = t
  for_user-Grows (use_statement name) e (some user) l t = use-Grows user name e l t
  for_user-Grows (create_namespace_statement name) e (some user) l t = create-Grows user name e l t
  for_user-Grows (drop_namespace_statement name) e (some user) l t = t
  for_user-Grows show_namespaces_statement e (some user) l t = show-Grows user [] e l t

  execute-Grows :
      (stmt : Statement) (e : Executor b) → Grows b e.namespaces (execute b stmt e).namespaces
  unfolding execute
  execute-Grows stmt e = for_user-Grows stmt e e.user

  -- The session has entered no namespace, or one that exists.
  abbrev pub IsInside : Executor b → Type 0
  IsInside e = (e.namespace ≡ []) ⊎ (b.bucket e.namespaces (bucket_of e.namespace) ≡ true)

  kept-IsInside :
      (e e' : Executor b)
      → e'.namespace ≡ e.namespace
      → Grows b e.namespaces e'.namespaces
      → IsInside e
      → IsInside e'
  kept-IsInside e e' same grows (inl blank) = inl (same ∙ blank)
  kept-IsInside e e' same grows (inr there) =
      inr (
        grows (bucket_of e'.namespace) (ap (λ n. b.bucket e.namespaces (bucket_of n)) same ∙ there))

  module _ (user name : Bytes) (e : Executor b) where
    use-IsInside : IsInside e → IsInside (handle_use_statement b name user e)
    unfolding handle_use_statement
    use-IsInside h = rw (get-found b law e.namespaces name) (ground arith)

    create-namespace : (handle_create_namespace b name user e).namespace ≡ e.namespace
    unfolding handle_create_namespace handle_create_root_namespace create_sub_namespace
    create-namespace = ground arith

    show-namespace : (handle_show_namespace b user e).namespace ≡ e.namespace
    unfolding handle_show_namespace
    show-namespace = ground arith

  for_user-IsInside :
      (stmt : Statement) (e : Executor b) (u : Option Bytes)
      → IsInside e
      → IsInside (for_user b stmt e u)
  for_user-IsInside stmt e none h = h
  for_user-IsInside (use_statement name) e (some user) h = use-IsInside user name e h
  for_user-IsInside (create_namespace_statement name) e (some user) h =
      kept-IsInside e (handle_create_namespace b name user e) (create-namespace user name e)
        (create-Grows user name e) h
  for_user-IsInside (drop_namespace_statement name) e (some user) h = h
  for_user-IsInside show_namespaces_statement e (some user) h =
      kept-IsInside e (handle_show_namespace b user e) (show-namespace user [] e)
        (show-Grows user [] e) h

  -- A session that waits for ever or has panicked runs no statement more.
  abbrev pub unless_halted : Option Halt → Executor b → Executor b → Executor b
  unless_halted none next e = next
  unless_halted (some h) next e = e

  -- Statements one after another.
  unfoldable pub run : List Statement → Executor b → Executor b
  unfolding execute
  run [] e = e
  run (stmt ∷ stmts) e = let e' = execute b stmt e in unless_halted e'.halted (run stmts e') e'

  -- What holds of both holds of the session.
  pub unless_halted-both :
      (P : Executor b → Type 0) (h : Option Halt) (next e : Executor b)
      → P next
      → P e
      → P (unless_halted h next e)
  unless_halted-both P none next e p q = p
  unless_halted-both P (some h) next e p q = q

  -- Over every run of statements the session stays outside of all namespaces or in one that exists, if it
  -- was so at first, and no namespace that exists is ever lost.
  pub run-IsInside :
      (stmts : List Statement) (e : Executor b)
      → IsInside e
      → IsInside (run stmts e) × Grows b e.namespaces (run stmts e).namespaces
  unfolding run
  run-IsInside [] e h = (h, λ l t. t)
  run-IsInside (stmt ∷ stmts) e h =
      let e' : Executor b = execute b stmt e in
      let first = for_user-IsInside stmt e e.user h in
      let (inside, grows) = run-IsInside stmts e' first in
      unless_halted-both (λ last. IsInside last × Grows b e.namespaces last.namespaces) e'.halted
        (run stmts e') e' (inside, λ l t. grows l (execute-Grows stmt e l t))
        (first, execute-Grows stmt e)

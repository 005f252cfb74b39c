-- ===== src/Executor/Use.antt =====
-- USE: who may enter a namespace, and what the session and the client see.
use kappa.Base.{
  Bytes, [], ◌∷◌, ◌++◌, Bool, true, false, ◌&&◌, ◌||◌, some, ◌≡◌, arith, nat_eq, list_eq,
  if◌then◌else◌, contains,
}
use kappa.Bolt.{Bolt, BoltLaws}
use kappa.Namespaces.{bucket_of}
use kappa.Namespaces.Lifecycle.{get-found}
use kappa.Users
use kappa.Skl.{use_statement}
use kappa.Executor.{
  Executor, Reply, success, fail, ok_code, unauthorized, namespace_does_not_exist_code, execute,
  prompt_of, handle_use_statement,
}

-- The session's user is the admin, or the namespace is in the user's list.
abbrev pub may_use : (b : Bolt) → Bytes → Bytes → Executor b → Bool
may_use b name user e = Users.is_admin user || contains name (Users.namespaces b user e.users).0

abbrev pub use_reply : Bytes → Bool → Bool → Reply
use_reply name false allowed = fail namespace_does_not_exist_code name []
use_reply name true true = success ok_code [] []
use_reply name true false = fail unauthorized [] []

module _ (b : Bolt) (law : BoltLaws b) (e : Executor b) (user name : Bytes) where
  -- USE enters a namespace exactly where it exists and the user is the admin or has it in the list of
  -- namespaces: then the session and the prompt name it, and else they are as they were. One reply says
  -- which it was. The session has a user, and the namespace store opens.
  pub use_exact :
      e.user ≡ some user
      → e.store_open ≡ true
      → ((execute b (use_statement name) e).namespace ≡ (
          if b.bucket e.namespaces (bucket_of name) && may_use b name user e
          then name
          else e.namespace))
        × ((execute b (use_statement name) e).prompt ≡ (
            if b.bucket e.namespaces (bucket_of name) && may_use b name user e
            then prompt_of b name
            else e.prompt))
        × ((execute b (use_statement name) e).output
            ≡ e.output
              ++ use_reply name (b.bucket e.namespaces (bucket_of name)) (may_use b name user e)
                ∷ [])
        × ((execute b (use_statement name) e).namespaces ≡ e.namespaces)
  unfolding execute handle_use_statement
  use_exact has_user is_open =
      rw (has_user, is_open, get-found b law e.namespaces name) (ground arith)

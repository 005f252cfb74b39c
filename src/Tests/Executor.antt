-- ===== src/Tests/Executor.antt =====
-- A session of ann, who is not the admin, on the namespace acme.
use kappa.Base.{
  List, inl, Bytes, codes, [], ◌∷◌, ◌++◌, true, false, ◌&&◌, ◌||◌, none, some, ◌≡◌, refl, nat_eq,
  list_eq, list_beq, contains, if◌then◌else◌,
}
use kappa.Text.{fields}
use kappa.Bolt.Memory.{Table, bucket, get, create_bucket, memory}
use kappa.Bolt.Memory.Laws.{memory_laws}
use kappa.Namespaces
use kappa.Namespaces.{bucket_of}
use kappa.Namespaces.Shape.{IsNamespace}
use kappa.Users
use kappa.Users.Shape.{IsUser}
use kappa.Skl.{
  Statement, show_namespaces_statement, node_type, use_statement, create_namespace_statement,
  is_root_namespace,
}
use kappa.Executor.{Executor, execute, parent_of, prompt_of}
use kappa.Executor.Show.{has_line, visible, has_line-execute}
use kappa.Executor.Use.{may_use, use_reply, use_exact}
use kappa.Executor.SubNamespaces.{may_create, sub_reply, create_sub}
use kappa.Namespaces.Growth.{Grows}
use kappa.Executor.Runs.{IsInside, run, run-IsInside}
use kappa.Executor.Replies.{Answers, execute-Answers}
use kappa.Executor.Create.{root_reply, create_root}
use kappa.Executor.Logins.{log_in-run}
use kappa.Users.{validate_password}
use kappa.Ssh.{public_key_callback}
use kappa.Tests.Users.{plain_crypto}

abbrev ann : Bytes
ann = codes "ann"

abbrev acme : Bytes
acme = codes "acme"

abbrev web : Bytes
web = codes "acme.web"

abbrev users_table : Table
users_table =
    (ann ∷ [], none)
    ∷ (codes "namespaces" ∷ ann ∷ [], none)
    ∷ (acme ∷ codes "namespaces" ∷ ann ∷ [], some (codes "ops"))
    ∷ (codes "keys" ∷ ann ∷ [], none)
    ∷ (codes "6b:31" ∷ codes "keys" ∷ ann ∷ [], some (codes "k1"))
    ∷ []

abbrev names_table : Table
names_table =
    (acme ∷ [], none)
    ∷ (codes "users" ∷ acme ∷ [], some (codes "ann,bob"))
    ∷ (codes "roles" ∷ acme ∷ [], none)
    ∷ (codes "ops" ∷ codes "roles" ∷ acme ∷ [], some (codes "log.read"))
    ∷ []

abbrev session : Bytes → Executor memory
session user = record {
  namespace = [];
  user = some user;
  prompt = codes "kappa> ";
  users = users_table;
  namespaces = names_table;
  store_open = true;
  output = [];
  halted = none;
}

use_exact_example :
    ((execute memory (use_statement acme) (session ann)).namespace ≡ (
      if bucket names_table (bucket_of acme) && may_use memory acme ann (session ann)
      then acme
      else []))
    × ((execute memory (use_statement acme) (session ann)).prompt ≡ (
        if bucket names_table (bucket_of acme) && may_use memory acme ann (session ann)
        then prompt_of memory acme
        else codes "kappa> "))
    × ((execute memory (use_statement acme) (session ann)).output
        ≡ []
          ++ use_reply acme
              (bucket names_table (bucket_of acme))
              (may_use memory acme ann (session ann))
            ∷ [])
    × ((execute memory (use_statement acme) (session ann)).namespaces ≡ names_table)
use_exact_example = use_exact memory memory_laws (session ann) ann acme refl refl

acme-IsNamespace : IsNamespace memory names_table acme
unfolding bucket get list_beq
acme-IsNamespace = record { exists = refl; users_plain = refl; roles_nested = refl }

web-parent : parent_of web ≡ acme
unfolding parent_of
web-parent = refl

create_sub_example :
    (bucket
        (execute memory (create_namespace_statement web) (session ann)).namespaces
        (bucket_of web)
      ≡ may_create memory web ann (session ann))
    × ((execute memory (create_namespace_statement web) (session ann)).output
        ≡ [] ++ sub_reply web (may_create memory web ann (session ann)) ∷ [])
unfolding parent_of is_root_namespace bucket list_beq get contains
create_sub_example =
    create_sub memory memory_laws (session ann) ann web refl refl refl refl refl refl refl
      acme-IsNamespace

-- Ann has a role, and it lacks the permission.
denied_run : may_create memory web ann (session ann) ≡ false
unfolding parent_of bucket list_beq Users.is_admin Users.roles Namespaces.has_permission get
    contains create_bucket fields
denied_run = refl

create_root_example :
    (bucket
        (execute memory
          (create_namespace_statement (codes "blue"))
          (session (codes "admin"))).namespaces
        (bucket_of (codes "blue"))
      ≡ Users.is_admin (codes "admin"))
    × ((execute memory (create_namespace_statement (codes "blue")) (session (codes "admin"))).output
        ≡ [] ++ root_reply (Users.is_admin (codes "admin")) ∷ [])
unfolding is_root_namespace bucket get list_beq contains
create_root_example =
    create_root memory memory_laws (session (codes "admin")) (codes "admin") (codes "blue") refl
      refl refl refl refl refl

abbrev statements : List Statement
statements = use_statement acme ∷ create_namespace_statement web ∷ show_namespaces_statement ∷ []

run-IsInside_example :
    IsInside memory memory_laws (run memory memory_laws statements (session ann))
    × Grows memory names_table (run memory memory_laws statements (session ann)).namespaces
run-IsInside_example = run-IsInside memory memory_laws statements (session ann) (inl refl)

execute-Answers_example :
    Answers memory memory_laws (session ann) (execute memory (use_statement acme) (session ann))
unfolding node_type
execute-Answers_example =
    execute-Answers memory memory_laws (use_statement acme) (session ann) (λ e. cc)

ann-IsUser : IsUser memory users_table Users.namespaces_key ann
unfolding bucket get list_beq
ann-IsUser = record { exists = refl; free = refl }

has_line-execute_example :
    (has_line acme (execute memory show_namespaces_statement (session ann)).output
      ≡ (has_line acme [] || visible memory ann (session ann) acme))
    × ((execute memory show_namespaces_statement (session ann)).halted ≡ none)
has_line-execute_example =
    has_line-execute memory memory_laws (session ann) ann acme refl refl (λ e. ann-IsUser)

-- Ann is shown acme, in which she has a role.
shown_run : visible memory ann (session ann) acme ≡ true
unfolding bucket get list_beq Users.is_admin
shown_run = refl

log_in-run_example :
    ((public_key_callback memory plain_crypto ann
        (codes "k1")
        (run memory memory_laws statements (session ann)).users).0
      ≡ (public_key_callback memory plain_crypto ann (codes "k1") users_table).0)
    × (validate_password memory plain_crypto ann
          (codes "secret")
          (run memory memory_laws statements (session ann)).users
        ≡ validate_password memory plain_crypto ann (codes "secret") users_table)
unfolding get list_beq
log_in-run_example =
    log_in-run memory memory_laws plain_crypto statements (session ann) ann (codes "k1")
      (codes "secret") refl

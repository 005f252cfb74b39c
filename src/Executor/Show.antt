-- ===== src/Executor/Show.antt =====
-- What SHOW NAMESPACES prints.
use kappa.Base.{
  Bytes, codes, List, Option, is_present, ap, ◌∙◌, [], ◌∷◌, ◌++◌, map, Bool, true, false, ◌||◌,
  some, ◌==◌, nat_eq, list_eq, list_beq, contains, if◌then◌else◌, Bool-cases, inl, inr, ◌≡◌, refl,
  arith,
}
use kappa.Text.Parts.{same_behind}
use kappa.Bolt.{Location, Bolt, BoltLaws, entry_at}
use kappa.Users
use kappa.Users.Shape.{
  IsUser, with_nested, in_nested-runs, get-with_nested, bucket-with_nested_entry,
}
use kappa.Namespaces
use kappa.Namespaces.Lifecycle.{stream_runs}
use kappa.Namespaces.Roles.{is_some, contains-map}
use kappa.Skl.{show_namespaces_statement}
use kappa.Executor.{
  Reply, success, fail, written, ok_code, light_yellow, yellow, reset, Executor, line, listing,
  execute, handle_show_namespace,
}

-- The text of the line for a name.
abbrev line_text : Bytes → Bytes
line_text name = codes " " ++ name ++ codes "\r\n"

abbrev is_line : Bytes → Reply → Bool
is_line name (written s) = s == line_text name
is_line name (success code format args) = false
is_line name (fail code format args) = false

-- A line for the name was printed.
abbrev pub has_line : Bytes → List Reply → Bool
has_line name [] = false
has_line name (r ∷ rs) = is_line name r || has_line name rs

has_line-append :
    (name : Bytes) (rs more : List Reply)
    → has_line name (rs ++ more) ≡ (has_line name rs || has_line name more)
has_line-append name [] more = refl
has_line-append name (r ∷ rs) more = ground (arith, has_line-append name rs more)

module _ (b : Bolt) where
  has_line-lines :
      (name : Bytes) (names : List Bytes) (more : List Reply)
      → has_line name (map (line b) names ++ more) ≡ (contains name names || has_line name more)
  unfolding contains list_beq
  has_line-lines name [] more = refl
  has_line-lines name (n ∷ ns) more =
      ground (arith, same_behind n name (codes "\r\n"), has_line-lines name ns more)

  has_line-listing :
      (name color : Bytes) (names : List Bytes)
      → (color == line_text name) ≡ false
      → has_line name (listing b color names) ≡ contains name names
  unfolding list_beq
  has_line-listing name color names other =
      rw (has_line-lines name names (written reset ∷ success ok_code [] [] ∷ [])) (ground arith)

  -- A bucket or a value is there.
  abbrev pub holds : b.Db → Location → Bool
  holds db l = b.bucket db l || is_present (b.get db l)

  -- The namespaces that a session's user is shown: to the admin those of the store, to any other user those
  -- in which the user has roles.
  abbrev pub visible : Bytes → Executor b → Bytes → Bool
  visible user e name =
      if Users.is_admin user
      then holds e.namespaces (Namespaces.bucket_of name)
      else holds e.users (name ∷ Users.namespaces_of user)

  holds-entry : (t : Bool) (v : Option Bytes) → is_some (entry_at t v) ≡ (t || is_present v)
  holds-entry t v = ground arith

  module _ (law : BoltLaws b) where
    contains-names :
        (db : b.Db) (p : Location) (name : Bytes)
        → contains name (map (λ e. e.0) (b.entries db p)) ≡ holds db (name ∷ p)
    contains-names db p name =
        contains-map name (b.entries db p)
        ∙ ap is_some (law.find-entries db p name)
        ∙ holds-entry (b.bucket db (name ∷ p)) (b.get db (name ∷ p))

    module _ (db : b.Db) (user name : Bytes) (u : IsUser b db Users.namespaces_key user) where
      abbrev behind : b.Db
      behind = with_nested b db Users.namespaces_key user

      holds-behind : holds behind (name ∷ Users.namespaces_of user) ≡ (
          b.bucket db (name ∷ Users.namespaces_of user)
          || is_present (b.get db (name ∷ Users.namespaces_of user)))
      holds-behind =
          ap (λ t. t || is_present (b.get behind (name ∷ Users.namespaces_of user)))
            (bucket-with_nested_entry b law db Users.namespaces_key user u refl name)
          ∙ ap (λ v. b.bucket db (name ∷ Users.namespaces_of user) || is_present v)
              (get-with_nested b law db Users.namespaces_key user u refl
                (name ∷ Users.namespaces_of user))

      own-entries :
          Users.namespaces b user db
          ≡ (map (λ e. e.0) (b.entries behind (Users.namespaces_of user)), behind)
      unfolding Users.namespaces
      own-entries =
          rw (law.write_tx_runs, in_nested-runs b law db Users.namespaces_key user u refl [] [])

      contains-own :
          contains name (Users.namespaces b user db).0 ≡ holds db (name ∷ Users.namespaces_of user)
      contains-own =
          ap (λ (r : List Bytes × b.Db). contains name r.0) own-entries
          ∙ contains-names behind (Users.namespaces_of user) name
          ∙ holds-behind

    -- SHOW NAMESPACES prints a line for a name exactly where the name is shown to the user: to the admin
    -- where the namespace store has an entry of that name, and to any other user where the user's bucket of
    -- namespaces has one. A line that was printed before stays, and the statement comes to its end. The
    -- session has a user and runs, the namespace store can be opened, and a user who is not the admin
    -- exists, with no value where the bucket of namespaces belongs.
    pub has_line-execute :
        (e : Executor b) (user name : Bytes)
        → e.user ≡ some user
        → e.store_open ≡ true
        → (Users.is_admin user ≡ false → IsUser b e.users Users.namespaces_key user)
        → (has_line name (execute b show_namespaces_statement e).output
            ≡ (has_line name e.output || visible user e name))
          × ((execute b show_namespaces_statement e).halted ≡ e.halted)
    unfolding execute handle_show_namespace list_beq
    has_line-execute e user name h open_store exists =
        let own = (Users.namespaces b user e.users).0 in
        let names = map (λ e. e.0) (b.entries e.namespaces []) in
        elim (Bool-cases (Users.is_admin user)) [
          | inl admin ↦
              rw
                (
                  h,
                  admin,
                  open_store,
                  stream_runs b law e.namespaces,
                  has_line-append name e.output (listing b light_yellow names),
                  has_line-listing name light_yellow names refl,
                  contains-names e.namespaces [] name,
                )
                (refl, refl)
          | inr other ↦
              rw
                (
                  h,
                  other,
                  has_line-append name e.output (listing b yellow own),
                  has_line-listing name yellow own refl,
                  contains-own e.users user name (exists other),
                )
                (refl, refl)
        ]

-- ===== src/Namespaces/Growth.antt =====
-- The methods that the executor calls make buckets and delete none.
use kappa.Base.{
  Bytes, List, [], ◌∷◌, true, Option, none, some, ◌≡◌, State, ◌>>=◌, pure, gets, attempt,
  Bool-cases, inl, inr,
}
use kappa.Text.{value_of}
use kappa.Bolt.{Bolt, BoltLaws, Location}
use kappa.Bolt.Laws.{bucket-saved_create_true, bucket-saved_put}
use kappa.Namespaces.{
  bucket_of, in_namespace, unless_failed, create, has_permission, copy_entries, create_child,
  carry_on,
}

-- No bucket of `db` is gone in `db'`.
abbrev pub Grows : (b : Bolt) → b.Db → b.Db → Type 0
Grows b db db' = (l : Location) → b.bucket db l ≡ true → b.bucket db' l ≡ true

-- Whatever the contents, the action leaves every bucket in place.
pub record IsSafe (b : Bolt) {A : Type 0} (m : State b.Db A) : Type 0 where
  pub grows : (db : b.Db) → Grows b db (m db).1

module _ (b : Bolt) where
  pub IsSafe-pure : {A : Type 0} (a : A) → IsSafe b (pure {S = b.Db} a)
  IsSafe-pure a = record { grows = λ db l t. t }

  IsSafe-gets : {A : Type 0} (f : b.Db → A) → IsSafe b (gets f)
  IsSafe-gets f = record { grows = λ db l t. t }

  pub IsSafe->>= :
      {A B : Type 0} (m : State b.Db A) (f : A → State b.Db B)
      → IsSafe b m
      → ((a : A) → IsSafe b (f a))
      → IsSafe b (m >>= f)
  IsSafe->>= m f h k = record { grows = λ db l t. (k (m db).0).grows (m db).1 l (h.grows db l t) }

  IsSafe-in_namespace :
      {A : Type 0} (missing : A) (name : Bytes) (body : State b.Db A)
      → IsSafe b body
      → IsSafe b (in_namespace b missing name body)
  IsSafe-in_namespace missing name body h = record {
    grows = λ db l t. elim (Bool-cases (b.bucket db (bucket_of name))) [
      | inl there ↦ rw there (h.grows db l t)
      | inr missing' ↦ rw missing' t
    ];
  }

  IsSafe-unless_failed :
      {A : Type 0} (e : Option b.Error) (failed : b.Error → A) (body : State b.Db A)
      → IsSafe b body
      → IsSafe b (unless_failed b e failed body)
  IsSafe-unless_failed none failed body h = h
  IsSafe-unless_failed (some e) failed body h = record { grows = λ db l t. t }

  IsSafe-carry_on :
      (e : Option b.Error) (rest : State b.Db (Option b.Error))
      → IsSafe b rest
      → IsSafe b (carry_on b e rest)
  IsSafe-carry_on none rest h = h
  IsSafe-carry_on (some e) rest h = record { grows = λ db l t. t }

module _ (b : Bolt) (law : BoltLaws b) where
  IsSafe-create_bucket : (p : Location) → IsSafe b (attempt (λ db. b.create_bucket db p))
  IsSafe-create_bucket p = record { grows = λ db l t. bucket-saved_create_true law db p l t }

  IsSafe-put : (p : Location) (v : Bytes) → IsSafe b (attempt (λ db. b.put db p v))
  IsSafe-put p v = record { grows = λ db l t. rw (bucket-saved_put law db p l v) t }

  IsSafe-write_tx :
      {A : Type 0} (start : A) (body : State b.Db A)
      → IsSafe b body
      → IsSafe b (b.write_tx A start body)
  IsSafe-write_tx start body h = record { grows = λ db l t. rw law.write_tx_runs (h.grows db l t) }

  ruleset safe = (
    IsSafe-pure, IsSafe-gets, IsSafe->>=, IsSafe-in_namespace, IsSafe-unless_failed,
    IsSafe-carry_on, IsSafe-create_bucket, IsSafe-put, IsSafe-write_tx,
  )

  pub create-IsSafe : (name : Bytes) → IsSafe b (create b name)
  unfolding create
  create-IsSafe name = search (safe)

  pub has_permission-IsSafe :
      (name role permission : Bytes) → IsSafe b (has_permission b name role permission)
  unfolding has_permission
  has_permission-IsSafe name role permission = search (safe)

  copy_entries-IsSafe :
      (es : List (Bytes × Option Bytes)) (into : Location) → IsSafe b (copy_entries b es into)
  unfolding copy_entries
  copy_entries-IsSafe [] into = search (safe)
  copy_entries-IsSafe ((k, v) ∷ es) into =
      IsSafe->>= b (attempt (λ db. b.put db (k ∷ into) (value_of v)))
        (λ e. carry_on b e (copy_entries b es into)) (IsSafe-put (k ∷ into) (value_of v))
        (λ e. IsSafe-carry_on b e (copy_entries b es into) (copy_entries-IsSafe es into))

  pub create_child-IsSafe : (name child : Bytes) → IsSafe b (create_child b name child)
  unfolding create_child
  create_child-IsSafe name child = search (safe, copy_entries-IsSafe) depth 20

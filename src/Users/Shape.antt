-- ===== src/Users/Shape.antt =====
-- What a user's bucket holds, and the state behind the call that opens a bucket inside of it.
use kappa.Base.{
  Bytes, ◌∷◌, true, false, none, ◌≡◌, ◌∙◌, arith, ◌==◌, eq_iff, eq_refl, nat_eq, list_eq, list_beq,
  nonempty, State, saved, some, if◌then◌else◌,
}
use kappa.Bolt.{Location, Bolt, BoltLaws}
use kappa.Bolt.Laws.{
  get-saved_create, get-saved_put, get-saved_put_ne, get-saved_delete, get-saved_delete_ne,
  bucket-saved_put, bucket-saved_delete, bucket-saved_create_ne, bucket-saved_create_true,
  bucket-saved_create, error-create,
}
use kappa.Users.{bucket_of, in_nested}

-- The user exists, and no value stands where the bucket `nested` belongs.
pub record IsUser (b : Bolt) (db : b.Db) (nested name : Bytes) : Type 0 where
  pub exists : b.bucket db (bucket_of name) ≡ true
  pub free : b.get db (nested ∷ bucket_of name) ≡ none

-- The database behind the call that opens, or makes, the nested bucket.
abbrev pub with_nested : (b : Bolt) → b.Db → Bytes → Bytes → b.Db
with_nested b db nested name = saved (b.create_bucket db (nested ∷ bucket_of name)) db

pub entry-ne-nested :
    (k n m name : Bytes) → ((k ∷ n ∷ bucket_of name) == (m ∷ bucket_of name)) ≡ false
unfolding list_beq
entry-ne-nested k n m name = ground arith

pub nested-ne-entry :
    (k n m name : Bytes) → ((m ∷ bucket_of name) == (k ∷ n ∷ bucket_of name)) ≡ false
unfolding list_beq
nested-ne-entry k n m name = ground arith

pub entry-beq :
    (k j n name : Bytes) → ((k ∷ n ∷ bucket_of name) == (j ∷ n ∷ bucket_of name)) ≡ (k == j)
unfolding list_beq
entry-beq k j n name = ground (arith, eq_iff n n, eq_iff name name)

module _ (b : Bolt) (law : BoltLaws b) (db : b.Db) (nested name : Bytes)
    (u : IsUser b db nested name) (named : nonempty nested ≡ true) where
  pub in_nested-runs :
      {A : Type 0} (missing failed : A) (body : State b.Db A)
      → in_nested b missing failed nested name body db ≡ body (with_nested b db nested name)
  in_nested-runs missing failed body =
      rw (u.exists, error-create law db nested (bucket_of name) u.exists named u.free)

  pub bucket-with_nested : b.bucket (with_nested b db nested name) (nested ∷ bucket_of name) ≡ true
  bucket-with_nested = rw (
    bucket-saved_create law db nested (bucket_of name) u.exists named u.free
        (nested ∷ bucket_of name),
    eq_refl {A = Location} (nested ∷ bucket_of name),
  )

  pub get-with_nested : (l : Location) → b.get (with_nested b db nested name) l ≡ b.get db l
  get-with_nested l = get-saved_create law db (nested ∷ bucket_of name) l

  pub bucket-with_nested_entry :
      (k : Bytes)
      → b.bucket (with_nested b db nested name) (k ∷ nested ∷ bucket_of name)
        ≡ b.bucket db (k ∷ nested ∷ bucket_of name)
  bucket-with_nested_entry k =
      bucket-saved_create_ne law db (nested ∷ bucket_of name) (k ∷ nested ∷ bucket_of name)
        (nested-ne-entry k nested nested name)

  pub IsUser-with_nested : IsUser b (with_nested b db nested name) nested name
  IsUser-with_nested = record {
    exists = bucket-saved_create_true law db (nested ∷ bucket_of name) (bucket_of name) u.exists;
    free = rw get-with_nested u.free;
  }

-- The database behind a write to an entry of the nested bucket.
abbrev pub written : (b : Bolt) → b.Db → Bytes → Bytes → Bytes → Bytes → b.Db
written b db nested name k v =
    saved (b.put (with_nested b db nested name) (k ∷ nested ∷ bucket_of name) v)
      (with_nested b db nested name)

-- The database behind the deletion of an entry of the nested bucket.
abbrev pub removed : (b : Bolt) → b.Db → Bytes → Bytes → Bytes → b.Db
removed b db nested name k =
    saved (b.delete (with_nested b db nested name) (k ∷ nested ∷ bucket_of name))
      (with_nested b db nested name)

-- The state behind a write to an entry of the nested bucket, or a deletion of one.
module _ (b : Bolt) (law : BoltLaws b) (db : b.Db) (nested name : Bytes)
    (u : IsUser b db nested name) (named : nonempty nested ≡ true) (k : Bytes)
    (plain : b.bucket db (k ∷ nested ∷ bucket_of name) ≡ false) where
  pub IsUser-written : (v : Bytes) → IsUser b (written b db nested name k v) nested name
  IsUser-written v =
      let w = IsUser-with_nested b law db nested name u named in
      record {
        exists =
            bucket-saved_put law (with_nested b db nested name) (k ∷ nested ∷ bucket_of name) _ v
            ∙ w.exists;
        free =
            get-saved_put_ne law (with_nested b db nested name) (k ∷ nested ∷ bucket_of name) _ v
              (entry-ne-nested k nested nested name)
            ∙ w.free;
      }

  pub IsUser-removed : IsUser b (removed b db nested name k) nested name
  IsUser-removed =
      let w = IsUser-with_nested b law db nested name u named in
      record {
        exists =
            bucket-saved_delete law (with_nested b db nested name) (k ∷ nested ∷ bucket_of name) _
            ∙ w.exists;
        free =
            get-saved_delete_ne law (with_nested b db nested name) (k ∷ nested ∷ bucket_of name) _
              (entry-ne-nested k nested nested name)
            ∙ w.free;
      }

  pub get-written :
      (v j : Bytes)
      → b.fits k v ≡ true
      → b.get (written b db nested name k v) (j ∷ nested ∷ bucket_of name)
        ≡ (if k == j then some v else b.get db (j ∷ nested ∷ bucket_of name))
  get-written v j fits = rw (
    get-saved_put law (with_nested b db nested name) k (nested ∷ bucket_of name)
        (bucket-with_nested b law db nested name u named)
        (bucket-with_nested_entry b law db nested name u named k ∙ plain) v fits
        (j ∷ nested ∷ bucket_of name),
    entry-beq k j nested name,
    get-with_nested b law db nested name u named (j ∷ nested ∷ bucket_of name),
  )

  pub get-removed :
      (j : Bytes)
      → b.get (removed b db nested name k) (j ∷ nested ∷ bucket_of name)
        ≡ (if k == j then none else b.get db (j ∷ nested ∷ bucket_of name))
  get-removed j = rw (
    get-saved_delete law (with_nested b db nested name) k (nested ∷ bucket_of name)
        (bucket-with_nested b law db nested name u named)
        (bucket-with_nested_entry b law db nested name u named k ∙ plain)
        (j ∷ nested ∷ bucket_of name),
    entry-beq k j nested name,
    get-with_nested b law db nested name u named (j ∷ nested ∷ bucket_of name),
  )

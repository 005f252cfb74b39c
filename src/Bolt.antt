-- ===== src/Bolt.antt =====
-- The key-value database behind datamodel/: the calls of github.com/boltdb/bolt and of
-- github.com/eliquious/leaf, whose code is not in the repository. They are the fields of `Bolt`, and
-- what the program relies on is in `BoltLaws`. Buckets nest, so an entry is named by its `Location`:
-- its key first, then the keys of the buckets around it, the innermost first. A *bolt.Bucket is the
-- location of a bucket, and the keyspace's own bucket is [].
pub mod Laws
pub mod Memory
use kappa.Base.{
  Bytes, List, [], ◌∷◌, Bool, true, false, Option, none, some, ◌≡◌, ◌==◌, ◌||◌, nat_eq, list_eq,
  if◌then◌else◌, nonempty, Result, ok, err,
}

abbrev pub Location : Type 0
Location = List Bytes

-- An entry is a bucket, or lies inside of it.
unfoldable pub within : Location → Location → Bool
within l [] = l == []
within l (k ∷ q) = l == (k ∷ q) || within l q

-- What `ForEach` hands over for a key: its value, or nil where the key holds a bucket.
unfoldable pub find_entry : Bytes → List (Bytes × Option Bytes) → Option (Option Bytes)
find_entry k [] = none
find_entry k ((j, v) ∷ es) = if j == k then some v else find_entry k es

abbrev pub entry_at : Bool → Option Bytes → Option (Option Bytes)
entry_at true v = some none
entry_at false none = none
entry_at false (some v) = some (some v)

-- A call that fails changes nothing, and has its error as the result.
pub record Bolt : Type 1 where
  -- the contents of a keyspace
  pub Db : Type 0
  pub Error : Type 0
  -- leaf's WriteTx and ReadTx; the second argument is the result where the transaction fails to begin
  pub write_tx : (A : Type 0) → A → (Db → A × Db) → Db → A × Db
  pub read_tx : (A : Type 0) → A → (Db → A) → Db → A
  -- Bucket(name) != nil, and Get(key) with `none` for nil
  pub bucket : Db → Location → Bool
  pub get : Db → Location → Option Bytes
  -- the calls of ForEach, in order
  pub entries : Db → Location → List (Bytes × Option Bytes)
  -- CreateBucketIfNotExists, DeleteBucket, Put and Delete
  pub create_bucket : Db → Location → Result Error Db
  pub delete_bucket : Db → Location → Result Error Db
  pub put : Db → Location → Bytes → Result Error Db
  pub delete : Db → Location → Result Error Db
  -- the key and the value are within Put's limits
  pub fits : Bytes → Bytes → Bool

pub record BoltLaws (b : Bolt) : Type 1 where
  pub write_tx_runs :
      (A : Type 0) (start : A) (body : b.Db → A × b.Db) (db : b.Db)
      → b.write_tx A start body db ≡ body db
  pub read_tx_runs :
      (A : Type 0) (start : A) (body : b.Db → A) (db : b.Db) → b.read_tx A start body db ≡ body db
  pub bucket_root : (db : b.Db) → b.bucket db [] ≡ true
  pub create_ok :
      (db : b.Db) (k : Bytes) (p : Location)
      → b.bucket db p ≡ true
      → nonempty k ≡ true
      → b.get db (k ∷ p) ≡ none
      → (db' : b.Db) × (b.create_bucket db (k ∷ p) ≡ ok db')
  pub create_blank :
      (db : b.Db) (p : Location) → (e : b.Error) × (b.create_bucket db ([] ∷ p) ≡ err e)
  pub get-create :
      (db db' : b.Db) (l q : Location) → b.create_bucket db l ≡ ok db' → b.get db' q ≡ b.get db q
  pub bucket-create :
      (db db' : b.Db) (l q : Location)
      → b.create_bucket db l ≡ ok db'
      → b.bucket db' q ≡ (l == q || b.bucket db q)
  pub put_ok :
      (db : b.Db) (k : Bytes) (p : Location) (v : Bytes)
      → b.bucket db p ≡ true
      → b.bucket db (k ∷ p) ≡ false
      → b.fits k v ≡ true
      → (db' : b.Db) × (b.put db (k ∷ p) v ≡ ok db')
  pub put_unfit :
      (db : b.Db) (k : Bytes) (p : Location) (v : Bytes)
      → b.fits k v ≡ false
      → (e : b.Error) × (b.put db (k ∷ p) v ≡ err e)
  pub put_bucket :
      (db : b.Db) (l : Location) (v : Bytes)
      → b.bucket db l ≡ true
      → (e : b.Error) × (b.put db l v ≡ err e)
  pub fits_blank : (v : Bytes) → b.fits [] v ≡ false
  pub get-put :
      (db db' : b.Db) (l q : Location) (v : Bytes)
      → b.put db l v ≡ ok db'
      → b.get db' q ≡ (if l == q then some v else b.get db q)
  pub bucket-put :
      (db db' : b.Db) (l q : Location) (v : Bytes)
      → b.put db l v ≡ ok db'
      → b.bucket db' q ≡ b.bucket db q
  pub delete_ok :
      (db : b.Db) (k : Bytes) (p : Location)
      → b.bucket db p ≡ true
      → b.bucket db (k ∷ p) ≡ false
      → (db' : b.Db) × (b.delete db (k ∷ p) ≡ ok db')
  pub get-delete :
      (db db' : b.Db) (l q : Location)
      → b.delete db l ≡ ok db'
      → b.get db' q ≡ (if l == q then none else b.get db q)
  pub bucket-delete :
      (db db' : b.Db) (l q : Location) → b.delete db l ≡ ok db' → b.bucket db' q ≡ b.bucket db q
  pub delete_bucket_ok :
      (db : b.Db) (k : Bytes) (p : Location)
      → b.bucket db (k ∷ p) ≡ true
      → (db' : b.Db) × (b.delete_bucket db (k ∷ p) ≡ ok db')
  pub delete_bucket_missing :
      (db : b.Db) (k : Bytes) (p : Location)
      → b.bucket db (k ∷ p) ≡ false
      → (e : b.Error) × (b.delete_bucket db (k ∷ p) ≡ err e)
  pub get-delete_bucket :
      (db db' : b.Db) (l q : Location)
      → b.delete_bucket db l ≡ ok db'
      → b.get db' q ≡ (if within l q then none else b.get db q)
  pub bucket-delete_bucket :
      (db db' : b.Db) (l q : Location)
      → b.delete_bucket db l ≡ ok db'
      → b.bucket db' q ≡ (if within l q then false else b.bucket db q)
  pub find-entries :
      (db : b.Db) (p : Location) (k : Bytes)
      → find_entry k (b.entries db p) ≡ entry_at (b.bucket db (k ∷ p)) (b.get db (k ∷ p))

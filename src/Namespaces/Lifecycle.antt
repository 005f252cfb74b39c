-- ===== src/Namespaces/Lifecycle.antt =====
-- Making, finding, listing and deleting namespaces.
use kappa.Base.{
  Bytes, [], List, map, ◌∙◌, true, false, none, some, ◌≡◌, refl, arith, ◌==◌, nat_eq, list_eq,
  list_beq, if◌then◌else◌, nonempty, contains, Bool, ap, saved,
}
use kappa.Bolt.{Bolt, BoltLaws, entry_at}
use kappa.Bolt.Laws.{bucket-saved_create, error-create, within-bucket}
use kappa.Namespaces.{namespace_does_not_exist, bucket_of, Opened, create, get, stream, delete}
use kappa.Namespaces.Roles.{is_some, contains-map}

abbrev pub found : (b : Bolt) → Bytes → Bool → Opened b
found b name true = (some name, none)
found b name false = (none, some namespace_does_not_exist)

same_bucket : (name m : Bytes) → (bucket_of name == bucket_of m) ≡ (name == m)
unfolding list_beq
same_bucket name m = ground arith

module _ (b : Bolt) (law : BoltLaws b) (db : b.Db) where
  pub get-found : (m : Bytes) → get b m db ≡ found b m (b.bucket db (bucket_of m))
  unfolding get
  get-found m = rw law.read_tx_runs (ground arith)

module _ (b : Bolt) (law : BoltLaws b) (db : b.Db) where
  -- Create returns the namespace with no error, and from then on Get finds it, and finds of all others
  -- those that it found before, if the name is not blank and no value is stored under it.
  pub get-create :
      (name m : Bytes)
      → nonempty name ≡ true
      → b.get db (bucket_of name) ≡ none
      → ((create b name db).0 ≡ (some name, none))
        × (get b m (create b name db).1 ≡ (if name == m then (some m, none) else get b m db))
  unfolding create
  get-create name m named free =
      rw
        (
          law.write_tx_runs,
          error-create law db name [] (law.bucket_root db) named free,
          get-found b law db m,
          get-found b law (saved (b.create_bucket db (bucket_of name)) db) m,
          bucket-saved_create law db name [] (law.bucket_root db) named free (bucket_of m),
          same_bucket name m,
        )
        (refl, ground arith)

  -- Delete reports no error for a namespace that exists, and from then on Get reports that it does not
  -- exist, and finds of all others those that it found before.
  pub get-delete :
      (name m : Bytes)
      → b.bucket db (bucket_of name) ≡ true
      → ((delete b name db).0 ≡ none)
        × (get b m (delete b name db).1
            ≡ (if name == m then (none, some namespace_does_not_exist) else get b m db))
  unfolding delete
  get-delete name m there =
      let (after, e) = law.delete_bucket_ok db name [] there in
      rw
        (
          law.write_tx_runs,
          e,
          get-found b law db m,
          get-found b law after m,
          law.bucket-delete_bucket db after (bucket_of name) (bucket_of m) e,
          within-bucket name m,
        )
        (refl, ground arith)

  pub stream_runs : stream b db ≡ some (map (λ e. e.0) (b.entries db []))
  unfolding stream
  stream_runs = law.read_tx_runs _ _ _ db

  -- The stream ends, and it has the name of every namespace that Get finds.
  pub contains-stream :
      (m : Bytes)
      → get b m db ≡ (some m, none)
      → (names : List Bytes) × (stream b db ≡ some names) × (contains m names ≡ true)
  contains-stream m h = (
    map (λ e. e.0) (b.entries db []),
    stream_runs,
    contains-map m (b.entries db [])
        ∙ ap is_some (law.find-entries db [] m)
        ∙ listed (b.bucket db (bucket_of m)) (rw (get-found b law db m) at h),
  )
    where
      listed :
          (there : Bool)
          → found b m there ≡ (some m, none)
          → is_some (entry_at there (b.get db (bucket_of m))) ≡ true
      listed true e = refl
      listed false e = cc (ap (λ (r : Opened b). r.0) e)

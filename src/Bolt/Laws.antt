-- ===== src/Bolt/Laws.antt =====
-- The laws for the state behind a call, where the call's conditions hold.
use kappa.Base.{
  Bytes, [], ◌∷◌, true, false, ◌||◌, none, some, ◌≡◌, ◌==◌, nat_eq, list_eq, list_beq,
  if◌then◌else◌, nonempty, Result, ok, err, saved, error_of, refl, arith,
}
use kappa.Bolt.{Location, Bolt, BoltLaws, within}

module _ {b : Bolt} (law : BoltLaws b) (db : b.Db) where
  pub get-saved_create : (l q : Location) → b.get (saved (b.create_bucket db l) db) q ≡ b.get db q
  get-saved_create l q = step (b.create_bucket db l) refl
    where
      step :
          (r : Result b.Error b.Db) → b.create_bucket db l ≡ r → b.get (saved r db) q ≡ b.get db q
      step (ok db') h = law.get-create db db' l q h
      step (err e) h = refl

  pub bucket-saved_create_ne :
      (l q : Location)
      → (l == q) ≡ false
      → b.bucket (saved (b.create_bucket db l) db) q ≡ b.bucket db q
  bucket-saved_create_ne l q ne = step (b.create_bucket db l) refl
    where
      step :
          (r : Result b.Error b.Db)
          → b.create_bucket db l ≡ r
          → b.bucket (saved r db) q ≡ b.bucket db q
      step (ok db') h = rw (law.bucket-create db db' l q h, ne)
      step (err e) h = refl

  -- A bucket that is there stays there.
  pub bucket-saved_create_true :
      (l q : Location) → b.bucket db q ≡ true → b.bucket (saved (b.create_bucket db l) db) q ≡ true
  bucket-saved_create_true l q e = step (b.create_bucket db l) refl
    where
      step : (r : Result b.Error b.Db) → b.create_bucket db l ≡ r → b.bucket (saved r db) q ≡ true
      step (ok db') h = rw (law.bucket-create db db' l q h) (ground arith)
      step (err x) h = e

  pub bucket-saved_put :
      (l q : Location) (v : Bytes) → b.bucket (saved (b.put db l v) db) q ≡ b.bucket db q
  bucket-saved_put l q v = step (b.put db l v) refl
    where
      step : (r : Result b.Error b.Db) → b.put db l v ≡ r → b.bucket (saved r db) q ≡ b.bucket db q
      step (ok db') h = law.bucket-put db db' l q v h
      step (err e) h = refl

  pub bucket-saved_delete : (l q : Location) → b.bucket (saved (b.delete db l) db) q ≡ b.bucket db q
  bucket-saved_delete l q = step (b.delete db l) refl
    where
      step : (r : Result b.Error b.Db) → b.delete db l ≡ r → b.bucket (saved r db) q ≡ b.bucket db q
      step (ok db') h = law.bucket-delete db db' l q h
      step (err e) h = refl

  -- A write changes at most its own key.
  pub get-saved_put_ne :
      (l q : Location) (v : Bytes)
      → (l == q) ≡ false
      → b.get (saved (b.put db l v) db) q ≡ b.get db q
  get-saved_put_ne l q v ne = step (b.put db l v) refl
    where
      step : (r : Result b.Error b.Db) → b.put db l v ≡ r → b.get (saved r db) q ≡ b.get db q
      step (ok db') h = rw (law.get-put db db' l q v h, ne)
      step (err e) h = refl

  pub get-saved_delete_ne :
      (l q : Location) → (l == q) ≡ false → b.get (saved (b.delete db l) db) q ≡ b.get db q
  get-saved_delete_ne l q ne = step (b.delete db l) refl
    where
      step : (r : Result b.Error b.Db) → b.delete db l ≡ r → b.get (saved r db) q ≡ b.get db q
      step (ok db') h = rw (law.get-delete db db' l q h, ne)
      step (err e) h = refl

  module _ (k : Bytes) (p : Location) (open_at : b.bucket db p ≡ true) where
    module _ (named : nonempty k ≡ true) (free : b.get db (k ∷ p) ≡ none) where
      pub error-create : error_of (b.create_bucket db (k ∷ p)) ≡ none
      error-create = let (db', e) = law.create_ok db k p open_at named free in rw e

      pub bucket-saved_create :
          (q : Location)
          → b.bucket (saved (b.create_bucket db (k ∷ p)) db) q ≡ ((k ∷ p) == q || b.bucket db q)
      bucket-saved_create q =
          let (db', e) = law.create_ok db k p open_at named free in
          rw e (law.bucket-create db db' (k ∷ p) q e)

    module _ (free : b.bucket db (k ∷ p) ≡ false) where
      module _ (v : Bytes) (fits : b.fits k v ≡ true) where
        pub error-put : error_of (b.put db (k ∷ p) v) ≡ none
        error-put = let (db', e) = law.put_ok db k p v open_at free fits in rw e

        pub get-saved_put :
            (q : Location)
            → b.get (saved (b.put db (k ∷ p) v) db) q
              ≡ (if (k ∷ p) == q then some v else b.get db q)
        get-saved_put q =
            let (db', e) = law.put_ok db k p v open_at free fits in
            rw e (law.get-put db db' (k ∷ p) q v e)

      pub get-saved_delete :
          (q : Location)
          → b.get (saved (b.delete db (k ∷ p)) db) q ≡ (if (k ∷ p) == q then none else b.get db q)
      get-saved_delete q =
          let (db', e) = law.delete_ok db k p open_at free in
          rw e (law.get-delete db db' (k ∷ p) q e)

-- One top-level bucket lies within another only where it is the same.
pub within-bucket : (name m : Bytes) → within (name ∷ []) (m ∷ []) ≡ (name == m)
unfolding within list_beq
within-bucket name m = ground arith

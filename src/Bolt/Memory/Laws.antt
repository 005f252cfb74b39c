-- ===== src/Bolt/Memory/Laws.antt =====
-- The database in memory meets the laws.
use kappa.Base.{
  Bytes, [], ◌∷◌, Bool, true, false, ◌||◌, Option, none, some, ◌≡◌, refl, arith, ◌==◌, eq_iff,
  nat_eq, list_eq, list_beq, if◌then◌else◌, nonempty, ok, err,
}
use kappa.Bolt.{Location, within, find_entry, entry_at, BoltLaws}
use kappa.Bolt.Memory.{
  Table, find, store, erase, value, is_bucket, keep_bucket, get, bucket, entries, create_bucket,
  put, delete, delete_bucket, memory,
}

find-store :
    (l q : Location) (v : Option Bytes) (t : Table)
    → find q (store l v t) ≡ (if l == q then some v else find q t)
unfolding find store
find-store l q v [] = refl
find-store l q v ((m, w) ∷ t) =
    ground (arith, eq_iff l q, eq_iff m l, eq_iff m q, find-store l q v t)

test_same : (test : Location → Bool) (m q : Location) → (m == q) ≡ true → test m ≡ test q
test_same test m q e = ground (arith, (eq_iff m q).0 e)

find-erase :
    (test : Location → Bool) (q : Location) (t : Table)
    → find q (erase test t) ≡ (if test q then none else find q t)
unfolding find erase
find-erase test q [] = ground arith
find-erase test q ((m, w) ∷ t) = ground (arith, eq_iff m q, test_same test m q, find-erase test q t)

find-entries : (t : Table) (p : Location) (k : Bytes) → find_entry k (entries t p) ≡ find (k ∷ p) t
unfolding find_entry entries find list_beq
find-entries [] p k = refl
find-entries (([], w) ∷ t) p k = ground (arith, find-entries t p k)
find-entries (((j ∷ m), w) ∷ t) p k =
    ground
      (arith, find-entries t p k, eq_iff j k, eq_iff m p, eq_iff {A = Location} (j ∷ m) (k ∷ p))

get-create : (t t' : Table) (l q : Location) → create_bucket t l ≡ ok t' → get t' q ≡ get t q
unfolding create_bucket get
get-create t t' [] q h = cc
get-create t t' (k ∷ p) q h =
    ground (arith, find-store (k ∷ p) q none t, eq_iff {A = Location} (k ∷ p) q)

bucket-create :
    (t t' : Table) (l q : Location)
    → create_bucket t l ≡ ok t'
    → bucket t' q ≡ (l == q || bucket t q)
unfolding create_bucket bucket
bucket-create t t' [] q h = cc
bucket-create t t' (k ∷ p) [] h = ground (arith, eq_iff {A = Location} (k ∷ p) [])
bucket-create t t' (k ∷ p) (j ∷ q) h =
    ground (arith, find-store (k ∷ p) (j ∷ q) none t, eq_iff {A = Location} (k ∷ p) (j ∷ q))

get-put :
    (t t' : Table) (l q : Location) (v : Bytes)
    → put t l v ≡ ok t'
    → get t' q ≡ (if l == q then some v else get t q)
unfolding put get
get-put t t' [] q v h = cc
get-put t t' (k ∷ p) q v h =
    ground (arith, find-store (k ∷ p) q (some v) t, eq_iff {A = Location} (k ∷ p) q)

bucket-put :
    (t t' : Table) (l q : Location) (v : Bytes) → put t l v ≡ ok t' → bucket t' q ≡ bucket t q
unfolding put bucket
bucket-put t t' [] q v h = cc
bucket-put t t' (k ∷ p) [] v h = refl
bucket-put t t' (k ∷ p) (j ∷ q) v h =
    ground (arith, find-store (k ∷ p) (j ∷ q) (some v) t, eq_iff {A = Location} (k ∷ p) (j ∷ q))

get-delete :
    (t t' : Table) (l q : Location)
    → delete t l ≡ ok t'
    → get t' q ≡ (if l == q then none else get t q)
unfolding delete get
get-delete t t' [] q h = cc
get-delete t t' (k ∷ p) q h = ground (arith, find-erase (λ m. (k ∷ p) == m) q t)

bucket-delete : (t t' : Table) (l q : Location) → delete t l ≡ ok t' → bucket t' q ≡ bucket t q
unfolding delete bucket
bucket-delete t t' [] q h = cc
bucket-delete t t' (k ∷ p) [] h = refl
bucket-delete t t' (k ∷ p) (j ∷ q) h =
    ground (arith, find-erase (λ m. (k ∷ p) == m) (j ∷ q) t, eq_iff {A = Location} (k ∷ p) (j ∷ q))

get-delete_bucket :
    (t t' : Table) (l q : Location)
    → delete_bucket t l ≡ ok t'
    → get t' q ≡ (if within l q then none else get t q)
unfolding delete_bucket get
get-delete_bucket t t' [] q h = cc
get-delete_bucket t t' (k ∷ p) q h = ground (arith, find-erase (within (k ∷ p)) q t)

bucket-delete_bucket :
    (t t' : Table) (l q : Location)
    → delete_bucket t l ≡ ok t'
    → bucket t' q ≡ (if within l q then false else bucket t q)
unfolding delete_bucket bucket
bucket-delete_bucket t t' [] q h = cc
bucket-delete_bucket t t' (k ∷ p) [] h = unfold within list_beq in refl
bucket-delete_bucket t t' (k ∷ p) (j ∷ q) h = ground (arith, find-erase (within (k ∷ p)) (j ∷ q) t)

keep_bucket_ok :
    (o : Option (Option Bytes)) (t : Table) (l : Location)
    → value o ≡ none
    → (t' : Table) × (keep_bucket o t l ≡ ok t')
keep_bucket_ok none t l h = (store l none t, refl)
keep_bucket_ok (some none) t l h = (t, refl)
keep_bucket_ok (some (some v)) t l h = cc

create_ok :
    (t : Table) (k : Bytes) (p : Location)
    → bucket t p ≡ true
    → nonempty k ≡ true
    → get t (k ∷ p) ≡ none
    → (t' : Table) × (create_bucket t (k ∷ p) ≡ ok t')
unfolding create_bucket get
create_ok t k p hp hk hg = rw (hk, hp) (keep_bucket_ok (find (k ∷ p) t) t (k ∷ p) hg)

delete_ok :
    (t : Table) (k : Bytes) (p : Location)
    → bucket t p ≡ true
    → bucket t (k ∷ p) ≡ false
    → (t' : Table) × (delete t (k ∷ p) ≡ ok t')
unfolding delete
delete_ok t k p hp hk = (erase (λ m. (k ∷ p) == m) t, rw (hp, hk))

entry-value : (o : Option (Option Bytes)) → o ≡ entry_at (is_bucket o) (value o)
entry-value none = refl
entry-value (some none) = refl
entry-value (some (some v)) = refl

put_bucket :
    (t : Table) (l : Location) (v : Bytes)
    → bucket t l ≡ true
    → (e : Unit {0}) × (put t l v ≡ err e)
unfolding put
put_bucket t [] v h = (tt, refl)
put_bucket t (k ∷ p) v h = (tt, ground arith)

pub memory_laws : BoltLaws memory
unfolding bucket get put delete_bucket create_bucket
memory_laws = record {
  write_tx_runs = λ A start body db. refl;
  read_tx_runs = λ A start body db. refl;
  bucket_root = λ db. refl;
  create_ok = create_ok;
  create_blank = λ db p. (tt, refl);
  get-create = get-create;
  bucket-create = bucket-create;
  put_ok = λ t k p v hp hk fits. (store (k ∷ p) (some v) t, rw (hp, hk, fits));
  put_unfit = λ t k p v unfit. (tt, rw unfit);
  put_bucket = put_bucket;
  fits_blank = λ v. refl;
  get-put = get-put;
  bucket-put = bucket-put;
  delete_ok = delete_ok;
  get-delete = get-delete;
  bucket-delete = bucket-delete;
  delete_bucket_ok = λ t k p h. (erase (within (k ∷ p)) t, rw h);
  delete_bucket_missing = λ t k p h. (tt, rw h);
  get-delete_bucket = get-delete_bucket;
  bucket-delete_bucket = bucket-delete_bucket;
  find-entries = λ t p k. rw find-entries (entry-value (find (k ∷ p) t));
}

-- ===== src/Bolt/Memory.antt =====
-- A database in memory, as one association list: the tests run on it. The module below proves that it
-- meets the laws.
pub mod Laws
use kappa.Base.{
  Bytes, List, [], ◌∷◌, Bool, true, false, not, ◌&&◌, Option, none, some, ◌==◌, nat_eq, list_eq,
  if◌then◌else◌, nonempty, Result, ok, err,
}
use kappa.Bolt.{Location, within, Bolt}

-- `none` marks a bucket.
abbrev pub Table : Type 0
Table = List (Location × Option Bytes)

unfoldable pub find : Location → Table → Option (Option Bytes)
find l [] = none
find l ((m, v) ∷ t) = if m == l then some v else find l t

unfoldable pub store : Location → Option Bytes → Table → Table
store l v [] = (l, v) ∷ []
store l v ((m, w) ∷ t) = let rest = store l v t in if m == l then (l, v) ∷ t else (m, w) ∷ rest

unfoldable pub erase : (Location → Bool) → Table → Table
erase test [] = []
erase test ((m, w) ∷ t) = let rest = erase test t in if test m then rest else (m, w) ∷ rest

abbrev pub value : Option (Option Bytes) → Option Bytes
value none = none
value (some v) = v

abbrev pub is_bucket : Option (Option Bytes) → Bool
is_bucket (some none) = true
is_bucket _ = false

abbrev pub keep_bucket : Option (Option Bytes) → Table → Location → Result (Unit {0}) Table
keep_bucket none t l = ok (store l none t)
keep_bucket (some none) t l = ok t
keep_bucket (some (some v)) t l = err tt

unfoldable pub get : Table → Location → Option Bytes
unfolding find
get t l = value (find l t)

unfoldable pub bucket : Table → Location → Bool
unfolding find
bucket t [] = true
bucket t (k ∷ p) = is_bucket (find (k ∷ p) t)

abbrev entry_under :
    Location → Location → Option Bytes → List (Bytes × Option Bytes) → List (Bytes × Option Bytes)
entry_under p [] v es = es
entry_under p (k ∷ q) v es = if q == p then (k, v) ∷ es else es

unfoldable pub entries : Table → Location → List (Bytes × Option Bytes)
entries [] p = []
entries ((m, v) ∷ t) p = entry_under p m v (entries t p)

unfoldable pub create_bucket : Table → Location → Result (Unit {0}) Table
unfolding bucket store find
create_bucket t [] = err tt
create_bucket t (k ∷ p) =
    if nonempty k && bucket t p then keep_bucket (find (k ∷ p) t) t (k ∷ p) else err tt

unfoldable pub put : Table → Location → Bytes → Result (Unit {0}) Table
unfolding bucket store
put t [] v = err tt
put t (k ∷ p) v =
    if nonempty k && bucket t p && not (bucket t (k ∷ p))
    then ok (store (k ∷ p) (some v) t)
    else err tt

unfoldable pub delete : Table → Location → Result (Unit {0}) Table
unfolding bucket erase
delete t [] = err tt
delete t (k ∷ p) =
    if bucket t p && not (bucket t (k ∷ p)) then ok (erase (λ m. (k ∷ p) == m) t) else err tt

unfoldable pub delete_bucket : Table → Location → Result (Unit {0}) Table
unfolding bucket erase within
delete_bucket t [] = err tt
delete_bucket t (k ∷ p) = if bucket t (k ∷ p) then ok (erase (within (k ∷ p)) t) else err tt

abbrev pub memory : Bolt
memory = record {
  Db = Table;
  Error = Unit {0};
  write_tx = λ A start body db. body db;
  read_tx = λ A start body db. body db;
  bucket = bucket;
  get = get;
  entries = entries;
  create_bucket = create_bucket;
  delete_bucket = delete_bucket;
  put = put;
  delete = delete;
  fits = λ k v. nonempty k;
}

-- ===== src/System.antt =====
-- The system store, datamodel/system.go: one database with a keyspace for the users and one for the
-- namespaces. The database is the package github.com/eliquious/leaf, whose code is not in the
-- repository: a record of operations, with what they do to the contents of the keyspaces as laws. A
-- store is a keyspace, and a method of a store is a function on that keyspace's contents.
pub mod Login
pub mod Stores
use kappa.Base.{
  Bytes, codes, Bool, Option, none, some, ◌==◌, nat_eq, list_eq, if◌then◌else◌, Result, ok, err,
  State, ◌≡◌,
}
use kappa.Bolt.{Bolt}

pub record Leaf (b : Bolt) : Type 1 where
  pub Database : Type 0
  -- NewLeaf, of the name of a file
  pub new_leaf : Bytes → Result b.Error Database
  pub get_or_create_keyspace : Bytes → Database → Result b.Error Database
  -- the contents of a keyspace, and the database with new contents of it
  pub contents : Bytes → Database → b.Db
  pub write : Bytes → b.Db → Database → Database

pub record LeafLaws {b : Bolt} (l : Leaf b) : Type 0 where
  -- A keyspace that is made or found changes no contents; one that was not there had none.
  pub contents-create :
      (db db' : l.Database) (name asked : Bytes)
      → l.get_or_create_keyspace name db ≡ ok db'
      → l.contents asked db' ≡ l.contents asked db
  pub contents-write :
      (name asked : Bytes) (d : b.Db) (db : l.Database)
      → l.contents asked (l.write name d db) ≡ (if name == asked then d else l.contents asked db)

abbrev pub users_keyspace : Bytes
users_keyspace = codes "users"

abbrev pub namespaces_keyspace : Bytes
namespaces_keyspace = codes "namespaces"

module _ {b : Bolt} (l : Leaf b) where
  unfoldable pub new_system : Bytes → Result b.Error l.Database
  new_system filename = l.new_leaf filename

  -- Users and Namespaces: the database behind them, where the store can be had.
  unfoldable pub users : l.Database → Result b.Error l.Database
  users db = l.get_or_create_keyspace users_keyspace db

  unfoldable pub namespaces : l.Database → Result b.Error l.Database
  namespaces db = l.get_or_create_keyspace namespaces_keyspace db

  abbrev on_contents : {A : Type 0} → Bytes → State b.Db A → State l.Database A
  on_contents name m db = let (a, d) = m (l.contents name db) in (a, l.write name d db)

  abbrev opened :
      {A : Type 0}
      → Bytes
      → State b.Db A
      → l.Database
      → Result b.Error l.Database
      → Result b.Error A × l.Database
  opened name m db (err e) = (err e, db)
  opened name m db (ok db') = let (a, last) = on_contents name m db' in (ok a, last)

  -- A call of a method of a store, behind the call that opens the store.
  unfoldable pub in_users : {A : Type 0} → State b.Db A → l.Database → Result b.Error A × l.Database
  unfolding users
  in_users m db = opened users_keyspace m db (users db)

  unfoldable pub in_namespaces :
      {A : Type 0} → State b.Db A → l.Database → Result b.Error A × l.Database
  unfolding namespaces
  in_namespaces m db = opened namespaces_keyspace m db (namespaces db)

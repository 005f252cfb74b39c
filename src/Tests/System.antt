-- ===== src/Tests/System.antt =====
-- A system in memory: a table for each of the two keyspaces, the users' from Tests.Users.
use kappa.Base.{
  Bytes, codes, [], ◌||◌, ◌≡◌, refl, ◌==◌, nat_eq, list_eq, list_beq, if◌then◌else◌, ok, err, arith,
}
use kappa.Bolt.Memory.{Table, bucket, memory}
use kappa.Auth.{create_fingerprint}
use kappa.Bolt.Memory.Laws.{memory_laws}
use kappa.Users
use kappa.Ssh.{check_ring}
use kappa.Namespaces
use kappa.System.{Leaf, LeafLaws, users, in_users, in_namespaces, users_keyspace}
use kappa.System.Login.{callback_of, log_in}
use kappa.System.Stores.{log_in-in_users}
use kappa.Tests.Users.{ann, table, key, ann-IsUser_keys, plain_crypto}

abbrev Keyspaces : Type 0
Keyspaces = Bytes → Table

abbrev in_memory : Leaf memory
in_memory = record {
  Database = Keyspaces;
  new_leaf = λ name. err tt;
  get_or_create_keyspace = λ name db. ok db;
  contents = λ name db. db name;
  write = λ name d db asked. if name == asked then d else db asked;
}

in_memory-LeafLaws : LeafLaws in_memory
in_memory-LeafLaws = record {
  contents-create = λ db db' name asked h. ground arith;
  contents-write = λ name asked d db. refl;
}

abbrev keyspaces : Keyspaces
keyspaces asked = if users_keyspace == asked then table else []

-- The system's check, behind a new key of ann's and a new namespace.
log_in-in_users_example :
    log_in in_memory plain_crypto ann key
      (in_namespaces in_memory
        (Namespaces.create memory (codes "acme"))
        (in_users in_memory (Users.add_public_key memory plain_crypto ann key) keyspaces).1).1
    ≡ check_ring memory ann key (
        create_fingerprint plain_crypto.md5 key == create_fingerprint plain_crypto.md5 key
        || (Users.contains memory plain_crypto ann key table).0)
unfolding Users.read_key bucket list_beq create_fingerprint callback_of users
log_in-in_users_example =
    log_in-in_users in_memory in_memory-LeafLaws memory_laws plain_crypto keyspaces keyspaces
      keyspaces (log_in in_memory plain_crypto) refl refl (Namespaces.create memory (codes "acme"))
      ann key key key ann-IsUser_keys refl refl refl refl

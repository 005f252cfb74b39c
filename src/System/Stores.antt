-- ===== src/System/Stores.antt =====
-- The two stores of a system do not see each other.
use kappa.Base.{
  Bytes, some, ◌==◌, nat_eq, list_eq, list_beq, Result, ok, err, State, ◌≡◌, ◌∙◌, refl, ap, eq_refl,
  true, false, ◌||◌, nonempty, inr, ◌∷◌,
}
use kappa.Bolt.{Bolt, BoltLaws}
use kappa.Auth.{create_fingerprint}
use kappa.Users
use kappa.Users.{Crypto, keys_key, keys_of, read_key}
use kappa.Users.Shape.{IsUser}
use kappa.Ssh.{public_key_callback, check_ring}
use kappa.Ssh.Login.{log_in-add_public_key}
use kappa.System.{
  Leaf, LeafLaws, users_keyspace, namespaces_keyspace, users, namespaces, opened, in_users,
  in_namespaces,
}
use kappa.System.Login.{Callback, callback_of, log_in, with_store}

module _ {b : Bolt} (l : Leaf b) (law : LeafLaws l) where
  contents-opened :
      {A : Type 0} (name asked : Bytes) (m : State b.Db A) (db : l.Database)
      (r : Result b.Error l.Database)
      → l.get_or_create_keyspace name db ≡ r
      → (name == asked) ≡ false
      → l.contents asked (opened l name m db r).1 ≡ l.contents asked db
  contents-opened name asked m db (err e) h ne = refl
  contents-opened name asked m db (ok db') h ne =
      rw (law.contents-write name asked (m (l.contents name db')).1 db', ne)
        (law.contents-create db db' name asked h)

  -- What a method does to the namespaces changes nothing of the users.
  pub users-in_namespaces :
      {A : Type 0} (m : State b.Db A) (db : l.Database)
      → l.contents users_keyspace (in_namespaces l m db).1 ≡ l.contents users_keyspace db
  unfolding in_namespaces namespaces list_beq
  users-in_namespaces m db =
      contents-opened namespaces_keyspace users_keyspace m db (namespaces l db) refl refl

  -- What a method does to the users changes nothing of the namespaces.
  pub namespaces-in_users :
      {A : Type 0} (m : State b.Db A) (db : l.Database)
      → l.contents namespaces_keyspace (in_users l m db).1 ≡ l.contents namespaces_keyspace db
  unfolding in_users users list_beq
  namespaces-in_users m db =
      contents-opened users_keyspace namespaces_keyspace m db (users l db) refl refl

  opened_ok :
      {A : Type 0} (name : Bytes) (m : State b.Db A) (db db' : l.Database)
      → l.get_or_create_keyspace name db ≡ ok db'
      → l.contents name (opened l name m db (l.get_or_create_keyspace name db)).1
        ≡ (m (l.contents name db)).1
  opened_ok name m db db' h =
      rw
        (
          h,
          law.contents-write name name (m (l.contents name db')).1 db',
          eq_refl name,
          law.contents-create db db' name name h,
        )
        refl

  -- The next method of the user store sees what this one left.
  pub users-in_users :
      {A : Type 0} (m : State b.Db A) (db db' : l.Database)
      → users l db ≡ ok db'
      → l.contents users_keyspace (in_users l m db).1 ≡ (m (l.contents users_keyspace db)).1
  unfolding in_users users
  users-in_users m db db' h = opened_ok users_keyspace m db db' h

  callback-eq-log_in :
      (c : Crypto) (start db : l.Database) (f : Callback l)
      → callback_of l c (some start) ≡ ok f
      → (user key : Bytes) → f user key db ≡ log_in l c user key db
  unfolding callback_of users
  callback-eq-log_in c start db f h user key =
      by_store (l.get_or_create_keyspace users_keyspace start) h
    where
      by_store :
          (r : Result b.Error l.Database)
          → with_store l c r ≡ ok f
          → f user key db ≡ log_in l c user key db
      by_store (err e) h = cc
      by_store (ok d) h = cc

  module _ (bolt : BoltLaws b) (c : Crypto) (start db ready : l.Database) (f : Callback l)
      (made : callback_of l c (some start) ≡ ok f) (opens : users l db ≡ ok ready) where
    -- The ssh server's check, made when the server starts, follows the key rings of the system: after a
    -- call of AddPublicKey and any use of the namespace store, a client logs in as the user exactly
    -- with a key that has the fingerprint of the new one, or with one that the ring contained before.
    -- The user store can be opened, the PEM text is read as the key, the user exists, and the write is
    -- within the limits of Put.
    pub log_in-in_users :
        {A : Type 0} (m : State b.Db A) (name pem key other : Bytes)
        → IsUser b (l.contents users_keyspace db) keys_key name
        → nonempty pem ≡ true
        → read_key b c pem ≡ inr key
        → b.bucket (l.contents users_keyspace db) (create_fingerprint c.md5 key ∷ keys_of name)
          ≡ false
        → b.fits (create_fingerprint c.md5 key) key ≡ true
        → f name other (in_namespaces l m (in_users l (Users.add_public_key b c name pem) db).1).1
          ≡ check_ring b name other (
              create_fingerprint c.md5 key == create_fingerprint c.md5 other
              || (Users.contains b c name other (l.contents users_keyspace db)).0)
    log_in-in_users m name pem key other u full reads plain fits =
        let added = (in_users l (Users.add_public_key b c name pem) db).1 in
        callback-eq-log_in c start (in_namespaces l m added).1 f made name other
        ∙ ap (λ d. (public_key_callback b c name other d).0)
            (users-in_namespaces m added
              ∙ users-in_users (Users.add_public_key b c name pem) db ready opens)
        ∙ log_in-add_public_key b bolt c (l.contents users_keyspace db) name u pem key other full
            reads plain fits

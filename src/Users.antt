-- ===== src/Users.antt =====
-- datamodel/users.go: the users, with their passwords, their roles in each namespace and their key
-- rings, as functions on the contents of the user keyspace. A `boltUser` and its `boltKeyRing` are the
-- user's name. As in Namespaces, an `err` that a transaction declares anew is lost.
pub mod Shape
pub mod Passwords
pub mod KeyRing
pub mod Roles
use kappa.Base.{
  Bytes, codes, List, [], ◌∷◌, ◌++◌, map, Bool, true, false, not, Option, none, some, ◌⊎◌, inl, inr,
  ◌==◌, nat_eq, list_eq, if◌then◌else◌, nonempty, State, ◌>>=◌, ◌>>◌, pure, gets, attempt,
}
use kappa.Text.{value_of, fields, add_field, remove_field}
use kappa.Bolt.{Location, Bolt}
use kappa.Auth.{generate_salt, secure_compare, create_fingerprint}

pub data UserError (E : Type 0) : Type 0 where
  user_does_not_exist : UserError E
  invalid_certificate : UserError E
  failed_key_convertion : UserError E
  database : E → UserError E

-- The libraries behind passwords and keys: SHA-256, MD5, and the steps from a PEM text to the bytes
-- of an SSH key, with `none` for their errors.
pub record Crypto : Type 0 where
  pub sha256 : Bytes → Bytes
  pub md5 : Bytes → Bytes
  pub pem_decode : Bytes → Option Bytes
  pub parse_certificate : Bytes → Option Bytes
  pub new_public_key : Bytes → Option Bytes

pub record PublicKey : Type 0 where
  pub fingerprint : Bytes
  pub ssh_key : Bytes

-- `p.Equals(key)`
unfoldable pub equals : PublicKey → Bytes → Bool
unfolding secure_compare
equals p key = secure_compare p.ssh_key key

abbrev pub salt_key : Bytes
salt_key = codes "salt"

abbrev pub password_key : Bytes
password_key = codes "salted_password"

abbrev pub namespaces_key : Bytes
namespaces_key = codes "namespaces"

abbrev pub keys_key : Bytes
keys_key = codes "keys"

abbrev pub bucket_of : Bytes → Location
bucket_of name = name ∷ []

abbrev pub namespaces_of : Bytes → Location
namespaces_of name = namespaces_key ∷ name ∷ []

abbrev pub keys_of : Bytes → Location
keys_of name = keys_key ∷ name ∷ []

unfoldable pub is_admin : Bytes → Bool
is_admin name = name == codes "admin"

module _ (b : Bolt) where
  abbrev pub Failure : Type 0
  Failure = Option (UserError b.Error)

  abbrev pub Opened : Type 0
  Opened = Option Bytes × Failure

  abbrev opened : Bytes → Option b.Error → Opened
  opened name none = (some name, none)
  opened name (some e) = (none, some (database e))

  abbrev pub failure : Option b.Error → Failure
  failure none = none
  failure (some e) = some (database e)

  -- boltUserStore
  unfoldable pub create : Bytes → State b.Db Opened
  create name =
      b.write_tx Opened (none, none)
        (do e ← attempt (λ db. b.create_bucket db (bucket_of name)); pure (opened name e))

  unfoldable pub get : Bytes → b.Db → Opened
  get name =
      b.read_tx Opened (none, none)
        λ db.
          if b.bucket db (bucket_of name)
          then (some name, none)
          else (none, some user_does_not_exist)

  unfoldable pub delete : Bytes → State b.Db Failure
  delete name =
      b.write_tx Failure none
        (do e ← attempt (λ db. b.delete_bucket db (bucket_of name)); pure (failure e))

  abbrev pub in_user : {A : Type 0} → A → Bytes → State b.Db A → State b.Db A
  in_user missing name body db = if b.bucket db (bucket_of name) then body db else (missing, db)

  abbrev pub after : {A : Type 0} → A → State b.Db A → Option b.Error → State b.Db A
  after failed body none = body
  after failed body (some e) = pure failed

  -- The user's bucket, and then a bucket inside of it, which is made if it is not there.
  abbrev pub in_nested : {A : Type 0} → A → A → Bytes → Bytes → State b.Db A → State b.Db A
  in_nested missing failed nested name body =
      in_user missing name
        (do e ← attempt (λ db. b.create_bucket db (nested ∷ bucket_of name)); after failed body e)

  abbrev matches : (Bytes → Bytes) → Bytes → Option Bytes → Option Bytes → Bool
  matches sha256 password none saltedpw = false
  matches sha256 password (some salt) none = false
  matches sha256 password (some salt) (some saltedpw) =
      secure_compare (sha256 (salt ++ password)) saltedpw

  unfoldable pub validate_password : Crypto → Bytes → Bytes → b.Db → Bool
  validate_password c name password = b.read_tx Bool false λ db.
      if b.bucket db (bucket_of name)
      then matches c.sha256 password (b.get db (salt_key ∷ bucket_of name))
          (b.get db (password_key ∷ bucket_of name))
      else false

  abbrev save_password : Bytes → Option (Bytes × Bytes) → State b.Db Failure
  save_password name none = pure none
  save_password name (some (salt, saltedpw)) = do
    e ← attempt (λ db. b.put db (salt_key ∷ bucket_of name) salt)
    after none (do attempt (λ db. b.put db (password_key ∷ bucket_of name) saltedpw); pure none) e

  -- The second argument is what the random source gives.
  unfoldable pub update_password : Crypto → Option Bytes → Bytes → Bytes → State b.Db Failure
  unfolding generate_salt
  update_password c random name password = b.write_tx Failure none (
      in_user (some user_does_not_exist) name
        (save_password name (generate_salt random c.sha256 password)))

  unfoldable pub namespaces : Bytes → State b.Db (List Bytes)
  namespaces name = b.write_tx (List Bytes) [] (
      in_nested [] [] namespaces_key name
        (gets (λ db. map (λ e. e.0) (b.entries db (namespaces_of name)))))

  unfoldable pub roles : Bytes → Bytes → State b.Db (List Bytes)
  roles name namespace = b.write_tx (List Bytes) [] (
      in_nested [] [] namespaces_key name
        (gets (λ db. fields (value_of (b.get db (namespace ∷ namespaces_of name))))))

  unfoldable pub add_role : Bytes → Bytes → Bytes → State b.Db Failure
  add_role name namespace role = b.write_tx Failure none (
      in_nested (some user_does_not_exist) none namespaces_key name (do
        v ← gets (λ db. value_of (b.get db (namespace ∷ namespaces_of name)))
        attempt (λ db. b.put db (namespace ∷ namespaces_of name) (add_field v role))
        pure none))

  unfoldable pub remove_role : Bytes → Bytes → Bytes → State b.Db Failure
  remove_role name namespace role = b.write_tx Failure none (
      in_nested (some user_does_not_exist) none namespaces_key name (do
        v ← gets (λ db. value_of (b.get db (namespace ∷ namespaces_of name)))
        if nonempty v
            then (do
              attempt (λ db. b.put db (namespace ∷ namespaces_of name) (remove_field v role))
              pure none)
            else pure none))

  abbrev pub Added : Type 0
  Added = Bytes × Failure

  -- what AddPublicKey makes of the PEM text, up to the bytes of the SSH key
  unfoldable pub read_key : Crypto → Bytes → UserError b.Error ⊎ Bytes
  read_key c pem = elim (c.pem_decode pem) [
    | none ↦ inl invalid_certificate
    | some block ↦ elim (c.parse_certificate block) [
      | none ↦ inl invalid_certificate
      | some public_key ↦ elim (c.new_public_key public_key) [
        | none ↦ inl failed_key_convertion
        | some key ↦ inr key
      ]
    ]
  ]

  abbrev save_key : Crypto → Bytes → UserError b.Error ⊎ Bytes → State b.Db Added
  save_key c name (inl e) = pure ([], some e)
  save_key c name (inr key) = do
    e ← attempt (λ db. b.put db (create_fingerprint c.md5 key ∷ keys_of name) key)
    pure (create_fingerprint c.md5 key, failure e)

  unfoldable pub add_public_key : Crypto → Bytes → Bytes → State b.Db Added
  unfolding read_key
  add_public_key c name pem =
      b.write_tx Added ([], none)
        λ db.
          if not (nonempty pem)
          then (([], some invalid_certificate), db)
          else in_nested ([], some user_does_not_exist) ([], none) keys_key name
              (save_key c name (read_key c pem)) db

  unfoldable pub remove_public_key : Bytes → Bytes → State b.Db Failure
  remove_public_key name fingerprint = b.write_tx Failure none (
      in_nested (some user_does_not_exist) none keys_key name
        (do attempt (λ db. b.delete db (fingerprint ∷ keys_of name)); pure none))

  unfoldable pub list_public_keys : Bytes → State b.Db (List PublicKey)
  list_public_keys name = b.write_tx (List PublicKey) [] (
      in_nested [] [] keys_key name (
        gets (λ db.
          map (λ e. record { fingerprint = e.0; ssh_key = value_of e.1 })
            (b.entries db (keys_of name)))))

  abbrev pub is_held : Option Bytes → Bool
  is_held none = false
  is_held (some v) = true

  unfoldable pub contains : Crypto → Bytes → Bytes → State b.Db Bool
  contains c name key = b.write_tx Bool false (
      in_nested false false keys_key name
        (gets (λ db. is_held (b.get db (create_fingerprint c.md5 key ∷ keys_of name)))))

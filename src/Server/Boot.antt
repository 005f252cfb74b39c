-- ===== src/Server/Boot.antt =====
-- NewServer of server/server.go: the calls in their order, each with its early return. The contents of
-- the user keyspace are the state; AddPublicKey and Create of the user store are those of Users.
use kappa.Base.{Bytes, codes, Bool, true, false, Option, none, some, Result, ok, err, State}
use kappa.Cluster.Atoi.{ℤ}
use kappa.Bolt.{Bolt}
use kappa.Users
use kappa.Users.{Crypto, UserError, Opened, Added}
use kappa.Server.{DatabaseConfig, SerfConfig, setup_serf}

-- What the calls of NewServer to other packages answer, `none` for no error. `log_error` is what the
-- logger's method Error returns for the error that it is given.
pub record Answers (E Serf : Type 0) : Type 0 where
  pub make_data_path : Option E
  pub working_directory : Option E
  pub new_system : Option E
  -- the file of the ssh key, and ParsePrivateKey
  pub ssh_key_file : Result E Bytes
  pub parse_private_key : Bytes → Option E
  pub admin_certificate : Result E Bytes
  pub user_store : Option E
  pub root_certificate : Result E Bytes
  pub append_certs : Bytes → Bool
  pub callback_user_store : Option E
  pub new_ssh_server : Option E
  pub uuid : Result E Bytes
  pub ssh_port : ℤ
  pub snapshot_path : Bytes
  pub ensure_path : Option E
  pub create_serf : SerfConfig → Result E Serf
  pub log_error : E → Option E

-- ReadPrivateKey of auth/keys.go, by its error.
abbrev parsed_key : {E : Type 0} → (Bytes → Option E) → Result E Bytes → Option E
parsed_key parse (ok bytes) = parse bytes
parsed_key parse (err e) = some e

unfoldable pub read_private_key : {E Serf : Type 0} → Answers E Serf → Option E
read_private_key a = parsed_key a.parse_private_key a.ssh_key_file

abbrev pub admin : Bytes
admin = codes "admin"

module _ (b : Bolt) (E Serf : Type 0) where
  pub data StartError : Type 0 where
    of_system : E → StartError
    of_users : UserError b.Error → StartError

  -- An early return with its error, or nil; or the call of a method on a nil interface.
  pub data Stop : Type 0 where
    returned : Option StartError → Stop
    panicked : Stop

  abbrev pub Boot : Type 0 → Type 0
  Boot A = State b.Db (Result Stop A)

  abbrev pub pass : {A B : Type 0} → (A → Boot B) → Result Stop A → Boot B
  pass f (ok a) db = f a db
  pass f (err s) db = (err s, db)

  infixl 5 ◌>>=◌ ◌>>◌
  abbrev pub ◌>>=◌ : {A B : Type 0} → Boot A → (A → Boot B) → Boot B
  ◌>>=◌ m f db = let (r, db') = m db in pass f r db'

  abbrev pub ◌>>◌ : {A B : Type 0} → Boot A → Boot B → Boot B
  m >> n = m >>= λ _. n

  abbrev pub returns : {A : Type 0} → A → Boot A
  returns a db = (ok a, db)

  -- `if err != nil { return }`
  abbrev pub unless_error : Option E → Boot (Unit {0})
  unless_error none db = (ok tt, db)
  unless_error (some e) db = (err (returned (some (of_system e))), db)

  abbrev pub value_or_error : {A : Type 0} → Result E A → Boot A
  value_or_error (ok a) db = (ok a, db)
  value_or_error (err e) db = (err (returned (some (of_system e))), db)

  -- `if ok := roots.AppendCertsFromPEM(rootPem); !ok { return }`: the error is nil there.
  abbrev pub unless_unparsed : Bool → Boot (Unit {0})
  unless_unparsed true db = (ok tt, db)
  unless_unparsed false db = (err (returned none), db)

  abbrev pub created : Opened b → Result Stop Bytes
  created (some name, none) = ok name
  created (none, none) = err panicked
  created (user, some e) = err (returned (some (of_users e)))

  abbrev pub added : Added b → Result Stop Bytes
  added (fingerprint, none) = ok fingerprint
  added (fingerprint, some e) = err (returned (some (of_users e)))

  -- `userStore.Create("admin")`, and `admin.KeyRing().AddPublicKey(cert)`
  unfoldable pub add_admin : Crypto → Bytes → Boot Bytes
  add_admin c cert = do
    name ← λ db. let (r, db') = Users.create b admin db in (created r, db')
    λ db. let (r, db') = Users.add_public_key b c name cert db in (added r, db')

  abbrev pub logged : Option E → Stop
  logged none = returned none
  logged (some e) = returned (some (of_system e))

  -- `s.serf, err = s.setupSerf()`, with the logger's error in place of serf's
  abbrev pub start_serf : Answers E Serf → Result E Serf → Boot Serf
  start_serf a (ok serf) db = (ok serf, db)
  start_serf a (err e) db = (err (logged (a.log_error e)), db)

  -- The calls behind the admin's account.
  unfoldable pub start_listeners : DatabaseConfig → Answers E Serf → Boot Serf
  unfolding setup_serf
  start_listeners config a = do
    roots ← value_or_error a.root_certificate
    unless_unparsed (a.append_certs roots)
    unless_error a.callback_user_store
    unless_error a.new_ssh_server
    start_serf a
        (setup_serf E Serf config a.uuid a.ssh_port a.snapshot_path a.ensure_path a.create_serf)

  unfoldable pub new_server : Crypto → DatabaseConfig → Answers E Serf → Boot Serf
  unfolding add_admin start_listeners read_private_key
  new_server c config a = do
    unless_error a.make_data_path
    unless_error a.working_directory
    unless_error a.new_system
    unless_error (read_private_key a)
    cert ← value_or_error a.admin_certificate
    unless_error a.user_store
    add_admin c cert
    start_listeners config a

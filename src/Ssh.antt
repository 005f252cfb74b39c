-- ===== src/Ssh.antt =====
-- The login check of the ssh server: the function that PublicKeyCallback of server/ssh.go returns. The
-- wire form of the client's key, `key.Marshal()`, and the name of the user are arguments. The echo
-- handler is in a module below.
pub mod Login
pub mod Accounts
pub mod Rings
pub mod Echo
use kappa.Base.{Bytes, Bool, true, false, Option, none, some, State, Result, ok, err}
use kappa.Bolt.{Bolt}
use kappa.Users
use kappa.Users.{Crypto, UserError}

-- `ssh.Permissions`, of which the extensions are set.
pub record Permissions : Type 0 where
  pub pubkey : Bytes
  pub username : Bytes

pub data LoginError (E : Type 0) : Type 0 where
  user_error : UserError E → LoginError E
  invalid_public_key : LoginError E
  -- No error that is returned: the check panics, since Get gives a nil user with no error.
  panicked : LoginError E

module _ (b : Bolt) where
  abbrev pub LoggedIn : Type 0
  LoggedIn = Result (LoginError b.Error) Permissions

  abbrev pub check_ring : Bytes → Bytes → Bool → LoggedIn
  check_ring user key true = ok (record { pubkey = key; username = user })
  check_ring user key false = err invalid_public_key

  abbrev log_in : Crypto → Bytes → Bytes → Users.Opened b → State b.Db LoggedIn
  log_in c user key (found, some e) db = (err (user_error e), db)
  log_in c user key (none, none) db = (err panicked, db)
  log_in c user key (some found, none) db =
      let (held, db') = Users.contains b c user key db in (check_ring user key held, db')

  unfoldable pub public_key_callback : Crypto → Bytes → Bytes → State b.Db LoggedIn
  public_key_callback c user key db = log_in c user key (Users.get b user db) db

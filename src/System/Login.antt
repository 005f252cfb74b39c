-- ===== src/System/Login.antt =====
-- PublicKeyCallback of server/ssh.go: the user store is taken from the system once, and the function
-- that it returns reads the users' contents at each login.
use kappa.Base.{Bytes, Option, none, some, Result, ok, err}
use kappa.Bolt.{Bolt}
use kappa.Users.{Crypto}
use kappa.Ssh.{LoggedIn, public_key_callback}
use kappa.System.{Leaf, users, users_keyspace}

pub data CallbackError (E : Type 0) : Type 0 where
  system_cannot_be_nil : CallbackError E
  user_store : E → CallbackError E

module _ {b : Bolt} (l : Leaf b) where
  -- The check of a user's name and key, over the database at the time of the login.
  abbrev pub Callback : Type 0
  Callback = Bytes → Bytes → l.Database → LoggedIn b

  abbrev pub log_in : Crypto → Callback
  log_in c user key db = (public_key_callback b c user key (l.contents users_keyspace db)).0

  abbrev pub with_store :
      Crypto → Result b.Error l.Database → Result (CallbackError b.Error) Callback
  with_store c (err e) = err (user_store e)
  with_store c (ok db) = ok (log_in c)

  -- `none` is a nil system. A login changes nothing.
  unfoldable pub callback_of : Crypto → Option l.Database → Result (CallbackError b.Error) Callback
  unfolding users public_key_callback
  callback_of c none = err system_cannot_be_nil
  callback_of c (some db) = with_store c (users l db)

-- ===== src/Server/Start.antt =====
-- What NewServer leaves behind: a server, an error, or neither; and the admin's account.
use kappa.Base.{
  Bytes, [], ◌∷◌, Bool, true, false, not, ◌↔◌, none, ◌≡◌, ◌≢◌, refl, arith, ◌∙◌, ap, inr, ◌==◌,
  nat_eq, list_eq, list_beq, eq_refl, nonempty, Result, ok, err, saved,
}
use kappa.Bolt.{Bolt, BoltLaws, Location}
use kappa.Bolt.Laws.{get-saved_create, bucket-saved_create, bucket-saved_create_ne, error-create}
use kappa.Auth.{create_fingerprint}
use kappa.Users
use kappa.Users.{Crypto, UserError, keys_key, keys_of, bucket_of, read_key}
use kappa.Users.Shape.{IsUser}
use kappa.Ssh.{public_key_callback}
use kappa.Ssh.Login.{log_in-add_public_key}
use kappa.Server.{DatabaseConfig, setup_serf}
use kappa.Server.Boot.{
  Answers, read_private_key, Stop, returned, admin, add_admin, new_server, start_serf,
  start_listeners, pass,
}

-- The root certificate was read, and holds no certificate.
abbrev pub is_unparsed : {E Serf : Type 0} → Answers E Serf → Result E Bytes → Bool
is_unparsed a (ok roots) = not (a.append_certs roots)
is_unparsed a (err e) = false

module _ (b : Bolt) (law : BoltLaws b) (E Serf : Type 0) (c : Crypto) (config : DatabaseConfig)
    (a : Answers E Serf) (db : b.Db) where
  -- A server was started: then the keyspace is as the steps on the admin's account left it.
  started_state :
      (cert : Bytes) (serf : Serf)
      → a.admin_certificate ≡ ok cert
      → (new_server b E Serf c config a db).0 ≡ ok serf
      → ((new_server b E Serf c config a db).1 ≡ (add_admin b E Serf c cert db).1)
  unfolding new_server
  started_state cert serf h started = ground arith

  logged_some :
      ((e : E) → a.log_error e ≢ none)
      → (r : Result E Serf) → (start_serf b E Serf a r db).0 ≢ err (returned none)
  logged_some h (ok serf) e = cc
  logged_some h (err x) e = ground (arith, h x)

  start_listeners_neither :
      ((e : E) → a.log_error e ≢ none)
      → ((start_listeners b E Serf config a db).0 ≡ err (returned none))
        ↔ (is_unparsed a a.root_certificate ≡ true)
  unfolding start_listeners
  start_listeners_neither never = ground (
    arith,
    logged_some never
        (setup_serf E Serf config a.uuid a.ssh_port a.snapshot_path a.ensure_path a.create_serf),
  )

  add_admin-ne-neither : (cert : Bytes) → (add_admin b E Serf c cert db).0 ≢ err (returned none)
  unfolding add_admin
  add_admin-ne-neither cert = ground arith

  neither_step :
      (r : Result (Stop b E Serf) Bytes)
      → ((e : E) → a.log_error e ≢ none)
      → r ≢ err (returned none)
      → ((pass b E Serf (λ f. start_listeners b E Serf config a) r db).0 ≡ err (returned none))
        ↔ (((f : Bytes) × (r ≡ ok f)) × (is_unparsed a a.root_certificate ≡ true))
  neither_step (ok f) never ne =
      let (there, back) = start_listeners_neither never in
      (λ h. ((f, refl), there h), λ h. back h.1)
  neither_step (err x) never ne = (λ h. absurd (ne (cc)), λ h. cc h.0.1)

  pub behind_admin :
      (cert : Bytes)
      → a.make_data_path ≡ none
      → a.working_directory ≡ none
      → a.new_system ≡ none
      → read_private_key a ≡ none
      → a.admin_certificate ≡ ok cert
      → a.user_store ≡ none
      → new_server b E Serf c config a db
        ≡ pass b E Serf
            (λ f. start_listeners b E Serf config a)
            (add_admin b E Serf c cert db).0
            (add_admin b E Serf c cert db).1
  unfolding new_server
  behind_admin cert m w n r k u = ground arith

module _ (b : Bolt) (law : BoltLaws b) (E Serf : Type 0) (c : Crypto) (config : DatabaseConfig)
    (a : Answers E Serf) (db : b.Db) where
  -- NewServer returns neither a server nor an error exactly where the admin's account is made, and the
  -- root certificate is read and no certificate is found in it. The calls before the account succeed, and
  -- the logger's method Error never returns nil.
  pub new_server_neither :
      (cert : Bytes)
      → ((e : E) → a.log_error e ≢ none)
      → a.make_data_path ≡ none
      → a.working_directory ≡ none
      → a.new_system ≡ none
      → read_private_key a ≡ none
      → a.admin_certificate ≡ ok cert
      → a.user_store ≡ none
      → ((new_server b E Serf c config a db).0 ≡ err (returned none)) ↔ (
          ((fingerprint : Bytes) × ((add_admin b E Serf c cert db).0 ≡ ok fingerprint))
          × (is_unparsed a a.root_certificate ≡ true))
  new_server_neither cert never m w n r k u =
      rw (behind_admin b law E Serf c config a db cert m w n r k u) (
        neither_step b law E Serf c config a (add_admin b E Serf c cert db).1
          (add_admin b E Serf c cert db).0 never
          (add_admin-ne-neither b law E Serf c config a db cert))

user-ne-key : (name k : Bytes) → (bucket_of name == (k ∷ keys_of name)) ≡ false
unfolding list_beq
user-ne-key name k = ground arith

module _ (b : Bolt) (law : BoltLaws b) (E Serf : Type 0) (c : Crypto) (db : b.Db) where
  abbrev with_admin : b.Db
  with_admin = saved (b.create_bucket db (bucket_of admin)) db

  module _ (free : b.get db (bucket_of admin) ≡ none)
      (no_keys : b.get db (keys_of admin) ≡ none) where
    admin-IsUser : IsUser b with_admin keys_key admin
    admin-IsUser = record {
      exists =
          rw
            (
              bucket-saved_create law db admin [] (law.bucket_root db) refl free (bucket_of admin),
              eq_refl {A = Location} (bucket_of admin),
            )
            refl;
      free = get-saved_create law db (bucket_of admin) (keys_of admin) ∙ no_keys;
    }

    add_admin_state :
        (cert : Bytes)
        → (add_admin b E Serf c cert db).1 ≡ (Users.add_public_key b c admin cert with_admin).1
    unfolding add_admin Users.create
    add_admin_state cert =
        rw (law.write_tx_runs, error-create law db admin [] (law.bucket_root db) refl free) refl

  -- A server that was started lets the admin in with the key of the configured certificate, whether the
  -- account is new or was there before. The certificate is read as the key, the write is within the limits
  -- of Put, and no value or bucket stands in the places of the account, its key ring and the key.
  pub log_in-new_server :
      (config : DatabaseConfig) (a : Answers E Serf) (cert key : Bytes) (serf : Serf)
      → a.admin_certificate ≡ ok cert
      → nonempty cert ≡ true
      → read_key b c cert ≡ inr key
      → b.get db (bucket_of admin) ≡ none
      → b.get db (keys_of admin) ≡ none
      → b.bucket db (create_fingerprint c.md5 key ∷ keys_of admin) ≡ false
      → b.fits (create_fingerprint c.md5 key) key ≡ true
      → (new_server b E Serf c config a db).0 ≡ ok serf
      → (public_key_callback b c admin key (new_server b E Serf c config a db).1).0
        ≡ ok (record { pubkey = key; username = admin })
  log_in-new_server config a cert key serf has_cert full reads free no_keys no_bucket fits started =
      ap (λ d. (public_key_callback b c admin key d).0)
        (started_state b law E Serf c config a db cert serf has_cert started
          ∙ add_admin_state free no_keys cert)
      ∙ log_in-add_public_key b law c with_admin admin (admin-IsUser free no_keys) cert key key full
          reads
          (bucket-saved_create_ne law db (bucket_of admin)
              (create_fingerprint c.md5 key ∷ keys_of admin)
              (user-ne-key admin (create_fingerprint c.md5 key))
            ∙ no_bucket)
          fits
      ∙ rw (eq_refl (create_fingerprint c.md5 key)) refl

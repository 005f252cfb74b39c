-- ===== src/Client/Connect/Dialled.antt =====
-- When the client connects, and as whom.
use kappa.Base.{
  Bytes, codes, List, [], ◌∷◌, Bool, true, false, Option, none, some, nonempty, Result, ok, err,
  ◌≡◌, ◌↔◌, refl, ap, ◌∙◌, arith, nat_eq, list_eq, list_beq,
}
use kappa.Config.{Layers, text, first_of, resolve, Viper, ViperLaws}
use kappa.Config.Steps.{Flags}
use kappa.Config.Sources.{blank, first_of-none, steps_view, view-run_steps}
use kappa.Config.Casts.{Casts, get_string}
use kappa.Client.Connect.{
  client_steps, initialize_client_config, Url, Network, dialled, as_user, to_host, to_url, to_args,
  with_key, with_bytes, connect, start_client,
}

module _ (n : Network) where
  -- What it takes to connect: the key file holds a key, and the first argument is an address with the
  -- name of a user, who is let in with that key.
  pub record IsDialled (key_file : Bytes) (args : List Bytes) (client : n.Client) : Type 0 where
    pub bytes : Bytes
    pub key : n.Key
    pub address : Bytes
    pub rest : List Bytes
    pub url : Url
    pub user : Bytes
    pub readable : n.read_file key_file ≡ ok bytes
    pub parsed : n.parse_private_key bytes ≡ ok key
    pub first : args ≡ (address ∷ rest)
    pub is_url : n.parse_url address ≡ ok url
    pub has_user : url.user ≡ some user
    pub named : nonempty user ≡ true
    pub let_in : n.dial url.host user key ≡ ok client

  dialled_ok :
      (r : Result n.Error n.Client) (client : n.Client) → dialled n r ≡ ok client → r ≡ ok client
  dialled_ok (ok c) client h = ground arith
  dialled_ok (err e) client h = cc

  from_user :
      (key : n.Key) (host user : Bytes) (named : Bool) (client : n.Client)
      → as_user n key host user named ≡ ok client
      → (named ≡ true) × (n.dial host user key ≡ ok client)
  from_user key host user true client h = (refl, dialled_ok (n.dial host user key) client h)
  from_user key host user false client h = cc

  from_host :
      (key : n.Key) (host : Bytes) (o : Option Bytes) (client : n.Client)
      → to_host n key host o ≡ ok client
      → (user : Bytes) × (o ≡ some user) × (as_user n key host user (nonempty user) ≡ ok client)
  from_host key host none client h = cc
  from_host key host (some user) client h = (user, refl, h)

  from_address :
      (key : n.Key) (r : Result n.Error Url) (client : n.Client)
      → to_url n key r ≡ ok client
      → (url : Url) × (r ≡ ok url) × (to_host n key url.host url.user ≡ ok client)
  from_address key (ok url) client h = (url, refl, h)
  from_address key (err e) client h = cc

  from_args :
      (key : n.Key) (args : List Bytes) (client : n.Client)
      → to_args n key args ≡ ok client
      → (address : Bytes) × (rest : List Bytes) × (args ≡ (address ∷ rest))
        × (to_url n key (n.parse_url address) ≡ ok client)
  from_args key [] client h = cc
  from_args key (address ∷ rest) client h = (address, rest, refl, h)

  from_bytes :
      (r : Result n.Error n.Key) (args : List Bytes) (client : n.Client)
      → with_key n args r ≡ ok client
      → (key : n.Key) × (r ≡ ok key) × (to_args n key args ≡ ok client)
  from_bytes (ok key) args client h = (key, refl, h)
  from_bytes (err e) args client h = cc

  from_file :
      (r : Result n.Error Bytes) (args : List Bytes) (client : n.Client)
      → with_bytes n args r ≡ ok client
      → (bytes : Bytes) × (r ≡ ok bytes) × (with_key n args (n.parse_private_key bytes) ≡ ok client)
  from_file (ok bytes) args client h = (bytes, refl, h)
  from_file (err e) args client h = cc

  connect-IsDialled :
      (key_file : Bytes) (args : List Bytes) (client : n.Client)
      → connect n key_file args ≡ ok client
      → IsDialled key_file args client
  unfolding connect
  connect-IsDialled key_file args client h =
      let (bytes, readable, h) = from_file (n.read_file key_file) args client h in
      let (key, parsed, h) = from_bytes (n.parse_private_key bytes) args client h in
      let (address, rest, first, h) = from_args key args client h in
      let (url, is_url, h) = from_address key (n.parse_url address) client h in
      let (user, has_user, h) = from_host key url.host url.user client h in
      let (named, let_in) = from_user key url.host user (nonempty user) client h in
      record {
        bytes = bytes;
        key = key;
        address = address;
        rest = rest;
        url = url;
        user = user;
        readable = readable;
        parsed = parsed;
        first = first;
        is_url = is_url;
        has_user = has_user;
        named = named;
        let_in = let_in;
      }

  IsDialled-connect :
      (key_file : Bytes) (args : List Bytes) (client : n.Client)
      → IsDialled key_file args client
      → connect n key_file args ≡ ok client
  unfolding connect
  IsDialled-connect key_file args client d =
      rw (d.readable, d.parsed, d.first, d.is_url, d.has_user, d.named, d.let_in) refl

-- The flag `identity-file`, else the default, whose tilde no code expands.
abbrev pub key_file_of : Casts → Flags → Bytes
key_file_of casts flags =
    casts.to_string (first_of (flags (codes "identity-file")) (some (text (codes "~/.ssh/id_rsa"))))

module _ (n : Network) (v : Viper) (law : ViperLaws v) (casts : Casts) (flags : Flags)
    (c : v.Config) where
  key_file :
      v.view c ≡ (λ k. blank)
      → get_string v casts (initialize_client_config v flags c) (codes "ClientKey")
        ≡ key_file_of casts flags
  unfolding initialize_client_config list_beq
  key_file fresh = ap casts.to_string (
      law.get_resolves (initialize_client_config v flags c) (codes "ClientKey")
      ∙ ap (resolve v) (view-run_steps v law flags (codes "ClientKey") client_steps c)
      ∙ ap
          (λ (w : Bytes → Layers).
            resolve v
              (steps_view v law flags (codes "ClientKey") client_steps (w (codes "ClientKey"))))
          fresh
      ∙ first_of-none (flags (codes "identity-file")) (some (text (codes "~/.ssh/id_rsa"))))

  -- The client connects, and with which connection, exactly where the file of its key can be read and
  -- holds a key, the first argument is an address with a user whose name is not empty, and the host
  -- lets that user in with that key. The file is the one of the flag identity-file, else the default.
  -- Viper knew of no key before.
  pub start_client_iff :
      (args : List Bytes) (client : n.Client)
      → v.view c ≡ (λ k. blank)
      → (start_client n v casts flags args c ≡ ok client)
        ↔ IsDialled n (key_file_of casts flags) args client
  unfolding start_client
  start_client_iff args client fresh = rw (key_file fresh) (
    connect-IsDialled n (key_file_of casts flags) args client,
    IsDialled-connect n (key_file_of casts flags) args client,
  )

-- ===== src/Tests/Connect.antt =====
-- A client whose key file is there, and an address with a user.
use kappa.Base.{Bytes, codes, [], ◌∷◌, some, ok, ◌≡◌, ◌↔◌, refl}
use kappa.Config.Sources.{blank}
use kappa.Client.Connect.{Network, start_client}
use kappa.Client.Connect.Dialled.{IsDialled, key_file_of, start_client_iff}
use kappa.Tests.Config.{functions, functions-ViperLaws, no_flags, plain_casts}

-- Every file holds its name, every text is a key, and every address is ann's.
abbrev network : Network
network = record {
  Error = Unit {0};
  Key = Bytes;
  Client = Bytes;
  read_file = λ name. ok name;
  parse_private_key = λ bytes. ok bytes;
  parse_url = λ address. ok (record { user = some (codes "ann"); host = address });
  dial = λ host user key. ok user;
}

start_client_iff_example :
    (start_client network functions plain_casts no_flags (codes "east:9022" ∷ []) (λ k. blank)
      ≡ ok (codes "ann"))
    ↔ IsDialled network (key_file_of plain_casts no_flags) (codes "east:9022" ∷ []) (codes "ann")
start_client_iff_example =
    start_client_iff network functions functions-ViperLaws plain_casts no_flags (λ k. blank)
      (codes "east:9022" ∷ []) (codes "ann") refl

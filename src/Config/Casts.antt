-- ===== src/Config/Casts.antt =====
-- What viper's GetString, GetBool and GetInt make of a value, or of none, as a record of functions: the
-- package github.com/spf13/cast.
use kappa.Base.{Bytes, Bool, Option}
use kappa.Cluster.Atoi.{ℤ}
use kappa.Config.{Value, Viper}

pub record Casts : Type 0 where
  pub to_string : Option Value → Bytes
  pub to_bool : Option Value → Bool
  pub to_int : Option Value → ℤ

module _ (v : Viper) (casts : Casts) where
  abbrev pub get_string : v.Config → Bytes → Bytes
  get_string s key = casts.to_string (v.get s key)

  abbrev pub get_bool : v.Config → Bytes → Bool
  get_bool s key = casts.to_bool (v.get s key)

  abbrev pub get_int : v.Config → Bytes → ℤ
  get_int s key = casts.to_int (v.get s key)

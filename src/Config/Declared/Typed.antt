-- ===== src/Config/Declared/Typed.antt =====
-- The settings and the types of their flags.
use kappa.Base.{
  List, [], ◌∷◌, Bool, true, false, ◌&&◌, Option, none, some, nat_eq, list_eq, list_beq, ◌≡◌, ◌⊎◌,
  refl, arith, All,
}
use kappa.Config.{Value, Viper, from_env}
use kappa.Config.Steps.{AllFlags, initialize_config}
use kappa.Config.Table.{Command, of_server, Row, rows, flags_of}
use kappa.Config.Declared.{
  Kind, of_text, of_number, of_flag, kind, Declared, declared_by, find_flag,
}

abbrev pub kind_of : Option Value → Option Kind
kind_of none = none
kind_of (some x) = some (kind x)

abbrev declared_default : Option Declared → Option Value
declared_default none = none
declared_default (some d) = some d.default

abbrev same_kind : Option Kind → Option Kind → Bool
same_kind (some of_text) (some of_text) = true
same_kind (some of_number) (some of_number) = true
same_kind (some of_flag) (some of_flag) = true
same_kind _ _ = false

abbrev flag_default : Row → Option Value
flag_default r = declared_default (find_flag r.flag_name (declared_by r.command))

-- The row is a server's, and its flag's default is of the kind of its own.
abbrev is_server : Command → Bool
is_server of_server = true
is_server _ = false

abbrev is_sound : Row → Bool
is_sound r = is_server r.command && same_kind (kind_of (flag_default r)) (kind_of r.default)

abbrev is_declared : Option Declared → Bool
is_declared none = false
is_declared (some d) = true

abbrev all_rows : (Row → Bool) → List Row → Bool
all_rows test [] = true
all_rows test (r ∷ rs) = test r && all_rows test rs

rows-is_declared :
    all_rows (λ r. is_declared (find_flag r.flag_name (declared_by r.command))) rows ≡ true
unfolding list_beq
rows-is_declared = refl

-- The command of a setting declares the setting's flag, so that Lookup of it is not nil.
abbrev pub IsDeclared : Row → Type 0
IsDeclared r = (d : Declared) × (find_flag r.flag_name (declared_by r.command) ≡ some d)

declared-IsDeclared : (o : Option Declared) → is_declared o ≡ true → (d : Declared) × (o ≡ some d)
declared-IsDeclared none h = cc
declared-IsDeclared (some d) h = (d, refl)

both : (a b : Bool) → (a && b) ≡ true → (a ≡ true) × (b ≡ true)
both a b h = ground arith

all-IsDeclared :
    (rs : List Row)
    → all_rows (λ r. is_declared (find_flag r.flag_name (declared_by r.command))) rs ≡ true
    → All IsDeclared rs
all-IsDeclared [] h = tt
all-IsDeclared (r ∷ rs) h =
    let (first, rest) = both _ _ h in
    (
      declared-IsDeclared (find_flag r.flag_name (declared_by r.command)) first,
      all-IsDeclared rs rest,
    )

-- Every setting of the table has its flag declared.
rows-IsDeclared : All IsDeclared rows
rows-IsDeclared = all-IsDeclared rows rows-is_declared

module _ (v : Viper) (f : AllFlags) (c : v.Config) where
  -- The value of a setting is of the kind of its default; or the command line does not give it, and it is
  -- what its variable gives, or no variable gives it and it is what the file has.
  abbrev pub IsTyped : Row → Type 0
  IsTyped r =
      (x : Value)
      → v.get (initialize_config v f c) r.key ≡ some x
      → (some (kind x) ≡ kind_of r.default)
        ⊎ ((flags_of r.command f r.flag_name ≡ none)
            × ((from_env v r.variable ≡ some x)
                ⊎ ((from_env v r.variable ≡ none) × (v.files r.key ≡ some x))))

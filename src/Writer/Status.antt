-- ===== src/Writer/Status.antt =====
-- A client can read the status back from the line that is printed.
use kappa.Base.{
  ℕ, Bytes, List, [], ◌∷◌, Bool, true, false, Option, none, some, ◌≡◌, refl, ◌==◌, nat_eq, list_eq,
  if◌then◌else◌,
}
use kappa.Text.{take, has_prefix}
use kappa.Cluster.Atoi.{digits}
use kappa.Executor.{
  success, fail, StatusCode, ok_code, namespace_already_exists, user_already_exists, unauthorized,
  internal_server_error, invalid_statement_type, namespace_does_not_exist_code,
  user_does_not_exist_code, create_namespace_error,
}
use kappa.Writer.{light_red, light_green, number_of, print}

-- The bytes behind the first opening parenthesis.
abbrev pub behind_parenthesis : Bytes → Bytes
behind_parenthesis [] = []
behind_parenthesis (c ∷ s) = let rest = behind_parenthesis s in if c == b'(' then s else rest

-- A colour first, and a number of four digits in parentheses behind the first name.
abbrev pub read_status : Bytes → Option (Bool × ℕ)
read_status line = elim (digits 0 (take 4 (behind_parenthesis line))) [
  | none ↦ none
  | some n ↦
      if has_prefix line light_green
      then some (true, n)
      else if has_prefix line light_red
      then some (false, n)
      else none
]

module _ (other_verb : Bytes → List Bytes → Bytes) where
  -- From the printed line of a status a client reads whether it is a success or a failure, and the number
  -- of its code, whatever the format and the arguments are.
  pub read_status-print :
      (code : StatusCode) (format : Bytes) (args : List Bytes)
      → (read_status (print other_verb (success code format args)) ≡ some (true, number_of code))
        × (read_status (print other_verb (fail code format args)) ≡ some (false, number_of code))
  unfolding print number_of has_prefix digits
  read_status-print ok_code format args = (refl, refl)
  read_status-print namespace_already_exists format args = (refl, refl)
  read_status-print user_already_exists format args = (refl, refl)
  read_status-print unauthorized format args = (refl, refl)
  read_status-print internal_server_error format args = (refl, refl)
  read_status-print invalid_statement_type format args = (refl, refl)
  read_status-print namespace_does_not_exist_code format args = (refl, refl)
  read_status-print user_does_not_exist_code format args = (refl, refl)
  read_status-print create_namespace_error format args = (refl, refl)

-- ===== src/Writer.antt =====
-- The bytes of a reply: colorCode, Fail, Success and Write of common/writer.go, and the numbers and
-- names of the status codes in common/codes.go. The formats of the program have the verb %s only; what
-- fmt prints from any other verb on is the argument `other_verb`.
pub mod Status
use kappa.Base.{
  ℕ, Bytes, codes, List, [], ◌∷◌, ◌++◌, Option, none, some, ◌==◌, nat_eq, if◌then◌else◌, nonempty,
}
use kappa.Text.Decimal.{itoa}
use kappa.Executor.{
  Reply, success, fail, written, StatusCode, ok_code, namespace_already_exists, user_already_exists,
  unauthorized, internal_server_error, invalid_statement_type, namespace_does_not_exist_code,
  user_does_not_exist_code, create_namespace_error,
}

-- `int(code)`
unfoldable pub number_of : StatusCode → ℕ
number_of ok_code = 2000
number_of namespace_already_exists = 2001
number_of user_already_exists = 2002
number_of unauthorized = 4000
number_of internal_server_error = 5000
number_of invalid_statement_type = 5001
number_of namespace_does_not_exist_code = 5002
number_of user_does_not_exist_code = 5003
number_of create_namespace_error = 5004

-- `statusCodes[code]`
unfoldable pub status_codes : StatusCode → Bytes
status_codes ok_code = codes "OK"
status_codes namespace_already_exists = codes "NamespaceAlreadyExists"
status_codes user_already_exists = codes "UserAlreadyExists"
status_codes unauthorized = codes "Unauthorized"
status_codes internal_server_error = codes "InternalServerError"
status_codes invalid_statement_type = codes "InvalidStatementType"
status_codes namespace_does_not_exist_code = codes "NamespaceDoesNotExist"
status_codes user_does_not_exist_code = codes "UserDoesNotExist"
status_codes create_namespace_error = codes "CreateNamespaceError"

-- An ANSI escape with two digits, such as `DefaultColorCodes.LightRed`.
abbrev pub color : ℕ → ℕ → Bytes
color a b = 27 ∷ b'[' ∷ a ∷ b ∷ b'm' ∷ []

abbrev pub light_red : Bytes
light_red = color b'9' b'1'

abbrev pub light_green : Bytes
light_green = color b'9' b'2'

abbrev pub light_magenta : Bytes
light_magenta = color b'9' b'5'

abbrev pub light_blue : Bytes
light_blue = color b'9' b'4'

abbrev pub light_grey : Bytes
light_grey = color b'9' b'0'

abbrev pub reset : Bytes
reset = 27 ∷ b'[' ∷ b'0' ∷ b'm' ∷ []

abbrev pub newline : Bytes
newline = 13 ∷ 10 ∷ []

-- The arguments that no verb took.
abbrev extra_args : List Bytes → Bytes
extra_args [] = []
extra_args (a ∷ []) = codes "string=" ++ a
extra_args (a ∷ c ∷ args) = codes "string=" ++ (a ++ (codes ", " ++ extra_args (c ∷ args)))

abbrev extra : List Bytes → Bytes
extra [] = []
extra (a ∷ args) = codes "%!(EXTRA " ++ (extra_args (a ∷ args) ++ codes ")")

module _ (other_verb : Bytes → List Bytes → Bytes) where
  -- `fmt.Fprintf` for arguments that are strings.
  unfoldable pub fprintf : Bytes → List Bytes → Bytes
  fprintf [] args = extra args
  fprintf (c ∷ []) args = if c == b'%' then codes "%!(NOVERB)" ++ extra args else c ∷ extra args
  fprintf (c ∷ v ∷ s) [] =
      let plain = c ∷ fprintf (v ∷ s) [] in
      let missing = codes "%!s(MISSING)" ++ fprintf s [] in
      if c == b'%' then (if v == b's' then missing else other_verb (v ∷ s) []) else plain
  fprintf (c ∷ v ∷ s) (a ∷ args) =
      let plain = c ∷ fprintf (v ∷ s) (a ∷ args) in
      let filled = a ++ fprintf s args in
      if c == b'%' then (if v == b's' then filled else other_verb (v ∷ s) (a ∷ args)) else plain

  abbrev message : Bytes → List Bytes → Bytes
  message format args = if nonempty format then codes ": " ++ fprintf format args else []

  unfoldable pub color_code : Bytes → StatusCode → Bytes → List Bytes → Bytes
  unfolding fprintf number_of status_codes itoa
  color_code color code format args =
      color
      ++ (codes " "
          ++ (status_codes code
              ++ (codes " ("
                  ++ (itoa (number_of code)
                      ++ (codes ")" ++ (message format args ++ (reset ++ newline)))))))

  -- Fail, Success and Write
  unfoldable pub print : Reply → Bytes
  unfolding color_code
  print (fail code format args) = color_code light_red code format args
  print (success code format args) = color_code light_green code format args
  print (written s) = s

-- ===== src/Skl/Parser.antt =====
-- The parser of statements: skl/parser.go and skl/errors.go. The loop over a namespace's parts
-- runs on fuel: `none` is a loop that is still running. The literals are in a module below.
pub mod Parts
pub mod Statements
pub mod Termination
pub mod Literals
use kappa.Base.{
  ℕ, zero, suc, ◌&&◌, Bytes, codes, List, [], ◌∷◌, ◌++◌, Bool, true, false, Option, none, some,
  nonempty, if◌then◌else◌, State, ◌>>=◌, pure, Result, ok, err,
}
use kappa.Text.{dot}
use kappa.Skl.{
  Statement, use_statement, create_namespace_statement, drop_namespace_statement,
  show_namespaces_statement,
}
use kappa.Skl.Scanner.{
  Token, ws, ident, Lexeme, Pos, Source, BufScanner, scan, unscan, use_keyword, create_keyword,
  drop_keyword, show_keyword, namespace_keyword, namespaces_keyword,
}
use kappa.Skl.Scanner

pub record ParseError : Type 0 where
  pub message : Bytes
  pub found : Bytes
  pub expected : List Bytes
  pub pos : Pos

pub data Part : Type 0 where
  period : Part
  word : Part
  stop : Part

abbrev pub part_of : Token → Part
part_of Scanner.dot = period
part_of ident = word
part_of _ = stop

abbrev pub Parsed : Type 0 → Type 0
Parsed A = Option (Result ParseError A)

-- What the loop leaves: the namespace, whether it ends in a period, and the lexeme that ended it.
abbrev pub Scanned : Type 0
Scanned = Bytes × Bool × Lexeme

abbrev if_ws : {A : Type 0} → Token → A → A → A
if_ws ws then_ else_ = then_
if_ws _ then_ else_ = else_

unfoldable pub scan_ignore_whitespace : Source → State BufScanner Lexeme
unfolding scan
scan_ignore_whitespace source s =
    let (x, s') = scan source s in if_ws x.tok (scan source s') (x, s')

-- One round of the loop behind its scan; `continue` is the rest of the loop.
abbrev pub round :
    (Bytes → Bool → State BufScanner (Option Scanned))
    → Bytes
    → Bool
    → Lexeme
    → Part
    → State BufScanner (Option Scanned)
round continue namespace end_period x period = continue (namespace ++ dot ∷ []) true
round continue namespace end_period x word = continue (namespace ++ x.lit) false
round continue namespace end_period x stop = pure (some (namespace, end_period, x))

unfoldable pub scan_parts : Source → ℕ → Bytes → Bool → State BufScanner (Option Scanned)
unfolding scan
scan_parts source zero namespace end_period s = (none, s)
scan_parts source (suc fuel) namespace end_period s =
    let (x, s') = scan source s in
    round (scan_parts source fuel) namespace end_period x (part_of x.tok) s'

module _ (token_string : Token → Bytes) where
  abbrev pub tokstr : Token → Bytes → Bytes
  tokstr tok lit = if nonempty lit && if_ws tok false true then lit else token_string tok

  abbrev pub new_parse_error : Lexeme → List Bytes → ParseError
  new_parse_error x expected = record {
    message = [];
    found = tokstr x.tok x.lit;
    expected = expected;
    pos = x.pos;
  }

  -- `p.unscan()` behind the loop, and the test on the last period
  abbrev pub finish_namespace : Option Scanned → State BufScanner (Parsed Bytes)
  finish_namespace none s = (none, s)
  finish_namespace (some (namespace, end_period, x)) s = (
    some (if end_period then err (new_parse_error x (codes "identifier" ∷ [])) else ok namespace),
    unscan s,
  )

  abbrev first_part : Source → ℕ → Lexeme → Part → State BufScanner (Parsed Bytes)
  first_part source fuel x word = scan_parts source fuel x.lit false >>= finish_namespace
  first_part source fuel x _ = pure (some (err (new_parse_error x (codes "namespace" ∷ []))))

  unfoldable pub parse_namespace : Source → ℕ → State BufScanner (Parsed Bytes)
  unfolding scan_ignore_whitespace scan_parts
  parse_namespace source fuel = do
    x ← scan_ignore_whitespace source
    first_part source fuel x (part_of x.tok)

  abbrev pub stated : (Bytes → Statement) → Parsed Bytes → Parsed Statement
  stated make none = none
  stated make (some (err e)) = some (err e)
  stated make (some (ok name)) = some (ok (make name))

  -- parseUseStatement, parseCreateNamespaceStatement and parseDropNamespaceStatement
  unfoldable pub parse_named :
      (Bytes → Statement) → Source → ℕ → State BufScanner (Parsed Statement)
  unfolding parse_namespace
  parse_named make source fuel = do name ← parse_namespace source fuel; pure (stated make name)

  abbrev refuse : Lexeme → List Bytes → State BufScanner (Parsed Statement)
  refuse x expected = pure (some (err (new_parse_error x expected)))

  abbrev pub behind_verb :
      (Bytes → Statement) → Source → ℕ → Lexeme → Token → State BufScanner (Parsed Statement)
  behind_verb make source fuel x namespace_keyword = parse_named make source fuel
  behind_verb make source fuel x _ = refuse x (codes "NAMESPACE" ∷ [])

  -- parseCreateStatement and parseDropStatement
  unfoldable pub parse_verb : (Bytes → Statement) → Source → ℕ → State BufScanner (Parsed Statement)
  unfolding parse_named
  parse_verb make source fuel = do
    x ← scan_ignore_whitespace source
    behind_verb make source fuel x x.tok

  abbrev pub behind_show : Lexeme → Token → State BufScanner (Parsed Statement)
  behind_show x namespaces_keyword = pure (some (ok show_namespaces_statement))
  behind_show x _ = refuse x (codes "NAMESPACES" ∷ [])

  unfoldable pub parse_show_statement : Source → State BufScanner (Parsed Statement)
  unfolding scan_ignore_whitespace
  parse_show_statement source = do x ← scan_ignore_whitespace source; behind_show x x.tok

  abbrev pub by_keyword : Source → ℕ → Lexeme → Token → State BufScanner (Parsed Statement)
  by_keyword source fuel x use_keyword = parse_named use_statement source fuel
  by_keyword source fuel x create_keyword = parse_verb create_namespace_statement source fuel
  by_keyword source fuel x drop_keyword = parse_verb drop_namespace_statement source fuel
  by_keyword source fuel x show_keyword = parse_show_statement source
  by_keyword source fuel x _ =
      refuse x (codes "USE" ∷ codes "CREATE" ∷ codes "SHOW" ∷ codes "DROP" ∷ [])

  unfoldable pub parse_statement : Source → ℕ → State BufScanner (Parsed Statement)
  unfolding parse_named parse_verb parse_show_statement
  parse_statement source fuel = do x ← scan_ignore_whitespace source; by_keyword source fuel x x.tok

-- ===== src/Skl/Parser/Literals.antt =====
-- The parser of literals: parseString, parseIdent, parseInt, parseUInt32 and parseUInt64 of
-- skl/parser.go, and the text of an error, skl/errors.go. The texts of the errors of strconv are the
-- arguments `atoi_error` and `parse_uint_error`.
pub mod Bounds
use kappa.Base.{
  ℕ, ◌+◌, ◌^◌, ◌||◌, Bytes, codes, List, [], ◌∷◌, ◌++◌, Bool, true, false, Option, none, some,
  nonempty, if◌then◌else◌, ltb, contains, nat_eq, State, ◌>>=◌, pure, Result, ok, err,
}
use kappa.Text.{dot}
use kappa.Text.Decimal.{itoa}
use kappa.Cluster.Atoi.{ℤ, pos, negsuc, magnitude, atoi}
use kappa.Cluster.Ports.{show_int}
use kappa.Skl.Scanner.{Token, ident, number, string_keyword, Lexeme, Pos, Source, BufScanner}
use kappa.Skl.Parser.{ParseError, new_parse_error, scan_ignore_whitespace}

-- `strings.Join(words, ", ")`
abbrev pub join_words : List Bytes → Bytes
join_words [] = []
join_words (w ∷ []) = w
join_words (w ∷ v ∷ ws) = w ++ (codes ", " ++ join_words (v ∷ ws))

abbrev at_pos : Pos → Bytes
at_pos p = codes " at line " ++ (itoa (p.line + 1) ++ (codes ", char " ++ itoa (p.char + 1)))

-- `Error()`
unfoldable pub error_text : ParseError → Bytes
unfolding itoa
error_text e =
    if nonempty e.message
    then e.message ++ at_pos e.pos
    else codes "found "
      ++ (e.found ++ (codes ", expected " ++ (join_words e.expected ++ at_pos e.pos)))

abbrev message_error : Bytes → Pos → ParseError
message_error m p = record { message = m; found = []; expected = []; pos = p }

-- `a < b`
abbrev pub int_ltb : ℤ → ℤ → Bool
int_ltb (pos a) (pos b) = ltb a b
int_ltb (pos a) (negsuc b) = false
int_ltb (negsuc a) (pos b) = true
int_ltb (negsuc a) (negsuc b) = ltb b a

-- `strconv.ParseUint(s, 10, bits)`, with `none` for an error
unfoldable pub parse_uint : ℕ → Bytes → Option ℕ
unfolding magnitude
parse_uint bits s = elim (magnitude s) [
  | none ↦ none
  | some n ↦ if ltb n (2 ^ bits) then some n else none
]

module _ (token_string : Token → Bytes) where
  abbrev pub Literal : Type 0 → Type 0
  Literal A = Result ParseError A

  abbrev refused : {A : Type 0} → Lexeme → Bytes → Literal A
  refused x word = err (new_parse_error token_string x (word ∷ []))

  abbrev pub string_at : Lexeme → Token → Literal Bytes
  string_at x string_keyword = ok x.lit
  string_at x _ = refused x (codes "string")

  unfoldable pub parse_string : Source → State BufScanner (Literal Bytes)
  unfolding scan_ignore_whitespace
  parse_string source = do x ← scan_ignore_whitespace source; pure (string_at x x.tok)

  abbrev pub ident_at : Lexeme → Token → Literal Bytes
  ident_at x ident = ok x.lit
  ident_at x _ = refused x (codes "identifier")

  unfoldable pub parse_ident : Source → State BufScanner (Literal Bytes)
  unfolding scan_ignore_whitespace
  parse_ident source = do x ← scan_ignore_whitespace source; pure (ident_at x x.tok)

  module _ (atoi_error : Bytes → Bytes) where
    abbrev out_of_bounds : ℤ → ℤ → ℤ → Bytes
    out_of_bounds n lo hi =
        codes "invalid value "
        ++ (show_int n
            ++ (codes ": must be " ++ (show_int lo ++ (codes " <= n <= " ++ show_int hi))))

    abbrev pub bounded : ℤ → ℤ → Lexeme → Option ℤ → Literal ℤ
    bounded lo hi x none = err (message_error (atoi_error x.lit) x.pos)
    bounded lo hi x (some n) =
        if int_ltb n lo || int_ltb hi n
        then err (message_error (out_of_bounds n lo hi) x.pos)
        else ok n

    abbrev pub int_at : ℤ → ℤ → Lexeme → Token → Literal ℤ
    int_at lo hi x number =
        if contains dot x.lit
        then err (message_error (codes "number must be an integer") x.pos)
        else bounded lo hi x (atoi x.lit)
    int_at lo hi x _ = refused x (codes "number")

    unfoldable pub parse_int : ℤ → ℤ → Source → State BufScanner (Literal ℤ)
    unfolding scan_ignore_whitespace contains atoi show_int
    parse_int lo hi source = do x ← scan_ignore_whitespace source; pure (int_at lo hi x x.tok)

  module _ (parse_uint_error : ℕ → Bytes → Bytes) where
    abbrev converted : ℕ → Lexeme → Option ℕ → Literal ℕ
    converted bits x none = err (message_error (parse_uint_error bits x.lit) x.pos)
    converted bits x (some n) = ok n

    abbrev pub uint_at : ℕ → Lexeme → Token → Literal ℕ
    uint_at bits x number = converted bits x (parse_uint bits x.lit)
    uint_at bits x _ = refused x (codes "number")

    unfoldable pub parse_uint32 : Source → State BufScanner (Literal ℕ)
    unfolding scan_ignore_whitespace parse_uint
    parse_uint32 source = do x ← scan_ignore_whitespace source; pure (uint_at 32 x x.tok)

    unfoldable pub parse_uint64 : Source → State BufScanner (Literal ℕ)
    unfolding scan_ignore_whitespace parse_uint
    parse_uint64 source = do x ← scan_ignore_whitespace source; pure (uint_at 64 x x.tok)

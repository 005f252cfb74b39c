-- ===== src/Tests/Skl.antt =====
-- Streams of tokens that spell statements.
use kappa.Base.{
  ℕ, zero, suc, ◌+◌, ◌≤◌, ◌≢◌, ◌↔◌, none, some, ok, false, contains, nat_eq, Bytes, codes, List, [],
  ◌∷◌, ◌≡◌, refl, arith,
}
use kappa.Skl.Scanner
use kappa.Skl.Scanner.{
  Token, ident, number, ws, eof, Lexeme, Source, curr, scan, unscan, new_buf_scanner, use_keyword,
  show_keyword, namespaces_keyword,
}
use kappa.Skl.Scanner.Cursor.{IsAt, scan_refines}
use kappa.Text.{dot}
use kappa.Cluster.Atoi.{pos, atoi}
use kappa.Skl.Parser.{parse_statement, stated, part_of, stop}
use kappa.Skl.Parser.Literals.{parse_int}
use kappa.Skl.Parser.Literals.Bounds.{IsWithin, parse_int_iff}
use kappa.Skl.Parser.Termination.{parse_statement_ends}
use kappa.Skl.Parser.Parts.{next, period_piece, word_piece, Piece}
use kappa.Skl.Parser.Statements.{use_form, make, named, parse_statement-spelling}

abbrev lexeme : Token → Bytes → Lexeme
lexeme t s = record { tok = t; pos = record { line = 0; char = 0 }; lit = s }

abbrev end_of_file : Lexeme
end_of_file = lexeme eof []

-- The lexer returns the end of the file for ever.
abbrev stream : List Lexeme → Source
stream [] n = end_of_file
stream (x ∷ xs) zero = x
stream (x ∷ xs) (suc n) = stream xs n

abbrev no_string : Token → Bytes
no_string t = []

abbrev no_message : Bytes → Bytes
no_message s = s

-- USE acme.web
abbrev use_web : Source
use_web = stream (
    lexeme use_keyword (codes "USE")
    ∷ lexeme ws (codes " ")
    ∷ lexeme ident (codes "acme")
    ∷ lexeme Scanner.dot (codes ".")
    ∷ lexeme ident (codes "web")
    ∷ [])

starts : (source : Source) → IsAt source 0 new_buf_scanner
starts source = record {
  in_range = omega arith;
  room = omega arith;
  behind = refl;
  last_0 = λ p. absurd (omega arith);
  last_1 = λ p. absurd (omega arith);
  last_2 = λ p. absurd (omega arith);
}

abbrev in_bounds : Source
in_bounds = stream (lexeme ws (codes " ") ∷ lexeme number (codes "41") ∷ [])

parse_int_iff_example :
    (((parse_int no_string no_message (pos 1) (pos 50) in_bounds new_buf_scanner).0 ≡ ok (pos 41))
      ↔ (((in_bounds (next in_bounds 0)).tok ≡ number)
          × (contains dot (in_bounds (next in_bounds 0)).lit ≡ false)
          × (atoi (in_bounds (next in_bounds 0)).lit ≡ some (pos 41))
          × IsWithin (pos 1) (pos 50) (pos 41)))
    × IsAt in_bounds
        (next in_bounds 0 + 1)
        (parse_int no_string no_message (pos 1) (pos 50) in_bounds new_buf_scanner).1
parse_int_iff_example =
    parse_int_iff no_string in_bounds 0 new_buf_scanner (starts in_bounds) no_message (pos 1)
      (pos 50) (pos 41)

parse_int_run :
    (parse_int no_string no_message (pos 1) (pos 50) in_bounds new_buf_scanner).0 ≡ ok (pos 41)
unfolding parse_int
parse_int_run = refl

use_web_ends : (n : ℕ) → 5 ≤ n → part_of (use_web n).tok ≡ stop
use_web_ends (suc (suc (suc (suc (suc n))))) h = refl
use_web_ends zero h = absurd (omega arith)
use_web_ends (suc zero) h = absurd (omega arith)
use_web_ends (suc (suc zero)) h = absurd (omega arith)
use_web_ends (suc (suc (suc zero))) h = absurd (omega arith)
use_web_ends (suc (suc (suc (suc zero)))) h = absurd (omega arith)

parse_statement_ends_example : (parse_statement no_string use_web 6 new_buf_scanner).0 ≢ none
parse_statement_ends_example =
    parse_statement_ends no_string use_web 5 6 use_web_ends (omega arith) 0 new_buf_scanner
      (starts use_web)

scan_refines_example :
    ((scan use_web new_buf_scanner).0 ≡ use_web 0) × IsAt use_web 1 (scan use_web new_buf_scanner).1
scan_refines_example = scan_refines use_web 0 new_buf_scanner (starts use_web)

abbrev web : List Piece
web = period_piece ∷ word_piece (codes "web") ∷ []

parse_statement-spelling_example :
    ((parse_statement no_string use_web 3 new_buf_scanner).0
      ≡ stated no_string (make use_form) (named no_string use_web 5 (codes "acme") web))
    × IsAt use_web 5 (parse_statement no_string use_web 3 new_buf_scanner).1
parse_statement-spelling_example =
    parse_statement-spelling no_string use_web 3 0 1 web new_buf_scanner (starts use_web) refl
      (refl, (refl, refl, refl)) (omega arith) use_form (refl, refl)

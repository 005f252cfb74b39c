-- ===== src/Client/Session.antt =====
-- The loop over the lines of a client's session, in the Run function of commands/cli.go. The lexer, the
-- bytes of an int32 from package xbinary and TrimSpace are arguments; the parser is the one of Skl.
pub mod Transcript
pub mod Saved
use kappa.Base.{
  ℕ, ◌%◌, ◌^◌, Bool, true, false, Bytes, codes, List, [], ◌∷◌, ◌++◌, Option, none, some, ◌==◌, ◌||◌,
  nat_eq, list_eq, if◌then◌else◌, nonempty, length, Result, ok, err,
}
use kappa.Text.{has_prefix}
use kappa.Cluster.Atoi.{ℤ, pos, negsuc}
use kappa.Skl.{Statement, to_string}
use kappa.Skl.Scanner.{Token, Source, new_buf_scanner}
use kappa.Skl.Parser.{Parsed, ParseError, parse_statement}
use kappa.Skl.Parser.Literals.{error_text}
use kappa.Executor.{ok_code, success}
use kappa.Writer.{light_grey, light_red, reset, newline, print}
use kappa.Client.History.{History, line_feed, new_history, append, write_to_file}

-- A line that ReadLine returns, and the size that the server's answer starts with, where it is asked for.
pub record Line : Type 0 where
  pub input : Bytes
  pub size : ℤ

-- What the terminal is told.
pub data Shown : Type 0 where
  write : Bytes → Shown
  remove_last_line : Shown

-- What the channel is told, and the history.
pub record Session : Type 0 where
  pub history : History
  pub shown : List Shown
  pub sent : List Bytes

-- How a round of the loop ends: with the next one, behind the loop, in the panic of `make` at a size
-- below zero, or in a parser that is still running.
pub data Outcome : Type 0 where
  continues leaves panics runs_on : Outcome

abbrev writes : List Bytes → List Shown
writes [] = []
writes (w ∷ ws) = write w ∷ writes ws

abbrev pub show : List Shown → Session → Session
show ws s = record s { shown = s.shown ++ ws }

-- One write for each entry.
abbrev pub listed : List Bytes → List Shown
listed [] = []
listed (e ∷ es) = write (codes " " ++ (e ++ newline)) ∷ listed es

abbrev pub is_exit : Bytes → Bool
is_exit line = line == codes "exit" || line == codes "quit"

abbrev pub is_comment : Bytes → Bool
is_comment line = has_prefix line (codes "//") || has_prefix line (codes "--")

-- The next round, if there is one.
abbrev pub and_then : (Session → Outcome × Session) → Outcome × Session → Outcome × Session
and_then next (continues, s) = next s
and_then next (o, s) = (o, s)

-- The file behind the session.
abbrev pub saved_file : Option Bytes → Bytes → Outcome × Session → Outcome × Bytes
saved_file open_error file (leaves, s) = (leaves, (write_to_file s.history open_error file).1)
saved_file open_error file (o, s) = (o, file)

module _ (token_string : Token → Bytes) (lex : Bytes → Source) (fuel : Bytes → ℕ) where
  -- skl.ParseStatement: a new scanner for each line
  unfoldable pub parse_line : Bytes → Parsed Statement
  unfolding parse_statement
  parse_line line = (parse_statement token_string (lex line) (fuel line) new_buf_scanner).0

  module _ (other_verb : Bytes → List Bytes → Bytes) (put_int32 : ℕ → Bytes) where
    -- The bytes of the length as an int32, by its residue, and the line.
    abbrev pub send : Bytes → Session → Session
    send line s = record s { sent = s.sent ++ put_int32 (length line % 2 ^ 32) ∷ line ∷ [] }

    abbrev pub answered : Bytes → Statement → ℤ → Session → Outcome × Session
    answered line stmt (negsuc n) s = (panics, s)
    answered line stmt (pos n) s = (
      continues,
      record s {
        shown = s.shown ++ write (print other_verb (success ok_code (to_string stmt) [])) ∷ [];
        history = append (line ++ line_feed ∷ []) s.history;
      },
    )

    abbrev pub parsed : Bytes → ℤ → Session → Parsed Statement → Outcome × Session
    parsed line size s none = (runs_on, s)
    parsed line size s (some (err e)) = (
      continues,
      show
          (writes (light_red ∷ (codes " " ++ error_text e) ∷ newline ∷ reset ∷ [])
            ++ remove_last_line ∷ [])
          s,
    )
    parsed line size s (some (ok stmt)) = answered line stmt size (send line s)

    -- The tests of a round: whether the line has text, leaves, shows the history, and is a comment.
    abbrev pub by_kind :
        Bool → Bool → Bool → Bool → Bytes → ℤ → Session → Parsed Statement → Outcome × Session
    by_kind has_text exit history comment line size s p =
        let shown_history : Outcome × Session =
          (continues, show (listed s.history.old_entries ++ listed s.history.new_entries) s) in
        let commented : Outcome × Session =
          (continues, show (writes (light_grey ∷ (line ++ newline) ∷ reset ∷ [])) s) in
        let skipped : Outcome × Session = (continues, s) in
        let left : Outcome × Session = (leaves, s) in
        if has_text
        then (if exit
            then left
            else if history
            then shown_history
            else if comment
            then commented
            else parsed line size s p)
        else skipped

    -- A round, for the line behind TrimSpace.
    unfoldable pub round : Bytes → ℤ → Session → Outcome × Session
    unfolding append has_prefix print error_text to_string
    round line size s =
        by_kind (nonempty line) (is_exit line) (line == codes "history") (is_comment line) line size
          s (parse_line line)

    module _ (trim_space : Bytes → Bytes) where
      -- The loop over the lines until ReadLine fails, which is behind the last line of the list.
      unfoldable pub repl : List Line → Session → Outcome × Session
      unfolding round
      repl [] s = (leaves, s)
      repl (l ∷ ls) s = and_then (repl ls) (round (trim_space l.input) l.size s)

      -- The session between the reading of the history's file and its writing.
      unfoldable pub run_client : Option Bytes → Bytes → List Line → Outcome × Bytes
      unfolding repl new_history write_to_file
      run_client open_error file ls =
          saved_file open_error file
            (repl ls (record { history = new_history (some file); shown = []; sent = [] }))

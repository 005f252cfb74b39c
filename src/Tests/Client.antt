-- ===== src/Tests/Client.antt =====
-- A session of the client with one statement, given twice, and a comment.
use kappa.Base.{
  ℕ, zero, suc, ◌≤◌, contains, list_eq, Bytes, codes, List, [], ◌∷◌, ◌++◌, none, some, ◌≡◌, refl,
  arith, inl, nat_eq, list_beq,
}
use kappa.Cluster.Atoi.{pos}
use kappa.Skl.Scanner.{Token, eof, Lexeme, Source, show_keyword, namespaces_keyword}
use kappa.Text.{has_prefix}
use kappa.Skl.Parser.{part_of, stop}
use kappa.Client.Messages.{get_message, write_message}
use kappa.Client.History.{new_history, read_entries}
use kappa.Client.History.File.{IsClosed, unrepeated}
use kappa.Client.History.Appends.{unrepeated_from}
use kappa.Client.Session.{Line, Session, leaves, run_client, repl, parse_line}
use kappa.Client.Session.Transcript.{accepted, IsTranscript, repl-IsTranscript}
use kappa.Client.Session.Saved.{Lexes, run_client-read_entries, parse_line_ends}

abbrev lexeme : Token → Bytes → Lexeme
lexeme t s = record { tok = t; pos = record { line = 0; char = 0 }; lit = s }

-- Every line is lexed as SHOW NAMESPACES.
abbrev show_source : Source
show_source zero = lexeme show_keyword (codes "SHOW")
show_source (suc zero) = lexeme namespaces_keyword (codes "NAMESPACES")
show_source (suc (suc n)) = lexeme eof []

abbrev lex : Bytes → Source
lex line = show_source

abbrev fuel : Bytes → ℕ
fuel line = 3

abbrev no_string : Token → Bytes
no_string t = []

abbrev no_verb : Bytes → List Bytes → Bytes
no_verb s args = s

abbrev word_bytes : ℕ → Bytes
word_bytes n = n ∷ 0 ∷ 0 ∷ 0 ∷ []

abbrev no_trim : Bytes → Bytes
no_trim s = s

abbrev typed : Bytes → Line
typed s = record { input = s; size = pos 0 }

abbrev show_namespaces : Bytes
show_namespaces = codes "SHOW NAMESPACES"

abbrev lines : List Line
lines =
    typed show_namespaces
    ∷ typed show_namespaces
    ∷ typed (codes "-- a comment")
    ∷ typed (codes "exit")
    ∷ typed show_namespaces
    ∷ []

abbrev file : Bytes
file = []

lexes : Lexes lex fuel
lexes line = (2, omega arith, show_ends)
  where
    show_ends : (k : ℕ) → 2 ≤ k → part_of (show_source k).tok ≡ stop
    show_ends zero h = absurd (omega arith)
    show_ends (suc zero) h = absurd (omega arith)
    show_ends (suc (suc k)) h = refl

run_client-read_entries_example :
    ((run_client no_string lex fuel no_verb word_bytes no_trim none file lines).0 ≡ leaves)
    × (read_entries
          (some (run_client no_string lex fuel no_verb word_bytes no_trim none file lines).1)
        ≡ read_entries (some file) ++ unrepeated (accepted no_string lex fuel no_trim lines))
    × IsClosed (run_client no_string lex fuel no_verb word_bytes no_trim none file lines).1
unfolding contains
run_client-read_entries_example =
    run_client-read_entries no_string lex fuel lexes no_trim no_verb word_bytes file lines
      (inl refl) (tt, (tt, (tt, (tt, (tt, tt))))) (refl, (refl, (refl, (refl, (refl, tt)))))

-- The statement is kept once, and what stands behind the exit is not kept.
kept_run : unrepeated (accepted no_string lex fuel no_trim lines) ≡ show_namespaces ∷ []
unfolding parse_line unrepeated_from list_beq has_prefix
kept_run = refl

abbrev start : Session
start = record { history = new_history (some file); shown = []; sent = [] }

repl-IsTranscript_example :
    IsTranscript no_string lex fuel no_verb word_bytes
      (accepted no_string lex fuel no_trim lines)
      start
      (repl no_string lex fuel no_verb word_bytes no_trim lines start)
repl-IsTranscript_example =
    repl-IsTranscript no_string lex fuel no_verb word_bytes no_trim
      (parse_line_ends no_string lex fuel lexes) lines start (tt, (tt, (tt, (tt, (tt, tt)))))

-- Without a random number the first message is shown.
message_run : get_message none ≡ some (codes " Welcome to Kappa DB, Yo!" ++ 13 ∷ 10 ∷ [])
unfolding get_message write_message
message_run = refl

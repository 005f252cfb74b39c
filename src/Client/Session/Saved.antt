-- ===== src/Client/Session/Saved.antt =====
-- What a session leaves in the file of the history for the next one.
use kappa.Base.{
  ℕ, ◌<◌, Bool, true, false, Bytes, List, [], ◌∷◌, ◌++◌, none, some, ◌≡◌, ◌≢◌, refl, arith, nat_eq,
  list_eq, if◌then◌else◌, nonempty, All,
}
use kappa.Text.Parts.{Lacks}
use kappa.Skl.Scanner.{Token, Source, new_buf_scanner}
use kappa.Skl.Scanner.Cursor.{IsAt}
use kappa.Skl.Parser.Termination.{EndsBy, parse_statement_ends}
use kappa.Client.History.{line_feed, read_entries, new_history, write_to_file}
use kappa.Client.History.File.{IsClosed, unrepeated, read-write_to_file}
use kappa.Client.Session.{
  Line, Session, Outcome, leaves, continues, panics, runs_on, saved_file, parse_line, is_exit, repl,
  run_client,
}
use kappa.Client.Session.Transcript.{IsSize, is_accepted, accepted, repl-IsTranscript}

-- The lexer's tokens end, within the fuel of the line.
abbrev pub Lexes : (Bytes → Source) → (Bytes → ℕ) → Type 0
Lexes lex fuel = (line : Bytes) → (n : ℕ) × (n < fuel line) × EndsBy n (lex line)

pub start-IsAt : (source : Source) → IsAt source 0 new_buf_scanner
start-IsAt source = record {
  in_range = omega arith;
  room = omega arith;
  behind = omega arith;
  last_0 = λ h. absurd (omega arith);
  last_1 = λ h. absurd (omega arith);
  last_2 = λ h. absurd (omega arith);
}

saved_left :
    (file : Bytes) (p : Outcome × Session)
    → p.0 ≡ leaves
    → saved_file none file p ≡ (leaves, (write_to_file p.1.history none file).1)
saved_left file (leaves, s) e = refl
saved_left file (continues, s) e = cc
saved_left file (panics, s) e = cc
saved_left file (runs_on, s) e = cc

chosen-All :
    (P : Bytes → Type 0) (e a : Bool) (line : Bytes) (rest : List Bytes)
    → (a ≡ true → P line)
    → All P rest
    → All P (if e then [] else if a then line ∷ rest else rest)
chosen-All P true a line rest p h = tt
chosen-All P false true line rest p h = (p refl, h)
chosen-All P false false line rest p h = h

module _ (token_string : Token → Bytes) (lex : Bytes → Source) (fuel : Bytes → ℕ)
    (lexes : Lexes lex fuel) where
  pub parse_line_ends : (line : Bytes) → parse_line token_string lex fuel line ≢ none
  unfolding parse_line
  parse_line_ends line =
      let (n, enough, ends) = lexes line in
      parse_statement_ends token_string (lex line) n (fuel line) ends enough 0 new_buf_scanner
        (start-IsAt (lex line))

  module _ (trim_space : Bytes → Bytes) where
    All-accepted :
        (P : Bytes → Type 0) (ls : List Line)
        → All (λ (l : Line). P (trim_space l.input)) ls
        → All P (accepted token_string lex fuel trim_space ls)
    All-accepted P [] h = tt
    All-accepted P (l ∷ ls) (p, h) =
        chosen-All P (is_exit (trim_space l.input))
          (is_accepted token_string lex fuel (trim_space l.input)) (trim_space l.input)
          (accepted token_string lex fuel trim_space ls) (λ _. p) (All-accepted P ls h)

    text_accepted :
        (line : Bytes) → is_accepted token_string lex fuel line ≡ true → nonempty line ≡ true
    text_accepted [] h = cc
    text_accepted (c ∷ line) h = refl

    accepted-nonempty :
        (ls : List Line)
        → All (λ l. nonempty l ≡ true) (accepted token_string lex fuel trim_space ls)
    accepted-nonempty [] = tt
    accepted-nonempty (l ∷ ls) =
        chosen-All (λ l. nonempty l ≡ true) (is_exit (trim_space l.input))
          (is_accepted token_string lex fuel (trim_space l.input)) (trim_space l.input)
          (accepted token_string lex fuel trim_space ls) (text_accepted (trim_space l.input))
          (accepted-nonempty ls)

    module _ (other_verb : Bytes → List Bytes → Bytes) (put_int32 : ℕ → Bytes) where
      -- A session with a file of the history that is empty or ends in a line feed ends, and leaves. The
      -- next session then reads the entries that this one read and behind them its lines that are
      -- statements, up to the one that leaves, without those that repeat the one before them; and the
      -- file is again empty or ends in a line feed. The tokens of each line end within its fuel, no answer
      -- has a size below zero, no line holds a line feed and the file can be opened.
      pub run_client-read_entries :
          (file : Bytes) (ls : List Line)
          → IsClosed file
          → All (λ (l : Line). IsSize l.size) ls
          → All (λ (l : Line). Lacks line_feed (trim_space l.input)) ls
          → ((run_client token_string lex fuel other_verb put_int32 trim_space none file ls).0
              ≡ leaves)
            × (read_entries (
                  some
                    (run_client token_string lex fuel other_verb put_int32 trim_space none file
                      ls).1)
                ≡ read_entries (some file)
                  ++ unrepeated (accepted token_string lex fuel trim_space ls))
            × IsClosed
                (run_client token_string lex fuel other_verb put_int32 trim_space none file ls).1
      unfolding run_client
      run_client-read_entries file ls h sizes lack =
          let s : Session = record { history = new_history (some file); shown = []; sent = [] } in
          let t =
            repl-IsTranscript token_string lex fuel other_verb put_int32 trim_space parse_line_ends
              ls s sizes in
          let (read, closes) =
            read-write_to_file file (accepted token_string lex fuel trim_space ls) h
              (accepted-nonempty ls) (All-accepted (Lacks line_feed) ls lack) in
          rw
            (
              saved_left file (repl token_string lex fuel other_verb put_int32 trim_space ls s)
                  t.left,
              t.all_recorded,
            )
            (refl, read, closes)

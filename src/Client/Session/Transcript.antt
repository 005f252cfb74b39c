-- ===== src/Client/Session/Transcript.antt =====
-- What a session sends to the server and keeps in the history, by the lines that are statements.
use kappa.Base.{
  ℕ, ◌%◌, ◌^◌, Bool, true, false, ◌&&◌, not, Bytes, codes, List, [], ◌∷◌, ◌++◌, append_assoc,
  append-nil, none, some, ◌≡◌, ◌≢◌, refl, ◌∙◌, sym, ap, ◌==◌, list_beq, nat_eq, list_eq,
  if◌then◌else◌, nonempty, length, ok, err, All,
}
use kappa.Cluster.Atoi.{ℤ, pos, negsuc}
use kappa.Skl.{Statement}
use kappa.Skl.Scanner.{Token, Source}
use kappa.Skl.Parser.{Parsed}
use kappa.Skl.Parser.Literals.{error_text}
use kappa.Writer.{light_grey, light_red, reset, newline}
use kappa.Client.History.Appends.{recorded}
use kappa.Client.History.{line_feed, append}
use kappa.Client.Session.{
  Line, Session, Outcome, continues, leaves, panics, runs_on, is_exit, is_comment, parse_line,
  by_kind, Shown, listed, show, writes, remove_last_line, round, and_then, repl,
}

abbrev pub is_statement : Parsed Statement → Bool
is_statement (some (ok stmt)) = true
is_statement _ = false

-- The server's answer has a size that is not below zero.
abbrev pub IsSize : ℤ → Type 0
IsSize (pos n) = Unit {0}
IsSize (negsuc n) = ⊥

module _ (token_string : Token → Bytes) (lex : Bytes → Source) (fuel : Bytes → ℕ) where
  abbrev pub is_accepted : Bytes → Bool
  is_accepted line =
      nonempty line
      && not (line == codes "history")
      && not (is_comment line)
      && is_statement (parse_line token_string lex fuel line)

  -- The lines that are statements, up to the one that leaves.
  abbrev pub accepted : (Bytes → Bytes) → List Line → List Bytes
  accepted trim_space [] = []
  accepted trim_space (l ∷ ls) =
      let rest = accepted trim_space ls in
      let line = trim_space l.input in
      if is_exit line then [] else if is_accepted line then line ∷ rest else rest

  module _ (other_verb : Bytes → List Bytes → Bytes) (put_int32 : ℕ → Bytes) where
    -- The bytes of a statement on the channel.
    abbrev pub frame : Bytes → List Bytes
    frame line = put_int32 (length line % 2 ^ 32) ∷ line ∷ []

    abbrev pub frames : List Bytes → List Bytes
    frames [] = []
    frames (l ∷ ls) = frame l ++ frames ls

    abbrev kind :
        Bool → Bool → Bool → Bool → Bytes → ℤ → Session → Parsed Statement → Outcome × Session
    kind = by_kind token_string lex fuel other_verb put_int32

    record IsPlain (s : Session) (p : Outcome × Session) : Type 0 where
      goes_on : p.0 ≡ continues
      same_sent : p.1.sent ≡ s.sent
      same_history : p.1.history ≡ s.history

    plain : (s : Session) (shown : List Shown) → IsPlain s (continues, show shown s)
    plain s shown = record { goes_on = refl; same_sent = refl; same_history = refl }

    kind-IsPlain :
        (t h c : Bool) (line : Bytes) (size : ℤ) (s : Session) (p : Parsed Statement)
        → p ≢ none
        → (t && not h && not c && is_statement p) ≡ false
        → IsPlain s (kind t false h c line size s p)
    kind-IsPlain false h c line size s p total a = record {
      goes_on = refl;
      same_sent = refl;
      same_history = refl;
    }
    kind-IsPlain true true c line size s p total a =
        plain s (listed s.history.old_entries ++ listed s.history.new_entries)
    kind-IsPlain true false true line size s p total a =
        plain s (writes (light_grey ∷ (line ++ newline) ∷ reset ∷ []))
    kind-IsPlain true false false line size s none total a = absurd (total refl)
    kind-IsPlain true false false line size s (some (err e)) total a = plain s (
        writes (light_red ∷ (codes " " ++ error_text e) ∷ newline ∷ reset ∷ [])
        ++ remove_last_line ∷ [])
    kind-IsPlain true false false line size s (some (ok stmt)) total a = cc

    record IsRecorded (line : Bytes) (s : Session) (p : Outcome × Session) : Type 0 where
      goes_on : p.0 ≡ continues
      more_sent : p.1.sent ≡ s.sent ++ frame line
      more_history : p.1.history ≡ append (line ++ line_feed ∷ []) s.history

    kind_statement :
        (t h c : Bool) (line : Bytes) (size : ℤ) (s : Session) (p : Parsed Statement)
        → IsSize size
        → (t && not h && not c && is_statement p) ≡ true
        → IsRecorded line s (kind t false h c line size s p)
    kind_statement false h c line size s p z a = cc
    kind_statement true true c line size s p z a = cc
    kind_statement true false true line size s p z a = cc
    kind_statement true false false line size s none z a = cc
    kind_statement true false false line size s (some (err e)) z a = cc
    kind_statement true false false line (negsuc n) s (some (ok stmt)) z a = absurd z
    kind_statement true false false line (pos n) s (some (ok stmt)) z a = record {
      goes_on = refl;
      more_sent = refl;
      more_history = refl;
    }

    exit_text : (line : Bytes) → is_exit line ≡ true → nonempty line ≡ true
    unfolding list_beq
    exit_text [] h = cc
    exit_text (c ∷ line) h = refl

    pub record IsTranscript (lines : List Bytes) (s : Session) (p : Outcome × Session)
        : Type 0 where
      pub left : p.0 ≡ leaves
      pub all_sent : p.1.sent ≡ s.sent ++ frames lines
      pub all_recorded : p.1.history ≡ recorded lines s.history

    module _ (trim_space : Bytes → Bytes)
        (total : (line : Bytes) → parse_line token_string lex fuel line ≢ none) where
      abbrev run : List Line → Session → Outcome × Session
      run = repl token_string lex fuel other_verb put_int32 trim_space

      abbrev after : (Session → Outcome × Session) → Outcome × Session → Outcome × Session
      after = and_then

      after_plain :
          (next : Session → Outcome × Session) (lines : List Bytes) (s : Session)
          (p : Outcome × Session)
          → IsPlain s p
          → IsTranscript lines p.1 (next p.1)
          → IsTranscript lines s (after next p)
      after_plain next lines s (continues, s') r t = record {
        left = t.left;
        all_sent = t.all_sent ∙ ap (λ sent. sent ++ frames lines) r.same_sent;
        all_recorded = t.all_recorded ∙ ap (recorded lines) r.same_history;
      }
      after_plain next lines s (leaves, s') r t = let e = r.goes_on in cc
      after_plain next lines s (panics, s') r t = let e = r.goes_on in cc
      after_plain next lines s (runs_on, s') r t = let e = r.goes_on in cc

      after_statement :
          (next : Session → Outcome × Session) (line : Bytes) (lines : List Bytes) (s : Session)
          (p : Outcome × Session)
          → IsRecorded line s p
          → IsTranscript lines p.1 (next p.1)
          → IsTranscript (line ∷ lines) s (after next p)
      after_statement next line lines s (continues, s') r t = record {
        left = t.left;
        all_sent =
            t.all_sent
            ∙ ap (λ sent. sent ++ frames lines) r.more_sent
            ∙ append_assoc s.sent (frame line) (frames lines);
        all_recorded = t.all_recorded ∙ ap (recorded lines) r.more_history;
      }
      after_statement next line lines s (leaves, s') r t = let e = r.goes_on in cc
      after_statement next line lines s (panics, s') r t = let e = r.goes_on in cc
      after_statement next line lines s (runs_on, s') r t = let e = r.goes_on in cc

      abbrev entered : Line → Session → Outcome × Session
      entered l s = round token_string lex fuel other_verb put_int32 (trim_space l.input) l.size s

      entered_exit :
          (l : Line) (s : Session) → is_exit (trim_space l.input) ≡ true → entered l s ≡ (leaves, s)
      unfolding round
      entered_exit l s e = rw (exit_text (trim_space l.input) e, e) refl

      entered-IsPlain :
          (l : Line) (s : Session)
          → is_exit (trim_space l.input) ≡ false
          → is_accepted (trim_space l.input) ≡ false
          → IsPlain s (entered l s)
      unfolding round
      entered-IsPlain l s e a =
          let line = trim_space l.input in
          rw e (
            kind-IsPlain (nonempty line) (line == codes "history") (is_comment line) line l.size s
              (parse_line token_string lex fuel line) (total line) a)

      entered_statement :
          (l : Line) (s : Session)
          → IsSize l.size
          → is_exit (trim_space l.input) ≡ false
          → is_accepted (trim_space l.input) ≡ true
          → IsRecorded (trim_space l.input) s (entered l s)
      unfolding round
      entered_statement l s size e a =
          let line = trim_space l.input in
          rw e (
            kind_statement (nonempty line) (line == codes "history") (is_comment line) line l.size s
              (parse_line token_string lex fuel line) size a)

      first :
          (l : Line) (lines : List Bytes) (s : Session) (next : Session → Outcome × Session)
          (e a : Bool)
          → is_exit (trim_space l.input) ≡ e
          → is_accepted (trim_space l.input) ≡ a
          → IsSize l.size
          → ((s' : Session) → IsTranscript lines s' (next s'))
          → IsTranscript
              (if e then [] else if a then trim_space l.input ∷ lines else lines)
              s
              (after next (entered l s))
      first l lines s next true a p q size h =
          rw (entered_exit l s p)
            (record { left = refl; all_sent = sym (append-nil s.sent); all_recorded = refl })
      first l lines s next false true p q size h =
          after_statement next (trim_space l.input) lines s (entered l s)
            (entered_statement l s size p q) (h (entered l s).1)
      first l lines s next false false p q size h =
          after_plain next lines s (entered l s) (entered-IsPlain l s p q) (h (entered l s).1)

      -- A session ends, and it leaves. It has sent the lines that are statements up to the one that leaves,
      -- each behind its length, in their order, and its history is the one with these lines appended. The
      -- parser answers every line, and no answer of the server has a size below zero.
      pub repl-IsTranscript :
          (ls : List Line) (s : Session)
          → All (λ (l : Line). IsSize l.size) ls
          → IsTranscript (accepted trim_space ls) s (run ls s)
      unfolding repl
      repl-IsTranscript [] s sizes = record {
        left = refl;
        all_sent = sym (append-nil s.sent);
        all_recorded = refl;
      }
      repl-IsTranscript (l ∷ ls) s (size, sizes) =
          first l (accepted trim_space ls) s (run ls) (is_exit (trim_space l.input))
            (is_accepted (trim_space l.input)) refl refl size (λ s'. repl-IsTranscript ls s' sizes)

-- ===== src/Skl/Parser/Statements.antt =====
-- What the parser makes of a stream of tokens.
use kappa.Base.{
  ℕ, ◌+◌, ◌-◌, ◌<◌, Bytes, codes, List, [], ◌∷◌, ◌++◌, false, some, ◌≡◌, refl, arith, length,
  if◌then◌else◌, ok, err,
}
use kappa.Skl.{
  Statement, use_statement, create_namespace_statement, drop_namespace_statement,
  show_namespaces_statement,
}
use kappa.Skl.Scanner.{
  Token, ident, Source, BufScanner, unscan, use_keyword, create_keyword, drop_keyword, show_keyword,
  namespace_keyword, namespaces_keyword,
}
use kappa.Skl.Scanner.Cursor.{IsAt, unscan_refines}
use kappa.Skl.Parser.{
  Parsed, scan_ignore_whitespace, scan_parts, parse_namespace, new_parse_error, stated, parse_named,
  parse_verb, parse_show_statement, parse_statement,
}
use kappa.Skl.Parser.Parts.{
  next, ignore_reads, Piece, text, ends_in_period, Reads, moved, scan_parts_lem,
}

-- The statements that name a namespace.
pub data Form : Type 0 where
  use_form create_form drop_form : Form

abbrev pub make : Form → Bytes → Statement
make use_form = use_statement
make create_form = create_namespace_statement
make drop_form = drop_namespace_statement

abbrev pub keywords : Form → List Token
keywords use_form = use_keyword ∷ []
keywords create_form = create_keyword ∷ namespace_keyword ∷ []
keywords drop_form = drop_keyword ∷ namespace_keyword ∷ []

-- The stream has the keywords from `c` on, each behind white space or not, and `d` is behind them.
abbrev pub Opens : Source → List Token → ℕ → ℕ → Type 0
Opens source [] c d = c ≡ d
Opens source (t ∷ ts) c d =
    ((source (next source c)).tok ≡ t) × Opens source ts (next source c + 1) d

module _ (token_string : Token → Bytes) (source : Source) where
  -- A name that ends in a period is refused at the token `q` behind it.
  abbrev pub named : ℕ → Bytes → List Piece → Parsed Bytes
  named q w ps = some (
      if ends_in_period false ps
      then err (new_parse_error token_string (source q) (codes "identifier" ∷ []))
      else ok (w ++ text ps))

  module _ (fuel c : ℕ) (ps : List Piece) (s : BufScanner) (h : IsAt source c s)
      (starts : (source (next source c)).tok ≡ ident) (reads : Reads source (next source c + 1) ps)
      (enough : length ps < fuel) where
    parse_namespace_lem :
        ((parse_namespace token_string source fuel s).0
          ≡ named (next source c + 1 + length ps) (source (next source c)).lit ps)
        × IsAt source (next source c + 1 + length ps) (parse_namespace token_string source fuel s).1
    unfolding parse_namespace
    parse_namespace_lem =
        let k = next source c in
        let x = ignore_reads source c s h in
        let s' = (scan_ignore_whitespace source s).1 in
        let w =
          scan_parts_lem source fuel (k + 1) ps (source k).lit false s' x.behind reads enough in
        rw (x.value, starts, w.scanned)
          (
            refl,
            moved source (k + 1 + length ps + 1 - 1) (k + 1 + length ps)
                (unscan (scan_parts source fuel (source k).lit false s').1) (omega arith)
                (unscan_refines source (k + 1 + length ps + 1)
                  (scan_parts source fuel (source k).lit false s').1 w.at_end w.room (omega arith)),
          )

    parse_named_lem :
        (make_it : Bytes → Statement)
        → ((parse_named token_string make_it source fuel s).0
            ≡ stated token_string make_it
                (named (next source c + 1 + length ps) (source (next source c)).lit ps))
          × IsAt source
              (next source c + 1 + length ps)
              (parse_named token_string make_it source fuel s).1
    unfolding parse_named
    parse_named_lem make_it = let (result, there) = parse_namespace_lem in rw result (refl, there)

  module _ (fuel c d : ℕ) (ps : List Piece) (s : BufScanner) (h : IsAt source c s)
      (starts : (source (next source d)).tok ≡ ident) (reads : Reads source (next source d + 1) ps)
      (enough : length ps < fuel) where
    parse_verb_lem :
        (make_it : Bytes → Statement)
        → Opens source (namespace_keyword ∷ []) c d
        → ((parse_verb token_string make_it source fuel s).0
            ≡ stated token_string make_it
                (named (next source d + 1 + length ps) (source (next source d)).lit ps))
          × IsAt source
              (next source d + 1 + length ps)
              (parse_verb token_string make_it source fuel s).1
    unfolding parse_verb
    parse_verb_lem make_it (t, e) =
        let x = ignore_reads source c s h in
        let s' = (scan_ignore_whitespace source s).1 in
        rw (x.value, t)
          (parse_named_lem fuel d ps s' (moved source (next source c + 1) d s' e x.behind) starts
            reads enough make_it)

  module _ (fuel c d : ℕ) (ps : List Piece) (s : BufScanner) (h : IsAt source c s)
      (starts : (source (next source d)).tok ≡ ident) (reads : Reads source (next source d + 1) ps)
      (enough : length ps < fuel) where
    -- A stream of tokens that spells USE, CREATE NAMESPACE or DROP NAMESPACE and a name is parsed to that
    -- statement with that name, or, where the name ends in a period, to the error that expects an
    -- identifier at the token behind it. The next token is then the one behind the name. White space may
    -- stand before each keyword and before the name, the name is an identifier and any identifiers and
    -- periods, and the loop over them has more fuel than they are.
    pub parse_statement-spelling :
        (f : Form)
        → Opens source (keywords f) c d
        → ((parse_statement token_string source fuel s).0
            ≡ stated token_string
                (make f)
                (named (next source d + 1 + length ps) (source (next source d)).lit ps))
          × IsAt source
              (next source d + 1 + length ps)
              (parse_statement token_string source fuel s).1
    unfolding parse_statement
    parse_statement-spelling use_form (t, e) =
        let x = ignore_reads source c s h in
        let s' = (scan_ignore_whitespace source s).1 in
        rw (x.value, t)
          (parse_named_lem fuel d ps s' (moved source (next source c + 1) d s' e x.behind) starts
            reads enough use_statement)
    parse_statement-spelling create_form (t, rest) =
        let x = ignore_reads source c s h in
        rw (x.value, t)
          (parse_verb_lem fuel (next source c + 1) d ps (scan_ignore_whitespace source s).1 x.behind
            starts reads enough create_namespace_statement rest)
    parse_statement-spelling drop_form (t, rest) =
        let x = ignore_reads source c s h in
        rw (x.value, t)
          (parse_verb_lem fuel (next source c + 1) d ps (scan_ignore_whitespace source s).1 x.behind
            starts reads enough drop_namespace_statement rest)

  -- SHOW NAMESPACES is parsed to its statement, and the next token is the one behind it. White space
  -- may stand before each keyword.
  pub parse_statement_show :
      (fuel c d : ℕ) (s : BufScanner)
      → IsAt source c s
      → Opens source (show_keyword ∷ namespaces_keyword ∷ []) c d
      → ((parse_statement token_string source fuel s).0 ≡ some (ok show_namespaces_statement))
        × IsAt source d (parse_statement token_string source fuel s).1
  unfolding parse_statement parse_show_statement
  parse_statement_show fuel c d s h (t, (u, e)) =
      let x = ignore_reads source c s h in
      let y =
        ignore_reads source (next source c + 1) (scan_ignore_whitespace source s).1 x.behind in
      rw (x.value, t, y.value, u)
        (
          refl,
          moved source (next source (next source c + 1) + 1) d
              (scan_ignore_whitespace source (scan_ignore_whitespace source s).1).1 e y.behind,
        )

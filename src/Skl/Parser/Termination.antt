-- ===== src/Skl/Parser/Termination.antt =====
-- The loop over the parts of a name ends, so that every statement gets an answer.
use kappa.Base.{
  ℕ, zero, suc, ◌+◌, ◌≤◌, ◌<◌, Bytes, ◌∷◌, ◌++◌, [], Bool, true, false, none, some, ◌≡◌, ◌≢◌, refl,
  arith, Option, State, ◌⊎◌, inl, inr, ok, err,
}
use kappa.Text.{dot}
use kappa.Skl.{Statement, use_statement, create_namespace_statement, drop_namespace_statement}
use kappa.Skl.Scanner.{
  Token, Source, BufScanner, Lexeme, scan, use_keyword, create_keyword, drop_keyword, show_keyword,
  namespace_keyword,
}
use kappa.Skl.Scanner.Cursor.{IsAt}
use kappa.Skl.Parser.{
  Part, period, word, stop, part_of, Parsed, Scanned, round, scan_ignore_whitespace, scan_parts,
  finish_namespace, parse_namespace, parse_named, parse_verb, parse_show_statement, parse_statement,
  stated, behind_verb, by_keyword,
}
use kappa.Skl.Parser.Parts.{scan_reads, ignore_reads, next}

-- No token from the `n`-th on is a part of a name, as behind the end of the text.
abbrev pub EndsBy : ℕ → Source → Type 0
EndsBy n source = (k : ℕ) → n ≤ k → part_of (source k).tok ≡ stop

compare_cases : (c n : ℕ) → (c < n) ⊎ (n ≤ c)
compare_cases c n = grind arith

abbrev IsAnswer : {A : Type 0} → Option A × BufScanner → Type 0
IsAnswer p = p.0 ≢ none

round_ends :
    (continue : Bytes → Bool → State BufScanner (Option Scanned)) (name : Bytes) (e : Bool)
    (x : Lexeme) (p : Part) (s : BufScanner)
    → (p ≢ stop → (name' : Bytes) (e' : Bool) → IsAnswer (continue name' e' s))
    → IsAnswer (round continue name e x p s)
round_ends continue name e x period s h = h (cc) (name ++ dot ∷ []) true
round_ends continue name e x word s h = h (cc) (name ++ x.lit) false
round_ends continue name e x stop s h = cc

before_end : (source : Source) (n c : ℕ) → EndsBy n source → part_of (source c).tok ≢ stop → c < n
before_end source n c ends h = elim (compare_cases c n) [
  | inl less ↦ less
  | inr more ↦ absurd (h (ends c more))
]

scan_parts_ends :
    (source : Source) (n fuel c : ℕ) (name : Bytes) (e : Bool) (s : BufScanner)
    → EndsBy n source
    → IsAt source c s
    → 0 < fuel
    → n < c + fuel
    → IsAnswer (scan_parts source fuel name e s)
unfolding scan_parts
scan_parts_ends source n zero c name e s ends h some_fuel enough = absurd (omega arith)
scan_parts_ends source n (suc fuel) c name e s ends h some_fuel enough =
    let x = scan_reads source c s h in
    rw x.value (
      round_ends (scan_parts source fuel) name e (source c) (part_of (source c).tok)
        (scan source s).1
        (λ goes_on name' e'.
          let less = before_end source n c ends goes_on in
          scan_parts_ends source n fuel (c + 1) name' e' (scan source s).1 ends x.behind
            (omega arith) (omega arith)))

module _ (token_string : Token → Bytes) where
  finish_ends :
      (p : Option Scanned × BufScanner)
      → IsAnswer p
      → IsAnswer (finish_namespace token_string p.0 p.1)
  finish_ends (none, s) h = absurd (h refl)
  finish_ends (some (name, e, x), s) h = cc

  stated_ends :
      (make : Bytes → Statement) (p : Parsed Bytes × BufScanner)
      → IsAnswer p
      → stated token_string make p.0 ≢ none
  stated_ends make (none, s) h = absurd (h refl)
  stated_ends make (some (err e), s) h = cc
  stated_ends make (some (ok name), s) h = cc

  behind_verb_ends :
      (make : Bytes → Statement) (source : Source) (fuel : ℕ) (x : Lexeme) (t : Token)
      (s : BufScanner)
      → IsAnswer (parse_named token_string make source fuel s)
      → IsAnswer (behind_verb token_string make source fuel x t s)
  behind_verb_ends make source fuel x namespace_keyword s h = h
  behind_verb_ends make source fuel x _ s h = cc

  by_keyword_ends :
      (source : Source) (fuel : ℕ) (x : Lexeme) (t : Token) (s : BufScanner)
      → IsAnswer (parse_named token_string use_statement source fuel s)
      → IsAnswer (parse_verb token_string create_namespace_statement source fuel s)
      → IsAnswer (parse_verb token_string drop_namespace_statement source fuel s)
      → IsAnswer (parse_show_statement token_string source s)
      → IsAnswer (by_keyword token_string source fuel x t s)
  by_keyword_ends source fuel x use_keyword s named create drop show = named
  by_keyword_ends source fuel x create_keyword s named create drop show = create
  by_keyword_ends source fuel x drop_keyword s named create drop show = drop
  by_keyword_ends source fuel x show_keyword s named create drop show = show
  by_keyword_ends source fuel x _ s named create drop show = cc

  module _ (source : Source) (n fuel : ℕ) (ends : EndsBy n source) (enough : n < fuel) where
    parse_namespace_ends :
        (c : ℕ) (s : BufScanner)
        → IsAt source c s
        → IsAnswer (parse_namespace token_string source fuel s)
    unfolding parse_namespace
    parse_namespace_ends c s h =
        let x = ignore_reads source c s h in
        let found =
          finish_ends
            (scan_parts source fuel (source (next source c)).lit false
              (scan_ignore_whitespace source s).1)
            (scan_parts_ends source n fuel (next source c + 1) (source (next source c)).lit false
              (scan_ignore_whitespace source s).1 ends x.behind (omega arith) (omega arith)) in
        rw x.value (ground arith)

    parse_named_ends :
        (make : Bytes → Statement) (c : ℕ) (s : BufScanner)
        → IsAt source c s
        → IsAnswer (parse_named token_string make source fuel s)
    unfolding parse_named
    parse_named_ends make c s h =
        stated_ends make (parse_namespace token_string source fuel s) (parse_namespace_ends c s h)

    parse_verb_ends :
        (make : Bytes → Statement) (c : ℕ) (s : BufScanner)
        → IsAt source c s
        → IsAnswer (parse_verb token_string make source fuel s)
    unfolding parse_verb
    parse_verb_ends make c s h =
        let x = ignore_reads source c s h in
        let s' = (scan_ignore_whitespace source s).1 in
        rw x.value (
          behind_verb_ends make source fuel (source (next source c)) (source (next source c)).tok s'
            (parse_named_ends make (next source c + 1) s' x.behind))

    parse_show_ends : (s : BufScanner) → IsAnswer (parse_show_statement token_string source s)
    unfolding parse_show_statement
    parse_show_ends s = ground arith

    -- Every stream of tokens that ends, wherever it is read from, gets an answer from the parser, a
    -- statement or an error: the loop over the parts of a name ends on fuel above the place from which
    -- on no token is a part of a name.
    pub parse_statement_ends :
        (c : ℕ) (s : BufScanner)
        → IsAt source c s
        → (parse_statement token_string source fuel s).0 ≢ none
    unfolding parse_statement
    parse_statement_ends c s h =
        let x = ignore_reads source c s h in
        let s' = (scan_ignore_whitespace source s).1 in
        rw x.value (
          by_keyword_ends source fuel (source (next source c)) (source (next source c)).tok s'
            (parse_named_ends use_statement (next source c + 1) s' x.behind)
            (parse_verb_ends create_namespace_statement (next source c + 1) s' x.behind)
            (parse_verb_ends drop_namespace_statement (next source c + 1) s' x.behind)
            (parse_show_ends s'))

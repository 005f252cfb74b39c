-- ===== src/Skl/Scanner.antt =====
-- The buffer of tokens in front of the lexer: skl/scanner.go. The lexer is the package
-- github.com/eliquious/lexer: what its `n`-th call of Scan returns is the argument `source`.
pub mod Cursor
use kappa.Base.{ℕ, [], ◌+◌, ◌-◌, ◌%◌, Bytes, ◌==◌, nat_eq, ltb, if◌then◌else◌, State}

-- The tokens that the parser tells apart: the lexer's own, and the keywords of skl/tokens.go.
pub data Token : Type 0 where
  eof ws dot ident number : Token
  use_keyword create_keyword drop_keyword show_keyword : Token
  namespace_keyword namespaces_keyword string_keyword : Token
  other_token : ℕ → Token

pub record Pos : Type 0 where
  pub line : ℕ
  pub char : ℕ

-- What `Scan` returns.
pub record Lexeme : Type 0 where
  pub tok : Token
  pub pos : Pos
  pub lit : Bytes

abbrev pub Source : Type 0
Source = ℕ → Lexeme

-- The circular buffer of three entries, its index `i` and the number `n` of tokens that are unread;
-- `read` counts the calls of the lexer.
pub record BufScanner : Type 0 where
  pub i : ℕ
  pub n : ℕ
  pub buf_0 : Lexeme
  pub buf_1 : Lexeme
  pub buf_2 : Lexeme
  pub read : ℕ

abbrev zero_lexeme : Lexeme
zero_lexeme = record { tok = other_token 0; pos = record { line = 0; char = 0 }; lit = [] }

-- `newBufScanner`
abbrev pub new_buf_scanner : BufScanner
new_buf_scanner = record {
  i = 0;
  n = 0;
  buf_0 = zero_lexeme;
  buf_1 = zero_lexeme;
  buf_2 = zero_lexeme;
  read = 0;
}

abbrev pub entry : BufScanner → ℕ → Lexeme
entry s k = if k == 0 then s.buf_0 else if k == 1 then s.buf_1 else s.buf_2

abbrev pub set_entry : ℕ → Lexeme → BufScanner → BufScanner
set_entry k x s =
    if k == 0
    then record s { buf_0 = x }
    else if k == 1
    then record s { buf_1 = x }
    else record s { buf_2 = x }

unfoldable pub curr : BufScanner → Lexeme
curr s = entry s ((s.i + 3 - s.n) % 3)

unfoldable pub scan : Source → State BufScanner Lexeme
unfolding curr
scan source s =
    if ltb 0 s.n
    then (let s' : BufScanner = record s { n = s.n - 1 } in (curr s', s'))
    else let k = (s.i + 1) % 3 in
      let s' : BufScanner = set_entry k (source s.read) (record s { i = k; read = s.read + 1 }) in
      (curr s', s')

unfoldable pub unscan : BufScanner → BufScanner
unscan s = record s { n = s.n + 1 }

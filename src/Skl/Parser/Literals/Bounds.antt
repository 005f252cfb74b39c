-- ===== src/Skl/Parser/Literals/Bounds.antt =====
-- The numbers that the parser of literals accepts.
use kappa.Base.{
  ℕ, ◌+◌, ◌^◌, ◌<◌, Bytes, true, false, Option, none, some, ltb, contains, nat_eq, ok, ◌≡◌, arith,
  ◌↔◌,
}
use kappa.Text.{dot}
use kappa.Cluster.Atoi.{ℤ, magnitude, atoi}
use kappa.Skl.Scanner.{Token, number, Lexeme, Source, BufScanner}
use kappa.Skl.Scanner.Cursor.{IsAt}
use kappa.Skl.Parser.Parts.{next, ignore_reads}
use kappa.Skl.Parser.Literals.{
  int_ltb, parse_uint, bounded, int_at, uint_at, parse_int, parse_uint32, parse_uint64,
}

-- `lo <= n && n <= hi`
abbrev pub IsWithin : ℤ → ℤ → ℤ → Type 0
IsWithin lo hi n = (int_ltb n lo ≡ false) × (int_ltb hi n ≡ false)

ltb_iff : (a b : ℕ) → (ltb a b ≡ true) ↔ (a < b)
ltb_iff a b = ground arith

module _ (token_string : Token → Bytes) where
  module _ (atoi_error : Bytes → Bytes) (lo hi n : ℤ) (x : Lexeme) where
    bounded_iff :
        (z : Option ℤ)
        → (bounded token_string atoi_error lo hi x z ≡ ok n) ↔ ((z ≡ some n) × IsWithin lo hi n)
    bounded_iff none = (λ e. cc, λ e. cc)
    bounded_iff (some z) = ground arith

    int_at_iff :
        (t : Token)
        → (int_at token_string atoi_error lo hi x t ≡ ok n)
          ↔ ((t ≡ number) × (contains dot x.lit ≡ false) × (atoi x.lit ≡ some n) × IsWithin lo hi n)
    int_at_iff number = ground (arith, bounded_iff (atoi x.lit))
    int_at_iff _ = (λ e. cc, λ e. cc)

  module _ (parse_uint_error : ℕ → Bytes → Bytes) (bits n : ℕ) (x : Lexeme) where
    parse_uint_iff :
        (parse_uint bits x.lit ≡ some n) ↔ ((magnitude x.lit ≡ some n) × (n < 2 ^ bits))
    unfolding parse_uint
    parse_uint_iff = ground (arith, ltb_iff n (2 ^ bits))

    uint_at_iff :
        (t : Token)
        → (uint_at token_string parse_uint_error bits x t ≡ ok n)
          ↔ ((t ≡ number) × (magnitude x.lit ≡ some n) × (n < 2 ^ bits))
    uint_at_iff number = ground (arith, parse_uint_iff)
    uint_at_iff _ = (λ e. cc, λ e. cc)

module _ (token_string : Token → Bytes) (source : Source) (c : ℕ) (s : BufScanner)
    (h : IsAt source c s) where
  -- parseInt gives an integer exactly where the next token behind white space is a number without a
  -- period whose literal Atoi reads as that integer, and the integer is within the two bounds; and
  -- whatever it gives, it has read that one token.
  pub parse_int_iff :
      (atoi_error : Bytes → Bytes) (lo hi n : ℤ)
      → (((parse_int token_string atoi_error lo hi source s).0 ≡ ok n) ↔ (
          ((source (next source c)).tok ≡ number)
          × (contains dot (source (next source c)).lit ≡ false)
          × (atoi (source (next source c)).lit ≡ some n)
          × IsWithin lo hi n))
        × IsAt source (next source c + 1) (parse_int token_string atoi_error lo hi source s).1
  unfolding parse_int
  parse_int_iff atoi_error lo hi n =
      let x = ignore_reads source c s h in
      rw x.value (
        int_at_iff token_string atoi_error lo hi n (source (next source c))
            (source (next source c)).tok,
        x.behind,
      )

  -- parseUInt32 and parseUInt64 give a number exactly where the next token behind white space is a
  -- number whose literal is only digits, those of the number, and it fits in 32 or in 64 bits.
  pub parse_uint32-parse_uint64_iff :
      (parse_uint_error : ℕ → Bytes → Bytes) (n : ℕ)
      → (((parse_uint32 token_string parse_uint_error source s).0 ≡ ok n) ↔ (
          ((source (next source c)).tok ≡ number)
          × (magnitude (source (next source c)).lit ≡ some n)
          × (n < 2 ^ 32)))
        × (((parse_uint64 token_string parse_uint_error source s).0 ≡ ok n) ↔ (
            ((source (next source c)).tok ≡ number)
            × (magnitude (source (next source c)).lit ≡ some n)
            × (n < 2 ^ 64)))
  unfolding parse_uint32 parse_uint64
  parse_uint32-parse_uint64_iff parse_uint_error n =
      let x = ignore_reads source c s h in
      let read = source (next source c) in
      rw x.value (
        uint_at_iff token_string parse_uint_error 32 n read read.tok,
        uint_at_iff token_string parse_uint_error 64 n read read.tok,
      )

-- ===== src/Skl/Parser/Parts.antt =====
-- The scans of the parser: white space, and the parts of a name.
use kappa.Base.{
  ℕ, zero, suc, ◌+◌, ◌<◌, Bytes, List, [], ◌∷◌, ◌++◌, Bool, true, false, some, ◌≡◌, sym, ap, arith,
  append-nil, append_assoc, Option, length,
}
use kappa.Text.{dot}
use kappa.Skl.Scanner.{Token, ws, Lexeme, Source, BufScanner, scan}
use kappa.Skl.Scanner.Cursor.{IsAt, scan_refines, scan_room}
use kappa.Skl.Parser.{
  period, word, stop, part_of, Scanned, if_ws, scan_ignore_whitespace, scan_parts,
}

-- A call that returned the token at `c`, and left the scanner behind it.
pub record IsRead (source : Source) (c : ℕ) (p : Lexeme × BufScanner) : Type 0 where
  pub value : p.0 ≡ source c
  pub behind : IsAt source (c + 1) p.1
  pub room : p.1.n < 3

-- Where the next token is that is not one of white space.
abbrev pub next : Source → ℕ → ℕ
next source c = if_ws (source c).tok (c + 1) c

pub scan_reads :
    (source : Source) (c : ℕ) (s : BufScanner) → IsAt source c s → IsRead source c (scan source s)
scan_reads source c s h =
    let (value, behind) = scan_refines source c s h in
    record { value = value; behind = behind; room = scan_room source c s h }

skipped :
    (source : Source) (c : ℕ) (p : Lexeme × BufScanner) (t : Token)
    → IsRead source c p
    → IsRead source (if_ws t (c + 1) c) (if_ws t (scan source p.1) p)
skipped source c p ws r = scan_reads source (c + 1) p.1 r.behind
skipped source c p _ r = r

pub ignore_reads :
    (source : Source) (c : ℕ) (s : BufScanner)
    → IsAt source c s
    → IsRead source (next source c) (scan_ignore_whitespace source s)
unfolding scan_ignore_whitespace
ignore_reads source c s h =
    let r = scan_reads source c s h in
    rw (sym (ap (λ (x : Lexeme). x.tok) r.value))
      (skipped source c (scan source s) (scan source s).0.tok r)

-- A part of a namespace's name: a period, or an identifier.
pub data Piece : Type 0 where
  period_piece : Piece
  word_piece : Bytes → Piece

abbrev pub text : List Piece → Bytes
text [] = []
text (period_piece ∷ ps) = dot ∷ text ps
text (word_piece w ∷ ps) = w ++ text ps

abbrev pub ends_in_period : Bool → List Piece → Bool
ends_in_period e [] = e
ends_in_period e (period_piece ∷ ps) = ends_in_period true ps
ends_in_period e (word_piece w ∷ ps) = ends_in_period false ps

-- The tokens from `c` on are the parts, and then one that is no part of a name.
abbrev pub Reads : Source → ℕ → List Piece → Type 0
Reads source c [] = part_of (source c).tok ≡ stop
Reads source c (period_piece ∷ ps) = (part_of (source c).tok ≡ period) × Reads source (c + 1) ps
Reads source c (word_piece w ∷ ps) =
    (part_of (source c).tok ≡ word) × ((source c).lit ≡ w) × Reads source (c + 1) ps

pub record IsScanned (source : Source) (c : ℕ) (name : Bytes) (e : Bool)
    (p : Option Scanned × BufScanner) : Type 0 where
  pub scanned : p.0 ≡ some (name, e, source c)
  pub at_end : IsAt source (c + 1) p.1
  pub room : p.1.n < 3

pub moved : (source : Source) (c d : ℕ) (s : BufScanner) → c ≡ d → IsAt source c s → IsAt source d s
moved source c d s e h = rw (sym e) h

further : (c k : ℕ) → c + suc k ≡ c + 1 + k
further c k = omega arith

pub scan_parts_lem :
    (source : Source) (fuel c : ℕ) (ps : List Piece) (name : Bytes) (e : Bool) (s : BufScanner)
    → IsAt source c s
    → Reads source c ps
    → length ps < fuel
    → IsScanned source
        (c + length ps)
        (name ++ text ps)
        (ends_in_period e ps)
        (scan_parts source fuel name e s)
unfolding scan_parts
scan_parts_lem source zero c ps name e s h r enough = absurd (omega arith)
scan_parts_lem source (suc fuel) c [] name e s h r enough =
    let x = scan_reads source c s h in
    rw (x.value, r, append-nil name)
      (record {
        scanned = ap (λ k. some (name, e, source k)) (omega arith);
        at_end = moved source (c + 1) (c + 0 + 1) (scan source s).1 (omega arith) x.behind;
        room = x.room;
      })
scan_parts_lem source (suc fuel) c (period_piece ∷ ps) name e s h r enough =
    let x = scan_reads source c s h in
    rw (x.value, r.0, further c (length ps), sym (append_assoc name (dot ∷ []) (text ps)))
      (scan_parts_lem source fuel (c + 1) ps (name ++ dot ∷ []) true (scan source s).1 x.behind r.1
        (omega arith))
scan_parts_lem source (suc fuel) c (word_piece w ∷ ps) name e s h r enough =
    let x = scan_reads source c s h in
    rw (x.value, r.0, r.1, further c (length ps), sym (append_assoc name w (text ps)))
      (scan_parts_lem source fuel (c + 1) ps (name ++ w) false (scan source s).1 x.behind r.2
        (omega arith))

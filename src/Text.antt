-- ===== src/Text.antt =====
-- What the program uses of Go's `strings` package, over bytes, and the comma-delimited lists that
-- datamodel/ stores under one key. The laws are in the modules below.
pub mod Parts
pub mod Fields
pub mod Dots
pub mod Decimal
pub mod Paths
use kappa.Base.{
  ℕ, zero, suc, Bytes, List, [], ◌∷◌, ◌++◌, Bool, true, false, Option, none, some, ◌==◌, ◌&&◌,
  if◌then◌else◌, nonempty, without, nat_eq, list_eq, leb, ◌+◌,
}

-- A byte in front of the first part.
unfoldable pub push : ℕ → List Bytes → List Bytes
push c [] = (c ∷ []) ∷ []
push c (p ∷ ps) = (c ∷ p) ∷ ps

-- `strings.Split(s, sep)` for a separator of one byte; there is always a part.
unfoldable pub split : ℕ → Bytes → List Bytes
unfolding push
split sep [] = [] ∷ []
split sep (c ∷ s) = let rest = split sep s in if c == sep then [] ∷ rest else push c rest

-- `strings.Join(parts, sep)`
unfoldable pub join : ℕ → List Bytes → Bytes
join sep [] = []
join sep (p ∷ []) = p
join sep (p ∷ q ∷ ps) = p ++ sep ∷ join sep (q ∷ ps)

-- `strings.HasPrefix(s, prefix)`
unfoldable pub has_prefix : Bytes → Bytes → Bool
has_prefix s [] = true
has_prefix [] (p ∷ ps) = false
has_prefix (c ∷ s) (p ∷ ps) = c == p && has_prefix s ps

abbrev pub drop : ℕ → Bytes → Bytes
drop zero s = s
drop (suc n) [] = []
drop (suc n) (c ∷ s) = drop n s

abbrev pub take : ℕ → Bytes → Bytes
take zero s = []
take (suc n) [] = []
take (suc n) (c ∷ s) = c ∷ take n s

-- `strings.LastIndex(s, c)`, with `none` for -1
unfoldable pub last_index : ℕ → Bytes → Option ℕ
last_index c [] = none
last_index c (x ∷ s) = elim (last_index c s) [
  | some i ↦ some (suc i)
  | none ↦ if x == c then some 0 else none
]

abbrev pub comma : ℕ
comma = b','

abbrev pub dot : ℕ
dot = b'.'

-- The value of a key as a slice: nil and the empty value both have length 0.
abbrev pub value_of : Option Bytes → Bytes
value_of none = []
value_of (some v) = v

-- `if len(v) > 0 { list = strings.Split(string(v), ",") }`
unfoldable pub fields : Bytes → List Bytes
unfolding split
fields v = if nonempty v then split comma v else []

-- The new value where an item joins the list at the end, and where it starts the list.
unfoldable pub add_field : Bytes → Bytes → Bytes
unfolding join
add_field v item = if nonempty v then join comma (v ∷ item ∷ []) else item

-- The new value where every item equal to `item` leaves the list.
unfoldable pub remove_field : Bytes → Bytes → Bytes
unfolding join split without
remove_field v item = join comma (without item (split comma v))

abbrev lower_byte : ℕ → ℕ
lower_byte c = if leb b'A' c && leb c b'Z' then c + 32 else c

-- strings.ToLower, of ASCII letters
abbrev pub lower : Bytes → Bytes
lower [] = []
lower (c ∷ s) = lower_byte c ∷ lower s

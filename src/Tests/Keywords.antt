-- ===== src/Tests/Keywords.antt =====
-- A lookup that takes the first entry of the map, and a keyword in mixed case.
use kappa.Base.{
  ℕ, Bytes, codes, [], ◌∷◌, Bool, true, false, Option, none, some, ◌==◌, nat_eq, list_eq, eq_iff,
  lookup, if◌then◌else◌, ◌≡◌, refl, arith,
}
use kappa.Text.{lower}
use kappa.Skl.Keywords.{TokenMap, token_map, LookupLaws, find-token_map}

abbrev is_word : Bytes → Option Bytes → Bool
is_word word none = false
is_word word (some text) = lower text == lower word

-- The first token of `m` whose text in the whole map is the word, but for its case.
abbrev first_match : TokenMap → Bytes → TokenMap → Option ℕ
first_match whole word [] = none
first_match whole word ((k, text) ∷ m) =
    let rest = first_match whole word m in if is_word word (lookup k whole) then some k else rest

IsFound : TokenMap → Bytes → Option ℕ → Type 0
IsFound whole word found = (j : ℕ) × (found ≡ some j) × (is_word word (lookup j whole) ≡ true)

if-IsFound :
    (whole : TokenMap) (word : Bytes) (k : ℕ) (rest : Option ℕ) (b : Bool)
    → is_word word (lookup k whole) ≡ b
    → (b ≡ false → IsFound whole word rest)
    → IsFound whole word (if b then some k else rest)
unfolding IsFound
if-IsFound whole word k rest true e h = (k, refl, e)
if-IsFound whole word k rest false e h = h refl

first_match-IsFound :
    (whole : TokenMap) (word : Bytes) (m : TokenMap) (k : ℕ) (text : Bytes)
    → lookup k m ≡ some text
    → is_word word (lookup k whole) ≡ true
    → IsFound whole word (first_match whole word m)
unfolding lookup
first_match-IsFound whole word [] k text h e = cc
first_match-IsFound whole word ((a, first) ∷ m) k text h e =
    if-IsFound whole word a (first_match whole word m) (is_word word (lookup a whole)) refl
      λ ne. first_match-IsFound whole word m k text (ground (arith, eq_iff a k)) e

with_text :
    (found : Option Bytes) (word : Bytes)
    → is_word word found ≡ true
    → (other : Bytes) × (found ≡ some other) × ((lower other == lower word) ≡ true)
with_text none word h = cc
with_text (some text) word h = (text, refl, h)

abbrev find_first : TokenMap → Bytes → Option ℕ
find_first m word = first_match m word m

find_first-LookupLaws : LookupLaws find_first
unfolding IsFound
find_first-LookupLaws = record {
  find_loaded = λ m k text word h e.
      let (j, found, matches) = first_match-IsFound m word m k text h (rw h e) in
      let (other, held, same) = with_text (lookup j m) word matches in
      (j, other, held, same, found);
}

-- CREATE is the fourth keyword.
find-token_map_example : find_first token_map (codes "Create") ≡ some 1019
unfolding token_map lookup
find-token_map_example =
    find-token_map find_first find_first-LookupLaws 1019 (codes "CREATE") (codes "Create") refl refl

-- ===== src/Skl/Keywords.antt =====
-- The tokens of skl/tokens.go and their texts. A token is a number, as in the source, counted from the
-- first of its block. The map from texts to tokens is in the package lexer, which is a parameter.
use kappa.Base.{
  ℕ, suc, ◌+◌, Bytes, codes, List, [], ◌∷◌, ◌++◌, Bool, true, false, not, ◌&&◌, ◌||◌, Option, some,
  ◌==◌, nat_eq, list_eq, list_beq, eq_iff, lookup, length, ◌≡◌, refl, sym, ap, ◌∙◌, arith,
}
use kappa.Text.{lower}

abbrev pub TokenMap : Type 0
TokenMap = List (ℕ × Bytes)

-- `iota`: tokens one behind the other.
abbrev numbered : ℕ → List Bytes → TokenMap
numbered n [] = []
numbered n (text ∷ texts) = (n, text) ∷ numbered (suc n) texts

abbrev pub start_types : ℕ
start_types = 1000

abbrev pub type_texts : List Bytes
type_texts =
    codes "string"
    ∷ codes "uint8"
    ∷ codes "int8"
    ∷ codes "uint16"
    ∷ codes "int16"
    ∷ codes "uint32"
    ∷ codes "int32"
    ∷ codes "uint64"
    ∷ codes "int64"
    ∷ codes "float32"
    ∷ codes "float64"
    ∷ codes "timestamp"
    ∷ codes "boolean"
    ∷ []

abbrev pub keyword_texts : List Bytes
keyword_texts =
    codes "ADD"
    ∷ codes "BY"
    ∷ codes "CLUSTERED"
    ∷ codes "CREATE"
    ∷ codes "DESCRIBE"
    ∷ codes "DROP"
    ∷ codes "FOR"
    ∷ codes "FROM"
    ∷ codes "INSERT"
    ∷ codes "LIMIT"
    ∷ codes "LOG"
    ∷ codes "LOGS"
    ∷ codes "NAMESPACE"
    ∷ codes "NAMESPACES"
    ∷ codes "OFFSET"
    ∷ codes "ON"
    ∷ codes "OPTIONAL"
    ∷ codes "OPTIONS"
    ∷ codes "PASSWORD"
    ∷ codes "PERMISSION"
    ∷ codes "PERMISSIONS"
    ∷ codes "REMOVE"
    ∷ codes "REQUIRED"
    ∷ codes "ROLE"
    ∷ codes "ROLES"
    ∷ codes "SELECT"
    ∷ codes "SET"
    ∷ codes "SHOW"
    ∷ codes "SUBSCRIBE"
    ∷ codes "TO"
    ∷ codes "TYPE"
    ∷ codes "TYPES"
    ∷ codes "UNSUBSCRIBE"
    ∷ codes "UPDATE"
    ∷ codes "USE"
    ∷ codes "USER"
    ∷ codes "USERS"
    ∷ codes "USING"
    ∷ codes "VIEW"
    ∷ codes "VIEWS"
    ∷ codes "WHERE"
    ∷ codes "WITH"
    ∷ []

-- endTypes and startKeywords take a number each.
abbrev pub start_keywords : ℕ
start_keywords = start_types + length type_texts + 2

-- `testKeywords`, in the order of the constants.
unfoldable pub token_map : TokenMap
token_map = numbered (start_types + 1) type_texts ++ numbered (start_keywords + 1) keyword_texts

-- What the package lexer gives for a word, behind LoadTokenMap. The entries of a Go map come in any
-- order, so where texts are the same but for their case, any of their tokens may be the one.
pub record LookupLaws (find : TokenMap → Bytes → Option ℕ) : Type 0 where
  pub find_loaded :
      (m : TokenMap) (k : ℕ) (text word : Bytes)
      → lookup k m ≡ some text
      → (lower text == lower word) ≡ true
      → (j : ℕ) × (other : Bytes) × (lookup j m ≡ some other)
        × ((lower other == lower word) ≡ true)
        × (find m word ≡ some j)

abbrev has_text : Bytes → TokenMap → Bool
has_text l [] = false
has_text l ((k, text) ∷ m) = lower text == l || has_text l m

abbrev is_distinct : TokenMap → Bool
is_distinct [] = true
is_distinct ((k, text) ∷ m) = not (has_text (lower text) m) && is_distinct m

has_text-lower :
    (k : ℕ) (text : Bytes) (m : TokenMap) → lookup k m ≡ some text → has_text (lower text) m ≡ true
unfolding lookup
has_text-lower k text [] h = cc
has_text-lower k text ((a, first) ∷ m) h =
    ground (arith, eq_iff (lower first) (lower text), has_text-lower k text m)

same_token :
    (m : TokenMap) (j k : ℕ) (t u : Bytes)
    → is_distinct m ≡ true
    → lookup j m ≡ some t
    → lookup k m ≡ some u
    → lower t ≡ lower u
    → j ≡ k
unfolding lookup
same_token [] j k t u d h g e = cc
same_token ((a, first) ∷ m) j k t u d h g e = ground (
  arith,
  same_token m j k t u,
  has_text-lower j t m,
  has_text-lower k u m,
  eq_iff a j,
  eq_iff a k,
)

token_map-is_distinct : is_distinct token_map ≡ true
unfolding token_map list_beq
token_map-is_distinct = refl

-- The text of a token of kappa, in any mixture of cases, is read by the lexer as that token, in
-- whatever order its map is loaded. The word is the token's text but for the case of its letters.
pub find-token_map :
    (find : TokenMap → Bytes → Option ℕ)
    → LookupLaws find
    → (k : ℕ) (text word : Bytes) → lookup k token_map ≡ some text
    → lower text ≡ lower word
    → find token_map word ≡ some k
find-token_map find laws k text word h e =
    let (j, other, held, same, found) =
      laws.find_loaded token_map k text word h ((eq_iff (lower text) (lower word)).1 e) in
    found
    ∙ ap some (
        same_token token_map j k other text token_map-is_distinct held h
          ((eq_iff (lower other) (lower word)).0 same ∙ sym e))

-- ===== src/Cluster/Atoi.antt =====
-- `strconv.Atoi`: an optional sign and decimal digits, within a signed 64-bit integer.
use kappa.Base.{
  ℕ, ◌+◌, ◌-◌, ◌*◌, ◌^◌, Bytes, [], ◌∷◌, Option, none, some, ◌==◌, nat_eq, ltb, leb, ◌&&◌,
  if◌then◌else◌, codes, Bool, ◌≡◌, refl,
}

-- `negsuc n` is -(n + 1).
pub data ℤ : Type 0 where
  pos : ℕ → ℤ
  negsuc : ℕ → ℤ

abbrev pub is_digit : ℕ → Bool
is_digit c = leb b'0' c && leb c b'9'

-- The digits behind those that make `n`; there is no bound yet.
unfoldable pub digits : ℕ → Bytes → Option ℕ
digits n [] = some n
digits n (c ∷ s) = let rest = digits (n * 10 + (c - b'0')) s in if is_digit c then rest else none

unfoldable pub magnitude : Bytes → Option ℕ
unfolding digits
magnitude [] = none
magnitude (c ∷ s) = digits 0 (c ∷ s)

abbrev negative : ℕ → ℤ
negative n = if n == 0 then pos 0 else negsuc (n - 1)

abbrev as_positive : Option ℕ → Option ℤ
as_positive none = none
as_positive (some n) = if ltb n (2 ^ 63) then some (pos n) else none

abbrev as_negative : Option ℕ → Option ℤ
as_negative none = none
as_negative (some n) = if leb n (2 ^ 63) then some (negative n) else none

unfoldable pub atoi : Bytes → Option ℤ
unfolding magnitude
atoi [] = none
atoi (c ∷ s) =
    if c == b'-'
    then as_negative (magnitude s)
    else if c == b'+'
    then as_positive (magnitude s)
    else as_positive (magnitude (c ∷ s))

atoi_runs :
    (atoi (codes "9022") ≡ some (pos 9022))
    × (atoi (codes "-1") ≡ some (negsuc 0))
    × (atoi (codes "9022x") ≡ none)
    × (atoi (codes "9223372036854775808") ≡ none)
unfolding atoi
atoi_runs = (refl, refl, refl, refl)

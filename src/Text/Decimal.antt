-- ===== src/Text/Decimal.antt =====
-- Numbers in decimal digits, as `fmt` prints them with %d.
use kappa.Base.{
  ℕ, zero, suc, ◌+◌, ◌/◌, ◌%◌, Bytes, [], ◌∷◌, ◌++◌, ltb, if◌then◌else◌, ◌≡◌, refl, codes,
}

-- The first argument bounds the number of digits behind the first.
unfoldable pub decimal : ℕ → ℕ → Bytes
decimal zero n = (b'0' + n % 10) ∷ []
decimal (suc fuel) n =
    let rest = decimal fuel (n / 10) in
    if ltb n 10 then (b'0' + n) ∷ [] else rest ++ (b'0' + n % 10) ∷ []

-- A number has no more digits than itself and one.
unfoldable pub itoa : ℕ → Bytes
unfolding decimal
itoa n = decimal n n

itoa_runs : (itoa 0 ≡ codes "0") × (itoa 9022 ≡ codes "9022")
unfolding itoa
itoa_runs = (refl, refl)

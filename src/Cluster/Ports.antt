-- ===== src/Cluster/Ports.antt =====
-- What Atoi reads is what %d printed.
use kappa.Base.{
  ℕ, zero, suc, ◌+◌, ◌-◌, ◌*◌, ◌^◌, ◌/◌, ◌%◌, ◌≤◌, ◌<◌, Bytes, [], ◌∷◌, ◌++◌, ltb, nat_eq,
  if◌then◌else◌, ◌≡◌, refl, arith, Option, none, some, Bool-cases, inl, inr, ltb→lt, ltb-false,
}
use kappa.Text.Decimal.{decimal, itoa}
use kappa.Cluster.Atoi.{ℤ, pos, negsuc, is_digit, digits, magnitude, atoi}

abbrev more : ℕ → Option ℕ → Option ℕ
more c none = none
more c (some n) = if is_digit c then some (n * 10 + (c - b'0')) else none

digits-append : (n c : ℕ) (s : Bytes) → digits n (s ++ c ∷ []) ≡ more c (digits n s)
unfolding digits
digits-append n c [] = ground arith
digits-append n c (d ∷ s) = ground (arith, digits-append (n * 10 + (d - b'0')) c s)

digits-decimal : (fuel n : ℕ) → n ≤ fuel → digits 0 (decimal fuel n) ≡ some n
unfolding decimal digits
digits-decimal zero n h = ground arith
digits-decimal (suc fuel) n h = elim (Bool-cases (ltb n 10)) [
  | inl small ↦ rw small (ground (arith, ltb→lt n 10))
  | inr large ↦
      rw
        (
          large,
          digits-append 0 (b'0' + n % 10) (decimal fuel (n / 10)),
          digits-decimal fuel (n / 10) (omega (arith, ltb-false n 10 large)),
        )
        (ground arith)
]

decimal-head :
    (fuel n : ℕ)
    → n ≤ fuel
    → (c : ℕ) × (rest : Bytes) × (decimal fuel n ≡ c ∷ rest) × (b'0' ≤ c) × (c ≤ b'9')
unfolding decimal
decimal-head zero n h = (b'0' + n % 10, [], refl, omega arith, omega arith)
decimal-head (suc fuel) n h = elim (Bool-cases (ltb n 10)) [
  | inl small ↦
      let lt = ltb→lt n 10 small in (b'0' + n, [], rw small refl, omega arith, omega arith)
  | inr large ↦
      let (c, rest, e, lo, hi) = decimal-head fuel (n / 10) (omega (arith, ltb-false n 10 large)) in
      (c, rest ++ (b'0' + n % 10) ∷ [], rw (large, e) refl, lo, hi)
]

-- `fmt.Sprintf("%d", z)`
unfoldable pub show_int : ℤ → Bytes
unfolding itoa
show_int (pos n) = itoa n
show_int (negsuc n) = b'-' ∷ itoa (n + 1)

-- The integers of a signed 64-bit word.
abbrev pub IsInt : ℤ → Type 0
IsInt (pos n) = n < 2 ^ 63
IsInt (negsuc n) = n < 2 ^ 63

pub magnitude-itoa : (n : ℕ) → magnitude (itoa n) ≡ some n
unfolding itoa magnitude
magnitude-itoa n =
    let (c, rest, e, lo, hi) = decimal-head n n (omega arith) in
    rw e (rw e at (digits-decimal n n (omega arith)))

atoi-itoa : (n : ℕ) → n < 2 ^ 63 → atoi (itoa n) ≡ some (pos n)
unfolding itoa atoi
atoi-itoa n h =
    let (c, rest, e, lo, hi) = decimal-head n n (omega arith) in
    rw e (ground (arith, rw e at (magnitude-itoa n)))

-- Atoi reads back every integer that %d prints, if it is one of 64 bits.
pub atoi-show_int : (z : ℤ) → IsInt z → atoi (show_int z) ≡ some z
unfolding show_int atoi
atoi-show_int (pos n) h = atoi-itoa n h
atoi-show_int (negsuc n) h = rw (magnitude-itoa (n + 1)) (ground arith)

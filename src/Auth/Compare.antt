-- ===== src/Auth/Compare.antt =====
-- SecureCompare is equality.
use kappa.Base.{
  Bytes, ◌≡◌, arith, ◌==◌, eq_iff, eq_refl, nat_eq, list_eq, length, Bool-cases, inl, inr, ◌%◌, ◌^◌,
}
use kappa.Auth.{secure_compare}

-- SecureCompare tells equal byte strings from different ones, whatever their lengths.
pub secure_compare-eq : (given actual : Bytes) → secure_compare given actual ≡ (given == actual)
unfolding secure_compare
secure_compare-eq given actual = elim (Bool-cases (given == actual)) [
  | inl same ↦ rw ((eq_iff given actual).0 same, eq_refl (length actual % 2 ^ 32))
  | inr other ↦ rw other (ground arith)
]

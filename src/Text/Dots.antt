-- ===== src/Text/Dots.antt =====
-- The last separator of a text.
use kappa.Base.{
  ℕ, zero, suc, Bytes, [], ◌∷◌, ◌++◌, false, Option, none, some, ◌≡◌, refl, arith, ◌==◌, nat_eq,
  nat_beq_iff, contains, if◌then◌else◌,
}
use kappa.Text.{last_index, take, drop}

pub last_index-lacks : (c : ℕ) (s : Bytes) → last_index c s ≡ none → contains c s ≡ false
unfolding last_index contains
last_index-lacks c [] h = refl
last_index-lacks c (x ∷ s) h = ground (arith, last_index-lacks c s)

-- The text is cut at the last separator, and there is none behind it.
pub last_index-cut :
    (c : ℕ) (s : Bytes) (i : ℕ)
    → last_index c s ≡ some i
    → (take i s ++ c ∷ drop (suc i) s ≡ s) × (contains c (drop (suc i) s) ≡ false)
unfolding last_index contains
last_index-cut c [] i h = cc
last_index-cut c (x ∷ s) i h = step (last_index c s) refl (last_index-cut c s) i h
  where
    step :
        (o : Option ℕ)
        → last_index c s ≡ o
        → ((j : ℕ)
            → last_index c s ≡ some j
            → (take j s ++ c ∷ drop (suc j) s ≡ s) × (contains c (drop (suc j) s) ≡ false))
        → (i : ℕ)
        → (elim o [ some j ↦ some (suc j) | none ↦ if x == c then some 0 else none ]) ≡ some i
        → (take i (x ∷ s) ++ c ∷ drop (suc i) (x ∷ s) ≡ x ∷ s)
          × (contains c (drop (suc i) (x ∷ s)) ≡ false)
    step none e ih zero h = (ground (arith, nat_beq_iff x c), last_index-lacks c s e)
    step none e ih (suc i) h = absurd (ground (arith, nat_beq_iff x c))
    step (some j) e ih zero h = absurd (ground arith)
    step (some j) e ih (suc i) h = ground (arith, ih j e)

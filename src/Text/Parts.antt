-- ===== src/Text/Parts.antt =====
-- Splitting and joining.
use kappa.Base.{
  ℕ, Bytes, List, [], ◌∷◌, ◌++◌, false, ◌≡◌, ◌≢◌, refl, arith, ◌==◌, nat_eq, contains, nat_beq_iff,
  All, list_eq, list_beq, list_beq_iff,
}
use mathlib.Core.List.{append_cancel_right}
use kappa.Text.{push, split, join}

abbrev pub Lacks : ℕ → Bytes → Type 0
Lacks sep p = contains sep p ≡ false

module _ (sep : ℕ) where
  pub split-ne-nil : (s : Bytes) → split sep s ≢ []
  unfolding split
  split-ne-nil [] h = cc
  split-ne-nil (c ∷ s) h = ground (arith, split-ne-nil s)

  push-append : (c : ℕ) (ps qs : List Bytes) → ps ≢ [] → push c (ps ++ qs) ≡ push c ps ++ qs
  unfolding push
  push-append c [] qs h = absurd (h refl)
  push-append c (p ∷ ps) qs h = refl

  -- The parts of a text with a separator in it are those before it and those behind it.
  pub split-append : (s t : Bytes) → split sep (s ++ sep ∷ t) ≡ split sep s ++ split sep t
  unfolding split
  split-append [] t = ground (arith, nat_beq_iff sep sep)
  split-append (c ∷ s) t =
      ground (arith, split-append s t, push-append c (split sep s) (split sep t), split-ne-nil s)

  pub split-Lacks : (p : Bytes) → Lacks sep p → split sep p ≡ p ∷ []
  unfolding split contains
  split-Lacks [] h = refl
  split-Lacks (c ∷ p) h = ground (arith, split-Lacks p)

  push-Lacks :
      (c : ℕ) (ps : List Bytes)
      → (c == sep) ≡ false
      → All (Lacks sep) ps
      → All (Lacks sep) (push c ps)
  unfolding push contains
  push-Lacks c [] h _ = ground arith
  push-Lacks c (p ∷ ps) h (hp, hps) = ground arith

  -- No part holds the separator.
  pub split-parts-Lacks : (s : Bytes) → All (Lacks sep) (split sep s)
  unfolding split contains
  split-parts-Lacks [] = ground arith
  split-parts-Lacks (c ∷ s) = ground (arith, split-parts-Lacks s, push-Lacks c (split sep s))

  pub split-join : (ps : List Bytes) → ps ≢ [] → All (Lacks sep) ps → split sep (join sep ps) ≡ ps
  unfolding join
  split-join [] h _ = absurd (h refl)
  split-join (p ∷ []) h (hp, _) = split-Lacks p hp
  split-join (p ∷ q ∷ ps) h (hp, hps) =
      ground
        (arith, split-append p (join sep (q ∷ ps)), split-Lacks p hp, split-join (q ∷ ps) (cc) hps)

behind_same : (x y s : Bytes) → x ≡ y → x ++ s ≡ y ++ s
behind_same x y s e = rw e refl

-- Two texts with the same end are told apart by what is in front of it.
pub same_behind : (x y s : Bytes) → list_beq (x ++ s) (y ++ s) ≡ list_beq x y
same_behind x y s = ground (
  arith,
  list_beq_iff (x ++ s) (y ++ s),
  list_beq_iff x y,
  append_cancel_right x y s,
  behind_same x y s,
)

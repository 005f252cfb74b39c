-- ===== src/Base/Assoc.antt =====
-- Go maps as association lists, at keys with an equality.
use Prim.Native.Nat.{◌+◌}
use mathlib.Core.Path.{◌≡◌, refl}
use mathlib.Core.Bool.{Bool, true, false}
use mathlib.Core.Option.{Option, none, some}
use mathlib.Core.List.{List, [], ◌∷◌}
use native.Mathlib.Omega.{arith}
use kappa.Base.Tests.{if◌then◌else◌}
use kappa.Base.Lists.{length}
use kappa.Base.Equality.{Eq, ◌==◌, eq_iff}

abbrev pub is_present {ℓ} : {A : Type ℓ} → Option A → Bool
is_present none = false
is_present (some a) = true

module _ {V K : Type 0} ⦃same : Eq K⦄ where
  unfoldable pub lookup : K → List (K × V) → Option V
  lookup key [] = none
  lookup key ((asked, value) ∷ entries) = if asked == key then some value else lookup key entries

  unfoldable pub insert : K → V → List (K × V) → List (K × V)
  insert key value [] = (key, value) ∷ []
  insert key value ((asked, old) ∷ entries) =
      let rest = insert key value entries in
      if asked == key then (key, value) ∷ entries else (asked, old) ∷ rest

  unfoldable pub remove : K → List (K × V) → List (K × V)
  remove key [] = []
  remove key ((asked, old) ∷ entries) =
      let rest = remove key entries in if asked == key then rest else (asked, old) ∷ rest

  pub lookup-insert :
      (key : K)
      → (asked : K) → (value : V) → (entries : List (K × V))
      → lookup asked (insert key value entries)
        ≡ (if key == asked then some value else lookup asked entries)
  unfolding lookup insert
  lookup-insert key asked value [] = refl
  lookup-insert key asked value ((first, old) ∷ entries) = ground (
    arith,
    eq_iff key asked,
    eq_iff first key,
    eq_iff first asked,
    lookup-insert key asked value entries,
  )

  pub lookup-remove :
      (key asked : K) (entries : List (K × V))
      → lookup asked (remove key entries) ≡ (if key == asked then none else lookup asked entries)
  unfolding lookup remove
  lookup-remove key asked [] = ground arith
  lookup-remove key asked ((first, old) ∷ entries) = ground (
    arith,
    eq_iff first key,
    eq_iff first asked,
    eq_iff key asked,
    lookup-remove key asked entries,
  )

  -- Every key stands once.
  abbrev pub HasUniqueKeys : List (K × V) → Type 0
  HasUniqueKeys [] = Unit
  HasUniqueKeys ((key, value) ∷ entries) = (lookup key entries ≡ none) × HasUniqueKeys entries

  pub insert-HasUniqueKeys :
      (key : K) (value : V) (entries : List (K × V))
      → HasUniqueKeys entries
      → HasUniqueKeys (insert key value entries)
  unfolding insert lookup
  insert-HasUniqueKeys key value [] h = (refl, tt)
  insert-HasUniqueKeys key value ((asked, old) ∷ entries) (h, hs) = ground (
    arith,
    eq_iff asked key,
    eq_iff key asked,
    lookup-insert key asked value entries,
    insert-HasUniqueKeys key value entries hs,
  )

  pub remove-HasUniqueKeys :
      (key : K) (entries : List (K × V))
      → HasUniqueKeys entries
      → HasUniqueKeys (remove key entries)
  unfolding remove
  remove-HasUniqueKeys key [] h = tt
  remove-HasUniqueKeys key ((asked, old) ∷ entries) (h, hs) = ground (
    arith,
    eq_iff key asked,
    lookup-remove key asked entries,
    remove-HasUniqueKeys key entries hs,
  )

  pub length-insert :
      (key : K) (value : V) (entries : List (K × V))
      → length (insert key value entries)
        ≡ (if is_present (lookup key entries) then length entries else length entries + 1)
  unfolding insert lookup
  length-insert key value [] = refl
  length-insert key value ((asked, old) ∷ entries) = ground (arith, length-insert key value entries)

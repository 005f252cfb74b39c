-- ===== src/Text/Fields.antt =====
-- The comma-delimited lists: what adding and removing an item does to the list that is read back.
use kappa.Base.{
  Bytes, List, [], ◌∷◌, ◌++◌, true, false, not, ◌&&◌, ◌≡◌, ◌≢◌, ◌∙◌, ◌⊎◌, inl, inr, refl, arith,
  ◌==◌, nat_eq, list_eq, list_beq, eq_refl, contains, without, contains-without, All-without,
  nonempty, All, Bool-cases,
}
use kappa.Text.{comma, split, join, fields, add_field, remove_field}
use kappa.Text.Parts.{Lacks, split-append, split-Lacks, split-parts-Lacks, split-join}

fields-split : (v : Bytes) → nonempty v ≡ true → fields v ≡ split comma v
unfolding fields
fields-split [] h = cc
fields-split (c ∷ v) h = refl

nonempty-append : (v w : Bytes) → nonempty w ≡ true → nonempty (v ++ w) ≡ true
nonempty-append [] w h = h
nonempty-append (c ∷ v) w h = refl

-- The items behind those that were there are the parts of the new text.
pub fields-add_split :
    (v item : Bytes)
    → nonempty item ≡ true
    → fields (add_field v item) ≡ fields v ++ split comma item
unfolding add_field join
fields-add_split [] item h = rw (fields-split item h) (unfold fields in refl)
fields-add_split (c ∷ v) item h =
    rw (fields-split (c ∷ (v ++ comma ∷ item)) refl, fields-split (c ∷ v) refl)
      (split-append comma (c ∷ v) item)

pub fields-add_field :
    (v item : Bytes)
    → nonempty item ≡ true
    → Lacks comma item
    → fields (add_field v item) ≡ fields v ++ item ∷ []
fields-add_field v item h l = rw (fields-add_split v item h, split-Lacks comma item l)

nonempty-join :
    (ps : List Bytes) → ps ≢ [] → All (λ p. nonempty p ≡ true) ps → nonempty (join comma ps) ≡ true
unfolding join
nonempty-join [] h _ = absurd (h refl)
nonempty-join (p ∷ []) h (hp, _) = hp
nonempty-join ([] ∷ q ∷ ps) h (hp, _) = refl
nonempty-join ((c ∷ p) ∷ q ∷ ps) h (hp, _) = refl

pub fields-add_joined :
    (v : Bytes) (items : List Bytes)
    → items ≢ []
    → All (λ p. nonempty p ≡ true) items
    → All (Lacks comma) items
    → fields (add_field v (join comma items)) ≡ fields v ++ items
fields-add_joined v items h full l =
    rw (fields-add_split v _ (nonempty-join items h full), split-join comma items h l)

blank_part : (p : Bytes) (ps : List Bytes) → join comma (p ∷ ps) ≡ [] → (p ∷ ps) ≡ [] ∷ []
unfolding join
blank_part [] [] h = refl
blank_part (c ∷ p) [] h = cc
blank_part [] (q ∷ ps) h = cc
blank_part (c ∷ p) (q ∷ ps) h = cc

nonempty-false : (v : Bytes) → nonempty v ≡ false → v ≡ []
nonempty-false [] h = refl
nonempty-false (c ∷ v) h = cc

-- A joined list is read back, but for a blank item that stands alone.
fields-join :
    (ps : List Bytes)
    → All (Lacks comma) ps
    → (fields (join comma ps) ≡ ps) ⊎ ((fields (join comma ps) ≡ []) × (ps ≡ [] ∷ []))
fields-join [] l = inl (unfold fields join in refl)
fields-join (p ∷ ps) l = elim (Bool-cases (nonempty (join comma (p ∷ ps)))) [
  | inl full ↦ inl (fields-split _ full ∙ split-join comma (p ∷ ps) (cc) l)
  | inr blank ↦
      let e = nonempty-false _ blank in inr (rw e (unfold fields in refl), blank_part p ps e)
]

contains-blank : (c : Bytes) → nonempty c ≡ true → contains c ([] ∷ []) ≡ false
unfolding contains list_beq
contains-blank [] h = cc
contains-blank (x ∷ c) h = refl

module _ (c : Bytes) (ps : List Bytes) (l : All (Lacks comma) ps) where
  contains-fields-join : nonempty c ≡ true → contains c (fields (join comma ps)) ≡ contains c ps
  contains-fields-join h = elim (fields-join ps l) [
    | inl e ↦ rw e
    | inr (e, f) ↦ rw (e, f, contains-blank c h) (unfold contains in refl)
  ]

  lacks-fields-join : contains c ps ≡ false → contains c (fields (join comma ps)) ≡ false
  lacks-fields-join h = elim (fields-join ps l) [
    | inl e ↦ rw e h
    | inr (e, f) ↦ rw e (unfold contains in refl)
  ]

without-Lacks : (v item : Bytes) → All (Lacks comma) (without item (split comma v))
without-Lacks v item = All-without (Lacks comma) item _ (split-parts-Lacks comma v)

-- The item is gone, and no other item comes or goes.
pub lacks-fields-remove : (v item : Bytes) → contains item (fields (remove_field v item)) ≡ false
unfolding remove_field
lacks-fields-remove v item =
    lacks-fields-join item _ (without-Lacks v item)
      (ground (arith, contains-without item item (split comma v), eq_refl item))

pub contains-fields-remove :
    (v item c : Bytes)
    → nonempty v ≡ true
    → nonempty c ≡ true
    → contains c (fields (remove_field v item)) ≡ (not (item == c) && contains c (fields v))
unfolding remove_field
contains-fields-remove v item c hv hc =
    rw (contains-fields-join c _ (without-Lacks v item) hc, fields-split v hv)
      (contains-without item c (split comma v))

blank_self : contains {A = Bytes} [] ([] ∷ []) ≡ true
unfolding contains list_beq
blank_self = refl

pub contains-fields-blank : (v c : Bytes) → nonempty v ≡ false → contains c (fields v) ≡ false
contains-fields-blank v c h = rw (nonempty-false v h) (unfold fields contains in refl)

abbrev pub IsTidy : Bytes → Type 0
IsTidy v = contains [] (fields v) ≡ false

-- Where no item is blank, the other items keep their order.
pub fields-remove :
    (v item : Bytes)
    → nonempty v ≡ true
    → IsTidy v
    → fields (remove_field v item) ≡ without item (fields v)
unfolding remove_field
fields-remove v item hv tidy = elim (fields-join _ (without-Lacks v item)) [
  | inl e ↦ rw (fields-split v hv) e
  | inr (e, f) ↦
      let gone : contains [] (without item (split comma v)) ≡ false =
        rw contains-without (ground (arith, tidy, fields-split v hv)) in
      cc (gone, f, blank_self)
]

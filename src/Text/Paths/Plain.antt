-- ===== src/Text/Paths/Plain.antt =====
-- Paths of plain parts are clean.
use kappa.Base.{
  ℕ, Bytes, codes, List, Bool, contains, contains-append, [], ◌∷◌, ◌++◌, true, false, ◌==◌, ◌≡◌,
  refl, ap, ◌∙◌, nat_eq, list_eq, list_beq, nonempty, arith,
}
use kappa.Text.{split, join}
use kappa.Text.Parts.{Lacks, split-join}
use kappa.Text.Paths.{
  clean, join_path, add_part, add_parts, cleaned, onto, without_empty, clean_joined,
}

-- A part of a path that Clean keeps.
pub record IsPlain (part : Bytes) : Type 0 where
  pub full : nonempty part ≡ true
  pub lacks : Lacks b'/' part
  pub is_part : (part == []) ≡ false
  pub no_dot : (part == codes ".") ≡ false
  pub no_up : (part == codes "..") ≡ false

abbrev pub pki : Bytes
pki = codes "pki"

pki-IsPlain : IsPlain pki
unfolding list_beq contains
pki-IsPlain = record { full = refl; lacks = refl; is_part = refl; no_dot = refl; no_up = refl }

add_part-plain :
    (rooted : Bool) (part : Bytes) (parts : List Bytes)
    → IsPlain part
    → add_part rooted part parts ≡ part ∷ parts
add_part-plain rooted part parts p = rw (p.is_part, p.no_dot, p.no_up) refl

module _ (directory file : Bytes) (d : IsPlain directory) (f : IsPlain file) where
  abbrev parts : List Bytes
  parts = pki ∷ directory ∷ file ∷ []

  abbrev path : Bytes
  path = join b'/' parts

  abbrev put_together : List Bytes → Bytes
  put_together done = cleaned false (join b'/' (onto done []))

  split-path : split b'/' path ≡ parts
  split-path = split-join b'/' parts (λ e. cc) (pki-IsPlain.lacks, (d.lacks, (f.lacks, tt)))

  clean-path : clean path ≡ path
  unfolding clean
  clean-path =
      ap (λ ps. put_together (add_parts false ps [])) split-path
      ∙ ap (λ done. put_together (add_part false file (add_part false directory done)))
          (add_part-plain false pki [] pki-IsPlain)
      ∙ ap (λ done. put_together (add_part false file done))
          (add_part-plain false directory (pki ∷ []) d)
      ∙ ap put_together (add_part-plain false file (directory ∷ pki ∷ []) f)

  without_empty-parts : without_empty parts ≡ parts
  without_empty-parts = rw (d.full, f.full) refl

  pub join_path-plain :
      join_path (pki ∷ directory ∷ file ∷ []) ≡ join b'/' (pki ∷ directory ∷ file ∷ [])
  unfolding join_path
  join_path-plain = ap (λ ps. clean_joined (join b'/' ps)) without_empty-parts ∙ clean-path

-- An extension of three letters behind any text without a slash.
pub with_extension-IsPlain :
    (name : Bytes) (a e x : ℕ)
    → Lacks b'/' name
    → contains b'/' (b'.' ∷ a ∷ e ∷ x ∷ []) ≡ false
    → IsPlain (name ++ b'.' ∷ a ∷ e ∷ x ∷ [])
unfolding list_beq
with_extension-IsPlain name a e x h k = record {
  full = nonempty-extended name;
  lacks = rw (contains-append b'/' name (b'.' ∷ a ∷ e ∷ x ∷ []), h, k) refl;
  is_part = longer_0 name;
  no_dot = longer_1 name;
  no_up = longer_2 name;
}
  where
    nonempty-extended : (s : Bytes) → nonempty (s ++ b'.' ∷ a ∷ e ∷ x ∷ []) ≡ true
    nonempty-extended [] = refl
    nonempty-extended (c ∷ s) = refl

    longer_0 : (s : Bytes) → list_beq (s ++ b'.' ∷ a ∷ e ∷ x ∷ []) [] ≡ false
    longer_0 [] = refl
    longer_0 (c ∷ s) = refl

    longer_1 : (s : Bytes) → list_beq (s ++ b'.' ∷ a ∷ e ∷ x ∷ []) (codes ".") ≡ false
    longer_1 [] = ground arith
    longer_1 (c ∷ s) = ground (arith, longer_0 s)

    longer_2 : (s : Bytes) → list_beq (s ++ b'.' ∷ a ∷ e ∷ x ∷ []) (codes "..") ≡ false
    longer_2 [] = ground arith
    longer_2 (c ∷ s) = ground (arith, longer_1 s)

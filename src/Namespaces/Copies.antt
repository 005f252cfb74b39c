-- ===== src/Namespaces/Copies.antt =====
-- What copy_entries of CreateChild puts into a bucket of roles.
use kappa.Base.{
  Bytes, List, [], ◌∷◌, Bool, true, false, Option, some, ◌≡◌, refl, ap, arith, ◌∙◌, ◌==◌, eq_iff,
  nat_eq, list_eq, list_beq, if◌then◌else◌, All, Bool-cases, inl, inr,
}
use kappa.Text.{value_of}
use kappa.Bolt.{Bolt, BoltLaws, find_entry}
use kappa.Namespaces.{bucket_of, roles_of, copy_entries}
use kappa.Namespaces.Roles.{is_some}
use kappa.Namespaces.Children.{copy_entries_put}

-- What ForEach hands over for an entry: the value that Get returns, within the limits of Put.
abbrev pub IsCopied : (b : Bolt) → (Bytes → Option Bytes) → Bytes × Option Bytes → Type 0
IsCopied b g (k, v) = (value_of v ≡ value_of (g k)) × (b.fits k (value_of v) ≡ true)

pub key-ne-role :
    (child v role : Bytes) → ((v ∷ bucket_of child) == (role ∷ roles_of child)) ≡ false
unfolding list_beq
key-ne-role child v role = ground arith

pub role-ne-roles : (name m role : Bytes) → ((role ∷ roles_of name) == roles_of m) ≡ false
unfolding list_beq
role-ne-roles name m role = ground arith

same_role : (child j k : Bytes) → ((j ∷ roles_of child) == (k ∷ roles_of child)) ≡ (j == k)
unfolding list_beq
same_role child j k = ground (arith, eq_iff (roles_of child) (roles_of child))

module _ (b : Bolt) (law : BoltLaws b) where
  abbrev pub chosen : Bool → Option Bytes → Option Bytes → Bytes
  chosen true copy old = value_of copy
  chosen false copy old = value_of old

  chosen-cons :
      (g : Bytes → Option Bytes) (j k : Bytes) (v : Option Bytes) (es : List (Bytes × Option Bytes))
      (old : Option Bytes)
      → value_of v ≡ value_of (g j)
      → chosen (is_some (find_entry k es)) (g k) (if j == k then some (value_of v) else old)
        ≡ chosen (is_some (find_entry k ((j, v) ∷ es))) (g k) old
  unfolding find_entry
  chosen-cons g j k v es old e = elim (Bool-cases (j == k)) [
    | inl same ↦ rw same (elim (Bool-cases (is_some (find_entry k es))) [
      | inl there ↦ rw there refl
      | inr missing ↦ rw missing (e ∙ ap (λ i. value_of (g i)) ((eq_iff j k).0 same))
    ])
    | inr ne ↦ rw ne refl
  ]

  -- A role of the child is the copy, if there is one, and what it was if not.
  pub value-copy_entries :
      (g : Bytes → Option Bytes) (es : List (Bytes × Option Bytes)) (child k : Bytes) (db : b.Db)
      → All (IsCopied b g) es
      → b.bucket db (roles_of child) ≡ true
      → ((j : Bytes) → b.bucket db (j ∷ roles_of child) ≡ false)
      → value_of (b.get (copy_entries b es (roles_of child) db).1 (k ∷ roles_of child))
        ≡ chosen (is_some (find_entry k es)) (g k) (b.get db (k ∷ roles_of child))
  unfolding copy_entries find_entry
  value-copy_entries g [] child k db all there plain = refl
  value-copy_entries g ((j, v) ∷ es) child k db ((e, fits), all) there plain =
      let (db', h) = law.put_ok db j (roles_of child) (value_of v) there (plain j) fits in
      let into = j ∷ roles_of child in
      ap (λ (p : Option b.Error × b.Db). value_of (b.get p.1 (k ∷ roles_of child)))
        (copy_entries_put b law j v es (roles_of child) db db' h)
      ∙ value-copy_entries g es child k db' all
          (law.bucket-put db db' into (roles_of child) (value_of v) h ∙ there)
          (λ i. law.bucket-put db db' into (i ∷ roles_of child) (value_of v) h ∙ plain i)
      ∙ ap (chosen (is_some (find_entry k es)) (g k)) (
          law.get-put db db' into (k ∷ roles_of child) (value_of v) h
          ∙ ap (λ t. if t then some (value_of v) else b.get db (k ∷ roles_of child))
              (same_role child j k))
      ∙ chosen-cons g j k v es (b.get db (k ∷ roles_of child)) e

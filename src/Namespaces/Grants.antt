-- ===== src/Namespaces/Grants.antt =====
-- Any run of GrantPermissions and RevokePermission on the roles of a namespace.
use kappa.Base.{
  Bytes, List, [], ◌∷◌, Bool, true, false, not, ◌&&◌, ◌||◌, ◌≡◌, ◌≢◌, ◌∙◌, refl, sym, ap, arith,
  ◌==◌, eq_iff, eq_refl, nat_eq, list_eq, list_beq, nonempty, contains, saved, All, Bool-cases, inl,
  inr, if◌then◌else◌,
}
use kappa.Text.{comma, join, fields, add_field, remove_field, value_of}
use kappa.Text.Parts.{Lacks}
use kappa.Bolt.{Bolt, BoltLaws}
use kappa.Bolt.Laws.{get-saved_put_ne, get-saved_create}
use kappa.Namespaces.{roles_of, has_permission, grant_permissions, revoke_permission}
use kappa.Namespaces.Shape.{IsNamespace, stored_permissions, with_roles, IsNamespace-with_roles}
use kappa.Namespaces.Permissions.{
  has_permission-eq-contains, grant_permissions-saved, revoke_permission-saved,
  revoke_permission-blank, IsNamespace-role_saved, has_permission-grant_permissions,
  has_permission-revoke_permission,
}

-- A call, of a role and its permissions or permission.
pub data Change : Type 0 where
  grant : Bytes → List Bytes → Change
  revoke : Bytes → Bytes → Change

-- Whether a role has a permission, behind one call and behind many.
abbrev pub step_held : Change → Bytes → Bytes → Bool → Bool
step_held (grant role ps) r p held = if role == r then held || contains p ps else held
step_held (revoke role q) r p held = if role == r then not (q == p) && held else held

abbrev pub held_after : List Change → Bytes → Bytes → Bool → Bool
held_after [] r p held = held
held_after (c ∷ cs) r p held = held_after cs r p (step_held c r p held)

module _ (b : Bolt) (name : Bytes) where
  abbrev pub run_change : Change → b.Db → b.Db
  run_change (grant role ps) db = (grant_permissions b name role ps db).1
  run_change (revoke role p) db = (revoke_permission b name role p db).1

  abbrev pub run_changes : List Change → b.Db → b.Db
  run_changes [] db = db
  run_changes (c ∷ cs) db = run_changes cs (run_change c db)

  abbrev pub holds : Bytes → Bytes → b.Db → Bool
  holds role p db = (has_permission b name role p db).0

  -- No bucket stands in the role's place, what is written is within the limits of Put, and of what is
  -- granted there is at least one, and none is blank or has a comma.
  abbrev pub IsAllowed : Change → b.Db → Type 0
  IsAllowed (grant role ps) db =
      (b.bucket db (role ∷ roles_of name) ≡ false)
      × (b.fits role (add_field (stored_permissions b db name role) (join comma ps)) ≡ true)
      × (ps ≢ [])
      × All (λ q. nonempty q ≡ true) ps
      × All (Lacks comma) ps
  IsAllowed (revoke role q) db =
      (b.bucket db (role ∷ roles_of name) ≡ false)
      × (b.fits role (remove_field (stored_permissions b db name role) q) ≡ true)

  abbrev pub AreAllowed : List Change → b.Db → Type 0
  AreAllowed [] db = Unit {0}
  AreAllowed (c ∷ cs) db = IsAllowed c db × AreAllowed cs (run_change c db)

  module _ (law : BoltLaws b) where
    holds-stored :
        (db : b.Db) (s : IsNamespace b db name) (r p : Bytes)
        → holds r p db ≡ contains p (fields (stored_permissions b db name r))
    holds-stored db s r p =
        ap (λ (x : Bool × b.Db). x.0) (has_permission-eq-contains b law db name s r p)

    same_stored :
        (d e : b.Db) (sd : IsNamespace b d name) (se : IsNamespace b e name) (r p : Bytes)
        → b.get d (r ∷ roles_of name) ≡ b.get e (r ∷ roles_of name)
        → holds r p d ≡ holds r p e
    same_stored d e sd se r p h =
        holds-stored d sd r p
        ∙ ap (λ v. contains p (fields (value_of v))) h
        ∙ sym (holds-stored e se r p)

    holds-with_roles :
        (db : b.Db) (s : IsNamespace b db name) (r p : Bytes)
        → holds r p (with_roles b db name) ≡ holds r p db
    holds-with_roles db s r p =
        same_stored (with_roles b db name) db (IsNamespace-with_roles b law db name s name) s r p
          (get-saved_create law db (roles_of name) (r ∷ roles_of name))

    other_role :
        (role r : Bytes)
        → (role == r) ≡ false
        → ((role ∷ roles_of name) == (r ∷ roles_of name)) ≡ false
    unfolding list_beq
    other_role role r h = ground arith

    holds-saved_other :
        (db : b.Db) (s : IsNamespace b db name) (role v r p : Bytes)
        → (role == r) ≡ false
        → holds r p
            (saved (b.put (with_roles b db name) (role ∷ roles_of name) v) (with_roles b db name))
          ≡ holds r p db
    holds-saved_other db s role v r p other =
        same_stored
          (saved (b.put (with_roles b db name) (role ∷ roles_of name) v) (with_roles b db name)) db
          (IsNamespace-role_saved b law db name s role v) s r p
          (get-saved_put_ne law (with_roles b db name) (role ∷ roles_of name) (r ∷ roles_of name) v
              (other_role role r other)
            ∙ get-saved_create law db (roles_of name) (r ∷ roles_of name))

    moved : {A : Type 0} (x y : A × b.Db) → x ≡ y → IsNamespace b y.1 name → IsNamespace b x.1 name
    moved x y e s = rw e s

    -- Every call leaves a namespace.
    run_change-IsNamespace :
        (c : Change) (db : b.Db) → IsNamespace b db name → IsNamespace b (run_change c db) name
    run_change-IsNamespace (grant role ps) db s =
        moved _ _ (grant_permissions-saved b law db name s role ps) (
          IsNamespace-role_saved b law db name s role
            (add_field (stored_permissions b db name role) (join comma ps)))
    run_change-IsNamespace (revoke role q) db s =
        elim (Bool-cases (nonempty (stored_permissions b db name role))) [
          | inl full ↦ moved _ _ (revoke_permission-saved b law db name s role q full) (
              IsNamespace-role_saved b law db name s role
                (remove_field (stored_permissions b db name role) q))
          | inr blank ↦
              moved _ _ (revoke_permission-blank b law db name s role q blank)
                (IsNamespace-with_roles b law db name s name)
        ]

    held_at : {A : Type 0} (r p : Bytes) (x y : A × b.Db) → x ≡ y → holds r p x.1 ≡ holds r p y.1
    held_at r p x y e = ap (λ z. holds r p z.1) e

    holds-granted_other :
        (db : b.Db) (s : IsNamespace b db name) (role r p : Bytes) (ps : List Bytes)
        → (role == r) ≡ false
        → holds r p (run_change (grant role ps) db) ≡ holds r p db
    holds-granted_other db s role r p ps other =
        held_at r p _ _ (grant_permissions-saved b law db name s role ps)
        ∙ holds-saved_other db s role
            (add_field (stored_permissions b db name role) (join comma ps)) r p other

    holds-revoked_other :
        (db : b.Db) (s : IsNamespace b db name) (role r p q : Bytes)
        → (role == r) ≡ false
        → holds r p (run_change (revoke role q) db) ≡ holds r p db
    holds-revoked_other db s role r p q other =
        elim (Bool-cases (nonempty (stored_permissions b db name role))) [
          | inl full ↦
              held_at r p _ _ (revoke_permission-saved b law db name s role q full)
              ∙ holds-saved_other db s role (remove_field (stored_permissions b db name role) q) r p
                  other
          | inr blank ↦
              held_at r p _ _ (revoke_permission-blank b law db name s role q blank)
              ∙ holds-with_roles db s r p
        ]

    -- One call, at any role.
    holds-run_change :
        (c : Change) (db : b.Db) (r p : Bytes)
        → IsNamespace b db name
        → IsAllowed c db
        → nonempty p ≡ true
        → holds r p (run_change c db) ≡ step_held c r p (holds r p db)
    holds-run_change (grant role ps) db r p s (plain, fits, some_granted, named, lacking) full =
        elim (Bool-cases (role == r)) [
          | inl same ↦
              rw (sym ((eq_iff role r).0 same), eq_refl role)
                (has_permission-grant_permissions b law db name s role ps p plain fits some_granted
                  named lacking).1
          | inr other ↦ holds-granted_other db s role r p ps other ∙ rw other refl
        ]
    holds-run_change (revoke role q) db r p s (plain, fits) full = elim (Bool-cases (role == r)) [
      | inl same ↦
          rw (sym ((eq_iff role r).0 same), eq_refl role)
            (has_permission-revoke_permission b law db name s role q p plain fits full).1
      | inr other ↦ holds-revoked_other db s role r p q other ∙ rw other refl
    ]

    -- Over any run of calls of GrantPermissions and RevokePermission, whether a role has a permission is
    -- what the calls on that role make of what it had: a grant adds its permissions, and a revocation
    -- takes its permission away. The namespace has the expected shape, the permission asked for is not
    -- blank, and each call is allowed where it is made.
    pub holds-run_changes :
        (cs : List Change) (db : b.Db) (r p : Bytes)
        → IsNamespace b db name
        → AreAllowed cs db
        → nonempty p ≡ true
        → holds r p (run_changes cs db) ≡ held_after cs r p (holds r p db)
    holds-run_changes [] db r p s h full = refl
    holds-run_changes (c ∷ cs) db r p s (h, hs) full =
        holds-run_changes cs (run_change c db) r p (run_change-IsNamespace c db s) hs full
        ∙ ap (held_after cs r p) (holds-run_change c db r p s h full)

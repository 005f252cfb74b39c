-- ===== src/Namespaces/Shape.antt =====
-- What a namespace's bucket holds, and where the entries of two namespaces can meet.
use kappa.Base.{
  Bytes, State, saved, refl, [], ◌∷◌, true, false, none, ◌≡◌, ◌≢◌, arith, ◌==◌, eq_iff, nat_eq,
  list_eq, list_beq, ap,
}
use kappa.Text.{value_of}
use kappa.Bolt.{Location, Bolt, BoltLaws}
use kappa.Bolt.Laws.{
  get-saved_create, get-saved_put_ne, get-saved_delete_ne, bucket-saved_put, bucket-saved_delete,
  bucket-saved_create_ne, bucket-saved_create_true, bucket-saved_create, error-create,
}
use kappa.Namespaces.{roles_key, bucket_of, users_of, roles_of, in_roles}

-- The namespace exists, and its "users" and "roles" keys hold what the methods take them for.
pub record IsNamespace (b : Bolt) (db : b.Db) (name : Bytes) : Type 0 where
  pub exists : b.bucket db (bucket_of name) ≡ true
  pub users_plain : b.bucket db (users_of name) ≡ false
  pub roles_nested : b.get db (roles_of name) ≡ none

abbrev pub stored_users : (b : Bolt) → b.Db → Bytes → Bytes
stored_users b db name = value_of (b.get db (users_of name))

abbrev pub stored_permissions : (b : Bolt) → b.Db → Bytes → Bytes → Bytes
stored_permissions b db name role = value_of (b.get db (role ∷ roles_of name))

-- The database behind the call that opens, or makes, the bucket of the roles.
abbrev pub with_roles : (b : Bolt) → b.Db → Bytes → b.Db
with_roles b db name = saved (b.create_bucket db (roles_of name)) db

pub ne-beq : (l q : Location) → l ≢ q → (l == q) ≡ false
ne-beq l q h = ground (arith, eq_iff l q)

abbrev last_key : Location → Bytes
last_key [] = []
last_key (k ∷ []) = k
last_key (k ∷ l ∷ p) = last_key (l ∷ p)

-- Entries of namespaces with different names are different.
pub users_of-ne : (name m : Bytes) → name ≢ m → (users_of name == users_of m) ≡ false
users_of-ne name m h = ne-beq _ _ (λ e. h (ap last_key e))

pub role_of-ne :
    (name m role r : Bytes) → name ≢ m → ((role ∷ roles_of name) == (r ∷ roles_of m)) ≡ false
role_of-ne name m role r h = ne-beq _ _ (λ e. h (ap last_key e))

pub users-ne-roles : (name m : Bytes) → (users_of name == roles_of m) ≡ false
unfolding list_beq
users-ne-roles name m = ground arith

pub roles-ne-users : (name m : Bytes) → (roles_of name == users_of m) ≡ false
unfolding list_beq
roles-ne-users name m = ground arith

pub role-ne-roles : (name m role : Bytes) → ((role ∷ roles_of name) == roles_of m) ≡ false
unfolding list_beq
role-ne-roles name m role = ground arith

pub roles-ne-role : (name m role : Bytes) → (roles_of name == (role ∷ roles_of m)) ≡ false
unfolding list_beq
roles-ne-role name m role = ground arith

module _ (b : Bolt) (law : BoltLaws b) (db : b.Db) where
  module _ (m : Bytes) (s : IsNamespace b db m) where
    pub IsNamespace-saved_put :
        (l : Location) (v : Bytes)
        → (l == roles_of m) ≡ false
        → IsNamespace b (saved (b.put db l v) db) m
    IsNamespace-saved_put l v ne = record {
      exists = rw (bucket-saved_put law db l (bucket_of m) v) s.exists;
      users_plain = rw (bucket-saved_put law db l (users_of m) v) s.users_plain;
      roles_nested = rw (get-saved_put_ne law db l (roles_of m) v ne) s.roles_nested;
    }

    pub IsNamespace-saved_delete :
        (l : Location) → (l == roles_of m) ≡ false → IsNamespace b (saved (b.delete db l) db) m
    IsNamespace-saved_delete l ne = record {
      exists = rw (bucket-saved_delete law db l (bucket_of m)) s.exists;
      users_plain = rw (bucket-saved_delete law db l (users_of m)) s.users_plain;
      roles_nested = rw (get-saved_delete_ne law db l (roles_of m) ne) s.roles_nested;
    }

    pub IsNamespace-saved_create :
        (l : Location)
        → (l == users_of m) ≡ false
        → IsNamespace b (saved (b.create_bucket db l) db) m
    IsNamespace-saved_create l ne = record {
      exists = bucket-saved_create_true law db l (bucket_of m) s.exists;
      users_plain = rw (bucket-saved_create_ne law db l (users_of m) ne) s.users_plain;
      roles_nested = rw (get-saved_create law db l (roles_of m)) s.roles_nested;
    }

    pub IsNamespace-with_roles : (name : Bytes) → IsNamespace b (with_roles b db name) m
    IsNamespace-with_roles name = IsNamespace-saved_create (roles_of name) (roles-ne-users name m)

  module _ (name : Bytes) (s : IsNamespace b db name) where
    pub bucket-with_roles : b.bucket (with_roles b db name) (roles_of name) ≡ true
    bucket-with_roles = rw (
      bucket-saved_create law db roles_key (bucket_of name) s.exists refl s.roles_nested
          (roles_of name),
      (eq_iff (roles_of name) (roles_of name)).1 refl,
    )

    pub in_roles-runs :
        {A : Type 0} (missing failed : A) (body : State b.Db A)
        → in_roles b missing failed name body db ≡ body (with_roles b db name)
    in_roles-runs missing failed body =
        rw (s.exists, error-create law db roles_key (bucket_of name) s.exists refl s.roles_nested)

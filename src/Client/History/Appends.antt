-- ===== src/Client/History/Appends.antt =====
-- The history behind appended lines: those that do not repeat the one before them.
use kappa.Base.{
  ℕ, Bytes, List, [], ◌∷◌, ◌++◌, append_assoc, append-nil, Bool, true, false, ◌≡◌, refl, sym, ap,
  ◌∙◌, arith, ◌==◌, nat_eq, list_eq, eq_iff, if◌then◌else◌, nonempty, contains, contains-append,
  All,
}
use kappa.Text.Parts.{Lacks}
use kappa.Client.History.{History, line_feed, last_of, last_entry, append}

-- The line with the line feed that the loop of the client adds.
abbrev pub closed : Bytes → Bytes
closed line = line ++ line_feed ∷ []

abbrev pub closed_all : List Bytes → List Bytes
closed_all [] = []
closed_all (l ∷ ls) = closed l ∷ closed_all ls

-- The lines that differ from the one before them, where `last` stands before the first.
unfoldable pub unrepeated_from : Bytes → List Bytes → List Bytes
unrepeated_from last [] = []
unrepeated_from last (l ∷ ls) =
    let rest = unrepeated_from last ls in if l == last then rest else l ∷ unrepeated_from l ls

-- The history behind the lines.
abbrev pub recorded : List Bytes → History → History
recorded [] h = h
recorded (l ∷ ls) h = recorded ls (append (closed l) h)

last_of-append : (x y : Bytes) (xs : List Bytes) → last_of x (xs ++ y ∷ []) ≡ y
last_of-append x y [] = refl
last_of-append x y (z ∷ xs) = last_of-append z y xs

pub record IsBehind (lines : List Bytes) (h h' : History) : Type 0 where
  pub old : h'.old_entries ≡ h.old_entries
  pub new : h'.new_entries ≡ h.new_entries ++ unrepeated_from (last_entry h) lines

abbrev grown : Bytes → History → History
grown l h = record h { new_entries = h.new_entries ++ l ∷ [] }

append_same : (l : Bytes) (h : History) → (l == last_entry h) ≡ true → append l h ≡ h
unfolding append
append_same l h e = rw e refl

append_new : (l : Bytes) (h : History) → (l == last_entry h) ≡ false → append l h ≡ grown l h
unfolding append
append_new l h e = rw e refl

last_entry_new : (l : Bytes) (h : History) → last_entry (grown l h) ≡ l
unfolding last_entry
last_entry_new l h = last_of-append (last_of [] h.old_entries) l h.new_entries

unrepeated_new :
    (last l : Bytes) (ls : List Bytes)
    → (l == last) ≡ false
    → unrepeated_from last (l ∷ ls) ≡ l ∷ unrepeated_from l ls
unfolding unrepeated_from
unrepeated_new last l ls e = rw e refl

unrepeated_same :
    (last l : Bytes) (ls : List Bytes)
    → (l == last) ≡ true
    → unrepeated_from last (l ∷ ls) ≡ unrepeated_from last ls
unfolding unrepeated_from
unrepeated_same last l ls e = rw e refl

append-IsBehind :
    (l : Bytes) (ls : List Bytes) (h h' : History) (same : Bool)
    → (l == last_entry h) ≡ same
    → IsBehind ls (append l h) h'
    → IsBehind (l ∷ ls) h h'
append-IsBehind l ls h h' true e b =
    let c : IsBehind ls h h' = rw (append_same l h e) at b in
    record {
      old = c.old;
      new = c.new ∙ ap (λ ks. h.new_entries ++ ks) (sym (unrepeated_same (last_entry h) l ls e));
    }
append-IsBehind l ls h h' false e b =
    let c : IsBehind ls (grown l h) h' = rw (append_new l h e) at b in
    record {
      old = c.old;
      new =
          c.new
          ∙ append_assoc h.new_entries (l ∷ []) (unrepeated_from (last_entry (grown l h)) ls)
          ∙ ap (λ last. h.new_entries ++ l ∷ unrepeated_from last ls) (last_entry_new l h)
          ∙ ap (λ ks. h.new_entries ++ ks) (sym (unrepeated_new (last_entry h) l ls e));
    }

pub recorded-IsBehind : (ls : List Bytes) (h : History) → IsBehind (closed_all ls) h (recorded ls h)
unfolding unrepeated_from
recorded-IsBehind [] h = record { old = refl; new = sym (append-nil h.new_entries) }
recorded-IsBehind (l ∷ ls) h =
    append-IsBehind (closed l) (closed_all ls) h (recorded ls (append (closed l) h))
      (closed l == last_entry h) refl (recorded-IsBehind ls (append (closed l) h))

snoc-injective : (c : ℕ) (xs ys : Bytes) → xs ++ c ∷ [] ≡ ys ++ c ∷ [] → xs ≡ ys
snoc-injective c [] [] e = refl
snoc-injective c [] (y ∷ []) e = cc
snoc-injective c [] (y ∷ z ∷ ys) e = cc
snoc-injective c (x ∷ []) [] e = cc
snoc-injective c (x ∷ z ∷ xs) [] e = cc
snoc-injective c (x ∷ xs) (y ∷ ys) e = let rest = snoc-injective c xs ys (cc) in cc

same_closed : (a b : Bytes) → (closed a == closed b) ≡ (a == b)
same_closed a b =
    ground (arith, eq_iff a b, eq_iff (closed a) (closed b), snoc-injective line_feed a b)

unrepeated-closed :
    (last : Bytes) (ls : List Bytes)
    → unrepeated_from (closed last) (closed_all ls) ≡ closed_all (unrepeated_from last ls)
unfolding unrepeated_from
unrepeated-closed last [] = refl
unrepeated-closed last (l ∷ ls) =
    rw (same_closed l last) (ground (arith, unrepeated-closed last ls, unrepeated-closed l ls))

has_feed : (l : Bytes) → contains line_feed (closed l) ≡ true
has_feed l = rw (contains-append line_feed l (line_feed ∷ [])) (unfold contains in ground arith)

closed-Lacks : (l p : Bytes) → Lacks line_feed p → (closed l == p) ≡ false
closed-Lacks l p h = ground (arith, eq_iff (closed l) p, has_feed l)

pub nonempty_new : (l : Bytes) → nonempty l ≡ true → (l == []) ≡ false
nonempty_new l h = ground (arith, eq_iff l [])

-- Where the history starts with the entries of a file, which have no line feed.
pub unrepeated-fresh :
    (p : Bytes) (ls : List Bytes)
    → Lacks line_feed p
    → All (λ l. nonempty l ≡ true) ls
    → unrepeated_from p (closed_all ls) ≡ closed_all (unrepeated_from [] ls)
unrepeated-fresh p [] h full = unfold unrepeated_from in refl
unrepeated-fresh p (l ∷ ls) h (some_text, full) =
    rw
      (
        unrepeated_new p (closed l) (closed_all ls) (closed-Lacks l p h),
        unrepeated_new [] l ls (nonempty_new l some_text),
        unrepeated-closed l ls,
      )
      refl

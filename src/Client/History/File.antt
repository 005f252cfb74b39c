-- ===== src/Client/History/File.antt =====
-- What a later session reads of the lines that a session has appended.
use kappa.Client.History.Appends.{
  closed, closed_all, unrepeated_from, recorded, recorded-IsBehind, unrepeated-fresh, nonempty_new,
}
use kappa.Base.{
  Bytes, List, [], ◌∷◌, ◌++◌, append_assoc, append-nil, true, none, some, ◌≡◌, ◌⊎◌, inl, inr, refl,
  sym, ◌∙◌, arith, nat_eq, list_eq, list_beq, nonempty, contains, without, All, All-without,
}
use kappa.Text.{split, join}
use kappa.Text.Parts.{Lacks, split-append, split-Lacks, split-parts-Lacks}
use kappa.Client.History.{line_feed, last_of, last_entry, read_entries, new_history, write_to_file}

All-unrepeated :
    (P : Bytes → Type 0) (last : Bytes) (ls : List Bytes)
    → All P ls
    → All P (unrepeated_from last ls)
unfolding unrepeated_from
All-unrepeated P last [] h = tt
All-unrepeated P last (l ∷ ls) (p, h) =
    ground (arith, All-unrepeated P last ls h, All-unrepeated P l ls h)

last_of-Lacks :
    (x : Bytes) (xs : List Bytes)
    → Lacks line_feed x
    → All (Lacks line_feed) xs
    → Lacks line_feed (last_of x xs)
last_of-Lacks x [] h _ = h
last_of-Lacks x (y ∷ ys) h (k, ks) = last_of-Lacks y ys k ks

fresh-Lacks : (file : Bytes) → Lacks line_feed (last_entry (new_history (some file)))
unfolding last_entry new_history read_entries
fresh-Lacks file =
    last_of-Lacks [] (without [] (split line_feed file)) (unfold contains in refl)
      (All-without (Lacks line_feed) [] _ (split-parts-Lacks line_feed file))

without-append : (xs ys : List Bytes) → without [] (xs ++ ys) ≡ without [] xs ++ without [] ys
unfolding without
without-append [] ys = refl
without-append (x ∷ xs) ys = ground (arith, without-append xs ys)

-- The file is empty, or its last line is closed.
abbrev pub IsClosed : Bytes → Type 0
IsClosed file = (file ≡ []) ⊎ ((f : Bytes) × (file ≡ closed f))

blank_parts : without {A = Bytes} [] ([] ∷ []) ≡ []
unfolding without list_beq
blank_parts = refl

read-split :
    (f g : Bytes)
    → read_entries (some (f ++ line_feed ∷ g)) ≡ read_entries (some f) ++ read_entries (some g)
unfolding read_entries
read-split f g =
    rw (split-append line_feed f g) (without-append (split line_feed f) (split line_feed g))

read_nothing : read_entries (some []) ≡ []
unfolding read_entries split
read_nothing = blank_parts

read-closed : (f : Bytes) → read_entries (some (closed f)) ≡ read_entries (some f)
read-closed f = rw (read-split f [], read_nothing) (append-nil (read_entries (some f)))

read-append :
    (file g : Bytes)
    → IsClosed file
    → read_entries (some (file ++ g)) ≡ read_entries (some file) ++ read_entries (some g)
read-append file g (inl e) = rw (e, read_nothing) refl
read-append file g (inr (f, e)) =
    rw (e, append_assoc f (line_feed ∷ []) g, read-closed f) (read-split f g)

read_line : (l : Bytes) → nonempty l ≡ true → Lacks line_feed l → read_entries (some l) ≡ l ∷ []
unfolding read_entries without
read_line l h k = rw (split-Lacks line_feed l k, nonempty_new l h) refl

read-joined :
    (ls : List Bytes)
    → All (λ l. nonempty l ≡ true) ls
    → All (Lacks line_feed) ls
    → read_entries (some (join line_feed (closed_all ls))) ≡ ls
unfolding join
read-joined [] h k = read_nothing
read-joined (l ∷ []) (h, _) (k, _) = read-closed l ∙ read_line l h k
read-joined (l ∷ m ∷ ls) (h, hs) (k, ks) =
    rw
      (
        read-split (closed l) (join line_feed (closed_all (m ∷ ls))),
        read-closed l,
        read_line l h k,
        read-joined (m ∷ ls) hs ks,
      )
      refl

join-IsClosed : (ls : List Bytes) → IsClosed (join line_feed (closed_all ls))
unfolding join
join-IsClosed [] = inl refl
join-IsClosed (l ∷ []) = inr (l, refl)
join-IsClosed (l ∷ m ∷ ls) = elim (join-IsClosed (m ∷ ls)) [
  | inl e ↦ inr (closed l, rw e refl)
  | inr (f, e) ↦ inr (
    closed l ++ line_feed ∷ f,
    rw e (sym (append_assoc (closed l) (line_feed ∷ f) (line_feed ∷ []))),
  )
]

append-IsClosed : (file g : Bytes) → IsClosed file → IsClosed g → IsClosed (file ++ g)
append-IsClosed file g h (inl e) = rw (e, append-nil file) h
append-IsClosed file g h (inr (f, e)) =
    inr (file ++ f, rw e (sym (append_assoc file f (line_feed ∷ []))))

-- The lines, but for those that repeat the one before them.
abbrev pub unrepeated : List Bytes → List Bytes
unrepeated = unrepeated_from []

module _ (file : Bytes) (ls : List Bytes) (h : IsClosed file)
    (full : All (λ l. nonempty l ≡ true) ls) (lack : All (Lacks line_feed) ls) where
  abbrev behind : Bytes
  behind = (write_to_file (recorded ls (new_history (some file))) none file).1

  written : behind ≡ file ++ join line_feed (closed_all (unrepeated ls))
  unfolding write_to_file
  written =
      let fresh = new_history (some file) in
      let b = recorded-IsBehind ls fresh in
      rw (b.new, unrepeated-fresh (last_entry fresh) ls (fresh-Lacks file) full)
        (unfold new_history in refl)

  -- A later session reads the entries of the file and then the lines that are appended, without those
  -- that repeat the one before them; and the file is left closed again.
  pub read-write_to_file :
      (read_entries (some behind) ≡ read_entries (some file) ++ unrepeated ls) × IsClosed behind
  read-write_to_file =
      let kept = All-unrepeated (λ l. nonempty l ≡ true) [] ls full in
      let lacking = All-unrepeated (Lacks line_feed) [] ls lack in
      rw
        (
          written,
          read-append file (join line_feed (closed_all (unrepeated ls))) h,
          read-joined (unrepeated ls) kept lacking,
        )
        (refl, append-IsClosed file _ h (join-IsClosed (unrepeated ls)))

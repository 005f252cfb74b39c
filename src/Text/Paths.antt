-- ===== src/Text/Paths.antt =====
-- Go's package `path`: Clean and Join.
pub mod Plain
use kappa.Base.{
  Bytes, codes, List, [], ◌∷◌, Bool, true, false, ◌==◌, ◌||◌, nat_eq, list_eq, if◌then◌else◌,
  nonempty,
}
use kappa.Text.{split, join}

abbrev is_rooted : Bytes → Bool
is_rooted [] = false
is_rooted (c ∷ s) = c == b'/'

-- `..` behind the parts so far, the last part first: it takes away a part that is not `..`, and at the
-- start it stays in a path that is not rooted.
abbrev up : Bool → List Bytes → List Bytes
up true [] = []
up false [] = codes ".." ∷ []
up rooted (part ∷ parts) = if part == codes ".." then codes ".." ∷ part ∷ parts else parts

abbrev pub add_part : Bool → Bytes → List Bytes → List Bytes
add_part rooted part parts =
    if part == [] || part == codes "."
    then parts
    else if part == codes ".."
    then up rooted parts
    else part ∷ parts

abbrev pub add_parts : Bool → List Bytes → List Bytes → List Bytes
add_parts rooted [] parts = parts
add_parts rooted (part ∷ rest) parts = add_parts rooted rest (add_part rooted part parts)

abbrev pub onto : List Bytes → List Bytes → List Bytes
onto [] done = done
onto (part ∷ parts) done = onto parts (part ∷ done)

abbrev pub cleaned : Bool → Bytes → Bytes
cleaned true s = b'/' ∷ s
cleaned false s = if nonempty s then s else codes "."

-- `path.Clean(s)`
unfoldable pub clean : Bytes → Bytes
unfolding split join
clean s =
    let rooted = is_rooted s in
    cleaned rooted (join b'/' (onto (add_parts rooted (split b'/' s) []) []))

abbrev pub without_empty : List Bytes → List Bytes
without_empty [] = []
without_empty (part ∷ parts) =
    let rest = without_empty parts in if nonempty part then part ∷ rest else rest

abbrev pub clean_joined : Bytes → Bytes
clean_joined s = if nonempty s then clean s else []

-- `path.Join(parts...)`: empty parts are ignored, and of none at all nothing comes.
unfoldable pub join_path : List Bytes → Bytes
unfolding clean
join_path parts = clean_joined (join b'/' (without_empty parts))

-- ===== src/Client/History.antt =====
-- The history of the client's lines: the type History of commands/cli.go, and how its file is read. A
-- file is its bytes, none where there is no file.

pub mod Appends
pub mod File
use kappa.Base.{
  ℕ, Bytes, List, [], ◌∷◌, ◌++◌, Option, none, some, ◌==◌, nat_eq, list_eq, if◌then◌else◌, without,
}
use kappa.Text.{split, join}

abbrev pub line_feed : ℕ
line_feed = 10

pub record History : Type 0 where
  pub old_entries : List Bytes
  pub new_entries : List Bytes

-- `xs[len(xs)-1]`, and the value before it where the list is empty.
abbrev pub last_of : Bytes → List Bytes → Bytes
last_of x [] = x
last_of x (y ∷ ys) = last_of y ys

-- `lastEntry`: a string variable starts empty.
unfoldable pub last_entry : History → Bytes
last_entry h = last_of (last_of [] h.old_entries) h.new_entries

unfoldable pub append : Bytes → History → History
unfolding last_entry
append line h =
    if line == last_entry h then h else record h { new_entries = h.new_entries ++ line ∷ [] }

-- The parts of the file that are not empty; `none` is a file that cannot be read.
unfoldable pub read_entries : Option Bytes → List Bytes
unfolding split without
read_entries none = []
read_entries (some file) = without [] (split line_feed file)

unfoldable pub new_history : Option Bytes → History
new_history file = record { old_entries = read_entries file; new_entries = [] }

-- What stands in the file behind the call, and its error; the file is opened to append and made where
-- there is none, `open_error` is the error of that, and a write that fails is not modelled.
unfoldable pub write_to_file : History → Option Bytes → Bytes → Option Bytes × Bytes
unfolding join
write_to_file h (some e) file = (some e, file)
write_to_file h none file = (none, file ++ join line_feed h.new_entries)

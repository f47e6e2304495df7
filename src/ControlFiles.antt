-- ===== src/ControlFiles.antt =====
-- The control files of a list, src/statctrl.c, src/ctrlvalue.c, src/ctrlvalues.c, src/getlistaddr.c and
-- src/getlistdelim.c. A file is the text that it holds, or `none` where it does not open.
pub mod Values
mod Tests
use mlmmj.Base.{
  ℕ, Bool, true, false, Option, none, some, List, [], ◌∷◌, ◌==◌, if◌then◌else◌, Bytes, codes,
  is_empty,
}
use mlmmj.CString.{contains}
use mlmmj.Headers.{chomp}

-- What `stat` finds; `fails` is any other error than a missing file.
pub data Stat : Type 0 where
  present missing fails : Stat

-- `none` is the end of the program.
unfoldable pub statctrl : Stat → Option Bool
statctrl present = some true
statctrl missing = some false
statctrl fails = none

-- The lines that the calls of `mygetline` give, each with its newline.
unfoldable pub getlines : Bytes → List Bytes
getlines [] = []
getlines (c ∷ s) =
    let after = getlines s in
    if c == b'\n'
    then (c ∷ []) ∷ after
    else elim after [ [] ↦ (c ∷ []) ∷ [] | line ∷ lines ↦ (c ∷ line) ∷ lines ]

unfoldable pub getline : Bytes → Option Bytes
unfolding getlines
getline content = elim (getlines content) [ [] ↦ none | line ∷ lines ↦ some line ]

-- The value of a file that opens but is empty is NULL, like that of a file that does not open.
unfoldable pub ctrlvalue : Option Bytes → Option Bytes
unfolding getline chomp
ctrlvalue none = none
ctrlvalue (some content) = elim (getline content) [ none ↦ none | some line ↦ some (chomp line) ]

abbrev cut_last : ℕ → Bytes → Bytes
cut_last c [] = []
cut_last c (x ∷ []) = if x == c then [] else x ∷ []
cut_last c (x ∷ y ∷ s) = x ∷ cut_last c (y ∷ s)

-- `ctrlcontent` and `textcontent`. An empty file gives NULL, and its length is taken: the program reads
-- through a null pointer, `some none`.
unfoldable pub ctrlcontent : Option Bytes → Option (Option Bytes)
ctrlcontent none = none
ctrlcontent (some []) = some none
ctrlcontent (some (c ∷ content)) = some (some (cut_last b'\r' (cut_last b'\n' (c ∷ content))))

unfoldable pub nonempty_lines : List Bytes → List Bytes
unfolding chomp
nonempty_lines [] = []
nonempty_lines (line ∷ lines) =
    let more = nonempty_lines lines in if is_empty (chomp line) then more else chomp line ∷ more

unfoldable pub ctrlvalues : Option Bytes → Option (List Bytes)
unfolding nonempty_lines getlines
ctrlvalues none = none
ctrlvalues (some content) = some (nonempty_lines (getlines content))

-- `none` is the end of the program.
unfoldable pub getlistaddr : Option Bytes → Option Bytes
unfolding getline chomp contains
getlistaddr none = none
getlistaddr (some content) = elim (getline content) [
  | none ↦ none
  | some line ↦ if contains b'@' line then some (chomp line) else none
]

-- `none` is the end of the program.
unfoldable pub getlistdelim : Option Bytes → Option Bytes
unfolding getline chomp
getlistdelim none = some (codes "+")
getlistdelim (some content) = elim (getline content) [
  | none ↦ none
  | some line ↦ if is_empty (chomp line) then none else some (chomp line)
]

-- ===== src/Subscribers.antt =====
-- The subscriber files of a list, src/subscriberfuncs.c. A file is what the system calls on it give.
pub mod Lines
pub mod Change
pub mod Membership
pub mod Erase
pub mod Append
pub mod Unsubscribe
pub mod Removal
mod Tests
use mlmmj.Base.{
  ℕ, ◌+◌, Bool, true, false, not, ◌&&◌, ◌||◌, Option, none, some, List, [], ◌∷◌, ltb, ◌==◌,
  if◌then◌else◌, Bytes, codes, length, is_empty,
}
use mlmmj.CString.{str_eq, case_eq_n}

-- An open file: what `fstat` and `mmap` answer, and the bytes.
pub record Opened : Type 0 where
  pub stat_ok : Bool
  pub regular : Bool
  pub mmap_ok : Bool
  pub content : Bytes

-- `strlen(address) == len && strncasecmp(address, cur, len) == 0`
unfoldable pub matches : Bytes → Bytes → ℕ → Bool
matches address cur len = length address == len && case_eq_n len address cur

-- The loop over the mapping: `cur` stands at offset `start`, and `next` is `len` bytes behind it.
unfoldable pub scan : Bytes → ℕ → Bytes → ℕ → Bytes → Option ℕ
scan address start cur len [] = if ltb 0 len && matches address cur len then some start else none
scan address start cur len (c ∷ next) = elim (c == b'\n') [
  | true ↦ elim (matches address cur len) [
    | true ↦ some start
    | false ↦ scan address (start + len + 1) next 0 next
  ]
  | false ↦ scan address start cur (len + 1) next
]

-- `none` is the offset -1.
unfoldable pub find_subscriber : Opened → Bytes → Option ℕ
unfolding scan matches
find_subscriber f address =
    if not f.stat_ok
    then none
    else if is_empty f.content
    then none
    else if not f.regular
    then none
    else if not f.mmap_ok
    then none
    else scan address 0 f.content 0 f.content

-- What the system answers while one entry of a directory is rewritten.
pub record Calls : Type 0 where
  pub opens : Bool
  pub lock_opens : Bool
  pub lock_taken : Bool
  pub read_locked : Bool
  pub new_opens : Bool
  pub write_locked : Bool
  pub stat_again : Bool
  pub mmap_again : Bool
  pub first_write : Bool
  pub second_write : Bool
  pub renames : Bool
  pub unlinks : Bool

pub record Entry : Type 0 where
  pub name : Bytes
  pub opens : Bool
  pub file : Opened
  pub calls : Calls

abbrev pub is_dots : Bytes → Bool
is_dots name = str_eq name (codes ".") || str_eq name (codes "..")

abbrev pub found : Option ℕ → Bool
found none = false
found (some off) = true

-- The loop over `readdir`; it leaves at the first file that holds the address.
unfoldable pub search_dir : List Entry → Bytes → Bool
unfolding find_subscriber str_eq
search_dir [] address = false
search_dir (e ∷ dir) address =
    let later = search_dir dir address in
    if is_dots e.name
    then later
    else if not e.opens
    then later
    else if found (find_subscriber e.file address)
    then true
    else later

-- `none` for the directory is a failing `opendir`, after which the program exits.
unfoldable pub is_subbed_in : Option (List Entry) → Bytes → Option Bool
unfolding search_dir
is_subbed_in none address = none
is_subbed_in (some dir) address = some (search_dir dir address)

pub data Subtype : Type 0 where
  sub_normal sub_digest sub_nomail sub_file sub_all sub_both sub_none : Subtype

-- The three subscriber directories below a list's directory.
pub record ListDir : Type 0 where
  pub subscribers : Option (List Entry)
  pub digesters : Option (List Entry)
  pub nomailsubs : Option (List Entry)

-- The last test of `is_subbed`, with the type found so far.
pub subbed_nomail : ListDir → Bytes → Subtype → Option Subtype
subbed_nomail d address typesub = elim (is_subbed_in d.nomailsubs address) [
  | none ↦ none
  | some retval ↦ some (if retval then sub_nomail else typesub)
]

abbrev pub is_normal : Subtype → Bool
is_normal sub_normal = true
is_normal _ = false

pub subbed_digest : ListDir → Bytes → Subtype → Option Subtype
unfolding subbed_nomail
subbed_digest d address typesub = elim (is_subbed_in d.digesters address) [
  | none ↦ none
  | some retval ↦
      if retval
      then some (if is_normal typesub then sub_both else sub_digest)
      else subbed_nomail d address typesub
]

pub is_subbed : ListDir → Bytes → Bool → Option Subtype
unfolding subbed_digest
is_subbed d address both = elim (is_subbed_in d.subscribers address) [
  | none ↦ none
  | some retval ↦
      if retval
      then (if not both then some sub_normal else subbed_digest d address sub_normal)
      else subbed_digest d address sub_none
]

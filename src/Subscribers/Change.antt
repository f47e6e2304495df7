-- ===== src/Subscribers/Change.antt =====
-- The writers of the subscriber files: `unsubscribe` and `unsubscribe_type` of src/mlmmj-unsub.c, and
-- `subscribe_type` of src/mlmmj-sub.c. A `size_t` has 64 bits, and a write of more than `ssize_max`
-- bytes fails.
use mlmmj.Base.{
  ℕ, ◌+◌, ◌-◌, ◌%◌, ◌^◌, Bool, true, not, ◌&&◌, Option, none, some, List, [], ◌∷◌, ◌++◌, ltb, ◌==◌,
  if◌then◌else◌, Bytes, codes, length, take, drop, any,
}
use mlmmj.CString.{str_eq}
use mlmmj.Subscribers.{
  Opened, find_subscriber, Calls, Entry, is_dots, found, Subtype, sub_digest, sub_nomail, ListDir,
}

abbrev pub size_mod : ℕ
size_mod = 2 ^ 64

abbrev pub ssize_max : ℕ
ssize_max = 2 ^ 63 - 1

-- `a - b` on `size_t`
abbrev pub sub_size : ℕ → ℕ → ℕ
sub_size a b = (a + size_mod - b % size_mod) % size_mod

-- What `unsubscribe` writes behind the first part: `count` bytes from offset `off`.
unfoldable pub write_tail : Bytes → Bytes → ℕ → ℕ → Bool → Option Bytes
write_tail done s off count works =
    if count == 0
    then some done
    else if ltb ssize_max count
    then none
    else if not works
    then none
    else some (done ++ take count (drop off s))

unfoldable pub write_parts : Bytes → ℕ → ℕ → Calls → Option Bytes
write_parts s len suboff calls =
    let count = sub_size (sub_size (length s) len) suboff in
    let tail = write_tail (take suboff s) s (len + suboff) count calls.second_write in
    if ltb 0 suboff && not calls.first_write then none else tail

-- `none` is -1; else the bytes written to the new file.
unfoldable pub unsubscribe : Opened → Calls → Bytes → Option Bytes
unsubscribe f calls address = elim (find_subscriber f address) [
  | none ↦ none
  | some suboff ↦
      if not calls.stat_again
      then none
      else if not calls.mmap_again
      then none
      else write_parts f.content (length address + 1) suboff calls
]

abbrev pub with_content : Entry → Bytes → Entry
with_content e s = record e { file = record (e.file) { content = s } }

abbrev pub calm : Calls
calm = record {
  opens = true;
  lock_opens = true;
  lock_taken = true;
  read_locked = true;
  new_opens = true;
  write_locked = true;
  stat_again = true;
  mmap_again = true;
  first_write = true;
  second_write = true;
  renames = true;
  unlinks = true;
}

abbrev pub new_entry : Bytes → Bytes → Entry
new_entry name s = record {
  name = name;
  opens = true;
  file = record { stat_ok = true; regular = true; mmap_ok = true; content = s };
  calls = calm;
}

-- `subwritename`, the name of the new file.
abbrev pub new_name : Entry → Bytes
new_name e = e.name ++ codes ".new"

-- The entry, with a new file that stays beside it.
abbrev pub left_behind : Entry → Bytes → List Entry
left_behind e s = e ∷ new_entry (new_name e) s ∷ []

-- `unsubres > 0` renames the new file over the old one, and 0 unlinks both; where that fails, both stay.
unfoldable pub replace_entry : Entry → Bytes → List Entry
replace_entry e [] = if e.calls.unlinks then [] else left_behind e []
replace_entry e (c ∷ s) =
    if e.calls.renames then with_content e (c ∷ s) ∷ [] else left_behind e (c ∷ s)

-- Whether the round of an entry comes to the new file, which loses what was in it.
unfoldable pub opens_new : Bytes → Entry → Bool
opens_new address e =
    not (is_dots e.name)
    && e.calls.opens
    && found (find_subscriber e.file address)
    && e.calls.lock_opens
    && e.calls.lock_taken
    && e.calls.read_locked
    && e.calls.new_opens

-- One round of the loop over `readdir`: what becomes of the entry. The new file of an `unsubscribe` that fails is
-- unlinked.
unfoldable pub unsubscribe_entry : Bytes → Entry → List Entry
unfolding opens_new replace_entry
unsubscribe_entry address e =
    if not (opens_new address e)
    then e ∷ []
    else if not e.calls.write_locked
    then left_behind e []
    else elim (unsubscribe e.file e.calls address) [
      | none ↦ e ∷ []
      | some out ↦ replace_entry e out
    ]

-- The names of the new files that the rounds open.
abbrev pub opened_names : Bytes → List Entry → List Bytes
opened_names address [] = []
opened_names address (e ∷ dir) =
    if opens_new address e then new_name e ∷ opened_names address dir else opened_names address dir

-- The entries that are not opened as a new file later.
unfoldable pub survivors : List Bytes → List Entry → List Entry
unfolding str_eq
survivors names [] = []
survivors names (e ∷ dir) =
    let rest = survivors names dir in if any (str_eq e.name) names then rest else e ∷ rest

-- The loop, with the names of the new files that were opened so far: an entry of such a name is no more the one
-- that `readdir` gives. A new file that stays is not given by `readdir`.
unfoldable pub unsubscribe_from : Bytes → List Bytes → List Entry → List Entry
unfolding survivors unsubscribe_entry str_eq
unsubscribe_from address names [] = []
unsubscribe_from address names (e ∷ dir) =
    let skipped = unsubscribe_from address names dir in
    let later =
      unsubscribe_from address (if opens_new address e then new_name e ∷ names else names) dir in
    if any (str_eq e.name) names
    then skipped
    else survivors (opened_names address dir) (unsubscribe_entry address e) ++ later

unfoldable pub unsubscribe_dir : Bytes → List Entry → List Entry
unfolding unsubscribe_from
unsubscribe_dir address dir = unsubscribe_from address [] dir

-- `subdir`: which of the three directories a type names, and its replacement.
abbrev pub subdir : Subtype → ListDir → Option (List Entry)
subdir sub_digest d = d.digesters
subdir sub_nomail d = d.nomailsubs
subdir _ d = d.subscribers

abbrev pub set_subdir : Subtype → ListDir → List Entry → ListDir
set_subdir sub_digest d dir = record d { digesters = some dir }
set_subdir sub_nomail d dir = record d { nomailsubs = some dir }
set_subdir _ d dir = record d { subscribers = some dir }

-- `none` is the exit on a directory that does not open.
unfoldable pub unsubscribe_type : Bytes → Subtype → ListDir → Option ListDir
unfolding unsubscribe_dir
unsubscribe_type address typesub d = elim (subdir typesub d) [
  | none ↦ none
  | some dir ↦ some (set_subdir typesub d (unsubscribe_dir address dir))
]

-- What the system answers to `subscribe_type`.
pub record AppendCalls : Type 0 where
  pub lock_opens : Bool
  pub lock_taken : Bool
  pub file_opens : Bool
  pub file_locked : Bool
  pub writes : Bool

-- `open` with `O_CREAT`, `lseek` to the end and `writen`.
unfoldable pub append_to : Bytes → Bytes → List Entry → List Entry
unfolding str_eq
append_to name s [] = new_entry name s ∷ []
append_to name s (e ∷ dir) =
    if str_eq e.name name
    then with_content e (e.file.content ++ s) ∷ dir
    else e ∷ append_to name s dir

-- `chstr`: the file of an address is named by its first byte.
abbrev pub chstr : Bytes → Bytes
chstr [] = []
chstr (c ∷ s) = c ∷ []

-- `none` is an exit with failure.
unfoldable pub subscribe_dir : AppendCalls → Bytes → List Entry → Option (List Entry)
unfolding append_to
subscribe_dir calls address dir =
    if not calls.lock_opens
    then none
    else if not calls.lock_taken
    then none
    else if not calls.file_opens
    then none
    else if not calls.file_locked
    then none
    else some (append_to (chstr address) (if calls.writes then address ++ b'\n' ∷ [] else []) dir)

unfoldable pub subscribe_type : AppendCalls → Bytes → Subtype → ListDir → Option ListDir
unfolding subscribe_dir
subscribe_type calls address typesub d = elim (subdir typesub d) [
  | none ↦ none
  | some dir ↦ elim (subscribe_dir calls address dir) [
    | none ↦ none
    | some dir' ↦ some (set_subdir typesub d dir')
  ]
]

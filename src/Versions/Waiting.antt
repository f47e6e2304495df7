-- ===== src/Versions/Waiting.antt =====
-- A subscription that waits for a moderator, src/mlmmj-sub.c.
use mlmmj.Base.{
  String, Bool, true, false, Option, none, some, List, [], ◌∷◌, ◌++◌, if◌then◌else◌, Bytes, codes,
}
use mlmmj.CString.{strip_prefix, contains}
use mlmmj.Subscribers.{Subtype, sub_normal, sub_digest, sub_nomail, sub_both}
use mlmmj.ControlFiles.{getlines, ctrlvalues}
use mlmmj.Headers.{chomp}
use mlmmj.Versions.{End, crash, asks_moderators, Here}

-- The text of the file in moderation/.
abbrev pub type_line : Subtype → Bytes
type_line sub_digest = codes "SUB_DIGEST"
type_line sub_nomail = codes "SUB_NOMAIL"
type_line sub_both = codes "SUB_BOTH"
type_line _ = codes "SUB_NORMAL"

unfoldable pub waiting_text : Bytes → Subtype → Bytes
waiting_text subaddr typesub = subaddr ++ b'\n' ∷ (type_line typesub ++ codes "\n")

-- `a` after the loop: whether the last address has an `@`
abbrev pub last_has_at : List Bytes → Bool
last_has_at [] = false
last_has_at (s ∷ []) = contains b'@' s
last_has_at (s ∷ t ∷ strs) = last_has_at (t ∷ strs)

-- The moderators; `none` is a read through a null pointer.
unfoldable pub submods_of : Here → Option (List Bytes)
unfolding ctrlvalues contains
submods_of h = elim (ctrlvalues h.submod) [
  | none ↦ none
  | some submods ↦ if last_has_at submods then some submods else ctrlvalues h.owner
]

-- The end of `moderate_sub`; without any moderator the length of a null pointer is taken.
unfoldable pub moderate_sub : Here → Subtype → End
unfolding submods_of
moderate_sub h typesub = elim (submods_of h) [
  | none ↦ crash
  | some [] ↦ crash
  | some (s ∷ submods) ↦ asks_moderators typesub (s ∷ submods)
]

abbrev pub type_read : Subtype → Bytes → Subtype
type_read before readtype =
    let is : String → Bool =
      λ s. elim (strip_prefix (codes s) readtype) [ none ↦ false | some _ ↦ true ] in
    if is "SUB_NORMAL"
    then sub_normal
    else if is "SUB_DIGEST"
    then sub_digest
    else if is "SUB_NOMAIL"
    then sub_nomail
    else if is "SUB_BOTH"
    then sub_both
    else before

-- `getaddrandtype`, with the text of the file and the type so far. `none` is the end of the program.
unfoldable pub getaddrandtype : Option Bytes → Subtype → Option (Bytes × Subtype)
unfolding getlines chomp strip_prefix
getaddrandtype none typesub = none
getaddrandtype (some file) typesub = elim (getlines file) [
  | [] ↦ none
  | readaddr ∷ lines ↦ elim lines [
    | [] ↦ none
    | readtype ∷ more ↦ some (chomp readaddr, type_read typesub readtype)
  ]
]

-- ===== src/Texts.antt =====
-- The list texts, src/prepstdreply.c: the values that a text names. `Opening` finds the file of a text, `Conditionals`,
-- `Directives` and `Settings` have the directives of a line, `Sources`, `Line` and `Reading` the lines of a text, and
-- `Headers` the mail that is made of them.
pub mod Opening
pub mod Conditionals
pub mod Sources
pub mod Directives
pub mod Settings
pub mod Line
pub mod Reading
pub mod Headers
pub mod Standard
pub mod Initial
pub mod Mail
pub mod Plain
pub mod Whole
pub mod Ending
pub mod Nodes
pub mod Dealing
pub mod Holding
pub mod Stepping
pub mod Branching
pub mod Nested
pub mod Choosing
mod Tests
mod Examples
mod Cases
use mlmmj.Base.{
  ℕ, zero, suc, String, Bool, ◌&&◌, ◌||◌, Option, none, some, List, [], ◌∷◌, ◌++◌, leb, ◌==◌,
  if◌then◌else◌, Bytes, codes, all,
}
use mlmmj.CString.{is_digit, str_eq, strip_prefix, strchr}
use mlmmj.ControlFiles.{ctrlcontent}

-- What a text can name: the two parts of the address of the list, the delimiter, and the files in control/ and
-- text/, where they open. `statctrl` is whether there is a file in control/.
pub record Site : Type 0 where
  pub listname : Bytes
  pub fqdn : Bytes
  pub listdelim : Bytes
  pub control : Bytes → Option Bytes
  pub textfile : Bytes → Option Bytes
  pub statctrl : Bytes → Bool

-- The registered substitutions, the last one first.
abbrev pub Substs : Type 0
Substs = List (Bytes × Bytes)

abbrev pub is_name_char : ℕ → Bool
is_name_char c =
    is_digit c || (leb b'A' c && leb c b'Z') || (leb b'a' c && leb c b'z') || c == b'_' || c == b'-'

abbrev pub is_later_char : ℕ → Bool
is_later_char c = is_name_char c || c == b'.'

unfoldable pub filename_token : Bytes → Option Bytes
filename_token [] = none
filename_token (c ∷ s) = if is_name_char c && all is_later_char s then some (c ∷ s) else none

unfoldable pub numeric_token : Bytes → Option Bytes
numeric_token [] = none
numeric_token (c ∷ s) = if all is_digit (c ∷ s) then some (c ∷ s) else none

abbrev pub control_address : Site → String → Bytes
control_address s command = s.listname ++ (s.listdelim ++ (codes command ++ b'@' ∷ s.fqdn))

-- The tokens that stand for the addresses of the list.
unfoldable pub list_value : Site → Bytes → Option Bytes
unfolding str_eq
list_value s token =
    if str_eq token (codes "")
    then some (codes "$")
    else if str_eq token (codes "listaddr")
    then some (s.listname ++ b'@' ∷ s.fqdn)
    else if str_eq token (codes "list+")
    then some (s.listname ++ s.listdelim)
    else if str_eq token (codes "list")
    then some s.listname
    else if str_eq token (codes "domain")
    then some s.fqdn
    else if str_eq token (codes "listowner")
    then some (control_address s "owner")
    else if str_eq token (codes "helpaddr")
    then some (control_address s "help")
    else if str_eq token (codes "faqaddr")
    then some (control_address s "faq")
    else if str_eq token (codes "listgetN")
    then some (control_address s "get-N")
    else if str_eq token (codes "listunsubaddr")
    then some (control_address s "unsubscribe")
    else if str_eq token (codes "digestunsubaddr")
    then some (control_address s "unsubscribe-digest")
    else if str_eq token (codes "nomailunsubaddr")
    then some (control_address s "unsubscribe-nomail")
    else if str_eq token (codes "listsubaddr")
    then some (control_address s "subscribe")
    else if str_eq token (codes "digestsubaddr")
    then some (control_address s "subscribe-digest")
    else if str_eq token (codes "nomailsubaddr")
    then some (control_address s "subscribe-nomail")
    else none

abbrev pub subst_value : Substs → Bytes → Option Bytes
subst_value [] token = none
subst_value ((name, subst) ∷ substs) token =
    if str_eq token name then some subst else subst_value substs token

-- The file that a token names, with what stands in it. The inner option is NULL, and the outer one a read
-- through a null pointer.
abbrev pub file_value : (Bytes → Option Bytes) → Bytes → Option (Option Bytes)
file_value file name = elim (filename_token name) [
  | none ↦ some none
  | some name ↦ elim (ctrlcontent (file name)) [
    | none ↦ some none
    | some none ↦ none
    | some (some content) ↦ some (some content)
  ]
]

unfoldable pub value_of : Site → Substs → Bytes → Option (Option Bytes)
unfolding list_value filename_token ctrlcontent strip_prefix str_eq
value_of s substs token = elim (list_value s token) [
  | some value ↦ some (some value)
  | none ↦ elim (strip_prefix (codes "control ") token) [
    | some name ↦ file_value s.control name
    | none ↦ elim (strip_prefix (codes "text ") token) [
      | some name ↦ file_value s.textfile name
      | none ↦
          if str_eq token (codes "originalmail")
          then some (some (codes " %originalmail 100%"))
          else some (subst_value substs token)
    ]
  ]
]

-- `substitute_one`, with what stands behind the `$`: the character that is passed over, if there is one, and
-- what stands behind the position afterwards.
unfoldable pub substitute_one : Site → Substs → Bytes → Option (Bytes × Bytes)
unfolding strchr value_of str_eq
substitute_one s substs rest = elim (strchr b'$' rest) [
  | none ↦ some (codes "$", rest)
  | some (token, behind) ↦ elim (value_of s substs token) [
    | none ↦ none
    | some none ↦ some (codes "$", rest)
    | some (some value) ↦
        if str_eq value (codes "$") then some (codes "$", behind) else some ([], value ++ behind)
  ]
]

-- How a loop that may not end came out within its fuel.
pub data Loop {ℓ} (A : Type ℓ) : Type ℓ where
  unfinished crashed : Loop A
  done : A → Loop A

-- `substitute`, from a position with what stands before it and behind it. A round passes over the characters
-- up to the next `$`, and deals with it.
unfoldable pub substitute_from : ℕ → Site → Substs → Bytes → Bytes → Loop Bytes
unfolding strchr substitute_one
substitute_from zero s substs before line = elim (strchr b'$' line) [
  | none ↦ done (before ++ line)
  | some _ ↦ unfinished
]
substitute_from (suc fuel) s substs before line = elim (strchr b'$' line) [
  | none ↦ done (before ++ line)
  | some (plain, rest) ↦ elim (substitute_one s substs rest) [
    | none ↦ crashed
    | some (shown, behind) ↦ substitute_from fuel s substs (before ++ (plain ++ shown)) behind
  ]
]

abbrev pub substitute : ℕ → Site → Substs → Bytes → Loop Bytes
substitute fuel s substs line = substitute_from fuel s substs [] line

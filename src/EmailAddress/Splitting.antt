-- ===== src/EmailAddress/Splitting.antt =====
-- The addresses of a header, src/find_email_adr.c: where the header is cut.
use mlmmj.Base.{
  ℕ, zero, suc, ◌+◌, ◌*◌, Bool, false, ◌||◌, Option, none, some, List, [], ◌∷◌, ◌++◌, ltb, ◌==◌,
  if◌then◌else◌, Bytes, length, take, drop,
}
use mlmmj.CString.{strchr}
use mlmmj.EmailAddress.{skin}

abbrev pub is_wsp : ℕ → Bool
is_wsp c = c == b' ' || c == b'\t' || c == b'\r' || c == b'\n'

unfoldable pub skip_wsp : Bytes → Bytes
skip_wsp [] = []
skip_wsp (c ∷ cur) = if is_wsp c then skip_wsp cur else c ∷ cur

abbrev pub last_is_backslash : Bytes → Bool
last_is_backslash [] = false
last_is_backslash (c ∷ []) = c == b'\\'
last_is_backslash (c ∷ d ∷ s) = last_is_backslash (d ∷ s)

-- What is done about a comma at the offset `p` of the text.
pub data Comma : Type 0 where
  cut keep : Comma
  -- the text without the quotation mark that a backslash stands in front of
  erase : Bytes → Comma

unfoldable pub judge_comma : Bytes → ℕ → Comma
unfolding strchr
judge_comma text p = elim (strchr b'"' text) [
  | none ↦ cut
  | some (u, v) ↦ elim (strchr b'"' v) [
    | none ↦ if ltb p (length u) then cut else keep
    | some (w, x) ↦
        if last_is_backslash w
        then erase (u ++ b'"' ∷ (w ++ b' ' ∷ x))
        else if ltb p (length u) || ltb (length u + 1 + length w) p
        then cut
        else keep
  ]
]

-- From `oncemore` on: `pre` is the text from `cur` to `p`, and `post` that from `p` on. The result is
-- the text of one address, and what is left behind a comma.
unfoldable pub cut_address : ℕ → Bytes → Bytes → Option (Bytes × Option Bytes)
unfolding strchr
cut_address zero pre post = none
cut_address (suc fuel) pre post = elim (strchr b',' post) [
  | none ↦ some (pre ++ post, none)
  | some (a, b) ↦ elim (judge_comma ((pre ++ a) ++ b',' ∷ b) (length (pre ++ a))) [
    | cut ↦ some (pre ++ a, some b)
    | keep ↦ cut_address fuel ((pre ++ a) ++ b' ' ∷ []) b
    | erase text ↦ cut_address fuel (take (length (pre ++ a)) text) (drop (length (pre ++ a)) text)
  ]
]

abbrev pub cons_address : Bytes → Option (List Bytes) → Option (List Bytes)
cons_address cur rest = elim (skip_wsp cur) [
  | [] ↦ rest
  | c ∷ cur ↦ elim (skin (c ∷ cur)) [
    | none ↦ none
    | some adr ↦ elim rest [ none ↦ none | some adrs ↦ some (adr ∷ adrs) ]
  ]
]

-- The loop of `find_email_adr`; one round for each comma, and one more.
unfoldable pub find_from : ℕ → Bytes → Option (List Bytes)
unfolding skip_wsp
find_from zero p = none
find_from (suc fuel) p = elim (cut_address (2 * length p + 1) [] p) [
  | none ↦ none
  | some (cur, none) ↦ cons_address cur (some [])
  | some (cur, some p) ↦ cons_address cur (find_from fuel p)
]

-- The addresses that are appended to the list.
unfoldable pub find_email_adr : Bytes → Option (List Bytes)
find_email_adr str = find_from (length str + 1) str

-- ===== src/Texts/Settings.antt =====
-- The directives of a line that are no conditionals, and `handle_directive` of src/prepstdreply.c.
use mlmmj.Base.{
  ℕ, ◌+◌, ◌-◌, ◌%◌, ◌^◌, Bool, true, false, ◌||◌, Option, none, some, List, [], ◌∷◌, ◌++◌, leb,
  ◌==◌, if◌then◌else◌, Bytes, codes, take,
}
use mlmmj.CString.{str_eq, strip_prefix, strchr}
use mlmmj.ControlFiles.{getlines}
use mlmmj.Texts.{Site, filename_token, numeric_token}
use mlmmj.Texts.Conditionals.{is_skipping}
use mlmmj.Texts.Sources.{
  WrapMode, wrap_word, wrap_char, wrap_user, Text, Position, begin_new_source_file,
  begin_new_formatted_source,
}
use mlmmj.Process.Posting.{atol}
use mlmmj.ControlFiles.{getlines}
use mlmmj.Texts.Directives.{dealt, other, overran, deal_with}

-- What `handle_directive` gives: the position, with whether a blank line in front is swallowed (1), or nothing was
-- done because only conditionals are looked at (-1).
pub data Answer : Type 0 where
  zero_ swallow_ undone : Answer

pub data Handled : Type 0 where
  handled : Position → Answer → Handled
  overran_line : Handled

abbrev pub pass_percent : Position → Bytes → Position
pass_percent p shown = record p {
  before = p.before ++ codes "%";
  after = shown;
  width = p.width + 1;
}

abbrev pub to_line_end : Bytes → Bytes
to_line_end [] = []
to_line_end (c ∷ s) = if c == b'\r' || c == b'\n' then c ∷ s else to_line_end s

-- `atol` into an `int`, as its remainder by 2 ^ 32
abbrev pub int_of : Bytes → ℕ
int_of digits = atol digits % 2 ^ 32

-- The number of a directive, and the token that is left; `none` is NULL.
abbrev pub numbered : Bytes → ℕ × Option Bytes
numbered number = elim (numeric_token number) [
  | none ↦ (0, none)
  | some digits ↦ (int_of digits, some digits)
]

abbrev pub wrap_limit : Bytes → ℕ × Option Bytes
wrap_limit [] = (76, some [])
wrap_limit (c ∷ s) = if c == b' ' then numbered s else (0, some (c ∷ s))

abbrev pub mail_limit : Bytes → ℕ × Option Bytes
mail_limit [] = (2 ^ 32 - 1, some [])
mail_limit (c ∷ s) = if c == b' ' then numbered s else numbered (c ∷ s)

abbrev pub wrapmode_of : Bytes → Option WrapMode
wrapmode_of token =
    if str_eq token (codes "ww") || str_eq token (codes "wordwrap")
    then some wrap_word
    else if str_eq token (codes "cw") || str_eq token (codes "charwrap")
    then some wrap_char
    else if str_eq token (codes "uw") || str_eq token (codes "userwrap")
    then some wrap_user
    else none

abbrev pub with_text : Position → Text → Bytes → Position
with_text p t after = record p { text = t; after = after }

-- `limit - 1` for the source that is now the innermost one, whether or not the mail was opened.
abbrev pub limit_source : ℕ → Text → Text
limit_source limit t = elim t.sources [
  | [] ↦ t
  | src ∷ outer ↦ record t {
    sources =
        (record src { limit = if leb (2 ^ 31) limit then none else some (limit - 1) }) ∷ outer;
  }
]

abbrev pub file_lines : Option Bytes → Option (List Bytes)
file_lines none = none
file_lines (some content) = some (getlines content)

abbrev pub find_fmt : List (Bytes × List Bytes) → Bytes → Option (List Bytes)
find_fmt [] token = none
find_fmt ((name, items) ∷ fmts) token =
    if str_eq token name then some items else find_fmt fmts token

-- The lists, where no other directive is recognised.
unfoldable pub list_or_pass : Position → Option Bytes → Bytes → Bytes → Position
unfolding begin_new_formatted_source str_eq
list_or_pass p none behind shown = pass_percent p shown
list_or_pass p (some token) behind shown = elim (find_fmt p.text.fmts token) [
  | none ↦ pass_percent p shown
  | some items ↦ begin_new_formatted_source items behind p
]

-- `%^%`
abbrev pub to_prefix : Position → Bytes → Position
to_prefix p behind = elim p.text.sources [
  | [] ↦ record p { before = []; after = behind; width = 0 }
  | src ∷ outer ↦
      if src.prefixlen == 0 then record p { before = []; after = behind; width = 0 } else record p {
        before = [];
        after = take src.prefixlen p.before ++ behind;
        width = src.prefixwidth;
      }
]

abbrev pub include_file : Position → (Bytes → Option Bytes) → Bytes → Bytes → Position
include_file p file name shown = elim (filename_token name) [
  | none ↦ pass_percent p shown
  | some name ↦ begin_new_source_file (file_lines (file name)) false p
]

abbrev pub include_mail : Position → Bytes → Bytes → Bytes → Position
include_mail p number behind shown = elim p.text.mail [
  | none ↦ list_or_pass p (some (codes "originalmail" ++ number)) behind shown
  | some mail ↦
      let (limit, token) = mail_limit number in
      if limit == 0
      then list_or_pass p token behind shown
      else (let q : Position = begin_new_source_file mail true p in
          record q { text = limit_source limit q.text })
]

-- The directives that are no conditionals, with the token, what stands behind the directive, and what the line
-- holds behind the `%` where the token is not recognised.
unfoldable pub other_directive : Site → Position → Bytes → Bytes → Bytes → Position
unfolding list_or_pass begin_new_source_file filename_token numeric_token strip_prefix str_eq atol
    getlines
other_directive s p0 token behind shown =
    let p : Position = record p0 { skipwhite = false } in
    if str_eq token []
    then record p { before = p.before ++ codes "%"; after = behind; width = p.width + 1 }
    else if str_eq token (codes "^")
    then to_prefix p behind
    else if str_eq token (codes "comment") || str_eq token (codes "$")
    then record p { after = to_line_end behind }
    else elim (strip_prefix (codes "wrap") token) [
      | some number ↦
          let (limit, left) = wrap_limit number in
          if limit == 0
          then list_or_pass p left behind shown
          else with_text p (record (p.text) { wrapindent = p.width; wrapwidth = limit }) behind
      | none ↦
          if str_eq token (codes "nowrap")
          then with_text p (record (p.text) { wrapwidth = 0 }) behind
          else elim (wrapmode_of token) [
            | some mode ↦ with_text p (record (p.text) { wrapmode = mode }) behind
            | none ↦
                if str_eq token (codes "thin")
                then with_text p (record (p.text) { is_wide = false }) behind
                else if str_eq token (codes "wide")
                then with_text p (record (p.text) { is_wide = true }) behind
                else elim (strip_prefix (codes "zero ") token) [
                  | some chars ↦ with_text p (record (p.text) { zerowidth = some chars }) behind
                  | none ↦ elim (strip_prefix (codes "control ") token) [
                    | some name ↦ include_file p s.control name shown
                    | none ↦ elim (strip_prefix (codes "text ") token) [
                      | some name ↦ include_file p s.textfile name shown
                      | none ↦ elim (strip_prefix (codes "originalmail") token) [
                        | some number ↦ include_mail p number behind shown
                        | none ↦ list_or_pass p (some token) behind shown
                      ]
                    ]
                  ]
                ]
          ]
    ]

-- `handle_directive`, at a `%` with what stands behind it.
unfoldable pub handle_directive : Site → Position → Bool → Bytes → Handled
unfolding deal_with other_directive strchr
handle_directive s p conditionalsonly rest = elim (strchr b'%' rest) [
  | none ↦
      if conditionalsonly
      then handled (record p { after = b'%' ∷ rest }) undone
      else handled (record p { before = p.before ++ codes "%"; after = rest }) zero_
  | some (token, behind) ↦ elim (deal_with s p token behind) [
    | overran ↦ overran_line
    | dealt q swallow ↦ handled q (if swallow then swallow_ else zero_)
    | other token shown ↦
        if conditionalsonly
        then handled (record p { after = b'%' ∷ shown }) undone
        else if is_skipping p.text.conds
        then handled (pass_percent p shown) zero_
        else handled (other_directive s p token behind shown) zero_
  ]
]

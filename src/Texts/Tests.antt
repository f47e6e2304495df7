-- ===== src/Texts/Tests.antt =====
-- Runs of the list texts, and the witnesses.
use mlmmj.Base.{
  ℕ, zero, suc, ◌≡◌, refl, false, none, some, List, [], ◌∷◌, if◌then◌else◌, Bytes, codes,
}
use mlmmj.CString.{str_eq, strip_prefix, contains}
use mlmmj.Texts.{
  Site, Substs, filename_token, list_value, value_of, Loop, unfinished, crashed, done,
  substitute_from,
}
use mlmmj.Texts.Line.{pass_char}
use mlmmj.Texts.Reading.{get_processed_text_line, read_rounds}
use mlmmj.Unistr.{unistr_to_utf8, unistr_append_utf8, utf8, encode_all, encode}
use mlmmj.Unistr.Escaped.{escaped}
use mlmmj.Texts.Ending.{substitute-unfinished}
use mlmmj.Texts.Opening.{of_list, open_text}
use mlmmj.Texts.Sources.{Text, new_text}

abbrev pub hikers : Site
hikers = record {
  listname = codes "hikers";
  fqdn = codes "example.org";
  listdelim = codes "+";
  control = λ name. if str_eq name (codes "owner") then some (codes "jo@example.org\n") else none;
  textfile = λ name. none;
  statctrl = λ name. str_eq name (codes "closedlist");
}

-- The lines that are read of a text, with enough rounds for a few short lines.
unfoldable lines_of : ℕ → Text → Loop (List Bytes)
unfolding read_rounds pass_char escaped unistr_to_utf8 unistr_append_utf8 utf8 encode_all encode
lines_of zero t = unfinished
lines_of (suc n) t = elim (get_processed_text_line 20 100 hikers false t) [
  | unfinished ↦ unfinished
  | crashed ↦ crashed
  | done (none, t) ↦ done []
  | done (some line, t) ↦ elim (lines_of n t) [
    | unfinished ↦ unfinished
    | crashed ↦ crashed
    | done lines ↦ done (line ∷ lines)
  ]
]

abbrev shows : Bytes → List Bytes → Loop (List Bytes)
shows action lines = lines_of 10 (new_text (some action) none none lines)

plain_lines :
    shows [] (codes "Hello\n" ∷ codes "\n" ∷ codes "world" ∷ [])
    ≡ done (codes "Hello" ∷ [] ∷ codes "world" ∷ [])
unfolding lines_of
plain_lines = refl

names_the_list :
    shows [] (codes "Mail $listaddr$, $5" ∷ []) ≡ done (codes "Mail hikers@example.org, $5" ∷ [])
unfolding lines_of
names_the_list = refl

chooses :
    shows (codes "sub") (
      codes "a"
      ∷ codes "%ifaction sub%"
      ∷ codes "b"
      ∷ codes "%else%"
      ∷ codes "c"
      ∷ codes "%endif%"
      ∷ codes "d"
      ∷ [])
    ≡ done (codes "a" ∷ codes "b" ∷ codes "d" ∷ [])
unfolding lines_of
chooses = refl

chooses_other :
    shows (codes "unsub") (
      codes "a"
      ∷ codes "%ifaction sub%"
      ∷ codes "b"
      ∷ codes "%else%"
      ∷ codes "c"
      ∷ codes "%endif%"
      ∷ codes "d"
      ∷ [])
    ≡ done (codes "a" ∷ codes "c" ∷ codes "d" ∷ [])
unfolding lines_of
chooses_other = refl

wraps :
    shows [] (codes "%wrap 12%aa bb cc dd ee ff" ∷ [])
    ≡ done (codes "aa bb cc dd" ∷ codes "ee ff" ∷ [])
unfolding lines_of
wraps = refl

-- An escaped `$` is not looked at, but an escaped backslash is passed over.
escapes_dollar : shows [] (codes "a\\$b" ∷ []) ≡ done (codes "a$b" ∷ [])
unfolding lines_of
escapes_dollar = refl

loses_backslash : shows [] (codes "a\\\\b" ∷ []) ≡ done (codes "ab" ∷ [])
unfolding lines_of
loses_backslash = refl

-- A subject that names the subject.
abbrev looping : Substs
looping = (codes "subject", codes "Re: $subject$") ∷ []

substitute-unfinished_example :
    substitute_from 9 hikers looping [] (codes "About $subject$!") ≡ unfinished
unfolding value_of list_value filename_token strip_prefix str_eq contains
substitute-unfinished_example =
    substitute-unfinished hikers looping (codes "subject") (codes "Re: ") [] refl refl refl 9 []
      (codes "About ") (codes "!") refl

abbrev of_subject : Substs
of_subject = (codes "subject", codes "walks") ∷ []

opens_deny :
    open_text
      (λ place name. str_eq name (codes "deny-sub"))
      (codes "deny")
      (some (codes "sub"))
      (some (codes "closed"))
      none
      (codes "sub-deny")
    ≡ some (of_list, codes "deny-sub")
unfolding open_text str_eq
opens_deny = refl

-- ===== src/Texts/Examples.antt =====
-- A list whose texts have no files, and a mail of a list: the witnesses.
use mlmmj.Base.{
  ◌≡◌, refl, inl, inr, Bool, true, false, not, ◌||◌, Option, none, some, List, [], ◌∷◌, ◌++◌, map,
  arith, if◌then◌else◌, Bool-cases, Option-cases, Bytes, codes,
}
use mlmmj.CString.{str_eq, strip_prefix, strchr, contains}
use mlmmj.ControlFiles.{ctrlcontent}
use mlmmj.Texts.{
  Site, Substs, filename_token, list_value, value_of, substitute_one, Loop, done, substitute_from,
  substitute, file_value,
}
use mlmmj.Texts.Mail.{shown_header, left_headers, prepstdreply-left_headers}
use mlmmj.Unistr.{unistr_to_utf8, unistr_append_utf8, utf8, encode_all, encode}
use mlmmj.Unistr.Escaped.{escaped, unistr_escaped_to_utf8}
use mlmmj.CString.{strchr, str_eq, strip_prefix, contains}
use mlmmj.Texts.{
  substitute_one, file_value, Site, Substs, filename_token, list_value, value_of, Loop, done,
  substitute_from, substitute,
}
use mlmmj.Texts.Ending.{IsSafe, Values, cut_dollars, expand, substitute-expand}
use mathlib.Core.Path.{subst}
use mlmmj.Maintenance.Files.{str_eq-≡}
use mlmmj.Texts.Sources.{Text, new_text}
use mlmmj.Texts.Reading.{get_processed_text_line, read_rounds}
use mlmmj.Texts.Headers.{
  with_newline, Reply, standard_headers, standard_list, replied, register_randoms, prepstdreply,
}
use mlmmj.Texts.Line.{pass_char}
use mlmmj.Texts.Whole.{reads, text_of, prepstdreply-plain}
use mlmmj.Unistr.Escaped.{unistr_escaped_to_utf8, escaped}
use mlmmj.Texts.Tests.{hikers}

-- A list without files: what its texts may name.
abbrev bare : Site
bare = record hikers { control = λ name. none; textfile = λ name. none }

abbrev bare_value : Bytes → Option Bytes
bare_value token = elim (list_value bare token) [
  | some value ↦ some value
  | none ↦ elim (strip_prefix (codes "control ") token) [
    | some name ↦ none
    | none ↦ elim (strip_prefix (codes "text ") token) [
      | some name ↦ none
      | none ↦
          if str_eq token (codes "originalmail") then some (codes " %originalmail 100%") else none
    ]
  ]
]

abbrev is_safe : Option Bytes → Bool
is_safe none = true
is_safe (some v) = str_eq v (codes "$") || not (contains b'$' v)

is_safe-if :
    (b : Bool) (x y : Option Bytes)
    → is_safe (if b then x else y) ≡ (if b then is_safe x else is_safe y)
is_safe-if true x y = refl
is_safe-if false x y = refl

if_same : (b x : Bool) → (if b then x else x) ≡ x
if_same true x = refl
if_same false x = refl

list_value-is_safe : (token : Bytes) → is_safe (list_value bare token) ≡ true
unfolding list_value contains str_eq
list_value-is_safe token = simp (list_value, is_safe-if, if_same)

is_safe-IsSafe : (o : Option Bytes) → is_safe o ≡ true → IsSafe o
is_safe-IsSafe none h = tt
is_safe-IsSafe (some v) h = elim (Bool-cases (str_eq v (codes "$"))) [
  | inl e ↦ inl (str_eq-≡ v (codes "$") e)
  | inr e ↦ inr (ground arith)
]

file_value-none : (name : Bytes) → file_value (λ name. none) name ≡ some none
unfolding filename_token ctrlcontent
file_value-none name = elim (Option-cases (filename_token name)) [
  | inl e ↦ rw (file_value, e) refl
  | inr (n, e) ↦ rw (file_value, e) refl
]

bare-Values : Values bare [] bare_value
unfolding value_of contains
bare-Values token = elim (Option-cases (list_value bare token)) [
  | inr (v, e) ↦
      rw (value_of, bare_value, e)
        (refl, subst IsSafe e (is_safe-IsSafe _ (list_value-is_safe token)))
  | inl e ↦ elim (Option-cases (strip_prefix (codes "control ") token)) [
    | inr (name, c) ↦ rw (value_of, bare_value, e, c) (file_value-none name, tt)
    | inl c ↦ elim (Option-cases (strip_prefix (codes "text ") token)) [
      | inr (name, d) ↦ rw (value_of, bare_value, e, c, d) (file_value-none name, tt)
      | inl d ↦ elim (Bool-cases (str_eq token (codes "originalmail"))) [
        | inl o ↦ rw (value_of, bare_value, e, c, d, o) (refl, inr refl)
        | inr o ↦ rw (value_of, bare_value, e, c, d, o) (refl, tt)
      ]
    ]
  ]
]

substitute-expand_example :
    substitute 3 bare [] (codes "I am $list$, $5.")
    ≡ done (
        expand bare [] bare_value
          (cut_dollars (codes "I am $list$, $5.")).0
          (cut_dollars (codes "I am $list$, $5.")).1)
unfolding cut_dollars
substitute-expand_example =
    substitute-expand bare [] bare_value (codes "I am $list$, $5.") 3 bare-Values (omega arith)

abbrev asks : Site → Bool → Text → Loop (Option Bytes × Text)
asks s headers t = get_processed_text_line 20 100 s headers t

-- A text with these lines behind the ones that were read.
abbrev walk_of : List Bytes → Substs → Text
walk_of lines substs = record (new_text none none none lines) { substs = substs }

abbrev body_lines : List Bytes
body_lines = codes "Hello $list$\n" ∷ []

abbrev walk : Substs → Text
walk = walk_of (codes "Subject: A walk\n" ∷ codes "X-Walk: 1\n" ∷ codes "\n" ∷ body_lines)

abbrev to_jo : Reply
to_jo = record {
  from = codes "$listowner$";
  to = codes "jo@example.org";
  replyto = none;
  created = true;
  can_write = λ line. true;
  randoms = [];
  time = codes "1700000000";
  pid = codes "7";
  random = 5;
  date = codes "Tue, 14 Nov 2023 22:13:20 +0000";
}

abbrev walk_headers : List Bytes
walk_headers =
    standard_list hikers to_jo (codes "hikers+owner@example.org") (codes "jo@example.org") none

prepstdreply-left_headers_example :
    prepstdreply asks walk 9 hikers [] to_jo
    ≡ done (
        some (
          map with_newline (
              map shown_header (codes "Subject: A walk" ∷ codes "X-Walk: 1" ∷ [])
              ++ (left_headers (codes "Subject: A walk" ∷ codes "X-Walk: 1" ∷ []) walk_headers
                  ++ [] ∷ codes "Hello hikers" ∷ [])),
          true,
        ))
unfolding standard_headers read_rounds unistr_to_utf8 escaped unistr_append_utf8 utf8 encode_all
    encode replied substitute_from substitute_one value_of strchr register_randoms pass_char
prepstdreply-left_headers_example =
    prepstdreply-left_headers asks walk 9 hikers [] to_jo walk_headers
      (codes "Subject: A walk" ∷ codes "X-Walk: 1" ∷ []) (codes "Hello hikers" ∷ [])
      (walk_of (codes "\n" ∷ body_lines) []) (walk_of body_lines []) (walk_of [] [])
      (record (walk_of [] []) { sources = [] }) refl (λ line. refl) refl
      (
        walk_of (codes "X-Walk: 1\n" ∷ codes "\n" ∷ body_lines) [],
        refl,
        (walk_of (codes "\n" ∷ body_lines) [], refl, refl),
      )
      refl ((refl, inr (_, refl)), ((refl, inr (_, refl)), tt)) (walk_of [] [], refl, refl) refl
      (omega arith) (omega arith)

abbrev plain_body : List Bytes
plain_body = codes "Hello" ∷ codes "We meet at ten." ∷ []

prepstdreply-plain_example :
    prepstdreply
      (reads 0 20)
      (text_of (new_text none none none []) (codes "Subject: A walk" ∷ []) plain_body)
      9
      hikers
      []
      to_jo
    ≡ done (
        some (
          map with_newline (
              map shown_header (codes "Subject: A walk" ∷ [])
              ++ (left_headers (codes "Subject: A walk" ∷ []) walk_headers ++ [] ∷ plain_body)),
          true,
        ))
unfolding standard_headers replied substitute_from substitute_one value_of register_randoms
    unistr_escaped_to_utf8 escaped unistr_to_utf8 unistr_append_utf8 utf8 encode_all encode strchr
prepstdreply-plain_example =
    prepstdreply-plain 0 20 9 hikers (new_text none none none []) [] to_jo walk_headers
      (codes "Subject: A walk" ∷ []) plain_body refl refl refl (λ line. refl) refl
      (((refl, refl), omega arith), tt) ((refl, inr (_, refl)), tt)
      (((refl, refl), omega arith), (((refl, refl), omega arith), tt)) (refl, (refl, tt))
      (omega arith) (omega arith) (omega arith)

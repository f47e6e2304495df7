-- ===== src/Unistr/Header.antt =====
-- The encoded words of mail headers (RFC 2047), src/unistr.c.
pub mod Quoted
pub mod Base64
pub mod Word
use mlmmj.Base.{
  ℕ, ◌+◌, ◌-◌, ◌*◌, ◌/◌, ◌%◌, ◌^◌, Bool, true, false, not, ◌&&◌, ◌||◌, Option, none, some, List, [],
  ◌∷◌, ◌++◌, leb, ◌==◌, if◌then◌else◌, Bytes, codes, length, is_empty, all,
}
use mlmmj.CString.{peek, rest_of, tolower, is_xdigit, str_eq, case_eq, strchr}
use mlmmj.Unistr.{unistr_append_usascii, unistr_append_utf8, unistr_append_iso88591, unistr_to_utf8}

unfoldable pub hexval : ℕ → ℕ
unfolding tolower
hexval ch =
    let ch = tolower ch in
    if leb b'a' ch && leb ch b'f'
    then 10 + ch - b'a'
    else if leb b'0' ch && leb ch b'9'
    then ch - b'0'
    else 0

abbrev pub qp_plain : ℕ → ℕ
qp_plain c = if c == b'_' then 32 else c

unfoldable pub decode_qp : Bytes → Bytes
decode_qp [] = []
decode_qp (c ∷ a ∷ b ∷ str) =
    let escaped = decode_qp str in
    let more = decode_qp (a ∷ b ∷ str) in
    if c == b'=' && is_xdigit a && is_xdigit b
    then (hexval a * 16 + hexval b) ∷ escaped
    else qp_plain c ∷ more
decode_qp (c ∷ str) = qp_plain c ∷ decode_qp str

-- The table of `decode_base64`; `none` is -1.
unfoldable pub tab : ℕ → Option ℕ
tab c =
    if leb b'A' c && leb c b'Z'
    then some (c - b'A')
    else if leb b'a' c && leb c b'z'
    then some (c - b'a' + 26)
    else if leb b'0' c && leb c b'9'
    then some (c - b'0' + 52)
    else if c == b'+'
    then some 62
    else if c == b'/'
    then some 63
    else none

-- The loop of `decode_base64`; `out` has 32 bits.
unfoldable pub base64 : ℕ → ℕ → Bytes → Bytes
base64 out out_numbits [] = []
base64 out out_numbits (c ∷ str) = elim (tab c) [
  | none ↦ base64 out out_numbits str
  | some val ↦
      let next = (out * 64 + val) % 4294967296 in
      if leb 8 (out_numbits + 6)
      then (next / 2 ^ (out_numbits + 6 - 8)) % 256 ∷ base64 next (out_numbits + 6 - 8) str
      else base64 next (out_numbits + 6) str
]

unfoldable pub decode_base64 : Bytes → Bytes
decode_base64 str = base64 0 0 str

-- What iconv makes of bytes in another charset, appended.
abbrev pub Iconv : Type 0
Iconv = Bytes → Bytes → List ℕ

unfoldable pub append_charset : Iconv → Bytes → Bytes → List ℕ
unfolding case_eq
append_charset iconv charset binary =
    if case_eq charset (codes "us-ascii")
    then unistr_append_usascii binary
    else if case_eq charset (codes "utf-8")
    then unistr_append_utf8 binary (length binary)
    else if case_eq charset (codes "iso-8859-1")
    then unistr_append_iso88591 binary
    else iconv charset binary

-- What is appended for a broken word; `gap` is the text from `wsp` to the word.
abbrev pub broken : Bytes → Bool × List ℕ
broken gap = (false, unistr_append_usascii gap ++ unistr_append_usascii (codes "???"))

unfoldable pub header_decode_word : Iconv → Bytes → Bytes → Bool × List ℕ
unfolding strchr str_eq tolower
header_decode_word iconv gap word =
    if not (peek word == b'=' && peek (rest_of word) == b'?')
    then (false, unistr_append_usascii (gap ++ word))
    else elim (strchr b'?' (rest_of (rest_of word))) [
      | none ↦ broken gap
      | some (charset, after_charset) ↦ elim (strchr b'?' after_charset) [
        | none ↦ broken gap
        | some (encoding, after_encoding) ↦ elim (strchr b'?' after_encoding) [
          | none ↦ broken gap
          | some (string, end) ↦
              if not (str_eq end (codes "="))
              then broken gap
              else if tolower (peek encoding) == b'q'
              then (true, append_charset iconv charset (decode_qp string))
              else if tolower (peek encoding) == b'b'
              then (true, append_charset iconv charset (decode_base64 string))
              else broken gap
        ]
      ]
    ]

unfoldable pub is_wsp : ℕ → Bool
is_wsp c = c == b' ' || c == b'\t' || c == b'\n'

-- The words that `strspn` and `strcspn` find, each with the white space in front of it.
unfoldable pub words : Bytes → Bytes → Bytes → List (Bytes × Bytes)
words gap word [] = if is_empty word then [] else (gap, word) ∷ []
words gap word (c ∷ str) =
    let inside = words gap (word ++ c ∷ []) str in
    let between = words (gap ++ c ∷ []) [] str in
    let ended = words (c ∷ []) [] str in
    if is_wsp c then (if is_empty word then between else (gap, word) ∷ ended) else inside

-- The loop of `unistr_header_to_utf8`. After a word that was not decoded, the white space is appended
-- and no longer passed on.
unfoldable pub header_words : Iconv → Bool → List (Bytes × Bytes) → List ℕ
header_words iconv decoded [] = []
header_words iconv decoded ((gap, word) ∷ more) =
    let (decoded', chars) = header_decode_word iconv (if decoded then gap else []) word in
    (if decoded then [] else unistr_append_usascii gap)
    ++ (chars ++ header_words iconv decoded' more)

unfoldable pub skip_wsp : Bytes → Bytes
skip_wsp [] = []
skip_wsp (c ∷ str) = if is_wsp c then skip_wsp str else c ∷ str

unfoldable pub unistr_header_to_utf8 : Iconv → Bytes → Bytes
unistr_header_to_utf8 iconv str =
    unistr_to_utf8 (header_words iconv false (words [] [] (skip_wsp str)))

unfoldable pub is_ok_in_header : ℕ → Bool
is_ok_in_header ch =
    (leb b'a' ch && leb ch b'z')
    || (leb b'A' ch && leb ch b'Z')
    || (leb b'0' ch && leb ch b'9')
    || ch == b'.'
    || ch == b','
    || ch == b':'
    || ch == b';'
    || ch == b'-'
    || ch == b' '

-- The digit that `%X` writes.
unfoldable pub hex_digit : ℕ → ℕ
hex_digit d = if leb d 9 then b'0' + d else b'A' + (d - 10)

unfoldable pub qp : Bytes → List ℕ
qp [] = []
qp (c ∷ str) =
    let more = qp str in
    if c == 32
    then b'_' ∷ more
    else if is_ok_in_header c
    then c ∷ more
    else b'=' ∷ hex_digit (c / 16) ∷ hex_digit (c % 16) ∷ more

-- The text in front of the white space at its end.
unfoldable pub cut_wsp : Bytes → Bytes
cut_wsp [] = []
cut_wsp (c ∷ str) = let r = cut_wsp str in if is_wsp c && is_empty r then [] else c ∷ r

unfoldable pub unistr_utf8_to_header : Bytes → Bytes
unistr_utf8_to_header str =
    let ret = skip_wsp str in
    if all is_ok_in_header ret
    then cut_wsp ret
    else unistr_to_utf8 (codes "=?utf-8?q?" ++ (qp (cut_wsp ret) ++ codes "?="))

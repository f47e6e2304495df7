-- ===== src/Unistr/Tests.antt =====
-- Concrete strings, and the theorems at them.
use mlmmj.Base.{
  ℕ, ◌≡◌, refl, true, false, List, [], ◌∷◌, ◌++◌, arith, Bytes, codes, length, All, all,
}
use mlmmj.CString.{tolower, str_eq, case_eq, strchr}
use mlmmj.Unistr.{
  unistr_append_utf8, unistr_to_utf8, encode_all, encode, unistr_append_usascii, utf8, lead,
  unistr_append_iso88591,
}
use mlmmj.Unistr.Utf8.{unistr_append_utf8-unistr_to_utf8, IsCarried, two, three}
use mlmmj.Unistr.Escaped.{escaped}
use mlmmj.Unistr.Header.{
  header_decode_word, is_ok_in_header, is_wsp, skip_wsp, cut_wsp, unistr_utf8_to_header, decode_qp,
  append_charset, Iconv, hexval, words, header_words, unistr_header_to_utf8,
}
use mlmmj.Unistr.Header.Quoted.{IsByte}
use mlmmj.Unistr.Header.Word.{header_decode_word-unistr_utf8_to_header}

-- "æ" and the sign of the euro
abbrev two_chars : List ℕ
two_chars = 230 ∷ 8364 ∷ []

abbrev ae : Bytes
ae = 195 ∷ 166 ∷ []

-- No charset is known.
abbrev no_iconv : Iconv
no_iconv charset binary = codes "???"

encoded : unistr_to_utf8 two_chars ≡ 195 ∷ 166 ∷ 226 ∷ 130 ∷ 172 ∷ []
unfolding unistr_to_utf8 encode_all encode
encoded = refl

-- A character that is cut off takes the byte behind it.
cut_off : unistr_append_utf8 (195 ∷ b'a' ∷ b'b' ∷ []) 3 ≡ codes "?b"
unfolding unistr_append_utf8 utf8 lead
cut_off = refl

-- An escape behind a character that is not ASCII is copied.
copied : escaped 0 false [] (ae ++ codes "\\u0041") ≡ 230 ∷ codes "\\u0041"
unfolding escaped unistr_append_utf8 utf8 lead
copied = refl

-- An escape behind a lone backslash is copied.
after_backslash : escaped 0 false [] (codes "\\n \\u0041") ≡ codes "\\n \\u0041"
unfolding escaped unistr_append_utf8 utf8
after_backslash = refl

header :
    unistr_header_to_utf8 no_iconv (codes " =?iso-8859-1?Q?hyggem=F8de?= torsdag  ")
    ≡ codes "hyggem" ++ 195 ∷ 184 ∷ codes "de torsdag"
unfolding unistr_header_to_utf8 unistr_to_utf8 encode_all encode header_words words skip_wsp
    header_decode_word strchr str_eq tolower append_charset case_eq decode_qp hexval is_wsp
    unistr_append_usascii unistr_append_iso88591
header = refl

two_chars-IsCarried : All IsCarried two_chars
two_chars-IsCarried = (two (omega arith) (omega arith), (three (omega arith) (omega arith), tt))

ae-IsByte : All IsByte ae
ae-IsByte = (omega arith, (omega arith, tt))

ae_unclean : all is_ok_in_header (skip_wsp ae) ≡ false
unfolding is_ok_in_header skip_wsp is_wsp
ae_unclean = refl

unistr_append_utf8-unistr_to_utf8_example :
    unistr_append_utf8 (unistr_to_utf8 two_chars) (length (unistr_to_utf8 two_chars)) ≡ two_chars
unistr_append_utf8-unistr_to_utf8_example =
    unistr_append_utf8-unistr_to_utf8 two_chars two_chars-IsCarried

header_decode_word-unistr_utf8_to_header_example :
    header_decode_word no_iconv (codes " ") (unistr_utf8_to_header ae)
    ≡ (true, unistr_append_utf8 (cut_wsp (skip_wsp ae)) (length (cut_wsp (skip_wsp ae))))
header_decode_word-unistr_utf8_to_header_example =
    header_decode_word-unistr_utf8_to_header no_iconv (codes " ") ae ae-IsByte ae_unclean

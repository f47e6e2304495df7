-- ===== src/Unistr/Header/Word.antt =====
-- A header that src/unistr.c encodes, decoded by it.
use mlmmj.CString.{tolower, str_eq, case_eq, strchr}
use mlmmj.Base.{
  ℕ, ◌/◌, ◌%◌, ◌<◌, ◌≡◌, refl, inl, inr, true, false, ◌&&◌, some, [], ◌∷◌, ◌++◌, arith, ◌==◌,
  Bool-cases, Bytes, codes, length, is_empty, All, All-append, all,
}
use mlmmj.Unistr.Header.{
  is_wsp, Iconv, append_charset, header_decode_word, skip_wsp, is_ok_in_header, hex_digit, qp,
  cut_wsp, unistr_utf8_to_header,
}
use mlmmj.Unistr.{unistr_append_utf8, unistr_to_utf8, encode_all, encode, fits}
use mlmmj.Unistr.Header.Quoted.{IsByte, decode_qp-qp}

abbrev IsAscii : ℕ → Type 0
IsAscii c = c < 128

encode_all-ascii : (s : Bytes) → All IsAscii s → encode_all s ≡ s
unfolding encode_all encode
encode_all-ascii [] h = refl
encode_all-ascii (c ∷ s) (h, hs) = ground (arith, h, encode_all-ascii s hs)

fits-ascii : (s : Bytes) → All IsAscii s → all fits s ≡ true
fits-ascii [] h = refl
fits-ascii (c ∷ s) (h, hs) = ground (arith, h, fits-ascii s hs)

unistr_to_utf8-ascii : (s : Bytes) → All IsAscii s → unistr_to_utf8 s ≡ s
unfolding unistr_to_utf8
unistr_to_utf8-ascii s h = rw (fits-ascii s h) (encode_all-ascii s h)

-- What an encoded text holds: ASCII, and no question mark.
abbrev IsQp : ℕ → Type 0
IsQp c = (c < 128) × ((c == b'?') ≡ false)

hex_digit-IsQp : (d : ℕ) → d < 16 → IsQp (hex_digit d)
unfolding hex_digit
hex_digit-IsQp d h = (ground arith, ground arith)

ok-IsQp : (c : ℕ) → is_ok_in_header c ≡ true → IsQp c
unfolding is_ok_in_header
ok-IsQp c h = (ground arith, ground arith)

qp-IsQp : (s : Bytes) → All IsByte s → All IsQp (qp s)
unfolding qp
qp-IsQp [] h = tt
qp-IsQp (c ∷ s) (h, hs) = elim (Bool-cases (c == 32)) [
  | inl e ↦ rw e ((omega arith, refl), qp-IsQp s hs)
  | inr e ↦ elim (Bool-cases (is_ok_in_header c)) [
    | inl ok ↦ rw (e, ok) (ok-IsQp c ok, qp-IsQp s hs)
    | inr ok ↦
        rw (e, ok)
          (
            (omega arith, refl),
            (
              hex_digit-IsQp (c / 16) (omega (arith, h)),
              (hex_digit-IsQp (c % 16) (omega arith), qp-IsQp s hs),
            ),
          )
  ]
]

strchr-found : (s after : Bytes) → All IsQp s → strchr b'?' (s ++ b'?' ∷ after) ≡ some (s, after)
unfolding strchr
strchr-found [] after h = refl
strchr-found (c ∷ s) after ((a, q), hs) = rw (q, strchr-found s after hs) refl

encoded-IsAscii : (s : Bytes) → All IsQp s → All IsAscii (codes "=?utf-8?q?" ++ (s ++ codes "?="))
encoded-IsAscii s h =
    All-append IsAscii (codes "=?utf-8?q?") (s ++ codes "?=") before
      (All-append IsAscii s (codes "?=") (IsQp-ascii s h) (omega arith, (omega arith, tt)))
  where
    before : All IsAscii (codes "=?utf-8?q?")
    before = (
      omega arith,
      (
        omega arith,
        (
          omega arith,
          (
            omega arith,
            (
              omega arith,
              (omega arith, (omega arith, (omega arith, (omega arith, (omega arith, tt))))),
            ),
          ),
        ),
      ),
    )

    IsQp-ascii : (s : Bytes) → All IsQp s → All IsAscii s
    IsQp-ascii [] h = tt
    IsQp-ascii (c ∷ s) ((a, q), hs) = (a, IsQp-ascii s hs)

skip_wsp-IsByte : (s : Bytes) → All IsByte s → All IsByte (skip_wsp s)
unfolding skip_wsp
skip_wsp-IsByte [] h = tt
skip_wsp-IsByte (c ∷ s) (h, hs) = elim (Bool-cases (is_wsp c)) [
  | inl e ↦ rw e (skip_wsp-IsByte s hs)
  | inr e ↦ rw e (h, hs)
]

cut_wsp-IsByte : (s : Bytes) → All IsByte s → All IsByte (cut_wsp s)
unfolding cut_wsp
cut_wsp-IsByte [] h = tt
cut_wsp-IsByte (c ∷ s) (h, hs) = elim (Bool-cases (is_wsp c && is_empty (cut_wsp s))) [
  | inl e ↦ rw e tt
  | inr e ↦ rw e (h, cut_wsp-IsByte s hs)
]

decoded :
    (iconv : Iconv) (gap s : Bytes)
    → All IsQp (qp s)
    → All IsByte s
    → header_decode_word iconv gap (codes "=?utf-8?q?" ++ (qp s ++ codes "?="))
      ≡ (true, unistr_append_utf8 s (length s))
unfolding header_decode_word str_eq tolower append_charset case_eq strchr
decoded iconv gap s h k =
    rw (strchr-found (qp s) (codes "=") h, header_decode_word, decode_qp-qp s k) refl

-- A text that needs encoding is read back, from the header that is made of it, as the UTF-8 that
-- it is without the white space at its ends, whatever stands in front of it.
pub header_decode_word-unistr_utf8_to_header :
    (iconv : Iconv) (gap str : Bytes)
    → All IsByte str
    → all is_ok_in_header (skip_wsp str) ≡ false
    → header_decode_word iconv gap (unistr_utf8_to_header str)
      ≡ (true, unistr_append_utf8 (cut_wsp (skip_wsp str)) (length (cut_wsp (skip_wsp str))))
unfolding unistr_utf8_to_header
header_decode_word-unistr_utf8_to_header iconv gap str h k =
    let bytes = cut_wsp-IsByte (skip_wsp str) (skip_wsp-IsByte str h) in
    let marks = qp-IsQp (cut_wsp (skip_wsp str)) bytes in
    rw
      (
        k,
        unistr_to_utf8-ascii (codes "=?utf-8?q?" ++ (qp (cut_wsp (skip_wsp str)) ++ codes "?="))
            (encoded-IsAscii (qp (cut_wsp (skip_wsp str))) marks),
      )
      (decoded iconv gap (cut_wsp (skip_wsp str)) marks bytes)

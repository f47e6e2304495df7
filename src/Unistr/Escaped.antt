-- ===== src/Unistr/Escaped.antt =====
-- The escapes of list texts, `unistr_escaped_to_utf8` of src/unistr.c.
use mlmmj.Base.{
  ℕ, zero, suc, ◌+◌, ◌*◌, ◌/◌, ◌%◌, ◌<◌, ◌≡◌, refl, ap, ◌∙◌, Bool, true, false, not, ◌&&◌, List, [],
  ◌∷◌, ◌++◌, arith, leb, ◌==◌, if◌then◌else◌, Bytes, length, drop, All,
}
use mlmmj.CString.{peek, rest_of, is_xdigit}
use mlmmj.Unistr.{utf8, unistr_append_utf8, unistr_to_utf8}
use mlmmj.Unistr.Header.Quoted.{is_xdigit-hex_digit, hexval-hex_digit}
use mlmmj.Unistr.Header.{hexval, hex_digit}

unfoldable pub is_hex4 : Bytes → Bool
is_hex4 s =
    is_xdigit (peek s)
    && is_xdigit (peek (drop 1 s))
    && is_xdigit (peek (drop 2 s))
    && is_xdigit (peek (drop 3 s))

-- `strtol(u, NULL, 16)` for four hexadecimal digits
unfoldable pub strtol4 : Bytes → ℕ
strtol4 s =
    ((hexval (peek s) * 16 + hexval (peek (drop 1 s))) * 16 + hexval (peek (drop 2 s))) * 16
    + hexval (peek (drop 3 s))

-- The loop of `unistr_escaped_to_utf8`: `ignored` bytes were read ahead, and `pending` are bytes above
-- 127 that the inner loop has collected.
unfoldable pub escaped : ℕ → Bool → Bytes → Bytes → List ℕ
escaped ignored skip pending [] = unistr_append_utf8 pending (length pending)
escaped (suc ignored) skip pending (c ∷ str) = escaped ignored skip pending str
escaped zero skip [] (c ∷ str) =
    let hex = escaped 5 skip [] str in
    let bad = escaped 1 skip [] str in
    let slash = escaped 0 (not skip) [] str in
    let more = escaped 0 skip [] str in
    let run = escaped 0 skip (c ∷ []) str in
    if c == b'\\'
    then (if peek str == b'u' && not skip
        then (if is_hex4 (rest_of str) then strtol4 (rest_of str) ∷ hex else b'?' ∷ bad)
        else b'\\' ∷ slash)
    else if leb c 127
    then unistr_append_utf8 (c ∷ []) 1 ++ more
    else run
escaped zero skip (p ∷ pending) (c ∷ str) =
    let done = unistr_append_utf8 (p ∷ pending ++ c ∷ []) (length (p ∷ pending ++ c ∷ [])) in
    let more = escaped 0 skip [] str in
    let run = escaped 0 skip (p ∷ pending ++ c ∷ []) str in if leb c 127 then done ++ more else run

unfoldable pub unistr_escaped_to_utf8 : Bytes → Bytes
unistr_escaped_to_utf8 str = unistr_to_utf8 (escaped 0 false [] str)

-- The escape of a character.
abbrev pub escape : ℕ → Bytes
escape c =
    b'\\'
    ∷ b'u'
    ∷ hex_digit (c / 4096)
    ∷ hex_digit ((c / 256) % 16)
    ∷ hex_digit ((c / 16) % 16)
    ∷ hex_digit (c % 16)
    ∷ []

abbrev pub escapes : List ℕ → Bytes
escapes [] = []
escapes (c ∷ chars) = escape c ++ escapes chars

abbrev pub IsShort : ℕ → Type 0
IsShort c = c < 65536

escaped-read :
    (str : Bytes)
    → is_hex4 str ≡ true
    → escaped 0 false [] (b'\\' ∷ b'u' ∷ str) ≡ strtol4 str ∷ escaped 4 false [] str
unfolding escaped
escaped-read str h = rw (h, escaped) refl

escaped-ignored :
    (a b c d : ℕ) (str : Bytes) → escaped 4 false [] (a ∷ b ∷ c ∷ d ∷ str) ≡ escaped 0 false [] str
unfolding escaped
escaped-ignored a b c d str = refl

is_hex4-digits :
    (a b c d : ℕ) (str : Bytes)
    → a < 16
    → b < 16
    → c < 16
    → d < 16
    → is_hex4 (hex_digit a ∷ hex_digit b ∷ hex_digit c ∷ hex_digit d ∷ str) ≡ true
unfolding is_hex4
is_hex4-digits a b c d str ha hb hc hd =
    rw
      (
        is_xdigit-hex_digit a ha,
        is_xdigit-hex_digit b hb,
        is_xdigit-hex_digit c hc,
        is_xdigit-hex_digit d hd,
      )
      refl

strtol4-digits :
    (a b c d : ℕ) (str : Bytes)
    → a < 16
    → b < 16
    → c < 16
    → d < 16
    → strtol4 (hex_digit a ∷ hex_digit b ∷ hex_digit c ∷ hex_digit d ∷ str)
      ≡ ((a * 16 + b) * 16 + c) * 16 + d
unfolding strtol4
strtol4-digits a b c d str ha hb hc hd =
    rw (hexval-hex_digit a ha, hexval-hex_digit b hb, hexval-hex_digit c hc, hexval-hex_digit d hd)
      refl

joined : (c : ℕ) → ((c / 4096 * 16 + (c / 256) % 16) * 16 + (c / 16) % 16) * 16 + c % 16 ≡ c
joined c = omega arith

escaped-escape :
    (c : ℕ) (str : Bytes)
    → c < 65536
    → escaped 0 false [] (escape c ++ str) ≡ c ∷ escaped 0 false [] str
escaped-escape c str h =
    escaped-read _ (
      is_hex4-digits (c / 4096) ((c / 256) % 16) ((c / 16) % 16) (c % 16) str (omega (arith, h))
        (omega arith) (omega arith) (omega arith))
    ∙ rw
        (
          strtol4-digits (c / 4096) ((c / 256) % 16) ((c / 16) % 16) (c % 16) str (omega (arith, h))
              (omega arith) (omega arith) (omega arith),
          joined c,
          escaped-ignored (hex_digit (c / 4096)) (hex_digit ((c / 256) % 16))
              (hex_digit ((c / 16) % 16)) (hex_digit (c % 16)) str,
        )
        refl

escaped-escapes : (chars : List ℕ) → All IsShort chars → escaped 0 false [] (escapes chars) ≡ chars
unfolding escaped unistr_append_utf8 utf8
escaped-escapes [] h = refl
escaped-escapes (c ∷ chars) (h, hs) =
    escaped-escape c (escapes chars) h ∙ ap (λ x. c ∷ x) (escaped-escapes chars hs)

-- A text of escapes gives the UTF-8 of its characters, for the characters that four digits write.
unistr_escaped_to_utf8-escapes :
    (chars : List ℕ)
    → All IsShort chars
    → unistr_escaped_to_utf8 (escapes chars) ≡ unistr_to_utf8 chars
unfolding unistr_escaped_to_utf8
unistr_escaped_to_utf8-escapes chars h = ap unistr_to_utf8 (escaped-escapes chars h)

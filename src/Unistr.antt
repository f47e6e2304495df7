-- ===== src/Unistr.antt =====
-- Strings of Unicode characters, src/unistr.c: what is appended to them from bytes, and their UTF-8.
-- A byte is a number below 256, so `b & 224 == 192` is `b / 32 == 6`, and `b & 31` is `b % 32`.
pub mod Steps
pub mod Utf8
pub mod Lossy
pub mod Bounds
pub mod Header
pub mod Escaped
mod Tests
use mlmmj.Base.{
  ℕ, zero, suc, ◌+◌, ◌-◌, ◌*◌, ◌/◌, ◌%◌, Bool, Option, none, some, List, [], ◌∷◌, ◌++◌, leb, ◌==◌,
  if◌then◌else◌, Bytes, all,
}

-- `unistr_append_usascii`: the characters that it appends
unfoldable pub unistr_append_usascii : Bytes → List ℕ
unistr_append_usascii [] = []
unistr_append_usascii (b ∷ binary) = (if leb b 127 then b else b'?') ∷ unistr_append_usascii binary

unfoldable pub unistr_append_iso88591 : Bytes → List ℕ
unistr_append_iso88591 [] = []
unistr_append_iso88591 (b ∷ binary) = (if b == 0 then b'?' else b) ∷ unistr_append_iso88591 binary

-- The bits of a first byte above 127, and how many bytes are to follow.
unfoldable pub lead : ℕ → Option (ℕ × ℕ)
lead b =
    if b / 32 == 6
    then some (b % 32, 1)
    else if b / 16 == 14
    then some (b % 16, 2)
    else if b / 8 == 30
    then some (b % 8, 3)
    else if b / 4 == 62
    then some (b % 4, 4)
    else if b / 2 == 126
    then some (b % 2, 5)
    else none

-- The loop of `unistr_append_utf8`: `n` bytes of `bin` are left, `j` bytes of the character with the
-- bits `ch` are to follow. A character that is not finished reads on behind the `n` bytes; behind
-- the end of `bin` a byte reads as 0. No product leaves 31 bits, as Unistr/Bounds shows.
unfoldable pub utf8 : ℕ → ℕ → ℕ → Bytes → List ℕ
utf8 n zero ch [] = []
utf8 n (suc j) ch [] = b'?' ∷ []
utf8 zero zero ch (b ∷ bin) = []
utf8 (suc n) zero ch (b ∷ bin) =
    let next = utf8 n 0 0 bin in
    if leb b 127 then b ∷ next else elim (lead b) [
      | none ↦ b'?' ∷ next
      | some (bits, j) ↦ if bits == 0 then b'?' ∷ next else utf8 n j bits bin
    ]
utf8 n (suc zero) ch (b ∷ bin) =
    let next = utf8 (n - 1) 0 0 bin in (if b / 64 == 2 then ch * 64 + b % 64 else b'?') ∷ next
utf8 n (suc (suc j)) ch (b ∷ bin) =
    let next = utf8 (n - 1) 0 0 bin in
    let more = utf8 (n - 1) (suc j) (ch * 64 + b % 64) bin in
    if b / 64 == 2 then more else b'?' ∷ next

-- `unistr_append_utf8`, with the length of the bytes
unfoldable pub unistr_append_utf8 : Bytes → ℕ → List ℕ
unistr_append_utf8 bin bin_len = utf8 bin_len 0 0 bin

abbrev pub follow : ℕ → ℕ
follow c = 128 + c % 64

-- The bytes of one character; there are none above 0x7FFFFFFF.
unfoldable pub encode : ℕ → Bytes
encode c =
    if leb c 127
    then c ∷ []
    else if leb c 2047
    then (192 + (c / 64) % 32) ∷ follow c ∷ []
    else if leb c 65535
    then (224 + (c / 4096) % 16) ∷ follow (c / 64) ∷ follow c ∷ []
    else if leb c 2097151
    then (240 + (c / 262144) % 8) ∷ follow (c / 4096) ∷ follow (c / 64) ∷ follow c ∷ []
    else if leb c 67108863
    then (248 + (c / 16777216) % 4)
      ∷ follow (c / 262144)
      ∷ follow (c / 4096)
      ∷ follow (c / 64)
      ∷ follow c
      ∷ []
    else if leb c 2147483647
    then (252 + (c / 1073741824) % 2)
      ∷ follow (c / 16777216)
      ∷ follow (c / 262144)
      ∷ follow (c / 4096)
      ∷ follow (c / 64)
      ∷ follow c
      ∷ []
    else []

-- The second loop of `unistr_to_utf8`.
unfoldable pub encode_all : List ℕ → Bytes
encode_all [] = []
encode_all (c ∷ chars) = encode c ++ encode_all chars

abbrev pub fits : ℕ → Bool
fits c = leb c 2147483647

-- The bytes in front of the NUL that ends them.
unfoldable pub unistr_to_utf8 : List ℕ → Bytes
unistr_to_utf8 chars = if all fits chars then encode_all chars else []

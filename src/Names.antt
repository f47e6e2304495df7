-- ===== src/Names.antt =====
-- Names that are made of the address of the list and of a subscriber, src/strgen.c. `strgen.c` ends the
-- program where an address has no `@`; the result is then `none`.
pub mod Cookies
mod Tests
use mlmmj.Base.{ℕ, ◌+◌, ◌-◌, ◌/◌, ◌%◌, Option, none, some, [], ◌∷◌, ◌++◌, leb, if◌then◌else◌, Bytes}
use mlmmj.CString.{strchr}

unfoldable pub genlistname : Bytes → Option Bytes
genlistname listaddr = elim (strchr b'@' listaddr) [ none ↦ none | some (name, fqdn) ↦ some name ]

unfoldable pub genlistfqdn : Bytes → Option Bytes
genlistfqdn listaddr = elim (strchr b'@' listaddr) [ none ↦ none | some (name, fqdn) ↦ some fqdn ]

-- The digit that `%x` writes.
unfoldable pub hex_digit : ℕ → ℕ
hex_digit d = if leb d 9 then b'0' + d else b'a' + (d - 10)

-- `%08x` for a number of 32 bits
abbrev pub hex8 : ℕ → Bytes
hex8 n =
    hex_digit ((n / 268435456) % 16)
    ∷ hex_digit ((n / 16777216) % 16)
    ∷ hex_digit ((n / 1048576) % 16)
    ∷ hex_digit ((n / 65536) % 16)
    ∷ hex_digit ((n / 4096) % 16)
    ∷ hex_digit ((n / 256) % 16)
    ∷ hex_digit ((n / 16) % 16)
    ∷ hex_digit (n % 16)
    ∷ []

-- `random_str`, with the two numbers that `random_int` gives
abbrev pub random_str : ℕ → ℕ → Bytes
random_str m n = hex8 m ++ hex8 n

-- With the two numbers that `random_int` gives.
unfoldable pub random_plus_addr : ℕ → ℕ → Bytes → Option Bytes
random_plus_addr m n addr = elim (strchr b'@' addr) [
  | none ↦ none
  | some (name, fqdn) ↦ some (hex8 m ++ (hex8 n ++ b'-' ∷ (name ++ b'=' ∷ fqdn)))
]

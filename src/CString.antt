-- ===== src/CString.antt =====
-- The functions of the C library that the sources call on strings, in the "C" locale. A C string is
-- the list of its bytes before the NUL, so a read at its end gives 0. These are the language's
-- library, not code of the repository.
pub mod Search
use mlmmj.Base.{
  ℕ, zero, suc, ◌+◌, Bool, true, false, ◌&&◌, ◌||◌, [], ◌∷◌, Option, none, some, leb, ◌==◌,
  if◌then◌else◌, Bytes,
}

-- `*s`
abbrev pub peek : Bytes → ℕ
peek [] = 0
peek (c ∷ s) = c

-- `s + 1`
abbrev pub rest_of : Bytes → Bytes
rest_of [] = []
rest_of (c ∷ s) = s

unfoldable pub tolower : ℕ → ℕ
tolower c = if leb b'A' c && leb c b'Z' then c + 32 else c

abbrev pub is_digit : ℕ → Bool
is_digit c = leb b'0' c && leb c b'9'

abbrev pub is_xdigit : ℕ → Bool
is_xdigit c = is_digit c || (leb b'a' c && leb c b'f') || (leb b'A' c && leb c b'F')

-- `strcmp(a, b) == 0`
unfoldable pub str_eq : Bytes → Bytes → Bool
str_eq [] [] = true
str_eq (x ∷ a) (y ∷ b) = x == y && str_eq a b
str_eq _ _ = false

-- `strncmp(s, prefix, strlen(prefix)) == 0`, with what follows the prefix
unfoldable pub strip_prefix : Bytes → Bytes → Option Bytes
strip_prefix [] s = some s
strip_prefix (p ∷ ps) [] = none
strip_prefix (p ∷ ps) (c ∷ s) = if p == c then strip_prefix ps s else none

-- `strcasecmp(a, b) == 0`
unfoldable pub case_eq : Bytes → Bytes → Bool
unfolding tolower
case_eq [] [] = true
case_eq (x ∷ a) (y ∷ b) = tolower x == tolower y && case_eq a b
case_eq _ _ = false

-- `strncasecmp(a, b, n) == 0`
unfoldable pub case_eq_n : ℕ → Bytes → Bytes → Bool
unfolding tolower
case_eq_n zero a b = true
case_eq_n (suc n) [] [] = true
case_eq_n (suc n) (x ∷ a) (y ∷ b) = tolower x == tolower y && case_eq_n n a b
case_eq_n (suc n) _ _ = false

-- `strchr(s, c)`: what stands before the first `c`, and what stands after it
unfoldable pub strchr : ℕ → Bytes → Option (Bytes × Bytes)
strchr c [] = none
strchr c (x ∷ s) =
    let later = strchr c s in
    if x == c then some ([], s) else elim later [ none ↦ none | some (a, b) ↦ some (x ∷ a, b) ]

-- `strchr(s, c) != NULL`
unfoldable pub contains : ℕ → Bytes → Bool
contains c [] = false
contains c (x ∷ s) = x == c || contains c s

-- `strstr(s, needle)`: what stands before the first place where the needle stands, and the rest from
-- there on
unfoldable pub strstr : Bytes → Bytes → Option (Bytes × Bytes)
unfolding strip_prefix
strstr needle [] = elim (strip_prefix needle []) [ none ↦ none | some after ↦ some ([], []) ]
strstr needle (c ∷ s) =
    let later = strstr needle s in
    elim (strip_prefix needle (c ∷ s)) [
      | some after ↦ some ([], c ∷ s)
      | none ↦ elim later [ none ↦ none | some (a, b) ↦ some (c ∷ a, b) ]
    ]

-- `strrchr(s, c)`: what stands before the last `c`, and what stands after it
unfoldable pub strrchr : ℕ → Bytes → Option (Bytes × Bytes)
strrchr c [] = none
strrchr c (x ∷ s) = elim (strrchr c s) [
  | some (a, b) ↦ some (x ∷ a, b)
  | none ↦ if x == c then some ([], s) else none
]

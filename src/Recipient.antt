-- ===== src/Recipient.antt =====
-- Which recipient addresses belong to a list, `addrmatch` of src/mlmmj-process.c.
pub mod Laws
mod Tests
use mlmmj.Base.{ℕ, ◌+◌, not, Option, none, some, ◌==◌, if◌then◌else◌, Bytes, length, drop}
use mlmmj.CString.{peek, case_eq, case_eq_n, strstr, strrchr}

-- What follows the delimiter: the text up to the last `@` is the extra part, if the domain fits.
unfoldable pub match_domain : Bytes → ℕ → Bytes → Option (Option Bytes)
match_domain listaddr len delim = elim (strrchr b'@' delim) [
  | none ↦ none
  | some (extra, domain) ↦
      if case_eq (drop (len + 1) listaddr) domain then some (some extra) else none
]

-- `before` is the part of the address before the delimiter, and `from` the rest.
unfoldable pub match_delim : Bytes → Bytes → Bytes → Bytes → Bytes → Option (Option Bytes)
match_delim listaddr addr listdelim before from =
    let len = length before in
    if not (case_eq_n len listaddr addr)
    then none
    else if not (peek (drop len listaddr) == b'@')
    then none
    else match_domain listaddr len (drop (length listdelim) from)

-- `none` is 0; `some none` is 1 with `*recipextra` set to NULL, and `some (some extra)` is 1 with the
-- extra part. An absent address or delimiter is NULL.
unfoldable pub addrmatch : Bytes → Option Bytes → Option Bytes → Option (Option Bytes)
addrmatch listaddr none listdelim = none
addrmatch listaddr (some addr) none = if case_eq listaddr addr then some none else none
addrmatch listaddr (some addr) (some listdelim) =
    if case_eq listaddr addr then some none else elim (strstr listdelim addr) [
      | none ↦ none
      | some (before, from) ↦ match_delim listaddr addr listdelim before from
    ]

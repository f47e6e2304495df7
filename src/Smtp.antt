-- ===== src/Smtp.antt =====
-- A mail turned into the text that is sent after DATA, src/mail-functions.c. A file that is mapped is
-- the list of its bytes; the byte behind it reads as 0, which is what the last page is filled with.
pub mod Receive
pub mod Length
mod Tests
use mlmmj.Base.{
  ℕ, zero, suc, ◌+◌, Bool, true, false, ◌&&◌, Option, none, some, List, [], ◌∷◌, ◌++◌, ◌==◌,
  if◌then◌else◌, Bytes, codes, length,
}
use mlmmj.CString.{peek, rest_of, strstr}

-- `newlinebuf`: the end of the line, and the dot that doubles a dot in front of the next line.
abbrev pub newlinebuf : Bytes → Bytes
newlinebuf next = if peek next == b'.' then codes "\r\n." else codes "\r\n"

-- The calls of `writen` in the loop of `write_mailbody_from_map`; `cur` are the bytes of the line so
-- far, and `i` holds until the To: header was written.
unfoldable pub body_writes : Option Bytes → Bool → Bytes → Bytes → List Bytes
body_writes tohdr i cur [] = []
body_writes tohdr i cur (c ∷ next) =
    let more = body_writes tohdr i (cur ++ c ∷ []) next in
    let line = body_writes tohdr i [] next in
    let later = body_writes tohdr false [] next in
    if c == b'\n'
    then cur
      ∷ newlinebuf next
      ∷ (if i && peek next == b'\n'
          then elim tohdr [ none ↦ line | some to ↦ to ∷ later ]
          else line)
    else more

-- The writes that are made when the first `n` succeed, and whether the result is 0 and not -1.
abbrev pub writen_all : ℕ → List Bytes → List Bytes × Bool
writen_all n [] = ([], true)
writen_all zero (w ∷ ws) = ([], false)
writen_all (suc n) (w ∷ ws) = let (out, ok) = writen_all n ws in (w ∷ out, ok)

unfoldable pub write_mailbody_from_map : ℕ → Bytes → Option Bytes → List Bytes × Bool
write_mailbody_from_map n mapped tohdr = writen_all n (body_writes tohdr true [] mapped)

-- A buffer that was allocated with `len` bytes and holds `text` at its start; what is behind the text
-- was never written.
pub record Prepared : Type 0 where
  pub text : Bytes
  pub len : ℕ

unfoldable pub count_newlines : Bytes → ℕ
count_newlines [] = 0
count_newlines (c ∷ next) = if c == b'\n' then suc (count_newlines next) else count_newlines next

-- The loop that writes the headers.
unfoldable pub prep_headers : Bytes → Bytes → Bytes
prep_headers cur [] = []
prep_headers cur (c ∷ next) =
    let more = prep_headers (cur ++ c ∷ []) next in
    let line = prep_headers [] next in if c == b'\n' then cur ++ (codes "\r\n" ++ line) else more

-- `none` where there is no empty line.
unfoldable pub get_preppedhdrs_from_map : Bytes → Option Prepared
get_preppedhdrs_from_map mapped = elim (strstr (codes "\n\n") mapped) [
  | none ↦ none
  | some (hdrs, endhdrs) ↦
      let hdrs = hdrs ++ b'\n' ∷ [] in
      some (record { text = prep_headers [] hdrs; len = length hdrs + count_newlines hdrs })
]

unfoldable pub count_body : Bytes → ℕ
count_body [] = 0
count_body (c ∷ next) =
    let n = count_body next in
    if c == b'\n' then (if peek next == b'.' then suc (suc n) else suc n) else n

-- The loop that writes the body.
unfoldable pub prep_body : Bytes → Bytes → Bytes
prep_body cur [] = []
prep_body cur (c ∷ next) =
    let more = prep_body (cur ++ c ∷ []) next in
    let line = prep_body [] next in if c == b'\n' then cur ++ (newlinebuf next ++ line) else more

unfoldable pub get_prepped_mailbody_from_map : Bytes → Option Prepared
get_prepped_mailbody_from_map mapped = elim (strstr (codes "\n\n") mapped) [
  | none ↦ none
  | some (hdrs, endhdrs) ↦
      let body = rest_of endhdrs in
      some (record { text = prep_body [] body; len = length body + count_body body })
]

-- `write_dot`
abbrev pub dot : Bytes
dot = codes "\r\n.\r\n"

-- ===== src/Headers.antt =====
-- The headers of a mail as they are read: src/chomp.c, src/gethdrline.c, `cleanquotedp` of
-- src/strgen.c, and `findit` and `getinfo` of src/do_all_the_voodoo_here.c. A file is the list of the
-- lines that `mygetline` gives, each with its newline; no call of `readn` or `lseek` fails.
pub mod Reading
pub mod Rewriting
pub mod Passing
pub mod Freeing
mod Tests
use mlmmj.Base.{
  ℕ, ◌+◌, ◌-◌, ◌*◌, Bool, true, false, ◌&&◌, ◌||◌, Option, none, some, List, [], ◌∷◌, ◌++◌, leb,
  ◌==◌, if◌then◌else◌, Bytes, length, drop, is_empty,
}
use mlmmj.CString.{peek, is_digit, is_xdigit, case_eq_n}

abbrev pub is_newline : ℕ → Bool
is_newline c = c == b'\n' || c == b'\r'

-- The loop of `chomp`.
unfoldable pub cut_newlines : Bytes → Bytes
cut_newlines [] = []
cut_newlines (c ∷ str) =
    let r = cut_newlines str in if is_newline c && is_empty r then [] else c ∷ r

unfoldable pub chomp : Bytes → Bytes
chomp str = if is_empty str || is_newline (peek str) then [] else cut_newlines str

abbrev pub continued : Bytes → Bool
continued line = peek line == b'\t' || peek line == b' '

-- A header without its newlines, and as it stands in the mail.
abbrev pub Header : Type 0
Header = Bytes × Bytes

-- The loop of `gethdrline`.
unfoldable pub unfold_header : Bytes → Bytes → List Bytes → Header × List Bytes
unfold_header retstr unfolded [] = ((retstr, unfolded), [])
unfold_header retstr unfolded (line ∷ lines) =
    let more = unfold_header (retstr ++ chomp line) (unfolded ++ line) lines in
    if continued line then more else ((retstr, unfolded), line ∷ lines)

-- `none` is NULL, at the end of the headers; and what is left of the file.
unfoldable pub gethdrline : List Bytes → Option Header × List Bytes
gethdrline [] = (none, [])
gethdrline (line ∷ lines) =
    let (header, rest) = unfold_header (chomp line) line lines in
    if is_empty (chomp line) then (none, lines) else (some header, rest)

-- All that `gethdrline` gives until it gives NULL, after a header that is not finished; and what is
-- left of the file.
unfoldable pub headers_after : Bytes → Bytes → List Bytes → List Header × List Bytes
headers_after retstr unfolded [] = ((retstr, unfolded) ∷ [], [])
headers_after retstr unfolded (line ∷ lines) =
    let more = headers_after (retstr ++ chomp line) (unfolded ++ line) lines in
    let (headers, body) = headers_after (chomp line) line lines in
    if continued line
    then more
    else if is_empty (chomp line)
    then ((retstr, unfolded) ∷ [], lines)
    else ((retstr, unfolded) ∷ headers, body)

unfoldable pub headers : List Bytes → List Header × List Bytes
headers [] = ([], [])
headers (line ∷ lines) =
    let r = headers_after (chomp line) line lines in
    if is_empty (chomp line) then ([], lines) else r

-- Where `cleanquotedp` stands: after a `=`, and after a digit behind it.
pub data Quoted : Type 0 where
  plain after_equals : Quoted
  after_digit : ℕ → Quoted

abbrev hex : ℕ → ℕ
hex c = if is_digit c then c - b'0' else if leb b'a' c then c - b'a' + 10 else c - b'A' + 10

abbrev digit_of : Quoted → Option ℕ
digit_of (after_digit d) = some d
digit_of _ = none

abbrev is_after_equals : Quoted → Bool
is_after_equals after_equals = true
is_after_equals _ = false

unfoldable pub cleanquotedp : Quoted → Bytes → Bytes
cleanquotedp q [] = []
cleanquotedp q (c ∷ str) =
    let next = cleanquotedp plain str in
    let equals = cleanquotedp after_equals str in
    let digit = cleanquotedp (after_digit c) str in
    let here = if c == b'=' then equals else if c == b'_' then b' ' ∷ next else c ∷ next in
    if is_after_equals q && is_xdigit c then digit else elim (digit_of q) [
      | none ↦ here
      | some d ↦
          if is_xdigit c
          then (if hex d * 16 + hex c == 0 then next else (hex d * 16 + hex c) ∷ next)
          else here
    ]

unfoldable pub findit : Bytes → List Bytes → Bool
unfolding case_eq_n
findit line [] = false
findit line (h ∷ hdrs) = if case_eq_n (length h) line h then true else findit line hdrs

-- `getinfo`: the values of the headers that are asked for, by token.
abbrev pub getinfo : Bytes → List (Bytes × List Bytes) → List (Bytes × List Bytes)
getinfo line [] = []
getinfo line ((token, values) ∷ readhdrs) =
    (
      token,
      (if case_eq_n (length token) line token
          then values ++ drop (length token) line ∷ []
          else values),
    )
    ∷ getinfo line readhdrs

abbrev pub header_lines : List Header → List Bytes
header_lines [] = []
header_lines ((hdrline, unfolded) ∷ hdrs) = hdrline ∷ header_lines hdrs

abbrev pub read_headers : List Header → List (Bytes × List Bytes) → List (Bytes × List Bytes)
read_headers [] readhdrs = readhdrs
read_headers ((hdrline, unfolded) ∷ hdrs) readhdrs = read_headers hdrs (getinfo hdrline readhdrs)

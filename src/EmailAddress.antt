-- ===== src/EmailAddress.antt =====
-- The addresses of a header, src/find_email_adr.c: `skip_comment` and `skin`. A loop that jumps takes
-- fuel; `none` means that it ran out.
pub mod Splitting
pub mod Shorter
pub mod Ending
pub mod Plain
mod Tests
use mlmmj.Base.{
  ℕ, zero, suc, ◌+◌, Bool, true, false, not, ◌&&◌, ◌||◌, Option, none, some, [], ◌∷◌, ◌++◌, ◌==◌,
  if◌then◌else◌, Bytes, codes, length,
}
use mlmmj.CString.{peek, strip_prefix, contains}

-- Behind a `(`, at a depth of nesting.
unfoldable pub skip_comment : ℕ → Bytes → Bytes
skip_comment zero cp = cp
skip_comment (suc nesting) [] = []
skip_comment (suc nesting) (c ∷ []) = []
skip_comment (suc nesting) (c ∷ d ∷ cp) =
    let escaped = skip_comment (suc nesting) cp in
    let deeper = skip_comment (suc (suc nesting)) (d ∷ cp) in
    let closed = skip_comment nesting (d ∷ cp) in
    let next = skip_comment (suc nesting) (d ∷ cp) in
    if c == b'\\' then escaped else if c == b'(' then deeper else if c == b')' then closed else next

-- Behind a quotation mark: what is copied, and where the loop goes on.
unfoldable pub copy_quoted : Bytes → Bytes × Bytes
copy_quoted [] = ([], [])
copy_quoted (c ∷ []) = (if c == b'"' || c == b'\\' then [] else c ∷ [], [])
copy_quoted (c ∷ d ∷ cp) =
    let (escaped, behind_escaped) = copy_quoted cp in
    let (next, behind_next) = copy_quoted (d ∷ cp) in
    if c == b'"'
    then ([], d ∷ cp)
    else if c == b'\\'
    then (d ∷ escaped, behind_escaped)
    else (c ∷ next, behind_next)

-- Where the loop behind a `>` stands.
pub data Skipping : Type 0 where
  plain quoted quoted_escaped : Skipping
  comment comment_escaped : ℕ → Skipping

abbrev pub skipping : Skipping → ℕ → Skipping
skipping plain c = if c == b'(' then comment 0 else if c == b'"' then quoted else plain
skipping quoted c = if c == b'"' then plain else if c == b'\\' then quoted_escaped else quoted
skipping quoted_escaped c = quoted
skipping (comment n) c =
    if c == b'\\'
    then comment_escaped n
    else if c == b'('
    then comment (suc n)
    else if c == b')'
    then elim n [ zero ↦ plain | suc m ↦ comment m ]
    else comment n
skipping (comment_escaped n) c = comment n

abbrev pub is_plain : Skipping → Bool
is_plain plain = true
is_plain _ = false

-- The text behind a `>` up to a comma, without comments and quoted strings. `comment n` is at the
-- depth `n + 1`.
unfoldable pub skip_to_comma : Skipping → Bytes → Bytes
skip_to_comma s [] = []
skip_to_comma s (c ∷ cp) =
    let more = skip_to_comma (skipping s c) cp in if is_plain s && c == b',' then c ∷ cp else more

abbrev pub skip_spaces : Bytes → Bytes
skip_spaces [] = []
skip_spaces (c ∷ cp) = if c == b' ' then skip_spaces cp else c ∷ cp

-- The loop of `skin`. `done` is the text in front of `bufend`, and `out` what stands behind it.
unfoldable pub skin_loop : ℕ → Bytes → Bytes → ℕ → Bool → Bytes → Option Bytes
unfolding strip_prefix
skin_loop fuel done out gotlt lastsp [] = some (done ++ out)
skin_loop zero done out gotlt lastsp (c ∷ cp) = none
skin_loop (suc fuel) done out gotlt lastsp (c ∷ cp) =
    let (copied, behind) = copy_quoted cp in
    let spaced = if lastsp then out ++ (b' ' ∷ c ∷ []) else out ++ (c ∷ []) in
    let default : Option Bytes =
      if c == b',' && peek cp == b' ' && gotlt == 0
      then skin_loop fuel (done ++ (spaced ++ b' ' ∷ [])) [] gotlt false (skip_spaces cp)
      else skin_loop fuel done spaced gotlt false cp in
    let space : Option Bytes = elim (strip_prefix (codes "at ") cp) [
      | some cp ↦ skin_loop fuel done (out ++ b'@' ∷ []) gotlt lastsp cp
      | none ↦ elim (strip_prefix (codes "@ ") cp) [
        | some cp ↦ skin_loop fuel done (out ++ b'@' ∷ []) gotlt lastsp cp
        | none ↦ skin_loop fuel done out gotlt true cp
      ]
    ] in
    if c == b'('
    then skin_loop fuel done out gotlt false (skip_comment 1 cp)
    else if c == b'"'
    then skin_loop fuel done (out ++ copied) gotlt false behind
    else if c == b' '
    then space
    else if c == b'<'
    then skin_loop fuel done [] (gotlt + 1) false cp
    else if c == b'>' && not (gotlt == 0)
    then skin_loop fuel done out 0 false (skip_to_comma plain cp)
    else default

unfoldable pub skin : Bytes → Option Bytes
unfolding contains
skin name =
    if not (contains b'(' name || contains b'<' name || contains b' ' name)
    then some name
    else skin_loop (length name) [] [] 0 false name

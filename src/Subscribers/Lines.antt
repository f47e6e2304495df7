-- ===== src/Subscribers/Lines.antt =====
-- A subscriber file read as lines, and `find_subscriber` of src/subscriberfuncs.c against that reading.
use mlmmj.Base.{
  ℕ, ◌+◌, ◌≡◌, refl, true, Option, none, some, List, [], ◌∷◌, ◌++◌, arith, ◌==◌, if◌then◌else◌,
  Bytes, length, is_empty, append_assoc, length-append,
}
use mlmmj.CString.{case_eq, case_eq_n}
use mlmmj.Subscribers.{Opened, matches, scan, find_subscriber}

-- The lines of a file after the unfinished line `pre`; an unterminated last line counts.
abbrev pub lines_from : Bytes → Bytes → List Bytes
lines_from pre [] = if is_empty pre then [] else pre ∷ []
lines_from pre (c ∷ s) = if c == b'\n' then pre ∷ lines_from [] s else lines_from (pre ++ c ∷ []) s

abbrev pub lines : Bytes → List Bytes
lines s = lines_from [] s

abbrev pub unlines : List Bytes → Bytes
unlines [] = []
unlines (l ∷ ls) = l ++ (b'\n' ∷ unlines ls)

-- The offset of the first line that is the address, but for the case of letters.
unfoldable pub find_line : Bytes → ℕ → List Bytes → Option ℕ
find_line address off [] = none
find_line address off (l ∷ ls) =
    if case_eq address l then some off else find_line address (off + length l + 1) ls

-- `fstat`, `mmap` and the file type do not stand in the way.
pub record IsReadable (f : Opened) : Type 0 where
  pub stat : f.stat_ok ≡ true
  pub file : f.regular ≡ true
  pub mmap : f.mmap_ok ≡ true

matches_lem :
    (address pre next : Bytes) → matches address (pre ++ next) (length pre) ≡ case_eq address pre
unfolding matches case_eq case_eq_n
matches_lem [] [] next = refl
matches_lem [] (y ∷ pre) next = ground arith
matches_lem (x ∷ address) [] next = ground arith
matches_lem (x ∷ address) (y ∷ pre) next = ground (arith, matches_lem address pre next)

scan-lines :
    (address : Bytes) (start : ℕ) (pre next : Bytes)
    → scan address start (pre ++ next) (length pre) next
      ≡ find_line address start (lines_from pre next)
unfolding scan find_line
scan-lines address start [] [] = refl
scan-lines address start (p ∷ pre) [] = ground (arith, matches_lem address (p ∷ pre) [])
scan-lines address start pre (c ∷ next) = ground (
  arith,
  matches_lem address pre (c ∷ next),
  scan-lines address (start + length pre + 1) [] next,
  scan-lines address start (pre ++ c ∷ []) next,
  append_assoc pre (c ∷ []) next,
  length-append pre (c ∷ []),
)

-- In a readable file `find_subscriber` gives the offset of the first line that is the address but
-- for the case of letters, an unfinished last line included, and -1 where no line is.
pub find_subscriber-lines :
    (f : Opened) (address : Bytes)
    → IsReadable f
    → find_subscriber f address ≡ find_line address 0 (lines f.content)
find_subscriber-lines f address ok = go f.content refl
  where
    go : (s : Bytes) → f.content ≡ s → find_subscriber f address ≡ find_line address 0 (lines s)
    go [] e = unfold find_subscriber find_line in ground arith
    go (c ∷ s) e = unfold find_subscriber in ground (arith, scan-lines address 0 [] (c ∷ s))

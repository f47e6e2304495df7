-- ===== src/ControlFiles/Values.antt =====
-- What the control files of src/ctrlvalues.c and src/ctrlvalue.c say.
use mlmmj.Base.{
  ◌≡◌, refl, ap, false, some, List, [], ◌∷◌, ◌++◌, arith, ◌==◌, if◌then◌else◌, Bytes, is_empty, All,
  any,
}
use mlmmj.Headers.{chomp, cut_newlines, is_newline}
use mlmmj.ControlFiles.{getlines, getline, ctrlvalue, nonempty_lines, ctrlvalues}

-- A line, without the characters that end it.
abbrev pub IsLine : Bytes → Type 0
IsLine line = any is_newline line ≡ false

abbrev pub written : List Bytes → Bytes
written [] = []
written (line ∷ lines) = line ++ b'\n' ∷ written lines

abbrev pub without_empty : List Bytes → List Bytes
without_empty [] = []
without_empty (line ∷ lines) =
    if is_empty line then without_empty lines else line ∷ without_empty lines

pub getlines-line :
    (line s : Bytes)
    → IsLine line
    → getlines (line ++ b'\n' ∷ s) ≡ (line ++ b'\n' ∷ []) ∷ getlines s
unfolding getlines
getlines-line [] s h = refl
getlines-line (c ∷ line) s h =
    let inside : (c == b'\n') ≡ false = ground arith in
    rw (inside, getlines-line line s (ground arith)) refl

cut_newlines-line : (line : Bytes) → IsLine line → cut_newlines (line ++ b'\n' ∷ []) ≡ line
unfolding cut_newlines
cut_newlines-line [] h = refl
cut_newlines-line (c ∷ line) h =
    let inside : is_newline c ≡ false = ground arith in
    rw (cut_newlines-line line (ground arith), inside) refl

pub chomp-line : (line : Bytes) → IsLine line → chomp (line ++ b'\n' ∷ []) ≡ line
unfolding chomp cut_newlines
chomp-line [] h = refl
chomp-line (c ∷ line) h =
    let inside : is_newline c ≡ false = ground arith in
    rw (inside, cut_newlines-line line (ground arith)) refl

nonempty_lines-written :
    (lines : List Bytes)
    → All IsLine lines
    → nonempty_lines (getlines (written lines)) ≡ without_empty lines
unfolding nonempty_lines getlines
nonempty_lines-written [] h = refl
nonempty_lines-written (line ∷ lines) (h, hs) =
    rw
      (
        getlines-line line (written lines) h,
        chomp-line line h,
        nonempty_lines-written lines hs,
        nonempty_lines,
        without_empty,
        written,
      )
      refl

-- A control file that holds values, one in a line and with blank lines between them, gives these
-- values in their order.
ctrlvalues-written :
    (lines : List Bytes)
    → All IsLine lines
    → ctrlvalues (some (written lines)) ≡ some (without_empty lines)
unfolding ctrlvalues
ctrlvalues-written lines h = ap (λ v. some v) (nonempty_lines-written lines h)

-- The value is the first of the lines, be it blank.
pub ctrlvalue-written :
    (line : Bytes) (lines : List Bytes)
    → IsLine line
    → ctrlvalue (some (written (line ∷ lines))) ≡ some line
unfolding ctrlvalue getline
ctrlvalue-written line lines h =
    rw (getlines-line line (written lines) h, chomp-line line h, ctrlvalue, getline, written) refl

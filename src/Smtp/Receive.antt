-- ===== src/Smtp/Receive.antt =====
-- What an SMTP server reads of a mail that src/mail-functions.c prepared.
use mlmmj.CString.{peek, rest_of, str_eq, contains, strstr}
use mlmmj.Base.{
  ◌≡◌, refl, ◌∙◌, inl, inr, Bool, true, false, ◌&&◌, Option, none, some, List, [], ◌∷◌, ◌++◌,
  append_assoc, append-nil, arith, ◌==◌, if◌then◌else◌, Bool-cases, Bytes, codes, All,
}
use mlmmj.Subscribers.Lines.{unlines}
use mlmmj.Smtp.{prep_body, newlinebuf, dot, Prepared, get_prepped_mailbody_from_map}

-- A line as the server keeps it: without the dot that doubles its first one.
abbrev pub undouble : Bytes → Bytes
undouble line = if peek line == b'.' then rest_of line else line

abbrev pub with_line : Bytes → Option (List Bytes × Bytes) → Option (List Bytes × Bytes)
with_line line none = none
with_line line (some (ls, s)) = some (line ∷ ls, s)

-- The server of RFC 5321, section 4.5.2: the lines up to the one that is a single dot, and the bytes
-- behind it; `cr` holds after a carriage return that is not yet in the line.
unfoldable pub receive : Bool → Bytes → Bytes → Option (List Bytes × Bytes)
unfolding str_eq
receive cr line [] = none
receive cr line (c ∷ s) =
    let held = if cr then line ++ codes "\r" else line in
    let next = receive false [] s in
    let pending = receive true held s in
    let more = receive false (held ++ c ∷ []) s in
    if cr && c == b'\n'
    then (if str_eq line (codes ".") then some ([], s) else with_line (undouble line) next)
    else if c == b'\r'
    then pending
    else more

-- A line of a mail in the spool: neither of the two bytes that end lines is in it.
pub record IsText (l : Bytes) : Type 0 where
  pub cr : contains b'\r' l ≡ false
  pub lf : contains b'\n' l ≡ false

receive-text :
    (line l s : Bytes) → IsText l → receive false line (l ++ s) ≡ receive false (line ++ l) s
unfolding receive contains
receive-text line [] s h = rw (append-nil line) refl
receive-text line (c ∷ l) s h = ground (
  arith,
  h.cr,
  h.lf,
  receive-text (line ++ c ∷ []) l s
      (record { cr = ground (arith, h.cr); lf = ground (arith, h.lf) }),
  append_assoc line (c ∷ []) l,
)

receive-crlf :
    (line s : Bytes)
    → receive false line (codes "\r\n" ++ s) ≡ (
        if str_eq line (codes ".")
        then some ([], s)
        else with_line (undouble line) (receive false [] s))
unfolding receive str_eq
receive-crlf line s = refl

prep_body-text :
    (cur l next : Bytes)
    → contains b'\n' l ≡ false
    → prep_body cur (l ++ b'\n' ∷ next) ≡ (cur ++ l) ++ (newlinebuf next ++ prep_body [] next)
unfolding prep_body contains
prep_body-text cur [] next h = rw (append-nil cur) refl
prep_body-text cur (c ∷ l) next h =
    ground (
      arith,
      prep_body-text (cur ++ c ∷ []) l next (ground (arith, h)),
      append_assoc cur (c ∷ []) l,
    )

-- The dot in front of a line that has one.
abbrev pub doubling : Bytes → Bytes
doubling next = if peek next == b'.' then codes "." else []

newlinebuf-doubling : (next s : Bytes) → newlinebuf next ++ s ≡ codes "\r\n" ++ (doubling next ++ s)
newlinebuf-doubling next s = elim (Bool-cases (peek next == b'.')) [
  | inl k ↦ rw k refl
  | inr k ↦ rw k refl
]

doubling-line : (l s : Bytes) → doubling (l ++ b'\n' ∷ s) ≡ doubling l
doubling-line [] s = refl
doubling-line (c ∷ l) s = refl

receive-sent :
    (sent l s : Bytes)
    → IsText sent
    → str_eq sent (codes ".") ≡ false
    → undouble sent ≡ l
    → receive false [] (sent ++ (codes "\r\n" ++ s)) ≡ with_line l (receive false [] s)
receive-sent sent l s h e u =
    receive-text [] sent (codes "\r\n" ++ s) h ∙ (receive-crlf sent s ∙ rw (e, u) refl)

receive-line :
    (l s : Bytes)
    → IsText l
    → receive false [] (doubling l ++ (l ++ (codes "\r\n" ++ s))) ≡ with_line l (receive false [] s)
unfolding str_eq contains
receive-line [] s h = receive-crlf [] s
receive-line (c ∷ l) s h = elim (Bool-cases (c == b'.')) [
  | inl k ↦ rw k (
      receive-sent (b'.' ∷ c ∷ l) (c ∷ l) s
        (record { cr = ground (arith, h.cr); lf = ground (arith, h.lf) }) refl refl)
  | inr k ↦ rw k (receive-sent (c ∷ l) (c ∷ l) s h (rw k refl) (rw k refl))
]

receive-unlines :
    (ls : List Bytes) (more : Bytes)
    → All IsText ls
    → receive false [] (doubling (unlines ls) ++ (prep_body [] (unlines ls) ++ (dot ++ more)))
      ≡ some (ls ++ [] ∷ [], more)
unfolding prep_body receive str_eq
receive-unlines [] more h = refl
receive-unlines (l ∷ ls) more (h, hs) =
    rw
      (
        doubling-line l (unlines ls),
        prep_body-text [] l (unlines ls) h.lf,
        append_assoc l (newlinebuf (unlines ls) ++ prep_body [] (unlines ls)) (dot ++ more),
        append_assoc (newlinebuf (unlines ls)) (prep_body [] (unlines ls)) (dot ++ more),
        newlinebuf-doubling (unlines ls) (prep_body [] (unlines ls) ++ (dot ++ more)),
        receive-line l (doubling (unlines ls) ++ (prep_body [] (unlines ls) ++ (dot ++ more))) h,
        receive-unlines ls more hs,
      )
      refl

-- A server that reads the prepared body and the final dot gets the lines of the mail after its
-- headers: the empty line, every line as it stands in the mail, dots at its start included, and
-- one more empty line; and it reads nothing of what follows.
pub get_prepped_mailbody_from_map-receive :
    (mapped hdrs : Bytes) (ls : List Bytes)
    → strstr (codes "\n\n") mapped ≡ some (hdrs, codes "\n\n" ++ unlines ls)
    → All IsText ls
    → (p : Prepared) × (get_prepped_mailbody_from_map mapped ≡ some p)
      × ((more : Bytes)
          → receive false [] (p.text ++ (dot ++ more)) ≡ some ([] ∷ (ls ++ [] ∷ []), more))
unfolding get_prepped_mailbody_from_map contains
get_prepped_mailbody_from_map-receive mapped hdrs ls h hs =
    rw (h, get_prepped_mailbody_from_map)
      (_, refl, λ more. receive-unlines ([] ∷ ls) more (record { cr = refl; lf = refl }, hs))

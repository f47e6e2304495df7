-- ===== src/Smtp/Length.antt =====
-- The lengths that src/mail-functions.c gives the headers and the body of a mail.
use mlmmj.Base.{
  ◌+◌, ◌≡◌, refl, ap, inl, inr, some, [], ◌∷◌, ◌++◌, arith, ◌==◌, if◌then◌else◌, Bool-cases, Bytes,
  codes, length, length-append,
}
use mlmmj.Smtp.{
  prep_body, newlinebuf, Prepared, count_newlines, prep_headers, get_preppedhdrs_from_map,
  count_body, get_prepped_mailbody_from_map,
}
use mlmmj.CString.{peek, strstr}

-- What follows the last newline of a text, after the unfinished line `cur`.
abbrev pub unfinished : Bytes → Bytes → Bytes
unfinished cur [] = cur
unfinished cur (c ∷ next) =
    if c == b'\n' then unfinished [] next else unfinished (cur ++ c ∷ []) next

length-newlinebuf : (next : Bytes) → length (newlinebuf next) ≡ (if peek next == b'.' then 3 else 2)
length-newlinebuf next = elim (Bool-cases (peek next == b'.')) [
  | inl k ↦ rw k refl
  | inr k ↦ rw k refl
]

length-prep_body :
    (cur next : Bytes)
    → length cur + (length next + count_body next)
      ≡ length (prep_body cur next) + length (unfinished cur next)
unfolding prep_body count_body
length-prep_body cur [] = omega arith
length-prep_body cur (c ∷ next) = ground (
  arith,
  length-prep_body [] next,
  length-prep_body (cur ++ c ∷ []) next,
  length-append cur (c ∷ []),
  length-append cur (newlinebuf next ++ prep_body [] next),
  length-append (newlinebuf next) (prep_body [] next),
  length-newlinebuf next,
)

-- The length of the body counts bytes that were never written: as many as the mail has after its
-- last newline.
pub get_prepped_mailbody_from_map-len :
    (mapped hdrs body : Bytes)
    → strstr (codes "\n\n") mapped ≡ some (hdrs, b'\n' ∷ body)
    → (p : Prepared) × (get_prepped_mailbody_from_map mapped ≡ some p)
      × (p.len ≡ length p.text + length (unfinished [] body))
unfolding get_prepped_mailbody_from_map
get_prepped_mailbody_from_map-len mapped hdrs body h =
    rw (h, get_prepped_mailbody_from_map) (_, refl, omega (arith, length-prep_body [] body))

length-prep_headers :
    (cur next : Bytes)
    → length cur + (length next + count_newlines next)
      ≡ length (prep_headers cur next) + length (unfinished cur next)
unfolding prep_headers count_newlines
length-prep_headers cur [] = omega arith
length-prep_headers cur (c ∷ next) = ground (
  arith,
  length-prep_headers [] next,
  length-prep_headers (cur ++ c ∷ []) next,
  length-append cur (c ∷ []),
  length-append cur (codes "\r\n" ++ prep_headers [] next),
)

unfinished_terminated : (cur s : Bytes) → unfinished cur (s ++ b'\n' ∷ []) ≡ []
unfinished_terminated cur [] = refl
unfinished_terminated cur (c ∷ s) =
    ground (arith, unfinished_terminated [] s, unfinished_terminated (cur ++ c ∷ []) s)

-- The length of the headers is that of the text in the buffer.
pub get_preppedhdrs_from_map-len :
    (mapped hdrs endhdrs : Bytes)
    → strstr (codes "\n\n") mapped ≡ some (hdrs, endhdrs)
    → (p : Prepared) × (get_preppedhdrs_from_map mapped ≡ some p) × (p.len ≡ length p.text)
unfolding get_preppedhdrs_from_map
get_preppedhdrs_from_map-len mapped hdrs endhdrs h =
    rw (h, get_preppedhdrs_from_map)
      (
        _,
        refl,
        omega (
          arith,
          length-prep_headers [] (hdrs ++ b'\n' ∷ []),
          ap length (unfinished_terminated [] hdrs),
        ),
      )

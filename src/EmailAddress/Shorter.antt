-- ===== src/EmailAddress/Shorter.antt =====
-- The addresses of a header, src/find_email_adr.c: what the jumps of the loops leave is no longer than
-- what they start from, and a comma that is judged again leaves less text or fewer quotation marks.
use mlmmj.Base.{
  ℕ, zero, suc, ◌≤◌, ◌≡◌, ◌&&◌, inl, inr, some, [], ◌∷◌, ◌==◌, Bool-cases, Bytes, length, arith,
}
use mlmmj.CString.{strip_prefix}
use mlmmj.EmailAddress.{
  skip_comment, copy_quoted, Skipping, skipping, is_plain, skip_to_comma, skip_spaces,
}

pub length-skip_comment : (cp : Bytes) (nesting : ℕ) → length (skip_comment nesting cp) ≤ length cp
unfolding skip_comment
length-skip_comment cp zero = omega arith
length-skip_comment [] (suc n) = omega arith
length-skip_comment (c ∷ []) (suc n) = omega arith
length-skip_comment (c ∷ d ∷ cp) (suc n) = ground (
  arith,
  length-skip_comment cp (suc n),
  length-skip_comment (d ∷ cp) (suc (suc n)),
  length-skip_comment (d ∷ cp) n,
  length-skip_comment (d ∷ cp) (suc n),
)

pub length-copy_quoted : (cp : Bytes) → length ((copy_quoted cp).1) ≤ length cp
unfolding copy_quoted
length-copy_quoted [] = omega arith
length-copy_quoted (c ∷ []) = omega arith
length-copy_quoted (c ∷ d ∷ cp) = ground (arith, length-copy_quoted cp, length-copy_quoted (d ∷ cp))

pub length-skip_to_comma : (s : Skipping) (cp : Bytes) → length (skip_to_comma s cp) ≤ length cp
unfolding skip_to_comma
length-skip_to_comma s [] = omega arith
length-skip_to_comma s (c ∷ cp) =
    let shorter = length-skip_to_comma (skipping s c) cp in
    elim (Bool-cases (is_plain s && c == b',')) [
      | inl e ↦ rw e (omega arith)
      | inr e ↦ rw e (omega arith)
    ]

pub length-skip_spaces : (cp : Bytes) → length (skip_spaces cp) ≤ length cp
length-skip_spaces [] = omega arith
length-skip_spaces (c ∷ cp) = ground (arith, length-skip_spaces cp)

pub length-strip_prefix :
    (p s : Bytes) (r : Bytes) → strip_prefix p s ≡ some r → length r ≤ length s
unfolding strip_prefix
length-strip_prefix [] s r h = ground arith
length-strip_prefix (p ∷ ps) [] r h = cc
length-strip_prefix (p ∷ ps) (c ∷ s) r h = ground (arith, length-strip_prefix ps s r)

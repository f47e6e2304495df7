-- ===== src/Headers/Reading.antt =====
-- The headers that `gethdrline` of src/gethdrline.c gives, one after the other.
use mlmmj.Base.{
  ◌≡◌, refl, inl, inr, Option, none, some, List, [], ◌∷◌, ◌++◌, Bool-cases, Bytes, is_empty,
}
use mlmmj.Headers.{headers, gethdrline, headers_after, unfold_header, chomp, Header, continued}

-- The headers that are found with those that follow.
abbrev pub with_rest : Option Header × List Bytes → List Header × List Bytes
with_rest (none, lines) = ([], lines)
with_rest (some h, lines) = (h ∷ (headers lines).0, (headers lines).1)

headers_after-unfold_header :
    (retstr unfolded : Bytes) (lines : List Bytes)
    → headers_after retstr unfolded lines ≡ (
      (unfold_header retstr unfolded lines).0 ∷ (headers (unfold_header retstr unfolded lines).1).0,
      (headers (unfold_header retstr unfolded lines).1).1,
    )
unfolding headers_after unfold_header headers
headers_after-unfold_header retstr unfolded [] = refl
headers_after-unfold_header retstr unfolded (line ∷ lines) = elim (Bool-cases (continued line)) [
  | inl e ↦ rw e (headers_after-unfold_header (retstr ++ chomp line) (unfolded ++ line) lines)
  | inr e ↦ elim (Bool-cases (is_empty (chomp line))) [
    | inl m ↦ rw (e, m) refl
    | inr m ↦ rw (e, m) refl
  ]
]

-- The headers of a mail are what `gethdrline` gives first, and then what it gives on the rest of the
-- mail, up to NULL; the body is what is left behind them.
pub headers-gethdrline : (lines : List Bytes) → headers lines ≡ with_rest (gethdrline lines)
unfolding headers gethdrline
headers-gethdrline [] = refl
headers-gethdrline (line ∷ lines) = elim (Bool-cases (is_empty (chomp line))) [
  | inl e ↦ rw e refl
  | inr e ↦ rw e (headers_after-unfold_header (chomp line) line lines)
]

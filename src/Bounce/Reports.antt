-- ===== src/Bounce/Reports.antt =====
-- What mlmmj-bounce finds in a delivery report, src/mlmmj-bounce.c.
use mlmmj.Base.{
  ◌≡◌, refl, ap, inl, inr, true, false, some, List, [], ◌∷◌, ◌++◌, Bool-cases, Bytes, is_empty,
}
use mlmmj.Headers.{headers, headers_after, chomp, continued}
use mlmmj.Bounce.{search_dsn, dsnparseaddr}

-- The headers of a mail end at its first empty line.
headers_after-blank :
    (retstr unfolded : Bytes) (lines body other : List Bytes) (blank : Bytes)
    → is_empty (chomp blank) ≡ true
    → continued blank ≡ false
    → (headers_after retstr unfolded (lines ++ blank ∷ body)).0
      ≡ (headers_after retstr unfolded (lines ++ blank ∷ other)).0
unfolding headers_after
headers_after-blank retstr unfolded [] body other blank e f = rw (e, f) refl
headers_after-blank retstr unfolded (line ∷ lines) body other blank e f =
    let more =
      headers_after-blank (retstr ++ chomp line) (unfolded ++ line) lines body other blank e f in
    let next = headers_after-blank (chomp line) line lines body other blank e f in
    elim (Bool-cases (continued line)) [
      | inl c ↦ rw c more
      | inr c ↦ elim (Bool-cases (is_empty (chomp line))) [
        | inl m ↦ rw (c, m) refl
        | inr m ↦ rw (c, m) (ap (λ hs. (retstr, unfolded) ∷ hs) next)
      ]
    ]

-- The program looks for the recipient of a delivery report in the headers of the mail only: whatever stands
-- behind the first empty line, the report itself included, changes nothing of the answer.
dsnparseaddr-body :
    (lines body other : List Bytes) (blank : Bytes)
    → is_empty (chomp blank) ≡ true
    → continued blank ≡ false
    → dsnparseaddr (some (lines ++ blank ∷ body)) ≡ dsnparseaddr (some (lines ++ blank ∷ other))
unfolding dsnparseaddr headers
dsnparseaddr-body [] body other blank e f = rw e refl
dsnparseaddr-body (line ∷ lines) body other blank e f = elim (Bool-cases (is_empty (chomp line))) [
  | inl m ↦ rw m refl
  | inr m ↦
      rw m
        (ap (search_dsn false) (headers_after-blank (chomp line) line lines body other blank e f))
]

-- ===== src/Texts/Standard.antt =====
-- The standard headers that are left of a mail, `prepstdreply` of src/prepstdreply.c.
use mlmmj.Base.{
  ℕ, ◌+◌, ◌≡◌, refl, sym, ap, ◌∙◌, inl, inr, true, false, none, some, List, [], ◌∷◌, ◌++◌, arith,
  ◌==◌, if◌then◌else◌, Bool-cases, Bytes, length, All,
}
use mlmmj.CString.{tolower, case_eq, case_eq_n, strchr, contains}
use mlmmj.CString.Search.{strchr-parts}
use mlmmj.Texts.Headers.{remove_header}

-- The name of a header.
abbrev pub field : Bytes → Bytes
field header = elim (strchr b':' header) [ none ↦ header | some (name, value) ↦ name ]

-- Headers with different names.
abbrev pub Distinct : List Bytes → Type 0
Distinct [] = Unit
Distinct (header ∷ headers) =
    All (λ other. case_eq (field header) (field other) ≡ false) headers × Distinct headers

-- A header with its name and its value.
abbrev pub IsNamed : Bytes → Type 0
IsNamed header = (parts : Bytes × Bytes) × (strchr b':' header ≡ some parts)

-- The headers whose names are not the given one.
unfoldable pub without : Bytes → List Bytes → List Bytes
unfolding strchr case_eq
without name [] = []
without name (header ∷ headers) =
    let others = without name headers in
    if case_eq name (field header) then others else header ∷ others

case_eq_replace : (a b c : Bytes) → case_eq a b ≡ true → case_eq a c ≡ case_eq b c
unfolding case_eq
case_eq_replace [] [] c h = refl
case_eq_replace [] (y ∷ b) c h = absurd (cc)
case_eq_replace (x ∷ a) [] c h = absurd (cc)
case_eq_replace (x ∷ a) (y ∷ b) [] h = refl
case_eq_replace (x ∷ a) (y ∷ b) (z ∷ c) h = ground (arith, case_eq_replace a b c)

-- A character other than a colon is none in lower case.
tolower_lem : (x : ℕ) → (x == b':') ≡ false → (b':' == tolower x) ≡ false
unfolding tolower
tolower_lem x h = ground arith

pub case_eq_n_field :
    (a c b d : Bytes)
    → contains b':' a ≡ false
    → contains b':' c ≡ false
    → case_eq_n (length a + 1) (a ++ b':' ∷ b) (c ++ b':' ∷ d) ≡ case_eq a c
unfolding case_eq_n case_eq contains tolower
case_eq_n_field [] [] b d fa fc = refl
case_eq_n_field [] (y ∷ c) b d fa fc = ground arith
case_eq_n_field (x ∷ a) [] b d fa fc = ground arith
case_eq_n_field (x ∷ a) (y ∷ c) b d fa fc = ground (arith, case_eq_n_field a c b d)

field-strchr :
    (header : Bytes) (parts : Bytes × Bytes)
    → strchr b':' header ≡ some parts
    → field header ≡ parts.0
field-strchr header parts e = rw (field, e) refl

without_absent :
    (name : Bytes) (headers : List Bytes)
    → All (λ other. case_eq name (field other) ≡ false) headers
    → without name headers ≡ headers
unfolding without
without_absent name [] h = refl
without_absent name (header ∷ headers) (h, hs) =
    rw (without, h, without_absent name headers hs) refl

absent_replace :
    (name known : Bytes) (headers : List Bytes)
    → case_eq name known ≡ true
    → All (λ other. case_eq known (field other) ≡ false) headers
    → All (λ other. case_eq name (field other) ≡ false) headers
absent_replace name known [] same h = tt
absent_replace name known (header ∷ headers) same (h, hs) =
    (case_eq_replace name known (field header) same ∙ h, absent_replace name known headers same hs)

-- A header of the text takes out the standard header of its name.
pub remove_header-without :
    (line : Bytes) (parts : Bytes × Bytes) (headers : List Bytes)
    → strchr b':' line ≡ some parts
    → All IsNamed headers
    → Distinct headers
    → remove_header (length parts.0 + 1) line headers ≡ without parts.0 headers
unfolding remove_header without
remove_header-without line parts [] e named distinct = refl
remove_header-without line parts (header ∷ headers) e ((known, k), named) (fresh, distinct) =
    let (at, free) = strchr-parts b':' line parts.0 parts.1 e in
    let (known_at, known_free) = strchr-parts b':' header known.0 known.1 k in
    let its_name : field header ≡ known.0 = field-strchr header known k in
    let compared : case_eq_n (length parts.0 + 1) line header ≡ case_eq parts.0 (field header) =
      rw (at, known_at) (case_eq_n_field parts.0 known.0 parts.1 known.1 free known_free)
      ∙ ap (case_eq parts.0) (sym its_name) in
    elim (Bool-cases (case_eq parts.0 (field header))) [
      | inl same ↦
          rw (remove_header, without, compared, same)
            (sym (
              without_absent parts.0 headers
                (absent_replace parts.0 (field header) headers same fresh)))
      | inr other ↦
          rw (remove_header, without, compared, other)
            (ap (λ hs. header ∷ hs) (remove_header-without line parts headers e named distinct))
    ]

pub without-All {ℓ} :
    (P : Bytes → Type ℓ) (name : Bytes) (headers : List Bytes)
    → All P headers
    → All P (without name headers)
unfolding without
without-All P name [] h = tt
without-All P name (header ∷ headers) (h, hs) = elim (Bool-cases (case_eq name (field header))) [
  | inl e ↦ rw (without, e) (without-All P name headers hs)
  | inr e ↦ rw (without, e) (h, without-All P name headers hs)
]

pub without-Distinct :
    (name : Bytes) (headers : List Bytes) → Distinct headers → Distinct (without name headers)
unfolding without
without-Distinct name [] h = tt
without-Distinct name (header ∷ headers) (h, hs) = elim (Bool-cases (case_eq name (field header))) [
  | inl e ↦ rw (without, e) (without-Distinct name headers hs)
  | inr e ↦
      rw (without, e)
        (
          without-All (λ other. case_eq (field header) (field other) ≡ false) name headers h,
          without-Distinct name headers hs,
        )
]

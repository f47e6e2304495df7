-- ===== src/CString/Search.antt =====
-- What the searches of the C library find. It models no code.
use mlmmj.Base.{
  ℕ, ◌≡◌, refl, ap, inl, inr, false, ◌||◌, none, some, [], ◌∷◌, ◌++◌, arith, ◌==◌, ==_refl,
  Bool-cases, Option-cases, Bytes,
}
use mlmmj.CString.{strchr, contains, strrchr}

pub strchr-parts :
    (c : ℕ) (s a b : Bytes) → strchr c s ≡ some (a, b) → (s ≡ a ++ c ∷ b) × (contains c a ≡ false)
unfolding strchr contains
strchr-parts c [] a b h = absurd (cc)
strchr-parts c (x ∷ s) a b h = elim (Bool-cases (x == c)) [
  | inl e ↦
      let first : a ≡ [] = ground arith in
      let rest : b ≡ s = ground arith in
      let same : x ≡ c = ground arith in rw (first, rest, same) (refl, refl)
  | inr e ↦ elim (Option-cases (strchr c s)) [
    | inl k ↦ absurd (ground arith)
    | inr ((a', b'), k) ↦
        let first : a ≡ x ∷ a' = ground arith in
        let rest : b ≡ b' = ground arith in
        let (parts, free) = strchr-parts c s a' b' k in
        rw (first, rest) (ap (λ t. x ∷ t) parts, rw e free)
  ]
]

pub strchr-free : (c : ℕ) (s : Bytes) → contains c s ≡ false → strchr c s ≡ none
unfolding strchr contains
strchr-free c [] h = refl
strchr-free c (x ∷ s) h = elim (Bool-cases (x == c)) [
  | inl e ↦ absurd (ground arith)
  | inr e ↦ rw (e, strchr-free c s (ground arith)) refl
]

pub strchr_first :
    (c : ℕ) (a b : Bytes) → contains c a ≡ false → strchr c (a ++ c ∷ b) ≡ some (a, b)
unfolding strchr contains
strchr_first c [] b h = rw (==_refl c) refl
strchr_first c (x ∷ a) b h = elim (Bool-cases (x == c)) [
  | inl e ↦ absurd (ground arith)
  | inr e ↦ rw (e, strchr_first c a b (ground arith)) refl
]

pub contains_append : (c : ℕ) (a b : Bytes) → contains c (a ++ b) ≡ (contains c a || contains c b)
unfolding contains
contains_append c [] b = refl
contains_append c (x ∷ a) b = ground (arith, contains_append c a b)

pub strrchr-none : (c : ℕ) (b : Bytes) → contains c b ≡ false → strrchr c b ≡ none
unfolding strrchr contains
strrchr-none c [] h = refl
strrchr-none c (x ∷ b) h = ground (arith, strrchr-none c b)

pub strrchr_last :
    (c : ℕ) (a b : Bytes) → contains c b ≡ false → strrchr c (a ++ c ∷ b) ≡ some (a, b)
unfolding strrchr contains
strrchr_last c [] b h = ground (arith, strrchr-none c b h)
strrchr_last c (x ∷ a) b h = ground (arith, strrchr_last c a b h)

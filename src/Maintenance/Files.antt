-- ===== src/Maintenance/Files.antt =====
-- The files of the directory bounce/, for src/mlmmj-maintd.c.
use mlmmj.Base.{
  ℕ, ◌≡◌, refl, sym, ap, ◌∙◌, inl, inr, true, false, none, some, [], ◌∷◌, ◌++◌, arith, ◌==◌,
  ==_refl, &&-right, Bool-cases, Bytes, codes,
}
use mlmmj.CString.{str_eq, contains, strrchr}
use mlmmj.CString.Search.{strrchr_last}
use mlmmj.Maintenance.{Dir, lookup, remove, is_probe}

pub str_eq-≡ : (a b : Bytes) → str_eq a b ≡ true → a ≡ b
unfolding str_eq
str_eq-≡ [] [] h = refl
str_eq-≡ [] (y ∷ b) h = absurd (cc)
str_eq-≡ (x ∷ a) [] h = absurd (cc)
str_eq-≡ (x ∷ a) (y ∷ b) h =
    let first : x ≡ y = ground arith in
    let later : a ≡ b = str_eq-≡ a b (&&-right (x == y) (str_eq a b) h) in rw (first, later) refl

pub str_eq_refl : (a : Bytes) → str_eq a a ≡ true
unfolding str_eq
str_eq_refl [] = refl
str_eq_refl (x ∷ a) = rw (==_refl x, str_eq_refl a) refl

pub lookup-remove : (name : Bytes) (dir : Dir) → lookup name (remove name dir) ≡ none
unfolding lookup remove
lookup-remove name [] = refl
lookup-remove name ((file, content) ∷ dir) = elim (Bool-cases (str_eq file name)) [
  | inl e ↦ rw e (lookup-remove name dir)
  | inr e ↦ rw (e, e) (lookup-remove name dir)
]

pub lookup-remove_other :
    (name other : Bytes) (dir : Dir)
    → str_eq other name ≡ false
    → lookup name (remove other dir) ≡ lookup name dir
unfolding lookup remove
lookup-remove_other name other [] h = refl
lookup-remove_other name other ((file, content) ∷ dir) h =
    let later = lookup-remove_other name other dir h in
    elim (Bool-cases (str_eq file other)) [
      | inl e ↦
          let same : file ≡ other = str_eq-≡ file other e in
          let apart : str_eq file name ≡ false = rw same h in rw (e, apart) later
      | inr e ↦ elim (Bool-cases (str_eq file name)) [
        | inl k ↦ rw (e, k) refl
        | inr k ↦ rw (e, k) later
      ]
    ]

-- What is found after a removal was there before it.
pub lookup-remove-some :
    (name other content : Bytes) (dir : Dir)
    → lookup name (remove other dir) ≡ some content
    → lookup name dir ≡ some content
lookup-remove-some name other content dir h = elim (Bool-cases (str_eq other name)) [
  | inl e ↦
      let same : other ≡ name = str_eq-≡ other name e in
      let nothing : lookup name (remove other dir) ≡ none = rw same (lookup-remove name dir) in
      absurd (cc)
  | inr e ↦ sym (lookup-remove_other name other dir e) ∙ h
]

-- The name of a probe is no name of a kept mail, and no name without a probe.
abbrev last_char : Bytes → ℕ
last_char [] = 0
last_char (c ∷ []) = c
last_char (c ∷ d ∷ s) = last_char (d ∷ s)

last_char_append : (a b : Bytes) (c : ℕ) → last_char (a ++ c ∷ b) ≡ last_char (c ∷ b)
last_char_append [] b c = refl
last_char_append (x ∷ []) b c = refl
last_char_append (x ∷ y ∷ a) b c = last_char_append (y ∷ a) b c

pub probe-lastmsg : (a b : Bytes) → str_eq (a ++ codes ".lastmsg") (b ++ codes "-probe") ≡ false
probe-lastmsg a b = elim (Bool-cases (str_eq (a ++ codes ".lastmsg") (b ++ codes "-probe"))) [
  | inl e ↦
      let same : a ++ codes ".lastmsg" ≡ b ++ codes "-probe" = str_eq-≡ _ _ e in
      let ends : last_char (a ++ codes ".lastmsg") ≡ last_char (b ++ codes "-probe") =
        ap last_char same in
      let g : last_char (a ++ codes ".lastmsg") ≡ b'g' =
        last_char_append a (codes "lastmsg") b'.' in
      let p : last_char (b ++ codes "-probe") ≡ b'e' = last_char_append b (codes "probe") b'-' in
      absurd (omega arith)
  | inr e ↦ e
]

pub is_probe-probe : (name : Bytes) → is_probe (name ++ codes "-probe") ≡ true
unfolding is_probe contains str_eq
is_probe-probe name =
    let last : strrchr b'-' (name ++ codes "-probe") ≡ some (name, codes "probe") =
      strrchr_last b'-' name (codes "probe") refl in
    ground arith

pub probe-other : (a b : Bytes) → is_probe a ≡ false → str_eq a (b ++ codes "-probe") ≡ false
probe-other a b h = elim (Bool-cases (str_eq a (b ++ codes "-probe"))) [
  | inl e ↦ let same : is_probe a ≡ true = rw (str_eq-≡ a _ e) (is_probe-probe b) in absurd (cc)
  | inr e ↦ e
]

-- ===== src/Texts/Holding.antt =====
-- What is kept and what is cut out of a line with skipped text, `get_processed_text_line` of src/prepstdreply.c.
use mlmmj.Base.{
  ℕ, ◌≤◌, ◌≡◌, refl, sym, ap, ◌∙◌, inl, inr, false, Option, none, some, [], ◌∷◌, ◌++◌, append_assoc,
  append-nil, arith, ◌==◌, Bool-cases, Option-cases, Bytes, length, take,
}
use mlmmj.Texts.Conditionals.{Conds}
use mlmmj.Texts.Sources.{Text, Position}
use mlmmj.Texts.Line.{Scanning, adjust_len, cut_skipped, start_wrapping, skipping}

-- What is kept of the line, with what is skipped behind it.
abbrev pub Held : Option ℕ → Bytes → Scanning → Type 0
Held none out r = (r.incision ≡ none) × (r.at.before ≡ out)
Held (some k) out r =
    (r.incision ≡ some (length out)) × (junk : Bytes) × (r.at.before ≡ out ++ junk)

abbrev pub open_at : Text → Conds → Text
open_at t c = record t { conds = c }

-- Scanning that has come to `behind` with these conditionals open, and kept `out` of the line.
abbrev pub Stands : Text → Conds → Bytes → Bytes → Scanning → Type 0
Stands t c out behind r =
    (r.at.text ≡ open_at t c)
    × (r.at.after ≡ behind)
    × (r.at.skipwhite ≡ false)
    × (r.peeking ≡ false)
    × Held c.skip out r

pub take_out : (out junk : Bytes) → take (length out) (out ++ junk) ≡ out
take_out [] junk = refl
take_out (c ∷ out) junk = ap (λ s. c ∷ s) (take_out out junk)

pub Held-cut_skipped :
    (before after : Option ℕ) (out : Bytes) (r : Scanning)
    → r.at.text.conds.skip ≡ after
    → Held before out r
    → Held after out (cut_skipped r)
Held-cut_skipped none none out r e (i, b) = rw (e, i) (i, b)
Held-cut_skipped none (some k) out r e (i, b) =
    rw (e, i) (ap (λ s. some (length s)) b, [], b ∙ sym (append-nil out))
Held-cut_skipped (some j) none out r e (i, junk, b) =
    rw (e, i) (refl, ap (take (length out)) b ∙ take_out out junk)
Held-cut_skipped (some j) (some k) out r e (i, junk, b) = rw (e, i) (i, junk, b)

pub cut_skipped-at :
    (r : Scanning)
    → ((cut_skipped r).at.text ≡ r.at.text)
      × ((cut_skipped r).at.after ≡ r.at.after)
      × ((cut_skipped r).at.skipwhite ≡ r.at.skipwhite)
      × ((cut_skipped r).peeking ≡ r.peeking)
cut_skipped-at r = elim (Bool-cases (skipping r)) [
  | inl e ↦ elim (Option-cases r.incision) [
    | inl i ↦ rw (e, i) (refl, refl, refl, refl)
    | inr (k, i) ↦ rw (e, i) (refl, refl, refl, refl)
  ]
  | inr e ↦ elim (Option-cases r.incision) [
    | inl i ↦ rw (e, i) (refl, refl, refl, refl)
    | inr (k, i) ↦ rw (e, i) (refl, refl, refl, refl)
  ]
]

-- The end of a round behind a directive changes nothing but what is needed for wrapping.
abbrev pub Alike : Scanning → Scanning → Type 0
Alike r r1 = (r1.at ≡ r.at) × (r1.incision ≡ r.incision) × (r1.peeking ≡ r.peeking)

pub adjust_len-Alike : (r : Scanning) → Alike r (adjust_len r)
adjust_len-Alike r = elim (Bool-cases (r.len == length r.at.before)) [
  | inl e ↦ rw e (refl, refl, refl)
  | inr e ↦ rw e (refl, refl, refl)
]

pub start_wrapping-Alike : (r : Scanning) → Alike r (start_wrapping r)
start_wrapping-Alike r = elim (Option-cases r.wrapindentlen) [
  | inr (k, i) ↦ rw i (refl, refl, refl)
  | inl i ↦ elim (Bool-cases (r.at.text.wrapwidth == 0)) [
    | inl e ↦ rw (i, e) (refl, refl, refl)
    | inr e ↦ rw (i, e) (refl, refl, refl)
  ]
]

pub Held-same :
    (skip : Option ℕ) (out : Bytes) (r r1 : Scanning)
    → r1.at.before ≡ r.at.before
    → r1.incision ≡ r.incision
    → Held skip out r
    → Held skip out r1
Held-same none out r r1 p i (free, b) = (i ∙ free, p ∙ b)
Held-same (some k) out r r1 p i (incised, junk, b) = (i ∙ incised, junk, p ∙ b)

pub Held-Alike :
    (skip : Option ℕ) (out : Bytes) (r r1 : Scanning)
    → Alike r r1
    → Held skip out r
    → Held skip out r1
Held-Alike skip out r r1 (p, i, _) held =
    Held-same skip out r r1 (ap (λ (q : Position). q.before) p) i held

-- What is kept when text is passed.
abbrev pub kept : Option ℕ → Bytes → Bytes → Bytes
kept none out text = out ++ text
kept (some k) out text = out

pub kept_nothing : (skip : Option ℕ) (out : Bytes) → kept skip out [] ≡ out
kept_nothing none out = append-nil out
kept_nothing (some k) out = refl

pub kept_first :
    (skip : Option ℕ) (out : Bytes) (x : ℕ) (text : Bytes)
    → kept skip (kept skip out (x ∷ [])) text ≡ kept skip out (x ∷ text)
kept_first none out x text = append_assoc out (x ∷ []) text
kept_first (some k) out x text = refl

pub Held-kept :
    (skip : Option ℕ) (out text : Bytes) (r r1 : Scanning)
    → r1.at.before ≡ r.at.before ++ text
    → r1.incision ≡ r.incision
    → Held skip out r
    → Held skip (kept skip out text) r1
Held-kept none out text r r1 p i (free, b) = (i ∙ free, p ∙ ap (λ s. s ++ text) b)
Held-kept (some k) out text r r1 p i (incised, junk, b) =
    (i ∙ incised, junk ++ text, p ∙ ap (λ s. s ++ text) b ∙ append_assoc out junk text)

pub length-behind : (token more : Bytes) → length more ≤ length (token ++ b'%' ∷ more)
length-behind [] more = omega arith
length-behind (c ∷ token) more = omega (arith, length-behind token more)

-- ===== src/Texts/Branching.antt =====
-- The steps of the loop over the characters of a line at conditionals, src/prepstdreply.c.
use mlmmj.Base.{
  ℕ, ◌<◌, ◌≡◌, refl, ap, ◌∙◌, inl, inr, Bool, true, false, not, ◌&&◌, Option, none, some, List, [],
  ◌∷◌, ◌++◌, append-nil, arith, ◌==◌, ==_refl, if◌then◌else◌, Bool-cases, Bytes, codes, length,
}
use mlmmj.CString.{contains}
use mlmmj.Texts.{Site}
use mlmmj.Texts.Conditionals.{Cond, Conds, is_skipping, open_cond, else_cond, end_cond}
use mlmmj.Texts.Sources.{Text}
use mlmmj.Texts.Directives.{dealt, deal_with}
use mlmmj.Texts.Line.{Scanning, is_transparent}
use mlmmj.Texts.Nodes.{Query, token_of, directive, About, is_chosen, IsName}
use mlmmj.Texts.Dealing.{
  IsAbout, moved, token_of-free, opening_shown, opening_skipped, else_dealt, endif_dealt,
}
use mlmmj.Texts.Holding.{Stands}
use mlmmj.Texts.Stepping.{Goes, Goes-directive}

abbrev pub conds : List Cond → Option ℕ → Conds
conds stack skip = record { stack = stack; skip = skip }

abbrev pub opened : Bool → Cond
opened b = record { satisfied = b; elsepart = false }

abbrev pub elsed : Bool → Cond
elsed b = record { satisfied = b; elsepart = true }

-- Which part of an open conditional is skipped.
abbrev pub shut : Bool → List Cond → Option ℕ
shut b stack = if b then none else some (length stack)

pub open_hidden :
    (stack : List Cond) (k : ℕ)
    → open_cond true (conds stack (some k)) ≡ conds (opened true ∷ stack) (some k)
unfolding open_cond
open_hidden stack k = refl

pub either :
    (b : Bool) (out first second : Bytes)
    → (out ++ (if b then first else [])) ++ (if not b then second else [])
      ≡ out ++ (if b then first else second)
either true out first second = append-nil (out ++ first)
either false out first second = ap (λ s. s ++ second) (append-nil out)

module _ (stack : List Cond) (b : Bool) where
  pub open_visible : open_cond b (conds stack none) ≡ conds (opened b ∷ stack) (shut b stack)
  unfolding open_cond
  open_visible = elim (Bool-cases b) [
    | inl e ↦ rw (open_cond, e) refl
    | inr e ↦ rw (open_cond, e) refl
  ]

  pub else_shut :
      else_cond (conds (opened b ∷ stack) (shut b stack))
      ≡ some (conds (elsed b ∷ stack) (shut (not b) stack))
  unfolding else_cond
  else_shut = elim (Bool-cases b) [
    | inl e ↦ rw (else_cond, e) refl
    | inr e ↦ rw (else_cond, e, ==_refl (length stack)) refl
  ]

  pub else_hidden :
      (k : ℕ)
      → k < length stack
      → else_cond (conds (opened b ∷ stack) (some k)) ≡ some (conds (elsed b ∷ stack) (some k))
  unfolding else_cond
  else_hidden k h =
      let elsewhere : (k == length stack) ≡ false = ground arith in rw (else_cond, elsewhere) refl

module _ (stack : List Cond) (top : Cond) where
  abbrev pub swallowed : Bool
  swallowed = not top.satisfied && not top.elsepart

  pub end_shut :
      (b : Bool)
      → end_cond (conds (top ∷ stack) (shut b stack)) ≡ some (conds stack none, swallowed)
  unfolding end_cond
  end_shut b = elim (Bool-cases b) [
    | inl e ↦ rw (end_cond, e) refl
    | inr e ↦ rw (end_cond, e, ==_refl (length stack)) refl
  ]

  pub end_hidden :
      (k : ℕ)
      → k < length stack
      → end_cond (conds (top ∷ stack) (some k)) ≡ some (conds stack (some k), swallowed)
  unfolding end_cond
  end_hidden k h =
      let elsewhere : (k == length stack) ≡ false = ground arith in rw (end_cond, elsewhere) refl

module _ (site : Site) (t : Text) (unwrapped : t.wrapwidth ≡ 0) (opaque : is_transparent t ≡ false)
    (a : About) (about : IsAbout a t) where
  abbrev pub Comes : Scanning → Conds → Bytes → Bytes → Type 0
  Comes r c out behind = Goes site t unwrapped opaque r c out behind

  pub comes_directive :
      (r : Scanning) (c c' : Conds) (out token more : Bytes) (swallow : Bool)
      → Stands t c out (directive token more) r
      → contains b'%' token ≡ false
      → (r.at.text.conds ≡ c → deal_with site r.at token more ≡ dealt (moved r.at c' more) swallow)
      → Comes r c' out more
  comes_directive r c c' out token more swallow stands free e =
      Goes-directive site t unwrapped opaque r c c' out token more swallow stands free
        (e (ap (λ u. u.conds) stands.0))

  module _ (r : Scanning) (c : Conds) (out more : Bytes) where
    pub comes_opened :
        (q : Query) (c' : Conds)
        → is_skipping c ≡ false
        → open_cond (is_chosen site a q) c ≡ c'
        → IsName q.name
        → Stands t c out (directive (token_of q) more) r
        → Comes r c' out more
    comes_opened q c' visible e name stands =
        comes_directive r c c' out (token_of q) more false stands (token_of-free q name) λ now.
          let (text, _, _, _, _) = stands in
          let (by_action, by_reason, by_type) = about in
          opening_shown site r.at more a q
            (
              ap (λ u. u.action) text ∙ by_action,
              ap (λ u. u.reason) text ∙ by_reason,
              ap (λ u. u.type) text ∙ by_type,
            )
            name (ap is_skipping now ∙ visible)
          ∙ ap (λ d. dealt (moved r.at d more) false) (ap (open_cond (is_chosen site a q)) now ∙ e)

    pub comes_skipped :
        (q : Query) (c' : Conds)
        → is_skipping c ≡ true
        → open_cond true c ≡ c'
        → IsName q.name
        → Stands t c out (directive (token_of q) more) r
        → Comes r c' out more
    comes_skipped q c' hidden e name stands =
        comes_directive r c c' out (token_of q) more false stands (token_of-free q name) λ now.
          opening_skipped site r.at more q name (ap is_skipping now ∙ hidden)
          ∙ ap (λ d. dealt (moved r.at d more) false) (ap (open_cond true) now ∙ e)

    pub comes_else :
        (c' : Conds)
        → else_cond c ≡ some c'
        → Stands t c out (directive (codes "else") more) r
        → Comes r c' out more
    unfolding contains
    comes_else c' e stands =
        comes_directive r c c' out (codes "else") more false stands refl
          λ now. else_dealt site r.at more c' (ap else_cond now ∙ e)

    pub comes_endif :
        (c' : Conds) (swallow : Bool)
        → end_cond c ≡ some (c', swallow)
        → Stands t c out (directive (codes "endif") more) r
        → Comes r c' out more
    unfolding contains
    comes_endif c' swallow e stands =
        comes_directive r c c' out (codes "endif") more swallow stands refl
          λ now. endif_dealt site r.at more c' swallow (ap end_cond now ∙ e)

  -- A part of a conditional is to be seen or skipped.
  pub by_part :
      (b : Bool) (r : Scanning) (top : Cond) (stack : List Cond) (out text behind more : Bytes)
      → (Stands t (conds (top ∷ stack) none) out behind r
          → Comes r (conds (top ∷ stack) none) (out ++ text) more)
      → (Stands t (conds (top ∷ stack) (some (length stack))) out behind r
          → Comes r (conds (top ∷ stack) (some (length stack))) out more)
      → Stands t (conds (top ∷ stack) (shut b stack)) out behind r
      → Comes r (conds (top ∷ stack) (shut b stack)) (out ++ (if b then text else [])) more
  by_part true r top stack out text behind more visible hidden stands = visible stands
  by_part false r top stack out text behind more visible hidden stands =
      rw (append-nil out) (hidden stands)

-- ===== src/Texts/Ending.antt =====
-- When `substitute` of src/prepstdreply.c ends, and what it gives.
use mlmmj.Base.{
  ℕ, zero, suc, ◌≤◌, ◌<◌, ◌≡◌, refl, sym, ap, ◌∙◌, ◌⊎◌, inl, inr, false, Option, none, some, List,
  [], ◌∷◌, ◌++◌, append_assoc, append-nil, arith, ◌==◌, if◌then◌else◌, Bool-cases, Option-cases,
  Bytes, codes, length, length-append, All,
}
use mlmmj.CString.{str_eq, contains}
use mlmmj.CString.Search.{strchr-free, strchr_first, contains_append}
use mlmmj.Texts.{
  Site, Substs, value_of, substitute_one, unfinished, done, substitute_from, substitute,
}
use mathlib.Core.Path.{subst}

-- A line, cut at each `$`.
unfoldable pub cut_dollars : Bytes → Bytes × List Bytes
cut_dollars [] = ([], [])
cut_dollars (c ∷ s) =
    let (piece, pieces) = cut_dollars s in
    if c == b'$' then ([], piece ∷ pieces) else (c ∷ piece, pieces)

abbrev pub join_dollars : Bytes → List Bytes → Bytes
join_dollars piece [] = piece
join_dollars piece (next ∷ pieces) = piece ++ b'$' ∷ join_dollars next pieces

abbrev pub Free : Bytes → Type 0
Free s = contains b'$' s ≡ false

join_dollars_cons :
    (c : ℕ) (piece : Bytes) (pieces : List Bytes)
    → join_dollars (c ∷ piece) pieces ≡ c ∷ join_dollars piece pieces
join_dollars_cons c piece [] = refl
join_dollars_cons c piece (next ∷ pieces) = refl

join-cut_dollars :
    (s : Bytes)
    → (join_dollars (cut_dollars s).0 (cut_dollars s).1 ≡ s)
      × Free (cut_dollars s).0
      × All Free (cut_dollars s).1
unfolding cut_dollars contains
join-cut_dollars [] = (refl, refl, tt)
join-cut_dollars (c ∷ s) =
    let (e, free, frees) = join-cut_dollars s in
    elim (Bool-cases (c == b'$')) [
      | inl k ↦
          let same : c ≡ b'$' = ground arith in
          rw (k, e) (ap (λ d. d ∷ s) (sym same), refl, (free, frees))
      | inr k ↦
          let first : Free (c ∷ (cut_dollars s).0) = ground arith in
          rw k (
            join_dollars_cons c (cut_dollars s).0 (cut_dollars s).1 ∙ ap (λ t. c ∷ t) e,
            first,
            frees,
          )
    ]

-- One pass over the line: the text between two `$` is replaced by its value where it has one, and what it is
-- replaced by is not looked at again.
module _ (s : Site) (substs : Substs) (value : Bytes → Option Bytes) where
  unfoldable pub expand : Bytes → List Bytes → Bytes
  expand piece [] = piece
  expand piece (token ∷ []) = piece ++ b'$' ∷ token
  expand piece (token ∷ next ∷ pieces) =
      let unknown = expand token (next ∷ pieces) in
      let known = expand next pieces in
      elim (value token) [ none ↦ piece ++ b'$' ∷ unknown | some v ↦ piece ++ (v ++ known) ]

  expand_append :
      (v piece : Bytes) (pieces : List Bytes)
      → expand (v ++ piece) pieces ≡ v ++ expand piece pieces
  unfolding expand
  expand_append v piece [] = refl
  expand_append v piece (token ∷ []) = append_assoc v piece (b'$' ∷ token)
  expand_append v piece (token ∷ next ∷ pieces) = elim (Option-cases (value token)) [
    | inl e ↦ rw (expand, e) (append_assoc v piece (b'$' ∷ expand token (next ∷ pieces)))
    | inr (w, e) ↦ rw (expand, e) (append_assoc v piece (w ++ expand next pieces))
  ]

join_dollars_append :
    (v piece : Bytes) (pieces : List Bytes)
    → join_dollars (v ++ piece) pieces ≡ v ++ join_dollars piece pieces
join_dollars_append v piece [] = refl
join_dollars_append v piece (next ∷ pieces) = append_assoc v piece (b'$' ∷ join_dollars next pieces)

free_lem : (v : Bytes) → Free v → str_eq v (codes "$") ≡ false
unfolding contains str_eq
free_lem [] h = refl
free_lem (x ∷ v) h = ground arith

longer_lem : (v : Bytes) → 1 < length v → str_eq v (codes "$") ≡ false
unfolding str_eq
longer_lem [] h = refl
longer_lem (x ∷ []) h = absurd (omega arith)
longer_lem (x ∷ y ∷ v) h = ground arith

-- The values that a text may name have no `$`, or are a `$`.
abbrev pub IsSafe : Option Bytes → Type 0
IsSafe none = Unit
IsSafe (some v) = (v ≡ codes "$") ⊎ Free v

abbrev pub Values : Site → Substs → (Bytes → Option Bytes) → Type 0
Values s substs value =
    (token : Bytes) → (value_of s substs token ≡ some (value token)) × IsSafe (value token)

substitute_from-stops :
    (fuel : ℕ) (s : Site) (substs : Substs) (before line : Bytes)
    → Free line
    → substitute_from fuel s substs before line ≡ done (before ++ line)
unfolding substitute_from
substitute_from-stops zero s substs before line free =
    rw (substitute_from, strchr-free b'$' line free) refl
substitute_from-stops (suc fuel) s substs before line free =
    rw (substitute_from, strchr-free b'$' line free) refl

substitute_from-steps :
    (fuel : ℕ) (s : Site) (substs : Substs) (before plain rest shown behind : Bytes)
    → Free plain
    → substitute_one s substs rest ≡ some (shown, behind)
    → substitute_from (suc fuel) s substs before (plain ++ b'$' ∷ rest)
      ≡ substitute_from fuel s substs (before ++ (plain ++ shown)) behind
unfolding substitute_from
substitute_from-steps fuel s substs before plain rest shown behind free e =
    rw (substitute_from, strchr_first b'$' plain rest free, e) refl

module _ (s : Site) (substs : Substs) (value : Bytes → Option Bytes)
    (values : Values s substs value) where
  substitute_one-value :
      (token behind : Bytes)
      → Free token
      → substitute_one s substs (token ++ b'$' ∷ behind) ≡ elim (value token) [
        | none ↦ some (codes "$", token ++ b'$' ∷ behind)
        | some v ↦ if str_eq v (codes "$") then some (codes "$", behind) else some ([], v ++ behind)
      ]
  unfolding substitute_one
  substitute_one-value token behind free =
      rw (substitute_one, strchr_first b'$' token behind free, (values token).0) refl

  -- One round with the pieces of what is behind the position.
  substitute_from-expand :
      (fuel : ℕ) (before piece : Bytes) (pieces : List Bytes)
      → Free piece
      → All Free pieces
      → length pieces ≤ fuel
      → substitute_from fuel s substs before (join_dollars piece pieces)
        ≡ done (before ++ expand s substs value piece pieces)
  unfolding expand substitute_one
  substitute_from-expand fuel before piece [] free frees h =
      substitute_from-stops fuel s substs before piece free
  substitute_from-expand zero before piece (token ∷ pieces) free frees h = absurd (omega arith)
  substitute_from-expand (suc fuel) before piece (token ∷ []) free (known, frees) h =
      let alone : substitute_one s substs token ≡ some (codes "$", token) =
        rw (substitute_one, strchr-free b'$' token known) refl in
      substitute_from-steps fuel s substs before piece token (codes "$") token free alone
      ∙ substitute_from-stops fuel s substs (before ++ (piece ++ codes "$")) token known
      ∙ ap done (simp append_assoc)
  substitute_from-expand (suc fuel) before piece (token ∷ next ∷ pieces) free
        (known, (next_free, frees)) h =
      let behind : Bytes = join_dollars next pieces in
      elim (Option-cases (value token)) [
        | inl e ↦
            let one : substitute_one s substs (token ++ b'$' ∷ behind)
                ≡ some (codes "$", token ++ b'$' ∷ behind) =
              rw (substitute_one-value token behind known, e) refl in
            substitute_from-steps fuel s substs before piece (token ++ b'$' ∷ behind) (codes "$") _
              free one
            ∙ substitute_from-expand fuel (before ++ (piece ++ codes "$")) token (next ∷ pieces)
                known (next_free, frees) (omega arith)
            ∙ ap done (rw (expand, e) (simp append_assoc))
        | inr (v, e) ↦ elim (subst IsSafe e (values token).1) [
          | inl dollar ↦
              let one : substitute_one s substs (token ++ b'$' ∷ behind)
                  ≡ some (codes "$", behind) =
                rw (substitute_one-value token behind known, e, dollar) refl in
              substitute_from-steps fuel s substs before piece (token ++ b'$' ∷ behind) (codes "$")
                _ free one
              ∙ substitute_from-expand fuel (before ++ (piece ++ codes "$")) next pieces next_free
                  frees (omega arith)
              ∙ ap done (rw (expand, e, dollar) (simp append_assoc))
          | inr plain ↦
              let one : substitute_one s substs (token ++ b'$' ∷ behind) ≡ some ([], v ++ behind) =
                rw (substitute_one-value token behind known, e, free_lem v plain) refl in
              let free_next : Free (v ++ next) =
                rw (contains_append b'$' v next, plain) next_free in
              substitute_from-steps fuel s substs before piece (token ++ b'$' ∷ behind) [] _ free
                one
              ∙ ap (substitute_from fuel s substs (before ++ (piece ++ [])))
                  (sym (join_dollars_append v next pieces))
              ∙ substitute_from-expand fuel (before ++ (piece ++ [])) (v ++ next) pieces free_next
                  frees (omega arith)
              ∙ ap done (
                  rw (expand_append s substs value v next pieces, expand, e)
                    (simp (append_assoc, append-nil)))
        ]
      ]

-- Where no value has a `$` but the one that is a `$`, as many rounds as there are `$` in the line are enough, and
-- the result is that of one pass from left to right that does not look at the values again.
pub substitute-expand :
    (s : Site) (substs : Substs) (value : Bytes → Option Bytes) (line : Bytes) (fuel : ℕ)
    → Values s substs value
    → length (cut_dollars line).1 ≤ fuel
    → substitute fuel s substs line
      ≡ done (expand s substs value (cut_dollars line).0 (cut_dollars line).1)
substitute-expand s substs value line fuel values h =
    let (e, free, frees) = join-cut_dollars line in
    ap (substitute_from fuel s substs []) (sym e)
    ∙ substitute_from-expand s substs value values fuel [] (cut_dollars line).0 (cut_dollars line).1
        free frees h

-- A value that names itself, behind text without `$`, is substituted without end.
pub substitute-unfinished :
    (s : Site) (substs : Substs) (token a b : Bytes)
    → Free token
    → Free a
    → value_of s substs token ≡ some (some (a ++ b'$' ∷ (token ++ b'$' ∷ b)))
    → (fuel : ℕ) (before plain behind : Bytes) → Free plain
    → substitute_from fuel s substs before (plain ++ b'$' ∷ (token ++ b'$' ∷ behind)) ≡ unfinished
unfolding substitute_from substitute_one
substitute-unfinished s substs token a b ft fa e zero before plain behind fp =
    rw (substitute_from, strchr_first b'$' plain (token ++ b'$' ∷ behind) fp) refl
substitute-unfinished s substs token a b ft fa e (suc fuel) before plain behind fp =
    let value : Bytes = a ++ b'$' ∷ (token ++ b'$' ∷ b) in
    let long : 1 < length value =
      omega (arith, length-append a (b'$' ∷ (token ++ b'$' ∷ b)), length-append token (b'$' ∷ b)) in
    let one : substitute_one s substs (token ++ b'$' ∷ behind) ≡ some ([], value ++ behind) =
      rw (substitute_one, strchr_first b'$' token behind ft, e, longer_lem value long) refl in
    substitute_from-steps fuel s substs before plain (token ++ b'$' ∷ behind) [] (value ++ behind)
      fp one
    ∙ ap (substitute_from fuel s substs (before ++ (plain ++ []))) (simp append_assoc)
    ∙ substitute-unfinished s substs token a b ft fa e fuel (before ++ (plain ++ [])) a
        (b ++ behind) fa

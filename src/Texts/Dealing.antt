-- ===== src/Texts/Dealing.antt =====
-- How `handle_directive` of src/prepstdreply.c deals with the directives of a conditional.
use mlmmj.Base.{
  ◌≡◌, refl, sym, ap, ◌∙◌, inl, inr, Bool, true, false, not, some, [], ◌∷◌, ◌++◌, append_assoc,
  append-nil, arith, ◌==◌, &&-left, &&-right, Bool-cases, Bytes, codes, all, is_empty,
}
use mlmmj.CString.{str_eq, strip_prefix, contains}
use mlmmj.Texts.{Site, is_name_char}
use mlmmj.Texts.Conditionals.{Conds, open_cond, else_cond, end_cond, is_skipping}
use mlmmj.Texts.Sources.{Text, Position}
use mlmmj.Texts.Directives.{
  Target, on_action, on_reason, on_type, on_control, taken, matches, differs, scan_params,
  handle_conditional, with_conds, named_cond, dealt, deal_with, skip_blanks,
}
use mlmmj.Texts.Nodes.{Query, keyword, token_of, About, is_so, is_chosen, IsName}

-- The text is about this.
abbrev pub IsAbout : About → Text → Type 0
IsAbout a t = (t.action ≡ some a.action) × (t.reason ≡ some a.reason) × (t.type ≡ some a.type)

matches-is_so :
    (s : Site) (a : About) (t : Text) (tgt : Target) (name : Bytes)
    → IsAbout a t
    → matches s t tgt name ≡ some (is_so s a tgt name)
matches-is_so s a t on_action name (h, _, _) = rw h refl
matches-is_so s a t on_reason name (_, h, _) = rw h refl
matches-is_so s a t on_type name (_, _, h) = rw h refl
matches-is_so s a t on_control name h = refl

differs-is_chosen :
    (s : Site) (a : About) (q : Query)
    → differs (is_so s a q.target q.name) q.negative ≡ is_chosen s a q
unfolding is_chosen
differs-is_chosen s a q = elim (Bool-cases q.negative) [
  | inl e ↦ elim (Bool-cases (is_so s a q.target q.name)) [
    | inl k ↦ rw (is_chosen, e, k) refl
    | inr k ↦ rw (is_chosen, e, k) refl
  ]
  | inr e ↦ elim (Bool-cases (is_so s a q.target q.name)) [
    | inl k ↦ rw (is_chosen, e, k) refl
    | inr k ↦ rw (is_chosen, e, k) refl
  ]
]

scan_params-name :
    (s : Site) (t : Text) (tgt : Target) (neg multi m : Bool) (behind read name : Bytes)
    → all is_name_char name ≡ true
    → is_empty (read ++ name) ≡ false
    → matches s t tgt (read ++ name) ≡ some m
    → scan_params s t tgt neg multi behind read name ≡ taken (differs m neg) behind
unfolding scan_params
scan_params-name s t tgt neg multi m behind read [] h full e =
    let whole : read ++ [] ≡ read = append-nil read in
    let e' : matches s t tgt read ≡ some m = ap (matches s t tgt) (sym whole) ∙ e in
    let full' : is_empty read ≡ false = ap is_empty (sym whole) ∙ full in
    rw (scan_params, full', e') refl
scan_params-name s t tgt neg multi m behind read (c ∷ name) h full e =
    let first : is_name_char c ≡ true = &&-left _ _ h in
    let split : (read ++ c ∷ []) ++ name ≡ read ++ c ∷ name = append_assoc read (c ∷ []) name in
    let later =
      scan_params-name s t tgt neg multi m behind (read ++ c ∷ []) name (&&-right _ _ h)
        (ap is_empty split ∙ full) (ap (matches s t tgt) split ∙ e) in
    rw (scan_params, first) later

abbrev multi_of : Target → Bool → Bool
multi_of on_control negative = true
multi_of _ negative = not negative

named_cond-token_of :
    (tgt : Target) (negative : Bool) (name : Bytes)
    → named_cond (keyword tgt negative ++ name)
      ≡ some (name, (tgt, (negative, multi_of tgt negative)))
unfolding named_cond keyword strip_prefix
named_cond-token_of on_action false name = refl
named_cond-token_of on_reason false name = refl
named_cond-token_of on_type false name = refl
named_cond-token_of on_control false name = refl
named_cond-token_of on_action true name = refl
named_cond-token_of on_reason true name = refl
named_cond-token_of on_type true name = refl
named_cond-token_of on_control true name = refl

name-free : (name : Bytes) → all is_name_char name ≡ true → contains b'%' name ≡ false
unfolding contains
name-free [] h = refl
name-free (c ∷ name) h =
    let first : is_name_char c ≡ true = &&-left _ _ h in
    let elsewhere : (c == b'%') ≡ false = ground arith in
    rw (contains, elsewhere) (name-free name (&&-right _ _ h))

keyword-free :
    (tgt : Target) (negative : Bool) (name : Bytes)
    → contains b'%' name ≡ false
    → contains b'%' (keyword tgt negative ++ name) ≡ false
unfolding keyword contains
keyword-free on_action false name h = h
keyword-free on_reason false name h = h
keyword-free on_type false name h = h
keyword-free on_control false name h = h
keyword-free on_action true name h = h
keyword-free on_reason true name h = h
keyword-free on_type true name h = h
keyword-free on_control true name h = h

-- No `%` stands in the directive.
pub token_of-free : (q : Query) → IsName q.name → contains b'%' (token_of q) ≡ false
token_of-free q (h, _) = keyword-free q.target q.negative q.name (name-free q.name h)

-- A position behind a directive that leaves these conditionals open.
abbrev pub moved : Position → Conds → Bytes → Position
moved p c behind = record (with_conds p c) { after = skip_blanks p.skipwhite behind }

module _ (s : Site) (p : Position) (behind : Bytes) where
  opening-taken :
      (q : Query) (b : Bool)
      → handle_conditional s p q.target q.negative (multi_of q.target q.negative) q.name behind
        ≡ taken b behind
      → deal_with s p (token_of q) behind ≡ dealt (moved p (open_cond b p.text.conds) behind) false
  unfolding deal_with
  opening-taken q b e = rw (deal_with, named_cond-token_of q.target q.negative q.name, e) refl

  pub opening_shown :
      (a : About) (q : Query)
      → IsAbout a p.text
      → IsName q.name
      → is_skipping p.text.conds ≡ false
      → deal_with s p (token_of q) behind
        ≡ dealt (moved p (open_cond (is_chosen s a q) p.text.conds) behind) false
  unfolding handle_conditional
  opening_shown a q about (name, full) visible =
      let scanned =
        scan_params-name s p.text q.target q.negative (multi_of q.target q.negative)
          (is_so s a q.target q.name) behind [] q.name name full
          (matches-is_so s a p.text q.target q.name about) in
      opening-taken q (is_chosen s a q) (
        rw (handle_conditional, visible)
          (scanned ∙ ap (λ b. taken b behind) (differs-is_chosen s a q)))

  pub opening_skipped :
      (q : Query)
      → IsName q.name
      → is_skipping p.text.conds ≡ true
      → deal_with s p (token_of q) behind
        ≡ dealt (moved p (open_cond true p.text.conds) behind) false
  unfolding handle_conditional
  opening_skipped q (name, full) hidden =
      opening-taken q true (rw (handle_conditional, hidden, full) refl)

  pub else_dealt :
      (c : Conds)
      → else_cond p.text.conds ≡ some c
      → deal_with s p (codes "else") behind ≡ dealt (moved p c behind) false
  unfolding deal_with named_cond strip_prefix str_eq
  else_dealt c e = rw (deal_with, e) refl

  pub endif_dealt :
      (c : Conds) (swallow : Bool)
      → end_cond p.text.conds ≡ some (c, swallow)
      → deal_with s p (codes "endif") behind ≡ dealt (moved p c behind) swallow
  unfolding deal_with named_cond strip_prefix str_eq
  endif_dealt c swallow e = rw (deal_with, e) refl

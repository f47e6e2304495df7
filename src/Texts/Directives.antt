-- ===== src/Texts/Directives.antt =====
-- The conditionals of a line, `handle_conditional` of src/prepstdreply.c and the part of `handle_directive` that
-- deals with them. `Settings` has the other directives.
use mlmmj.Base.{
  ℕ, ◌-◌, Bool, true, false, not, ◌&&◌, ◌||◌, Option, none, some, [], ◌∷◌, ◌++◌, ◌==◌,
  if◌then◌else◌, Bytes, codes, length, take, is_empty,
}
use mlmmj.CString.{str_eq, strip_prefix, case_eq}
use mlmmj.Texts.{Site, is_name_char}
use mlmmj.Texts.Conditionals.{Conds, is_skipping, open_cond, else_cond, end_cond}
use mlmmj.Texts.Sources.{Text, Position}

pub data Target : Type 0 where
  on_action on_reason on_type on_control : Target

-- What the parameters of a conditional say. `taken` is whether it is satisfied, with what stands behind it in the
-- line; `malformed` leaves the line, and `cut` leaves it cut behind this first parameter; `overrun` reads on behind
-- the end of the line.
pub data Scan : Type 0 where
  malformed overrun : Scan
  cut : Bytes → Scan
  taken : Bool → Bytes → Scan

-- Whether a parameter matches; `none` where the text has no such attribute.
abbrev pub matches : Site → Text → Target → Bytes → Option Bool
matches s t on_action name = elim t.action [
  | none ↦ none
  | some action ↦ some (case_eq name action)
]
matches s t on_reason name = elim t.reason [
  | none ↦ none
  | some reason ↦ some (case_eq name reason)
]
matches s t on_type name = elim t.type [ none ↦ none | some type ↦ some (case_eq name type) ]
matches s t on_control name = some (s.statctrl name)

abbrev pub is_param_char : Bytes → ℕ → Bool
is_param_char name c = is_name_char c || (c == b'.' && not (is_empty name))

abbrev pub differs : Bool → Bool → Bool
differs a b = (a && not b) || (not a && b)

-- The loop of `handle_conditional`, with what was read of a parameter, and whether it is in front of one. Only
-- where `multi` is given, the parameters behind a space are looked at.
unfoldable pub scan_params : Site → Text → Target → Bool → Bool → Bytes → Bytes → Bytes → Scan
unfolding case_eq
scan_params s t tgt neg multi behind name [] =
    if is_empty name
    then if multi then overrun else taken false behind
    else elim (matches s t tgt name) [ none ↦ malformed | some m ↦ taken (differs m neg) behind ]
scan_params s t tgt neg multi behind name (c ∷ params) = elim (is_param_char name c) [
  | true ↦ scan_params s t tgt neg multi behind (name ++ c ∷ []) params
  | false ↦ elim (c == b' ') [
    | false ↦ malformed
    | true ↦ elim (matches s t tgt name) [
      | none ↦ cut name
      | some m ↦ elim multi [
        | false ↦ taken (differs m neg) params
        | true ↦ elim (differs m neg) [
          | true ↦ taken true behind
          | false ↦ scan_params s t tgt neg multi behind [] params
        ]
      ]
    ]
  ]
]

abbrev pub skip_blanks : Bool → Bytes → Bytes
skip_blanks false s = s
skip_blanks true [] = []
skip_blanks true (c ∷ s) = if c == b' ' || c == b'\t' then skip_blanks true s else c ∷ s

-- In skipped text the parameters are not looked at.
unfoldable pub handle_conditional : Site → Position → Target → Bool → Bool → Bytes → Bytes → Scan
unfolding scan_params
handle_conditional s p tgt neg multi params behind =
    if is_skipping p.text.conds
    then if is_empty params then overrun else taken true behind
    else scan_params s p.text tgt neg multi behind [] params

abbrev pub with_conds : Position → Conds → Position
with_conds p c = record p { text = record (p.text) { conds = c } }

abbrev pub Named : Type 0
Named = Bytes × (Target × (Bool × Bool))

-- The name of a conditional, with its parameters, what it asks, whether it is negative, and whether it looks at
-- more than one parameter.
unfoldable pub named_cond : Bytes → Option Named
unfolding strip_prefix
named_cond token = elim (strip_prefix (codes "ifaction ") token) [
  | some params ↦ some (params, (on_action, (false, true)))
  | none ↦ elim (strip_prefix (codes "ifreason ") token) [
    | some params ↦ some (params, (on_reason, (false, true)))
    | none ↦ elim (strip_prefix (codes "iftype ") token) [
      | some params ↦ some (params, (on_type, (false, true)))
      | none ↦ elim (strip_prefix (codes "ifcontrol ") token) [
        | some params ↦ some (params, (on_control, (false, true)))
        | none ↦ elim (strip_prefix (codes "ifnaction ") token) [
          | some params ↦ some (params, (on_action, (true, false)))
          | none ↦ elim (strip_prefix (codes "ifnreason ") token) [
            | some params ↦ some (params, (on_reason, (true, false)))
            | none ↦ elim (strip_prefix (codes "ifntype ") token) [
              | some params ↦ some (params, (on_type, (true, false)))
              | none ↦ elim (strip_prefix (codes "ifncontrol ") token) [
                | some params ↦ some (params, (on_control, (true, true)))
                | none ↦ none
              ]
            ]
          ]
        ]
      ]
    ]
  ]
]

-- How a directive of conditionals comes out: dealt with, with whether a blank line in front is swallowed; or not,
-- with the token that the other directives are compared with, and what the line holds behind the `%`.
pub data Dealt : Type 0 where
  dealt : Position → Bool → Dealt
  other : Bytes → Bytes → Dealt
  overran : Dealt

unfoldable pub deal_with : Site → Position → Bytes → Bytes → Dealt
unfolding named_cond handle_conditional open_cond else_cond end_cond str_eq
deal_with s p token behind =
    let whole : Bytes = token ++ b'%' ∷ behind in
    elim (named_cond token) [
      | some (params, (tgt, (neg, multi))) ↦
          elim (handle_conditional s p tgt neg multi params behind) [
            | malformed ↦ other params whole
            | overrun ↦ overran
            | cut name ↦ other name (take (length token - length params) token ++ name)
            | taken satisfied after ↦
                dealt
                  (record (with_conds p (open_cond satisfied p.text.conds)) {
                    after = skip_blanks p.skipwhite after;
                  })
                  false
          ]
      | none ↦
          if str_eq token (codes "else")
          then elim (else_cond p.text.conds) [
            | none ↦ other token whole
            | some c ↦
                dealt (record (with_conds p c) { after = skip_blanks p.skipwhite behind }) false
          ]
          else if str_eq token (codes "endif")
          then elim (end_cond p.text.conds) [
            | none ↦ other token whole
            | some (c, swallow) ↦
                dealt (record (with_conds p c) { after = skip_blanks p.skipwhite behind }) swallow
          ]
          else other token whole
    ]

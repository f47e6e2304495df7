-- ===== src/Access.antt =====
-- Access rules, `do_access` of src/mlmmj-process.c. The regular expressions of the C library enter as
-- an interface; what it logs is the second part of the result.
pub mod Rules
pub mod Closed
mod Tests
use mlmmj.Base.{
  ℕ, ◌+◌, ◌*◌, ◌^◌, Bool, true, false, ◌&&◌, Option, none, some, List, [], ◌∷◌, ◌==◌, if◌then◌else◌,
  Bytes, codes,
}
use mlmmj.CString.{peek, rest_of, strip_prefix}

-- `regcomp` and `regexec` with the flags that the source gives them.
pub record Regex : Type 1 where
  pub Compiled : Type 0
  pub compile : Bytes → Option Compiled
  pub exec : Compiled → Bytes → Bool

pub data Action : Type 0 where
  allow send deny moderate discard : Action

-- The lines that `do_access` writes to the operation log; a number is the rule's.
pub data LogLine : Type 0 where
  missing_keyword : ℕ → Bytes → LogLine
  invalid_character : ℕ → Bytes → LogLine
  bad_regexp : ℕ → Bytes → Bytes → LogLine
  by_keyword : ℕ → Bytes → Action → LogLine
  by_header : ℕ → Bytes → Action → Bytes → LogLine
  by_absence : ℕ → Bytes → Action → LogLine
  by_default : LogLine

abbrev pub Verdict : Type 0
Verdict = Action × LogLine

-- The action keyword, and what follows it.
unfoldable pub parse_action : Bytes → Option (Action × Bytes)
parse_action rule = elim (strip_prefix (codes "allow") rule) [
  | some r ↦ some (allow, r)
  | none ↦ elim (strip_prefix (codes "send") rule) [
    | some r ↦ some (send, r)
    | none ↦ elim (strip_prefix (codes "deny") rule) [
      | some r ↦ some (deny, r)
      | none ↦ elim (strip_prefix (codes "moderate") rule) [
        | some r ↦ some (moderate, r)
        | none ↦ elim (strip_prefix (codes "discard") rule) [
          | some r ↦ some (discard, r)
          | none ↦ none
        ]
      ]
    ]
  ]
]

-- `while (strncmp(rule_ptr, ".*", 2) == 0) rule_ptr += 2;`
unfoldable pub skip_stars : Bytes → Bytes
skip_stars [] = []
skip_stars (c ∷ []) = c ∷ []
skip_stars (c ∷ d ∷ s) = if c == b'.' && d == b'*' then skip_stars s else c ∷ d ∷ s

-- The expression that is compiled: unanchored leading `.*` removed.
unfoldable pub unanchored : Bytes → Bytes
unanchored p = elim (strip_prefix (codes "^.*") p) [ some r ↦ skip_stars r | none ↦ skip_stars p ]

module _ (R : Regex) where
  -- The loop over the headers.
  unfoldable pub first_match : R.Compiled → List Bytes → Option Bytes
  first_match re [] = none
  first_match re (h ∷ hdrs) = if R.exec re h then some h else first_match re hdrs

  -- `if (match != not)`
  unfoldable pub act_on : ℕ → Bytes → Action → Bool → Option Bytes → Option Verdict
  act_on i rule act false (some h) = some (act, by_header i rule act h)
  act_on i rule act true none = some (act, by_absence i rule act)
  act_on i rule act true (some h) = none
  act_on i rule act false none = none

  unfoldable pub judge_pattern : ℕ → Bytes → Action → Bool → Bytes → List Bytes → Option Verdict
  judge_pattern i rule act negated p hdrs = elim (R.compile (unanchored p)) [
    | none ↦ some (deny, bad_regexp i rule (unanchored p))
    | some re ↦ act_on i rule act negated (first_match re hdrs)
  ]

  unfoldable pub judge_rest : ℕ → Bytes → Action → Bytes → List Bytes → Option Verdict
  judge_rest i rule act [] hdrs = some (act, by_keyword i rule act)
  judge_rest i rule act (c ∷ r) hdrs =
      if c == b' '
      then (if peek r == b'!'
          then judge_pattern i rule act true (rest_of r) hdrs
          else judge_pattern i rule act false r hdrs)
      else some (deny, invalid_character i rule)

  -- One round of the loop over the rules; `none` goes on to the next rule.
  unfoldable pub judge : ℕ → Bytes → List Bytes → Option Verdict
  judge i rule hdrs = elim (parse_action rule) [
    | none ↦ some (deny, missing_keyword i rule)
    | some (act, r) ↦ judge_rest i rule act r hdrs
  ]

  unfoldable pub access_from : ℕ → List Bytes → List Bytes → Verdict
  access_from i [] hdrs = (deny, by_default)
  access_from i (rule ∷ rules) hdrs =
      let later = access_from (i + 1) rules hdrs in
      elim (judge i rule hdrs) [ some v ↦ v | none ↦ later ]

  unfoldable pub do_access : List Bytes → List Bytes → Verdict
  do_access rules hdrs = access_from 0 rules hdrs

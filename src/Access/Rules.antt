-- ===== src/Access/Rules.antt =====
-- The syntax and the meaning of access rules, against `do_access` of src/mlmmj-process.c.
use mlmmj.Base.{
  ℕ, ◌+◌, ◌≡◌, refl, Bool, true, false, Option, none, some, List, [], ◌∷◌, ◌++◌, map, arith, ◌==◌,
  if◌then◌else◌, Bytes, codes, All, any, sym, ap, ◌∙◌, append-nil,
}
use mlmmj.CString.{peek, strip_prefix}
use mlmmj.Access.{
  Action, Regex, allow, send, deny, moderate, discard, bad_regexp, Verdict, parse_action,
  unanchored, first_match, act_on, judge_pattern, judge_rest, judge, access_from, do_access,
}

pub data Rule : Type 0 where
  keyword : Action → Rule
  test : Action → Bool → Bytes → Rule

abbrev pub action_text : Action → Bytes
action_text allow = codes "allow"
action_text send = codes "send"
action_text deny = codes "deny"
action_text moderate = codes "moderate"
action_text discard = codes "discard"

-- A rule as it stands in the file; a `!` negates the test.
abbrev pub print_rule : Rule → Bytes
print_rule (keyword a) = action_text a
print_rule (test a true p) = action_text a ++ (b' ' ∷ b'!' ∷ p)
print_rule (test a false p) = action_text a ++ (b' ' ∷ p)

-- A test that is not negated has no `!` in front, or it would read as negated.
abbrev pub IsClear : Rule → Type 0
IsClear (test a false p) = (peek p == b'!') ≡ false
IsClear _ = Unit {0}

abbrev pub action_of : Rule → Action
action_of (keyword a) = a
action_of (test a n p) = a

parse_action-text : (a : Action) (r : Bytes) → parse_action (action_text a ++ r) ≡ some (a, r)
unfolding parse_action strip_prefix
parse_action-text allow r = refl
parse_action-text send r = refl
parse_action-text deny r = refl
parse_action-text moderate r = refl
parse_action-text discard r = refl

module _ (R : Regex) where
  -- What a rule decides on the headers: `none` goes on. A pattern that does not compile denies.
  abbrev pub decide_test : Option R.Compiled → Action → Bool → List Bytes → Option Action
  decide_test none a negated hdrs = some deny
  decide_test (some re) a true hdrs = if any (R.exec re) hdrs then none else some a
  decide_test (some re) a false hdrs = if any (R.exec re) hdrs then some a else none

  abbrev pub decide_rule : Rule → List Bytes → Option Action
  decide_rule (keyword a) hdrs = some a
  decide_rule (test a negated p) hdrs = decide_test (R.compile (unanchored p)) a negated hdrs

  -- The first rule that decides; without one the mail is denied.
  abbrev pub decide : List Rule → List Bytes → Action
  decide [] hdrs = deny
  decide (r ∷ rules) hdrs = elim (decide_rule r hdrs) [ some a ↦ a | none ↦ decide rules hdrs ]

  abbrev pub action? : Option Verdict → Option Action
  action? none = none
  action? (some v) = some v.0

  is_some : {A : Type 0} → Option A → Bool
  is_some none = false
  is_some (some x) = true

  first_match-any :
      (re : R.Compiled) (hdrs : List Bytes) → is_some (first_match R re hdrs) ≡ any (R.exec re) hdrs
  unfolding first_match is_some
  first_match-any re [] = refl
  first_match-any re (h ∷ hdrs) = ground (arith, first_match-any re hdrs)

  judge_pattern-decide_test :
      (i : ℕ) (rule : Bytes) (a : Action) (negated : Bool) (p : Bytes) (hdrs : List Bytes)
      → action? (judge_pattern R i rule a negated p hdrs)
        ≡ decide_test (R.compile (unanchored p)) a negated hdrs
  unfolding judge_pattern
  judge_pattern-decide_test i rule a negated p hdrs = go (R.compile (unanchored p)) negated
    where
      go :
          (c : Option R.Compiled) (n : Bool)
          → action? (elim c [
            | none ↦ some (deny, bad_regexp i rule (unanchored p))
            | some re ↦ act_on R i rule a n (first_match R re hdrs)
          ])
            ≡ decide_test c a n hdrs
      go none n = refl
      go (some re) true = unfold act_on is_some in ground (arith, first_match-any re hdrs)
      go (some re) false = unfold act_on is_some in ground (arith, first_match-any re hdrs)

  pub judge-judge_rest :
      (i : ℕ) (rule : Bytes) (a : Action) (r : Bytes) (hdrs : List Bytes)
      → parse_action rule ≡ some (a, r)
      → judge R i rule hdrs ≡ judge_rest R i rule a r hdrs
  unfolding judge
  judge-judge_rest i rule a r hdrs h = rw (h, judge) refl

  judge_rest-test :
      (i : ℕ) (rule : Bytes) (a : Action) (r : Bytes) (hdrs : List Bytes)
      → (peek r == b'!') ≡ false
      → judge_rest R i rule a (b' ' ∷ r) hdrs ≡ judge_pattern R i rule a false r hdrs
  unfolding judge_rest
  judge_rest-test i rule a r hdrs h = ground arith

  pub judge-decide_rule :
      (i : ℕ) (r : Rule) (hdrs : List Bytes)
      → IsClear r
      → action? (judge R i (print_rule r) hdrs) ≡ decide_rule r hdrs
  judge-decide_rule i (keyword a) hdrs h =
      ap action? (
        judge-judge_rest i (action_text a) a [] hdrs
          (ap parse_action (sym (append-nil (action_text a))) ∙ parse_action-text a []))
      ∙ unfold judge_rest in refl
  judge-decide_rule i (test a true p) hdrs h =
      ap action?
        (judge-judge_rest i _ a (b' ' ∷ b'!' ∷ p) hdrs (parse_action-text a (b' ' ∷ b'!' ∷ p)))
      ∙ unfold judge_rest in judge_pattern-decide_test i (print_rule (test a true p)) a true p hdrs
  judge-decide_rule i (test a false p) hdrs h =
      ap action? (
        judge-judge_rest i _ a (b' ' ∷ p) hdrs (parse_action-text a (b' ' ∷ p))
        ∙ judge_rest-test i (print_rule (test a false p)) a p hdrs h)
      ∙ judge_pattern-decide_test i (print_rule (test a false p)) a false p hdrs

  access_from-decide :
      (i : ℕ) (rules : List Rule) (hdrs : List Bytes)
      → All IsClear rules
      → (access_from R i (map print_rule rules) hdrs).0 ≡ decide rules hdrs
  unfolding access_from
  access_from-decide i [] hdrs h = refl
  access_from-decide i (r ∷ rules) hdrs h =
      ground (arith, judge-decide_rule i r hdrs h.0, access_from-decide (i + 1) rules hdrs h.1)

  -- The action of `do_access` on rules written in the documented syntax is that of the first rule
  -- that decides: a keyword alone does, a test does if a header matches, a negated one if none
  -- does, and an expression that does not compile denies. Without a deciding rule it denies.
  pub do_access-decide :
      (rules : List Rule) (hdrs : List Bytes)
      → All IsClear rules
      → (do_access R (map print_rule rules) hdrs).0 ≡ decide rules hdrs
  unfolding do_access
  do_access-decide rules hdrs h = access_from-decide 0 rules hdrs h

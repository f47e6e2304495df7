-- ===== src/Access/Tests.antt =====
-- Concrete runs of `do_access`, and the theorems at them.
use mlmmj.Base.{
  ◌≡◌, refl, sym, ap, ◌∙◌, ◌≢◌, Bool, true, false, none, some, List, [], ◌∷◌, map, if◌then◌else◌,
  Bytes, codes,
}
use mlmmj.CString.{str_eq, strip_prefix, strstr}
use mlmmj.Access.{
  Regex, allow, deny, moderate, invalid_character, by_keyword, Verdict, parse_action, skip_stars,
  unanchored, first_match, act_on, judge_pattern, judge_rest, judge, access_from, do_access,
}
use mlmmj.Access.Rules.{Rule, keyword, test, print_rule, decide, do_access-decide}
use mlmmj.Access.Closed.{do_access-Deciding, Deciding}

-- Expressions without special characters: a match is an occurrence. `[` alone does not compile.
abbrev occurs : Bytes → Bytes → Bool
occurs p h = elim (strstr p h) [ none ↦ false | some at ↦ true ]

abbrev plain : Regex
plain = record {
  Compiled = Bytes;
  compile = λ p. if str_eq p (codes "[") then none else some p;
  exec = occurs;
}

abbrev rules : List Rule
rules =
    test deny false (codes "^.*.*spam") ∷ test allow true (codes "X-Bad") ∷ keyword moderate ∷ []

abbrev hdrs : List Bytes
hdrs = codes "Subject: hi" ∷ codes "X-Bad: 1" ∷ []

moderates :
    do_access plain (map print_rule rules) hdrs
    ≡ (moderate, by_keyword 2 (codes "moderate") moderate)
unfolding do_access access_from judge judge_rest judge_pattern act_on first_match parse_action
    unanchored skip_stars strip_prefix str_eq strstr
moderates = refl

malformed :
    do_access plain (codes "allows" ∷ codes "allow" ∷ []) hdrs
    ≡ (deny, invalid_character 0 (codes "allows"))
unfolding do_access access_from judge judge_rest parse_action strip_prefix
malformed = refl

do_access-decide_example : (do_access plain (map print_rule rules) hdrs).0 ≡ decide plain rules hdrs
do_access-decide_example = do_access-decide plain rules hdrs (refl, (tt, (tt, tt)))

not_denied : (do_access plain (map print_rule rules) hdrs).0 ≢ deny
not_denied h = absurd (moderate-ne-deny (ap (λ (v : Verdict). v.0) (sym moderates) ∙ h))
  where
    moderate-ne-deny : moderate ≢ deny
    moderate-ne-deny e = cc

do_access-Deciding_example :
    Deciding plain (map print_rule rules) hdrs (do_access plain (map print_rule rules) hdrs).0
do_access-Deciding_example = do_access-Deciding plain (map print_rule rules) hdrs not_denied

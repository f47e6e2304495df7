-- ===== src/Access/Closed.antt =====
-- `do_access` of src/mlmmj-process.c fails closed.
use mlmmj.Base.{
  ℕ, ◌≡◌, refl, ◌∙◌, ◌⊎◌, inl, inr, true, false, some, List, [], ◌∷◌, ◌++◌, append-nil, arith, ◌==◌,
  ==_iff, Bool-cases, Bytes, codes, ◌≢◌, none, Option-cases, All, ◌+◌, sym, ap, Option,
}
use mlmmj.CString.{peek, rest_of, strip_prefix}
use mlmmj.Access.{
  Action, Regex, deny, parse_action, judge_rest, judge, access_from, Verdict, do_access,
}
use mlmmj.Access.Rules.{
  Rule, keyword, test, action_text, print_rule, IsClear, action?, decide_rule, judge-judge_rest,
  judge-decide_rule,
}

strip_prefix-append : (p s r : Bytes) → strip_prefix p s ≡ some r → s ≡ p ++ r
unfolding strip_prefix
strip_prefix-append [] s r h = ground arith
strip_prefix-append (x ∷ p) [] r h = absurd (cc)
strip_prefix-append (x ∷ p) (c ∷ s) r h = ground (arith, strip_prefix-append p s r)

parse_action-append :
    (s : Bytes) (a : Action) (r : Bytes) → parse_action s ≡ some (a, r) → s ≡ action_text a ++ r
unfolding parse_action
parse_action-append s a r h = ground (
  arith,
  strip_prefix-append (codes "allow") s r,
  strip_prefix-append (codes "send") s r,
  strip_prefix-append (codes "deny") s r,
  strip_prefix-append (codes "moderate") s r,
  strip_prefix-append (codes "discard") s r,
)

peek-cons : (s : Bytes) → peek s ≡ b'!' → s ≡ b'!' ∷ rest_of s
peek-cons [] h = ground arith
peek-cons (c ∷ s) h = ground arith

module _ (R : Regex) where
  -- A rule of the file either denies or is in the documented syntax.
  abbrev pub Reading : (rule : Bytes) → Type 0
  Reading rule = (r : Rule) × IsClear r × (rule ≡ print_rule r)

  rest-Reading :
      (i : ℕ) (a : Action) (rule r : Bytes) (hdrs : List Bytes)
      → rule ≡ action_text a ++ r
      → (action? R (judge_rest R i rule a r hdrs) ≡ some deny) ⊎ Reading rule
  unfolding judge_rest
  rest-Reading i a rule [] hdrs e = inr (keyword a, tt, e ∙ append-nil (action_text a))
  rest-Reading i a rule (c ∷ r) hdrs e = elim (Bool-cases (c == b' ')) [
    | inr other ↦ inl (rw other refl)
    | inl space ↦
        let c_is : c ≡ b' ' = (==_iff c b' ').0 space in
        elim (Bool-cases (peek r == b'!')) [
          | inr plain ↦ inr (test a false r, plain, ground arith)
          | inl neg ↦ inr (
            test a true (rest_of r),
            tt,
            cc (e, c_is, peek-cons r ((==_iff (peek r) b'!').0 neg)),
          )
        ]
  ]

  judge-Reading :
      (i : ℕ) (rule : Bytes) (hdrs : List Bytes)
      → (action? R (judge R i rule hdrs) ≡ some deny) ⊎ Reading rule
  judge-Reading i rule hdrs = elim (Option-cases (parse_action rule)) [
    | inl h ↦ inl (unfold judge in rw (h, judge) refl)
    | inr ((a, r), h) ↦
        rw (judge-judge_rest R i rule a r hdrs h)
          (rest-Reading i a rule r hdrs (parse_action-append rule a r h))
  ]

  -- Where the decision falls: the rules in front do not decide, and the rule does.
  pub record Deciding (rules hdrs : List Bytes) (act : Action) : Type 0 where
    pub front : List Bytes
    pub rule : Rule
    pub behind : List Bytes
    pub whole : rules ≡ front ++ print_rule rule ∷ behind
    pub fires : decide_rule R rule hdrs ≡ some act
    pub passes : All (λ s. (r : Rule) × (s ≡ print_rule r) × (decide_rule R r hdrs ≡ none)) front

  reading_decides :
      (i : ℕ) (rule : Bytes) (hdrs : List Bytes) (o : Option Verdict)
      → judge R i rule hdrs ≡ o
      → action? R o ≢ some deny
      → (r : Rule) × (rule ≡ print_rule r) × (decide_rule R r hdrs ≡ action? R o)
  reading_decides i rule hdrs o k ne = elim (judge-Reading i rule hdrs) [
    | inl d ↦ absurd (ne (sym (ap (action? R) k) ∙ d))
    | inr (r, clear, e) ↦ (
      r,
      e,
      sym (judge-decide_rule R i r hdrs clear)
          ∙ ap (action? R) (ap (λ s. judge R i s hdrs) (sym e) ∙ k),
    )
  ]

  here :
      (i : ℕ) (rule : Bytes) (rules hdrs : List Bytes) (v : Verdict)
      → judge R i rule hdrs ≡ some v
      → v.0 ≢ deny
      → Deciding (rule ∷ rules) hdrs v.0
  here i rule rules hdrs v k ne =
      let (r, e, d) = reading_decides i rule hdrs (some v) k (λ q. ne (cc)) in
      record {
        front = [];
        rule = r;
        behind = rules;
        whole = ap (λ s. s ∷ rules) e;
        fires = d;
        passes = tt;
      }

  later :
      (i : ℕ) (rule : Bytes) (rules hdrs : List Bytes) (act : Action)
      → judge R i rule hdrs ≡ none
      → Deciding rules hdrs act
      → Deciding (rule ∷ rules) hdrs act
  later i rule rules hdrs act k s =
      let (r, e, d) = reading_decides i rule hdrs none k (λ q. cc) in
      record {
        front = rule ∷ s.front;
        rule = s.rule;
        behind = s.behind;
        whole = ap (◌∷◌ rule) s.whole;
        fires = s.fires;
        passes = ((r, e, d), s.passes);
      }

  access_from-Deciding :
      (i : ℕ) (rules hdrs : List Bytes)
      → (access_from R i rules hdrs).0 ≢ deny
      → Deciding rules hdrs (access_from R i rules hdrs).0
  unfolding access_from
  access_from-Deciding i [] hdrs h = absurd (h refl)
  access_from-Deciding i (rule ∷ rules) hdrs h = elim (Option-cases (judge R i rule hdrs)) [
    | inr (v, k) ↦ rw (k, access_from) (here i rule rules hdrs v k (rw (k, access_from) at h))
    | inl k ↦
        rw (k, access_from)
          (later i rule rules hdrs _ k
            (access_from-Deciding (i + 1) rules hdrs (rw (k, access_from) at h)))
  ]

  -- A result other than a denial comes from a rule in the documented syntax that decides it, and no
  -- rule in front of that one decides: malformed rules and expressions that do not compile deny.
  pub do_access-Deciding :
      (rules hdrs : List Bytes)
      → (do_access R rules hdrs).0 ≢ deny
      → Deciding rules hdrs (do_access R rules hdrs).0
  unfolding do_access
  do_access-Deciding rules hdrs h = access_from-Deciding 0 rules hdrs h

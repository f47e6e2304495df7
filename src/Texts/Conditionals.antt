-- ===== src/Texts/Conditionals.antt =====
-- The nesting of conditionals in a list text, `handle_conditional` and `handle_directive` of
-- src/prepstdreply.c.
use mlmmj.Base.{
  ℕ, Bool, true, false, not, ◌&&◌, Option, none, some, List, [], ◌∷◌, ◌==◌, if◌then◌else◌, length,
}

pub record Cond : Type 0 where
  pub satisfied : Bool
  pub elsepart : Bool

-- The conditionals that are open, the innermost one first. `skip` points to one of them: it is the number of
-- conditionals around that one.
pub record Conds : Type 0 where
  pub stack : List Cond
  pub skip : Option ℕ

abbrev pub is_skipping : Conds → Bool
is_skipping c = elim c.skip [ none ↦ false | some depth ↦ true ]

abbrev pub points_to : Option ℕ → ℕ → Bool
points_to none depth = false
points_to (some k) depth = k == depth

unfoldable pub open_cond : Bool → Conds → Conds
open_cond satisfied c = record {
  stack = (record { satisfied = satisfied; elsepart = false }) ∷ c.stack;
  skip = if satisfied then c.skip else some (length c.stack);
}

-- `%else%`; `none` where no conditional is open.
unfoldable pub else_cond : Conds → Option Conds
else_cond c = elim c.stack [
  | [] ↦ none
  | cond ∷ outer ↦
      let skip : Option ℕ =
        if points_to c.skip (length outer)
        then none
        else if is_skipping c
        then c.skip
        else some (length outer) in
      some (record {
        stack = (record { satisfied = cond.satisfied; elsepart = true }) ∷ outer;
        skip = skip;
      })
]

-- `%endif%`, and whether a blank line in front of it is swallowed.
unfoldable pub end_cond : Conds → Option (Conds × Bool)
end_cond c = elim c.stack [
  | [] ↦ none
  | cond ∷ outer ↦
      let skip : Option ℕ = if points_to c.skip (length outer) then none else c.skip in
      some (record { stack = outer; skip = skip }, not cond.satisfied && not cond.elsepart)
]

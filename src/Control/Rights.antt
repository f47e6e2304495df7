-- ===== src/Control/Rights.antt =====
-- Who gets what from `listcontrol` of src/listcontrol.c: what the proofs about single programs share.
pub mod Subscribe
pub mod Unsubscribe
pub mod Owner
use mlmmj.Base.{
  ◌≡◌, refl, sym, ap, ◌∙◌, ◌≢◌, Bool, true, false, List, [], ◌∷◌, if◌then◌else◌, Bytes,
}
use mlmmj.Control.{
  Ctrl, bounces, ctrl_commands, Parsed, invalid, command, unknown, find_command, Program, mlmmj_sub,
  mlmmj_unsub, Event, unlinked, Outcome, refused, execs, System,
}
use mlmmj.Control.Dispatch.{dispatch, is_bounces, with_event, run_command, no_command, listcontrol}

abbrev pub runs : Program → Outcome → Bool
runs mlmmj_sub (execs mlmmj_sub args) = true
runs mlmmj_unsub (execs mlmmj_unsub args) = true
runs _ _ = false

module _ (s : System) where
  bounces_only :
      (p : Outcome → Bool) (c : Ctrl) (from param mailname : Bytes)
      → ((from param mailname : Bytes) → p (dispatch s bounces from param mailname).1 ≡ false)
      → p refused ≡ false
      → p (if is_bounces c then dispatch s c from param mailname else ([], refused)).1 ≡ false
  bounces_only p bounces from param mailname never none' = never from param mailname
  bounces_only p _ from param mailname never none' = none'

  runs-with_event :
      (p : Outcome → Bool) (t : Bool) (e : Event) (r : List Event × Outcome)
      → p (if t then r else with_event e r).1 ≡ p r.1
  runs-with_event p true e r = refl
  runs-with_event p false e r = refl

  run_command_rule :
      (p : Outcome → Bool) (P : List Bytes → Type 0)
      → ((c : Ctrl) (from param mailname : Bytes)
          → p (dispatch s c from param mailname).1 ≡ true
          → P (from ∷ []))
      → ((from param mailname : Bytes) → p (dispatch s bounces from param mailname).1 ≡ false)
      → p refused ≡ false
      → (fromemails : List Bytes) (c : Ctrl) (param mailname : Bytes)
      → p (run_command s fromemails c param mailname).1 ≡ true
      → P fromemails
  unfolding run_command
  run_command_rule p P one never none' [] c param mailname h =
      absurd (cc (h, bounces_only p c [] param mailname never none'))
  run_command_rule p P one never none' (from ∷ []) c param mailname h = one c from param mailname (
      sym (runs-with_event p (is_bounces c) (unlinked mailname) (dispatch s c from param mailname))
      ∙ h)
  run_command_rule p P one never none' (from ∷ x ∷ more) c param mailname h =
      absurd (cc (h, bounces_only p c from param mailname never none'))

  no_command_refused :
      (fromemails : List Bytes) (mailname : Bytes) → (no_command fromemails mailname).1 ≡ refused
  unfolding no_command
  no_command_refused [] mailname = refl
  no_command_refused (from ∷ []) mailname = refl
  no_command_refused (from ∷ x ∷ more) mailname = refl

  -- What holds of the switch for one sender holds of `listcontrol`, for an outcome that neither a
  -- refusal nor the handler of bounces gives.
  pub switch_rule :
      (p : Outcome → Bool) (P : List Bytes → Type 0)
      → ((c : Ctrl) (from param mailname : Bytes)
          → p (dispatch s c from param mailname).1 ≡ true
          → P (from ∷ []))
      → ((from param mailname : Bytes) → p (dispatch s bounces from param mailname).1 ≡ false)
      → p refused ≡ false
      → (fromemails : List Bytes) (controlstr mailname : Bytes) (parsed : Parsed)
      → find_command ctrl_commands controlstr ≡ parsed
      → p (listcontrol s fromemails controlstr mailname).1 ≡ true
      → P fromemails
  unfolding listcontrol
  switch_rule p P one never none' fromemails controlstr mailname invalid e h =
      absurd (cc (rw (e, listcontrol) at h, none'))
  switch_rule p P one never none' fromemails controlstr mailname unknown e h =
      absurd (cc (rw (e, listcontrol) at h, ap p (no_command_refused fromemails mailname), none'))
  switch_rule p P one never none' fromemails controlstr mailname (command c param) e h =
      run_command_rule p P one never none' fromemails c param mailname (rw (e, listcontrol) at h)

  bounces_other :
      (o : Outcome) (c : Ctrl) (from param mailname : Bytes)
      → ((from param mailname : Bytes) → (dispatch s bounces from param mailname).1 ≢ o)
      → refused ≢ o
      → (if is_bounces c then dispatch s c from param mailname else ([], refused)).1 ≢ o
  bounces_other o bounces from param mailname never differs = never from param mailname
  bounces_other o _ from param mailname never differs = differs

  same_outcome :
      (t : Bool) (e : Event) (r : List Event × Outcome) → (if t then r else with_event e r).1 ≡ r.1
  same_outcome true e r = refl
  same_outcome false e r = refl

  run_command_outcome :
      (o : Outcome) (P : List Bytes → Ctrl → Bytes → Type 0)
      → ((c : Ctrl) (from param mailname : Bytes)
          → (dispatch s c from param mailname).1 ≡ o
          → P (from ∷ []) c param)
      → ((from param mailname : Bytes) → (dispatch s bounces from param mailname).1 ≢ o)
      → refused ≢ o
      → (fromemails : List Bytes) (c : Ctrl) (param mailname : Bytes)
      → (run_command s fromemails c param mailname).1 ≡ o
      → P fromemails c param
  unfolding run_command
  run_command_outcome o P one never differs [] c param mailname h =
      absurd (bounces_other o c [] param mailname never differs h)
  run_command_outcome o P one never differs (from ∷ []) c param mailname h =
      one c from param mailname (
        sym (same_outcome (is_bounces c) (unlinked mailname) (dispatch s c from param mailname))
        ∙ h)
  run_command_outcome o P one never differs (from ∷ x ∷ more) c param mailname h =
      absurd (bounces_other o c from param mailname never differs h)

  -- An outcome that neither a refusal nor the handler of bounces gives is that of the switch, for one sender
  -- and for the command and the parameter that the search found.
  pub outcome_rule :
      (o : Outcome) (P : List Bytes → Ctrl → Bytes → Type 0)
      → ((c : Ctrl) (from param mailname : Bytes)
          → (dispatch s c from param mailname).1 ≡ o
          → P (from ∷ []) c param)
      → ((from param mailname : Bytes) → (dispatch s bounces from param mailname).1 ≢ o)
      → refused ≢ o
      → (fromemails : List Bytes) (controlstr mailname : Bytes) (parsed : Parsed)
      → find_command ctrl_commands controlstr ≡ parsed
      → (listcontrol s fromemails controlstr mailname).1 ≡ o
      → (c : Ctrl) × (param : Bytes) × (find_command ctrl_commands controlstr ≡ command c param)
        × P fromemails c param
  unfolding listcontrol
  outcome_rule o P one never differs fromemails controlstr mailname invalid e h =
      absurd (differs (rw (e, listcontrol) at h))
  outcome_rule o P one never differs fromemails controlstr mailname unknown e h =
      absurd (differs (sym (no_command_refused fromemails mailname) ∙ (rw (e, listcontrol) at h)))
  outcome_rule o P one never differs fromemails controlstr mailname (command c param) e h = (
    c,
    param,
    e,
    run_command_outcome o P one never differs fromemails c param mailname
        (rw (e, listcontrol) at h),
  )

-- ===== src/Control/Rights/Owner.antt =====
-- Who gets the list of subscribers from `listcontrol` of src/listcontrol.c.
use mlmmj.Base.{
  ◌≡◌, refl, ◌≢◌, inl, inr, Bool, true, false, Option, none, some, List, [], ◌∷◌, ◌++◌, arith,
  Bool-cases, Option-cases, Bytes, codes, length, any, ap, ◌∙◌,
}
use mlmmj.CString.{strip_prefix, case_eq}
use mlmmj.Control.{
  invalid, unknown, Ctrl, bounces, release, moderate, list, ctrl_commands, Parsed, command,
  take_param, find_command, Outcome, refused, crashes, lists, System, below,
}
use mlmmj.Control.Subscribing.{
  request_sub, on_subscribe_digest, on_subscribe_nomail, on_subscribe_both, on_subscribe, confirm,
  on_confsub_digest, on_confsub_nomail, on_confsub_both, on_confsub, on_unsubscribe,
  on_confunsub_digest, on_confunsub_nomail, on_confunsub,
}
use mlmmj.Control.Moderating.{
  on_get, on_bounces, on_permit, read_omit, send_released, release_post, on_release,
  remove_moderated, on_reject, on_obstruct, on_help, on_faq, find_owner, on_list,
}
use mlmmj.Control.Dispatch.{dispatch, no_command, run_command, listcontrol}
use mlmmj.Control.Rights.{switch_rule}

abbrev pub is_list : Outcome → Bool
is_list (lists o) = true
is_list _ = false

-- The one sender is, but for case, among the owners of a list that answers such requests.
pub record IsOwner (s : System) (fromemails : List Bytes) : Type 0 where
  pub from : Bytes
  pub owners : List Bytes
  pub sender : fromemails ≡ from ∷ []
  pub known : s.owners ≡ some owners
  pub among : any (case_eq from) owners ≡ true
  pub answers : s.statctrl "nolistsubsemail" ≡ false

find_owner-any :
    (from : Bytes) (owners : List Bytes) (o : Bytes)
    → find_owner from owners ≡ some o
    → any (case_eq from) owners ≡ true
unfolding find_owner
find_owner-any from [] o h = absurd (cc)
find_owner-any from (x ∷ owners) o h = ground (arith, find_owner-any from owners o)

module _ (s : System) where
  on_list-IsOwner : (from : Bytes) → is_list (on_list s from) ≡ true → IsOwner s (from ∷ [])
  unfolding on_list
  on_list-IsOwner from h = elim (Bool-cases (s.statctrl "nolistsubsemail")) [
    | inl k ↦ absurd (ground arith)
    | inr k ↦ elim (Option-cases s.owners) [
      | inl m ↦ absurd (ground arith)
      | inr (owners, m) ↦ elim (Option-cases (find_owner from owners)) [
        | inl n ↦ absurd (ground arith)
        | inr (o, n) ↦ record {
          from = from;
          owners = owners;
          sender = refl;
          known = m;
          among = find_owner-any from owners o n;
          answers = k;
        }
      ]
    ]
  ]

  sends-list-release : (param : Bytes) → is_list (on_release s param).1 ≡ false
  unfolding on_release release_post on_permit send_released
  sends-list-release param =
      let path = below s "/moderation/" param in sent (read_omit s (path ++ codes ".omit")).1
    where
      sent : (omit : Option Bytes) → is_list (on_release s param).1 ≡ false
      sent omit = ground arith

  -- The handlers that never send the list.
  abbrev keeps_list : Ctrl → Bool
  keeps_list list = false
  keeps_list _ = true

  dispatch-keeps_list :
      (c : Ctrl) (from param mailname : Bytes)
      → keeps_list c ≡ true
      → is_list (dispatch s c from param mailname).1 ≡ false
  unfolding dispatch on_subscribe_digest on_subscribe_nomail on_subscribe_both on_subscribe
      request_sub on_confsub_digest on_confsub_nomail on_confsub_both on_confsub confirm
      on_unsubscribe on_confunsub_digest on_confunsub_nomail on_confunsub on_bounces on_permit
      on_reject on_obstruct remove_moderated on_help on_faq on_get
  dispatch-keeps_list list from param mailname h = absurd (cc)
  dispatch-keeps_list release from param mailname h = sends-list-release param
  dispatch-keeps_list moderate from param mailname h = sends-list-release param
  dispatch-keeps_list _ from param mailname h = ground arith

  dispatch-IsOwner :
      (c : Ctrl) (from param mailname : Bytes)
      → is_list (dispatch s c from param mailname).1 ≡ true
      → IsOwner s (from ∷ [])
  unfolding dispatch
  dispatch-IsOwner list from param mailname h = on_list-IsOwner from h
  dispatch-IsOwner c from param mailname h =
      absurd (cc (h, dispatch-keeps_list c from param mailname refl))

  -- The list of subscribers is sent only for the one sender of a mail who is, but for case, among
  -- the owners, and only where control/nolistsubsemail is absent.
  pub listcontrol-IsOwner :
      (fromemails : List Bytes) (controlstr mailname : Bytes)
      → is_list (listcontrol s fromemails controlstr mailname).1 ≡ true
      → IsOwner s fromemails
  listcontrol-IsOwner fromemails controlstr mailname h =
      switch_rule s is_list (IsOwner s) dispatch-IsOwner
        (λ from param name. dispatch-keeps_list bounces from param name refl) refl fromemails
        controlstr mailname (find_command ctrl_commands controlstr) refl h

  -- A request for the list of subscribers reads through a null pointer where the list answers such
  -- requests and has no owner file.
  listcontrol-crashes :
      (from mailname : Bytes)
      → s.statctrl "nolistsubsemail" ≡ false
      → s.owners ≡ none
      → (listcontrol s (from ∷ []) (codes "list") mailname).1 ≡ crashes
  unfolding listcontrol find_command take_param strip_prefix run_command dispatch on_list
  listcontrol-crashes from mailname h k = ground arith

run_command-refused :
    (s : System) (fromemails : List Bytes) (c : Ctrl) (param mailname : Bytes)
    → length fromemails ≢ 1
    → c ≢ bounces
    → run_command s fromemails c param mailname ≡ ([], refused)
unfolding run_command
run_command-refused s (from ∷ []) c param mailname n nb = absurd (n refl)
run_command-refused s fromemails bounces param mailname n nb = absurd (nb refl)
run_command-refused s [] _ param mailname n nb = refl
run_command-refused s (from ∷ x ∷ more) _ param mailname n nb = refl

no_command-refused :
    (fromemails : List Bytes) (mailname : Bytes)
    → length fromemails ≢ 1
    → no_command fromemails mailname ≡ ([], refused)
unfolding no_command
no_command-refused [] mailname n = refl
no_command-refused (from ∷ []) mailname n = absurd (n refl)
no_command-refused (from ∷ x ∷ more) mailname n = refl

refused_parsed :
    (s : System) (fromemails : List Bytes) (controlstr mailname : Bytes) (p : Parsed)
    → find_command ctrl_commands controlstr ≡ p
    → length fromemails ≢ 1
    → ((param : Bytes) → find_command ctrl_commands controlstr ≢ command bounces param)
    → listcontrol s fromemails controlstr mailname ≡ ([], refused)
unfolding listcontrol
refused_parsed s fromemails controlstr mailname invalid e n nb = rw (e, listcontrol) refl
refused_parsed s fromemails controlstr mailname unknown e n nb =
    rw (e, listcontrol) (no_command-refused fromemails mailname n)
refused_parsed s fromemails controlstr mailname (command c param) e n nb =
    rw (e, listcontrol)
      (run_command-refused s fromemails c param mailname n
        (λ k. nb param (e ∙ ap (λ d. command d param) k)))

-- Without exactly one address in the From: header, nothing is done unless the mail is a bounce.
pub listcontrol_sender :
    (s : System) (fromemails : List Bytes) (controlstr mailname : Bytes)
    → length fromemails ≢ 1
    → ((param : Bytes) → find_command ctrl_commands controlstr ≢ command bounces param)
    → listcontrol s fromemails controlstr mailname ≡ ([], refused)
listcontrol_sender s fromemails controlstr mailname n nb =
    refused_parsed s fromemails controlstr mailname (find_command ctrl_commands controlstr) refl n
      nb

-- ===== src/Control/Dispatch.antt =====
-- `listcontrol` of src/listcontrol.c: the checks in front of the switch, and the switch.
use mlmmj.Base.{Bool, true, false, List, [], ◌∷◌, if◌then◌else◌, Bytes}
use mlmmj.Control.{
  Ctrl, subscribe_digest, subscribe_nomail, subscribe_both, subscribe, confsub_digest,
  confsub_nomail, confsub_both, confsub, unsubscribe_digest, unsubscribe_nomail, unsubscribe,
  confunsub_digest, confunsub_nomail, confunsub, bounces, release, reject, permit, obstruct,
  moderate, help, faq, get, list, ctrl_commands, invalid, command, unknown, find_command, Event,
  unlinked, Outcome, refused, System,
}
use mlmmj.Control.Subscribing.{
  on_subscribe_digest, on_subscribe_nomail, on_subscribe_both, on_subscribe, on_confsub_digest,
  on_confsub_nomail, on_confsub_both, on_confsub, on_unsubscribe, on_confunsub_digest,
  on_confunsub_nomail, on_confunsub,
}
use mlmmj.Control.Moderating.{
  on_get, on_bounces, on_permit, on_release, on_reject, on_obstruct, on_help, on_faq, on_list,
}

abbrev pub quietly : Outcome → List Event × Outcome
quietly o = ([], o)

-- The switch, with the sender's address and the parameter.
unfoldable pub dispatch : System → Ctrl → Bytes → Bytes → Bytes → List Event × Outcome
dispatch s subscribe_digest from param mailname = quietly (on_subscribe_digest s from)
dispatch s subscribe_nomail from param mailname = quietly (on_subscribe_nomail s from)
dispatch s subscribe_both from param mailname = quietly (on_subscribe_both s from)
dispatch s subscribe from param mailname = quietly (on_subscribe s from)
dispatch s confsub_digest from param mailname = on_confsub_digest s param
dispatch s confsub_nomail from param mailname = on_confsub_nomail s param
dispatch s confsub_both from param mailname = on_confsub_both s param
dispatch s confsub from param mailname = on_confsub s param
dispatch s unsubscribe_digest from param mailname = quietly (on_unsubscribe s from)
dispatch s unsubscribe_nomail from param mailname = quietly (on_unsubscribe s from)
dispatch s unsubscribe from param mailname = quietly (on_unsubscribe s from)
dispatch s confunsub_digest from param mailname = on_confunsub_digest s param
dispatch s confunsub_nomail from param mailname = on_confunsub_nomail s param
dispatch s confunsub from param mailname = on_confunsub s param
dispatch s bounces from param mailname = quietly (on_bounces s param mailname)
dispatch s release from param mailname = on_release s param
dispatch s moderate from param mailname = on_release s param
dispatch s reject from param mailname = on_reject s param
dispatch s permit from param mailname = on_permit s param
dispatch s obstruct from param mailname = on_obstruct s param
dispatch s help from param mailname = quietly (on_help s from)
dispatch s faq from param mailname = quietly (on_faq s from)
dispatch s get from param mailname = quietly (on_get s from param)
dispatch s list from param mailname = quietly (on_list s from)

abbrev pub is_bounces : Ctrl → Bool
is_bounces bounces = true
is_bounces _ = false

abbrev pub with_event : Event → List Event × Outcome → List Event × Outcome
with_event e (events, o) = (e ∷ events, o)

-- Only a bounce may come without exactly one address in the From: header; its mail is kept.
unfoldable pub run_command : System → List Bytes → Ctrl → Bytes → Bytes → List Event × Outcome
run_command s [] c param mailname =
    if is_bounces c then dispatch s c [] param mailname else ([], refused)
run_command s (from ∷ []) c param mailname =
    let r = dispatch s c from param mailname in
    if is_bounces c then r else with_event (unlinked mailname) r
run_command s (from ∷ x ∷ more) c param mailname =
    if is_bounces c then dispatch s c from param mailname else ([], refused)

-- A mail to an address that is no command: `default` of the switch, behind the same checks.
unfoldable pub no_command : List Bytes → Bytes → List Event × Outcome
no_command (from ∷ []) mailname = (unlinked mailname ∷ [], refused)
no_command _ mailname = ([], refused)

unfoldable pub listcontrol : System → List Bytes → Bytes → Bytes → List Event × Outcome
listcontrol s fromemails controlstr mailname = elim (find_command ctrl_commands controlstr) [
  | invalid ↦ ([], refused)
  | unknown ↦ no_command fromemails mailname
  | command c param ↦ run_command s fromemails c param mailname
]

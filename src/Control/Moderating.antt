-- ===== src/Control/Moderating.antt =====
-- The handlers of src/listcontrol.c for bounces, moderation, help texts, the archive and the list of
-- subscribers.
use mlmmj.Base.{
  not, ◌&&◌, Option, none, some, List, [], ◌∷◌, ◌++◌, if◌then◌else◌, Bytes, codes, all,
}
use mlmmj.CString.{is_digit, strip_prefix, case_eq, strchr}
use mlmmj.Control.{
  mlmmj_sub, mlmmj_send, mlmmj_bounce, Event, unlinked, renamed, Outcome, refused, done, exits,
  crashes, execs, replies, lists, System, argv, arg, below,
}
use mlmmj.Control.Subscribing.{has_at}

unfoldable pub on_bounces : System → Bytes → Bytes → Outcome
on_bounces s param mailname = elim (strchr b'-' param) [
  | none ↦ execs mlmmj_bounce (
      argv (
        arg "-L"
        ∷ some s.listdir
        ∷ arg "-m"
        ∷ some mailname
        ∷ arg "-n"
        ∷ some param
        ∷ arg "-d"
        ∷ []))
  | some (bouncenr, c) ↦ execs mlmmj_bounce (
      argv (
        arg "-L"
        ∷ some s.listdir
        ∷ arg "-a"
        ∷ some c
        ∷ arg "-m"
        ∷ some mailname
        ∷ arg "-n"
        ∷ some bouncenr
        ∷ []))
]

unfoldable pub on_permit : System → Bytes → List Event × Outcome
on_permit s param =
    if not (s.exists (below s "/moderation/subscribe" param)) then ([], refused) else (
      [],
      execs mlmmj_sub (argv (arg "-L" ∷ some s.listdir ∷ arg "-m" ∷ some param ∷ arg "-c" ∷ [])),
    )

-- The omit file: its removal, and the address that it holds.
unfoldable pub read_omit : System → Bytes → List Event × Option Bytes
read_omit s omitfilename =
    if not (s.exists omitfilename)
    then ([], none)
    else (unlinked omitfilename ∷ [], elim (s.first_line omitfilename) [ none ↦ none | some l ↦ l ])

unfoldable pub send_released : System → Bytes → Option Bytes → Outcome
send_released s sendfilename none =
    execs mlmmj_send (argv (arg "-L" ∷ some s.listdir ∷ arg "-m" ∷ some sendfilename ∷ []))
send_released s sendfilename (some omit) =
    execs mlmmj_send
      (argv (arg "-L" ∷ some s.listdir ∷ arg "-o" ∷ some omit ∷ arg "-m" ∷ some sendfilename ∷ []))

unfoldable pub release_post : System → Bytes → List Event × Outcome
release_post s moderatefilename =
    let sendfilename = moderatefilename ++ codes ".sending" in
    let (events, omit) = read_omit s (moderatefilename ++ codes ".omit") in
    if not (s.exists moderatefilename)
    then ([], refused)
    else if not (s.can_rename moderatefilename sendfilename)
    then ([], exits)
    else (renamed moderatefilename sendfilename ∷ events, send_released s sendfilename omit)

-- `release` and the deprecated `moderate`; `goto permit` for a moderated subscription.
unfoldable pub on_release : System → Bytes → List Event × Outcome
on_release s param = elim (strip_prefix (codes "subscribe") param) [
  | some cookie ↦ on_permit s cookie
  | none ↦ release_post s (below s "/moderation/" param)
]

-- What `reject` and `obstruct` share.
unfoldable pub remove_moderated : System → Bytes → List Event × Outcome
remove_moderated s filename =
    if not (s.exists filename)
    then ([], refused)
    else if not (s.can_unlink filename)
    then ([], exits)
    else (unlinked filename ∷ [], done)

unfoldable pub on_reject : System → Bytes → List Event × Outcome
on_reject s param = remove_moderated s (below s "/moderation/" param)

unfoldable pub on_obstruct : System → Bytes → List Event × Outcome
on_obstruct s param = remove_moderated s (below s "/moderation/subscribe" param)

unfoldable pub on_help : System → Bytes → Outcome
on_help s from = if not (has_at from) then refused else replies "listhelp" from

unfoldable pub on_faq : System → Bytes → Outcome
on_faq s from = if not (has_at from) then refused else replies "listfaq" from

unfoldable pub on_get : System → Bytes → Bytes → Outcome
on_get s from param =
    let archivefilename = below s "/archive/" param in
    if s.statctrl "noget"
    then refused
    else if s.statctrl "subonlyget" && not (s.is_subbed from)
    then refused
    else if not (all is_digit param)
    then refused
    else if not (s.exists archivefilename)
    then exits
    else execs mlmmj_send (
        argv (
          arg "-T"
          ∷ some from
          ∷ arg "-L"
          ∷ some s.listdir
          ∷ arg "-l"
          ∷ arg "6"
          ∷ arg "-m"
          ∷ some archivefilename
          ∷ arg "-a"
          ∷ arg "-D"
          ∷ []))

-- The loop over the owners.
unfoldable pub find_owner : Bytes → List Bytes → Option Bytes
find_owner from [] = none
find_owner from (o ∷ owners) = if case_eq from o then some o else find_owner from owners

unfoldable pub on_list : System → Bytes → Outcome
on_list s from = if s.statctrl "nolistsubsemail" then refused else elim s.owners [
  | none ↦ crashes
  | some owners ↦ elim (find_owner from owners) [ none ↦ refused | some o ↦ lists o ]
]

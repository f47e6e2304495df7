-- ===== src/Control/Subscribing.antt =====
-- The handlers of src/listcontrol.c for subscription and its end, and for their confirmation.
use mlmmj.Base.{
  String, Bool, false, not, ◌||◌, Option, none, some, List, [], ◌∷◌, if◌then◌else◌, Bytes,
}
use mlmmj.CString.{contains}
use mlmmj.Control.{
  Program, mlmmj_sub, mlmmj_unsub, Event, unlinked, Outcome, refused, execs, replies, System, argv,
  arg, below,
}

abbrev pub has_at : Bytes → Bool
has_at from = contains b'@' from

-- What the subscribe requests share: the guards, and the arguments after `-a address`.
unfoldable pub request_sub :
    System → Bytes → Option (String × String) → List (Option Bytes) → Outcome
request_sub s from denied args =
    let denial : Outcome = elim denied [ none ↦ refused | some (key, txt) ↦ replies txt from ] in
    let key : Bool = elim denied [ none ↦ false | some (key, txt) ↦ s.statctrl key ] in
    if s.statctrl "closedlist" || s.statctrl "closedlistsub"
    then refused
    else if not (has_at from)
    then refused
    else if key
    then denial
    else execs mlmmj_sub (argv (arg "-L" ∷ some s.listdir ∷ arg "-a" ∷ some from ∷ args))

abbrev pub confirmation : System → Option Bytes
confirmation s = if s.statctrl "nosubconfirm" then none else arg "-C"

unfoldable pub on_subscribe_digest : System → Bytes → Outcome
on_subscribe_digest s from =
    request_sub s from (some ("nodigestsub", "sub-deny-digest"))
      (arg "-d" ∷ arg "-r" ∷ arg "-c" ∷ confirmation s ∷ [])

unfoldable pub on_subscribe_nomail : System → Bytes → Outcome
on_subscribe_nomail s from =
    request_sub s from (some ("nonomailsub", "sub-deny-nomail"))
      (arg "-n" ∷ arg "-r" ∷ arg "-c" ∷ confirmation s ∷ [])

unfoldable pub on_subscribe_both : System → Bytes → Outcome
on_subscribe_both s from =
    request_sub s from (some ("nodigestsub", "sub-deny-digest"))
      (arg "-b" ∷ arg "-r" ∷ arg "-c" ∷ confirmation s ∷ [])

unfoldable pub on_subscribe : System → Bytes → Outcome
on_subscribe s from = request_sub s from none (arg "-r" ∷ arg "-c" ∷ confirmation s ∷ [])

-- What the confirmations share: the cookie's file is read and removed.
unfoldable pub confirm : System → Program → Bytes → List (Option Bytes) → List Event × Outcome
confirm s program conffilename args = elim (s.first_line conffilename) [
  | none ↦ ([], refused)
  | some tmpstr ↦ (
    unlinked conffilename ∷ [],
    execs program (argv (arg "-L" ∷ some s.listdir ∷ arg "-a" ∷ tmpstr ∷ args)),
  )
]

unfoldable pub on_confsub_digest : System → Bytes → List Event × Outcome
on_confsub_digest s param =
    confirm s mlmmj_sub (below s "/subconf/" param) (arg "-d" ∷ arg "-R" ∷ arg "-c" ∷ [])

unfoldable pub on_confsub_nomail : System → Bytes → List Event × Outcome
on_confsub_nomail s param =
    confirm s mlmmj_sub (below s "/subconf/" param) (arg "-n" ∷ arg "-R" ∷ arg "-c" ∷ [])

unfoldable pub on_confsub_both : System → Bytes → List Event × Outcome
on_confsub_both s param =
    confirm s mlmmj_sub (below s "/subconf/" param) (arg "-b" ∷ arg "-R" ∷ arg "-c" ∷ [])

unfoldable pub on_confsub : System → Bytes → List Event × Outcome
on_confsub s param = confirm s mlmmj_sub (below s "/subconf/" param) (arg "-R" ∷ arg "-c" ∷ [])

unfoldable pub on_unsubscribe : System → Bytes → Outcome
on_unsubscribe s from =
    if s.statctrl "closedlist"
    then refused
    else if not (has_at from)
    then refused
    else execs mlmmj_unsub (
        argv (
          arg "-L"
          ∷ some s.listdir
          ∷ arg "-a"
          ∷ some from
          ∷ arg "-r"
          ∷ (if s.statctrl "nosubconfirm" then arg "-c" else arg "-C")
          ∷ []))

unfoldable pub on_confunsub_digest : System → Bytes → List Event × Outcome
on_confunsub_digest s param =
    if s.statctrl "closedlist"
    then ([], refused)
    else confirm s mlmmj_unsub (below s "/unsubconf/" param) (arg "-d" ∷ arg "-R" ∷ arg "-c" ∷ [])

unfoldable pub on_confunsub_nomail : System → Bytes → List Event × Outcome
on_confunsub_nomail s param =
    if s.statctrl "closedlist"
    then ([], refused)
    else confirm s mlmmj_unsub (below s "/unsubconf/" param) (arg "-n" ∷ arg "-R" ∷ arg "-c" ∷ [])

unfoldable pub on_confunsub : System → Bytes → List Event × Outcome
on_confunsub s param =
    if s.statctrl "closedlist"
    then ([], refused)
    else confirm s mlmmj_unsub (below s "/unsubconf/" param) (arg "-R" ∷ arg "-c" ∷ [])

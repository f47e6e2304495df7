-- ===== src/Control.antt =====
-- The list control addresses (listname+command@domain), src/listcontrol.c: the table of commands, the
-- search in it, and what the handlers see of the system and do to it.
pub mod Subscribing
pub mod Moderating
pub mod Dispatch
pub mod Syntax
pub mod Safety
pub mod Rights
mod Tests
use mlmmj.Base.{
  String, Bool, true, false, not, Option, none, some, List, [], ◌∷◌, ◌++◌, ◌==◌, if◌then◌else◌,
  Bytes, codes, is_empty,
}
use mlmmj.CString.{peek, rest_of, strip_prefix, contains}

pub data Ctrl : Type 0 where
  subscribe_digest subscribe_nomail subscribe_both subscribe : Ctrl
  confsub_digest confsub_nomail confsub_both confsub : Ctrl
  unsubscribe_digest unsubscribe_nomail unsubscribe : Ctrl
  confunsub_digest confunsub_nomail confunsub : Ctrl
  bounces release reject permit obstruct moderate help faq get list : Ctrl

pub record CtrlCommand : Type 0 where
  pub ctrl : Ctrl
  pub command : Bytes
  pub accepts_parameter : Bool

abbrev row : Ctrl → String → Bool → CtrlCommand
row c s p = record { ctrl = c; command = codes s; accepts_parameter = p }

abbrev pub ctrl_commands : List CtrlCommand
ctrl_commands =
    row subscribe_digest "subscribe-digest" false
    ∷ row subscribe_nomail "subscribe-nomail" false
    ∷ row subscribe_both "subscribe-both" false
    ∷ row subscribe "subscribe" false
    ∷ row confsub_digest "confsub-digest" true
    ∷ row confsub_nomail "confsub-nomail" true
    ∷ row confsub_both "confsub-both" true
    ∷ row confsub "confsub" true
    ∷ row unsubscribe_digest "unsubscribe-digest" false
    ∷ row unsubscribe_nomail "unsubscribe-nomail" false
    ∷ row unsubscribe "unsubscribe" false
    ∷ row confunsub_digest "confunsub-digest" true
    ∷ row confunsub_nomail "confunsub-nomail" true
    ∷ row confunsub "confunsub" true
    ∷ row bounces "bounces" true
    ∷ row release "release" true
    ∷ row reject "reject" true
    ∷ row permit "permit" true
    ∷ row obstruct "obstruct" true
    ∷ row moderate "moderate" true
    ∷ row help "help" false
    ∷ row faq "faq" false
    ∷ row get "get" true
    ∷ row list "list" false
    ∷ []

-- What the search gives: the mail is refused, or a command with its parameter, or none of them.
pub data Parsed : Type 0 where
  invalid : Parsed
  command : Ctrl → Bytes → Parsed
  unknown : Parsed

-- The body of the loop at the command that fits; `r` is what follows it.
unfoldable pub take_param : CtrlCommand → Bytes → Parsed
take_param c r =
    if c.accepts_parameter
    then (if not (peek r == b'-')
        then invalid
        else if contains b'/' (rest_of r)
        then invalid
        else command c.ctrl (rest_of r))
    else if is_empty r
    then command c.ctrl []
    else invalid

unfoldable pub find_command : List CtrlCommand → Bytes → Parsed
find_command [] controlstr = unknown
find_command (c ∷ table) controlstr =
    let later = find_command table controlstr in
    elim (strip_prefix c.command controlstr) [ some r ↦ take_param c r | none ↦ later ]

pub data Program : Type 0 where
  mlmmj_sub mlmmj_unsub mlmmj_send mlmmj_bounce : Program

-- What a handler does to the files of the list.
pub data Event : Type 0 where
  unlinked : Bytes → Event
  renamed : Bytes → Bytes → Event

-- How `listcontrol` ends: it returns -1 or 0; it becomes another program; it answers with a text
-- (`prepstdreply` and `send_help`); it sends the list of subscribers to an owner (`send_list`); it
-- exits with failure; or it reads through a null pointer.
pub data Outcome : Type 0 where
  refused done exits crashes : Outcome
  execs : Program → List Bytes → Outcome
  replies : String → Bytes → Outcome
  lists : Bytes → Outcome

-- The answers of the system, by path or by name of a control file.
pub record System : Type 0 where
  pub listdir : Bytes
  pub statctrl : String → Bool
  -- `open` for reading, and then the first line with its end cut off; `some none` is an empty file
  pub first_line : Bytes → Option (Option Bytes)
  pub exists : Bytes → Bool
  pub can_rename : Bytes → Bytes → Bool
  pub can_unlink : Bytes → Bool
  pub is_subbed : Bytes → Bool
  -- `none` where control/owner does not open
  pub owners : Option (List Bytes)

-- The argument list of `execlp` ends at the first null pointer.
abbrev pub argv : List (Option Bytes) → List Bytes
argv [] = []
argv (none ∷ args) = []
argv (some a ∷ args) = a ∷ argv args

abbrev pub arg : String → Option Bytes
arg s = some (codes s)

-- A path below the list's directory.
abbrev pub below : System → String → Bytes → Bytes
below s dir name = s.listdir ++ (codes dir ++ name)

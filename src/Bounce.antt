-- ===== src/Bounce.antt =====
-- What is done with a mail that bounced, src/mlmmj-bounce.c. A file is the list of the lines that
-- `mygetline` gives.
pub mod Records
pub mod Reports
pub mod Recipients
mod Tests
use mlmmj.Base.{
  Bool, true, false, not, ◌&&◌, ◌||◌, Option, none, some, List, [], ◌∷◌, ◌++◌, if◌then◌else◌, Bytes,
  codes, take,
}
use mlmmj.CString.{str_eq, case_eq_n, strchr, strstr, strrchr}
use mlmmj.EmailAddress.Splitting.{find_email_adr}
use mlmmj.ControlFiles.{getlistaddr, getlistdelim}
use mlmmj.Headers.{Header, headers}
use mlmmj.Names.{genlistname, genlistfqdn}
use mlmmj.Versions.{lowercase}

-- What is done to files. A name stands for the file in bounce/, subconf/ or unsubconf/, and the mail is
-- the file that -m names.
pub data Event : Type 0 where
  removes_mail : Event
  removes_subconf removes_unsubconf removes_probe : Bytes → Event
  -- the name without -probe
  writes_probe : Bytes → Bytes → Event
  appends : Bytes → Bytes → Event
  -- the mail becomes the file of this name with .lastmsg
  keeps_mail : Bytes → Event

-- How the program ends: it exits, or an assertion fails, or it becomes mlmmj-send with a probe for this
-- address and from this one.
pub data End : Type 0 where
  exit_success exit_failure aborts : End
  sends_probe : Bytes → Bytes → End

abbrev pub Outcome : Type 0
Outcome = List Event × End

pub record BounceOptions : Type 0 where
  pub has_listdir : Bool
  pub address : Option Bytes
  pub number : Option Bytes
  pub has_mailname : Bool
  pub dsnbounce : Bool
  pub probe : Bool

-- What the system and the list say. `may_run` is whether the list directory is there and belongs to the
-- user, or the user is root. `mail` is the file that -m names, if it opens.
pub record System : Type 0 where
  pub may_run : Bool
  pub mail : Option (List Bytes)
  pub listaddress : Option Bytes
  pub delimiter : Option Bytes
  pub is_subbed : Bytes → Bool
  pub is_link : Bytes → Bool
  pub opens : Bytes → Bool
  pub time : Bytes
  pub ctime : Bytes

abbrev first_email : Bytes → Option Bytes
first_email s = elim (find_email_adr s) [
  | none ↦ none
  | some emails ↦ elim emails [ [] ↦ none | email ∷ more ↦ some email ]
]

-- The loop of `dsnparseaddr`, with `indsn`.
unfoldable pub search_dsn : Bool → List Header → Option Bytes
unfolding strstr lowercase case_eq_n find_email_adr
search_dsn indsn [] = none
search_dsn indsn (line ∷ lines) =
    let later = search_dsn true lines in
    let later_same = search_dsn indsn lines in
    elim (strstr (codes "message/delivery-status") (lowercase line.0)) [
      | some _ ↦ later
      | none ↦
          if indsn && not (case_eq_n 16 line.0 (codes "Final-Recipient:"))
          then elim (strchr b';' line.0) [
            | none ↦ none
            | some (before, behind) ↦ first_email behind
          ]
          else later_same
    ]

unfoldable pub dsnparseaddr : Option (List Bytes) → Option Bytes
unfolding search_dsn
dsnparseaddr none = none
dsnparseaddr (some lines) = search_dsn false (headers lines).0

-- `snprintf` writes at most 43 characters and a null character into the buffer of 70 bytes.
unfoldable pub bounce_line : Bytes → Bytes → Bytes → Bytes
bounce_line number time ctime = take 43 (number ++ b':' ∷ (time ++ codes " # ")) ++ ctime

-- `do_probe`, for an address with `=` in place of `@`.
unfoldable pub do_probe : System → Bytes → Outcome
unfolding getlistaddr getlistdelim genlistname genlistfqdn strrchr
do_probe s addr = elim (getlistdelim s.delimiter) [
  | none ↦ ([], exit_failure)
  | some listdelim ↦ elim (getlistaddr s.listaddress) [
    | none ↦ ([], exit_failure)
    | some listaddr ↦ elim (genlistname listaddr) [
      | none ↦ ([], exit_failure)
      | some listname ↦ elim (genlistfqdn listaddr) [
        | none ↦ ([], exit_failure)
        | some listfqdn ↦
            let from : Bytes =
              listname ++ (listdelim ++ (codes "bounces-probe-" ++ (addr ++ b'@' ∷ listfqdn))) in
            elim (strrchr b'=' addr) [
              | none ↦ ([], exit_failure)
              | some (name, domain) ↦ (
                (if s.opens (addr ++ codes "-probe")
                    then writes_probe addr (take 30 s.time) ∷ []
                    else []),
                sends_probe (name ++ b'@' ∷ domain) from,
              )
            ]
      ]
    ]
  ]
]

-- A bounce of an address that is not a special one. `gone` is what happens to the mail that is there.
unfoldable pub record_bounce : System → Bool → Bytes → Bytes → Outcome
unfolding bounce_line strrchr
record_bounce s has_mail address number =
    let mail_gone : List Event = if has_mail then removes_mail ∷ [] else [] in
    elim (strrchr b'=' address) [
      | none ↦ (mail_gone, exit_success)
      | some (name, domain) ↦
          if not (s.is_subbed (name ++ b'@' ∷ domain))
          then (mail_gone, exit_success)
          else if s.is_link address
          then ([], exit_failure)
          else if not (s.opens address)
          then ([], exit_failure)
          else (
            appends address (bounce_line number s.time s.ctime)
                ∷ (if has_mail then keeps_mail address ∷ [] else []),
            exit_success,
          )
    ]

-- With the address in lower case.
unfoldable pub handle_bounce : System → Bool → Bytes → Option Bytes → Bool → Outcome
unfolding do_probe record_bounce str_eq
handle_bounce s has_mail address none probe = do_probe s address
handle_bounce s has_mail address (some number) probe =
    let mail_gone : List Event = if has_mail then removes_mail ∷ [] else [] in
    if probe
    then ([], exit_failure)
    else if str_eq number (codes "confsub")
    then (removes_subconf address ∷ mail_gone, exit_success)
    else if str_eq number (codes "confunsub")
    then (removes_unsubconf address ∷ mail_gone, exit_success)
    else if str_eq number (codes "probe")
    then (removes_probe address ∷ mail_gone, exit_success)
    else record_bounce s has_mail address number

abbrev pub is_given : Option Bytes → Bool
is_given none = false
is_given (some _) = true

abbrev pub behind : List Event → Outcome → Outcome
behind before (after, end) = (before ++ after, end)

unfoldable pub bounce_main : BounceOptions → System → Outcome
unfolding handle_bounce dsnparseaddr lowercase strrchr
bounce_main o s =
    if not o.has_listdir
      || (not (is_given o.address) && not o.dsnbounce)
      || (not (is_given o.number) && not o.probe)
    then ([], exit_failure)
    else if not s.may_run
    then ([], exit_failure)
    else if o.dsnbounce
    then (let mail_gone : List Event = if o.has_mailname then removes_mail ∷ [] else [] in
        elim (dsnparseaddr s.mail) [
          | none ↦ (mail_gone, exit_success)
          | some address ↦ elim (strrchr b'@' address) [
            | none ↦ (mail_gone, aborts)
            | some (name, domain) ↦
                behind mail_gone
                  (handle_bounce s false (lowercase (name ++ b'=' ∷ domain)) o.number o.probe)
          ]
        ])
    else elim o.address [
      | none ↦ ([], exit_failure)
      | some address ↦ handle_bounce s o.has_mailname (lowercase address) o.number o.probe
    ]

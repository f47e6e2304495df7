-- ===== src/Process.antt =====
-- What mlmmj-process does with a mail that came in, src/mlmmj-process.c: what it sees of the list, the
-- files it moves, how it ends, and what it does with a mail that is to be moderated.
pub mod Addressing
pub mod Posting
pub mod Main
pub mod Gate
pub mod Spooling
pub mod Extension
mod Tests
use mlmmj.Base.{
  String, Bool, true, false, ◌&&◌, Option, none, some, List, [], ◌∷◌, ◌++◌, if◌then◌else◌, Bytes,
  codes, any,
}
use mlmmj.CString.{case_eq}
use mlmmj.Headers.{chomp}
use mlmmj.ControlFiles.{getlines, getlistdelim, statctrl}
use mlmmj.Names.{genlistname, genlistfqdn}
use mlmmj.Access.{Regex}
use mlmmj.Control.{System, Event, Outcome}
use mlmmj.Subscribers.{ListDir}

-- `enum modreason`
pub data ModReason : Type 0 where
  modnonsubposts modnonmodposts access moderated : ModReason

-- The reasons that `open_text` is given for a denial.
pub data Denial : Type 0 where
  by_maxmailsize by_tocc by_access by_subonlypost by_modonlypost : Denial

pub data Text : Type 0 where
  denial_text : Denial → Text
  moderation_text wait_text : ModReason → Text

-- What the program sees of the list and of its environment.
pub record Site : Type 1 where
  pub regex : Regex
  pub system : System
  pub subscribers : ListDir
  -- the text of a control file, or `none` where it does not open
  pub control : String → Option Bytes
  pub getenv : String → Option Bytes
  -- whether the text opens and `prepstdreply` writes it to a file of the queue
  pub prepares : Text → Bool

-- Whether the calls work that the program makes on its files.
pub record SystemCalls : Type 0 where
  pub opens_done : Bool
  pub opens_mail : Bool
  pub opens_again : Bool
  pub copies_headers : Bool
  pub copies_footer : Bool
  pub copies_mail : Bool
  pub stats_done : Bool
  pub discards_mail : Bool
  pub discards_done : Bool
  pub queues : Bool
  pub opens_omit : Bool
  pub writes_omit : Bool
  pub forks : Bool
  -- whether mlmmj-send can be run with the text of a denial
  pub execs_denial : Bool

pub data Kept : Type 0 where
  as_received as_prepared : Kept

-- The files: the mail as it came in, queue/RANDOM, queue/discarded/RANDOM, moderation/RANDOM, and
-- moderation/RANDOM.omit. `unlink` is taken to work.
pub record Spool : Type 0 where
  pub mailfile : Bool
  pub donemail : Bool
  pub discarded : Option Kept
  pub moderation : Bool
  pub omit : Option Bytes

-- How the program ends: it exits; it reads through a null pointer or frees twice; or it ends in
-- `listcontrol`; or it becomes mlmmj-send, or where that fails for a denial, exits behind the removal of the mail.
pub data End : Type 0 where
  exit_success exit_failure crash : End
  controls : List Event × Outcome → End
  -- with the envelope sender and the mail
  to_owner : Bytes → Bytes → End
  -- with the poster and the envelope sender
  denies : Denial → Bytes → Bytes → End
  -- mlmmj-send can not be run for a denial, behind the removal of the mail: an exit with failure
  unanswered : Denial → End
  -- with the envelope sender; the only moderator that is told, or all of them; and whether a child
  -- became mlmmj-send for the poster
  moderates : ModReason → Bytes → Option Bytes → Bool → End
  -- with the mail, and the address that is left out
  posts : Bytes → Option Bytes → End

-- The mail, when its headers are read.
pub record Post : Type 0 where
  pub listaddr : Bytes
  pub posteraddr : Bytes
  pub efrom : Bytes
  pub allheaders : List Bytes
  pub prepared : Bytes
  pub addrtocc : Bool
  pub intocc : Bool
  pub noprocess : Bool

abbrev pub is_address : Option Bytes → Bytes → Bool
is_address none line = false
is_address (some address) line = case_eq line address

abbrev pub chomped : List Bytes → List Bytes
chomped [] = []
chomped (line ∷ lines) = chomp line ∷ chomped lines

-- What `*moderators` becomes, NULL at first.
abbrev gathered : List Bytes → Option Bytes
gathered [] = none
gathered (line ∷ lines) = some (line ++ b'\n' ∷ elim (gathered lines) [ none ↦ [] | some s ↦ s ])

-- Whether the address was found, with `*moderators`. `none` is the end of the program.
unfoldable pub is_moderator : Option Bytes → Option Bytes → Option (Bool × Option Bytes)
unfolding case_eq chomp getlines
is_moderator none address = none
is_moderator (some file) address =
    let lines = chomped (getlines file) in some (any (is_address address) lines, gathered lines)

-- The name, the delimiter, the text and the domain. `none` is the end of the program.
unfoldable pub from_address : Site → Bytes → Bytes → Option Bytes
unfolding getlistdelim genlistname genlistfqdn
from_address S listaddr text = elim (getlistdelim (S.control "delimiter")) [
  | none ↦ none
  | some delim ↦ elim (genlistname listaddr) [
    | none ↦ none
    | some name ↦ elim (genlistfqdn listaddr) [
      | none ↦ none
      | some fqdn ↦ some (name ++ (delim ++ (text ++ fqdn)))
    ]
  ]
]

module _ (S : Site) (C : SystemCalls) where
  -- With the sender that is the only moderator to be told, if it is one.
  unfoldable pub tell_moderators : Bytes → ModReason → Option Bytes → End
  unfolding from_address
  tell_moderators listaddr reason efromismod = elim (from_address S listaddr (codes "owner@")) [
    | none ↦ exit_failure
    | some from ↦
        if S.prepares (moderation_text reason)
        then moderates reason from efromismod (
            is_none efromismod
            && S.system.statctrl "notifymod"
            && C.forks
            && S.prepares (wait_text reason))
        else exit_failure
  ]
    where
      is_none : Option Bytes → Bool
      is_none none = true
      is_none (some _) = false

  -- `init_memory_lines` takes the length of the moderators, and crashes where there are none.
  unfoldable pub newmoderated : Post → ModReason → End
  unfolding tell_moderators is_moderator
  newmoderated p reason =
      let efromismod : Option Bytes =
        if S.system.statctrl "ifmodsendonlymodmoderate" then some p.efrom else none in
      elim (is_moderator (S.control "moderators") efromismod) [
        | none ↦ exit_failure
        | some (true, moderators) ↦ tell_moderators p.listaddr reason efromismod
        | some (false, none) ↦ crash
        | some (false, some moderators) ↦ tell_moderators p.listaddr reason none
      ]

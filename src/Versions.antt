-- ===== src/Versions.antt =====
-- The programs that change subscriptions, `main` of src/mlmmj-sub.c and of src/mlmmj-unsub.c, over an
-- interface for the three directories of subscribers. `Leaving` and `Joining` have the programs, and
-- `Waiting` the subscriptions that wait for a moderator.
pub mod Leaving
pub mod Waiting
pub mod Joining
pub mod Switching
pub mod Subscribed
pub mod Reading
pub mod Directories
pub mod Gaining
pub mod Newcomer
mod Tests
use mlmmj.Base.{String, Bool, Option, List, [], ◌∷◌, Bytes}
use mlmmj.CString.{tolower}
use mlmmj.Subscribers.{Subtype, sub_normal, sub_digest, sub_nomail}
use mlmmj.Subscribers.Membership.{subtype_of}

-- The directories of one list, for one address. A type stands for the directory that `subdir` gives
-- it; `none` is the end of the program.
pub record Store : Type 1 where
  pub State : Type 0
  pub is_subbed_in : State → Subtype → Bool
  pub subscribe_type : State → Subtype → Option State
  pub unsubscribe_type : State → Subtype → Option State

-- `is_subbed`, from its answers about the three directories
abbrev pub type_of : (S : Store) → S.State → Bool → Subtype
type_of S st both =
    subtype_of (S.is_subbed_in st sub_normal) (S.is_subbed_in st sub_digest)
      (S.is_subbed_in st sub_nomail) both

-- `enum subreason`
pub data Reason : Type 0 where
  admin request confirm permit switch bouncing : Reason

-- How a program ends: it exits, or goes through a null pointer, or becomes mlmmj-send with one of
-- the answers.
pub data End : Type 0 where
  exit_success exit_failure crash : End
  -- generate_subscribed, generate_notsubscribed
  told_subscribed told_not_subscribed : Subtype → End
  -- generate_subconfirm, generate_unsubconfirm
  asks_confirmation : Subtype → Reason → End
  -- moderate_sub, with the addresses of the moderators
  asks_moderators : Subtype → List Bytes → End
  -- confirm_sub, confirm_unsub
  welcomes : Subtype → Reason → End
  -- notify_sub, notify_unsub
  notifies_owner : Subtype → Reason → End

-- The state, how the program ends, and whether a child became mlmmj-send for the subscriber.
abbrev pub Outcome : Store → Type 0
Outcome S = S.State × (End × Bool)

-- What the programs see of the list.
pub record Here : Type 0 where
  pub listaddress : Option Bytes
  pub delimiter : Option Bytes
  pub statctrl : String → Bool
  pub submod : Option Bytes
  pub owner : Option Bytes
  pub forks : Bool

-- `tolower` on each character
unfoldable pub lowercase : Bytes → Bytes
unfolding tolower
lowercase [] = []
lowercase (c ∷ s) = tolower c ∷ lowercase s

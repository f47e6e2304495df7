-- ===== src/Versions/Tests.antt =====
-- Runs of mlmmj-sub and mlmmj-unsub on a list with two subscribers, and the witnesses.
use mlmmj.Base.{◌++◌, ◌≡◌, refl, true, false, Option, none, some, [], ◌∷◌, Bytes, codes}
use mlmmj.Subscribers.{
  is_dots, sub_none, matches, scan, find_subscriber, Entry, search_dir, sub_normal, sub_digest,
}
use mlmmj.CString.{contains, str_eq, case_eq_n}
use mlmmj.ControlFiles.{getlistaddr, getlistdelim}
use mlmmj.Subscribers.Erase.{IsLine}
use mlmmj.Subscribers.Append.{IsSound, Succeeds}
use mlmmj.Versions.{type_of, Store, request, exit_success, crash, asks_moderators, Here, lowercase}
use mlmmj.Versions.Gaining.{AreSound, GetsInto}
use mlmmj.Versions.Newcomer.{sub_main-GetsInto}
use mlmmj.Base.{◌≡◌, refl, true, false, Option, none, some, [], ◌∷◌, Bytes, codes, ◌++◌}
use mlmmj.Subscribers.{
  Entry, sub_normal, sub_digest, search_dir, find_subscriber, scan, matches, is_dots, sub_none,
}
use mlmmj.Subscribers.Change.{AppendCalls, new_entry, append_to, subscribe_type}
use mlmmj.CString.{case_eq_n, str_eq, contains}
use mlmmj.Versions.Directories.{OpenDirs, directories}
use mlmmj.Versions.{Store, request, exit_success, crash, asks_moderators, Here, lowercase, type_of}
use mlmmj.Versions.Waiting.{moderate_sub}
use mlmmj.Versions.Joining.{SubOptions, join, sub_main}
use mlmmj.Versions.Subscribed.{sub_main-moderated}
use mlmmj.Base.{[], ◌∷◌, codes, ◌≡◌, refl, true, false, Option, none, some, Bytes, ◌++◌}
use mlmmj.Headers.{cut_newlines}

abbrev appends : AppendCalls
appends = record {
  lock_opens = true;
  lock_taken = true;
  file_opens = true;
  file_locked = true;
  writes = true;
}

abbrev file_of : Bytes → Bytes → Entry
file_of name s = new_entry name s

-- Al reads the list, and Jo its digests.
abbrev members : OpenDirs
members = (
  file_of (codes "a") (codes "al@example.org\n") ∷ [],
  (file_of (codes "j") (codes "jo@example.org\n") ∷ [], []),
)

abbrev here : Here
here = record {
  listaddress = some (codes "list@example.org\n");
  delimiter = none;
  statctrl = λ name. true;
  submod = some (codes "mod@example.org\n");
  owner = none;
  forks = true;
}

abbrev asked : Option Bytes → SubOptions
asked address = record {
  has_listdir = true;
  address = address;
  modfile = none;
  digest = true;
  nomail = false;
  both = false;
  confirmsub = true;
  subconfirm = false;
  force = false;
  quiet = false;
  nogensubscribed = false;
  reason = request;
}

abbrev bob : Bytes
bob = codes "Bob@example.org"

abbrev of_bob : Store
of_bob = directories appends (codes "bob@example.org")

sub_main-moderated_example : (sub_main of_bob here (asked (some bob)) members).0 ≡ members
unfolding search_dir find_subscriber scan matches case_eq_n str_eq
sub_main-moderated_example =
    sub_main-moderated of_bob here (asked (some bob)) members refl refl refl (refl, refl, refl)

-- The moderators get the question, and nothing else happens.
asks_mod :
    sub_main of_bob here (asked (some bob)) members
    ≡ (members, (asks_moderators sub_digest (codes "mod@example.org" ∷ []), false))
unfolding sub_main cut_newlines lowercase search_dir find_subscriber scan matches case_eq_n str_eq
asks_mod = refl

-- On a list without moderators, Bob gets into the file of his first letter.
joins_digest :
    (sub_main of_bob
      (record here { statctrl = λ name. false })
      (record (asked (some bob)) { confirmsub = false })
      members).0
    ≡ (
      members.0,
      (
        file_of (codes "j") (codes "jo@example.org\n")
            ∷ file_of (codes "b") (codes "bob@example.org\n")
            ∷ [],
        [],
      ),
    )
unfolding sub_main join subscribe_type append_to cut_newlines lowercase search_dir find_subscriber
    scan matches case_eq_n str_eq
joins_digest = refl

-- A line without an address at the end of control/submod hides the moderators above it, and without an
-- owner the program goes through a null pointer.
hides_mods :
    moderate_sub (record here { submod = some (codes "mod@example.org\nnobody\n") }) sub_normal
    ≡ crash
unfolding moderate_sub cut_newlines
hides_mods = refl

-- An address that only begins with the list address cannot subscribe.
refuses_longer :
    sub_main
      (directories appends (codes "list@example.org.uk"))
      here
      (asked (some (codes "list@example.org.uk")))
      members
    ≡ (members, (exit_success, false))
unfolding sub_main cut_newlines lowercase search_dir find_subscriber scan matches case_eq_n str_eq
refuses_longer = refl

abbrev one_line : Bytes → Bytes → Entry
one_line name address = file_of name (address ++ b'\n' ∷ [])

one_line-IsSound :
    (name address : Bytes) → is_dots name ≡ false → IsLine address → IsSound (one_line name address)
one_line-IsSound name address n h = record {
  plain = record {
    name = n;
    opens = refl;
    readable = record { stat = refl; file = refl; mmap = refl };
  };
  whole = record { parts = address ∷ []; each = (h, tt); whole = refl };
}

abbrev unmoderated : Here
unmoderated = record here { statctrl = λ name. false }

appends_work : Succeeds appends
appends_work = record {
  lock_opens = refl;
  lock_taken = refl;
  file_opens = refl;
  file_locked = refl;
  writes = refl;
}

members-AreSound : AreSound members
unfolding str_eq contains
members-AreSound = (
  (one_line-IsSound (codes "a") (codes "al@example.org") refl refl, tt),
  (one_line-IsSound (codes "j") (codes "jo@example.org") refl refl, tt),
  tt,
)

bob_is_new : type_of of_bob members true ≡ sub_none
unfolding search_dir find_subscriber scan matches case_eq_n str_eq
bob_is_new = refl

sub_main-GetsInto_example :
    GetsInto sub_digest
      (codes "bob@example.org")
      members
      (sub_main of_bob unmoderated (asked (some bob)) members).0
unfolding getlistaddr getlistdelim case_eq_n contains lowercase cut_newlines str_eq
sub_main-GetsInto_example =
    sub_main-GetsInto appends unmoderated (asked (some bob)) bob (codes "list@example.org")
      (codes "+") members appends_work
      (record { unmoderated = refl; unconfirmed = refl; by_address = refl }) refl refl refl refl
      refl refl refl refl refl members-AreSound bob_is_new

-- ===== src/Delivery.antt =====
-- How mlmmj-send delivers mails, src/mlmmj-send.c: the addresses that bounces go to, and what is said
-- to the server and heard of it. `Dialogue` has the dialogues, and `Queue` the lists of addresses.
pub mod Dialogue
pub mod Queue
pub mod Protocol
pub mod Pending
pub mod Kept
pub mod Bounces
mod Tests
use mlmmj.Base.{
  ◌+◌, ◌-◌, Option, none, some, [], ◌∷◌, ◌++◌, ltb, if◌then◌else◌, Bytes, codes, length, take,
}
use mlmmj.CString.{str_eq, strchr, strstr, strrchr}
use mlmmj.Names.{genlistname, genlistfqdn}
use mlmmj.Reply.{ReplyType}

abbrev without_mailfile : Bytes → Bytes
without_mailfile [] = []
without_mailfile (c ∷ s) =
    let later = without_mailfile s in if str_eq (c ∷ s) (codes "/mailfile") then [] else c ∷ later

-- A name of at most nine bytes is left as it is.
unfoldable pub get_index_from_filename : Bytes → Bytes
unfolding strrchr str_eq
get_index_from_filename filename =
    let name : Bytes = if ltb 9 (length filename) then without_mailfile filename else filename in
    elim (strrchr b'/' name) [ none ↦ name | some (dir, index) ↦ index ]

-- The recipient with its first `@` made a `=`.
unfoldable pub with_equals : Bytes → Bytes
unfolding strchr
with_equals recipient = elim (strchr b'@' recipient) [
  | none ↦ recipient
  | some (name, domain) ↦ name ++ b'=' ∷ domain
]

-- With control/staticbounceaddr. The inner option is NULL, and the outer one the end of the program,
-- for an address without `@` in that file.
unfoldable pub bounce_from_adr :
    Option Bytes → Bytes → Bytes → Bytes → Bytes → Option (Option Bytes)
unfolding genlistname genlistfqdn with_equals strchr get_index_from_filename
bounce_from_adr staticbounceaddr recipient listadr listdelim mailfilename =
    elim (strchr b'@' listadr) [
      | none ↦ some none
      | some (name, listdomain) ↦
          let tail : Bytes = get_index_from_filename mailfilename ++ b'-' ∷ with_equals recipient in
          elim staticbounceaddr [
            | none ↦
                some
                  (some (name ++ (listdelim ++ (codes "bounces-" ++ (tail ++ b'@' ∷ listdomain)))))
            | some static ↦ elim (genlistname static) [
              | none ↦ none
              | some localpart ↦ elim (genlistfqdn static) [
                | none ↦ none
                | some domain ↦ some (
                    some (
                      localpart
                      ++ (listdelim ++ (name ++ (codes "-bounces-" ++ (tail ++ b'@' ∷ domain))))))
              ]
            ]
          ]
    ]

-- What `bouncemail` makes of the envelope sender: nothing, or the arguments -a and -n of mlmmj-bounce,
-- or a read through a null pointer.
pub data Bounced : Type 0 where
  malformed crashing : Bounced
  arguments : Bytes → Bytes → Bounced

-- `num` is what stands behind the last `-`, and `rest` what stands behind the first one from the
-- delimiter on. Where that is the same `-`, the length of the copy wraps around.
unfoldable pub read_bounce : Bytes → Bytes → Bounced
unfolding strchr strrchr strstr
read_bounce listdelim sender = elim (strchr b'@' sender) [
  | none ↦ malformed
  | some (myfrom, domain) ↦ elim (strrchr b'-' myfrom) [
    | none ↦ crashing
    | some (before, num) ↦ elim (strstr listdelim myfrom) [
      | none ↦ crashing
      | some (name, c) ↦ elim (strchr b'-' c) [
        | none ↦ crashing
        | some (command, rest) ↦
            if ltb (length num) (length rest)
            then arguments num (take (length rest - (length num + 1)) rest)
            else crashing
      ]
    ]
  ]
]

pub data Command : Type 0 where
  helo_ ehlo_ : Bytes → Command
  -- the sender, and what stands behind it
  mail_from : Bytes → Bytes → Command
  rcpt_to : Bytes → Command
  data_command : Command
  reply_to : Bytes → Command
  text : Bytes → Command
  dot_ quit_ rset_ : Command

-- What is said to the server, and what it answers: NULL for a reply that fits.
pub data Event : Type 0 where
  says : Command → Event
  hears : ReplyType → Option Bytes → Event

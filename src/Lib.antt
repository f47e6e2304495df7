-- ===== src/Lib.antt =====
-- mlmmj, a mailing list manager: a verification library for its decisions and its text formats.
--
-- A mail to a list is stored by mlmmj-receive and handled by mlmmj-process (src/mlmmj-process.c). The
-- recipient address says what the mail is: a post, or a request to a control address such as
-- list+subscribe@domain. A request goes to `listcontrol` (src/listcontrol.c), which answers it or
-- becomes mlmmj-sub, mlmmj-unsub, mlmmj-send or mlmmj-bounce. A post is held against the access rules
-- (`do_access`) and goes to mlmmj-send, which reads the subscribers in portions and talks SMTP.
-- Subscribers are lines in the files of three directories of the list (src/subscriberfuncs.c,
-- src/mlmmj-sub.c, src/mlmmj-unsub.c).
--
-- Parts, by file:
--   Base, CString  what all parts share: byte strings, Boolean tests, and the functions of the C
--                  library on strings. They model no code of the repository.
--   Subscribers    src/subscriberfuncs.c: `find_subscriber`, `is_subbed_in`, `is_subbed`. A directory
--                  is the list of its entries, with what each system call answers. Change has the
--                  writers, `unsubscribe` and `unsubscribe_type` of src/mlmmj-unsub.c and
--                  `subscribe_type` of src/mlmmj-sub.c. Lines, Membership, Erase, Append, Unsubscribe
--                  and Removal have the proofs.
--   Versions       `main` of src/mlmmj-sub.c and of src/mlmmj-unsub.c, over an interface for the three
--                  directories that Subscribers changes: Joining and Leaving have the programs, Waiting the
--                  subscriptions that wait for a moderator. Directories fills the interface with
--                  the functions of Subscribers, and Switching has the versions of a subscription. Gaining, Newcomer,
--                  Subscribed and Reading have the proofs.
--   Access         `do_access` of src/mlmmj-process.c, over an interface for regular expressions.
--   Recipient      `addrmatch` of src/mlmmj-process.c.
--   EmailAddress   src/find_email_adr.c: the addresses of a header. Splitting has the commas, Ending the
--                  proof that the loops end, Plain what is found of headers of the usual forms.
--   ControlFiles   src/statctrl.c, src/ctrlvalue.c, src/ctrlvalues.c, src/getlistaddr.c and
--                  src/getlistdelim.c.
--   Process        `main`, `newmoderated` and `is_moderator` of src/mlmmj-process.c. Addressing finds
--                  the extension of the address, Posting has the tests of a post in their order, and
--                  Main what is in front of them. The result is the files that are left, and how the
--                  program ends. Gate, Spooling and Extension have the proofs.
--   Delivery       src/mlmmj-send.c but its `main`: the addresses that bounces go to. Dialogue has what
--                  is said to the server and heard of it, Queue the lists of addresses and what is kept
--                  for a later run. Protocol, Pending, Kept and Bounces have the proofs.
--   Bounce         src/mlmmj-bounce.c, which mlmmj-send runs with what Delivery reads of the address of a
--                  bounce. Records, Reports and Recipients have the proofs.
--   Maintenance    the maintenance of bounces in src/mlmmj-maintd.c, which reads what Bounce writes. Files,
--                  Due and Unsubscribed have the proofs.
--   Texts          src/prepstdreply.c: Opening finds a text; Conditionals, Directives and Settings have the
--                  directives of a line, Sources what the lines are read from, Line the loop over the
--                  characters of a line, Reading the loop over lines, and Headers the mail that is made of
--                  them, over an interface for what gives the lines. Ending, Standard,
--                  Initial, Mail, Plain and Whole have the proofs, Nodes what lines with nested conditionals
--                  mean, and Dealing, Holding, Stepping, Branching, Nested and Choosing that this is given of them.
--   Headers        src/chomp.c, src/gethdrline.c, `cleanquotedp` of src/strgen.c and
--                  src/do_all_the_voodoo_here.c: what is done to the headers of a post.
--   Names          src/strgen.c: the parts of the address of the list, and cookies.
--   Control        src/listcontrol.c: the table and the search in it. Subscribing and Moderating have
--                  one function for each case of the switch, Dispatch the switch and the checks in
--                  front of it. The result is what was done to files, and how the call ends. Syntax,
--                  Safety and Rights have the proofs.
--   Unistr         src/unistr.c: UTF-8. Header has the encoded words, Escaped the escapes of texts.
--   Smtp           src/mail-functions.c: the text that is sent after DATA.
--   Reply          src/checkwait_smtpreply.c, include/checkwait_smtpreply.h and src/mygetline.c.
--   Addresses      src/getaddrsfromfd.c, over the files of Subscribers.
-- Each part has its concrete runs in a module Tests.
--
-- Bounds: a `size_t` has 64 bits, and a write of more than 2 ^ 63 - 1 bytes fails; the subtraction
-- that can wrap around, in `unsubscribe`, is written modulo 2 ^ 64. Characters have 32 bits, and so
-- has the accumulator of `decode_base64`. A loop is recursion on its input,
-- but for those of src/find_email_adr.c that jump ahead or come back to the same comma: they take the
-- length of the text as fuel, and EmailAddress/Ending shows that this is enough. The loops of src/prepstdreply.c
-- do not end for every text, since a value may name itself: they take fuel too, and say when it is used up.
--
-- Not modelled: memory allocation, so its failures too; what is logged, but for the line of
-- `do_access`; locks as such, beyond their success or failure; the .lock files that stand
-- beside a subscriber file, and a new file that `readdir` gives in the loop that made it; other processes that change files at the same time; the
-- mails that listcontrol and mlmmj-process have made, of which only the name of the text stands in an outcome; in
-- Texts, the loop that looks for a free name in queue/ and the six random numbers, which are given, and the
-- iteration over the lists that a text includes, which are lists of their lines, and a write behind the end of a
-- buffer, which ends the run in the model; a failing `unlink`
-- in mlmmj-process, a failing `execlp` there but for a denial, writes of commands to a socket that fail (their results are compared
-- without a sign), a write to the requeue that fails in the middle, and a `stat` that fails on a control file that is there; the name and
-- the removal of a file in moderation/, and the mails that mlmmj-sub and mlmmj-unsub end with, of which only the
-- kind stands in an outcome; in src/mlmmj-maintd.c, all but the maintenance of bounces. iconv and the
-- regular expressions enter as parameters.
pub mod Base
pub mod CString
pub mod Subscribers
pub mod Access
pub mod Recipient
pub mod Control
pub mod Smtp
pub mod Reply
pub mod Unistr
pub mod Addresses
pub mod Headers
pub mod Names
pub mod EmailAddress
pub mod ControlFiles
pub mod Process
pub mod Delivery
pub mod Bounce
pub mod Maintenance
pub mod Texts
pub mod Versions

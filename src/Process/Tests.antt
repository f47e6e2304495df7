-- ===== src/Process/Tests.antt =====
-- The examples of the processing of mails, and runs of the code of src/mlmmj-process.c.
use mlmmj.Base.{
  String, ◌≡◌, refl, true, false, not, ◌&&◌, Option, none, some, List, [], ◌∷◌, ◌==◌, if◌then◌else◌,
  Bytes, codes, length, any,
}
use mlmmj.CString.{str_eq, case_eq}
use mlmmj.ControlFiles.{ctrlvalues}
use mlmmj.Access.{Regex}
use mlmmj.Process.{moderated, Site, SystemCalls, moderates, posts, Post}
use mlmmj.Process.Main.{values_at, Mail, post_of, check_from, route, read_mail, process, Arguments}
use mlmmj.Process.Addressing.{get_emails, find_recipient, Emails, address_extension}
use mlmmj.Headers.{cut_newlines, headers_after, headers}
use mlmmj.Process.Gate.{is_post, admits, no_extra, check_from-post}
use mlmmj.Process.Spooling.{taken, queued}
use mlmmj.Process.Extension.{find_recipient-environment}
use mlmmj.Control.{System}

abbrev everything : Regex
everything = record { Compiled = Bytes; compile = λ p. some p; exec = λ p s. true }

abbrev system_with : List Bytes → System
system_with keys = record {
  listdir = codes "/list";
  statctrl = λ key. any (str_eq (codes key)) keys;
  first_line = λ path. none;
  exists = λ path. false;
  can_rename = λ from to. true;
  can_unlink = λ path. true;
  is_subbed = λ address. false;
  owners = none;
}

abbrev files : String → Option Bytes
files key =
    if str_eq (codes key) (codes "listaddress")
    then some (codes "list@example.org\n")
    else if str_eq (codes key) (codes "moderators")
    then some (codes "mo@example.org\n")
    else none

-- A list with some of the control files that have no text, and the mail server's variable EXTENSION.
abbrev site : List Bytes → Option Bytes → Site
site keys extension = record {
  regex = everything;
  system = system_with keys;
  subscribers = record { subscribers = none; digesters = none; nomailsubs = none };
  control = files;
  getenv = λ key. if str_eq (codes key) (codes "EXTENSION") then extension else none;
  prepares = λ text. true;
}

abbrev all_work : SystemCalls
all_work = record {
  opens_done = true;
  opens_mail = true;
  opens_again = true;
  copies_headers = true;
  copies_footer = true;
  copies_mail = true;
  stats_done = true;
  discards_mail = true;
  discards_done = true;
  queues = true;
  opens_omit = true;
  writes_omit = true;
  forks = true;
  execs_denial = true;
}

abbrev mail : Mail
mail = record {
  lines =
      codes "Return-Path: <jo@example.org>\n"
      ∷ codes "From: Jo <jo@example.org>\n"
      ∷ codes "To: list@example.org\n"
      ∷ codes "\n"
      ∷ codes "Hello\n"
      ∷ [];
  noprocess = false;
  donemailname = codes "/list/queue/0123456789abcdef";
}

abbrev small_post : Post
small_post = record {
  listaddr = codes "list@example.org";
  posteraddr = codes "jo@example.org";
  efrom = codes "jo@example.org";
  allheaders = [];
  prepared = codes "\nHello\n";
  addrtocc = true;
  intocc = true;
  noprocess = false;
}

abbrev moderated_list : List Bytes
moderated_list = codes "moderated" ∷ codes "notmetoo" ∷ []

abbrev read : List (Bytes × List Bytes)
read = (codes "From:", codes "Jo <jo@example.org>" ∷ []) ∷ []

check_from-post_example :
    is_post (
      (check_from
        (site [] none)
        all_work
        mail
        (codes "list@example.org")
        (codes "\nHello\n")
        []
        read
        (none, true)
        true
        taken).1)
    ≡ (length (get_emails (values_at 0 read)) == 1
        && no_extra none
        && (not false
            && admits (site [] none) all_work (
                post_of
                  (site [] none)
                  all_work
                  mail
                  (codes "list@example.org")
                  (codes "\nHello\n")
                  []
                  read
                  true
                  true)))
check_from-post_example =
    check_from-post (site [] none) all_work mail (codes "list@example.org") (codes "\nHello\n") []
      read none true true taken

abbrev by_root : Arguments
by_root = record { has_listdir = true; has_mailfile = true; owner = some 1000; uid = 0 }

abbrev to_both : Emails
to_both = record {
  toemails = codes "list+subscribe@example.org" ∷ codes "list@example.org" ∷ [];
  ccemails = [];
  dtemails = [];
}

find_recipient-environment_example :
    find_recipient (site [] (some (codes "subscribe"))) true to_both ≡ some (none, true)
unfolding address_extension ctrlvalues cut_newlines case_eq str_eq
find_recipient-environment_example =
    find_recipient-environment (site [] (some (codes "subscribe"))) true to_both (codes "subscribe")
      (codes "list@example.org" ∷ []) refl refl

sent :
    process (site [] none) all_work mail
    ≡ (queued, posts (codes "From: Jo <jo@example.org>\nTo: list@example.org\n\nHello\n") none)
unfolding process read_mail route check_from mlmmj.Headers.Rewriting.write_headers
    mlmmj.Headers.headers mlmmj.Headers.cut_newlines mlmmj.Headers.headers_after
    mlmmj.Headers.Rewriting.wants_prefix mlmmj.Headers.Rewriting.write_header
    mlmmj.Headers.Rewriting.add_extra mlmmj.Headers.Rewriting.end_of_headers
    mlmmj.Headers.Rewriting.add_replyto mlmmj.Headers.Rewriting.write_rest
    mlmmj.EmailAddress.Splitting.find_from mlmmj.EmailAddress.Splitting.cut_address
    mlmmj.EmailAddress.skin mlmmj.EmailAddress.skin_loop mlmmj.EmailAddress.skip_to_comma
sent = refl

-- The mail waits, and the sender is not among the moderators.
held : process (site moderated_list none) all_work mail ≡ (
  record {
    mailfile = false;
    donemail = false;
    discarded = none;
    moderation = true;
    omit = some (codes "jo@example.org");
  },
  moderates moderated (codes "list+owner@example.org") none false,
)
unfolding process read_mail route check_from mlmmj.Headers.Rewriting.write_headers
    mlmmj.Headers.headers mlmmj.Headers.cut_newlines mlmmj.Headers.headers_after
    mlmmj.Headers.Rewriting.wants_prefix mlmmj.Headers.Rewriting.write_header
    mlmmj.Headers.Rewriting.add_extra mlmmj.Headers.Rewriting.end_of_headers
    mlmmj.Headers.Rewriting.add_replyto mlmmj.Headers.Rewriting.write_rest
    mlmmj.EmailAddress.Splitting.find_from mlmmj.EmailAddress.Splitting.cut_address
    mlmmj.EmailAddress.skin mlmmj.EmailAddress.skin_loop mlmmj.EmailAddress.skip_to_comma
held = refl

-- The mail that EXTENSION sends to be a subscription is sent to the list.
mistaken :
    process (site [] (some (codes "subscribe"))) all_work mail
    ≡ (queued, posts (codes "From: Jo <jo@example.org>\nTo: list@example.org\n\nHello\n") none)
unfolding process read_mail route check_from mlmmj.Headers.Rewriting.write_headers
    mlmmj.Headers.headers mlmmj.Headers.cut_newlines mlmmj.Headers.headers_after
    mlmmj.Headers.Rewriting.wants_prefix mlmmj.Headers.Rewriting.write_header
    mlmmj.Headers.Rewriting.add_extra mlmmj.Headers.Rewriting.end_of_headers
    mlmmj.Headers.Rewriting.add_replyto mlmmj.Headers.Rewriting.write_rest
    mlmmj.EmailAddress.Splitting.find_from mlmmj.EmailAddress.Splitting.cut_address
    mlmmj.EmailAddress.skin mlmmj.EmailAddress.skin_loop mlmmj.EmailAddress.skip_to_comma
mistaken = refl

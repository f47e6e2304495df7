-- ===== src/Process/Main.antt =====
-- The program from its start to the post or the control mail, `main` of src/mlmmj-process.c.
use mlmmj.Process.Addressing.{get_emails, find_recipient, Emails}
use mlmmj.Base.{
  ℕ, zero, suc, Bool, true, false, not, ◌&&◌, ◌||◌, Option, none, some, List, [], ◌∷◌, ◌++◌, ◌==◌,
  if◌then◌else◌, Bytes, codes, length,
}
use mlmmj.CString.{str_eq, strip_prefix}
use mlmmj.ControlFiles.{ctrlvalue, ctrlvalues, getlistaddr}
use mlmmj.Process.{
  Site, SystemCalls, Spool, End, exit_success, exit_failure, crash, controls, to_owner, Post,
}
use mlmmj.Process.Posting.{discard_mail, check_size}
use mlmmj.Headers.Rewriting.{Voodoo, Written, written, failed, frees_twice, do_all_the_voodoo_here}
use mlmmj.Control.Dispatch.{listcontrol}

-- `readhdrs`
abbrev pub asked_headers : List (Bytes × List Bytes)
asked_headers =
    (codes "From:", [])
    ∷ (codes "To:", [])
    ∷ (codes "Cc:", [])
    ∷ (codes "Return-Path:", [])
    ∷ (codes "Delivered-To:", [])
    ∷ (codes "Subject:", [])
    ∷ (codes "Reply-To:", [])
    ∷ []

-- `readhdrs[i].values`
abbrev pub values_at : ℕ → List (Bytes × List Bytes) → List Bytes
values_at i [] = []
values_at zero ((token, values) ∷ readhdrs) = values
values_at (suc i) (hdr ∷ readhdrs) = values_at i readhdrs

abbrev pub strings_of : Option (List Bytes) → List Bytes
strings_of none = []
strings_of (some strs) = strs

-- `strncmp(recipextra, "bounces", 7) == 0`
unfoldable pub is_bounce : Option Bytes → Bool
unfolding strip_prefix
is_bounce none = false
is_bounce (some extra) = elim (strip_prefix (codes "bounces") extra) [
  | none ↦ false
  | some _ ↦ true
]

-- The mail: its lines, and the arguments of the program about it.
pub record Mail : Type 0 where
  pub lines : List Bytes
  pub noprocess : Bool
  -- queue/RANDOM
  pub donemailname : Bytes

-- The options -L and -m, the owner of the list's directory, or `none` where `stat` fails, and the user.
pub record Arguments : Type 0 where
  pub has_listdir : Bool
  pub has_mailfile : Bool
  pub owner : Option ℕ
  pub uid : ℕ

abbrev pub first_or_empty : List Bytes → Bytes
first_or_empty [] = []
first_or_empty (s ∷ strs) = s

module _ (S : Site) (C : SystemCalls) (m : Mail) where
  -- The arguments of the first call of `do_all_the_voodoo_here`.
  abbrev pub first_voodoo : Bytes → Voodoo
  first_voodoo listaddr = record {
    hdrfd = S.control "customheaders";
    hdr_copies = C.copies_headers;
    footfd = S.control "footer";
    foot_copies = C.copies_footer;
    mail_copies = C.copies_mail;
    delhdrs = some (
        strings_of (ctrlvalues (S.control "delheaders"))
        ++ codes "From " ∷ codes "Return-Path:" ∷ []);
    prefix = ctrlvalue (S.control "prefix");
    listaddr = if S.system.statctrl "mungefrom" then some listaddr else none;
  }

  -- The arguments of the second one, for a mail to the owner.
  abbrev pub owner_voodoo : Bytes → Voodoo
  owner_voodoo listaddr = record {
    hdrfd = none;
    hdr_copies = C.copies_headers;
    footfd = none;
    foot_copies = C.copies_footer;
    mail_copies = C.copies_mail;
    delhdrs = some (codes "From " ∷ codes "Return-Path:" ∷ []);
    prefix = none;
    listaddr = if S.system.statctrl "mungefrom" then some listaddr else none;
  }

  unfoldable pub send_to_owner : Bytes → Bytes → Spool → Spool × End
  unfolding do_all_the_voodoo_here
  send_to_owner listaddr efrom sp =
      if not C.opens_again
      then (sp, exit_failure)
      else elim ((do_all_the_voodoo_here (owner_voodoo listaddr) [] m.lines).0) [
        | failed ↦ (sp, exit_failure)
        | frees_twice ↦ (sp, crash)
        | written text ↦ (record sp { mailfile = false }, to_owner efrom text)
      ]

  -- A mail to an address with an extension.
  unfoldable pub handle_extra : Bytes → Bytes → List Bytes → Bytes → Spool → Spool × End
  unfolding send_to_owner listcontrol str_eq
  handle_extra listaddr efrom fromemails recipextra sp =
      if str_eq recipextra (codes "owner") then send_to_owner listaddr efrom sp else (
        record sp { mailfile = false },
        controls (listcontrol S.system fromemails recipextra m.donemailname),
      )

  -- `SENDER`, or the first address of Return-Path:, or the empty text.
  unfoldable pub envelope_from : List Bytes → Bytes
  envelope_from rpemails = elim (S.getenv "SENDER") [
    | some envstr ↦ envstr
    | none ↦ first_or_empty rpemails
  ]

  -- The mail when its headers are read. Without an address in From: the poster stays unset.
  unfoldable pub post_of :
      Bytes → Bytes → List Bytes → List (Bytes × List Bytes) → Bool → Bool → Post
  unfolding envelope_from get_emails
  post_of listaddr prepared allheaders readhdrs intocc addrtocc = record {
    listaddr = listaddr;
    posteraddr = first_or_empty (get_emails (values_at 0 readhdrs));
    efrom = envelope_from (get_emails (values_at 3 readhdrs));
    allheaders = allheaders;
    prepared = prepared;
    addrtocc = addrtocc;
    intocc = intocc;
    noprocess = m.noprocess;
  }

  -- From the test of From: on. Where there is an extension, `posteraddr` is not used.
  unfoldable pub check_from :
      Bytes
      → Bytes
      → List Bytes
      → List (Bytes × List Bytes)
      → Option Bytes × Bool
      → Bool
      → Spool
      → Spool × End
  unfolding handle_extra post_of get_emails is_bounce check_size
  check_from listaddr prepared allheaders readhdrs (recipextra, intocc) addrtocc sp =
      let fromemails : List Bytes = get_emails (values_at 0 readhdrs) in
      let post : Post = post_of listaddr prepared allheaders readhdrs intocc addrtocc in
      if not (length fromemails == 1) && not (is_bounce recipextra)
      then (discard_mail S C post sp, exit_success)
      else elim recipextra [
        | some extra ↦ handle_extra listaddr post.efrom fromemails extra sp
        | none ↦ check_size S C post sp
      ]

  unfoldable pub route :
      Bytes → Written → List Bytes → List (Bytes × List Bytes) → Spool → Spool × End
  unfolding check_from find_recipient get_emails
  route listaddr failed allheaders readhdrs sp = (sp, exit_failure)
  route listaddr frees_twice allheaders readhdrs sp = (sp, crash)
  route listaddr (written prepared) allheaders readhdrs sp =
      let addrtocc = not (S.system.statctrl "tocc") in
      let emails : Emails = record {
        toemails = get_emails (values_at 1 readhdrs);
        ccemails = get_emails (values_at 2 readhdrs);
        dtemails = get_emails (values_at 4 readhdrs);
      } in
      elim (find_recipient S addrtocc emails) [
        | none ↦ (sp, exit_failure)
        | some found ↦ check_from listaddr prepared allheaders readhdrs found addrtocc sp
      ]

  unfoldable pub read_mail : Bytes → Spool → Spool × End
  unfolding route do_all_the_voodoo_here
  read_mail listaddr sp =
      let (w, (allheaders, readhdrs)) =
        do_all_the_voodoo_here (first_voodoo listaddr) asked_headers m.lines in
      route listaddr w allheaders readhdrs sp

  -- The files at the start.
  abbrev pub arrived : Spool
  arrived = record {
    mailfile = true;
    donemail = false;
    discarded = none;
    moderation = false;
    omit = none;
  }

  -- `main`, behind the test of its arguments and of the user that runs it.
  unfoldable pub process : Spool × End
  unfolding read_mail getlistaddr
  process =
      if not C.opens_done || not C.opens_mail
      then (arrived, exit_failure)
      else elim (getlistaddr (S.control "listaddress")) [
        | none ↦ (record arrived { donemail = true }, exit_failure)
        | some listaddr ↦ read_mail listaddr (record arrived { donemail = true })
      ]

  -- `main`. The user has to be root or the owner of the list's directory.
  unfoldable pub main : Arguments → Spool × End
  unfolding process
  main a = if not (a.has_listdir && a.has_mailfile) then (arrived, exit_failure) else elim a.owner [
    | none ↦ (arrived, exit_failure)
    | some st_uid ↦
        if not (a.uid == 0) && not (a.uid == st_uid) then (arrived, exit_failure) else process
  ]

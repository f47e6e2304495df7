-- ===== src/Delivery/Tests.antt =====
-- The examples of the delivery, and runs of the code of src/mlmmj-send.c.
use mlmmj.Base.{◌≡◌, refl, true, false, none, some, List, [], ◌∷◌, Bytes, codes}
use mlmmj.CString.{strip_prefix, strchr, contains, strstr, strrchr}
use mlmmj.Reply.{checkwait_smtpreply}
use mlmmj.Delivery.{read_bounce, bounce_from_adr, get_index_from_filename}
use mlmmj.Delivery.Dialogue.{
  listen, Result, accepted, bounced, Job, reset, send_text, send_data, bouncemail, send_rcpt,
  send_mail, initsmtp,
}
use mlmmj.Delivery.Queue.{Round, Done, requeuemail, sender_for, serve_one, send_mail_many_list}
use mlmmj.Delivery.Protocol.{run, resting, log_of, idle, Opened, initsmtp-Opened, send_mail-run}
use mlmmj.Delivery.Kept.{
  IsKept, accepted_of, send_mail_many_list-IsKept, send_mail_many_list-deliveries,
}
use mlmmj.Delivery.Pending.{deliveries}

abbrev job : Job
job = record {
  connected = true;
  replyto = none;
  addtohdr = false;
  mail_text = λ tohdr. codes "Subject: hi\r\n\r\nhi\r\n";
  writes_text = true;
  reports_bounces = true;
  forks = true;
  listdelim = codes "+";
}

abbrev round : Round
round = record {
  archived = true;
  sender = none;
  listaddr = codes "list@example.org";
  archivefilename = codes "/list/archive/12";
  staticbounceaddr = none;
  requeues = true;
  gotsigterm = λ i. false;
}

abbrev three : List Bytes
three = codes "a@x" ∷ codes "b@x" ∷ codes "c@x" ∷ []

-- The server takes the first mail, knows no second recipient, and then breaks off.
abbrev replies : List Bytes
replies =
    codes "250 a"
    ∷ codes "250 b"
    ∷ codes "354 c"
    ∷ codes "250 d"
    ∷ codes "250 e"
    ∷ codes "550 f"
    ∷ codes "250 g"
    ∷ codes "421 h"
    ∷ []

abbrev names_of : Done → List (Bytes × Result) × List Bytes
names_of d = (d.results, d.requeued)

served : names_of (send_mail_many_list job round three 0 replies) ≡ (
  (codes "a@x", accepted) ∷ (codes "b@x", bounced (codes "b=x") (codes "12")) ∷ [],
  codes "c@x" ∷ [],
)
unfolding send_mail_many_list serve_one sender_for bounce_from_adr get_index_from_filename send_mail
    send_rcpt send_data send_text reset listen checkwait_smtpreply bouncemail read_bounce
    requeuemail contains strchr strrchr strstr strip_prefix
served = refl

send_mail-run_example :
    run idle (log_of (send_mail job (codes "l+bounces-1-a=x@y") (codes "a@x") replies))
    ≡ resting ((send_mail job (codes "l+bounces-1-a=x@y") (codes "a@x") replies).0)
send_mail-run_example = send_mail-run job (codes "l+bounces-1-a=x@y") (codes "a@x") replies

initsmtp-Opened_example : Opened (
    initsmtp
      (codes "me")
      (some (codes "220 hi" ∷ codes "500 what" ∷ codes "250 ok" ∷ codes "250 hello" ∷ []))
      none)
initsmtp-Opened_example =
    initsmtp-Opened (codes "me")
      (some (codes "220 hi" ∷ codes "500 what" ∷ codes "250 ok" ∷ codes "250 hello" ∷ [])) none

send_mail_many_list-IsKept_example :
    IsKept (codes "c@x") three (send_mail_many_list job round three 0 replies)
send_mail_many_list-IsKept_example =
    send_mail_many_list-IsKept job round (codes "c@x") three 0 replies refl

send_mail_many_list-deliveries_example :
    deliveries [] ((send_mail_many_list job round three 0 replies).log)
    ≡ accepted_of ((send_mail_many_list job round three 0 replies).results)
send_mail_many_list-deliveries_example = send_mail_many_list-deliveries job round three 0 replies []

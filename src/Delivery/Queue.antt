-- ===== src/Delivery/Queue.antt =====
-- The lists of addresses that mlmmj-send serves, and what it keeps for a later run, src/mlmmj-send.c.
use mlmmj.Base.{
  ℕ, ◌+◌, Bool, true, false, not, ◌&&◌, Option, none, some, List, [], ◌∷◌, ◌++◌, if◌then◌else◌,
  Bytes, ◌||◌, length,
}
use mlmmj.CString.{contains}
use mlmmj.Delivery.{Event, bounce_from_adr}
use mlmmj.Delivery.Dialogue.{Result, crash, is_zero, Job, send_mail}

-- The rest of the arguments. `archived` holds where `listaddr` and `archivefilename` are given; then a
-- list that is broken off is kept in requeue/INDEX/subscribers.
pub record Round : Type 0 where
  pub archived : Bool
  -- the envelope sender, if all mails have the same
  pub sender : Option Bytes
  pub listaddr : Bytes
  pub archivefilename : Bytes
  pub staticbounceaddr : Option Bytes
  -- whether the file opens, and the writes to it work
  pub requeues : Bool
  -- whether the signal has come when the address with this index is looked at
  pub gotsigterm : ℕ → Bool

-- What was done: the results in order, the lines that were added to the file of the requeue, what was
-- said and heard, and the lines that the server has still to say. The result of the function is
-- negative where `requeuemail` fails.
pub record Done : Type 0 where
  pub results : List (Bytes × Result)
  pub requeued : List Bytes
  pub negative : Bool
  pub crashed : Bool
  pub log : List Event
  pub lines : List Bytes

-- The addresses behind the one that failed, and then that one.
unfoldable pub requeuemail : Round → Bytes → List Bytes → List Event → List Bytes → Done
requeuemail r failing rest log lines = record {
  results = [];
  requeued = if r.requeues then rest ++ failing ∷ [] else [];
  negative = not r.requeues;
  crashed = false;
  log = log;
  lines = lines;
}

-- The envelope sender for an address; the outer `none` is the end of the program.
unfoldable pub sender_for : Job → Round → Bytes → Option (Option Bytes)
unfolding bounce_from_adr
sender_for j r addr = elim r.sender [
  | some sender ↦ some (some sender)
  | none ↦ bounce_from_adr r.staticbounceaddr addr r.listaddr j.listdelim r.archivefilename
]

-- mlmmj-bounce is only run where the bounces have addresses of their own.
abbrev pub job_for : Job → Round → Job
job_for j r = elim r.sender [ none ↦ j | some sender ↦ record j { reports_bounces = false } ]

abbrev pub finished : List Bytes → Done
finished lines = record {
  results = [];
  requeued = [];
  negative = false;
  crashed = false;
  log = [];
  lines = lines;
}

abbrev pub crashed_at : List Event → List Bytes → Done
crashed_at log lines = record {
  results = [];
  requeued = [];
  negative = false;
  crashed = true;
  log = log;
  lines = lines;
}

abbrev pub with_result : Bytes → Result → List Event → Done → Done
with_result addr result log d = record d {
  results = (addr, result) ∷ d.results;
  log = log ++ d.log;
}

abbrev pub is_crash : Result → Bool
is_crash crash = true
is_crash _ = false

-- What the body of the loop does about one address: it passes over it, or keeps it and those behind
-- it, or crashes, or goes on with a result.
pub data Step : Type 0 where
  passes_over : Step
  keeps crashes_with : List Event → List Bytes → Step
  goes_on : Result → List Event → List Bytes → Step

-- Behind the call of `send_mail`.
abbrev pub judge_result : Round → Result × (List Event × List Bytes) → Step
judge_result r (result, (log, lines)) =
    if is_crash result
    then crashes_with log lines
    else if not (is_zero result) && r.archived
    then keeps log lines
    else goes_on result log lines

-- A sender that is NULL goes through a null pointer.
unfoldable pub serve_one : Job → Round → Bytes → ℕ → List Bytes → Step
unfolding contains sender_for send_mail
serve_one j r addr i lines =
    if not (contains b'@' addr)
    then passes_over
    else if r.gotsigterm i && r.archived
    then keeps [] lines
    else elim (sender_for j r addr) [
      | none ↦ crashes_with [] lines
      | some none ↦ crashes_with [] lines
      | some (some sender) ↦ judge_result r (send_mail (job_for j r) sender addr lines)
    ]

-- The loop of `send_mail_many_list`, from the address with the index `i` on.
unfoldable pub send_mail_many_list : Job → Round → List Bytes → ℕ → List Bytes → Done
unfolding serve_one requeuemail
send_mail_many_list j r [] i lines = finished lines
send_mail_many_list j r (addr ∷ addrs) i lines = elim (serve_one j r addr i lines) [
  | passes_over ↦ send_mail_many_list j r addrs (i + 1) lines
  | keeps log lines ↦ requeuemail r addr addrs log lines
  | crashes_with log lines ↦ crashed_at log lines
  | goes_on result log lines ↦
      with_result addr result log (send_mail_many_list j r addrs (i + 1) lines)
]

-- The lines that `getaddrsfromfd` gives, in portions, with the index of the first address of a portion
-- in the whole; a negative result ends the loop of `send_mail_many_fd`.
unfoldable pub send_mail_many_fd : Job → Round → List (List Bytes) → ℕ → List Bytes → Done
unfolding send_mail_many_list
send_mail_many_fd j r [] i lines = finished lines
send_mail_many_fd j r (portion ∷ portions) i lines =
    let d : Done =
      send_mail_many_list j (record r { gotsigterm = λ n. r.gotsigterm (i + n) }) portion 0 lines in
    let more : Done = send_mail_many_fd j r portions (i + length portion) d.lines in
    if d.negative || d.crashed then d else record {
      results = d.results ++ more.results;
      requeued = d.requeued ++ more.requeued;
      negative = more.negative;
      crashed = more.crashed;
      log = d.log ++ more.log;
      lines = more.lines;
    }

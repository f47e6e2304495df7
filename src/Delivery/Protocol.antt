-- ===== src/Delivery/Protocol.antt =====
-- The order of a dialogue with the server, by the grammar of SMTP, and the dialogues of src/mlmmj-send.c.
use mlmmj.Base.{
  ◌≡◌, refl, inl, inr, Bool, true, false, not, ◌||◌, Option, none, some, List, [], ◌∷◌, ◌++◌, arith,
  Bool-cases, Option-cases, Bytes, All,
}
use mlmmj.CString.{contains}
use mlmmj.Reply.{ReplyType, connect, ehlo, helo, from, rcptto, data_, dot, quit, rset, failed}
use mlmmj.Delivery.{
  Command, helo_, ehlo_, mail_from, rcpt_to, data_command, reply_to, text, dot_, quit_, rset_,
  Event, says, hears,
}
use mlmmj.Delivery.Dialogue.{
  listen, Result, unwritten, Talk, Job, reset, send_text, send_data, bouncemail, send_rcpt,
  send_mail, endsmtp, Start, ready, failed, unconnected, again, crashing_start, say_helo,
  greet_helo, after_refusal, greet_ehlo, try_again, initsmtp,
}

-- Where a session is. In `wait` the reply to a command is due, in `regreets` that to RSET before
-- there was a HELO; `broken` is any order that SMTP forbids.
pub data Phase : Type 0 where
  greeted no_ehlo no_helo regreets idle has_sender has_rcpt in_text must_reset closed broken : Phase
  wait : ReplyType → Phase

abbrev pub next_said : Phase → Command → Phase
next_said greeted (ehlo_ name) = wait ehlo
next_said greeted (helo_ name) = wait helo
next_said no_ehlo rset_ = regreets
next_said no_ehlo quit_ = wait quit
next_said no_helo quit_ = wait quit
next_said idle (mail_from sender extra) = wait from
next_said idle quit_ = wait quit
next_said has_sender (rcpt_to to) = wait rcptto
next_said has_rcpt (rcpt_to to) = wait rcptto
next_said has_rcpt data_command = wait data_
next_said in_text (reply_to address) = in_text
next_said in_text (text body) = in_text
next_said in_text dot_ = wait dot
next_said must_reset rset_ = wait rset
next_said _ _ = broken

abbrev pub next_heard : Phase → ReplyType → Option Bytes → Phase
next_heard (wait connect) connect none = greeted
next_heard (wait connect) connect (some r) = closed
next_heard (wait ehlo) ehlo none = idle
next_heard (wait ehlo) ehlo (some r) = no_ehlo
next_heard (wait helo) helo none = idle
next_heard (wait helo) helo (some r) = no_helo
next_heard regreets rset answer = greeted
next_heard (wait from) from none = has_sender
next_heard (wait from) from (some r) = must_reset
next_heard (wait rcptto) rcptto none = has_rcpt
next_heard (wait rcptto) rcptto (some r) = must_reset
next_heard (wait data_) data_ none = in_text
next_heard (wait data_) data_ (some r) = must_reset
next_heard (wait dot) dot none = idle
next_heard (wait dot) dot (some r) = must_reset
next_heard (wait rset) rset answer = idle
next_heard (wait quit) quit answer = closed
next_heard _ _ _ = broken

abbrev pub next : Phase → Event → Phase
next p (says c) = next_said p c
next p (hears t answer) = next_heard p t answer

unfoldable pub run : Phase → List Event → Phase
run p [] = p
run p (e ∷ log) = run (next p e) log

abbrev pub log_of : Talk → List Event
log_of t = t.1.0

-- Where a mail leaves the session: ready for the next one, or inside the text that failed.
abbrev pub resting : Result → Phase
resting unwritten = in_text
resting _ = idle

reset-idle :
    (result : Result) (lines : List Bytes) → run must_reset (log_of (reset result lines)) ≡ idle
unfolding run reset
reset-idle result lines = refl

send_text-run :
    (j : Job) (to : Bytes) (lines : List Bytes)
    → run in_text (log_of (send_text j to lines)) ≡ resting ((send_text j to lines).0)
unfolding run send_text reset
send_text-run j to lines = ground arith

send_data-run :
    (j : Job) (to : Bytes) (lines : List Bytes)
    → run has_rcpt (log_of (send_data j to lines)) ≡ resting ((send_data j to lines).0)
unfolding run send_data reset
send_data-run j to lines = elim (Option-cases ((listen data_ lines).0)) [
  | inl e ↦ rw (e, send_data) (send_text-run j to (listen data_ lines).1)
  | inr (r, e) ↦ rw (e, send_data) refl
]

bouncemail-resting : (j : Job) (sender : Bytes) → resting (bouncemail j sender) ≡ idle
unfolding bouncemail
bouncemail-resting j sender = ground arith

send_rcpt-run :
    (j : Job) (sender to : Bytes) (lines : List Bytes)
    → run has_sender (log_of (send_rcpt j sender to lines))
      ≡ resting ((send_rcpt j sender to lines).0)
unfolding run send_rcpt reset
send_rcpt-run j sender to lines = elim (Option-cases ((listen rcptto lines).0)) [
  | inl e ↦ rw (e, send_rcpt) (send_data-run j to (listen rcptto lines).1)
  | inr (r, e) ↦ rw (e, send_rcpt) (ground (arith, bouncemail-resting j sender))
]

-- Whatever the server answers, the dialogue about one mail is in the order that SMTP asks for, each
-- command behind the reply that it needs, and it ends where the next mail may begin, if the text can
-- be written.
pub send_mail-run :
    (j : Job) (sender to : Bytes) (lines : List Bytes)
    → run idle (log_of (send_mail j sender to lines)) ≡ resting ((send_mail j sender to lines).0)
unfolding run send_mail reset
send_mail-run j sender to lines = elim (Bool-cases j.connected) [
  | inr h ↦ rw (h, send_mail) refl
  | inl h ↦ elim (Bool-cases (contains b'@' to)) [
    | inr k ↦ rw (h, k, send_mail) refl
    | inl k ↦ elim (Option-cases ((listen from lines).0)) [
      | inl e ↦ rw (h, k, e, send_mail) (send_rcpt-run j sender to (listen from lines).1)
      | inr (r, e) ↦ rw (h, k, e, send_mail) refl
    ]
  ]
]

run_append : (p : Phase) (a b : List Event) → run p (a ++ b) ≡ run (run p a) b
unfolding run
run_append p [] b = refl
run_append p (e ∷ a) b = run_append (next p e) a b

-- The phases in which a connection is left to be closed, or used.
abbrev pub is_broken : Phase → Bool
is_broken broken = true
is_broken _ = false

-- Where the start of a connection leaves the session.
abbrev pub start_phase : Start → Phase
start_phase (ready lines) = idle
start_phase (failed connect) = closed
start_phase (failed helo) = no_helo
start_phase unconnected = broken
start_phase crashing_start = wait ehlo
start_phase _ = closed

greet_helo-run :
    (name : Bytes) (lines : List Bytes)
    → run (wait connect) ((greet_helo name lines).0) ≡ start_phase ((greet_helo name lines).1)
unfolding run greet_helo say_helo
greet_helo-run name lines = ground arith

after_refusal-run :
    (name r : Bytes) (lines : List Bytes)
    → run no_ehlo ((after_refusal name r lines).0) ≡ start_phase ((after_refusal name r lines).1)
unfolding run after_refusal say_helo endsmtp
after_refusal-run name r lines = ground arith

greet_ehlo-run :
    (name : Bytes) (lines : List Bytes)
    → run (wait connect) ((greet_ehlo name lines).0) ≡ start_phase ((greet_ehlo name lines).1)
unfolding run greet_ehlo
greet_ehlo-run name lines = ground arith

greet_helo-broken :
    (name : Bytes) (lines : List Bytes)
    → is_broken (run (wait connect) ((greet_helo name lines).0)) ≡ false
unfolding run greet_helo say_helo
greet_helo-broken name lines = ground arith

after_refusal-broken :
    (name r : Bytes) (lines : List Bytes)
    → is_broken (run no_ehlo ((after_refusal name r lines).0)) ≡ false
unfolding run after_refusal say_helo endsmtp
after_refusal-broken name r lines = ground arith

greet_ehlo-broken :
    (name : Bytes) (lines : List Bytes)
    → is_broken (run (wait connect) ((greet_ehlo name lines).0)) ≡ false
unfolding run greet_ehlo
greet_ehlo-broken name lines = ground (arith, after_refusal-broken name)

-- Where the last of the connections is.
abbrev pub left_at : List (List Event) → Phase
left_at [] = closed
left_at (log ∷ []) = run (wait connect) log
left_at (log ∷ (other ∷ logs)) = left_at (other ∷ logs)

abbrev pub is_ready : Start → Bool
is_ready (ready lines) = true
is_ready _ = false

abbrev pub is_idle : Phase → Bool
is_idle idle = true
is_idle _ = false

abbrev pub Opened : List (List Event) × Start → Type 0
Opened (logs, start) =
    All (λ log. is_broken (run (wait connect) log) ≡ false) logs
    × ((not (is_ready start) || is_idle (left_at logs)) ≡ true)

try_again-Opened :
    (start : Start) (name : Bytes) (second : Option (List Bytes)) (log : List Event)
    → is_broken (run (wait connect) log) ≡ false
    → run (wait connect) log ≡ start_phase start
    → Opened (try_again start name second log)
unfolding try_again
try_again-Opened again name none log h k = ((h, tt), refl)
try_again-Opened again name (some lines) log h k = (
  (h, (greet_helo-broken name lines, tt)),
  last ((greet_helo name lines).1) (greet_helo-run name lines),
)
  where
    last :
        (start : Start)
        → run (wait connect) ((greet_helo name lines).0) ≡ start_phase start
        → (not (is_ready start) || is_idle (run (wait connect) ((greet_helo name lines).0))) ≡ true
    last (ready rest) e = rw e refl
    last (failed t) e = refl
    last unconnected e = refl
    last again e = refl
    last crashing_start e = refl
try_again-Opened (ready rest) name second log h k = ((h, tt), rw k refl)
try_again-Opened (failed t) name second log h k = ((h, tt), refl)
try_again-Opened unconnected name second log h k = ((h, tt), refl)
try_again-Opened crashing_start name second log h k = ((h, tt), refl)

-- Each connection that `initsmtp` makes is opened in an order that SMTP allows, and if it says that the
-- server is ready, the last one is where a mail may begin.
pub initsmtp-Opened :
    (name : Bytes) (first second : Option (List Bytes)) → Opened (initsmtp name first second)
unfolding initsmtp
initsmtp-Opened name none second = (tt, refl)
initsmtp-Opened name (some lines) second =
    try_again-Opened ((greet_ehlo name lines).1) name second ((greet_ehlo name lines).0)
      (greet_ehlo-broken name lines) (greet_ehlo-run name lines)

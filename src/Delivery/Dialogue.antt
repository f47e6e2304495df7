-- ===== src/Delivery/Dialogue.antt =====
-- The dialogues of mlmmj-send with the server, src/mlmmj-send.c. A dialogue is what is said and heard, in
-- order, and the lines that the server has still to say.
use mlmmj.Base.{
  ℕ, ◌+◌, Bool, true, false, not, ◌&&◌, ◌||◌, Option, none, some, List, [], ◌∷◌, ◌++◌, ◌==◌,
  if◌then◌else◌, Bytes, codes,
}
use mlmmj.CString.{peek, rest_of, strip_prefix, contains}
use mlmmj.Reply.{
  ReplyType, from, rcptto, data_, dot, quit, rset, fits, reply, crashes, checkwait_smtpreply,
  connect, ehlo, helo,
}
use mlmmj.Delivery.{
  mail_from, rcpt_to, data_command, reply_to, text, dot_, quit_, rset_, Event, says, hears,
  malformed, crashing, arguments, read_bounce, helo_, ehlo_,
}

-- NULL or the reply. Only the loop for EHLO reads through a null pointer, and is not asked here.
unfoldable pub listen : ReplyType → List Bytes → Option Bytes × List Bytes
unfolding checkwait_smtpreply
listen t lines =
    let (answer, lines) = checkwait_smtpreply t lines in
    elim answer [ fits ↦ (none, lines) | reply r ↦ (some r, lines) | crashes ↦ (none, lines) ]

-- The results: 0 for a mail that is accepted, an address that is passed over, and a bounce that is
-- reported at once, with the arguments of mlmmj-bounce; any other for the rest.
pub data Result : Type 0 where
  accepted ignored bounce_ignored : Result
  bounced : Bytes → Bytes → Result
  no_fork no_socket unwritten stopped : Result
  refused : ReplyType → Result
  -- the program reads through a null pointer
  crash : Result

abbrev pub is_zero : Result → Bool
is_zero accepted = true
is_zero ignored = true
is_zero bounce_ignored = true
is_zero (bounced num addr) = true
is_zero _ = false

abbrev pub Talk : Type 0
Talk = Result × (List Event × List Bytes)

abbrev pub after : List Event → Talk → Talk
after events (result, (log, lines)) = (result, (events ++ log, lines))

-- What all mails of one run share.
pub record Job : Type 0 where
  pub connected : Bool
  pub replyto : Option Bytes
  pub addtohdr : Bool
  -- the text of the mail as it is written, with a To: header or without one
  pub mail_text : Option Bytes → Bytes
  -- whether the text and the final dot can be written
  pub writes_text : Bool
  -- whether mlmmj-bounce may be run, and `fork` works
  pub reports_bounces : Bool
  pub forks : Bool
  pub listdelim : Bytes

-- RSET, whatever the reply is.
unfoldable pub reset : Result → List Bytes → Talk
unfolding listen
reset result lines =
    let (answer, lines) = listen rset lines in
    (result, (says rset_ ∷ hears rset answer ∷ [], lines))

-- In the mail, up to the reply behind the dot.
unfoldable pub send_text : Job → Bytes → List Bytes → Talk
unfolding listen reset
send_text j to lines =
    let written : List Event = elim j.replyto [
      | none ↦ []
      | some address ↦ says (reply_to address) ∷ []
    ] in
    let body : Bytes =
      j.mail_text (if j.addtohdr then some (codes "To: " ++ (to ++ codes "\r\n")) else none) in
    let (answer, lines) = listen dot lines in
    if not j.writes_text
    then (unwritten, (written, lines))
    else after written (
        after (says (text body) ∷ says dot_ ∷ hears dot answer ∷ [])
          (elim answer [ none ↦ (accepted, ([], lines)) | some r ↦ reset (refused dot) lines ]))

unfoldable pub send_data : Job → Bytes → List Bytes → Talk
unfolding listen reset send_text
send_data j to lines =
    let (answer, lines) = listen data_ lines in
    after (says data_command ∷ hears data_ answer ∷ [])
      (elim answer [ none ↦ send_text j to lines | some r ↦ reset (refused data_) lines ])

-- A reply 45x or 55x to RCPT TO.
abbrev pub is_bounce_reply : Bytes → Bool
is_bounce_reply r = (peek r == b'4' || peek r == b'5') && peek (rest_of r) == b'5'

unfoldable pub bouncemail : Job → Bytes → Result
unfolding read_bounce
bouncemail j sender = elim (read_bounce j.listdelim sender) [
  | malformed ↦ bounce_ignored
  | crashing ↦ crash
  | arguments num addr ↦ if j.forks then bounced num addr else no_fork
]

unfoldable pub send_rcpt : Job → Bytes → Bytes → List Bytes → Talk
unfolding listen reset send_data bouncemail
send_rcpt j sender to lines =
    let (answer, lines) = listen rcptto lines in
    after (says (rcpt_to to) ∷ hears rcptto answer ∷ []) (elim answer [
      | none ↦ send_data j to lines
      | some r ↦
          reset
            (if j.reports_bounces && is_bounce_reply r then bouncemail j sender else refused rcptto)
            lines
    ])

unfoldable pub send_mail : Job → Bytes → Bytes → List Bytes → Talk
unfolding listen reset send_rcpt contains
send_mail j sender to lines =
    let (answer, after_from) = listen from lines in
    if not j.connected
    then (no_socket, ([], lines))
    else if not (contains b'@' to)
    then (ignored, ([], lines))
    else after (says (mail_from sender []) ∷ hears from answer ∷ []) (elim answer [
      | none ↦ send_rcpt j sender to after_from
      | some r ↦ reset (refused from) after_from
    ])

-- `endsmtp`, on a connection: what is said and heard.
unfoldable pub endsmtp : List Bytes → List Event
unfolding listen
endsmtp lines = let (answer, lines) = listen quit lines in says quit_ ∷ hears quit answer ∷ []

-- How the start of a connection ends: with the lines that are left, or with the reply that did not fit,
-- or without a connection, or with another attempt, or in a read through a null pointer.
pub data Start : Type 0 where
  ready : List Bytes → Start
  failed : ReplyType → Start
  unconnected again crashing_start : Start

unfoldable pub say_helo : Bytes → List Bytes → List Event × (Option Bytes × List Bytes)
unfolding listen
say_helo name lines =
    let (answer, lines) = listen helo lines in
    (says (helo_ name) ∷ hears helo answer ∷ [], (answer, lines))

-- The round of the loop without EHLO.
unfoldable pub greet_helo : Bytes → List Bytes → List Event × Start
unfolding listen say_helo
greet_helo name lines =
    let (greeting, lines) = listen connect lines in
    let (log, (answer, rest)) = say_helo name lines in
    elim greeting [
      | some r ↦ (hears connect (some r) ∷ [], failed connect)
      | none ↦ (hears connect none ∷ log, elim answer [ none ↦ ready rest | some r ↦ failed helo ])
    ]

-- Behind a reply that refuses EHLO.
unfoldable pub after_refusal : Bytes → Bytes → List Bytes → List Event × Start
unfolding listen endsmtp say_helo strip_prefix
after_refusal name r lines =
    let (answer, after_reset) = listen rset lines in
    let (log, (heard, rest)) = say_helo name after_reset in
    let begun : List Event = says rset_ ∷ hears rset answer ∷ log in
    elim (strip_prefix (codes "501") r) [
      | some _ ↦ (endsmtp lines, failed ehlo)
      | none ↦
          if not (peek r == b'5')
          then (endsmtp lines, again)
          else elim heard [ none ↦ (begun, ready rest) | some s ↦ (begun ++ endsmtp rest, again) ]
    ]

abbrev pub behind : List Event → List Event × Start → List Event × Start
behind events (log, start) = (events ++ log, start)

-- The round of the loop with EHLO.
unfoldable pub greet_ehlo : Bytes → List Bytes → List Event × Start
unfolding listen checkwait_smtpreply after_refusal
greet_ehlo name lines =
    let (greeting, lines) = listen connect lines in
    let (answer, rest) = checkwait_smtpreply ehlo lines in
    elim greeting [
      | some r ↦ (hears connect (some r) ∷ [], failed connect)
      | none ↦ behind (hears connect none ∷ says (ehlo_ name) ∷ []) (elim answer [
        | crashes ↦ ([], crashing_start)
        | fits ↦ (hears ehlo none ∷ [], ready rest)
        | reply r ↦ behind (hears ehlo (some r) ∷ []) (after_refusal name r rest)
      ])
    ]

-- Another round of the loop, or the end.
unfoldable pub try_again :
    Start → Bytes → Option (List Bytes) → List Event → List (List Event) × Start
unfolding greet_helo
try_again again name none log = (log ∷ [], unconnected)
try_again again name (some lines) log =
    let (log', start) = greet_helo name lines in (log ∷ log' ∷ [], start)
try_again start name second log = (log ∷ [], start)

-- What the server says on each connection that is tried, or `none` where it cannot be reached. The
-- result has the dialogue of each connection that was made.
unfoldable pub initsmtp :
    Bytes → Option (List Bytes) → Option (List Bytes) → List (List Event) × Start
unfolding greet_ehlo try_again
initsmtp name none second = ([], unconnected)
initsmtp name (some lines) second =
    let (log, start) = greet_ehlo name lines in try_again start name second log

-- The loop of `send_mail_verp`, from the address with the index `i` on. The signal may have come
-- before any of the addresses.
unfoldable pub send_rcpts : Job → (ℕ → Bool) → List Bytes → ℕ → List Bytes → Talk
unfolding listen contains reset
send_rcpts j gotsigterm [] i lines =
    let (answer, lines) = listen data_ lines in
    after (says data_command ∷ hears data_ answer ∷ [])
      (elim answer [ none ↦ send_whole j lines | some r ↦ reset (refused data_) lines ])
  where
    send_whole : Job → List Bytes → Talk
    send_whole j lines =
        let (answer, rest) = listen dot lines in
        if not j.writes_text
        then (unwritten, ([], lines))
        else after (says (text (j.mail_text none)) ∷ says dot_ ∷ hears dot answer ∷ [])
            (elim answer [ none ↦ (accepted, ([], rest)) | some r ↦ reset (refused dot) rest ])
send_rcpts j gotsigterm (to ∷ addrs) i lines =
    let (answer, rest) = listen rcptto lines in
    let passed_over = send_rcpts j gotsigterm addrs (i + 1) lines in
    let more = send_rcpts j gotsigterm addrs (i + 1) rest in
    if gotsigterm i
    then (stopped, ([], lines))
    else if not (contains b'@' to)
    then passed_over
    else after (says (rcpt_to to) ∷ hears rcptto answer ∷ [])
        (elim answer [ none ↦ more | some r ↦ (refused rcptto, ([], rest)) ])

unfoldable pub send_mail_verp : Job → (ℕ → Bool) → List Bytes → Bytes → Bytes → List Bytes → Talk
unfolding listen reset send_rcpts
send_mail_verp j gotsigterm addrs sender verpextra lines =
    let (answer, rest) = listen from lines in
    if not j.connected
    then (no_socket, ([], lines))
    else after (says (mail_from sender verpextra) ∷ hears from answer ∷ []) (elim answer [
      | none ↦ send_rcpts j gotsigterm addrs 0 rest
      | some r ↦ reset (refused from) rest
    ])

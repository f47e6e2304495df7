-- ===== src/Delivery/Pending.antt =====
-- What becomes of each address of a list that src/mlmmj-send.c serves.
use mlmmj.Base.{
  ◌≡◌, refl, sym, ◌∙◌, ◌⊎◌, inl, inr, Bool, true, false, ◌&&◌, none, List, [], ◌∷◌, ◌++◌,
  if◌then◌else◌, Bool-cases, Option-cases, Bytes,
}
use mlmmj.CString.{contains}
use mlmmj.Reply.{from, rcptto, data_, dot}
use mlmmj.Delivery.{
  mail_from, rcpt_to, Event, says, hears, Bounced, malformed, crashing, arguments, read_bounce,
}
use mlmmj.Delivery.Dialogue.{
  listen, Result, accepted, ignored, bounce_ignored, bounced, no_fork, no_socket, unwritten,
  stopped, refused, crash, Job, reset, send_text, send_data, bouncemail, is_bounce_reply, send_rcpt,
  send_mail,
}
use mlmmj.Delivery.Protocol.{log_of}

abbrev pub pending_after : List Bytes → Event → List Bytes
pending_after pending (says (mail_from sender extra)) = []
pending_after pending (says (rcpt_to to)) = pending ++ to ∷ []
pending_after pending (hears dot none) = []
pending_after pending _ = pending

abbrev pub taken_at : List Bytes → Event → List Bytes
taken_at pending (hears dot none) = pending
taken_at pending _ = []

-- The recipients of the mails that the server took, by what was said and heard. `pending` are those of
-- the mail that is under way.
unfoldable pub deliveries : List Bytes → List Event → List Bytes
deliveries pending [] = []
deliveries pending (e ∷ log) = taken_at pending e ++ deliveries (pending_after pending e) log

abbrev pub is_accepted : Result → Bool
is_accepted accepted = true
is_accepted _ = false

abbrev taken_over : Result → List Bytes → List Event → List Bytes
taken_over accepted pending rest = pending ++ deliveries [] rest
taken_over _ pending rest = deliveries pending rest

reset-deliveries :
    (result : Result) (lines pending : List Bytes) (rest : List Event)
    → deliveries pending (log_of (reset result lines) ++ rest) ≡ deliveries pending rest
unfolding reset deliveries
reset-deliveries result lines pending rest = refl

send_text-deliveries :
    (j : Job) (to : Bytes) (lines pending : List Bytes) (rest : List Event)
    → deliveries pending (log_of (send_text j to lines) ++ rest)
      ≡ taken_over ((send_text j to lines).0) pending rest
unfolding send_text reset deliveries
send_text-deliveries j to lines pending rest = elim (Bool-cases j.writes_text) [
  | inr w ↦ elim (Option-cases j.replyto) [
    | inl r ↦ rw (w, r, send_text) refl
    | inr (address, r) ↦ rw (w, r, send_text) refl
  ]
  | inl w ↦ elim (Option-cases ((listen dot lines).0)) [
    | inl e ↦ elim (Option-cases j.replyto) [
      | inl r ↦ rw (w, e, r, send_text) refl
      | inr (address, r) ↦ rw (w, e, r, send_text) refl
    ]
    | inr (answer, e) ↦ elim (Option-cases j.replyto) [
      | inl r ↦ rw (w, e, r, send_text) refl
      | inr (address, r) ↦ rw (w, e, r, send_text) refl
    ]
  ]
]

send_data-deliveries :
    (j : Job) (to : Bytes) (lines pending : List Bytes) (rest : List Event)
    → deliveries pending (log_of (send_data j to lines) ++ rest)
      ≡ taken_over ((send_data j to lines).0) pending rest
unfolding send_data reset deliveries
send_data-deliveries j to lines pending rest = elim (Option-cases ((listen data_ lines).0)) [
  | inl e ↦ rw (e, send_data) (send_text-deliveries j to (listen data_ lines).1 pending rest)
  | inr (r, e) ↦ rw (e, send_data) refl
]

Bounced-cases :
    (b : Bounced)
    → (b ≡ malformed)
      ⊎ ((b ≡ crashing) ⊎ ((num : Bytes) × (addr : Bytes) × (b ≡ arguments num addr)))
Bounced-cases malformed = inl refl
Bounced-cases crashing = inr (inl refl)
Bounced-cases (arguments num addr) = inr (inr (num, addr, refl))

bouncemail-taken_over :
    (j : Job) (sender : Bytes) (pending : List Bytes) (rest : List Event)
    → taken_over (bouncemail j sender) pending rest ≡ deliveries pending rest
unfolding bouncemail
bouncemail-taken_over j sender pending rest =
    elim (Bounced-cases (read_bounce j.listdelim sender)) [
      | inl e ↦ rw (e, bouncemail) refl
      | inr (inl e) ↦ rw (e, bouncemail) refl
      | inr (inr (num, addr, e)) ↦ elim (Bool-cases j.forks) [
        | inl f ↦ rw (e, f, bouncemail) refl
        | inr f ↦ rw (e, f, bouncemail) refl
      ]
    ]

send_rcpt-deliveries :
    (j : Job) (sender to : Bytes) (lines pending : List Bytes) (rest : List Event)
    → deliveries pending (log_of (send_rcpt j sender to lines) ++ rest)
      ≡ taken_over ((send_rcpt j sender to lines).0) (pending ++ to ∷ []) rest
unfolding send_rcpt reset deliveries
send_rcpt-deliveries j sender to lines pending rest =
    elim (Option-cases ((listen rcptto lines).0)) [
      | inl e ↦
          rw (e, send_rcpt)
            (send_data-deliveries j to (listen rcptto lines).1 (pending ++ to ∷ []) rest)
      | inr (r, e) ↦ elim (Bool-cases (j.reports_bounces && is_bounce_reply r)) [
        | inl b ↦
            rw (e, b, send_rcpt) (sym (bouncemail-taken_over j sender (pending ++ to ∷ []) rest))
        | inr b ↦ rw (e, b, send_rcpt) refl
      ]
    ]

abbrev pub list_if : Bool → Bytes → List Bytes
list_if b to = if b then to ∷ [] else []

taken_over-accepted :
    (result : Result) (to : Bytes) (rest : List Event)
    → (p : List Bytes) × (taken_over result (to ∷ []) rest
        ≡ list_if (is_accepted result) to ++ deliveries p rest)
taken_over-accepted accepted to rest = ([], refl)
taken_over-accepted ignored to rest = (to ∷ [], refl)
taken_over-accepted bounce_ignored to rest = (to ∷ [], refl)
taken_over-accepted (bounced num addr) to rest = (to ∷ [], refl)
taken_over-accepted no_fork to rest = (to ∷ [], refl)
taken_over-accepted no_socket to rest = (to ∷ [], refl)
taken_over-accepted unwritten to rest = (to ∷ [], refl)
taken_over-accepted stopped to rest = (to ∷ [], refl)
taken_over-accepted (refused t) to rest = (to ∷ [], refl)
taken_over-accepted crash to rest = (to ∷ [], refl)

-- The server took the mail for the recipient if and only if the result says so, and for no other.
pub send_mail-deliveries :
    (j : Job) (sender to : Bytes) (lines pending : List Bytes) (rest : List Event)
    → (p : List Bytes) × (deliveries pending (log_of (send_mail j sender to lines) ++ rest)
        ≡ list_if (is_accepted ((send_mail j sender to lines).0)) to ++ deliveries p rest)
unfolding send_mail reset deliveries
send_mail-deliveries j sender to lines pending rest = elim (Bool-cases j.connected) [
  | inr h ↦ rw (h, send_mail) (pending, refl)
  | inl h ↦ elim (Bool-cases (contains b'@' to)) [
    | inr k ↦ rw (h, k, send_mail) (pending, refl)
    | inl k ↦ elim (Option-cases ((listen from lines).0)) [
      | inl e ↦
          let (p, q) =
            taken_over-accepted ((send_rcpt j sender to (listen from lines).1).0) to rest in
          rw (h, k, e, send_mail)
            (p, send_rcpt-deliveries j sender to (listen from lines).1 [] rest ∙ q)
      | inr (r, e) ↦ rw (h, k, e, send_mail) ([], refl)
    ]
  ]
]

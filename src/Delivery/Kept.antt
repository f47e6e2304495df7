-- ===== src/Delivery/Kept.antt =====
-- No address of a list that src/mlmmj-send.c serves is lost.
use mlmmj.Base.{
  ℕ, suc, ◌+◌, ◌≡◌, refl, sym, ap, ◌∙◌, ◌⊎◌, inl, inr, true, false, ◌&&◌, List, [], ◌∷◌, ◌++◌,
  append-nil, arith, if◌then◌else◌, Bool-cases, Option-cases, Bytes,
}
use mlmmj.CString.{str_eq, contains}
use mlmmj.Delivery.{Event}
use mlmmj.Delivery.Dialogue.{
  Result, accepted, ignored, bounce_ignored, bounced, no_fork, no_socket, unwritten, stopped,
  refused, crash, is_zero, Talk, Job, send_mail,
}
use mlmmj.Delivery.Queue.{
  Round, Done, requeuemail, sender_for, job_for, is_crash, Step, passes_over, keeps, crashes_with,
  goes_on, judge_result, serve_one, send_mail_many_list,
}
use mlmmj.Delivery.Pending.{deliveries, is_accepted, list_if, send_mail-deliveries}
use mathlib.Core.Path.{subst}

-- The addresses that the server took a mail for.
abbrev pub accepted_of : List (Bytes × Result) → List Bytes
accepted_of [] = []
accepted_of ((addr, result) ∷ results) = list_if (is_accepted result) addr ++ accepted_of results

-- How often an address stands in a list, those without `@` left out.
abbrev pub count : Bytes → List Bytes → ℕ
count a [] = 0
count a (addr ∷ addrs) =
    if contains b'@' addr && str_eq addr a then suc (count a addrs) else count a addrs

abbrev pub names : List (Bytes × Result) → List Bytes
names [] = []
names ((addr, result) ∷ results) = addr ∷ names results

count-append : (a : Bytes) (xs ys : List Bytes) → count a (xs ++ ys) ≡ count a xs + count a ys
count-append a [] ys = omega arith
count-append a (x ∷ xs) ys = ground (arith, count-append a xs ys)

count-rotate : (a x : Bytes) (xs : List Bytes) → count a (xs ++ x ∷ []) ≡ count a (x ∷ xs)
count-rotate a x xs = ground (arith, count-append a xs (x ∷ []))

Step-cases :
    (s : Step)
    → (s ≡ passes_over)
      ⊎ (((log : List Event) × (lines : List Bytes) × (s ≡ keeps log lines))
          ⊎ (((log : List Event) × (lines : List Bytes) × (s ≡ crashes_with log lines))
              ⊎ ((result : Result) × (log : List Event) × (lines : List Bytes) × (s
                    ≡ goes_on result log lines))))
Step-cases passes_over = inl refl
Step-cases (keeps log lines) = inr (inl (log, lines, refl))
Step-cases (crashes_with log lines) = inr (inr (inl (log, lines, refl)))
Step-cases (goes_on result log lines) = inr (inr (inr (result, log, lines, refl)))

serve_one-passes_over :
    (j : Job) (r : Round) (addr : Bytes) (i : ℕ) (lines : List Bytes)
    → serve_one j r addr i lines ≡ passes_over
    → contains b'@' addr ≡ false
unfolding serve_one
serve_one-passes_over j r addr i lines h = ground arith

-- Every address of the list with an `@` has a result or is kept for a later run, and as often as it
-- stands in the list.
abbrev pub IsKept : Bytes → List Bytes → Done → Type 0
IsKept a addrs d =
    (d.crashed ≡ true) ⊎ (count a addrs ≡ count a (names d.results) + count a d.requeued)

-- Where the file of the requeue can be written, every address of the list with an `@` has a result or
-- is kept for a later run, as often as it stands in the list, unless the program crashes.
pub send_mail_many_list-IsKept :
    (j : Job) (r : Round) (a : Bytes) (addrs : List Bytes) (i : ℕ) (lines : List Bytes)
    → r.requeues ≡ true
    → IsKept a addrs (send_mail_many_list j r addrs i lines)
unfolding send_mail_many_list requeuemail
send_mail_many_list-IsKept j r a [] i lines h = inr refl
send_mail_many_list-IsKept j r a (addr ∷ addrs) i lines h =
    elim (Step-cases (serve_one j r addr i lines)) [
      | inl s ↦
          rw (s, serve_one-passes_over j r addr i lines s, send_mail_many_list)
            (send_mail_many_list-IsKept j r a addrs (i + 1) lines h)
      | inr (inl (log, lines', s)) ↦
          rw (s, h, send_mail_many_list) (inr (omega (arith, count-rotate a addr addrs)))
      | inr (inr (inl (log, lines', s))) ↦ rw (s, send_mail_many_list) (inl refl)
      | inr (inr (inr (result, log, lines', s))) ↦
          let rest = send_mail_many_list-IsKept j r a addrs (i + 1) lines' h in
          rw (s, send_mail_many_list) (ground (arith, rest))
    ]

-- What the server took by the dialogue of one step.
abbrev Told : Step → Bytes → List Bytes → List Event → Type 0
Told passes_over addr pending rest = Unit
Told (keeps log lines) addr pending rest = deliveries pending log ≡ []
Told (crashes_with log lines) addr pending rest = deliveries pending log ≡ []
Told (goes_on result log lines) addr pending rest =
    (p : List Bytes) × (deliveries pending (log ++ rest)
      ≡ list_if (is_accepted result) addr ++ deliveries p rest)

nothing_told :
    (pending p : List Bytes) (log : List Event)
    → deliveries pending (log ++ []) ≡ deliveries p []
    → deliveries pending log ≡ []
unfolding deliveries
nothing_told pending p log h = sym (ap (λ l. deliveries pending l) (append-nil log)) ∙ h

-- What `send_mail` gives is told by its dialogue.
abbrev Tells : Result → List Event → Bytes → List Bytes → Type 0
Tells result log addr pending =
    (rest : List Event)
    → (p : List Bytes) × (deliveries pending (log ++ rest)
        ≡ list_if (is_accepted result) addr ++ deliveries p rest)

failed-Told :
    (r : Round) (result : Result) (log : List Event) (lines : List Bytes) (addr : Bytes)
    (pending : List Bytes)
    → is_crash result ≡ false
    → is_zero result ≡ false
    → is_accepted result ≡ false
    → Tells result log addr pending
    → (rest : List Event) → Told (judge_result r (result, (log, lines))) addr pending rest
failed-Told r result log lines addr pending c z a h rest =
    let (p, none_taken) = h [] in
    let nothing : deliveries pending (log ++ []) ≡ deliveries p [] = none_taken ∙ rw a refl in
    elim (Bool-cases r.archived) [
      | inl e ↦ rw (c, z, e) (nothing_told pending p log nothing)
      | inr e ↦ rw (c, z, e) (h rest)
    ]

judge_result-Told :
    (r : Round) (result : Result) (log : List Event) (lines : List Bytes) (addr : Bytes)
    (pending : List Bytes)
    → Tells result log addr pending
    → (rest : List Event) → Told (judge_result r (result, (log, lines))) addr pending rest
judge_result-Told r accepted log lines addr pending h rest = h rest
judge_result-Told r ignored log lines addr pending h rest = h rest
judge_result-Told r bounce_ignored log lines addr pending h rest = h rest
judge_result-Told r (bounced num to) log lines addr pending h rest = h rest
judge_result-Told r crash log lines addr pending h rest =
    nothing_told pending ((h []).0) log ((h []).1)
judge_result-Told r no_fork log lines addr pending h rest =
    failed-Told r no_fork log lines addr pending refl refl refl h rest
judge_result-Told r no_socket log lines addr pending h rest =
    failed-Told r no_socket log lines addr pending refl refl refl h rest
judge_result-Told r unwritten log lines addr pending h rest =
    failed-Told r unwritten log lines addr pending refl refl refl h rest
judge_result-Told r stopped log lines addr pending h rest =
    failed-Told r stopped log lines addr pending refl refl refl h rest
judge_result-Told r (refused t) log lines addr pending h rest =
    failed-Told r (refused t) log lines addr pending refl refl refl h rest

serve_one-Told :
    (j : Job) (r : Round) (addr : Bytes) (i : ℕ) (lines pending : List Bytes) (rest : List Event)
    → Told (serve_one j r addr i lines) addr pending rest
unfolding serve_one deliveries
serve_one-Told j r addr i lines pending rest = elim (Bool-cases (contains b'@' addr)) [
  | inr k ↦ rw (k, serve_one) tt
  | inl k ↦ elim (Bool-cases (r.gotsigterm i && r.archived)) [
    | inl g ↦ rw (k, g, serve_one) refl
    | inr g ↦ elim (Option-cases (sender_for j r addr)) [
      | inl s ↦ rw (k, g, s, serve_one) refl
      | inr (o, s) ↦ elim (Option-cases o) [
        | inl e ↦ rw (k, g, s, e, serve_one) refl
        | inr (sender, e) ↦
            let t : Talk = send_mail (job_for j r) sender addr lines in
            rw (k, g, s, e, serve_one)
              (judge_result-Told r t.0 t.1.0 t.1.1 addr pending
                (send_mail-deliveries (job_for j r) sender addr lines pending) rest)
      ]
    ]
  ]
]

-- The server took mails for exactly those addresses whose results say so, in their order, and each
-- once, whatever fails and wherever the list is broken off.
pub send_mail_many_list-deliveries :
    (j : Job) (r : Round) (addrs : List Bytes) (i : ℕ) (lines pending : List Bytes)
    → deliveries pending ((send_mail_many_list j r addrs i lines).log)
      ≡ accepted_of ((send_mail_many_list j r addrs i lines).results)
unfolding send_mail_many_list requeuemail deliveries
send_mail_many_list-deliveries j r [] i lines pending = refl
send_mail_many_list-deliveries j r (addr ∷ addrs) i lines pending =
    elim (Step-cases (serve_one j r addr i lines)) [
      | inl s ↦
          rw (s, send_mail_many_list)
            (send_mail_many_list-deliveries j r addrs (i + 1) lines pending)
      | inr (inl (log, lines', s)) ↦ rw (s, send_mail_many_list) (told_at s [])
      | inr (inr (inl (log, lines', s))) ↦ rw (s, send_mail_many_list) (told_at s [])
      | inr (inr (inr (result, log, lines', s))) ↦
          let later = send_mail_many_list j r addrs (i + 1) lines' in
          let (p, q) = told_at s later.log in
          rw (s, send_mail_many_list)
            (q
              ∙ ap (λ l. list_if (is_accepted result) addr ++ l)
                  (send_mail_many_list-deliveries j r addrs (i + 1) lines' p))
    ]
  where
    told_at :
        {s : Step} → serve_one j r addr i lines ≡ s → (rest : List Event) → Told s addr pending rest
    told_at e rest =
        subst (λ t. Told t addr pending rest) e (serve_one-Told j r addr i lines pending rest)

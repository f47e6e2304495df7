-- ===== src/Process/Posting.antt =====
-- What becomes of a post, from the limit of its size on, `main` of src/mlmmj-process.c.
use mlmmj.Base.{
  ℕ, ◌+◌, ◌-◌, ◌*◌, ◌%◌, ◌^◌, Bool, true, false, not, ◌&&◌, ◌||◌, Option, none, some, [], ◌∷◌, ltb,
  leb, ◌==◌, if◌then◌else◌, Bytes, codes, length, is_empty,
}
use mlmmj.CString.{is_digit, case_eq}
use mlmmj.ControlFiles.{ctrlvalue, ctrlvalues}
use mlmmj.Access.{do_access, Action, allow, send, deny, moderate, discard}
use mlmmj.Subscribers.{is_subbed, sub_none, found}
use mlmmj.Process.{
  ModReason, modnonsubposts, modnonmodposts, access, moderated, Denial, by_maxmailsize, by_tocc,
  by_access, by_subonlypost, by_modonlypost, denial_text, Site, SystemCalls, as_received,
  as_prepared, Spool, End, exit_success, exit_failure, denies, unanswered, posts, Post,
  is_moderator, from_address, newmoderated,
}

abbrev is_space : ℕ → Bool
is_space c = c == b' ' || (leb 9 c && leb c 13)

abbrev skip_space : Bytes → Bytes
skip_space [] = []
skip_space (c ∷ s) = if is_space c then skip_space s else c ∷ s

abbrev pub digits_value : ℕ → Bytes → ℕ
digits_value n [] = n
digits_value n (c ∷ s) =
    let more = digits_value (10 * n + (c - b'0')) s in if is_digit c then more else n

abbrev at_most : ℕ → ℕ → ℕ
at_most bound n = if leb n bound then n else bound

-- `atol` in 64 bits, as the remainder of the value by 2 ^ 64.
unfoldable pub atol : Bytes → ℕ
atol s = negated (skip_space s)
  where
    negated : Bytes → ℕ
    negated [] = 0
    negated (c ∷ s) =
        if c == b'-'
        then (2 ^ 64 - at_most (2 ^ 63) (digits_value 0 s)) % 2 ^ 64
        else if c == b'+'
        then at_most (2 ^ 63 - 1) (digits_value 0 s)
        else at_most (2 ^ 63 - 1) (digits_value 0 (c ∷ s))

-- `st.st_size > maxmailsize`, with the value of `atol` kept in an `int` of 32 bits; from 2 ^ 31 on
-- that is negative.
unfoldable pub exceeds : ℕ → Bytes → Bool
unfolding atol
exceeds st_size maxmailsizestr =
    let maxmailsize = atol maxmailsizestr % 2 ^ 32 in
    leb (2 ^ 31) maxmailsize || ltb maxmailsize st_size

-- `strcasecmp(listaddr, posteraddr) == 0`
unfoldable pub from_list : Post → Bool
unfolding case_eq
from_list p = case_eq p.listaddr p.posteraddr

-- What `modreason` is.
abbrev pub nonsub_reason : Bool → ModReason
nonsub_reason subonlypost = if subonlypost then modnonsubposts else modnonmodposts

module _ (S : Site) (C : SystemCalls) (p : Post) where
  -- `unlink(donemailname)`
  abbrev pub without_done : Spool → Spool
  without_done sp = record sp { donemail = false }

  abbrev pub without_mail : Spool → Spool
  without_mail sp = record sp { mailfile = false }

  -- The files go when the text is written.
  unfoldable pub deny_post_for : Denial → Spool → Spool → Spool × End
  unfolding from_address
  deny_post_for d sp gone = elim (from_address S p.listaddr (codes "bounces-help@")) [
    | none ↦ (sp, exit_failure)
    | some fromaddr ↦
        if not (S.prepares (denial_text d))
        then (sp, exit_failure)
        else if C.execs_denial
        then (gone, denies d p.posteraddr fromaddr)
        else (gone, unanswered d)
  ]

  unfoldable pub send_post : Spool → Spool × End
  send_post sp =
      if p.noprocess
      then (sp, exit_success)
      else (sp, posts p.prepared (if S.system.statctrl "notmetoo" then some p.posteraddr else none))

  unfoldable pub moderate_post : ModReason → Spool → Spool × End
  unfolding newmoderated
  moderate_post reason sp =
      let queued : Spool = record sp { donemail = false; moderation = true } in
      if not C.queues
      then (sp, exit_failure)
      else if not (S.system.statctrl "notmetoo")
      then (queued, newmoderated S C p reason)
      else if not C.opens_omit
      then (queued, exit_failure)
      else if not C.writes_omit
      then (record queued { omit = some [] }, exit_failure)
      else (record queued { omit = some p.posteraddr }, newmoderated S C p reason)

  -- With `send`, and the reason for which the post is moderated already.
  unfoldable pub finish_post : Bool → Option ModReason → Spool → Spool × End
  unfolding send_post moderate_post
  finish_post sent (some reason) sp = moderate_post reason sp
  finish_post sent none sp =
      if not sent && S.system.statctrl "moderated" then moderate_post moderated sp else send_post sp

  -- Whether the poster is a subscriber or a moderator, as the list asks for. `none` is the end of the
  -- program.
  unfoldable pub is_known : Bool → Bool → Option Bool
  unfolding is_moderator
  is_known subonlypost modonlypost =
      if subonlypost
      then elim (is_subbed S.subscribers p.posteraddr false) [
        | none ↦ none
        | some sub_none ↦ some false
        | some _ ↦ some true
      ]
      else if modonlypost
      then elim (is_moderator (S.control "moderators") (some p.posteraddr)) [
        | none ↦ none
        | some (found, moderators) ↦ some found
      ]
      else some false

  unfoldable pub deny_unknown : Bool → Bool → Spool → Spool × End
  unfolding deny_post_for
  deny_unknown subonlypost modonlypost sp =
      if (subonlypost && S.system.statctrl "nosubonlydenymails")
        || (modonlypost && S.system.statctrl "nomodonlydenymails")
      then (without_done sp, exit_success)
      else deny_post_for (if subonlypost then by_subonlypost else by_modonlypost) sp
          (without_done sp)

  unfoldable pub check_sender : Bool → Bool → Bool → Bool → Option ModReason → Spool → Spool × End
  unfolding is_known deny_unknown finish_post from_list
  check_sender sent subonlypost modonlypost modnonsub reason sp =
      if not (not sent && (subonlypost || modonlypost || modnonsub))
      then finish_post sent reason sp
      else if from_list p
      then (without_done sp, exit_success)
      else elim (is_known subonlypost modonlypost) [
        | none ↦ (sp, exit_failure)
        | some true ↦ finish_post sent reason sp
        | some false ↦
            if modnonsub
            then finish_post sent (some (nonsub_reason subonlypost)) sp
            else deny_unknown subonlypost modonlypost sp
      ]

  -- modnonsubposts implies subonlypost if modonlypost is not set.
  unfoldable pub check_restrictions : Bool → Option ModReason → Spool → Spool × End
  unfolding check_sender
  check_restrictions sent reason sp =
      let modonlypost = S.system.statctrl "modonlypost" in
      let modnonsub = S.system.statctrl "modnonsubposts" in
      let subonlypost = S.system.statctrl "subonlypost" || (modnonsub && not modonlypost) in
      check_sender sent subonlypost modonlypost modnonsub reason sp

  unfoldable pub obey_access : Action → Spool → Spool × End
  unfolding check_restrictions deny_post_for from_list
  obey_access allow sp = check_restrictions false none sp
  obey_access send sp = check_restrictions true none sp
  obey_access moderate sp = check_restrictions false (some access) sp
  obey_access deny sp =
      if from_list p || S.system.statctrl "noaccessdenymails"
      then (without_done sp, exit_success)
      else deny_post_for by_access sp (without_done sp)
  obey_access discard sp =
      if C.discards_done
      then (record sp { donemail = false; discarded = some as_prepared }, exit_success)
      else (sp, exit_failure)

  unfoldable pub check_access : Spool → Spool × End
  unfolding obey_access do_access ctrlvalues
  check_access sp = elim (ctrlvalues (S.control "access")) [
    | none ↦ check_restrictions false none sp
    | some rules ↦ obey_access ((do_access S.regex rules p.allheaders).0) sp
  ]

  unfoldable pub check_tocc : Spool → Spool × End
  unfolding check_access deny_post_for from_list
  check_tocc sp =
      if not (p.addrtocc && not p.intocc)
      then check_access sp
      else if from_list p || S.system.statctrl "notoccdenymails"
      then (without_done sp, exit_success)
      else deny_post_for by_tocc sp (without_done sp)

  -- `rename` of the mail may fail.
  abbrev pub discard_mail : Spool → Spool
  discard_mail sp =
      if C.discards_mail
      then record sp { mailfile = false; donemail = false; discarded = some as_received }
      else record sp { donemail = false }

  unfoldable pub check_envelope : Spool → Spool × End
  unfolding check_tocc
  check_envelope sp =
      if is_empty p.efrom then (discard_mail sp, exit_success) else check_tocc (without_mail sp)

  unfoldable pub check_size : Spool → Spool × End
  unfolding check_envelope deny_post_for exceeds ctrlvalue
  check_size sp = elim (ctrlvalue (S.control "maxmailsize")) [
    | none ↦ check_envelope sp
    | some maxmailsizestr ↦
        let gone : Spool = without_done (without_mail sp) in
        if not C.stats_done
        then (sp, exit_failure)
        else if not (exceeds (length p.prepared) maxmailsizestr)
        then check_envelope sp
        else if S.system.statctrl "nomaxmailsizedenymails"
        then (gone, exit_success)
        else deny_post_for by_maxmailsize sp gone
  ]

-- ===== src/Process/Gate.antt =====
-- Which mails src/mlmmj-process.c sends to the list as posts.
use mlmmj.Base.{
  ◌≡◌, refl, sym, ◌∙◌, inl, inr, Bool, true, false, not, ◌&&◌, ◌||◌, Option, none, some, List,
  arith, ◌==◌, if◌then◌else◌, Bool-cases, Option-cases, Bytes, length, is_empty,
}
use mlmmj.ControlFiles.{ctrlvalue, ctrlvalues}
use mlmmj.Access.{do_access, Action, allow, send, deny, moderate, discard}
use mlmmj.Process.{
  ModReason, access, moderated, Denial, by_maxmailsize, by_tocc, by_access, by_subonlypost,
  by_modonlypost, Site, SystemCalls, Spool, End, posts, Post, tell_moderators, newmoderated,
}
use mlmmj.Process.Posting.{
  exceeds, from_list, nonsub_reason, without_done, without_mail, deny_post_for, send_post,
  moderate_post, finish_post, is_known, deny_unknown, check_sender, check_restrictions, obey_access,
  check_access, check_tocc, check_envelope, check_size,
}
use mlmmj.Process.Main.{
  values_at, is_bounce, Mail, send_to_owner, handle_extra, post_of, check_from,
}
use mlmmj.Process.Addressing.{get_emails}

abbrev pub is_post : End → Bool
is_post (posts text omit) = true
is_post _ = false

abbrev is_true : Option Bool → Bool
is_true none = false
is_true (some b) = b

-- What the list asks of a post, without the order of the tests.
module _ (S : Site) (C : SystemCalls) (p : Post) where
  abbrev pub within_limit : Bool
  within_limit = elim (ctrlvalue (S.control "maxmailsize")) [
    | none ↦ true
    | some limit ↦ C.stats_done && not (exceeds (length p.prepared) limit)
  ]

  abbrev pub ruling : Action
  ruling = elim (ctrlvalues (S.control "access")) [
    | none ↦ allow
    | some rules ↦ (do_access S.regex rules p.allheaders).0
  ]

  abbrev pub may_send : Bool
  may_send =
      let modonlypost = S.system.statctrl "modonlypost" in
      let modnonsub = S.system.statctrl "modnonsubposts" in
      let subonlypost = S.system.statctrl "subonlypost" || (modnonsub && not modonlypost) in
      not (subonlypost || modonlypost || modnonsub)
      || (not (from_list p) && is_true (is_known S C p subonlypost modonlypost))

  abbrev pub passes : Action → Bool
  passes send = true
  passes allow = may_send && not (S.system.statctrl "moderated")
  passes _ = false

  abbrev pub admits : Bool
  admits =
      within_limit && not (is_empty p.efrom) && not (p.addrtocc && not p.intocc) && passes ruling

  newmoderated-post : (reason : ModReason) → is_post (newmoderated S C p reason) ≡ false
  unfolding newmoderated tell_moderators
  newmoderated-post reason = ground arith

  deny_post_for-post :
      (d : Denial) (sp gone : Spool) → is_post ((deny_post_for S C p d sp gone).1) ≡ false
  unfolding deny_post_for
  deny_post_for-post d sp gone = ground arith

  moderate_post-post :
      (reason : ModReason) (sp : Spool) → is_post ((moderate_post S C p reason sp).1) ≡ false
  unfolding moderate_post
  moderate_post-post reason sp = ground (arith, newmoderated-post reason)

  send_post-post : (sp : Spool) → is_post ((send_post S C p sp).1) ≡ not p.noprocess
  unfolding send_post
  send_post-post sp = ground arith

  finish_post-post :
      (sent : Bool) (sp : Spool)
      → is_post ((finish_post S C p sent none sp).1)
        ≡ (not p.noprocess && (sent || not (S.system.statctrl "moderated")))
  unfolding finish_post
  finish_post-post sent sp = ground (arith, send_post-post sp, moderate_post-post moderated sp)

  finish_post-moderated :
      (sent : Bool) (reason : ModReason) (sp : Spool)
      → is_post ((finish_post S C p sent (some reason) sp).1) ≡ false
  unfolding finish_post
  finish_post-moderated sent reason sp = moderate_post-post reason sp

  deny_unknown-post :
      (subonlypost modonlypost : Bool) (sp : Spool)
      → is_post ((deny_unknown S C p subonlypost modonlypost sp).1) ≡ false
  unfolding deny_unknown
  deny_unknown-post subonlypost modonlypost sp = ground (
    arith,
    deny_post_for-post (if subonlypost then by_subonlypost else by_modonlypost) sp
        (without_done S C p sp),
  )

  check_sender-moderated :
      (subonlypost modonlypost modnonsub : Bool) (reason : ModReason) (sp : Spool)
      → is_post ((check_sender S C p false subonlypost modonlypost modnonsub (some reason) sp).1)
        ≡ false
  unfolding check_sender
  check_sender-moderated subonlypost modonlypost modnonsub reason sp = ground (
    arith,
    finish_post-moderated false reason sp,
    finish_post-moderated false (nonsub_reason subonlypost) sp,
    deny_unknown-post subonlypost modonlypost sp,
  )

  check_sender-post :
      (subonlypost modonlypost modnonsub : Bool) (sp : Spool)
      → is_post ((check_sender S C p false subonlypost modonlypost modnonsub none sp).1) ≡ (
          not p.noprocess
          && ((not (subonlypost || modonlypost || modnonsub)
                || (not (from_list p) && is_true (is_known S C p subonlypost modonlypost)))
              && not (S.system.statctrl "moderated")))
  unfolding check_sender
  check_sender-post subonlypost modonlypost modnonsub sp = ground (
    arith,
    finish_post-post false sp,
    finish_post-moderated false (nonsub_reason subonlypost) sp,
    deny_unknown-post subonlypost modonlypost sp,
  )

  check_restrictions-sent :
      (sp : Spool) → is_post ((check_restrictions S C p true none sp).1) ≡ not p.noprocess
  unfolding check_restrictions check_sender
  check_restrictions-sent sp = ground (arith, finish_post-post true sp)

  check_restrictions-post :
      (sp : Spool)
      → is_post ((check_restrictions S C p false none sp).1)
        ≡ (not p.noprocess && (may_send && not (S.system.statctrl "moderated")))
  unfolding check_restrictions
  check_restrictions-post sp =
      let modonlypost = S.system.statctrl "modonlypost" in
      let modnonsub = S.system.statctrl "modnonsubposts" in
      let subonlypost = S.system.statctrl "subonlypost" || (modnonsub && not modonlypost) in
      check_sender-post subonlypost modonlypost modnonsub sp

  check_restrictions-moderated :
      (reason : ModReason) (sp : Spool)
      → is_post ((check_restrictions S C p false (some reason) sp).1) ≡ false
  unfolding check_restrictions
  check_restrictions-moderated reason sp =
      let modonlypost = S.system.statctrl "modonlypost" in
      let modnonsub = S.system.statctrl "modnonsubposts" in
      let subonlypost = S.system.statctrl "subonlypost" || (modnonsub && not modonlypost) in
      check_sender-moderated subonlypost modonlypost modnonsub reason sp

  &&-false : (b : Bool) → (b && false) ≡ false
  &&-false true = refl
  &&-false false = refl

  obey_access-post :
      (a : Action) (sp : Spool)
      → is_post ((obey_access S C p a sp).1) ≡ (not p.noprocess && passes a)
  unfolding obey_access
  obey_access-post allow sp = check_restrictions-post sp
  obey_access-post send sp = ground (arith, check_restrictions-sent sp)
  obey_access-post moderate sp =
      check_restrictions-moderated access sp ∙ sym (&&-false (not p.noprocess))
  obey_access-post deny sp = ground (arith, deny_post_for-post by_access sp (without_done S C p sp))
  obey_access-post discard sp = ground arith

  check_access-post :
      (sp : Spool) → is_post ((check_access S C p sp).1) ≡ (not p.noprocess && passes ruling)
  unfolding check_access
  check_access-post sp = elim (Option-cases (ctrlvalues (S.control "access"))) [
    | inl e ↦ rw (e, check_access, ruling) (check_restrictions-post sp)
    | inr (rules, e) ↦
        rw (e, check_access, ruling)
          (obey_access-post ((do_access S.regex rules p.allheaders).0) sp)
  ]

  check_tocc-post :
      (sp : Spool)
      → is_post ((check_tocc S C p sp).1)
        ≡ (not (p.addrtocc && not p.intocc) && (not p.noprocess && passes ruling))
  unfolding check_tocc
  check_tocc-post sp =
      ground (arith, check_access-post sp, deny_post_for-post by_tocc sp (without_done S C p sp))

  -- A mail without an extension is sent to the list exactly where the list admits it, for each setting
  -- of the list.
  check_size-post : (sp : Spool) → is_post ((check_size S C p sp).1) ≡ (not p.noprocess && admits)
  unfolding check_size check_envelope
  check_size-post sp = ground (
    arith,
    check_tocc-post (without_mail S C p sp),
    deny_post_for-post by_maxmailsize sp (without_done S C p (without_mail S C p sp)),
  )

abbrev pub no_extra : Option Bytes → Bool
no_extra none = true
no_extra (some extra) = false

module _ (S : Site) (C : SystemCalls) (m : Mail) where
  handle_extra-post :
      (listaddr efrom : Bytes) (fromemails : List Bytes) (extra : Bytes) (sp : Spool)
      → is_post ((handle_extra S C m listaddr efrom fromemails extra sp).1) ≡ false
  unfolding handle_extra send_to_owner
  handle_extra-post listaddr efrom fromemails extra sp = ground arith

  -- A mail is sent to the list exactly where it has one address in From:, was not sent to an address
  -- with an extension, and is admitted.
  pub check_from-post :
      (listaddr prepared : Bytes) (allheaders : List Bytes) (readhdrs : List (Bytes × List Bytes))
      (recipextra : Option Bytes) (intocc addrtocc : Bool) (sp : Spool)
      → is_post (
          (check_from S C m listaddr prepared allheaders readhdrs
            (recipextra, intocc)
            addrtocc
            sp).1)
        ≡ (length (get_emails (values_at 0 readhdrs)) == 1
            && no_extra recipextra
            && (not m.noprocess
                && admits S C
                    (post_of S C m listaddr prepared allheaders readhdrs intocc addrtocc)))
  unfolding check_from is_bounce
  check_from-post listaddr prepared allheaders readhdrs none intocc addrtocc sp =
      elim (Bool-cases (length (get_emails (values_at 0 readhdrs)) == 1)) [
        | inl e ↦
            rw (e, check_from)
              (check_size-post S C
                (post_of S C m listaddr prepared allheaders readhdrs intocc addrtocc) sp)
        | inr e ↦ rw (e, check_from) refl
      ]
  check_from-post listaddr prepared allheaders readhdrs (some extra) intocc addrtocc sp = ground (
    arith,
    handle_extra-post listaddr
        ((post_of S C m listaddr prepared allheaders readhdrs intocc addrtocc).efrom)
        (get_emails (values_at 0 readhdrs)) extra sp,
  )

-- ===== src/Control/Rights/Unsubscribe.antt =====
-- When `listcontrol` of src/listcontrol.c runs mlmmj-unsub.
use mlmmj.Base.{
  ◌≡◌, refl, ap, Option-cases, inl, inr, Bool, true, false, Option, none, some, List, [], ◌∷◌, ◌++◌,
  arith, if◌then◌else◌, Bool-cases, Bytes, codes,
}
use mlmmj.Control.{
  Ctrl, unsubscribe_digest, unsubscribe_nomail, unsubscribe, confunsub_digest, confunsub_nomail,
  confunsub, bounces, release, moderate, ctrl_commands, command, find_command, mlmmj_unsub, execs,
  refused, System, arg, below,
}
use mlmmj.Control.Subscribing.{
  has_at, request_sub, on_subscribe_digest, on_subscribe_nomail, on_subscribe_both, on_subscribe,
  confirm, on_confsub_digest, on_confsub_nomail, on_confsub_both, on_confsub, on_unsubscribe,
  on_confunsub_digest, on_confunsub_nomail, on_confunsub,
}
use mlmmj.Control.Moderating.{
  on_get, on_bounces, on_permit, read_omit, send_released, release_post, on_release,
  remove_moderated, on_reject, on_obstruct, on_help, on_faq, on_list,
}
use mlmmj.Control.Dispatch.{dispatch, listcontrol}
use mlmmj.Control.Rights.{runs, outcome_rule}
use mlmmj.Control.Rights.Subscribe.{for_address}

-- The commands that ask to leave, and those that confirm it.
abbrev asks_to_leave : Ctrl → Bool
asks_to_leave unsubscribe_digest = true
asks_to_leave unsubscribe_nomail = true
asks_to_leave unsubscribe = true
asks_to_leave _ = false

abbrev confirms_leaving : Ctrl → Bool
confirms_leaving confunsub_digest = true
confirms_leaving confunsub_nomail = true
confirms_leaving confunsub = true
confirms_leaving _ = false

-- `mlmmj-unsub` runs, with these arguments, only where the list is not closed: for a request and then for its
-- sender, or for a confirmation whose cookie was handed out and then for the address in the file of the cookie.
pub data MayUnsubscribe (s : System) (fromemails : List Bytes) (c : Ctrl) (param : Bytes)
    (args : List Bytes) : Type 0 where
  by_request :
      (from : Bytes) (more : List (Option Bytes))
      → fromemails ≡ from ∷ []
      → asks_to_leave c ≡ true
      → s.statctrl "closedlist" ≡ false
      → has_at from ≡ true
      → args ≡ for_address s (some from) more
      → MayUnsubscribe s fromemails c param args
  by_cookie :
      (line : Option Bytes) (more : List (Option Bytes))
      → confirms_leaving c ≡ true
      → s.statctrl "closedlist" ≡ false
      → s.first_line (below s "/unsubconf/" param) ≡ some line
      → args ≡ for_address s line more
      → MayUnsubscribe s fromemails c param args

module _ (s : System) (args : List Bytes) where
  confunsub-Right :
      (c : Ctrl) (from param : Bytes) (more : List (Option Bytes))
      → confirms_leaving c ≡ true
      → (if s.statctrl "closedlist"
          then ([], refused)
          else confirm s mlmmj_unsub (below s "/unsubconf/" param) more).1
        ≡ execs mlmmj_unsub args
      → MayUnsubscribe s (from ∷ []) c param args
  unfolding confirm
  confunsub-Right c from param more k h = elim (Bool-cases (s.statctrl "closedlist")) [
    | inl closed ↦ absurd (cc (rw closed at h))
    | inr open' ↦ elim (Option-cases (s.first_line (below s "/unsubconf/" param))) [
      | inl e ↦ absurd (cc (rw (open', e, confirm) at h))
      | inr (line, e) ↦ by_cookie line more k open' e (cc (rw (open', e, confirm) at h))
    ]
  ]

  on_unsubscribe-Right :
      (c : Ctrl) (from param : Bytes)
      → asks_to_leave c ≡ true
      → on_unsubscribe s from ≡ execs mlmmj_unsub args
      → MayUnsubscribe s (from ∷ []) c param args
  unfolding on_unsubscribe
  on_unsubscribe-Right c from param k h =
      by_request from (arg "-r" ∷ (if s.statctrl "nosubconfirm" then arg "-c" else arg "-C") ∷ [])
        refl k (ground arith) (ground arith) (ground arith)

  unsub-send_released :
      (p : Bytes) (omit : Option Bytes) → runs mlmmj_unsub (send_released s p omit) ≡ false
  unfolding send_released
  unsub-send_released p none = refl
  unsub-send_released p (some o) = refl

  unsub-on_release : (param : Bytes) → runs mlmmj_unsub (on_release s param).1 ≡ false
  unfolding on_release release_post on_permit
  unsub-on_release param =
      let path = below s "/moderation/" param in
      ground (
        arith,
        unsub-send_released (path ++ codes ".sending") (read_omit s (path ++ codes ".omit")).1,
      )

  -- The handlers that end no subscription.
  abbrev never_unsubscribes : Ctrl → Bool
  never_unsubscribes unsubscribe_digest = false
  never_unsubscribes unsubscribe_nomail = false
  never_unsubscribes unsubscribe = false
  never_unsubscribes confunsub_digest = false
  never_unsubscribes confunsub_nomail = false
  never_unsubscribes confunsub = false
  never_unsubscribes _ = true

  dispatch-never_unsubscribes :
      (c : Ctrl) (from param mailname : Bytes)
      → never_unsubscribes c ≡ true
      → runs mlmmj_unsub (dispatch s c from param mailname).1 ≡ false
  unfolding dispatch on_subscribe_digest on_subscribe_nomail on_subscribe_both on_subscribe
      request_sub on_confsub_digest on_confsub_nomail on_confsub_both on_confsub confirm on_bounces
      on_permit on_reject on_obstruct remove_moderated on_help on_faq on_get on_list
  dispatch-never_unsubscribes unsubscribe from param mailname h = absurd (cc)
  dispatch-never_unsubscribes release from param mailname h = unsub-on_release param
  dispatch-never_unsubscribes moderate from param mailname h = unsub-on_release param
  dispatch-never_unsubscribes _ from param mailname h = ground arith

  dispatch-MayUnsubscribe :
      (c : Ctrl) (from param mailname : Bytes)
      → (dispatch s c from param mailname).1 ≡ execs mlmmj_unsub args
      → MayUnsubscribe s (from ∷ []) c param args
  unfolding dispatch on_confunsub_digest on_confunsub_nomail on_confunsub
  dispatch-MayUnsubscribe unsubscribe_digest from param mailname h =
      on_unsubscribe-Right _ from param refl h
  dispatch-MayUnsubscribe unsubscribe_nomail from param mailname h =
      on_unsubscribe-Right _ from param refl h
  dispatch-MayUnsubscribe unsubscribe from param mailname h =
      on_unsubscribe-Right _ from param refl h
  dispatch-MayUnsubscribe confunsub_digest from param mailname h =
      confunsub-Right _ from param _ refl h
  dispatch-MayUnsubscribe confunsub_nomail from param mailname h =
      confunsub-Right _ from param _ refl h
  dispatch-MayUnsubscribe confunsub from param mailname h = confunsub-Right _ from param _ refl h
  dispatch-MayUnsubscribe c from param mailname h =
      absurd (cc (ap (runs mlmmj_unsub) h, dispatch-never_unsubscribes c from param mailname refl))

  -- Where `listcontrol` becomes mlmmj-unsub, the list is not closed and the search in the table gave a command that
  -- stands for it: a request to leave, and then the arguments name the one sender; or a confirmation, and then the
  -- file of its cookie in unsubconf/ was read and the arguments name the address in it.
  pub listcontrol-MayUnsubscribe :
      (fromemails : List Bytes) (controlstr mailname : Bytes)
      → (listcontrol s fromemails controlstr mailname).1 ≡ execs mlmmj_unsub args
      → (c : Ctrl) × (param : Bytes) × (find_command ctrl_commands controlstr ≡ command c param)
        × MayUnsubscribe s fromemails c param args
  listcontrol-MayUnsubscribe fromemails controlstr mailname h =
      outcome_rule s (execs mlmmj_unsub args)
        (λ emails c param. MayUnsubscribe s emails c param args) dispatch-MayUnsubscribe
        (λ from param name k.
          cc (ap (runs mlmmj_unsub) k, dispatch-never_unsubscribes bounces from param name refl))
        (λ k. cc k) fromemails controlstr mailname (find_command ctrl_commands controlstr) refl h

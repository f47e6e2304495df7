-- ===== src/Control/Rights/Subscribe.antt =====
-- When `listcontrol` of src/listcontrol.c runs mlmmj-sub.
use mlmmj.Base.{
  String, ◌≡◌, refl, ap, ◌∙◌, inl, inr, Bool, true, false, Option, none, some, List, [], ◌∷◌, ◌++◌,
  arith, Option-cases, Bytes, codes,
}
use mlmmj.CString.{strip_prefix}
use mlmmj.Control.{
  Ctrl, subscribe_digest, subscribe_nomail, subscribe_both, subscribe, confsub_digest,
  confsub_nomail, confsub_both, confsub, unsubscribe_digest, unsubscribe_nomail, unsubscribe,
  confunsub_digest, confunsub_nomail, confunsub, bounces, release, reject, permit, obstruct,
  moderate, help, faq, get, list, ctrl_commands, command, find_command, mlmmj_sub, execs, System,
  argv, arg, below,
}
use mlmmj.Control.Subscribing.{
  has_at, request_sub, on_subscribe_digest, on_subscribe_nomail, on_subscribe_both, on_subscribe,
  confirm, on_confsub_digest, on_confsub_nomail, on_confsub_both, on_confsub, on_unsubscribe,
  on_confunsub_digest, on_confunsub_nomail, on_confunsub,
}
use mlmmj.Control.Moderating.{
  on_get, on_bounces, on_permit, read_omit, send_released, release_post, on_release,
  remove_moderated, on_reject, on_obstruct, on_help, on_faq, on_list,
}
use mlmmj.Control.Dispatch.{dispatch, listcontrol}
use mlmmj.Control.Rights.{runs, outcome_rule}

-- The commands that ask for a subscription, and those that confirm one.
abbrev asks : Ctrl → Bool
asks subscribe_digest = true
asks subscribe_nomail = true
asks subscribe_both = true
asks subscribe = true
asks _ = false

abbrev confirms : Ctrl → Bool
confirms confsub_digest = true
confirms confsub_nomail = true
confirms confsub_both = true
confirms confsub = true
confirms _ = false

-- The cookie of the subscription that a command lets through.
abbrev permitted : Ctrl → Bytes → Option Bytes
permitted permit param = some param
permitted release param = strip_prefix (codes "subscribe") param
permitted moderate param = strip_prefix (codes "subscribe") param
permitted _ param = none

-- The arguments for an address.
abbrev pub for_address : System → Option Bytes → List (Option Bytes) → List Bytes
for_address s address more = argv (arg "-L" ∷ some s.listdir ∷ arg "-a" ∷ address ∷ more)

-- `mlmmj-sub` runs, with these arguments, for a request to an open list and then for its sender; for a
-- confirmation whose cookie was handed out, and then for the address that stands in the file of the cookie; or for
-- the subscription that the command lets through and that waits for a moderator.
pub data MaySubscribe (s : System) (fromemails : List Bytes) (c : Ctrl) (param : Bytes)
    (args : List Bytes) : Type 0 where
  by_request :
      (from : Bytes) (more : List (Option Bytes))
      → fromemails ≡ from ∷ []
      → asks c ≡ true
      → s.statctrl "closedlist" ≡ false
      → s.statctrl "closedlistsub" ≡ false
      → has_at from ≡ true
      → args ≡ for_address s (some from) more
      → MaySubscribe s fromemails c param args
  by_cookie :
      (line : Option Bytes) (more : List (Option Bytes))
      → confirms c ≡ true
      → s.first_line (below s "/subconf/" param) ≡ some line
      → args ≡ for_address s line more
      → MaySubscribe s fromemails c param args
  by_moderator :
      (cookie : Bytes)
      → permitted c param ≡ some cookie
      → s.exists (below s "/moderation/subscribe" cookie) ≡ true
      → args ≡ argv (arg "-L" ∷ some s.listdir ∷ arg "-m" ∷ some cookie ∷ arg "-c" ∷ [])
      → MaySubscribe s fromemails c param args

module _ (s : System) (args : List Bytes) where
  request_sub-Right :
      (c : Ctrl) (from param : Bytes) (denied : Option (String × String))
      (more : List (Option Bytes))
      → asks c ≡ true
      → request_sub s from denied more ≡ execs mlmmj_sub args
      → MaySubscribe s (from ∷ []) c param args
  unfolding request_sub
  request_sub-Right c from param none more k h =
      by_request from more refl k (ground arith) (ground arith) (ground arith) (ground arith)
  request_sub-Right c from param (some (d, t)) more k h =
      by_request from more refl k (ground arith) (ground arith) (ground arith) (ground arith)

  on_permit-Right :
      (c : Ctrl) (from param cookie : Bytes)
      → permitted c param ≡ some cookie
      → (on_permit s cookie).1 ≡ execs mlmmj_sub args
      → MaySubscribe s (from ∷ []) c param args
  unfolding on_permit
  on_permit-Right c from param cookie k h = by_moderator cookie k (ground arith) (ground arith)

  runs-send_released :
      (p : Bytes) (omit : Option Bytes) → runs mlmmj_sub (send_released s p omit) ≡ false
  unfolding send_released
  runs-send_released p none = refl
  runs-send_released p (some o) = refl

  runs-release_post : (path : Bytes) → runs mlmmj_sub (release_post s path).1 ≡ false
  unfolding release_post
  runs-release_post path =
      ground (
        arith,
        runs-send_released (path ++ codes ".sending") (read_omit s (path ++ codes ".omit")).1,
      )

  confsub-Right :
      (c : Ctrl) (from param : Bytes) (more : List (Option Bytes))
      → confirms c ≡ true
      → (confirm s mlmmj_sub (below s "/subconf/" param) more).1 ≡ execs mlmmj_sub args
      → MaySubscribe s (from ∷ []) c param args
  unfolding confirm
  confsub-Right c from param more k h =
      elim (Option-cases (s.first_line (below s "/subconf/" param))) [
        | inl e ↦ absurd (cc (rw (e, confirm) at h))
        | inr (line, e) ↦ by_cookie line more k e (cc (rw (e, confirm) at h))
      ]

  on_release-Right :
      (c : Ctrl) (from param : Bytes)
      → permitted c param ≡ strip_prefix (codes "subscribe") param
      → (on_release s param).1 ≡ execs mlmmj_sub args
      → MaySubscribe s (from ∷ []) c param args
  unfolding on_release
  on_release-Right c from param k h = elim (Option-cases (strip_prefix (codes "subscribe") param)) [
    | inl e ↦ absurd (
        cc (
          ap (runs mlmmj_sub) (rw (e, on_release) at h),
          runs-release_post (below s "/moderation/" param),
        ))
    | inr (r, e) ↦ on_permit-Right c from param r (k ∙ e) (rw (e, on_release) at h)
  ]

  -- The handlers that run another program, or none.
  abbrev never_subscribes : Ctrl → Bool
  never_subscribes unsubscribe_digest = true
  never_subscribes unsubscribe_nomail = true
  never_subscribes unsubscribe = true
  never_subscribes confunsub_digest = true
  never_subscribes confunsub_nomail = true
  never_subscribes confunsub = true
  never_subscribes bounces = true
  never_subscribes reject = true
  never_subscribes obstruct = true
  never_subscribes help = true
  never_subscribes faq = true
  never_subscribes get = true
  never_subscribes list = true
  never_subscribes _ = false

  dispatch-never_subscribes :
      (c : Ctrl) (from param mailname : Bytes)
      → never_subscribes c ≡ true
      → runs mlmmj_sub (dispatch s c from param mailname).1 ≡ false
  unfolding dispatch on_unsubscribe on_confunsub_digest on_confunsub_nomail on_confunsub confirm
      on_bounces on_reject on_obstruct remove_moderated on_help on_faq on_get on_list
  dispatch-never_subscribes subscribe from param mailname h = absurd (cc)
  dispatch-never_subscribes _ from param mailname h = ground arith

  dispatch-MaySubscribe :
      (c : Ctrl) (from param mailname : Bytes)
      → (dispatch s c from param mailname).1 ≡ execs mlmmj_sub args
      → MaySubscribe s (from ∷ []) c param args
  unfolding dispatch on_subscribe_digest on_subscribe_nomail on_subscribe_both on_subscribe
      on_confsub_digest on_confsub_nomail on_confsub_both on_confsub
  dispatch-MaySubscribe subscribe_digest from param mailname h =
      request_sub-Right _ from param _ _ refl h
  dispatch-MaySubscribe subscribe_nomail from param mailname h =
      request_sub-Right _ from param _ _ refl h
  dispatch-MaySubscribe subscribe_both from param mailname h =
      request_sub-Right _ from param _ _ refl h
  dispatch-MaySubscribe subscribe from param mailname h = request_sub-Right _ from param _ _ refl h
  dispatch-MaySubscribe confsub_digest from param mailname h = confsub-Right _ from param _ refl h
  dispatch-MaySubscribe confsub_nomail from param mailname h = confsub-Right _ from param _ refl h
  dispatch-MaySubscribe confsub_both from param mailname h = confsub-Right _ from param _ refl h
  dispatch-MaySubscribe confsub from param mailname h = confsub-Right _ from param _ refl h
  dispatch-MaySubscribe release from param mailname h = on_release-Right _ from param refl h
  dispatch-MaySubscribe moderate from param mailname h = on_release-Right _ from param refl h
  dispatch-MaySubscribe permit from param mailname h = on_permit-Right _ from param param refl h
  dispatch-MaySubscribe c from param mailname h =
      absurd (cc (ap (runs mlmmj_sub) h, dispatch-never_subscribes c from param mailname refl))

  -- Where `listcontrol` becomes mlmmj-sub, the search in the table gave a command that stands for it: a request to an
  -- open list, and then the arguments name the one sender; a confirmation, and then the file of its cookie in
  -- subconf/ was read and the arguments name the address in it; or a permission, and then a subscription of that
  -- cookie waits in moderation/ and the arguments name the cookie.
  pub listcontrol-MaySubscribe :
      (fromemails : List Bytes) (controlstr mailname : Bytes)
      → (listcontrol s fromemails controlstr mailname).1 ≡ execs mlmmj_sub args
      → (c : Ctrl) × (param : Bytes) × (find_command ctrl_commands controlstr ≡ command c param)
        × MaySubscribe s fromemails c param args
  listcontrol-MaySubscribe fromemails controlstr mailname h =
      outcome_rule s (execs mlmmj_sub args) (λ emails c param. MaySubscribe s emails c param args)
        dispatch-MaySubscribe
        (λ from param name k.
          cc (ap (runs mlmmj_sub) k, dispatch-never_subscribes bounces from param name refl))
        (λ k. cc k) fromemails controlstr mailname (find_command ctrl_commands controlstr) refl h

-- ===== src/Control/Safety.antt =====
-- Which files `listcontrol` of src/listcontrol.c removes and renames.
use mlmmj.Base.{
  ℕ, String, ◌≡◌, refl, ap, ◌∙◌, ◌⊎◌, inl, inr, false, ◌||◌, Option, some, List, [], ◌∷◌, ◌++◌,
  append_assoc, arith, Bool-cases, Option-cases, Bytes, codes, All, Bool, true, if◌then◌else◌,
}
use mlmmj.CString.{strip_prefix, contains}
use mlmmj.Control.{
  Program, Event, unlinked, renamed, System, below, Ctrl, confsub_digest, confsub_nomail,
  confsub_both, confsub, confunsub_digest, confunsub_nomail, confunsub, release, reject, permit,
  obstruct, moderate, Outcome, refused, ctrl_commands, Parsed, invalid, command, unknown,
  find_command,
}
use mlmmj.Control.Subscribing.{
  confirm, on_confsub_digest, on_confsub_nomail, on_confsub_both, on_confsub, on_confunsub_digest,
  on_confunsub_nomail, on_confunsub,
}
use mlmmj.Control.Moderating.{
  on_permit, read_omit, release_post, remove_moderated, on_release, on_reject, on_obstruct,
}
use mlmmj.Control.Dispatch.{dispatch, with_event, run_command, no_command, listcontrol}
use mlmmj.Control.Syntax.{find_command-slash}

pub data Place : Type 0 where
  subconf unsubconf moderation : Place

abbrev pub place_text : Place → String
place_text subconf = "/subconf/"
place_text unsubconf = "/unsubconf/"
place_text moderation = "/moderation/"

-- A file that stands directly in one of these directories of the list.
pub record IsFileOf (s : System) (path : Bytes) : Type 0 where
  pub place : Place
  pub name : Bytes
  pub path_is : path ≡ below s (place_text place) name
  pub slash : contains b'/' name ≡ false

abbrev pub IsSafe : System → Bytes → Event → Type 0
IsSafe s mailname (unlinked p) = (p ≡ mailname) ⊎ IsFileOf s p
IsSafe s mailname (renamed p q) = IsFileOf s p × IsFileOf s q

contains-append : (c : ℕ) (a b : Bytes) → contains c (a ++ b) ≡ (contains c a || contains c b)
unfolding contains
contains-append c [] b = refl
contains-append c (x ∷ a) b = ground (arith, contains-append c a b)

strip_prefix-contains :
    (c : ℕ) (p s r : Bytes)
    → strip_prefix p s ≡ some r
    → contains c s ≡ false
    → contains c r ≡ false
unfolding strip_prefix contains
strip_prefix-contains c [] s r h k = ground arith
strip_prefix-contains c (x ∷ p) [] r h k = absurd (cc)
strip_prefix-contains c (x ∷ p) (y ∷ s) r h k = ground (arith, strip_prefix-contains c p s r)

module _ (s : System) (mailname : Bytes) where
  confirm-IsSafe :
      (program : Program) (path : Bytes) (args : List (Option Bytes))
      → IsFileOf s path
      → All (IsSafe s mailname) (confirm s program path args).0
  unfolding confirm
  confirm-IsSafe program path args f = elim (Option-cases (s.first_line path)) [
    | inl k ↦ rw (k, confirm) tt
    | inr (l, k) ↦ rw (k, confirm) (inr f, tt)
  ]

  remove_moderated-IsSafe :
      (path : Bytes) → IsFileOf s path → All (IsSafe s mailname) (remove_moderated s path).0
  unfolding remove_moderated
  remove_moderated-IsSafe path f = elim (Bool-cases (s.exists path)) [
    | inr k ↦ rw (k, remove_moderated) tt
    | inl k ↦ elim (Bool-cases (s.can_unlink path)) [
      | inr m ↦ rw (k, m, remove_moderated) tt
      | inl m ↦ rw (k, m, remove_moderated) (inr f, tt)
    ]
  ]

  on_permit-quiet : (param : Bytes) → (on_permit s param).0 ≡ []
  unfolding on_permit
  on_permit-quiet param = ground arith

  read_omit-IsSafe : (path : Bytes) → IsFileOf s path → All (IsSafe s mailname) (read_omit s path).0
  unfolding read_omit
  read_omit-IsSafe path f = elim (Bool-cases (s.exists path)) [
    | inr k ↦ rw (k, read_omit) tt
    | inl k ↦ rw (k, read_omit) (inr f, tt)
  ]

  extended :
      (path suffix : Bytes)
      → contains b'/' suffix ≡ false
      → IsFileOf s path
      → IsFileOf s (path ++ suffix)
  extended path suffix h f = record {
    place = f.place;
    name = f.name ++ suffix;
    path_is = ap (λ p. p ++ suffix) f.path_is ∙ simp append_assoc;
    slash = rw (contains-append b'/' f.name suffix, f.slash) h;
  }

  release_post-IsSafe :
      (path : Bytes) → IsFileOf s path → All (IsSafe s mailname) (release_post s path).0
  unfolding release_post
  release_post-IsSafe path f = elim (Bool-cases (s.exists path)) [
    | inr k ↦ rw (k, release_post) tt
    | inl k ↦ elim (Bool-cases (s.can_rename path (path ++ codes ".sending"))) [
      | inr m ↦ rw (k, m, release_post) tt
      | inl m ↦
          rw (k, m, release_post)
            (
              (f, extended path (codes ".sending") (unfold contains in refl) f),
              read_omit-IsSafe (path ++ codes ".omit")
                  (extended path (codes ".omit") (unfold contains in refl) f),
            )
    ]
  ]

  guarded :
      (t : Bool) (r : List Event × Outcome)
      → All (IsSafe s mailname) r.0
      → All (IsSafe s mailname) (if t then ([], refused) else r).0
  guarded true r h = tt
  guarded false r h = h

  guarded_else :
      (t : Bool) (r : List Event × Outcome)
      → All (IsSafe s mailname) r.0
      → All (IsSafe s mailname) (if t then r else ([], refused)).0
  guarded_else true r h = h
  guarded_else false r h = tt

  spooled :
      (t : Bool) (r : List Event × Outcome)
      → All (IsSafe s mailname) r.0
      → All (IsSafe s mailname) (if t then r else with_event (unlinked mailname) r).0
  spooled true r h = h
  spooled false (events, o) h = (inl refl, h)

  IsFileOf-below :
      (d : Place) (name : Bytes)
      → contains b'/' name ≡ false
      → IsFileOf s (below s (place_text d) name)
  IsFileOf-below d name h = record { place = d; name = name; path_is = refl; slash = h }

  IsFileOf-gatekept :
      (name : Bytes)
      → contains b'/' name ≡ false
      → IsFileOf s (below s "/moderation/subscribe" name)
  IsFileOf-gatekept name h = record {
    place = moderation;
    name = codes "subscribe" ++ name;
    path_is = refl;
    slash = unfold contains in h;
  }

  on_release-IsSafe :
      (param : Bytes) → contains b'/' param ≡ false → All (IsSafe s mailname) (on_release s param).0
  unfolding on_release
  on_release-IsSafe param h = elim (Option-cases (strip_prefix (codes "subscribe") param)) [
    | inl k ↦
        rw (k, on_release)
          (release_post-IsSafe (below s "/moderation/" param) (IsFileOf-below moderation param h))
    | inr (r, k) ↦ rw (k, on_release) (rw (on_permit-quiet r) tt)
  ]

  dispatch-IsSafe :
      (c : Ctrl) (from param : Bytes)
      → contains b'/' param ≡ false
      → All (IsSafe s mailname) (dispatch s c from param mailname).0
  unfolding dispatch on_confsub_digest on_confsub_nomail on_confsub_both on_confsub on_reject
      on_obstruct
  dispatch-IsSafe confsub_digest from param h =
      confirm-IsSafe _ _ _ (IsFileOf-below subconf param h)
  dispatch-IsSafe confsub_nomail from param h =
      confirm-IsSafe _ _ _ (IsFileOf-below subconf param h)
  dispatch-IsSafe confsub_both from param h = confirm-IsSafe _ _ _ (IsFileOf-below subconf param h)
  dispatch-IsSafe confsub from param h = confirm-IsSafe _ _ _ (IsFileOf-below subconf param h)
  dispatch-IsSafe confunsub_digest from param h =
      unfold on_confunsub_digest in
      guarded _ _ (confirm-IsSafe _ _ _ (IsFileOf-below unsubconf param h))
  dispatch-IsSafe confunsub_nomail from param h =
      unfold on_confunsub_nomail in
      guarded _ _ (confirm-IsSafe _ _ _ (IsFileOf-below unsubconf param h))
  dispatch-IsSafe confunsub from param h =
      unfold on_confunsub in guarded _ _ (confirm-IsSafe _ _ _ (IsFileOf-below unsubconf param h))
  dispatch-IsSafe release from param h = on_release-IsSafe param h
  dispatch-IsSafe moderate from param h = on_release-IsSafe param h
  dispatch-IsSafe reject from param h =
      remove_moderated-IsSafe _ (IsFileOf-below moderation param h)
  dispatch-IsSafe obstruct from param h = remove_moderated-IsSafe _ (IsFileOf-gatekept param h)
  dispatch-IsSafe permit from param h = rw (on_permit-quiet param) tt
  dispatch-IsSafe _ from param h = tt

  run_command-IsSafe :
      (fromemails : List Bytes) (c : Ctrl) (param : Bytes)
      → contains b'/' param ≡ false
      → All (IsSafe s mailname) (run_command s fromemails c param mailname).0
  unfolding run_command
  run_command-IsSafe [] c param h = guarded_else _ _ (dispatch-IsSafe c [] param h)
  run_command-IsSafe (from ∷ []) c param h = spooled _ _ (dispatch-IsSafe c from param h)
  run_command-IsSafe (from ∷ x ∷ more) c param h = guarded_else _ _ (dispatch-IsSafe c from param h)

  no_command-IsSafe :
      (fromemails : List Bytes) → All (IsSafe s mailname) (no_command fromemails mailname).0
  unfolding no_command
  no_command-IsSafe [] = tt
  no_command-IsSafe (from ∷ []) = (inl refl, tt)
  no_command-IsSafe (from ∷ x ∷ more) = tt

  parsed-IsSafe :
      (fromemails : List Bytes) (controlstr : Bytes) (parsed : Parsed)
      → find_command ctrl_commands controlstr ≡ parsed
      → All (IsSafe s mailname) (listcontrol s fromemails controlstr mailname).0
  unfolding listcontrol
  parsed-IsSafe fromemails controlstr invalid e = rw (e, listcontrol) tt
  parsed-IsSafe fromemails controlstr unknown e = rw (e, listcontrol) (no_command-IsSafe fromemails)
  parsed-IsSafe fromemails controlstr (command c param) e =
      rw (e, listcontrol)
        (run_command-IsSafe fromemails c param
          (find_command-slash ctrl_commands controlstr c param e))

  -- Whatever the control address and the sender, the only files that `listcontrol` removes or
  -- renames are the mail itself and files that stand directly in subconf, unsubconf or moderation
  -- of the list.
  pub listcontrol-IsSafe :
      (fromemails : List Bytes) (controlstr : Bytes)
      → All (IsSafe s mailname) (listcontrol s fromemails controlstr mailname).0
  listcontrol-IsSafe fromemails controlstr = parsed-IsSafe fromemails controlstr _ refl

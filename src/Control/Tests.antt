-- ===== src/Control/Tests.antt =====
-- Concrete runs of `listcontrol`, and the theorems at them.
use mlmmj.Base.{
  ◌≡◌, refl, ◌≢◌, Bool, true, false, ◌||◌, none, some, [], ◌∷◌, arith, if◌then◌else◌, Bytes, codes,
  length, All,
}
use mlmmj.CString.{str_eq, strip_prefix, case_eq, contains}
use mlmmj.Control.{
  Ctrl, arg, bounces, ctrl_commands, command, take_param, find_command, mlmmj_sub, mlmmj_unsub,
  mlmmj_send, unlinked, renamed, execs, System,
}
use mlmmj.Control.Subscribing.{confirm, on_confsub, on_confunsub}
use mlmmj.Control.Moderating.{
  read_omit, send_released, release_post, on_release, find_owner, on_list,
}
use mlmmj.Control.Dispatch.{dispatch, run_command, listcontrol}
use mlmmj.Control.Syntax.{IsCookie}
use mlmmj.Control.Safety.{IsSafe, listcontrol-IsSafe}
use mlmmj.Control.Rights.Subscribe.{for_address, MaySubscribe, listcontrol-MaySubscribe}
use mlmmj.Control.Rights.Unsubscribe.{MayUnsubscribe, listcontrol-MayUnsubscribe}
use mlmmj.Control.Rights.Owner.{is_list, IsOwner, listcontrol-IsOwner}

abbrev sender : Bytes
sender = codes "joe@example.org"

abbrev mail : Bytes
mail = codes "/list/incoming/m"

abbrev has_cookie : Bytes → Bool
has_cookie path = str_eq path (codes "/list/subconf/7f") || str_eq path (codes "/list/unsubconf/7f")

-- A list with one open confirmation of each kind, and one owner.
abbrev small : System
small = record {
  listdir = codes "/list";
  statctrl = λ key. false;
  first_line = λ path. if has_cookie path then some (some sender) else none;
  exists = λ path. str_eq path (codes "/list/moderation/ab");
  can_rename = λ from to. true;
  can_unlink = λ path. true;
  is_subbed = λ address. true;
  owners = some (codes "Joe@Example.org" ∷ []);
}

-- The same list without an owner file.
abbrev ownerless : System
ownerless = record {
  listdir = codes "/list";
  statctrl = λ key. false;
  first_line = λ path. none;
  exists = λ path. false;
  can_rename = λ from to. false;
  can_unlink = λ path. false;
  is_subbed = λ address. false;
  owners = none;
}

released : listcontrol small (sender ∷ []) (codes "release-ab") mail ≡ (
  unlinked mail ∷ renamed (codes "/list/moderation/ab") (codes "/list/moderation/ab.sending") ∷ [],
  execs mlmmj_send
      (codes "-L" ∷ codes "/list" ∷ codes "-m" ∷ codes "/list/moderation/ab.sending" ∷ []),
)
unfolding listcontrol find_command take_param strip_prefix contains run_command dispatch on_release
    release_post read_omit send_released str_eq
released = refl

confirms :
    (listcontrol small (sender ∷ []) (codes "confsub-7f") mail).1
    ≡ execs mlmmj_sub (for_address small (some sender) (arg "-R" ∷ arg "-c" ∷ []))
unfolding listcontrol find_command take_param strip_prefix contains run_command dispatch on_confsub
    confirm str_eq
confirms = refl

leaves :
    (listcontrol small (sender ∷ []) (codes "confunsub-7f") mail).1
    ≡ execs mlmmj_unsub (for_address small (some sender) (arg "-R" ∷ arg "-c" ∷ []))
unfolding listcontrol find_command take_param strip_prefix contains run_command dispatch
    on_confunsub confirm str_eq
leaves = refl

listed : is_list (listcontrol small (sender ∷ []) (codes "list") mail).1 ≡ true
unfolding listcontrol find_command take_param strip_prefix run_command dispatch on_list find_owner
    case_eq
listed = refl

cookie : IsCookie (codes "7f")
cookie = record {
  slash = (unfold contains in refl);
  digest = (unfold strip_prefix in refl);
  nomail = (unfold strip_prefix in refl);
  both = (unfold strip_prefix in refl);
}

not_bounce : (param : Bytes) → find_command ctrl_commands (codes "help") ≢ command bounces param
unfolding find_command take_param strip_prefix
not_bounce param h = absurd (cc)

listcontrol-IsSafe_example :
    All (IsSafe small mail) (listcontrol small (sender ∷ []) (codes "release-ab") mail).0
listcontrol-IsSafe_example = listcontrol-IsSafe small mail (sender ∷ []) (codes "release-ab")

listcontrol-MaySubscribe_example :
    (c : Ctrl) × (param : Bytes) × (find_command ctrl_commands (codes "confsub-7f")
      ≡ command c param)
    × MaySubscribe small
        (sender ∷ [])
        c
        param
        (for_address small (some sender) (arg "-R" ∷ arg "-c" ∷ []))
listcontrol-MaySubscribe_example =
    listcontrol-MaySubscribe small (for_address small (some sender) (arg "-R" ∷ arg "-c" ∷ []))
      (sender ∷ []) (codes "confsub-7f") mail confirms

listcontrol-MayUnsubscribe_example :
    (c : Ctrl) × (param : Bytes) × (find_command ctrl_commands (codes "confunsub-7f")
      ≡ command c param)
    × MayUnsubscribe small
        (sender ∷ [])
        c
        param
        (for_address small (some sender) (arg "-R" ∷ arg "-c" ∷ []))
listcontrol-MayUnsubscribe_example =
    listcontrol-MayUnsubscribe small (for_address small (some sender) (arg "-R" ∷ arg "-c" ∷ []))
      (sender ∷ []) (codes "confunsub-7f") mail leaves

listcontrol-IsOwner_example : IsOwner small (sender ∷ [])
listcontrol-IsOwner_example = listcontrol-IsOwner small (sender ∷ []) (codes "list") mail listed

two_senders : length (sender ∷ sender ∷ []) ≢ 1
two_senders h = omega (arith, h)

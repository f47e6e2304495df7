-- ===== src/Versions/Joining.antt =====
-- A subscription, `main` of src/mlmmj-sub.c.
use mlmmj.Base.{
  Bool, true, false, not, ◌&&◌, ◌||◌, Option, none, some, if◌then◌else◌, Bytes, length,
}
use mlmmj.CString.{case_eq_n, contains}
use mlmmj.Subscribers.{Subtype, sub_normal, sub_digest, sub_nomail, sub_both, sub_none}
use mlmmj.ControlFiles.{getlistaddr, getlistdelim}
use mlmmj.Versions.{
  Store, type_of, Reason, admin, confirm, permit, switch, End, exit_success, exit_failure,
  told_subscribed, asks_confirmation, welcomes, notifies_owner, Outcome, Here, lowercase,
}
use mlmmj.Versions.Leaving.{UnsubOptions, is_none_type, at_most_one, and_then, unsub_main}
use mlmmj.Versions.Waiting.{moderate_sub, getaddrandtype}

-- The options. `modfile` is the file of the subscription that -m names, if there is -m. `reason` is
-- what -r and -R leave.
pub record SubOptions : Type 0 where
  pub has_listdir : Bool
  pub address : Option Bytes
  pub modfile : Option (Option Bytes)
  pub digest : Bool
  pub nomail : Bool
  pub both : Bool
  pub confirmsub : Bool
  pub subconfirm : Bool
  pub force : Bool
  pub quiet : Bool
  pub nogensubscribed : Bool
  pub reason : Reason

abbrev pub same_type : Subtype → Subtype → Bool
same_type sub_normal sub_normal = true
same_type sub_digest sub_digest = true
same_type sub_nomail sub_nomail = true
same_type sub_both sub_both = true
same_type sub_none sub_none = true
same_type _ _ = false

abbrev pub is_confirm : Reason → Bool
is_confirm confirm = true
is_confirm _ = false

abbrev pub is_switch : Reason → Bool
is_switch switch = true
is_switch _ = false

abbrev pub sub_type : SubOptions → Subtype
sub_type o =
    if o.both
    then sub_both
    else if o.nomail
    then sub_nomail
    else if o.digest
    then sub_digest
    else sub_normal

-- The options of the child that becomes mlmmj-unsub: -q, and -d or -N where only one version goes.
abbrev pub unsub_options : Bytes → Subtype → Subtype → UnsubOptions
unsub_options address subbed typesub = record {
  has_listdir = true;
  address = some address;
  digest = same_type subbed sub_both && same_type typesub sub_normal;
  nomail = false;
  normal = same_type subbed sub_both && same_type typesub sub_digest;
  confirmunsub = false;
  unsubconfirm = false;
  quiet = true;
  nogennotsubscribed = false;
  reason = admin;
}

module _ (S : Store) (h : Here) where
  -- What a switch from one version to another removes.
  unfoldable pub leave_version : Bytes → Subtype → Subtype → S.State → S.State
  unfolding unsub_main
  leave_version address subbed typesub st =
      if is_none_type subbed || (same_type typesub sub_both && not (same_type subbed sub_nomail))
      then st
      else if h.forks
      then (unsub_main S h (unsub_options address subbed typesub) st).0
      else st

  abbrev pub unless : Bool → S.State → (S.State → S.State × Bool) → S.State × Bool
  unless b st k = if b then (st, true) else k st

  -- The calls of `subscribe_type`, and whether the program goes on.
  abbrev pub join_one : Subtype → S.State → S.State × Bool
  join_one typesub st = elim (S.subscribe_type st typesub) [
    | none ↦ (st, false)
    | some st ↦ (st, true)
  ]

  unfoldable pub join : Subtype → Subtype → S.State → S.State × Bool
  join subbed typesub st =
      if same_type typesub sub_both
      then and_then S h (unless (same_type subbed sub_normal) st (join_one sub_normal))
          (λ st. unless (same_type subbed sub_digest) st (join_one sub_digest))
      else unless (same_type subbed sub_both && not (same_type typesub sub_nomail)) st
          (join_one typesub)

  -- Behind the change.
  unfoldable pub after_joining : SubOptions → Subtype → Reason → S.State → Outcome S
  after_joining o typesub reason st =
      let told : End =
        if not o.quiet && not (is_switch reason) && h.statctrl "notifysub"
        then notifies_owner typesub reason
        else exit_success in
      if not o.confirmsub
      then (st, (told, false))
      else if h.forks
      then (st, (told, true))
      else (st, (welcomes typesub reason, false))

  -- With `subbed`, and where it is another type than `typesub`.
  unfoldable pub change_version :
      SubOptions → Bytes → Subtype → Subtype → Reason → S.State → Outcome S
  unfolding leave_version join after_joining moderate_sub
  change_version o address subbed typesub reason st =
      let is_new = is_none_type subbed in
      let reason : Reason = if is_new then reason else switch in
      let with_modstr : Bool = elim o.modfile [ none ↦ false | some _ ↦ true ] in
      let left = leave_version address subbed typesub st in
      let (joined, works) = join subbed typesub left in
      elim (getlistdelim h.delimiter) [
        | none ↦ (left, (exit_failure, false))
        | some listdelim ↦
            if is_new && o.subconfirm
            then (left, (asks_confirmation typesub reason, false))
            else if not with_modstr && is_new && not o.force && h.statctrl "submod"
            then (left, (moderate_sub h typesub, false))
            else if works
            then after_joining o typesub reason joined
            else (joined, (exit_failure, false))
      ]

  -- With the address and the type.
  unfoldable pub subscribe_address : SubOptions → Bytes → Subtype → Reason → S.State → Outcome S
  unfolding change_version case_eq_n getlistaddr contains
  subscribe_address o address typesub reason st =
      let subbed = type_of S st true in
      if not (contains b'@' address)
      then (st, (exit_success, false))
      else elim (getlistaddr h.listaddress) [
        | none ↦ (st, (exit_failure, false))
        | some listaddr ↦
            if case_eq_n (length listaddr) listaddr (lowercase address)
            then (st, (exit_success, false))
            else if same_type subbed typesub
            then (st, (if o.nogensubscribed then exit_success else told_subscribed typesub, false))
            else change_version o (lowercase address) subbed typesub reason st
      ]

  unfoldable pub sub_main : SubOptions → S.State → Outcome S
  unfolding subscribe_address getaddrandtype
  sub_main o st =
      let failed : Outcome S = (st, (exit_failure, false)) in
      if not o.has_listdir || not (at_most_one o.both o.digest o.nomail)
      then failed
      else if is_confirm o.reason && o.subconfirm
      then failed
      else elim o.modfile [
        | some modfile ↦ elim (getaddrandtype modfile (sub_type o)) [
          | none ↦ failed
          | some (address, typesub) ↦ subscribe_address o address typesub permit st
        ]
        | none ↦ elim o.address [
          | none ↦ failed
          | some address ↦ subscribe_address o address (sub_type o) o.reason st
        ]
      ]

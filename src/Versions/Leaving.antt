-- ===== src/Versions/Leaving.antt =====
-- The end of a subscription, `main` of src/mlmmj-unsub.c.
use mlmmj.Base.{Bool, true, false, not, ◌&&◌, ◌||◌, Option, none, some, if◌then◌else◌, Bytes}
use mlmmj.Subscribers.{Subtype, sub_normal, sub_digest, sub_nomail, sub_none, sub_all}
use mlmmj.ControlFiles.{getlistaddr, getlistdelim}
use mlmmj.Versions.{
  Store, type_of, Reason, confirm, bouncing, End, exit_success, exit_failure, told_not_subscribed,
  asks_confirmation, welcomes, notifies_owner, Outcome, Here,
}

-- The options. `reason` is what -b, -r and -R leave.
pub record UnsubOptions : Type 0 where
  pub has_listdir : Bool
  pub address : Option Bytes
  pub digest : Bool
  pub nomail : Bool
  pub normal : Bool
  pub confirmunsub : Bool
  pub unsubconfirm : Bool
  pub quiet : Bool
  pub nogennotsubscribed : Bool
  pub reason : Reason

abbrev pub is_none_type : Subtype → Bool
is_none_type sub_none = true
is_none_type _ = false

abbrev pub at_most_one : Bool → Bool → Bool → Bool
at_most_one a b c = not ((a && b) || (a && c) || (b && c))

abbrev pub conflicts : Reason → Bool
conflicts confirm = true
conflicts bouncing = true
conflicts _ = false

abbrev unsub_type : UnsubOptions → Subtype
unsub_type o =
    if o.normal
    then sub_normal
    else if o.nomail
    then sub_nomail
    else if o.digest
    then sub_digest
    else sub_all

module _ (S : Store) (h : Here) where
  -- One call of `unsubscribe_type`, and whether the program goes on.
  abbrev pub leave_one : S.State → Subtype → S.State × Bool
  leave_one st typesub = elim (S.unsubscribe_type st typesub) [
    | none ↦ (st, false)
    | some st ↦ (st, true)
  ]

  abbrev pub and_then : S.State × Bool → (S.State → S.State × Bool) → S.State × Bool
  and_then (st, true) k = k st
  and_then (st, false) k = (st, false)

  unfoldable pub leave : Subtype → S.State → S.State × Bool
  leave sub_all st =
      and_then (and_then (leave_one st sub_normal) (λ st. leave_one st sub_digest))
        (λ st. leave_one st sub_nomail)
  leave typesub st = leave_one st typesub

  -- Whether there is anything to leave.
  unfoldable pub is_there : Subtype → S.State → Bool
  is_there sub_all st = not (is_none_type (type_of S st false))
  is_there typesub st = S.is_subbed_in st typesub

  -- Behind the change.
  unfoldable pub after_leaving : UnsubOptions → Subtype → S.State → Outcome S
  after_leaving o typesub st =
      let told : End =
        if not o.quiet && h.statctrl "notifysub"
        then notifies_owner typesub o.reason
        else exit_success in
      if not o.confirmunsub
      then (st, (told, false))
      else if h.forks
      then (st, (told, true))
      else (st, (welcomes typesub o.reason, false))

  unfoldable pub unsubscribe_address : UnsubOptions → Subtype → S.State → Outcome S
  unfolding is_there leave after_leaving
  unsubscribe_address o typesub st =
      if not (is_there typesub st)
      then (st, (if o.nogennotsubscribed then exit_success else told_not_subscribed typesub, false))
      else if o.unsubconfirm
      then (st, (asks_confirmation typesub o.reason, false))
      else (let (left, works) = leave typesub st in
          if works then after_leaving o typesub left else (left, (exit_failure, false)))

  unfoldable pub unsub_main : UnsubOptions → S.State → Outcome S
  unfolding unsubscribe_address getlistaddr getlistdelim
  unsub_main o st =
      let failed : Outcome S = (st, (exit_failure, false)) in
      if not o.has_listdir then failed else elim o.address [
        | none ↦ failed
        | some address ↦
            if not (at_most_one o.digest o.nomail o.normal)
            then failed
            else if o.unsubconfirm && (o.confirmunsub || conflicts o.reason)
            then failed
            else elim (getlistaddr h.listaddress) [
              | none ↦ failed
              | some listaddr ↦ elim (getlistdelim h.delimiter) [
                | none ↦ failed
                | some listdelim ↦ unsubscribe_address o (unsub_type o) st
              ]
            ]
      ]

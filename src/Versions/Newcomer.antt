-- ===== src/Versions/Newcomer.antt =====
-- How a newcomer gets into the directories by src/mlmmj-sub.c.
use mlmmj.Base.{
  ◌≡◌, refl, sym, ◌∙◌, inl, inr, Bool, true, false, ◌&&◌, none, some, arith, Bool-cases, Bytes,
  length,
}
use mathlib.Core.Path.{subst}
use mlmmj.CString.{case_eq_n, contains}
use mlmmj.Subscribers.{is_dots, Subtype, sub_normal, sub_digest, sub_nomail, sub_both, sub_none}
use mlmmj.Subscribers.Erase.{IsLine}
use mlmmj.Subscribers.Change.{AppendCalls, chstr}
use mlmmj.Subscribers.Append.{Succeeds}
use mlmmj.ControlFiles.{getlistaddr, getlistdelim}
use mlmmj.Versions.{Store, type_of, Reason, Here, lowercase}
use mlmmj.Versions.Leaving.{at_most_one}
use mlmmj.Versions.Joining.{
  SubOptions, same_type, is_confirm, sub_type, leave_version, join, after_joining, change_version,
  subscribe_address, sub_main,
}
use mlmmj.Versions.Reading.{is_given}
use mlmmj.Versions.Directories.{OpenDirs, directories}
use mlmmj.Versions.Gaining.{GetsInto, AreSound, join-GetsInto}

sub_type-is_given : (o : SubOptions) → is_given (sub_type o) ≡ true
sub_type-is_given o = elim (Bool-cases o.both) [
  | inl b ↦ rw b refl
  | inr b ↦ elim (Bool-cases o.nomail) [
    | inl m ↦ rw (b, m) refl
    | inr m ↦ elim (Bool-cases o.digest) [ inl d ↦ rw (b, m, d) refl | inr d ↦ rw (b, m, d) refl ]
  ]
]

never : (b : Bool) → (b && false) ≡ false
never true = refl
never false = refl

-- Where nobody is asked.
pub record IsUnasked (h : Here) (o : SubOptions) : Type 0 where
  pub unmoderated : h.statctrl "submod" ≡ false
  pub unconfirmed : o.subconfirm ≡ false
  pub by_address : o.modfile ≡ none

module _ (S : Store) (h : Here) (o : SubOptions) (unasked : IsUnasked h o) (st st' : S.State)
    (typesub : Subtype) where
  after_joining-state : (reason : Reason) → (after_joining S h o typesub reason st').0 ≡ st'
  unfolding after_joining
  after_joining-state reason = ground arith

  change_version-joins :
      (address listdelim : Bytes) (reason : Reason)
      → getlistdelim h.delimiter ≡ some listdelim
      → join S h sub_none typesub st ≡ (st', true)
      → (change_version S h o address sub_none typesub reason st).0 ≡ st'
  unfolding change_version leave_version
  change_version-joins address listdelim reason hd e =
      let asks = unasked.unmoderated in
      let confirms = unasked.unconfirmed in
      let named = unasked.by_address in let ended = after_joining-state reason in ground arith

  subscribe_address-joins :
      (address listaddr listdelim : Bytes) (reason : Reason)
      → getlistaddr h.listaddress ≡ some listaddr
      → getlistdelim h.delimiter ≡ some listdelim
      → contains b'@' address ≡ true
      → case_eq_n (length listaddr) listaddr (lowercase address) ≡ false
      → type_of S st true ≡ sub_none
      → is_given typesub ≡ true
      → join S h sub_none typesub st ≡ (st', true)
      → (subscribe_address S h o address typesub reason st).0 ≡ st'
  unfolding subscribe_address
  subscribe_address-joins address listaddr listdelim reason ha hd at other new given e =
      let fresh : same_type sub_none typesub ≡ false = new_type typesub given in
      rw (subscribe_address, at, ha, other, new, fresh)
        (change_version-joins (lowercase address) listdelim reason hd e)
    where
      new_type : (typesub : Subtype) → is_given typesub ≡ true → same_type sub_none typesub ≡ false
      new_type sub_normal given = refl
      new_type sub_digest given = refl
      new_type sub_nomail given = refl
      new_type sub_both given = refl
      new_type _ given = absurd (cc)

-- A newcomer who asks mlmmj-sub for a version of the subscription is put in exactly the directories of this version,
-- and nobody else is put in or taken out of any. This is for a call with an address and neither -m nor -C on a list
-- without submod, with a list address and a delimiter, where the options do not contradict each other, the address
-- is one line with an `@`, does not begin with a dot or with the list address, the files have whole lines, and
-- every system call works.
pub sub_main-GetsInto :
    (calls : AppendCalls) (h : Here) (o : SubOptions) (address listaddr listdelim : Bytes)
    (st : OpenDirs)
    → Succeeds calls
    → IsUnasked h o
    → o.has_listdir ≡ true
    → at_most_one o.both o.digest o.nomail ≡ true
    → o.address ≡ some address
    → getlistaddr h.listaddress ≡ some listaddr
    → getlistdelim h.delimiter ≡ some listdelim
    → contains b'@' address ≡ true
    → case_eq_n (length listaddr) listaddr (lowercase address) ≡ false
    → IsLine (lowercase address)
    → is_dots (chstr (lowercase address)) ≡ false
    → AreSound st
    → type_of (directories calls (lowercase address)) st true ≡ sub_none
    → GetsInto
        (sub_type o)
        (lowercase address)
        st
        (sub_main (directories calls (lowercase address)) h o st).0
unfolding sub_main
sub_main-GetsInto calls h o address listaddr listdelim st works unasked dir options named ha hd at
      other line first sound new =
    let S : Store = directories calls (lowercase address) in
    let (st', e, gets) =
      join-GetsInto calls (lowercase address) works line first h (sub_type o) st
        (sub_type-is_given o) sound in
    let main_is : (sub_main S h o st).0
        ≡ (subscribe_address S h o address (sub_type o) o.reason st).0 =
      rw
        (
          sub_main,
          dir,
          options,
          unasked.unconfirmed,
          never (is_confirm o.reason),
          unasked.by_address,
          named,
        )
        refl in
    let ended : (sub_main S h o st).0 ≡ st' =
      main_is
      ∙ subscribe_address-joins S h o unasked st st' (sub_type o) address listaddr listdelim
          o.reason ha hd at other new (sub_type-is_given o) e in
    subst (GetsInto (sub_type o) (lowercase address) st) (sym ended) gets

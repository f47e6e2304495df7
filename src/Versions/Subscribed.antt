-- ===== src/Versions/Subscribed.antt =====
-- How an address is subscribed behind mlmmj-sub, src/mlmmj-sub.c.
use mlmmj.Base.{◌≡◌, refl, true, false, Option, none, some, arith, Bytes}
use mlmmj.Subscribers.{Subtype, sub_none}
use mlmmj.Versions.{Store, type_of, Reason, Here, lowercase}
use mlmmj.Versions.Joining.{
  SubOptions, sub_type, leave_version, change_version, subscribe_address, sub_main,
}
use mlmmj.Versions.Switching.{
  Version, outside, normally, in_digest, silently, twice, subtype, IsVersion,
}
use mlmmj.Base.{arith, ◌≡◌, refl, true, false, Option, none, some, Bytes}

type_of-subtype :
    (S : Store) (st : S.State) (v : Version) → IsVersion S st v → type_of S st true ≡ subtype v
type_of-subtype S st outside (a, b, c) = rw (a, b, c) refl
type_of-subtype S st normally (a, b, c) = rw (a, b, c) refl
type_of-subtype S st in_digest (a, b, c) = rw (a, b) refl
type_of-subtype S st silently (a, b, c) = rw (a, b, c) refl
type_of-subtype S st twice (a, b, c) = rw (a, b) refl

module _ (S : Store) (h : Here) where
  -- What `change_version` does for a newcomer where the list has moderators of subscriptions.
  change_version-moderated :
      (o : SubOptions) (address : Bytes) (typesub : Subtype) (reason : Reason) (st : S.State)
      → o.modfile ≡ none
      → o.force ≡ false
      → h.statctrl "submod" ≡ true
      → (change_version S h o address sub_none typesub reason st).0 ≡ st
  unfolding change_version leave_version
  change_version-moderated o address typesub reason st mf fo su = ground arith

  subscribe_address-moderated :
      (o : SubOptions) (address : Bytes) (typesub : Subtype) (reason : Reason) (st : S.State)
      → o.modfile ≡ none
      → o.force ≡ false
      → h.statctrl "submod" ≡ true
      → IsVersion S st outside
      → (subscribe_address S h o address typesub reason st).0 ≡ st
  unfolding subscribe_address
  subscribe_address-moderated o address typesub reason st mf fo su k =
      let new : type_of S st true ≡ sub_none = type_of-subtype S st outside k in
      let waits = change_version-moderated o (lowercase address) typesub reason st mf fo su in
      ground arith

  -- For an address that is in no directory, a call without -m and without -f changes no directory where the
  -- list has submod, whatever the other options.
  pub sub_main-moderated :
      (o : SubOptions) (st : S.State)
      → o.modfile ≡ none
      → o.force ≡ false
      → h.statctrl "submod" ≡ true
      → IsVersion S st outside
      → (sub_main S h o st).0 ≡ st
  unfolding sub_main
  sub_main-moderated o st mf fo su k = with_address o.address refl
    where
      with_address : (a : Option Bytes) → o.address ≡ a → (sub_main S h o st).0 ≡ st
      with_address none e = ground arith
      with_address (some address) e =
          let waits = subscribe_address-moderated o address (sub_type o) o.reason st mf fo su k in
          ground arith

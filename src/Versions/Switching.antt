-- ===== src/Versions/Switching.antt =====
-- The versions of a subscription, src/mlmmj-sub.c.
use mlmmj.Base.{◌≡◌, Bool, true, false}
use mlmmj.Subscribers.{Subtype, sub_normal, sub_digest, sub_nomail, sub_both, sub_none}
use mlmmj.Versions.{Store}

-- A member of the directories that `n`, `g` and `m` say.
abbrev pub IsAt : (S : Store) → S.State → Bool → Bool → Bool → Type 0
IsAt S st n g m =
    (S.is_subbed_in st sub_normal ≡ n)
    × (S.is_subbed_in st sub_digest ≡ g)
    × (S.is_subbed_in st sub_nomail ≡ m)

-- How an address can be subscribed, or `outside`.
pub data Version : Type 0 where
  outside normally in_digest silently twice : Version

abbrev pub subtype : Version → Subtype
subtype outside = sub_none
subtype normally = sub_normal
subtype in_digest = sub_digest
subtype silently = sub_nomail
subtype twice = sub_both

abbrev pub IsVersion : (S : Store) → S.State → Version → Type 0
IsVersion S st outside = IsAt S st false false false
IsVersion S st normally = IsAt S st true false false
IsVersion S st in_digest = IsAt S st false true false
IsVersion S st silently = IsAt S st false false true
IsVersion S st twice = IsAt S st true true false

-- ===== src/Bounce/Records.antt =====
-- What mlmmj-bounce records, src/mlmmj-bounce.c.
use mlmmj.Base.{
  ◌≡◌, inl, inr, Bool, true, false, Option, none, some, [], ◌∷◌, ◌++◌, arith, if◌then◌else◌,
  Bool-cases, Option-cases, Bytes, All, All-append,
}
use mlmmj.CString.{strrchr}
use mlmmj.Versions.{lowercase}
use mlmmj.Bounce.{
  Event, removes_mail, appends, keeps_mail, BounceOptions, System, dsnparseaddr, do_probe,
  record_bounce, handle_bounce, bounce_main,
}

-- A line is only added for a subscriber: to the file of his address with its last `@` written as `=`, which is
-- no symbolic link.
abbrev pub IsAllowed : System → Event → Type 0
IsAllowed s (appends file line) =
    (name : Bytes) × (domain : Bytes) × (strrchr b'=' file ≡ some (name, domain))
    × (s.is_subbed (name ++ b'@' ∷ domain) ≡ true)
    × (s.is_link file ≡ false)
    × (s.opens file ≡ true)
IsAllowed s _ = Unit

gone-IsAllowed : (s : System) (b : Bool) → All (IsAllowed s) (if b then removes_mail ∷ [] else [])
gone-IsAllowed s true = (tt, tt)
gone-IsAllowed s false = tt

do_probe-IsAllowed : (s : System) (addr : Bytes) → All (IsAllowed s) (do_probe s addr).0
unfolding do_probe
do_probe-IsAllowed s addr = ground arith

record_bounce-IsAllowed :
    (s : System) (has_mail : Bool) (address number : Bytes)
    → All (IsAllowed s) (record_bounce s has_mail address number).0
unfolding record_bounce
record_bounce-IsAllowed s has_mail address number = elim (Option-cases (strrchr b'=' address)) [
  | inl e ↦ rw (All, e) (gone-IsAllowed s has_mail)
  | inr ((name, domain), e) ↦ elim (Bool-cases (s.is_subbed (name ++ b'@' ∷ domain))) [
    | inl member ↦ elim (Bool-cases (s.is_link address)) [
      | inl link ↦ rw (All, e, member, link) tt
      | inr file ↦ elim (Bool-cases (s.opens address)) [
        | inl works ↦
            rw (All, e, member, file, works) ((name, domain, e, member, file, works), kept has_mail)
        | inr shut ↦ rw (All, e, member, file, shut) tt
      ]
    ]
    | inr stranger ↦ rw (All, e, stranger) (gone-IsAllowed s has_mail)
  ]
]
  where
    kept : (b : Bool) → All (IsAllowed s) (if b then keeps_mail address ∷ [] else [])
    kept true = (tt, tt)
    kept false = tt

handle_bounce-IsAllowed :
    (s : System) (has_mail : Bool) (address : Bytes) (number : Option Bytes) (probe : Bool)
    → All (IsAllowed s) (handle_bounce s has_mail address number probe).0
unfolding handle_bounce
handle_bounce-IsAllowed s has_mail address none probe = do_probe-IsAllowed s address
handle_bounce-IsAllowed s has_mail address (some number) true = tt
handle_bounce-IsAllowed s has_mail address (some number) false =
    let gone = gone-IsAllowed s has_mail in
    let recorded = record_bounce-IsAllowed s has_mail address number in ground arith

-- Whatever the arguments, a bounce is only recorded for a subscriber of the list, and in a file that is no
-- symbolic link.
pub bounce_main-IsAllowed : (o : BounceOptions) (s : System) → All (IsAllowed s) (bounce_main o s).0
unfolding bounce_main
bounce_main-IsAllowed o s =
    let gone = gone-IsAllowed s o.has_mailname in
    elim (Bool-cases o.dsnbounce) [
      | inl dsn ↦ elim (Option-cases (dsnparseaddr s.mail)) [
        | inl e ↦ ground arith
        | inr (address, e) ↦ elim (Option-cases (strrchr b'@' address)) [
          | inl k ↦ ground arith
          | inr ((name, domain), k) ↦
              let handled =
                handle_bounce-IsAllowed s false (lowercase (name ++ b'=' ∷ domain)) o.number
                  o.probe in
              let both = All-append (IsAllowed s) _ _ gone handled in ground arith
        ]
      ]
      | inr arg ↦ elim (Option-cases o.address) [
        | inl e ↦ ground arith
        | inr (address, e) ↦
            let handled =
              handle_bounce-IsAllowed s o.has_mailname (lowercase address) o.number o.probe in
            ground arith
      ]
    ]

-- ===== src/Maintenance/Due.antt =====
-- Who is unsubscribed by `unsub_bouncers` of src/mlmmj-maintd.c.
use mlmmj.Base.{
  ℕ, ◌+◌, ◌≡◌, refl, sym, ◌∙◌, ◌⊎◌, inl, inr, Bool, false, ◌||◌, none, some, List, [], ◌∷◌, ◌++◌,
  arith, Bool-cases, Option-cases, Bytes, codes, All, All-append,
}
use mlmmj.CString.{strchr, contains}
use mlmmj.CString.Search.{strchr-parts}
use mlmmj.Maintenance.Files.{lookup-remove_other, lookup-remove-some, probe-lastmsg, probe-other}
use mlmmj.Maintenance.{
  Dir, lookup, remove, is_probe, is_lastmsg, waitprobe, time_less, elapsed, bounce_time,
  unsub_bouncer, unsub_bouncers,
}

-- A bounce of this address was recorded long enough ago, and no probe is out.
abbrev pub IsDue : ℕ → ℕ → Dir → Bytes → Type 0
IsDue t bouncelife dir address =
    (user : Bytes) × (host : Bytes) × (content : Bytes) × (time : ℕ) × (address
      ≡ user ++ b'@' ∷ host)
    × (contains b'=' user ≡ false)
    × (lookup (user ++ b'=' ∷ host) dir ≡ some content)
    × (lookup ((user ++ b'=' ∷ host) ++ codes "-probe") dir ≡ none)
    × (bounce_time content ≡ some time)
    × (time_less (elapsed t time) (bouncelife + waitprobe) ≡ false)

-- What is left of a directory: every file was there before, and no probe is gone.
abbrev IsLeft : Dir → Dir → Type 0
IsLeft left dir =
    ((name content : Bytes) → lookup name left ≡ some content → lookup name dir ≡ some content)
    × ((name : Bytes)
        → lookup (name ++ codes "-probe") left ≡ none
        → lookup (name ++ codes "-probe") dir ≡ none)

same-IsLeft : (dir : Dir) → IsLeft dir dir
same-IsLeft dir = (λ name content h. h, λ name h. h)

remove-IsLeft :
    (name : Bytes) (dir : Dir)
    → is_probe name ≡ false
    → IsLeft (remove (name ++ codes ".lastmsg") (remove name dir)) dir
remove-IsLeft name dir h = (
  λ file content e.
      lookup-remove-some file name content dir
        (lookup-remove-some file (name ++ codes ".lastmsg") content (remove name dir) e),
  λ file e.
      sym (lookup-remove_other (file ++ codes "-probe") name dir (probe-other name file h))
      ∙ sym (
          lookup-remove_other (file ++ codes "-probe") (name ++ codes ".lastmsg") (remove name dir)
            (probe-lastmsg name file))
      ∙ e,
)

IsDue-IsLeft :
    (t bouncelife : ℕ) (left dir : Dir) (address : Bytes)
    → IsLeft left dir
    → IsDue t bouncelife left address
    → IsDue t bouncelife dir address
IsDue-IsLeft t bouncelife left dir address (found, probes)
      (user, host, content, time, a, f, e, p, b, w) =
    (user, host, content, time, a, f, found _ content e, probes (user ++ b'=' ∷ host) p, b, w)

module _ (forks : Bool) (t bouncelife : ℕ) where
  -- An entry is left alone, or its address is unsubscribed.
  unsub_bouncer-cases :
      (name : Bytes) (dir : Dir)
      → (unsub_bouncer forks t bouncelife name dir ≡ (dir, []))
        ⊎ ((address : Bytes) × (is_probe name ≡ false)
            × IsDue t bouncelife dir address
            × (unsub_bouncer forks t bouncelife name dir
                ≡ (remove (name ++ codes ".lastmsg") (remove name dir), address ∷ [])))
  unfolding unsub_bouncer
  unsub_bouncer-cases name dir = elim (Bool-cases (is_probe name || is_lastmsg name)) [
    | inl other ↦ inl (ground arith)
    | inr file ↦ elim (Option-cases (lookup name dir)) [
      | inl e ↦ inl (ground arith)
      | inr (content, e) ↦ elim (Option-cases (lookup (name ++ codes "-probe") dir)) [
        | inr (probe, p) ↦ inl (ground arith)
        | inl p ↦ elim (Option-cases (bounce_time content)) [
          | inl b ↦ inl (ground arith)
          | inr (time, b) ↦
              elim (Bool-cases (time_less (elapsed t time) (bouncelife + waitprobe))) [
                | inl w ↦ inl (ground arith)
                | inr w ↦ elim (Option-cases (strchr b'=' name)) [
                  | inl k ↦ inl (ground arith)
                  | inr ((user, host), k) ↦ elim (Bool-cases forks) [
                    | inr f ↦ inl (ground arith)
                    | inl f ↦
                        let (parts, free) = strchr-parts b'=' name user host k in
                        let posted : is_probe name ≡ false = ground arith in
                        inr (
                          user ++ b'@' ∷ host,
                          posted,
                          (
                            user,
                            host,
                            content,
                            time,
                            refl,
                            free,
                            rw (sym parts) e,
                            rw (sym parts) p,
                            b,
                            w,
                          ),
                          ground arith,
                        )
                  ]
                ]
              ]
        ]
      ]
    ]
  ]

  unsub_bouncer-IsDue :
      (name : Bytes) (dir : Dir)
      → IsLeft (unsub_bouncer forks t bouncelife name dir).0 dir
        × All (IsDue t bouncelife dir) (unsub_bouncer forks t bouncelife name dir).1
  unsub_bouncer-IsDue name dir = elim (unsub_bouncer-cases name dir) [
    | inl e ↦ rw (All, e) (same-IsLeft dir, tt)
    | inr (address, posted, due, e) ↦ rw (All, e) (remove-IsLeft name dir posted, (due, tt))
  ]

  -- mlmmj-unsub is run only for an address `user@host` where the file `user=host` was there at first, its first
  -- bounce is not younger than the time that the list gives and the wait for a probe together, and no probe
  -- was out.
  pub unsub_bouncers-IsDue :
      (names : List Bytes) (dir : Dir)
      → All (IsDue t bouncelife dir) (unsub_bouncers forks t bouncelife names dir).1
  unfolding unsub_bouncers
  unsub_bouncers-IsDue [] dir = tt
  unsub_bouncers-IsDue (name ∷ names) dir =
      let (left, now) = unsub_bouncer-IsDue name dir in
      let later = unsub_bouncers-IsDue names (unsub_bouncer forks t bouncelife name dir).0 in
      All-append _ _ _ now (all_left _ later)
    where
      all_left :
          (addresses : List Bytes)
          → All (IsDue t bouncelife (unsub_bouncer forks t bouncelife name dir).0) addresses
          → All (IsDue t bouncelife dir) addresses
      all_left [] h = tt
      all_left (a ∷ addresses) (h, hs) = (
        IsDue-IsLeft t bouncelife _ dir a (unsub_bouncer-IsDue name dir).0 h,
        all_left addresses hs,
      )

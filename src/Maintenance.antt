-- ===== src/Maintenance.antt =====
-- What the maintenance does with addresses that bounce, src/mlmmj-maintd.c: `clean_nolongerbouncing`,
-- `probe_bouncers` and `unsub_bouncers`. The directory bounce/ is a list of its files with their names.
pub mod Files
pub mod Due
pub mod Unsubscribed
mod Tests
use mlmmj.Base.{
  ℕ, ◌+◌, ◌-◌, ◌%◌, ◌^◌, String, Bool, true, false, ◌||◌, Option, none, some, List, [], ◌∷◌, ◌++◌,
  ltb, ◌==◌, if◌then◌else◌, Bytes, codes,
}
use mlmmj.CString.{str_eq, strchr, strrchr}
use mlmmj.ControlFiles.{getline, ctrlvalue}
use mlmmj.Headers.{chomp}
use mlmmj.Process.Posting.{atol}
use mlmmj.Bounce.{Event, writes_probe, BounceOptions, System, bounce_main}

abbrev pub Dir : Type 0
Dir = List (Bytes × Bytes)

unfoldable pub lookup : Bytes → Dir → Option Bytes
unfolding str_eq
lookup name [] = none
lookup name ((file, content) ∷ dir) = if str_eq file name then some content else lookup name dir

unfoldable pub remove : Bytes → Dir → Dir
unfolding str_eq
remove name [] = []
remove name ((file, content) ∷ dir) =
    let others = remove name dir in if str_eq file name then others else (file, content) ∷ others

-- Whether the part of a name behind its last character `c` is this word.
abbrev pub ends_in : ℕ → String → Bytes → Bool
ends_in c word name = elim (strrchr c name) [
  | none ↦ false
  | some (before, after) ↦ str_eq after (codes word)
]

unfoldable pub is_probe : Bytes → Bool
unfolding strrchr str_eq
is_probe name = ends_in b'-' "probe" name

unfoldable pub is_lastmsg : Bytes → Bool
unfolding strrchr str_eq
is_lastmsg name = ends_in b'.' "lastmsg" name

-- `a < b` for times of 64 bits, of which the remainders by 2 ^ 64 are given
abbrev pub time_less : ℕ → ℕ → Bool
time_less a b = ltb ((a + 2 ^ 63) % 2 ^ 64) ((b + 2 ^ 63) % 2 ^ 64)

-- `t - before`
abbrev pub elapsed : ℕ → ℕ → ℕ
elapsed t before = (t + (2 ^ 64 - before)) % 2 ^ 64

abbrev pub waitprobe : ℕ
waitprobe = 43200

-- The time of the first line of a file of bounces: behind its first colon, and in front of its comment.
unfoldable pub bounce_time : Bytes → Option ℕ
unfolding getline strchr atol
bounce_time content = elim (getline content) [
  | none ↦ none
  | some firstbounce ↦ elim (strchr b'#' firstbounce) [
    | none ↦ none
    | some (front, bouncedata) ↦ elim (strchr b':' front) [
      | none ↦ none
      | some (number, a) ↦ some (atol a)
    ]
  ]
]

unfoldable pub bouncelife_of : Option Bytes → ℕ
unfolding ctrlvalue atol
bouncelife_of file =
    let life : ℕ = elim (ctrlvalue file) [ none ↦ 0 | some bouncelifestr ↦ atol bouncelifestr ] in
    if life == 0 then 432000 else life

-- One entry of the directory, for `unsub_bouncers`: what is left of the directory, and the addresses that
-- mlmmj-unsub is run for.
unfoldable pub unsub_bouncer : Bool → ℕ → ℕ → Bytes → Dir → Dir × List Bytes
unfolding is_probe is_lastmsg lookup bounce_time strchr remove
unsub_bouncer forks t bouncelife name dir =
    if is_probe name || is_lastmsg name then (dir, []) else elim (lookup name dir) [
      | none ↦ (dir, [])
      | some content ↦ elim (lookup (name ++ codes "-probe") dir) [
        | some _ ↦ (dir, [])
        | none ↦ elim (bounce_time content) [
          | none ↦ (dir, [])
          | some bouncetime ↦
              if time_less (elapsed t bouncetime) (bouncelife + waitprobe)
              then (dir, [])
              else elim (strchr b'=' name) [
                | none ↦ (dir, [])
                | some (user, host) ↦
                    if forks
                    then (
                      remove (name ++ codes ".lastmsg") (remove name dir),
                      (user ++ b'@' ∷ host) ∷ [],
                    )
                    else (dir, [])
              ]
        ]
      ]
    ]

-- The names that `readdir` gives.
unfoldable pub unsub_bouncers : Bool → ℕ → ℕ → List Bytes → Dir → Dir × List Bytes
unfolding unsub_bouncer
unsub_bouncers forks t bouncelife [] dir = (dir, [])
unsub_bouncers forks t bouncelife (name ∷ names) dir =
    let (left, now) = unsub_bouncer forks t bouncelife name dir in
    let (after, later) = unsub_bouncers forks t bouncelife names left in (after, now ++ later)

-- The events of a run of mlmmj-bounce that change the directory.
unfoldable pub apply_events : List Event → Dir → Dir
unfolding remove
apply_events [] dir = dir
apply_events (writes_probe addr text ∷ events) dir =
    apply_events events ((addr ++ codes "-probe", text) ∷ remove (addr ++ codes "-probe") dir)
apply_events (_ ∷ events) dir = apply_events events dir

abbrev pub probing : Bytes → BounceOptions
probing address = record {
  has_listdir = true;
  address = some address;
  number = none;
  has_mailname = false;
  dsnbounce = false;
  probe = true;
}

-- One entry of the directory, for `probe_bouncers`.
unfoldable pub probe_bouncer : Bool → System → Bytes → Dir → Dir
unfolding is_probe is_lastmsg lookup apply_events bounce_main
probe_bouncer forks s name dir =
    if is_probe name || is_lastmsg name then dir else elim (lookup name dir) [
      | none ↦ dir
      | some content ↦ elim (lookup (name ++ codes "-probe") dir) [
        | some _ ↦ dir
        | none ↦ if forks then apply_events (bounce_main (probing name) s).0 dir else dir
      ]
    ]

unfoldable pub probe_bouncers : Bool → System → List Bytes → Dir → Dir
unfolding probe_bouncer
probe_bouncers forks s [] dir = dir
probe_bouncers forks s (name ∷ names) dir =
    probe_bouncers forks s names (probe_bouncer forks s name dir)

-- One entry of the directory, for `clean_nolongerbouncing`.
unfoldable pub clean_bouncer : ℕ → Bytes → Dir → Dir
unfolding strrchr str_eq lookup getline chomp atol remove
clean_bouncer t filename dir = elim (strrchr b'-' filename) [
  | none ↦ dir
  | some (address, s) ↦
      if str_eq s (codes "probe")
      then elim (lookup filename dir) [
        | none ↦ dir
        | some content ↦ elim (getline content) [
          | none ↦ dir
          | some probetimestr ↦
              if time_less waitprobe (elapsed t (atol (chomp probetimestr)))
              then remove (address ++ codes ".lastmsg") (remove address (remove filename dir))
              else dir
        ]
      ]
      else dir
]

unfoldable pub clean_nolongerbouncing : ℕ → List Bytes → Dir → Dir
unfolding clean_bouncer
clean_nolongerbouncing t [] dir = dir
clean_nolongerbouncing t (name ∷ names) dir =
    clean_nolongerbouncing t names (clean_bouncer t name dir)

-- ===== src/Maintenance/Tests.antt =====
-- Runs of the maintenance of bounces, and the witnesses.
use mlmmj.Base.{ℕ, ◌≡◌, refl, true, some, List, [], ◌∷◌, ◌++◌, map, arith, Bytes, codes, All, ◌≢◌}
use mlmmj.CString.{contains}
use mlmmj.Process.Posting.{atol}
use mlmmj.Bounce.{bounce_line}
use mlmmj.Process.Posting.{atol}
use mlmmj.Maintenance.Due.{IsDue, unsub_bouncers-IsDue}
use mlmmj.Base.{◌≢◌, ℕ, ◌≡◌, refl, true, some, List, [], ◌∷◌, ◌++◌, map, arith, Bytes, codes, All}
use mlmmj.Maintenance.Unsubscribed.{bounce_time-bounce_line, unsub_bouncers-equals}
use mlmmj.Maintenance.{Dir, bounce_time, unsub_bouncers}

abbrev line : Bytes
line = bounce_line (codes "12") (codes "1700000000") (codes "Tue Nov 14 22:13:20 2023\n")

abbrev bouncing : Dir
bouncing =
    (codes "jo=example.org", line)
    ∷ (codes "jo=example.org.lastmsg", codes "x\n")
    ∷ (codes "al=example.org", line)
    ∷ (codes "al=example.org-probe", codes "1700000000")
    ∷ (codes "a=b=example.org", line)
    ∷ []

abbrev files : List Bytes
files = map (λ e. e.0) bouncing

abbrev now : ℕ
now = 1700999999

-- jo and a=b are due, and for al a probe is out; what is run for a=b is another address.
unsubscribes : unsub_bouncers true now 432000 files bouncing ≡ (
  (codes "al=example.org", line) ∷ (codes "al=example.org-probe", codes "1700000000") ∷ [],
  codes "jo@example.org" ∷ codes "a@b=example.org" ∷ [],
)
unfolding unsub_bouncers bounce_line
unsubscribes = refl

unsub_bouncers-IsDue_example :
    All (IsDue now 432000 bouncing) (unsub_bouncers true now 432000 files bouncing).1
unsub_bouncers-IsDue_example = unsub_bouncers-IsDue true now 432000 files bouncing

bounce_time-bounce_line_example :
    bounce_time (
      bounce_line (codes "12") (codes "1700000000") (codes "Tue Nov 14 22:13:20 2023" ++ codes "\n")
      ++ line)
    ≡ some (atol (codes "1700000000"))
bounce_time-bounce_line_example =
    bounce_time-bounce_line (codes "12") (codes "1700000000") (codes "Tue Nov 14 22:13:20 2023")
      line refl refl refl (omega arith)

unsub_bouncers-equals_example :
    All
      (λ a. a ≢ codes "a=b" ++ b'@' ∷ codes "example.org")
      (unsub_bouncers true now 432000 files bouncing).1
unfolding contains
unsub_bouncers-equals_example =
    unsub_bouncers-equals true now 432000 files bouncing (codes "a=b") (codes "example.org") refl
      refl

-- ===== src/Maintenance/Unsubscribed.antt =====
-- What `unsub_bouncers` of src/mlmmj-maintd.c reads of what mlmmj-bounce wrote.
use mlmmj.Base.{
  ℕ, zero, suc, ◌+◌, ◌-◌, ◌*◌, ◌≤◌, ◌≡◌, refl, inl, inr, Bool, true, false, ◌||◌, some, [], ◌∷◌,
  ◌++◌, append_assoc, arith, ◌==◌, &&-right, Bool-cases, Bytes, codes, length, take, any, all, ◌≢◌,
  List, if◌then◌else◌, All,
}
use mlmmj.CString.{is_digit, contains}
use mlmmj.ControlFiles.{getline}
use mlmmj.Headers.{is_newline}
use mlmmj.Process.Posting.{atol, digits_value}
use mlmmj.Bounce.{bounce_line}
use mlmmj.ControlFiles.Values.{IsLine, getlines-line}
use mlmmj.CString.Search.{strchr_first, contains_append}
use mlmmj.Process.Posting.{atol, digits_value}
use mlmmj.Headers.{is_newline}
use mlmmj.Base.{
  All, ◌≢◌, List, if◌then◌else◌, ℕ, zero, suc, ◌+◌, ◌-◌, ◌*◌, ◌≤◌, ◌≡◌, refl, inl, inr, Bool, true,
  false, ◌||◌, some, [], ◌∷◌, ◌++◌, append_assoc, arith, ◌==◌, &&-right, Bool-cases, Bytes, codes,
  length, take, any, all,
}
use mlmmj.Maintenance.Due.{IsDue, unsub_bouncers-IsDue}
use mlmmj.Maintenance.{Dir, bounce_time, unsub_bouncers}

any_append : (p : ℕ → Bool) (a b : Bytes) → any p (a ++ b) ≡ (any p a || any p b)
any_append p [] b = refl
any_append p (x ∷ a) b = ground (arith, any_append p a b)

digits_free :
    (c : ℕ) (s : Bytes) → all is_digit s ≡ true → is_digit c ≡ false → contains c s ≡ false
unfolding contains
digits_free c [] h k = refl
digits_free c (x ∷ s) h k =
    let later = digits_free c s (&&-right (is_digit x) (all is_digit s) h) k in
    elim (Bool-cases (x == c)) [ inl e ↦ absurd (ground arith) | inr e ↦ ground arith ]

digits-IsLine : (s : Bytes) → all is_digit s ≡ true → IsLine s
digits-IsLine [] h = refl
digits-IsLine (x ∷ s) h =
    let later = digits-IsLine s (&&-right (is_digit x) (all is_digit s) h) in ground arith

digits_value-blank : (n : ℕ) (s : Bytes) → digits_value n (s ++ codes " ") ≡ digits_value n s
digits_value-blank n [] = refl
digits_value-blank n (c ∷ s) = rw (digits_value-blank (10 * n + (c - b'0')) s) refl

atol-blank : (s : Bytes) → all is_digit s ≡ true → atol (s ++ codes " ") ≡ atol s
unfolding atol
atol-blank [] h = refl
atol-blank (c ∷ s) h =
    let later = digits_value-blank 0 (c ∷ s) in let tail = digits_value-blank 0 s in ground arith

take_short : (n : ℕ) (s : Bytes) → length s ≤ n → take n s ≡ s
take_short zero [] h = refl
take_short zero (c ∷ s) h = absurd (omega arith)
take_short (suc n) [] h = refl
take_short (suc n) (c ∷ s) h = rw (take_short n s (omega arith)) refl

-- The part of a line in front of its comment.
abbrev front : Bytes → Bytes → Bytes
front number time = number ++ b':' ∷ (time ++ codes " ")

bounce_time-front :
    (number time c rest : Bytes)
    → all is_digit number ≡ true
    → all is_digit time ≡ true
    → IsLine c
    → bounce_time ((front number time ++ b'#' ∷ (b' ' ∷ c)) ++ b'\n' ∷ rest) ≡ some (atol time)
unfolding bounce_time getline contains
bounce_time-front number time c rest hn ht hc =
    let line : Bytes = front number time ++ b'#' ∷ (b' ' ∷ c) in
    let no_newline : IsLine line =
      rw
        (
          any_append is_newline (front number time) (b'#' ∷ (b' ' ∷ c)),
          any_append is_newline number (b':' ∷ (time ++ codes " ")),
          any_append is_newline time (codes " "),
          digits-IsLine number hn,
          digits-IsLine time ht,
        )
        hc in
    let no_comment : contains b'#' (front number time) ≡ false =
      rw
        (
          contains_append b'#' number (b':' ∷ (time ++ codes " ")),
          contains_append b'#' time (codes " "),
          digits_free b'#' number hn refl,
          digits_free b'#' time ht refl,
        )
        refl in
    let whole : line ++ b'\n' ∷ [] ≡ front number time ++ b'#' ∷ (b' ' ∷ (c ++ b'\n' ∷ [])) =
      append_assoc (front number time) (b'#' ∷ (b' ' ∷ c)) (b'\n' ∷ []) in
    rw
      (
        bounce_time,
        getline,
        getlines-line line rest no_newline,
        whole,
        strchr_first b'#' (front number time) (b' ' ∷ (c ++ b'\n' ∷ [])) no_comment,
        strchr_first b':' number (time ++ codes " ") (digits_free b':' number hn refl),
        atol-blank time ht,
      )
      refl

-- The time of a bounce is read back from the line that mlmmj-bounce wrote about it, whatever lines follow, for
-- a number of a mail and a time that are digits and together no longer than the 39 characters that the
-- line has for them.
pub bounce_time-bounce_line :
    (number time ctime rest : Bytes)
    → all is_digit number ≡ true
    → all is_digit time ≡ true
    → IsLine ctime
    → length (number ++ b':' ∷ (time ++ codes " # ")) ≤ 43
    → bounce_time (bounce_line number time (ctime ++ codes "\n") ++ rest) ≡ some (atol time)
unfolding bounce_line
bounce_time-bounce_line number time ctime rest hn ht hc short =
    let text : Bytes = number ++ b':' ∷ (time ++ codes " # ") in
    let uncut : take 43 text ≡ text = take_short 43 text short in
    let same : bounce_line number time (ctime ++ codes "\n") ++ rest
        ≡ (front number time ++ b'#' ∷ (b' ' ∷ ctime)) ++ b'\n' ∷ rest =
      rw uncut (simp append_assoc) in
    rw same (bounce_time-front number time ctime rest hn ht hc)

begins_equals : Bytes → Bool
begins_equals [] = false
begins_equals (c ∷ s) = if c == b'=' then true else if c == b'@' then false else begins_equals s

begins_equals-user :
    (user rest : Bytes)
    → contains b'=' user ≡ true
    → contains b'@' user ≡ false
    → begins_equals (user ++ rest) ≡ true
unfolding contains begins_equals
begins_equals-user [] rest h k = absurd (cc)
begins_equals-user (c ∷ s) rest h k = elim (Bool-cases (c == b'=')) [
  | inl e ↦ rw e refl
  | inr e ↦
      let other : (c == b'@') ≡ false = ground arith in
      rw (e, other) (begins_equals-user s rest (ground arith) (ground arith))
]

begins_equals-free :
    (user rest : Bytes) → contains b'=' user ≡ false → begins_equals (user ++ b'@' ∷ rest) ≡ false
unfolding contains begins_equals
begins_equals-free [] rest h = refl
begins_equals-free (c ∷ s) rest h =
    let other : (c == b'=') ≡ false = ground arith in
    elim (Bool-cases (c == b'@')) [
      | inl e ↦ rw (other, e) refl
      | inr e ↦ rw (other, e) (begins_equals-free s rest (ground arith))
    ]

module _ (t bouncelife : ℕ) (dir : Dir) (user host : Bytes) (equals : contains b'=' user ≡ true)
    (clean : contains b'@' user ≡ false) where
  due_other : (a : Bytes) → IsDue t bouncelife dir a → a ≢ user ++ b'@' ∷ host
  due_other a (first, rest, content, time, e, free, l, p, b, w) same =
      let begins : begins_equals a ≡ true =
        rw same (begins_equals-user user (b'@' ∷ host) equals clean) in
      let begins_not : begins_equals a ≡ false = rw e (begins_equals-free first rest free) in
      absurd (cc)

  all_other :
      (addresses : List Bytes)
      → All (IsDue t bouncelife dir) addresses
      → All (λ a. a ≢ user ++ b'@' ∷ host) addresses
  all_other [] h = tt
  all_other (a ∷ addresses) (h, hs) = (due_other a h, all_other addresses hs)

-- An address with `=` in its local part is never unsubscribed by the maintenance of bounces, whatever records
-- of bounces there are and however old they are.
pub unsub_bouncers-equals :
    (forks : Bool) (t bouncelife : ℕ) (names : List Bytes) (dir : Dir) (user host : Bytes)
    → contains b'=' user ≡ true
    → contains b'@' user ≡ false
    → All (λ a. a ≢ user ++ b'@' ∷ host) (unsub_bouncers forks t bouncelife names dir).1
unsub_bouncers-equals forks t bouncelife names dir user host equals clean =
    all_other t bouncelife dir user host equals clean _
      (unsub_bouncers-IsDue forks t bouncelife names dir)

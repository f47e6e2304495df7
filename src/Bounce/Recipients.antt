-- ===== src/Bounce/Recipients.antt =====
-- The bounce that mlmmj-send reports for a recipient, in src/mlmmj-send.c, and what src/mlmmj-bounce.c
-- records of it.
use mlmmj.Base.{
  ℕ, zero, suc, ◌+◌, ◌≤◌, ◌≡◌, refl, inl, inr, true, false, none, some, [], ◌∷◌, ◌++◌, arith, ◌==◌,
  if◌then◌else◌, &&-right, Bool-cases, Bytes, codes, length, take, is_empty, length-append, all,
}
use mlmmj.CString.{peek, tolower, is_digit, str_eq, contains, strrchr}
use mlmmj.Versions.{lowercase, exit_success}
use mlmmj.Bounce.{
  appends, exit_success, BounceOptions, System, bounce_line, record_bounce, handle_bounce,
  bounce_main,
}
use mlmmj.CString.Search.{strrchr_last}
use mlmmj.Delivery.{arguments, read_bounce, bounce_from_adr, get_index_from_filename}
use mlmmj.Delivery.Bounces.{IsLocal, read_bounce-bounce_from_adr}

length-take : (n : ℕ) (s : Bytes) → length (take n s) ≤ n
length-take zero s = omega arith
length-take (suc n) [] = omega arith
length-take (suc n) (c ∷ s) = let less = length-take n s in omega arith

-- The line and its null character fit into the buffer, for a text of `ctime_r` that has 25 characters.
bounce_line-fits :
    (number time ctime : Bytes)
    → length ctime ≤ 25
    → length (bounce_line number time ctime) + 1 ≤ 70
unfolding bounce_line
bounce_line-fits number time ctime h =
    let short = length-take 43 (number ++ b':' ∷ (time ++ codes " # ")) in
    let whole = length-append (take 43 (number ++ b':' ∷ (time ++ codes " # "))) ctime in
    omega arith

lowercase_append : (a b : Bytes) → lowercase (a ++ b) ≡ lowercase a ++ lowercase b
unfolding lowercase
lowercase_append [] b = refl
lowercase_append (c ∷ a) b = rw (lowercase_append a b) refl

contains_equals-lowercase :
    (s : Bytes) → contains b'=' s ≡ false → contains b'=' (lowercase s) ≡ false
unfolding contains lowercase tolower
contains_equals-lowercase [] h = refl
contains_equals-lowercase (c ∷ s) h = let later = contains_equals-lowercase s in ground arith

-- The number of a mail.
abbrev pub IsNumber : Bytes → Type 0
IsNumber s = all is_digit s ≡ true

digits-IsLocal : (s : Bytes) → IsNumber s → IsLocal s
unfolding contains
digits-IsLocal [] h = refl
digits-IsLocal (c ∷ s) h =
    let later = digits-IsLocal s (&&-right (is_digit c) (all is_digit s) h) in ground arith

str_eq_word :
    (number word : Bytes)
    → IsNumber number
    → is_digit (peek word) ≡ false
    → is_empty word ≡ false
    → str_eq number word ≡ false
unfolding str_eq
str_eq_word [] [] h w e = absurd (cc)
str_eq_word [] (c ∷ word) h w e = refl
str_eq_word (x ∷ number) [] h w e = absurd (cc)
str_eq_word (x ∷ number) (c ∷ word) h w e = elim (Bool-cases (x == c)) [
  | inl same ↦ absurd (ground arith)
  | inr other ↦ ground arith
]

-- The call of mlmmj-bounce in mlmmj-send.
abbrev pub reported : Bytes → Bytes → BounceOptions
reported address number = record {
  has_listdir = true;
  address = some address;
  number = some number;
  has_mailname = false;
  dsnbounce = false;
  probe = false;
}

-- A report about a recipient is recorded where he is a subscriber, and ignored where he is not.
bounce_main-reported :
    (s : System) (user host number : Bytes)
    → IsNumber number
    → contains b'=' host ≡ false
    → s.may_run ≡ true
    → s.is_link (lowercase (user ++ b'=' ∷ host)) ≡ false
    → s.opens (lowercase (user ++ b'=' ∷ host)) ≡ true
    → bounce_main (reported (user ++ b'=' ∷ host) number) s ≡ (
      (if s.is_subbed (lowercase (user ++ b'@' ∷ host))
          then appends (lowercase (user ++ b'=' ∷ host)) (bounce_line number s.time s.ctime) ∷ []
          else []),
      exit_success,
    )
unfolding bounce_main handle_bounce record_bounce lowercase
bounce_main-reported s user host number h k run file works =
    let address : Bytes = lowercase (user ++ b'=' ∷ host) in
    let parts : strrchr b'=' address ≡ some (lowercase user, lowercase host) =
      rw (lowercase_append user (b'=' ∷ host))
        (strrchr_last b'=' (lowercase user) (lowercase host) (contains_equals-lowercase host k)) in
    let whole : lowercase (user ++ b'@' ∷ host) ≡ lowercase user ++ b'@' ∷ lowercase host =
      lowercase_append user (b'@' ∷ host) in
    let c1 = str_eq_word number (codes "confsub") h refl refl in
    let c2 = str_eq_word number (codes "confunsub") h refl refl in
    let c3 = str_eq_word number (codes "probe") h refl refl in
    elim (Bool-cases (s.is_subbed (lowercase user ++ b'@' ∷ lowercase host))) [
      | inl member ↦ rw (run, c1, c2, c3, whole, record_bounce, parts, member, file, works) refl
      | inr stranger ↦ rw (run, c1, c2, c3, whole, record_bounce, parts, stranger) refl
    ]

-- For a recipient and a mail whose number has digits only, the envelope sender that mlmmj-send makes is read
-- back as arguments of mlmmj-bounce that add a line to the file of this recipient, in lower case, where
-- he is a subscriber, and do nothing where he is not. The recipient has one `@`, no hyphen and no `=` in
-- its domain, the list address is `name@domain` and the delimiter one character that is not in the name and
-- neither `-` nor `@`, the user may run mlmmj-bounce, and the file opens and is no symbolic link.
pub bounce_main-bounce_from_adr :
    (d : ℕ) (name domain : Bytes)
    → (d == b'-') ≡ false
    → (d == b'@') ≡ false
    → contains d name ≡ false
    → IsLocal name
    → (s : System) (user host file : Bytes) → IsLocal user
    → IsLocal host
    → contains b'-' (user ++ b'=' ∷ host) ≡ false
    → contains b'=' host ≡ false
    → IsNumber (get_index_from_filename file)
    → s.may_run ≡ true
    → s.is_link (lowercase (user ++ b'=' ∷ host)) ≡ false
    → s.opens (lowercase (user ++ b'=' ∷ host)) ≡ true
    → (sender : Bytes) × (bounce_from_adr none
          (user ++ b'@' ∷ host)
          (name ++ b'@' ∷ domain)
          (d ∷ [])
          file
        ≡ some (some sender))
      × (address : Bytes) × (number : Bytes) × (read_bounce (d ∷ []) sender
          ≡ arguments address number)
      × (bounce_main (reported address number) s ≡ (
        (if s.is_subbed (lowercase (user ++ b'@' ∷ host))
            then appends
                (lowercase (user ++ b'=' ∷ host))
                (bounce_line (get_index_from_filename file) s.time s.ctime)
              ∷ []
            else []),
        exit_success,
      ))
bounce_main-bounce_from_adr d name domain hyphen at apart local s user host file hu hh k eq num run
      link works =
    let index : Bytes = get_index_from_filename file in
    let (sender, made, read) =
      read_bounce-bounce_from_adr d name domain hyphen at apart local user host file hu hh
        (digits-IsLocal index num) k in
    (
      sender,
      made,
      user ++ b'=' ∷ host,
      index,
      read,
      bounce_main-reported s user host index num eq run link works,
    )

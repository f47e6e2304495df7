-- ===== src/Delivery/Bounces.antt =====
-- What src/mlmmj-send.c makes of the bounce address that it made for a recipient.
use mlmmj.Base.{
  ℕ, suc, ◌+◌, ◌-◌, ◌≡◌, refl, sym, ap, ◌∙◌, inl, inr, true, false, ◌||◌, none, some, [], ◌∷◌, ◌++◌,
  append_assoc, arith, ltb, ◌==◌, ==_refl, Bool-cases, Bytes, codes, length, length-append,
  take-append,
}
use mlmmj.CString.{strip_prefix, strchr, contains, strstr, strrchr}
use mlmmj.Delivery.{arguments, read_bounce, bounce_from_adr, get_index_from_filename, with_equals}
use mlmmj.CString.Search.{strchr_first, contains_append, strrchr_last}

strstr_char :
    (d : ℕ) (name s : Bytes)
    → contains d name ≡ false
    → strstr (d ∷ []) (name ++ d ∷ s) ≡ some (name, d ∷ s)
unfolding strstr strip_prefix contains
strstr_char d [] s h = rw (==_refl d, strstr) refl
strstr_char d (c ∷ name) s h = elim (Bool-cases (c == d)) [
  | inl e ↦ absurd (ground arith)
  | inr e ↦
      let other : (d == c) ≡ false = ground arith in
      rw (other, strstr_char d name s (ground arith), strstr) refl
]

-- A part of an address without `@`.
abbrev pub IsLocal : Bytes → Type 0
IsLocal s = contains b'@' s ≡ false

-- A list address `name@domain` and a delimiter of one character.
module _ (d : ℕ) (name domain : Bytes) (hyphen : (d == b'-') ≡ false) (at : (d == b'@') ≡ false)
    (apart : contains d name ≡ false) (local : IsLocal name) where
  read_bounce_last :
      (x b : Bytes)
      → IsLocal x
      → IsLocal b
      → contains b'-' b ≡ false
      → read_bounce (d ∷ []) ((name ++ d ∷ (codes "bounces-" ++ (x ++ b'-' ∷ b))) ++ b'@' ∷ domain)
        ≡ arguments b x
  unfolding read_bounce strchr contains
  read_bounce_last x b hx hb k =
      let rest : Bytes = x ++ b'-' ∷ b in
      let c : Bytes = d ∷ (codes "bounces-" ++ rest) in
      let local_rest : IsLocal rest = rw (contains_append b'@' x (b'-' ∷ b), hx) hb in
      let local_c : IsLocal c = rw at local_rest in
      let local_from : IsLocal (name ++ c) = rw (contains_append b'@' name c, local) local_c in
      let long : length rest ≡ length x + suc (length b) = length-append x (b'-' ∷ b) in
      let last : strrchr b'-' (name ++ c) ≡ some (name ++ d ∷ (codes "bounces-" ++ x), b) =
        rw (sym (append_assoc name (d ∷ (codes "bounces-" ++ x)) (b'-' ∷ b)))
          (strrchr_last b'-' (name ++ d ∷ (codes "bounces-" ++ x)) b k) in
      let less : ltb (length b) (length rest) ≡ true = ground arith in
      let copied : length rest - (length b + 1) ≡ length x = omega arith in
      rw
        (
          strchr_first b'@' (name ++ c) domain local_from,
          last,
          strstr_char d name (codes "bounces-" ++ rest) apart,
          hyphen,
          less,
          copied,
          take-append x (b'-' ∷ b),
          read_bounce,
        )
        refl

  -- The envelope sender for a recipient `user@host`.
  abbrev pub envelope : Bytes → Bytes → Bytes
  envelope index rcpt = (name ++ d ∷ (codes "bounces-" ++ (index ++ b'-' ∷ rcpt))) ++ b'@' ∷ domain

  bounce_from_adr-envelope :
      (user host file : Bytes)
      → IsLocal user
      → bounce_from_adr none (user ++ b'@' ∷ host) (name ++ b'@' ∷ domain) (d ∷ []) file
        ≡ some (some (envelope (get_index_from_filename file) (user ++ b'=' ∷ host)))
  unfolding bounce_from_adr with_equals
  bounce_from_adr-envelope user host file h =
      let index : Bytes = get_index_from_filename file in
      let rcpt : Bytes = user ++ b'=' ∷ host in
      rw
        (
          strchr_first b'@' name domain local,
          strchr_first b'@' user host h,
          append_assoc name (d ∷ (codes "bounces-" ++ (index ++ b'-' ∷ rcpt))) (b'@' ∷ domain),
          bounce_from_adr,
          with_equals,
        )
        refl

  -- A bounce that is reported at once is reported for the right recipient and the right mail, where
  -- neither the recipient's address nor the number of the mail has a hyphen.
  pub read_bounce-bounce_from_adr :
      (user host file : Bytes)
      → IsLocal user
      → IsLocal host
      → IsLocal (get_index_from_filename file)
      → contains b'-' (user ++ b'=' ∷ host) ≡ false
      → (sender : Bytes) × (bounce_from_adr none
            (user ++ b'@' ∷ host)
            (name ++ b'@' ∷ domain)
            (d ∷ [])
            file
          ≡ some (some sender))
        × (read_bounce (d ∷ []) sender
            ≡ arguments (user ++ b'=' ∷ host) (get_index_from_filename file))
  unfolding contains
  read_bounce-bounce_from_adr user host file hu hh hi k =
      let local_rcpt : IsLocal (user ++ b'=' ∷ host) =
        rw (contains_append b'@' user (b'=' ∷ host), hu) hh in
      (
        envelope (get_index_from_filename file) (user ++ b'=' ∷ host),
        bounce_from_adr-envelope user host file hu,
        read_bounce_last (get_index_from_filename file) (user ++ b'=' ∷ host) hi local_rcpt k,
      )

  -- With a hyphen in the recipient's address, only what stands behind the last one is taken for the
  -- recipient, and the rest for a part of the number of the mail.
  read_bounce_hyphen :
      (user host file a b : Bytes)
      → IsLocal user
      → IsLocal host
      → IsLocal (get_index_from_filename file)
      → user ++ b'=' ∷ host ≡ a ++ b'-' ∷ b
      → contains b'-' b ≡ false
      → (sender : Bytes) × (bounce_from_adr none
            (user ++ b'@' ∷ host)
            (name ++ b'@' ∷ domain)
            (d ∷ [])
            file
          ≡ some (some sender))
        × (read_bounce (d ∷ []) sender ≡ arguments b (get_index_from_filename file ++ b'-' ∷ a))
  unfolding contains
  read_bounce_hyphen user host file a b hu hh hi split k =
      let index : Bytes = get_index_from_filename file in
      let local_rcpt : IsLocal (user ++ b'=' ∷ host) =
        rw (contains_append b'@' user (b'=' ∷ host), hu) hh in
      let both : (contains b'@' a || contains b'@' b) ≡ false =
        sym (contains_append b'@' a (b'-' ∷ b)) ∙ ap (contains b'@') (sym split) ∙ local_rcpt in
      let local_b : IsLocal b = ground arith in
      let local_a : IsLocal a = ground arith in
      let local_x : IsLocal (index ++ b'-' ∷ a) =
        rw (contains_append b'@' index (b'-' ∷ a), hi) local_a in
      let same : envelope (index ++ b'-' ∷ a) b ≡ envelope index (user ++ b'=' ∷ host) =
        rw (split, append_assoc index (b'-' ∷ a) (b'-' ∷ b)) refl in
      (
        envelope index (user ++ b'=' ∷ host),
        bounce_from_adr-envelope user host file hu,
        ap (read_bounce (d ∷ [])) (sym same)
            ∙ read_bounce_last (index ++ b'-' ∷ a) b local_x local_b k,
      )

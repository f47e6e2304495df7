-- ===== src/Names/Cookies.antt =====
-- The cookies of src/strgen.c and the syntax of control addresses, src/listcontrol.c.
use mlmmj.Base.{
  ℕ, ◌/◌, ◌%◌, ◌<◌, ◌≡◌, refl, ◌≢◌, inl, inr, true, false, none, some, [], ◌∷◌, ◌++◌, arith, ◌==◌,
  Option-cases, Bytes, codes, All,
}
use mlmmj.CString.Search.{strchr-parts}
use mlmmj.CString.{strip_prefix, strchr, contains}
use mlmmj.Control.Syntax.{find_command-slash, IsRead, IsCookie, ctrl_commands-IsRead}
use mlmmj.Control.{find_command, Ctrl, command, ctrl_commands}
use mlmmj.Names.{genlistname, genlistfqdn, hex_digit, hex8, random_plus_addr}

-- The name and the domain are what stands around the first `@` of the address.
pub genlistname-genlistfqdn :
    (listaddr name : Bytes)
    → genlistname listaddr ≡ some name
    → (fqdn : Bytes) × (genlistfqdn listaddr ≡ some fqdn)
      × (listaddr ≡ name ++ b'@' ∷ fqdn)
      × (contains b'@' name ≡ false)
unfolding genlistname genlistfqdn
genlistname-genlistfqdn listaddr name h = elim (Option-cases (strchr b'@' listaddr)) [
  | inl k ↦ absurd (ground arith)
  | inr ((a, b), k) ↦
      let same : name ≡ a = ground arith in
      let (parts, free) = strchr-parts b'@' listaddr a b k in
      (b, rw (k, genlistfqdn) refl, rw same parts, rw same free)
]

contains-append :
    (c : ℕ) (s t : Bytes)
    → contains c s ≡ false
    → contains c t ≡ false
    → contains c (s ++ t) ≡ false
unfolding contains
contains-append c [] t h k = k
contains-append c (x ∷ s) t h k = ground (arith, contains-append c s t)

hex_digit-slash : (d : ℕ) → d < 16 → (hex_digit d == b'/') ≡ false
unfolding hex_digit
hex_digit-slash d h = ground arith

hex8-slash : (n : ℕ) → contains b'/' (hex8 n) ≡ false
unfolding contains
hex8-slash n =
    rw
      (
        hex_digit-slash ((n / 268435456) % 16) (omega arith),
        hex_digit-slash ((n / 16777216) % 16) (omega arith),
        hex_digit-slash ((n / 1048576) % 16) (omega arith),
        hex_digit-slash ((n / 65536) % 16) (omega arith),
        hex_digit-slash ((n / 4096) % 16) (omega arith),
        hex_digit-slash ((n / 256) % 16) (omega arith),
        hex_digit-slash ((n / 16) % 16) (omega arith),
        hex_digit-slash (n % 16) (omega arith),
      )
      refl

-- The words that follow `confsub-` in the table of commands do not begin with two digits.
no_word :
    (c d : ℕ) (s : Bytes)
    → c < 16
    → d < 16
    → (strip_prefix (codes "digest") (hex_digit c ∷ hex_digit d ∷ s) ≡ none)
      × (strip_prefix (codes "nomail") (hex_digit c ∷ hex_digit d ∷ s) ≡ none)
      × (strip_prefix (codes "both") (hex_digit c ∷ hex_digit d ∷ s) ≡ none)
unfolding strip_prefix hex_digit
no_word c d s h k = (ground arith, ground arith, ground arith)

random_plus_addr-slash :
    (m n : ℕ) (name fqdn : Bytes)
    → contains b'/' name ≡ false
    → contains b'/' fqdn ≡ false
    → contains b'/' (hex8 m ++ (hex8 n ++ b'-' ∷ (name ++ b'=' ∷ fqdn))) ≡ false
unfolding contains
random_plus_addr-slash m n name fqdn h k =
    contains-append b'/' (hex8 m) (hex8 n ++ b'-' ∷ (name ++ b'=' ∷ fqdn)) (hex8-slash m) (
      contains-append b'/' (hex8 n) (b'-' ∷ (name ++ b'=' ∷ fqdn)) (hex8-slash n)
        (contains-append b'/' name (b'=' ∷ fqdn) h k))

made-IsCookie :
    (m n : ℕ) (name fqdn : Bytes)
    → contains b'/' name ≡ false
    → contains b'/' fqdn ≡ false
    → IsCookie (hex8 m ++ (hex8 n ++ b'-' ∷ (name ++ b'=' ∷ fqdn)))
made-IsCookie m n name fqdn h k =
    let words : (s : Bytes) → _ =
      λ s. no_word ((m / 268435456) % 16) ((m / 16777216) % 16) s (omega arith) (omega arith) in
    record {
      slash = random_plus_addr-slash m n name fqdn h k;
      digest = (words _).0;
      nomail = (words _).1;
      both = (words _).2;
    }

contains-parts :
    (c : ℕ) (s t : Bytes)
    → contains c (s ++ t) ≡ false
    → (contains c s ≡ false) × (contains c t ≡ false)
unfolding contains
contains-parts c [] t h = (refl, h)
contains-parts c (x ∷ s) t h = ground (arith, contains-parts c s t)

-- Every command that takes a cookie reads back the cookie that is made for an address without a
-- slash.
pub random_plus_addr-IsRead :
    (m n : ℕ) (addr cookie : Bytes)
    → random_plus_addr m n addr ≡ some cookie
    → contains b'/' addr ≡ false
    → All (IsRead cookie) ctrl_commands
unfolding random_plus_addr contains
random_plus_addr-IsRead m n addr cookie h free = elim (Option-cases (strchr b'@' addr)) [
  | inl k ↦ absurd (ground arith)
  | inr ((name, fqdn), k) ↦
      let made : cookie ≡ hex8 m ++ (hex8 n ++ b'-' ∷ (name ++ b'=' ∷ fqdn)) = ground arith in
      let apart =
        contains-parts b'/' name (b'@' ∷ fqdn) (rw⁻¹ (strchr-parts b'@' addr name fqdn k).0 free) in
      rw made (
        ctrl_commands-IsRead (hex8 m ++ (hex8 n ++ b'-' ∷ (name ++ b'=' ∷ fqdn)))
          (made-IsCookie m n name fqdn apart.0 apart.1))
]

made-addr-slash :
    (m n : ℕ) (name fqdn : Bytes)
    → contains b'/' (hex8 m ++ (hex8 n ++ b'-' ∷ (name ++ b'=' ∷ fqdn))) ≡ false
    → contains b'/' (name ++ b'@' ∷ fqdn) ≡ false
unfolding contains
made-addr-slash m n name fqdn h =
    let behind_m = (contains-parts b'/' (hex8 m) (hex8 n ++ b'-' ∷ (name ++ b'=' ∷ fqdn)) h).1 in
    let behind_n = (contains-parts b'/' (hex8 n) (b'-' ∷ (name ++ b'=' ∷ fqdn)) behind_m).1 in
    let (in_name, in_fqdn) = contains-parts b'/' name (b'=' ∷ fqdn) behind_n in
    contains-append b'/' name (b'@' ∷ fqdn) in_name in_fqdn

-- No control address is read as a command with the cookie of an address that has a slash, so such an
-- address can never confirm.
pub random_plus_addr_unread :
    (m n : ℕ) (addr cookie controlstr : Bytes) (c : Ctrl)
    → random_plus_addr m n addr ≡ some cookie
    → contains b'/' addr ≡ true
    → find_command ctrl_commands controlstr ≢ command c cookie
unfolding random_plus_addr
random_plus_addr_unread m n addr cookie controlstr c h slash read =
    elim (Option-cases (strchr b'@' addr)) [
      | inl k ↦ absurd (ground arith)
      | inr ((name, fqdn), k) ↦
          let made : cookie ≡ hex8 m ++ (hex8 n ++ b'-' ∷ (name ++ b'=' ∷ fqdn)) = ground arith in
          let free =
            made-addr-slash m n name fqdn
              (rw⁻¹ made (find_command-slash ctrl_commands controlstr c cookie read)) in
          let bare : contains b'/' addr ≡ false = rw (strchr-parts b'@' addr name fqdn k).0 free in
          absurd (cc (slash, bare))
    ]

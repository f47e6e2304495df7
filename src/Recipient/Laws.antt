-- ===== src/Recipient/Laws.antt =====
-- `addrmatch` of src/mlmmj-process.c accepts exactly the list's address with an extra part put in.
use mlmmj.Base.{
  ℕ, ◌+◌, ◌≡◌, refl, inl, inr, true, false, some, [], ◌∷◌, ◌++◌, arith, Option-cases, Bytes, length,
  drop, suc, drop-append, sym, ap, ◌∙◌,
}
use mlmmj.CString.Search.{strrchr_last}
use mlmmj.CString.{strip_prefix, case_eq, case_eq_n, contains, strstr, strrchr, peek}
use mlmmj.Recipient.{addrmatch, match_domain, match_delim}

strip_prefix-whole : (p s r : Bytes) → strip_prefix p s ≡ some r → s ≡ p ++ r
unfolding strip_prefix
strip_prefix-whole [] s r h = ground arith
strip_prefix-whole (x ∷ p) [] r h = absurd (cc)
strip_prefix-whole (x ∷ p) (c ∷ s) r h = ground (arith, strip_prefix-whole p s r)

-- `strstr` splits the text where the needle stands.
strstr-whole :
    (n s a b : Bytes) → strstr n s ≡ some (a, b) → (s ≡ a ++ b) × ((r : Bytes) × (b ≡ n ++ r))
unfolding strstr
strstr-whole n [] a b h = elim (Option-cases (strip_prefix n [])) [
  | inl k ↦ absurd (ground arith)
  | inr (r, k) ↦ (ground arith, (r, ground (arith, strip_prefix-whole n [] r k)))
]
strstr-whole n (c ∷ s) a b h = elim (Option-cases (strip_prefix n (c ∷ s))) [
  | inr (r, k) ↦ (ground arith, (r, ground (arith, strip_prefix-whole n (c ∷ s) r k)))
  | inl k ↦ elim (Option-cases (strstr n s)) [
    | inl m ↦ absurd (ground arith)
    | inr ((a', b'), m) ↦
        let ih = strstr-whole n s a' b' m in
        (ground (arith, ih.0), (ih.1.0, ground (arith, ih.1.1)))
  ]
]

strrchr-whole : (c : ℕ) (s a b : Bytes) → strrchr c s ≡ some (a, b) → s ≡ a ++ c ∷ b
unfolding strrchr
strrchr-whole c [] a b h = absurd (cc)
strrchr-whole c (x ∷ s) a b h = elim (Option-cases (strrchr c s)) [
  | inl k ↦ ground arith
  | inr ((a', b'), k) ↦ ground (arith, strrchr-whole c s a' b')
]

case_eq_n-append :
    (a a' b b' : Bytes) → case_eq a a' ≡ true → case_eq_n (length a') (a ++ b) (a' ++ b') ≡ true
unfolding case_eq case_eq_n
case_eq_n-append [] [] b b' h = refl
case_eq_n-append [] (y ∷ a') b b' h = absurd (cc)
case_eq_n-append (x ∷ a) [] b b' h = absurd (cc)
case_eq_n-append (x ∷ a) (y ∷ a') b b' h = ground (arith, case_eq_n-append a a' b b')

case_eq-length : (a b : Bytes) → case_eq a b ≡ true → length a ≡ length b
unfolding case_eq
case_eq-length [] [] h = refl
case_eq-length (x ∷ a) (y ∷ b) h = ground (arith, case_eq-length a b)
case_eq-length _ _ h = cc

drop_past : (a b : Bytes) (c : ℕ) → drop (length a + 1) (a ++ c ∷ b) ≡ b
drop_past [] b c = refl
drop_past (x ∷ a) b c =
    let e : suc (length a) + 1 ≡ suc (length a + 1) = omega arith in rw e (drop_past a b c)

-- The extra part of an address is found where the address is the list's name, the delimiter, the
-- extra part and the list's domain, names compared but for case, if the delimiter first stands behind
-- the name and the domain has no `@`.
pub addrmatch_extra :
    (name domain name' delim extra domain' : Bytes)
    → case_eq name name' ≡ true
    → case_eq domain domain' ≡ true
    → contains b'@' domain' ≡ false
    → case_eq (name ++ b'@' ∷ domain) (name' ++ (delim ++ (extra ++ b'@' ∷ domain'))) ≡ false
    → strstr delim (name' ++ (delim ++ (extra ++ b'@' ∷ domain')))
      ≡ some (name', delim ++ (extra ++ b'@' ∷ domain'))
    → addrmatch
        (name ++ b'@' ∷ domain)
        (some (name' ++ (delim ++ (extra ++ b'@' ∷ domain'))))
        (some delim)
      ≡ some (some extra)
unfolding addrmatch match_delim match_domain
addrmatch_extra name domain name' delim extra domain' hn hd hat hne hs =
    rw (hne, hs)
      (ground (
        arith,
        case_eq_n-append name name' (b'@' ∷ domain) (delim ++ (extra ++ b'@' ∷ domain')) hn,
        case_eq-length name name' hn,
        drop-append name (b'@' ∷ domain),
        drop-append delim (extra ++ b'@' ∷ domain'),
        strrchr_last b'@' extra domain' hat,
        drop_past name domain b'@',
      ))

case_eq_n-split :
    (l before from domain : Bytes)
    → case_eq_n (length before) l (before ++ from) ≡ true
    → peek (drop (length before) l) ≡ b'@'
    → case_eq (drop (length before + 1) l) domain ≡ true
    → case_eq l (before ++ b'@' ∷ domain) ≡ true
unfolding case_eq case_eq_n
case_eq_n-split [] [] from domain h p d = absurd (ground arith)
case_eq_n-split (c ∷ l) [] from domain h p d = ground arith
case_eq_n-split [] (y ∷ before) from domain h p d = absurd (cc)
case_eq_n-split (x ∷ l) (y ∷ before) from domain h p d =
    let e : suc (length before) + 1 ≡ suc (length before + 1) = omega arith in
    let d' : case_eq (drop (length before + 1) l) domain ≡ true = rw e at d in
    ground (arith, case_eq_n-split l before from domain)

match_domain-some :
    (l delim extra : Bytes) (len : ℕ)
    → match_domain l len delim ≡ some (some extra)
    → (domain : Bytes) × (strrchr b'@' delim ≡ some (extra, domain))
      × (case_eq (drop (len + 1) l) domain ≡ true)
unfolding match_domain
match_domain-some l delim extra len h = elim (Option-cases (strrchr b'@' delim)) [
  | inl k ↦ absurd (ground arith)
  | inr ((e, domain), k) ↦ (domain, ground arith, ground arith)
]

match_delim-some :
    (l addr delim before from extra : Bytes)
    → match_delim l addr delim before from ≡ some (some extra)
    → (case_eq_n (length before) l addr ≡ true)
      × (peek (drop (length before) l) ≡ b'@')
      × (match_domain l (length before) (drop (length delim) from) ≡ some (some extra))
unfolding match_delim
match_delim-some l addr delim before from extra h = ground arith

-- Conversely, an address that is accepted with an extra part is the list's address, but for case,
-- with the delimiter and the extra part put in front of the `@`.
addrmatch-some :
    (listaddr addr delim extra : Bytes)
    → addrmatch listaddr (some addr) (some delim) ≡ some (some extra)
    → (name' : Bytes) × (domain' : Bytes) × (addr ≡ name' ++ (delim ++ (extra ++ b'@' ∷ domain')))
      × (case_eq listaddr (name' ++ b'@' ∷ domain') ≡ true)
unfolding addrmatch
addrmatch-some listaddr addr delim extra h = elim (Option-cases (strstr delim addr)) [
  | inl k ↦ absurd (ground arith)
  | inr ((before, from), k) ↦
      let (whole, (r, tail)) = strstr-whole delim addr before from k in
      let (n, at, m) = match_delim-some listaddr addr delim before from extra (ground arith) in
      let (domain, last, d) = match_domain-some listaddr _ extra _ m in
      let found : r ≡ extra ++ b'@' ∷ domain = strrchr-whole b'@' r extra domain (
        ap (strrchr b'@') (sym (drop-append delim r) ∙ ap (drop (length delim)) (sym tail))
        ∙ last) in
      (
        before,
        domain,
        cc (whole, tail, found),
        case_eq_n-split listaddr before from domain (rw whole at n) at d,
      )
]

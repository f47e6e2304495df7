-- ===== src/EmailAddress/Plain.antt =====
-- The addresses of a header, src/find_email_adr.c: what is found of headers of the usual forms.
use mlmmj.Base.{
  ℕ, zero, suc, ◌+◌, ◌*◌, ◌≤◌, ◌<◌, ◌≡◌, refl, sym, inl, inr, Bool, true, false, not, ◌||◌, none,
  some, List, [], ◌∷◌, ◌++◌, append_assoc, append-nil, arith, ◌==◌, &&-left, &&-right, Bool-cases,
  Bytes, length, is_empty, length-append, All, all,
}
use mlmmj.CString.{strip_prefix, contains}
use mlmmj.CString.Search.{strchr-free, strchr_first, contains_append}
use mlmmj.EmailAddress.{copy_quoted, skip_to_comma, skin_loop, skin}
use mlmmj.EmailAddress.Splitting.{
  judge_comma, cut_address, cons_address, find_from, find_email_adr, is_wsp, skip_wsp,
}

-- A byte that no loop treats in a special way.
abbrev pub is_common : ℕ → Bool
is_common c = not (is_wsp c || c == b',' || c == b'"' || c == b'(' || c == b'<' || c == b'>')

abbrev pub IsAddress : Bytes → Type 0
IsAddress s = (is_empty s ≡ false) × (all is_common s ≡ true)

-- Addresses as a header lists them.
abbrev pub listed : List Bytes → Bytes
listed [] = []
listed (adr ∷ []) = adr
listed (adr ∷ (other ∷ adrs)) = adr ++ b',' ∷ b' ' ∷ listed (other ∷ adrs)

all-free : (c : ℕ) (s : Bytes) → is_common c ≡ false → all is_common s ≡ true → contains c s ≡ false
unfolding contains
all-free c [] k h = refl
all-free c (x ∷ s) k h = elim (Bool-cases (x == c)) [
  | inl e ↦ let same : x ≡ c = ground arith in absurd (cc)
  | inr e ↦ rw (e, all-free c s k (&&-right (is_common x) (all is_common s) h)) refl
]

skin_address : (adr : Bytes) → all is_common adr ≡ true → skin adr ≡ some adr
unfolding skin
skin_address adr h =
    rw (all-free b'(' adr refl h, all-free b'<' adr refl h, all-free b' ' adr refl h) refl

all-wsp-free : (c : ℕ) (s : Bytes) → is_wsp c ≡ false → all is_wsp s ≡ true → contains c s ≡ false
unfolding contains
all-wsp-free c [] k h = refl
all-wsp-free c (x ∷ s) k h = elim (Bool-cases (x == c)) [
  | inl e ↦ let same : x ≡ c = ground arith in absurd (cc)
  | inr e ↦ rw (e, all-wsp-free c s k (&&-right (is_wsp x) (all is_wsp s) h)) refl
]

skip_wsp-lead :
    (lead adr : Bytes) → all is_wsp lead ≡ true → IsAddress adr → skip_wsp (lead ++ adr) ≡ adr
unfolding skip_wsp
skip_wsp-lead [] [] h k = refl
skip_wsp-lead [] (c ∷ adr) h (full, k) =
    let black : is_wsp c ≡ false = ground arith in rw black refl
skip_wsp-lead (x ∷ lead) adr h k =
    rw (&&-left (is_wsp x) (all is_wsp lead) h)
      (skip_wsp-lead lead adr (&&-right (is_wsp x) (all is_wsp lead) h) k)

cons_address-adr :
    (lead adr : Bytes) (adrs : List Bytes)
    → all is_wsp lead ≡ true
    → IsAddress adr
    → cons_address (lead ++ adr) (some adrs) ≡ some (adr ∷ adrs)
cons_address-adr lead [] adrs h (full, k) = absurd (cc)
cons_address-adr lead (c ∷ adr) adrs h k =
    rw (skip_wsp-lead lead (c ∷ adr) h k, skin_address (c ∷ adr) k.1, cons_address) refl

free_of_quotes : (adrs : List Bytes) → All IsAddress adrs → contains b'"' (listed adrs) ≡ false
unfolding contains
free_of_quotes [] h = refl
free_of_quotes (adr ∷ []) (h, k) = all-free b'"' adr refl h.1
free_of_quotes (adr ∷ (other ∷ adrs)) (h, k) =
    rw
      (
        contains_append b'"' adr (b',' ∷ b' ' ∷ listed (other ∷ adrs)),
        all-free b'"' adr refl h.1,
        free_of_quotes (other ∷ adrs) k,
        listed,
      )
      refl

-- A text without quotation marks is cut at its first comma.
cut_address-first :
    (fuel : ℕ) (s p : Bytes)
    → 0 < fuel
    → contains b',' s ≡ false
    → contains b'"' (s ++ b',' ∷ p) ≡ false
    → cut_address fuel [] (s ++ b',' ∷ p) ≡ some (s, some p)
unfolding cut_address judge_comma
cut_address-first zero s p h k q = absurd (omega arith)
cut_address-first (suc fuel) s p h k q =
    rw (strchr_first b',' s p k, strchr-free b'"' (s ++ b',' ∷ p) q, cut_address) refl

cut_address-last :
    (fuel : ℕ) (s : Bytes)
    → 0 < fuel
    → contains b',' s ≡ false
    → cut_address fuel [] s ≡ some (s, none)
unfolding cut_address
cut_address-last zero s h k = absurd (omega arith)
cut_address-last (suc fuel) s h k = rw (strchr-free b',' s k, cut_address) refl

lead-free :
    (c : ℕ) (lead adr : Bytes)
    → is_wsp c ≡ false
    → is_common c ≡ false
    → all is_wsp lead ≡ true
    → IsAddress adr
    → contains c (lead ++ adr) ≡ false
lead-free c lead adr w n h k =
    rw (contains_append c lead adr, all-wsp-free c lead w h, all-free c adr n k.1) refl

find_from-listed :
    (fuel : ℕ) (lead adr : Bytes) (adrs : List Bytes)
    → length adrs < fuel
    → all is_wsp lead ≡ true
    → All IsAddress (adr ∷ adrs)
    → find_from fuel (lead ++ listed (adr ∷ adrs)) ≡ some (adr ∷ adrs)
unfolding find_from contains
find_from-listed zero lead adr adrs l h k = absurd (omega arith)
find_from-listed (suc fuel) lead adr [] l h (k, ks) =
    rw
      (
        cut_address-last (2 * length (lead ++ adr) + 1) (lead ++ adr) (omega arith)
            (lead-free b',' lead adr refl refl h k),
        find_from,
      )
      (cons_address-adr lead adr [] h k)
find_from-listed (suc fuel) lead adr (other ∷ adrs) l h (k, ks) =
    let rest : Bytes = b' ' ∷ listed (other ∷ adrs) in
    let quotes : contains b'"' ((lead ++ adr) ++ b',' ∷ rest) ≡ false =
      rw (contains_append b'"' (lead ++ adr) (b',' ∷ rest), lead-free b'"' lead adr refl refl h k)
        (free_of_quotes (other ∷ adrs) ks) in
    rw
      (
        sym (append_assoc lead adr (b',' ∷ rest)),
        cut_address-first (2 * length ((lead ++ adr) ++ b',' ∷ rest) + 1) (lead ++ adr) rest
            (omega arith) (lead-free b',' lead adr refl refl h k) quotes,
        find_from-listed fuel (b' ' ∷ []) other adrs (omega arith) refl ks,
        find_from,
        listed,
      )
      (cons_address-adr lead adr (other ∷ adrs) h k)

length-listed : (adrs : List Bytes) → All IsAddress adrs → length adrs ≤ length (listed adrs)
length-listed [] h = omega arith
length-listed ([] ∷ []) (h, k) = absurd (cc)
length-listed ((c ∷ adr) ∷ []) (h, k) = omega arith
length-listed (adr ∷ (other ∷ adrs)) (h, k) =
    omega (
      arith,
      length-append adr (b',' ∷ b' ' ∷ listed (other ∷ adrs)),
      length-listed (other ∷ adrs) k,
    )

-- Addresses without quotation marks, comments, brackets and blanks that are listed with a comma and a
-- blank between them are all found, in their order.
find_email_adr-listed :
    (adrs : List Bytes) → All IsAddress adrs → find_email_adr (listed adrs) ≡ some adrs
unfolding find_email_adr find_from cut_address
find_email_adr-listed [] h = refl
find_email_adr-listed (adr ∷ adrs) h =
    find_from-listed (length (listed (adr ∷ adrs)) + 1) [] adr adrs
      (omega (arith, length-listed (adr ∷ adrs) h)) refl h

copy_quoted-closed :
    (name : Bytes) (d : ℕ) (r : Bytes)
    → contains b'"' name ≡ false
    → contains b'\\' name ≡ false
    → copy_quoted (name ++ b'"' ∷ d ∷ r) ≡ (name, d ∷ r)
unfolding copy_quoted contains
copy_quoted-closed [] d r h k = refl
copy_quoted-closed (c ∷ []) d r h k =
    let q : (c == b'"') ≡ false = ground arith in
    let b : (c == b'\\') ≡ false = ground arith in rw (q, b) refl
copy_quoted-closed (c ∷ (e ∷ name)) d r h k =
    let q : (c == b'"') ≡ false = ground arith in
    let b : (c == b'\\') ≡ false = ground arith in
    rw (q, b, copy_quoted-closed (e ∷ name) d r (ground arith) (ground arith)) refl

skin_loop-adr :
    (fuel : ℕ) (adr done out : Bytes)
    → length adr < fuel
    → all is_common adr ≡ true
    → skin_loop fuel done out 1 false (adr ++ b'>' ∷ []) ≡ some (done ++ (out ++ adr))
unfolding skin_loop skip_to_comma
skin_loop-adr zero adr done out h k = absurd (omega arith)
skin_loop-adr (suc zero) [] done out h k = rw (append-nil out) refl
skin_loop-adr (suc (suc fuel)) [] done out h k = rw (append-nil out) refl
skin_loop-adr (suc fuel) (c ∷ adr) done out h k =
    let paren : (c == b'(') ≡ false = ground arith in
    let quote : (c == b'"') ≡ false = ground arith in
    let blank : (c == b' ') ≡ false = ground arith in
    let angle : (c == b'<') ≡ false = ground arith in
    let close : (c == b'>') ≡ false = ground arith in
    let comma : (c == b',') ≡ false = ground arith in
    rw
      (
        paren,
        quote,
        blank,
        angle,
        close,
        comma,
        skin_loop-adr fuel adr done (out ++ c ∷ []) (omega arith)
            (&&-right (is_common c) (all is_common adr) k),
        append_assoc out (c ∷ []) adr,
      )
      refl

||-true : (b : Bool) → (b || true) ≡ true
||-true true = refl
||-true false = refl

||-last : (a b c : Bool) → c ≡ true → (a || b || c) ≡ true
||-last true b c h = refl
||-last false true c h = refl
||-last false false c h = h

-- Of a name in quotation marks, which may hold blanks, commas and brackets, and an address in angle
-- brackets, the address is left.
skin-named :
    (name adr : Bytes)
    → contains b'"' name ≡ false
    → contains b'\\' name ≡ false
    → all is_common adr ≡ true
    → skin (b'"' ∷ (name ++ b'"' ∷ b' ' ∷ b'<' ∷ (adr ++ b'>' ∷ []))) ≡ some adr
unfolding skin skin_loop contains strip_prefix
skin-named name adr h k a =
    let tail : Bytes = b' ' ∷ b'<' ∷ (adr ++ b'>' ∷ []) in
    let text : Bytes = b'"' ∷ (name ++ b'"' ∷ tail) in
    let blank : contains b' ' text ≡ true =
      rw (contains_append b' ' name (b'"' ∷ tail)) (||-true (contains b' ' name)) in
    let fuel : length (name ++ b'"' ∷ tail) ≡ suc (suc (suc (length name + length adr + 1))) =
      omega (arith, length-append name (b'"' ∷ tail), length-append adr (b'>' ∷ [])) in
    rw
      (
        ||-last (contains b'(' text) (contains b'<' text) (contains b' ' text) blank,
        fuel,
        copy_quoted-closed name b' ' (b'<' ∷ (adr ++ b'>' ∷ [])) h k,
      )
      (skin_loop-adr (suc (length name + length adr + 1)) adr [] [] (omega arith) a)

-- ===== src/Texts/Opening.antt =====
-- The file of a list text, `open_text_file` and `open_text` of src/prepstdreply.c.
use mlmmj.Base.{
  ℕ, suc, ◌+◌, ◌-◌, ◌≡◌, refl, sym, Bool, Option, none, some, List, [], ◌∷◌, ◌++◌, append_assoc,
  arith, if◌then◌else◌, Bytes, length, take, length-append, take-append,
}

-- Where texts are: in text/ of the list, or in default/ or en/ of the installed texts.
pub data Place : Type 0 where
  of_list of_default of_en : Place

unfoldable pub open_text_file : (Place → Bytes → Bool) → Bytes → Option (Place × Bytes)
open_text_file opens filename =
    if opens of_list filename
    then some (of_list, filename)
    else if opens of_default filename
    then some (of_default, filename)
    else if opens of_en filename
    then some (of_en, filename)
    else none

abbrev pub or_empty : Option Bytes → Bytes
or_empty none = []
or_empty (some s) = s

abbrev pub or_else {ℓ} : {A : Type ℓ} → Option A → Option A → Option A
or_else none later = later
or_else (some a) later = some a

-- The parts of the name are cut off at its end one after the other.
unfoldable pub open_text :
    (Place → Bytes → Bool)
    → Bytes
    → Option Bytes
    → Option Bytes
    → Option Bytes
    → Bytes
    → Option (Place × Bytes)
unfolding open_text_file
open_text opens purpose action reason type compat =
    let filename : Bytes =
      purpose ++ b'-' ∷ (or_empty action ++ b'-' ∷ (or_empty reason ++ b'-' ∷ or_empty type)) in
    let len3 : ℕ = length filename - length (or_empty type) - 1 in
    let len2 : ℕ = len3 - length (or_empty reason) - 1 in
    let len1 : ℕ = len2 - length (or_empty action) - 1 in
    or_else (open_text_file opens filename) (
      or_else (open_text_file opens (take len3 filename)) (
        or_else (open_text_file opens (take len2 filename))
          (or_else (open_text_file opens (take len1 filename)) (open_text_file opens compat))))

-- The first of some names that there is a file of.
unfoldable first_open : (Place → Bytes → Bool) → List Bytes → Option (Place × Bytes)
unfolding open_text_file
first_open opens [] = none
first_open opens (name ∷ names) = or_else (open_text_file opens name) (first_open opens names)

-- The names of a text, from the one that says most to the one of older versions.
abbrev text_names : Bytes → Bytes → Bytes → Bytes → Bytes → List Bytes
text_names purpose action reason type compat =
    (purpose ++ b'-' ∷ (action ++ b'-' ∷ (reason ++ b'-' ∷ type)))
    ∷ (purpose ++ b'-' ∷ (action ++ b'-' ∷ reason))
    ∷ (purpose ++ b'-' ∷ action)
    ∷ purpose
    ∷ compat
    ∷ []

take_front : (whole a b : Bytes) (n : ℕ) → whole ≡ a ++ b → n ≡ length a → take n whole ≡ a
take_front whole a b n e h = rw (e, h) (take-append a b)

or_else-none {ℓ} : {A : Type ℓ} (o : Option A) → or_else o none ≡ o
or_else-none none = refl
or_else-none (some a) = refl

-- The text that is opened is the first of its names that there is a file of, in the list or among the
-- installed texts: a part that is not given is empty.
open_text-first_open :
    (opens : Place → Bytes → Bool) (purpose : Bytes) (action reason type : Option Bytes)
    (compat : Bytes)
    → open_text opens purpose action reason type compat
      ≡ first_open opens
          (text_names purpose (or_empty action) (or_empty reason) (or_empty type) compat)
unfolding open_text first_open
open_text-first_open opens p action reason type compat =
    let a : Bytes = or_empty action in
    let r : Bytes = or_empty reason in
    let t : Bytes = or_empty type in
    let whole : Bytes = p ++ b'-' ∷ (a ++ b'-' ∷ (r ++ b'-' ∷ t)) in
    let n3 : Bytes = p ++ b'-' ∷ (a ++ b'-' ∷ r) in
    let n2 : Bytes = p ++ b'-' ∷ a in
    let e3 : whole ≡ n3 ++ b'-' ∷ t = simp append_assoc in
    let e2 : whole ≡ n2 ++ b'-' ∷ (r ++ b'-' ∷ t) = simp append_assoc in
    let l3 : length whole ≡ length n3 + suc (length t) = rw e3 (length-append n3 (b'-' ∷ t)) in
    let l2 : length n3 ≡ length n2 + suc (length r) =
      rw (sym (append_assoc p (b'-' ∷ a) (b'-' ∷ r))) (length-append n2 (b'-' ∷ r)) in
    let l1 : length n2 ≡ length p + suc (length a) = length-append p (b'-' ∷ a) in
    let t3 : take (length whole - length t - 1) whole ≡ n3 =
      take_front whole n3 (b'-' ∷ t) _ e3 (omega arith) in
    let t2 : take (length whole - length t - 1 - length r - 1) whole ≡ n2 =
      take_front whole n2 (b'-' ∷ (r ++ b'-' ∷ t)) _ e2 (omega arith) in
    let t1 : take (length whole - length t - 1 - length r - 1 - length a - 1) whole ≡ p =
      take_front whole p (b'-' ∷ (a ++ b'-' ∷ (r ++ b'-' ∷ t))) _ refl (omega arith) in
    rw (t3, t2, t1, or_else-none (open_text_file opens compat)) refl

-- ===== src/EmailAddress/Ending.antt =====
-- The addresses of a header, src/find_email_adr.c: every loop comes to its end.
use mlmmj.Base.{
  ℕ, zero, suc, ◌+◌, ◌*◌, ◌≤◌, ◌<◌, ◌≡◌, refl, sym, ap, ◌⊎◌, inl, inr, Bool, true, false, not, ◌&&◌,
  ◌||◌, Option, none, some, List, [], ◌∷◌, ◌++◌, arith, ◌==◌, if◌then◌else◌, Bool-cases,
  Option-cases, Bytes, codes, length, take, drop, length-append,
}
use mlmmj.CString.{peek, strip_prefix, strchr, contains}
use mlmmj.CString.Search.{strchr-parts}
use mlmmj.EmailAddress.Splitting.{
  judge_comma, Comma, cut, keep, erase, cut_address, cons_address, find_from, find_email_adr,
  skip_wsp,
}
use mlmmj.EmailAddress.{
  skip_comment, skin_loop, copy_quoted, plain, skip_to_comma, skip_spaces, skin,
}
use mlmmj.EmailAddress.Shorter.{
  length-skip_comment, length-copy_quoted, length-skip_to_comma, length-skip_spaces,
  length-strip_prefix,
}

abbrev pub Returns {ℓ} : {A : Type ℓ} → Option A → Type ℓ
Returns {A = A} o = (a : A) × (o ≡ some a)

skin_loop-Returns :
    (fuel : ℕ) (done out : Bytes) (gotlt : ℕ) (lastsp : Bool) (cp : Bytes)
    → length cp ≤ fuel
    → Returns (skin_loop fuel done out gotlt lastsp cp)
unfolding skin_loop
skin_loop-Returns fuel done out gotlt lastsp [] h = (_, refl)
skin_loop-Returns zero done out gotlt lastsp (c ∷ cp) h = absurd (omega arith)
skin_loop-Returns (suc fuel) done out gotlt lastsp (c ∷ cp) h =
    let again : (done out : Bytes) (gotlt : ℕ) (lastsp : Bool) (p : Bytes)
        → length p ≤ length cp
        → Returns (skin_loop fuel done out gotlt lastsp p) =
      λ done out gotlt lastsp p k. skin_loop-Returns fuel done out gotlt lastsp p (omega arith) in
    elim (Bool-cases (c == b'(')) [
      | inl e ↦ rw e (again done out gotlt false (skip_comment 1 cp) (length-skip_comment cp 1))
      | inr e ↦ elim (Bool-cases (c == b'"')) [
        | inl q ↦ rw (e, q) (again done _ gotlt false (copy_quoted cp).1 (length-copy_quoted cp))
        | inr q ↦ elim (Bool-cases (c == b' ')) [
          | inl s ↦
              rw (e, q, s)
                (elim (Option-cases (strip_prefix (codes "at ") cp)) [
                  | inr (r, k) ↦
                      rw k (again done _ gotlt lastsp r (length-strip_prefix (codes "at ") cp r k))
                  | inl k ↦ rw k (elim (Option-cases (strip_prefix (codes "@ ") cp)) [
                    | inr (r, m) ↦
                        rw m (again done _ gotlt lastsp r (length-strip_prefix (codes "@ ") cp r m))
                    | inl m ↦ rw m (again done out gotlt true cp (omega arith))
                  ])
                ])
          | inr s ↦ elim (Bool-cases (c == b'<')) [
            | inl l ↦ rw (e, q, s, l) (again done [] (gotlt + 1) false cp (omega arith))
            | inr l ↦ elim (Bool-cases (c == b'>' && not (gotlt == 0))) [
              | inl g ↦
                  rw (e, q, s, l, g)
                    (again done out 0 false (skip_to_comma plain cp)
                      (length-skip_to_comma plain cp))
              | inr g ↦
                  rw (e, q, s, l, g)
                    (elim (Bool-cases (c == b',' && peek cp == b' ' && gotlt == 0)) [
                      | inl m ↦
                          rw m (again _ [] gotlt false (skip_spaces cp) (length-skip_spaces cp))
                      | inr m ↦ rw m (again done _ gotlt false cp (omega arith))
                    ])
            ]
          ]
        ]
      ]
    ]

-- Whatever the text, enough fuel is given to strip an address.
pub skin-Returns : (name : Bytes) → Returns (skin name)
unfolding skin
skin-Returns name =
    elim (Bool-cases (contains b'(' name || contains b'<' name || contains b' ' name)) [
      | inl e ↦ rw e (skin_loop-Returns (length name) [] [] 0 false name (omega arith))
      | inr e ↦ rw e (name, refl)
    ]

abbrev quotes : Bytes → ℕ
quotes [] = 0
quotes (c ∷ s) = if c == b'"' then suc (quotes s) else quotes s

quotes_append : (a b : Bytes) → quotes (a ++ b) ≡ quotes a + quotes b
quotes_append [] b = omega arith
quotes_append (c ∷ a) b = ground (arith, quotes_append a b)

quotes-length : (s : Bytes) → quotes s ≤ length s
quotes-length [] = omega arith
quotes-length (c ∷ s) = ground (arith, quotes-length s)

take-drop : (n : ℕ) (s : Bytes) → take n s ++ drop n s ≡ s
take-drop zero s = refl
take-drop (suc n) [] = refl
take-drop (suc n) (c ∷ s) = ap (λ r. c ∷ r) (take-drop n s)

length-drop : (n : ℕ) (s : Bytes) → length s ≡ n + length (drop n s) ⊎ length (drop n s) ≡ 0
length-drop zero s = inl (omega arith)
length-drop (suc n) [] = inr refl
length-drop (suc n) (c ∷ s) = ground (arith, length-drop n s)

-- A mark that is erased leaves the text as long, with one mark less.
judge_comma-erase :
    (text : Bytes) (p : ℕ) (text' : Bytes)
    → judge_comma text p ≡ erase text'
    → (length text' ≡ length text) × (suc (quotes text') ≡ quotes text)
unfolding judge_comma
judge_comma-erase text p text' h = elim (Option-cases (strchr b'"' text)) [
  | inl k ↦ absurd (ground arith)
  | inr ((u, v), k) ↦ elim (Option-cases (strchr b'"' v)) [
    | inl m ↦ absurd (ground arith)
    | inr ((w, x), m) ↦
        let erased : text' ≡ u ++ b'"' ∷ (w ++ b' ' ∷ x) = ground arith in
        rw (erased, (strchr-parts b'"' text u v k).0, (strchr-parts b'"' v w x m).0)
          (
            omega (
              arith,
              length-append u (b'"' ∷ (w ++ b' ' ∷ x)),
              length-append u (b'"' ∷ (w ++ b'"' ∷ x)),
              length-append w (b' ' ∷ x),
              length-append w (b'"' ∷ x),
            ),
            omega (
              arith,
              quotes_append u (b'"' ∷ (w ++ b' ' ∷ x)),
              quotes_append u (b'"' ∷ (w ++ b'"' ∷ x)),
              quotes_append w (b' ' ∷ x),
              quotes_append w (b'"' ∷ x),
            ),
          )
  ]
]

Comma-cases : (j : Comma) → (j ≡ cut) ⊎ ((j ≡ keep) ⊎ ((text : Bytes) × (j ≡ erase text)))
Comma-cases cut = inl refl
Comma-cases keep = inr (inl refl)
Comma-cases (erase text) = inr (inr (text, refl))

-- With its comma, what is behind an address.
abbrev left_over : Option Bytes → ℕ
left_over none = 0
left_over (some p) = suc (length p)

-- Each comma that is judged again costs one unit of fuel, and there are at most as many of these as
-- bytes and quotation marks. What is left behind is shorter.
pub cut_address-Returns :
    (fuel : ℕ) (pre post : Bytes)
    → quotes pre + quotes post + length post < fuel
    → (cur : Bytes) × (o : Option Bytes) × (cut_address fuel pre post ≡ some (cur, o))
      × (left_over o ≤ length post)
unfolding cut_address
cut_address-Returns zero pre post h = absurd (omega arith)
cut_address-Returns (suc fuel) pre post h = elim (Option-cases (strchr b',' post)) [
  | inl k ↦ rw (k, cut_address) (_, none, refl, omega arith)
  | inr ((a, b), k) ↦
      let text : Bytes = (pre ++ a) ++ b',' ∷ b in
      let n : ℕ = length (pre ++ a) in
      let parts : post ≡ a ++ b',' ∷ b = (strchr-parts b',' post a b k).0 in
      let marks : quotes post ≡ quotes a + quotes b = rw parts (quotes_append a (b',' ∷ b)) in
      let long : length post ≡ length a + suc (length b) = rw parts (length-append a (b',' ∷ b)) in
      elim (Comma-cases (judge_comma text n)) [
        | inl j ↦ rw (k, j, cut_address) (_, some b, refl, omega arith)
        | inr (inl j) ↦
            let (cur, o, e, l) =
              cut_address-Returns fuel ((pre ++ a) ++ b' ' ∷ []) b
                (omega (arith, quotes_append (pre ++ a) (b' ' ∷ []), quotes_append pre a)) in
            rw (k, j, cut_address) (cur, o, e, omega arith)
        | inr (inr (text', j)) ↦
            let (same, less) = judge_comma-erase text n text' j in
            let behind : length (drop n text') ≤ suc (length b) =
              omega (arith, length-drop n text', length-append (pre ++ a) (b',' ∷ b)) in
            let (cur, o, e, l) = cut_address-Returns fuel (take n text') (drop n text') (
              omega (
                arith,
                quotes_append (take n text') (drop n text'),
                ap quotes (take-drop n text'),
                quotes_append (pre ++ a) (b',' ∷ b),
                quotes_append pre a,
              )) in
            rw (k, j, cut_address) (cur, o, e, omega arith)
      ]
]

List-cases {ℓ} : {A : Type ℓ} (s : List A) → (s ≡ []) ⊎ ((c : A) × (r : List A) × (s ≡ c ∷ r))
List-cases [] = inl refl
List-cases (c ∷ r) = inr (c, r, refl)

cons_address-Returns :
    (cur : Bytes) (rest : Option (List Bytes)) → Returns rest → Returns (cons_address cur rest)
cons_address-Returns cur rest (adrs, e) = elim (List-cases (skip_wsp cur)) [
  | inl k ↦ rw (k, e, cons_address) (adrs, refl)
  | inr (c, cur', k) ↦
      let (adr, s) = skin-Returns (c ∷ cur') in rw (k, s, e, cons_address) (_, refl)
]

find_from-Returns : (fuel : ℕ) (p : Bytes) → length p < fuel → Returns (find_from fuel p)
unfolding find_from
find_from-Returns zero p h = absurd (omega arith)
find_from-Returns (suc fuel) p h =
    let (cur, o, e, l) =
      cut_address-Returns (2 * length p + 1) [] p (omega (arith, quotes-length p)) in
    elim (Option-cases o) [
      | inl k ↦ rw (e, k, find_from) (cons_address-Returns cur (some []) ([], refl))
      | inr (q, k) ↦
          rw (e, k, find_from)
            (cons_address-Returns cur (find_from fuel q) (
              find_from-Returns fuel q
                (let m : suc (length q) ≤ length p = rw (ap left_over (sym k)) l in omega arith)))
    ]

-- Whatever the header, its addresses are found: every loop comes to its end.
pub find_email_adr-Returns : (str : Bytes) → Returns (find_email_adr str)
unfolding find_email_adr
find_email_adr-Returns str = find_from-Returns (length str + 1) str (omega arith)

-- ===== src/Process/Extension.antt =====
-- What mlmmj-process makes of the extension that the mail server gives it, src/mlmmj-process.c.
use mlmmj.Base.{
  ◌≡◌, refl, ◌∙◌, inl, inr, Bool, true, false, ◌&&◌, ◌||◌, Option, none, some, List, [], ◌∷◌,
  if◌then◌else◌, Bool-cases, Bytes, any,
}
use mlmmj.CString.{case_eq}
use mlmmj.ControlFiles.{ctrlvalues}
use mlmmj.Process.{Site}
use mlmmj.Process.Addressing.{
  find_recipient, Emails, match_listaddrs, search_delivered, search_tocc, search_all, start_search,
  address_extension, from_environment, nonempty_extra,
}
use mlmmj.Recipient.{addrmatch}

-- Whether the address is one of the list's, without an extension.
abbrev pub is_listaddr : List Bytes → Bytes → Bool
is_listaddr [] addr = false
is_listaddr (listaddr ∷ listaddrs) addr = case_eq listaddr addr || is_listaddr listaddrs addr

if-same {ℓ} : {A : Type ℓ} (b : Bool) (x : A) → (if b then x else x) ≡ x
if-same true x = refl
if-same false x = refl

||-true : (b : Bool) → (b || true) ≡ true
||-true true = refl
||-true false = refl

match_listaddrs-bare :
    (listaddrs : List Bytes) (addr : Bytes)
    → match_listaddrs listaddrs none addr ≡ (if is_listaddr listaddrs addr then some none else none)
unfolding match_listaddrs addrmatch
match_listaddrs-bare [] addr = refl
match_listaddrs-bare (listaddr ∷ listaddrs) addr = elim (Bool-cases (case_eq listaddr addr)) [
  | inl e ↦ rw (e, match_listaddrs, addrmatch) refl
  | inr e ↦ rw (e, match_listaddrs, addrmatch) (match_listaddrs-bare listaddrs addr)
]

search_delivered-bare :
    (listaddrs dtemails : List Bytes) (r : Option Bytes)
    → search_delivered listaddrs dtemails
        (record { recipextra = r; searching = false; listdelim = none })
      ≡ record {
        recipextra = if any (is_listaddr listaddrs) dtemails then none else r;
        searching = false;
        listdelim = none;
      }
unfolding search_delivered
search_delivered-bare listaddrs [] r = refl
search_delivered-bare listaddrs (addr ∷ dtemails) r =
    elim (Bool-cases (is_listaddr listaddrs addr)) [
      | inl e ↦
          let hit : match_listaddrs listaddrs none addr ≡ some none =
            rw (match_listaddrs-bare listaddrs addr, e) refl in
          rw (hit, e, search_delivered)
            (search_delivered-bare listaddrs dtemails none
              ∙ rw (if-same {A = Option Bytes} (any (is_listaddr listaddrs) dtemails) none) refl)
      | inr e ↦
          let miss : match_listaddrs listaddrs none addr ≡ none =
            rw (match_listaddrs-bare listaddrs addr, e) refl in
          rw (miss, e, search_delivered) (search_delivered-bare listaddrs dtemails r)
    ]

search_tocc-bare :
    (listaddrs emails : List Bytes) (r : Option Bytes) (intocc : Bool)
    → search_tocc listaddrs none emails r intocc ≡ (
      if any (is_listaddr listaddrs) emails then none else r,
      any (is_listaddr listaddrs) emails || intocc,
    )
unfolding search_tocc
search_tocc-bare listaddrs [] r intocc = refl
search_tocc-bare listaddrs (addr ∷ emails) r intocc =
    elim (Bool-cases (is_listaddr listaddrs addr)) [
      | inl e ↦
          let hit : match_listaddrs listaddrs none addr ≡ some none =
            rw (match_listaddrs-bare listaddrs addr, e) refl in
          rw (hit, e, search_tocc)
            (search_tocc-bare listaddrs emails none true
              ∙ rw
                  (
                    if-same {A = Option Bytes} (any (is_listaddr listaddrs) emails) none,
                    ||-true (any (is_listaddr listaddrs) emails),
                  )
                  refl)
      | inr e ↦
          let miss : match_listaddrs listaddrs none addr ≡ none =
            rw (match_listaddrs-bare listaddrs addr, e) refl in
          rw (miss, e, search_tocc) (search_tocc-bare listaddrs emails r intocc)
    ]

-- Where the mail server gives the extension, it counts, unless the list looks at To: and Cc: and its
-- plain address is in Delivered-To:, To: or Cc:. The mail is then taken for a post.
pub find_recipient-environment :
    (S : Site) (addrtocc : Bool) (m : Emails) (extra : Bytes) (listaddrs : List Bytes)
    → address_extension S ≡ from_environment extra
    → ctrlvalues (S.control "listaddress") ≡ some listaddrs
    → find_recipient S addrtocc m
      ≡ some (
        nonempty_extra (
            if addrtocc
              && (any (is_listaddr listaddrs) m.dtemails
                  || any (is_listaddr listaddrs) m.toemails
                  || any (is_listaddr listaddrs) m.ccemails)
            then none
            else some extra),
        addrtocc
            && (any (is_listaddr listaddrs) m.toemails || any (is_listaddr listaddrs) m.ccemails),
      )
unfolding find_recipient start_search search_all
find_recipient-environment S false m extra listaddrs h k = rw (h, find_recipient, start_search) refl
find_recipient-environment S true m extra listaddrs h k =
    let delivered : Bool = any (is_listaddr listaddrs) m.dtemails in
    let r : Option Bytes = if delivered then none else some extra in
    let start = search_delivered-bare listaddrs m.dtemails (some extra) in
    let to = search_tocc-bare listaddrs m.toemails r false in
    let cc = search_tocc-bare listaddrs m.ccemails r false in
    elim (Bool-cases delivered) [
      | inl d ↦ elim (Bool-cases (any (is_listaddr listaddrs) m.toemails)) [
        | inl e ↦ rw (h, find_recipient, start_search, k, search_all, start, to, d, e) refl
        | inr e ↦
            rw (h, find_recipient, start_search, k, search_all, start, to, e, cc, d)
              (ends (any (is_listaddr listaddrs) m.ccemails))
      ]
      | inr d ↦ elim (Bool-cases (any (is_listaddr listaddrs) m.toemails)) [
        | inl e ↦ rw (h, find_recipient, start_search, k, search_all, start, to, d, e) refl
        | inr e ↦
            rw (h, find_recipient, start_search, k, search_all, start, to, e, cc, d)
              (other (any (is_listaddr listaddrs) m.ccemails))
      ]
    ]
  where
    Result : Type 0
    Result = Option (Option Bytes × Bool)

    ends :
        (b : Bool)
        → ◌≡◌ {A = Result}
            (some (nonempty_extra (if b then none else none), b || false))
            (some (nonempty_extra none, b))
    ends true = refl
    ends false = refl

    other :
        (b : Bool)
        → ◌≡◌ {A = Result}
            (some (nonempty_extra (if b then none else some extra), b || false))
            (some (nonempty_extra (if b then none else some extra), b))
    other true = refl
    other false = refl

-- ===== src/Addresses/Portions.antt =====
-- No address is lost or read twice between two portions, src/getaddrsfromfd.c.
use mlmmj.Subscribers.{Opened}
use mlmmj.Base.{
  ℕ, zero, suc, ◌+◌, ◌≡◌, refl, sym, ap, ◌∙◌, inl, inr, Bool, true, false, some, List, [], ◌∷◌,
  ◌++◌, append_assoc, append-nil, arith, ◌==◌, if◌then◌else◌, Bool-cases, Bytes, drop, is_empty,
  all,
}
use mlmmj.Subscribers.Lines.{lines_from, lines}
use mlmmj.Addresses.{take_addrs, Portion, getaddrsfromfd}

-- The lines of `next` after the line `cur` are those that were added to `strs`, and then those
-- behind the offset.
pub record IsPortion (content : Bytes) (strs : List Bytes) (all : List Bytes) (r : List Bytes × ℕ)
    : Type 0 where
  pub front : List Bytes
  pub added : r.0 ≡ strs ++ front
  pub kept : all ≡ front ++ lines (drop r.1 content)

drop_next :
    (content : Bytes) (offset c : ℕ) (next : Bytes)
    → drop offset content ≡ c ∷ next
    → drop (offset + 1) content ≡ next
drop_next [] zero c next h = absurd (cc)
drop_next [] (suc offset) c next h = absurd (cc)
drop_next (x ∷ content) zero c next h = cc
drop_next (x ∷ content) (suc offset) c next h =
    rw (suc_plus offset) (drop_next content offset c next h)
  where
    suc_plus : (n : ℕ) → suc n + 1 ≡ suc (n + 1)
    suc_plus n = omega arith

-- A line that ends at the offset, and what is read behind it.
line-IsPortion :
    (content : Bytes) (strs : List Bytes) (line : Bytes) (offset : ℕ) (next : Bytes) (stop : Bool)
    (r : List Bytes × ℕ) (all : List Bytes)
    → all ≡ line ∷ lines next
    → drop offset content ≡ next
    → IsPortion content (strs ++ line ∷ []) (lines next) r
    → IsPortion content strs all (if stop then (strs ++ line ∷ [], offset) else r)
line-IsPortion content strs line offset next true r all e h p = record {
  front = line ∷ [];
  added = refl;
  kept = e ∙ ap (λ x. line ∷ lines x) (sym h);
}
line-IsPortion content strs line offset next false r all e h p = record {
  front = line ∷ p.front;
  added = p.added ∙ append_assoc strs (line ∷ []) p.front;
  kept = e ∙ ap (λ x. line ∷ x) p.kept;
}

last_line : (cur : Bytes) (c : ℕ) → lines_from (cur ++ c ∷ []) [] ≡ (cur ++ c ∷ []) ∷ []
last_line [] c = refl
last_line (x ∷ cur) c = refl

take_addrs-IsPortion :
    (max : ℕ) (content : Bytes) (strs : List Bytes) (cur : Bytes) (offset : ℕ) (next : Bytes)
    → drop offset content ≡ next
    → (next ≡ [] → cur ≡ [])
    → IsPortion content strs (lines_from cur next) (take_addrs max strs cur offset next)
unfolding take_addrs
take_addrs-IsPortion max content strs cur offset [] h k = record {
  front = [];
  added = sym (append-nil strs);
  kept = rw (h, k refl) refl;
}
take_addrs-IsPortion max content strs cur offset (c ∷ []) h k =
    let after = drop_next content offset c [] h in
    elim (Bool-cases (c == b'\n')) [
      | inl e ↦ rw e (
          line-IsPortion content strs cur (offset + 1) [] _ _ _ refl after (
            take_addrs-IsPortion max content (strs ++ cur ∷ []) [] (offset + 1) [] after
              (λ n. refl)))
      | inr e ↦ rw e (
          line-IsPortion content strs (cur ++ c ∷ []) (offset + 1) [] _ _ _ (last_line cur c) after
            (take_addrs-IsPortion max content (strs ++ (cur ++ c ∷ []) ∷ []) [] (offset + 1) []
              after (λ n. refl)))
    ]
take_addrs-IsPortion max content strs cur offset (c ∷ d ∷ next) h k =
    let after = drop_next content offset c (d ∷ next) h in
    elim (Bool-cases (c == b'\n')) [
      | inl e ↦ rw e (
          line-IsPortion content strs cur (offset + 1) (d ∷ next) _ _ _ refl after (
            take_addrs-IsPortion max content (strs ++ cur ∷ []) [] (offset + 1) (d ∷ next) after
              (λ n. refl)))
      | inr e ↦ rw e (
          take_addrs-IsPortion max content strs (cur ++ c ∷ []) (offset + 1) (d ∷ next) after
            (λ n. absurd (cc)))
    ]

-- Between them, the addresses that one call adds and the lines behind the offset that it leaves are
-- the lines that were behind the offset before, in their order.
pub getaddrsfromfd-lines :
    (fd : Opened) (offset max : ℕ) (strs : List Bytes) (p : Portion)
    → getaddrsfromfd fd offset max strs ≡ some p
    → (front : List Bytes) × (p.strs ≡ strs ++ front)
      × (lines (drop offset fd.content) ≡ front ++ lines (drop p.offset fd.content))
unfolding getaddrsfromfd
getaddrsfromfd-lines fd offset max strs p h = elim (Bool-cases fd.stat_ok) [
  | inr e ↦ absurd (ground arith)
  | inl e ↦ elim (Bool-cases (is_empty fd.content)) [
    | inl m ↦
        let strs_are : p.strs ≡ strs = ground arith in
        let offset_is : p.offset ≡ offset = ground arith in
        ([], strs_are ∙ sym (append-nil strs), ap (λ o. lines (drop o fd.content)) (sym offset_is))
    | inr m ↦ elim (Bool-cases fd.mmap_ok) [
      | inr n ↦ absurd (ground arith)
      | inl n ↦
          let r = take_addrs max strs [] offset (drop offset fd.content) in
          let portion : IsPortion fd.content strs (lines (drop offset fd.content)) r =
            take_addrs-IsPortion max fd.content strs [] offset (drop offset fd.content) refl
              (λ n. refl) in
          let strs_are : p.strs ≡ r.0 = ground arith in
          let offset_is : p.offset ≡ r.1 = ground arith in
          (
            portion.front,
            strs_are ∙ portion.added,
            portion.kept ∙ ap (λ o. portion.front ++ lines (drop o fd.content)) (sym offset_is),
          )
    ]
  ]
]

-- ===== src/Subscribers/Unsubscribe.antt =====
-- The loop of `unsubscribe_type` of src/mlmmj-unsub.c, read as membership in lists of lines.
use mlmmj.Base.{
  ◌≤◌, ◌≡◌, refl, ◌∙◌, ◌⊎◌, inl, inr, Bool, true, false, none, some, List, [], ◌∷◌, arith,
  if◌then◌else◌, Bool-cases, Option-cases, Bytes, length, All, sym, ap, ◌++◌, append_assoc,
  append-nil, All-append, any, map, ◌||◌, codes,
}
use mlmmj.CString.{case_eq, str_eq}
use mlmmj.Subscribers.{Opened, Calls, Entry, is_dots, is_subbed_in}
use mlmmj.Subscribers.Lines.{unlines, lines}
use mlmmj.Subscribers.Membership.{
  is_member, IsPlain, members, is_member-append, is_subbed_in-members,
}
use mlmmj.Subscribers.Erase.{IsLine, erase_first, IsWorking, unsubscribe-erase_first, lines-unlines}
use mlmmj.Subscribers.Append.{IsSound, IsWhole}
use mlmmj.Subscribers.Change.{
  ssize_max, write_tail, write_parts, unsubscribe, with_content, replace_entry, unsubscribe_entry,
  new_entry, new_name, left_behind, opens_new, opened_names, survivors, unsubscribe_from, calm,
  unsubscribe_dir,
}

case_eq_euclid : (a b l : Bytes) → case_eq a l ≡ true → case_eq b l ≡ true → case_eq a b ≡ true
unfolding case_eq
case_eq_euclid [] [] l h k = refl
case_eq_euclid [] (y ∷ b) [] h k = absurd (cc)
case_eq_euclid [] (y ∷ b) (z ∷ l) h k = absurd (cc)
case_eq_euclid (x ∷ a) [] [] h k = absurd (cc)
case_eq_euclid (x ∷ a) [] (z ∷ l) h k = absurd (cc)
case_eq_euclid (x ∷ a) (y ∷ b) [] h k = absurd (cc)
case_eq_euclid (x ∷ a) (y ∷ b) (z ∷ l) h k = ground (arith, case_eq_euclid a b l)

-- Taking out a line that is `a` leaves every other address where it was.
is_member-erase_first :
    (a b : Bytes) (ls : List Bytes)
    → case_eq a b ≡ false
    → is_member b (erase_first a ls) ≡ is_member b ls
is_member-erase_first a b [] h = refl
is_member-erase_first a b (l ∷ ls) h =
    ground (arith, is_member-erase_first a b ls, case_eq_euclid a b l)

pub All-erase_first : (a : Bytes) (ls : List Bytes) → All IsLine ls → All IsLine (erase_first a ls)
All-erase_first a [] h = tt
All-erase_first a (l ∷ ls) h = elim (Bool-cases (case_eq a l)) [
  | inl same ↦ rw same h.1
  | inr other ↦ rw other (h.0, All-erase_first a ls h.1)
]

-- A failing call makes `unsubscribe` give -1, or has no effect on what it writes.
unsubscribe_calls :
    (f : Opened) (calls : Calls) (a : Bytes)
    → (unsubscribe f calls a ≡ none) ⊎ (unsubscribe f calls a ≡ unsubscribe f calm a)
unfolding unsubscribe write_parts write_tail
unsubscribe_calls f calls a = ground arith

calm-IsWorking : IsWorking calm
calm-IsWorking = record { stat = refl; mmap = refl; first = refl; second = refl }

-- An entry that the loop looks into, of a file that a `ssize_t` can measure.
pub record IsSized (e : Entry) : Type 0 where
  pub sound : IsSound e
  pub fits : length e.file.content ≤ ssize_max

pub IsSized-IsPlain : (dir : List Entry) → All IsSized dir → All IsPlain dir
IsSized-IsPlain [] h = tt
IsSized-IsPlain (e ∷ dir) h = (h.0.sound.plain, IsSized-IsPlain dir h.1)

-- What `unsubscribe` gives for a sound entry.
unsubscribe-cases :
    (e : Entry) (a : Bytes) (s : IsSized e)
    → (unsubscribe e.file e.calls a ≡ none)
      ⊎ (unsubscribe e.file e.calls a ≡ some (unlines (erase_first a s.sound.whole.parts)))
unsubscribe-cases e a s = elim (unsubscribe_calls e.file e.calls a) [
  | inl h ↦ inl h
  | inr h ↦ cases (is_member a s.sound.whole.parts) refl h
]
  where
    w : IsWhole e.file.content
    w = s.sound.whole

    law :
        unsubscribe e.file calm a
        ≡ (if is_member a w.parts then some (unlines (erase_first a w.parts)) else none)
    law =
        unsubscribe-erase_first e.file calm a w.parts s.sound.plain.readable calm-IsWorking w.each
          w.whole s.fits

    cases :
        (t : Bool)
        → is_member a w.parts ≡ t
        → unsubscribe e.file e.calls a ≡ unsubscribe e.file calm a
        → (unsubscribe e.file e.calls a ≡ none)
          ⊎ (unsubscribe e.file e.calls a ≡ some (unlines (erase_first a w.parts)))
    cases true m h = inr (h ∙ law ∙ rw m refl)
    cases false m h = inl (h ∙ law ∙ rw m refl)

or_false : (x : Bool) → (x || false) ≡ x
or_false true = refl
or_false false = refl

or_same : (x : Bool) → (x || x) ≡ x
or_same true = refl
or_same false = refl

or-left : (x y : Bool) → (x || y) ≡ false → x ≡ false
or-left false y h = refl
or-left true y h = absurd (cc)

or-right : (x y : Bool) → (x || y) ≡ false → y ≡ false
or-right false y h = h
or-right true y h = absurd (cc)

more-none :
    (t : Bool) (name : Bytes) (e : Entry) (names : List Bytes)
    → str_eq name (new_name e) ≡ false
    → any (str_eq name) names ≡ false
    → any (str_eq name) (if t then new_name e ∷ names else names) ≡ false
more-none true name e names h k = rw h k
more-none false name e names h k = k

-- One round keeps the entry, removes it, gives its file the bytes that `unsubscribe` wrote, or keeps it with a new
-- file that is empty or has those bytes.
data Round (a : Bytes) (e : Entry) (r : List Entry) : Type 0 where
  kept : r ≡ e ∷ [] → Round a e r
  emptied : unsubscribe e.file e.calls a ≡ some [] → r ≡ [] → Round a e r
  written :
      (s : Bytes) → unsubscribe e.file e.calls a ≡ some s → r ≡ with_content e s ∷ [] → Round a e r
  left :
      (s : Bytes)
      → (s ≡ []) ⊎ (unsubscribe e.file e.calls a ≡ some s)
      → r ≡ left_behind e s
      → Round a e r

unsubscribe_entry-none :
    (a : Bytes) (e : Entry)
    → unsubscribe e.file e.calls a ≡ none
    → (unsubscribe_entry a e ≡ e ∷ []) ⊎ (unsubscribe_entry a e ≡ left_behind e [])
unfolding unsubscribe_entry
unsubscribe_entry-none a e h = ground arith

unsubscribe_entry-some :
    (a : Bytes) (e : Entry) (s : Bytes)
    → unsubscribe e.file e.calls a ≡ some s
    → (unsubscribe_entry a e ≡ e ∷ [])
      ⊎ ((unsubscribe_entry a e ≡ left_behind e []) ⊎ (unsubscribe_entry a e ≡ replace_entry e s))
unfolding unsubscribe_entry
unsubscribe_entry-some a e s h = ground arith

replace_entry-Round :
    (a : Bytes) (e : Entry) (s : Bytes) (r : List Entry)
    → unsubscribe e.file e.calls a ≡ some s
    → r ≡ replace_entry e s
    → Round a e r
unfolding replace_entry
replace_entry-Round a e [] r h k = elim (Bool-cases e.calls.unlinks) [
  | inl gone ↦ emptied h (ground arith)
  | inr stays ↦ left [] (inl refl) (ground arith)
]
replace_entry-Round a e (c ∷ s) r h k = elim (Bool-cases e.calls.renames) [
  | inl moved ↦ written (c ∷ s) h (ground arith)
  | inr stays ↦ left (c ∷ s) (inr h) (ground arith)
]

unsubscribe_entry-Round : (a : Bytes) (e : Entry) → Round a e (unsubscribe_entry a e)
unsubscribe_entry-Round a e = elim (Option-cases (unsubscribe e.file e.calls a)) [
  | inl h ↦ elim (unsubscribe_entry-none a e h) [ inl k ↦ kept k | inr k ↦ left [] (inl refl) k ]
  | inr (s, h) ↦ elim (unsubscribe_entry-some a e s h) [
    | inl k ↦ kept k
    | inr (inl k) ↦ left [] (inl refl) k
    | inr (inr k) ↦ replace_entry-Round a e s _ h k
  ]
]

with_content-IsPlain : (e : Entry) (s : Bytes) → IsPlain e → IsPlain (with_content e s)
with_content-IsPlain e s h = record {
  name = h.name;
  opens = h.opens;
  readable = record { stat = h.readable.stat; file = h.readable.file; mmap = h.readable.mmap };
}

module _ (a b : Bytes) (other : case_eq a b ≡ false) (e : Entry) (s : IsSized e) where
  written-others :
      (out : Bytes)
      → unsubscribe e.file e.calls a ≡ some out
      → is_member b (lines out) ≡ is_member b (lines e.file.content)
  written-others out h = elim (unsubscribe-cases e a s) [
    | inl k ↦ absurd (cc)
    | inr k ↦
        let w = s.sound.whole in
        let same : out ≡ unlines (erase_first a w.parts) = cc in
        rw (same, w.whole)
          (ap (is_member b)
              (lines-unlines (erase_first a w.parts) (All-erase_first a w.parts w.each))
            ∙ is_member-erase_first a b w.parts other
            ∙ ap (is_member b) (sym (lines-unlines w.parts w.each)))
  ]

  left-others :
      (out : Bytes)
      → (out ≡ []) ⊎ (unsubscribe e.file e.calls a ≡ some out)
      → (is_member b (lines e.file.content) || is_member b (lines out))
        ≡ is_member b (lines e.file.content)
  left-others out (inl h) = rw h (or_false (is_member b (lines e.file.content)))
  left-others out (inr h) = rw (written-others out h) (or_same (is_member b (lines e.file.content)))

  members_one : (e' : Entry) → is_member b (members (e' ∷ [])) ≡ is_member b (lines e'.file.content)
  members_one e' = rw append-nil refl

  -- What a round leaves has the other addresses that were there, whichever new files are lost later.
  Round-others :
      (names : List Bytes) (r : List Entry)
      → any (str_eq e.name) names ≡ false
      → Round a e r
      → is_member b (members (survivors names r)) ≡ is_member b (lines e.file.content)
  unfolding survivors
  Round-others names r free (kept h) = rw (h, survivors, free) (members_one e)
  Round-others names r free (emptied u h) = rw h (written-others [] u)
  Round-others names r free (written out u h) =
      rw (h, survivors, free) (members_one (with_content e out) ∙ written-others out u)
  Round-others names r free (left out u h) = elim (Bool-cases (any (str_eq (new_name e)) names)) [
    | inl lost ↦ rw (h, survivors, free, lost) (members_one e)
    | inr stays ↦
        rw (h, survivors, free, stays)
          (is_member-append b (lines e.file.content) (lines out ++ [])
            ∙ rw (append-nil (lines out)) (left-others out u))
  ]

-- The name of a new file is not that of a directory.
is_dots-new_name : (name : Bytes) → is_dots (name ++ codes ".new") ≡ false
unfolding str_eq
is_dots-new_name [] = refl
is_dots-new_name (c ∷ []) = ground arith
is_dots-new_name (c ∷ d ∷ []) = ground arith
is_dots-new_name (c ∷ d ∷ f ∷ name) = ground arith

new_entry-IsPlain : (e : Entry) (s : Bytes) → IsPlain (new_entry (new_name e) s)
new_entry-IsPlain e s = record {
  name = is_dots-new_name e.name;
  opens = refl;
  readable = record { stat = refl; file = refl; mmap = refl };
}

Round-IsPlain : {a : Bytes} (e : Entry) (r : List Entry) → IsPlain e → Round a e r → All IsPlain r
Round-IsPlain e r p (kept h) = rw h (p, tt)
Round-IsPlain e r p (emptied u h) = rw h tt
Round-IsPlain e r p (written out u h) = rw h (with_content-IsPlain e out p, tt)
Round-IsPlain e r p (left out u h) = rw h (p, (new_entry-IsPlain e out, tt))

survivors-All :
    (P : Entry → Type 0) (names : List Bytes) (dir : List Entry)
    → All P dir
    → All P (survivors names dir)
unfolding survivors
survivors-All P names [] h = tt
survivors-All P names (e ∷ dir) (h, hs) = elim (Bool-cases (any (str_eq e.name) names)) [
  | inl lost ↦ rw (survivors, lost) (survivors-All P names dir hs)
  | inr stays ↦ rw (survivors, stays) (h, survivors-All P names dir hs)
]

unsubscribe_from-IsPlain :
    (a : Bytes) (names : List Bytes) (dir : List Entry)
    → All IsSized dir
    → All IsPlain (unsubscribe_from a names dir)
unfolding unsubscribe_from
unsubscribe_from-IsPlain a names [] h = tt
unsubscribe_from-IsPlain a names (e ∷ dir) (h, hs) =
    let here = survivors (opened_names a dir) (unsubscribe_entry a e) in
    let more = if opens_new a e then new_name e ∷ names else names in
    elim (Bool-cases (any (str_eq e.name) names)) [
      | inl lost ↦ rw (unsubscribe_from, lost) (unsubscribe_from-IsPlain a names dir hs)
      | inr stays ↦
          rw (unsubscribe_from, stays)
            (All-append IsPlain here (unsubscribe_from a more dir)
              (survivors-All IsPlain (opened_names a dir) (unsubscribe_entry a e)
                (Round-IsPlain e _ h.sound.plain (unsubscribe_entry-Round a e)))
              (unsubscribe_from-IsPlain a more dir hs))
    ]

pub unsubscribe_dir-IsPlain :
    (a : Bytes) (dir : List Entry) → All IsSized dir → All IsPlain (unsubscribe_dir a dir)
unfolding unsubscribe_dir
unsubscribe_dir-IsPlain a dir h = unsubscribe_from-IsPlain a [] dir h

pub members-append : (d d' : List Entry) → members (d ++ d') ≡ members d ++ members d'
members-append [] d' = refl
members-append (e ∷ d) d' = rw (members-append d d') (simp append_assoc)

-- The names of the new files of a directory.
abbrev pub new_names : List Entry → List Bytes
new_names dir = map new_name dir

-- No entry stands where another one has its new file.
abbrev pub IsApart : List Entry → Type 0
IsApart dir = All (λ e. any (str_eq e.name) (new_names dir) ≡ false) dir

-- A name that is none of `whole` is none of these.
abbrev Within : List Bytes → List Bytes → Type 0
Within names whole =
    (name : Bytes) → any (str_eq name) whole ≡ false → any (str_eq name) names ≡ false

opened_names-Within : (a : Bytes) (dir : List Entry) → Within (opened_names a dir) (new_names dir)
opened_names-Within a [] name h = refl
opened_names-Within a (e ∷ dir) name h = ground (arith, opened_names-Within a dir name)

module _ (a b : Bytes) (other : case_eq a b ≡ false) (whole : List Bytes) where
  unsubscribe_from-members :
      (names : List Bytes) (dir : List Entry)
      → All IsSized dir
      → All (λ e. any (str_eq e.name) whole ≡ false) dir
      → Within (new_names dir) whole
      → Within names whole
      → is_member b (members (unsubscribe_from a names dir)) ≡ is_member b (members dir)
  unfolding unsubscribe_from
  unsubscribe_from-members names [] h apart new old = refl
  unsubscribe_from-members names (e ∷ dir) (h, hs) (free, frees) new old =
      let more : List Bytes = if opens_new a e then new_name e ∷ names else names in
      let here : List Entry = survivors (opened_names a dir) (unsubscribe_entry a e) in
      let later : Within (new_names dir) whole = λ name k. or-right _ _ (new name k) in
      let its : (name : Bytes)
          → any (str_eq name) whole ≡ false
          → str_eq name (new_name e) ≡ false =
        λ name k. or-left _ _ (new name k) in
      let kept_old : Within more whole =
        λ name k. more-none (opens_new a e) name e names (its name k) (old name k) in
      let opened_free : any (str_eq e.name) (opened_names a dir) ≡ false =
        opened_names-Within a dir e.name (later e.name free) in
      rw (unsubscribe_from, old e.name free, members-append here (unsubscribe_from a more dir))
        (is_member-append b (members here) (members (unsubscribe_from a more dir))
          ∙ rw
              (
                Round-others a b other e h (opened_names a dir) (unsubscribe_entry a e) opened_free
                    (unsubscribe_entry-Round a e),
                unsubscribe_from-members more dir hs frees later kept_old,
              )
              (sym (is_member-append b (lines e.file.content) (members dir))))

-- Unsubscribing an address never changes whether another one is subbed, whichever of the calls that open, lock, map,
-- write, rename and remove the files of the addresses fail on the way, in a directory of readable files of whole
-- lines where no file stands in the place of another one's new file. A new file that could not be filled is taken to
-- be removed.
pub unsubscribe_dir-other :
    (a b : Bytes)
    → case_eq a b ≡ false
    → (dir : List Entry) → All IsSized dir
    → IsApart dir
    → is_subbed_in (some (unsubscribe_dir a dir)) b ≡ is_subbed_in (some dir) b
unfolding unsubscribe_dir
unsubscribe_dir-other a b other dir h apart =
    is_subbed_in-members b (unsubscribe_dir a dir) (unsubscribe_dir-IsPlain a dir h)
    ∙ ap some (
        unsubscribe_from-members a b other (new_names dir) [] dir h apart (λ name k. k)
          (λ name k. refl))
    ∙ sym (is_subbed_in-members b dir (IsSized-IsPlain dir h))

-- ===== src/Subscribers/Removal.antt =====
-- What becomes of the address itself in `unsubscribe` and `unsubscribe_type` of src/mlmmj-unsub.c, and
-- where the code fails to take it out.
use mlmmj.Base.{
  ℕ, ◌+◌, ◌≤◌, ◌≡◌, refl, ap, ◌∙◌, ◌≢◌, Bool, true, false, none, some, List, [], ◌∷◌, ◌++◌,
  append_assoc, append-nil, arith, if◌then◌else◌, Bytes, length, is_empty, length-append, All, any,
  Bool-cases, inl, inr,
}
use mlmmj.CString.{case_eq, contains, str_eq}
use mlmmj.Subscribers.{Opened, find_subscriber, Calls, Entry, found, is_subbed_in}
use mlmmj.Subscribers.Lines.{
  lines, lines_from, unlines, find_line, IsReadable, find_subscriber-lines,
}
use mlmmj.Subscribers.Membership.{
  is_member, IsPlain, members, is_member-append, found-find_subscriber, is_subbed_in-members,
}
use mlmmj.Subscribers.Erase.{
  IsLine, lines_from-append, lines-unlines, erase_first, case_eq-length, IsWorking,
  unsubscribe-erase_first,
}
use mlmmj.Subscribers.Append.{IsWhole}
use mlmmj.Subscribers.Unsubscribe.{
  IsSized, All-erase_first, members-append, unsubscribe_dir-IsPlain,
}
use mlmmj.Subscribers.Change.{
  ssize_max, write_tail, write_parts, unsubscribe, with_content, unsubscribe_entry, unsubscribe_dir,
  calm, new_name, opens_new, replace_entry, opened_names, survivors, unsubscribe_from,
}

-- How many of the lines are the address.
abbrev pub occurrences : Bytes → List Bytes → ℕ
occurrences a [] = 0
occurrences a (l ∷ ls) = (if case_eq a l then 1 else 0) + occurrences a ls

occurrences_zero : (a : Bytes) (ls : List Bytes) → occurrences a ls ≡ 0 → is_member a ls ≡ false
occurrences_zero a [] h = refl
occurrences_zero a (l ∷ ls) h = ground (arith, occurrences_zero a ls)

erase_first_once :
    (a : Bytes) (ls : List Bytes) → occurrences a ls ≤ 1 → is_member a (erase_first a ls) ≡ false
erase_first_once a [] h = refl
erase_first_once a (l ∷ ls) h = ground (arith, erase_first_once a ls, occurrences_zero a ls)

-- An entry on which every system call works, and whose file has the address at most once.
pub record IsCalm (a : Bytes) (e : Entry) : Type 0 where
  pub sized : IsSized e
  pub calls : e.calls ≡ calm
  pub once : occurrences a sized.sound.whole.parts ≤ 1

unsubscribe_entry-calm :
    (a : Bytes) (e : Entry) (s : Bytes)
    → IsPlain e
    → found (find_subscriber e.file a) ≡ true
    → e.calls ≡ calm
    → unsubscribe e.file e.calls a ≡ some s
    → unsubscribe_entry a e ≡ (if is_empty s then [] else with_content e s ∷ [])
unfolding unsubscribe_entry opens_new replace_entry
unsubscribe_entry-calm a e [] p f c h = ground (arith, p.name, p.opens)
unsubscribe_entry-calm a e (x ∷ s) p f c h = ground (arith, p.name, p.opens)

-- What is not found needs no round.
unsubscribe_entry-absent :
    (a : Bytes) (e : Entry)
    → found (find_subscriber e.file a) ≡ false
    → unsubscribe_entry a e ≡ e ∷ []
unfolding unsubscribe_entry opens_new
unsubscribe_entry-absent a e h = ground arith

calm-IsWorking : (calls : Calls) → calls ≡ calm → IsWorking calls
calm-IsWorking calls h = record {
  stat = ap (λ (c : Calls). c.stat_again) h;
  mmap = ap (λ (c : Calls). c.mmap_again) h;
  first = ap (λ (c : Calls). c.first_write) h;
  second = ap (λ (c : Calls). c.second_write) h;
}

members-written :
    (a : Bytes) (e : Entry) (s : Bytes)
    → is_member a (lines s) ≡ false
    → is_member a (members (if is_empty s then [] else with_content e s ∷ [])) ≡ false
members-written a e [] h = refl
members-written a e (c ∷ s) h = rw append-nil h

unsubscribe_entry_self :
    (a : Bytes) (e : Entry) → IsCalm a e → is_member a (members (unsubscribe_entry a e)) ≡ false
unsubscribe_entry_self a e h = go (is_member a w.parts) refl
  where
    w : IsWhole e.file.content
    w = h.sized.sound.whole

    read : lines e.file.content ≡ w.parts
    read = ap lines w.whole ∙ lines-unlines w.parts w.each

    law :
        unsubscribe e.file e.calls a
        ≡ (if is_member a w.parts then some (unlines (erase_first a w.parts)) else none)
    law =
        unsubscribe-erase_first e.file e.calls a w.parts h.sized.sound.plain.readable
          (calm-IsWorking e.calls h.calls) w.each w.whole h.sized.fits

    go :
        (t : Bool) → is_member a w.parts ≡ t → is_member a (members (unsubscribe_entry a e)) ≡ false
    go false m =
        rw
          (
            unsubscribe_entry-absent a e (
                found-find_subscriber e.file a h.sized.sound.plain.readable
                ∙ ap (is_member a) read
                ∙ m),
            append-nil,
          )
          (rw read m)
    go true m =
        rw
          (unsubscribe_entry-calm a e (unlines (erase_first a w.parts)) h.sized.sound.plain
            (found-find_subscriber e.file a h.sized.sound.plain.readable
              ∙ ap (is_member a) read
              ∙ m)
            h.calls (law ∙ rw m refl))
          (members-written a e (unlines (erase_first a w.parts)) (
            ap (is_member a)
              (lines-unlines (erase_first a w.parts) (All-erase_first a w.parts w.each))
            ∙ erase_first_once a w.parts h.once))

survivors_absent :
    (a : Bytes) (names : List Bytes) (dir : List Entry)
    → is_member a (members dir) ≡ false
    → is_member a (members (survivors names dir)) ≡ false
unfolding survivors
survivors_absent a names [] h = refl
survivors_absent a names (e ∷ dir) h = ground (
  arith,
  is_member-append a (lines e.file.content) (members dir),
  is_member-append a (lines e.file.content) (members (survivors names dir)),
  survivors_absent a names dir,
)

-- What the loop leaves when every system call works: readable files without the address.
unsubscribe_from_self :
    (a : Bytes) (names : List Bytes) (dir : List Entry)
    → All (IsCalm a) dir
    → is_member a (members (unsubscribe_from a names dir)) ≡ false
unfolding unsubscribe_from
unsubscribe_from_self a names [] h = refl
unsubscribe_from_self a names (e ∷ dir) (h, hs) =
    let more : List Bytes = if opens_new a e then new_name e ∷ names else names in
    let here : List Entry = survivors (opened_names a dir) (unsubscribe_entry a e) in
    let gone : is_member a (members here) ≡ false =
      survivors_absent a (opened_names a dir) (unsubscribe_entry a e)
        (unsubscribe_entry_self a e h) in
    elim (Bool-cases (any (str_eq e.name) names)) [
      | inl lost ↦ rw (unsubscribe_from, lost) (unsubscribe_from_self a names dir hs)
      | inr stays ↦
          rw (unsubscribe_from, stays, members-append here (unsubscribe_from a more dir))
            (is_member-append a (members here) (members (unsubscribe_from a more dir))
              ∙ rw (gone, unsubscribe_from_self a more dir hs) refl)
    ]

unsubscribe_dir_self :
    (a : Bytes) (dir : List Entry)
    → All (IsCalm a) dir
    → is_member a (members (unsubscribe_dir a dir)) ≡ false
unfolding unsubscribe_dir
unsubscribe_dir_self a dir h = unsubscribe_from_self a [] dir h

All-sized : (a : Bytes) (dir : List Entry) → All (IsCalm a) dir → All IsSized dir
All-sized a [] h = tt
All-sized a (e ∷ dir) h = (h.0.sized, All-sized a dir h.1)

-- Where every system call works, the files have whole lines and each has the address at most once,
-- unsubscribing an address leaves it unsubbed in the directory.
pub is_subbed_in-unsubscribe_dir :
    (a : Bytes) (dir : List Entry)
    → All (IsCalm a) dir
    → is_subbed_in (some (unsubscribe_dir a dir)) a ≡ some false
is_subbed_in-unsubscribe_dir a dir h =
    is_subbed_in-members a (unsubscribe_dir a dir)
      (unsubscribe_dir-IsPlain a dir (All-sized a dir h))
    ∙ ap some (unsubscribe_dir_self a dir h)

lines_from-last :
    (pre : Bytes) (l : Bytes) → IsLine l → (pre ++ l) ≢ [] → lines_from pre l ≡ (pre ++ l) ∷ []
unfolding contains
lines_from-last [] [] h ne = absurd (ne refl)
lines_from-last (p ∷ pre) [] h ne = rw append-nil refl
lines_from-last pre (c ∷ l) h ne =
    ground (arith, lines_from-last (pre ++ c ∷ []) l, append_assoc pre (c ∷ []) l)

lines-unterminated :
    (ls : List Bytes) (l : Bytes)
    → All IsLine ls
    → IsLine l
    → l ≢ []
    → lines (unlines ls ++ l) ≡ ls ++ l ∷ []
lines-unterminated [] l h k ne = lines_from-last [] l k ne
lines-unterminated (x ∷ ls) l h k ne =
    rw append_assoc
      (lines_from-append [] x (unlines ls ++ l) h.0 ∙ ap (◌∷◌ x) (lines-unterminated ls l h.1 k ne))

find_line-last :
    (a : Bytes) (off : ℕ) (ls : List Bytes) (l : Bytes)
    → is_member a ls ≡ false
    → case_eq a l ≡ true
    → find_line a off (ls ++ l ∷ []) ≡ some (off + length (unlines ls))
unfolding find_line
find_line-last a off [] l h k = ground arith
find_line-last a off (x ∷ ls) l h k =
    ground (arith, find_line-last a (off + length x + 1) ls l, length-append x (b'\n' ∷ unlines ls))

write_parts_unterminated :
    (s : Bytes) (n o : ℕ) (calls : Calls)
    → length s ≡ o + n
    → length s ≤ ssize_max
    → write_parts s (n + 1) o calls ≡ none
unfolding write_parts write_tail
write_parts_unterminated s n o calls h fits = ground arith

unsubscribe_at_any :
    (f : Opened) (calls : Calls) (a : Bytes) (o : ℕ)
    → find_subscriber f a ≡ some o
    → write_parts f.content (length a + 1) o calls ≡ none
    → unsubscribe f calls a ≡ none
unfolding unsubscribe
unsubscribe_at_any f calls a o h k = ground arith

-- Where the address is the last line of a file and no newline follows it, `find_subscriber` finds it
-- and `unsubscribe` fails, whatever the system calls answer: the count of bytes left wraps around.
unsubscribe_unterminated :
    (f : Opened) (calls : Calls) (a l : Bytes) (ls : List Bytes)
    → IsReadable f
    → All IsLine ls
    → IsLine l
    → l ≢ []
    → is_member a ls ≡ false
    → case_eq a l ≡ true
    → f.content ≡ unlines ls ++ l
    → length f.content ≤ ssize_max
    → (find_subscriber f a ≡ some (length (unlines ls))) × (unsubscribe f calls a ≡ none)
unsubscribe_unterminated f calls a l ls ok each line ne fresh same e fits = (at, fails)
  where
    at : find_subscriber f a ≡ some (length (unlines ls))
    at =
        find_subscriber-lines f a ok
        ∙ ap (find_line a 0) (ap lines e ∙ lines-unterminated ls l each line ne)
        ∙ find_line-last a 0 ls l fresh same
        ∙ ap some (omega arith)

    fails : unsubscribe f calls a ≡ none
    fails = unsubscribe_at_any f calls a (length (unlines ls)) at (
        write_parts_unterminated f.content (length a) (length (unlines ls)) calls
          (ap length e ∙ omega (arith, length-append (unlines ls) l, case_eq-length a l same)) fits)

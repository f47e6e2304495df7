-- ===== src/Subscribers/Erase.antt =====
-- `unsubscribe` of src/mlmmj-unsub.c on lines: it takes out the first line that is the address.
use mlmmj.Base.{
  ℕ, ◌+◌, ◌≤◌, ◌≡◌, refl, ap, ◌∙◌, inl, inr, true, false, none, some, List, [], ◌∷◌, ◌++◌,
  append_assoc, append-nil, arith, if◌then◌else◌, Bool-cases, Bytes, length, All, take, drop,
  length-append, take-append, drop-append, take_all, Option-cases, sym, Option,
}
use mlmmj.CString.{case_eq, contains}
use mlmmj.Subscribers.{found, Opened, Calls, find_subscriber}
use mlmmj.Subscribers.Lines.{
  lines_from, lines, unlines, find_line, IsReadable, find_subscriber-lines,
}
use mlmmj.Subscribers.Membership.{is_member, found-find_line}
use mlmmj.Subscribers.Change.{ssize_max, write_parts, unsubscribe, sub_size, write_tail}

-- A line has no newline.
abbrev pub IsLine : Bytes → Type 0
IsLine l = contains b'\n' l ≡ false

pub lines_from-append :
    (pre l s : Bytes) → IsLine l → lines_from pre (l ++ b'\n' ∷ s) ≡ (pre ++ l) ∷ lines_from [] s
unfolding contains
lines_from-append pre [] s h = rw append-nil (refl)
lines_from-append pre (c ∷ l) s h =
    ground (arith, lines_from-append (pre ++ c ∷ []) l s, append_assoc pre (c ∷ []) l)

-- A file of whole lines is read back as those lines.
pub lines-unlines : (ls : List Bytes) → All IsLine ls → lines (unlines ls) ≡ ls
lines-unlines [] h = refl
lines-unlines (l ∷ ls) h =
    lines_from-append [] l (unlines ls) h.0 ∙ ap (◌∷◌ l) (lines-unlines ls h.1)

-- The lines without the first one that is the address.
abbrev pub erase_first : Bytes → List Bytes → List Bytes
erase_first address [] = []
erase_first address (l ∷ ls) = if case_eq address l then ls else l ∷ erase_first address ls

-- Where the address stands: the lines in front of it, the line, and those behind.
pub record Split (address : Bytes) (off : ℕ) (ls : List Bytes) (o : ℕ) : Type 0 where
  pub front : List Bytes
  pub line : Bytes
  pub behind : List Bytes
  pub whole : ls ≡ front ++ line ∷ behind
  pub offset : o ≡ off + length (unlines front)
  pub same_length : length address ≡ length line
  pub erased : erase_first address ls ≡ front ++ behind

pub case_eq-length : (a b : Bytes) → case_eq a b ≡ true → length a ≡ length b
unfolding case_eq
case_eq-length [] [] h = refl
case_eq-length (x ∷ a) (y ∷ b) h = ground (arith, case_eq-length a b)
case_eq-length _ _ h = cc

find_line-Split :
    (address : Bytes) (off : ℕ) (ls : List Bytes) (o : ℕ)
    → find_line address off ls ≡ some o
    → Split address off ls o
unfolding find_line
find_line-Split address off [] o h = absurd (cc)
find_line-Split address off (l ∷ ls) o h = elim (Bool-cases (case_eq address l)) [
  | inl same ↦ record {
    front = [];
    line = l;
    behind = ls;
    whole = refl;
    offset = ground arith;
    same_length = case_eq-length address l same;
    erased = rw same refl;
  }
  | inr differs ↦
      let s = find_line-Split address (off + length l + 1) ls o (rw differs at h) in
      record {
        front = l ∷ s.front;
        line = s.line;
        behind = s.behind;
        whole = ap (◌∷◌ l) s.whole;
        offset = omega (arith, s.offset, length-append l (b'\n' ∷ unlines s.front));
        same_length = s.same_length;
        erased = rw differs (ap (◌∷◌ l) s.erased);
      }
]

pub unlines-append : (ls ms : List Bytes) → unlines (ls ++ ms) ≡ unlines ls ++ unlines ms
unlines-append [] ms = refl
unlines-append (l ∷ ls) ms = simp (unlines-append ls ms, append_assoc)

-- The second system calls work as well.
pub record IsWorking (calls : Calls) : Type 0 where
  pub stat : calls.stat_again ≡ true
  pub mmap : calls.mmap_again ≡ true
  pub first : calls.first_write ≡ true
  pub second : calls.second_write ≡ true

take_at : (n : ℕ) (a b : Bytes) → n ≡ length a → take n (a ++ b) ≡ a
take_at n a b e = rw e (take-append a b)

drop_at : (n : ℕ) (a b : Bytes) → n ≡ length a → drop n (a ++ b) ≡ b
drop_at n a b e = rw e (drop-append a b)

-- The tail of a file is copied whole.
write_tail_lem :
    (done s a b : Bytes) (off count : ℕ)
    → s ≡ a ++ b
    → off ≡ length a
    → count ≡ length b
    → count ≤ ssize_max
    → write_tail done s off count true ≡ some (done ++ b)
unfolding write_tail
write_tail_lem done s a [] off count e ho hc hl = ground (arith, append-nil done)
write_tail_lem done s a (c ∷ b) off count e ho hc hl =
    rw e (ground (arith, drop_at off a (c ∷ b) ho, take_all (c ∷ b)))

module _ (front line behind : Bytes) where
  split_lines : front ++ (line ++ b'\n' ∷ behind) ≡ (front ++ (line ++ b'\n' ∷ [])) ++ behind
  split_lines = simp append_assoc

  length-split :
      (length (front ++ (line ++ b'\n' ∷ [])) ≡ length line + 1 + length front)
      × (length (front ++ (line ++ b'\n' ∷ behind))
          ≡ length line + 1 + length front + length behind)
  length-split = (
    omega (arith, length-append front (line ++ b'\n' ∷ []), length-append line (b'\n' ∷ [])),
    omega
        (arith, length-append front (line ++ b'\n' ∷ behind), length-append line (b'\n' ∷ behind)),
  )

  -- The `size_t` subtractions do not wrap.
  sub_size-split :
      length (front ++ (line ++ b'\n' ∷ behind)) ≤ ssize_max
      → sub_size
          (sub_size (length (front ++ (line ++ b'\n' ∷ behind))) (length line + 1))
          (length front)
        ≡ length behind
  sub_size-split fits = omega (arith, length-split.1)

  write_parts_lem :
      (calls : Calls)
      → IsWorking calls
      → length (front ++ (line ++ b'\n' ∷ behind)) ≤ ssize_max
      → write_parts (front ++ (line ++ b'\n' ∷ behind)) (length line + 1) (length front) calls
        ≡ some (front ++ behind)
  unfolding write_parts
  write_parts_lem calls ok fits =
      rw (sub_size-split fits, take_at (length front) front (line ++ b'\n' ∷ behind) refl)
        (ground (
          arith,
          ok.first,
          ok.second,
          write_tail_lem front (front ++ (line ++ b'\n' ∷ behind)) (front ++ (line ++ b'\n' ∷ []))
              behind (length line + 1 + length front) (length behind) split_lines
              (omega (arith, length-split.0)) refl (omega (arith, length-split.1)),
        ))

module _ (f : Opened) (calls : Calls) (address : Bytes) where
  unsubscribe_nowhere : find_subscriber f address ≡ none → unsubscribe f calls address ≡ none
  unfolding unsubscribe
  unsubscribe_nowhere h = ground arith

  unsubscribe_at :
      (o : ℕ)
      → IsWorking calls
      → find_subscriber f address ≡ some o
      → unsubscribe f calls address ≡ write_parts f.content (length address + 1) o calls
  unfolding unsubscribe
  unsubscribe_at o ok h = ground arith

unsubscribe-Split :
    (f : Opened) (calls : Calls) (address : Bytes) (ls : List Bytes) (o : ℕ)
    → IsWorking calls
    → f.content ≡ unlines ls
    → length f.content ≤ ssize_max
    → find_subscriber f address ≡ some o
    → Split address 0 ls o
    → unsubscribe f calls address ≡ some (unlines (erase_first address ls))
unsubscribe-Split f calls address ls o works e fits h s =
    unsubscribe_at f calls address o works h
    ∙ rw (s.same_length, offset, content)
        (write_parts_lem (unlines s.front) s.line (unlines s.behind) calls works
          (rw content at fits))
    ∙ ap some (sym (ap unlines s.erased ∙ unlines-append s.front s.behind))
  where
    content : f.content ≡ unlines s.front ++ (s.line ++ b'\n' ∷ unlines s.behind)
    content = e ∙ ap unlines s.whole ∙ unlines-append s.front (s.line ∷ s.behind)

    offset : o ≡ length (unlines s.front)
    offset = omega (arith, s.offset)

-- On a file of whole lines `unsubscribe` writes the file without the first line that is the address,
-- and gives -1 where there is none, if the system calls work.
pub unsubscribe-erase_first :
    (f : Opened) (calls : Calls) (address : Bytes) (ls : List Bytes)
    → IsReadable f
    → IsWorking calls
    → All IsLine ls
    → f.content ≡ unlines ls
    → length f.content ≤ ssize_max
    → unsubscribe f calls address
      ≡ (if is_member address ls then some (unlines (erase_first address ls)) else none)
unsubscribe-erase_first f calls address ls ok works each e fits =
    elim (Option-cases (find_line address 0 ls)) [
      | inl nowhere ↦
          rw (member none nowhere) (unsubscribe_nowhere f calls address (offset none nowhere))
      | inr (o, h) ↦ rw (member (some o) h) (
          unsubscribe-Split f calls address ls o works e fits (offset (some o) h)
            (find_line-Split address 0 ls o h))
    ]
  where
    offset : (r : Option ℕ) → find_line address 0 ls ≡ r → find_subscriber f address ≡ r
    offset r h =
        find_subscriber-lines f address ok
        ∙ ap (find_line address 0) (ap lines e ∙ lines-unlines ls each)
        ∙ h

    member : (r : Option ℕ) → find_line address 0 ls ≡ r → is_member address ls ≡ found r
    member r h = sym (found-find_line address 0 ls) ∙ ap found h

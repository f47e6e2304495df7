-- ===== src/Subscribers/Append.antt =====
-- `subscribe_type` of src/mlmmj-sub.c, read as membership in lists of lines.
use mlmmj.Base.{
  ◌≡◌, refl, sym, ap, ◌∙◌, inl, inr, true, false, ◌||◌, some, List, [], ◌∷◌, ◌++◌, arith,
  Bool-cases, Bytes, All, All-append,
}
use mlmmj.CString.{str_eq, case_eq}
use mlmmj.Subscribers.{Entry, is_dots, search_dir, is_subbed_in}
use mlmmj.Subscribers.Lines.{lines, unlines}
use mlmmj.Subscribers.Membership.{
  is_member, IsPlain, members, is_member-append, search_dir-members, is_subbed_in-members,
}
use mlmmj.Subscribers.Erase.{IsLine, lines-unlines, unlines-append}
use mlmmj.Subscribers.Change.{append_to, AppendCalls, chstr, subscribe_dir}

-- A file of whole lines, as mlmmj writes it.
pub record IsWhole (s : Bytes) : Type 0 where
  pub parts : List Bytes
  pub each : All IsLine parts
  pub whole : s ≡ unlines parts

-- An entry that the loops look into, and whose file has whole lines.
pub record IsSound (e : Entry) : Type 0 where
  pub plain : IsPlain e
  pub whole : IsWhole e.file.content

pub IsSound-IsPlain : (dir : List Entry) → All IsSound dir → All IsPlain dir
IsSound-IsPlain [] h = tt
IsSound-IsPlain (e ∷ dir) h = (h.0.plain, IsSound-IsPlain dir h.1)

unlines-concat :
    (ls : List Bytes) (a : Bytes) → unlines ls ++ (a ++ b'\n' ∷ []) ≡ unlines (ls ++ a ∷ [])
unlines-concat ls a = sym (unlines-append ls (a ∷ []))

lines-concat :
    (s a : Bytes) → IsWhole s → IsLine a → lines (s ++ (a ++ b'\n' ∷ [])) ≡ lines s ++ a ∷ []
lines-concat s a w h =
    rw (w.whole, unlines-concat w.parts a)
      (lines-unlines (w.parts ++ a ∷ []) (All-append IsLine w.parts (a ∷ []) w.each (h, tt))
        ∙ ap (λ ls. ls ++ a ∷ []) (sym (lines-unlines w.parts w.each)))

is_member-snoc :
    (b a : Bytes) (ls : List Bytes) → is_member b (ls ++ a ∷ []) ≡ (is_member b ls || case_eq b a)
is_member-snoc b a ls = rw (is_member-append b ls (a ∷ [])) (ground arith)

module _ (a : Bytes) (line : IsLine a) where
  append_to-members :
      (b name : Bytes) (dir : List Entry)
      → All IsSound dir
      → is_member b (members (append_to name (a ++ b'\n' ∷ []) dir))
        ≡ (is_member b (members dir) || case_eq b a)
  unfolding append_to
  append_to-members b name [] h =
      rw (lines-concat [] a (record { parts = []; each = tt; whole = refl }) line) (ground arith)
  append_to-members b name (e ∷ dir) h = elim (Bool-cases (str_eq e.name name)) [
    | inl same ↦
        rw (same, lines-concat e.file.content a h.0.whole line)
          (rw (is_member-append b (lines e.file.content ++ a ∷ []) (members dir)) (
            ground (
              arith,
              is_member-snoc b a (lines e.file.content),
              is_member-append b (lines e.file.content) (members dir),
            )))
    | inr other ↦ rw other (
        rw
          (is_member-append b (lines e.file.content)
            (members (append_to name (a ++ b'\n' ∷ []) dir)))
          (ground (
            arith,
            append_to-members b name dir h.1,
            is_member-append b (lines e.file.content) (members dir),
          )))
  ]

  append_to-IsPlain :
      (name : Bytes) (dir : List Entry)
      → is_dots name ≡ false
      → All IsPlain dir
      → All IsPlain (append_to name (a ++ b'\n' ∷ []) dir)
  unfolding append_to
  append_to-IsPlain name [] n h = (
    record { name = n; opens = refl; readable = record { stat = refl; file = refl; mmap = refl } },
    tt,
  )
  append_to-IsPlain name (e ∷ dir) n h = elim (Bool-cases (str_eq e.name name)) [
    | inl same ↦ rw same (
      record {
        name = h.0.name;
        opens = h.0.opens;
        readable = record {
          stat = h.0.readable.stat;
          file = h.0.readable.file;
          mmap = h.0.readable.mmap;
        };
      },
      h.1,
    )
    | inr other ↦ rw other (h.0, append_to-IsPlain name dir n h.1)
  ]

-- Every system call of `subscribe_type` works.
pub record Succeeds (calls : AppendCalls) : Type 0 where
  pub lock_opens : calls.lock_opens ≡ true
  pub lock_taken : calls.lock_taken ≡ true
  pub file_opens : calls.file_opens ≡ true
  pub file_locked : calls.file_locked ≡ true
  pub writes : calls.writes ≡ true

-- Subscribing an address, in a directory whose files all have whole lines and where every system
-- call works, makes exactly that address subbed beside those that were, but for the case of letters.
pub subscribe_dir-is_subbed_in :
    (calls : AppendCalls) (a : Bytes) (dir : List Entry)
    → Succeeds calls
    → IsLine a
    → is_dots (chstr a) ≡ false
    → All IsSound dir
    → (dir' : List Entry) × (subscribe_dir calls a dir ≡ some dir')
      × ((b : Bytes) → is_subbed_in (some dir') b ≡ some (search_dir dir b || case_eq b a))
unfolding subscribe_dir
subscribe_dir-is_subbed_in calls a dir ok line n h = (
  append_to (chstr a) (a ++ b'\n' ∷ []) dir,
  ground arith,
  λ b.
      is_subbed_in-members b _ (append_to-IsPlain a line (chstr a) dir n (IsSound-IsPlain dir h))
      ∙ ap some (
          append_to-members a line b (chstr a) dir h
          ∙ ap (λ t. t || case_eq b a) (sym (search_dir-members b dir (IsSound-IsPlain dir h)))),
)

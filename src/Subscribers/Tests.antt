-- ===== src/Subscribers/Tests.antt =====
-- Concrete runs of the subscriber functions, and the theorems at them.
use mlmmj.Base.{
  ◌≡◌, refl, true, false, ◌||◌, none, some, List, [], ◌∷◌, arith, if◌then◌else◌, Bytes, codes, All,
}
use mlmmj.CString.{str_eq, case_eq, case_eq_n, contains}
use mlmmj.Subscribers.{Opened, find_subscriber, Entry, is_dots, search_dir, is_subbed_in, is_subbed}
use mlmmj.Subscribers.Lines.{unlines, IsReadable}
use mlmmj.Subscribers.Membership.{is_member, IsPlain, members, subtype_of, is_subbed-members}
use mlmmj.Subscribers.Erase.{IsLine, erase_first, IsWorking, unsubscribe-erase_first}
use mlmmj.Subscribers.Append.{IsSound, Succeeds, subscribe_dir-is_subbed_in}
use mlmmj.Subscribers.Unsubscribe.{IsSized, unsubscribe_dir-other}
use mlmmj.Subscribers.Removal.{IsCalm, is_subbed_in-unsubscribe_dir}
use mlmmj.Subscribers.Change.{
  write_tail, write_parts, unsubscribe, unsubscribe_dir, AppendCalls, calm, subscribe_dir,
}

abbrev opened : Bytes → Opened
opened s = record { stat_ok = true; regular = true; mmap_ok = true; content = s }

abbrev ann : Bytes
ann = codes "ann@x.org"

abbrev bob : Bytes
bob = codes "Bob@x.org"

abbrev cid : Bytes
cid = codes "cid@x.org"

abbrev two_lines : List Bytes
two_lines = ann ∷ bob ∷ []

abbrev two : Opened
two = opened (unlines two_lines)

abbrev entry : Bytes → Bytes → Entry
entry name s = record { name = name; opens = true; file = opened s; calls = calm }

abbrev a_file : Entry
a_file = entry (codes "a") (unlines (ann ∷ []))

abbrev b_file : Entry
b_file = entry (codes "b") (unlines (bob ∷ []))

two-IsReadable : (s : Bytes) → IsReadable (opened s)
two-IsReadable s = record { stat = refl; file = refl; mmap = refl }

lines_ok : All IsLine two_lines
unfolding contains
lines_ok = (refl, (refl, tt))

plain : (name s : Bytes) → is_dots name ≡ false → IsPlain (entry name s)
plain name s h = record { name = h; opens = refl; readable = two-IsReadable s }

a_dots : is_dots (codes "a") ≡ false
unfolding str_eq
a_dots = refl

b_dots : is_dots (codes "b") ≡ false
unfolding str_eq
b_dots = refl

c_dots : is_dots (codes "c") ≡ false
unfolding str_eq
c_dots = refl

sound_a : IsSound a_file
unfolding contains
sound_a = record {
  plain = plain (codes "a") (unlines (ann ∷ [])) a_dots;
  whole = record { parts = ann ∷ []; each = (refl, tt); whole = refl };
}

sound_b : IsSound b_file
unfolding contains
sound_b = record {
  plain = plain (codes "b") (unlines (bob ∷ [])) b_dots;
  whole = record { parts = bob ∷ []; each = (refl, tt); whole = refl };
}

sized_a : IsSized a_file
sized_a = record { sound = sound_a; fits = omega arith }

sized_b : IsSized b_file
sized_b = record { sound = sound_b; fits = omega arith }

IsCalm-a : IsCalm bob a_file
unfolding sized_a sound_a case_eq
IsCalm-a = record { sized = sized_a; calls = refl; once = omega arith }

IsCalm-b : IsCalm bob b_file
unfolding sized_b sound_b case_eq
IsCalm-b = record { sized = sized_b; calls = refl; once = omega arith }

find_bob : find_subscriber two (codes "bOB@X.org") ≡ some 10
unfolding find_subscriber case_eq_n
find_bob = refl

unsubscribe-bob : unsubscribe two calm bob ≡ some (codes "ann@x.org\n")
unfolding unsubscribe write_parts write_tail find_subscriber case_eq_n
unsubscribe-bob = refl

is_subbed-members_example :
    is_subbed
      (record {
        subscribers = some (a_file ∷ []);
        digesters = some (a_file ∷ []);
        nomailsubs = some [];
      })
      ann
      true
    ≡ some (
        subtype_of
          (is_member ann (members (a_file ∷ [])))
          (is_member ann (members (a_file ∷ [])))
          false
          true)
is_subbed-members_example =
    is_subbed-members ann true (a_file ∷ []) (a_file ∷ []) [] (sound_a.plain, tt)
      (sound_a.plain, tt) tt

working : IsWorking calm
working = record { stat = refl; mmap = refl; first = refl; second = refl }

unsubscribe-erase_first_example :
    unsubscribe two calm bob
    ≡ (if is_member bob two_lines then some (unlines (erase_first bob two_lines)) else none)
unsubscribe-erase_first_example =
    unsubscribe-erase_first two calm bob two_lines (two-IsReadable two.content) working lines_ok
      refl (omega arith)

abbrev appends : AppendCalls
appends = record {
  lock_opens = true;
  lock_taken = true;
  file_opens = true;
  file_locked = true;
  writes = true;
}

succeeds : Succeeds appends
succeeds = record {
  lock_opens = refl;
  lock_taken = refl;
  file_opens = refl;
  file_locked = refl;
  writes = refl;
}

cid-IsLine : IsLine cid
unfolding contains
cid-IsLine = refl

subscribe_dir-is_subbed_in_example :
    (dir' : List Entry) × (subscribe_dir appends cid (a_file ∷ []) ≡ some dir')
    × ((b : Bytes)
        → is_subbed_in (some dir') b ≡ some (search_dir (a_file ∷ []) b || case_eq b cid))
subscribe_dir-is_subbed_in_example =
    subscribe_dir-is_subbed_in appends cid (a_file ∷ []) succeeds cid-IsLine c_dots (sound_a, tt)

ann_not_bob : case_eq bob ann ≡ false
unfolding case_eq
ann_not_bob = refl

unsubscribe_dir-other_example :
    is_subbed_in (some (unsubscribe_dir bob (a_file ∷ b_file ∷ []))) ann
    ≡ is_subbed_in (some (a_file ∷ b_file ∷ [])) ann
unfolding str_eq
unsubscribe_dir-other_example =
    unsubscribe_dir-other bob ann ann_not_bob (a_file ∷ b_file ∷ []) (sized_a, (sized_b, tt))
      (refl, (refl, tt))

is_subbed_in-unsubscribe_dir_example :
    is_subbed_in (some (unsubscribe_dir bob (a_file ∷ b_file ∷ []))) bob ≡ some false
is_subbed_in-unsubscribe_dir_example =
    is_subbed_in-unsubscribe_dir bob (a_file ∷ b_file ∷ []) (IsCalm-a, (IsCalm-b, tt))

ann-IsLine : IsLine ann
unfolding contains
ann-IsLine = refl

bob-IsLine : IsLine bob
unfolding contains
bob-IsLine = refl

ann_lines : is_member bob (ann ∷ []) ≡ false
unfolding case_eq
ann_lines = refl

bob_same : case_eq bob bob ≡ true
unfolding case_eq
bob_same = refl

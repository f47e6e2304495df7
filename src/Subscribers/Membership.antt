-- ===== src/Subscribers/Membership.antt =====
-- What `is_subbed_in` and `is_subbed` of src/subscriberfuncs.c answer, read as membership in lists of lines.
use mlmmj.Base.{
  ℕ, ◌+◌, ◌≡◌, refl, ap, Bool, true, false, ◌||◌, some, List, [], ◌∷◌, ◌++◌, arith, Bytes, length,
  All, any,
}
use mlmmj.CString.{case_eq}
use mlmmj.Subscribers.{
  Opened, find_subscriber, Entry, is_dots, found, search_dir, is_subbed_in, Subtype, sub_normal,
  sub_digest, sub_nomail, sub_both, sub_none, ListDir, is_subbed,
}
use mlmmj.Subscribers.Lines.{lines, find_line, IsReadable, find_subscriber-lines}

-- A file that the loop looks into, and whose system calls work.
pub record IsPlain (e : Entry) : Type 0 where
  pub name : is_dots e.name ≡ false
  pub opens : e.opens ≡ true
  pub readable : IsReadable e.file

-- All subscribers of a directory, in its order.
abbrev pub members : List Entry → List Bytes
members [] = []
members (e ∷ dir) = lines e.file.content ++ members dir

-- Is the address one of these lines, but for the case of letters?
abbrev pub is_member : Bytes → List Bytes → Bool
is_member address ls = any (case_eq address) ls

pub is_member-append :
    (address : Bytes) (ls ms : List Bytes)
    → is_member address (ls ++ ms) ≡ (is_member address ls || is_member address ms)
is_member-append address [] ms = refl
is_member-append address (l ∷ ls) ms = ground (arith, is_member-append address ls ms)

pub found-find_line :
    (address : Bytes) (off : ℕ) (ls : List Bytes)
    → found (find_line address off ls) ≡ is_member address ls
unfolding find_line
found-find_line address off [] = refl
found-find_line address off (l ∷ ls) =
    ground (arith, found-find_line address (off + length l + 1) ls)

pub found-find_subscriber :
    (f : Opened) (address : Bytes)
    → IsReadable f
    → found (find_subscriber f address) ≡ is_member address (lines f.content)
found-find_subscriber f address ok =
    rw (find_subscriber-lines f address ok) (found-find_line address 0 (lines f.content))

pub search_dir-members :
    (address : Bytes) (dir : List Entry)
    → All IsPlain dir
    → search_dir dir address ≡ is_member address (members dir)
unfolding search_dir
search_dir-members address [] ok = refl
search_dir-members address (e ∷ dir) ok =
    rw (is_member-append address (lines e.file.content) (members dir)) (
      ground (
        arith,
        ok.0.name,
        ok.0.opens,
        found-find_subscriber e.file address ok.0.readable,
        search_dir-members address dir ok.1,
      ))

-- Where every file can be read, an address is subbed in a directory exactly when it is one of the
-- lines of its files, but for the case of letters.
pub is_subbed_in-members :
    (address : Bytes) (dir : List Entry)
    → All IsPlain dir
    → is_subbed_in (some dir) address ≡ some (is_member address (members dir))
unfolding is_subbed_in
is_subbed_in-members address dir ok = ap some (search_dir-members address dir ok)

-- The type of a subscriber, from whether the three directories hold the address.
abbrev pub subtype_of : Bool → Bool → Bool → Bool → Subtype
subtype_of true _ _ false = sub_normal
subtype_of true true _ true = sub_both
subtype_of true false true true = sub_nomail
subtype_of true false false true = sub_normal
subtype_of false true _ _ = sub_digest
subtype_of false false true _ = sub_nomail
subtype_of false false false _ = sub_none

subtype_of-calls :
    (d : ListDir) (address : Bytes) (both n g m : Bool)
    → is_subbed_in d.subscribers address ≡ some n
    → is_subbed_in d.digesters address ≡ some g
    → is_subbed_in d.nomailsubs address ≡ some m
    → is_subbed d address both ≡ some (subtype_of n g m both)
unfolding is_subbed
subtype_of-calls d address both n g m hn hg hm = ground arith

-- For directories whose files can all be read, the type that `is_subbed` reports is given by the
-- three memberships. With `both` false a normal subscriber is reported at once; with `both` true a
-- subscriber of the normal and the digest version is reported as such, and one that is in the
-- normal and the nomail directory as nomail.
pub is_subbed-members :
    (address : Bytes) (both : Bool) (normal digest nomail : List Entry)
    → All IsPlain normal
    → All IsPlain digest
    → All IsPlain nomail
    → is_subbed
        (record { subscribers = some normal; digesters = some digest; nomailsubs = some nomail })
        address
        both
      ≡ some (
          subtype_of
            (is_member address (members normal))
            (is_member address (members digest))
            (is_member address (members nomail))
            both)
is_subbed-members address both normal digest nomail hn hg hm =
    subtype_of-calls _ address both _ _ _ (is_subbed_in-members address normal hn)
      (is_subbed_in-members address digest hg) (is_subbed_in-members address nomail hm)

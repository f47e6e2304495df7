-- ===== src/Versions/Directories.antt =====
-- The three directories of src/mlmmj-sub.c and src/mlmmj-unsub.c, where they open, as the store of the programs.
use mlmmj.Base.{List, Option, none, some, Bytes}
use mlmmj.Subscribers.{Entry, Subtype, sub_digest, sub_nomail, search_dir, ListDir}
use mlmmj.Subscribers.Change.{AppendCalls, subscribe_type, unsubscribe_type}
use mlmmj.Versions.{Store}

abbrev pub OpenDirs : Type 0
OpenDirs = List Entry × (List Entry × List Entry)

abbrev pub list_dir : OpenDirs → ListDir
list_dir (n, (g, m)) = record { subscribers = some n; digesters = some g; nomailsubs = some m }

abbrev pub dir_of : Subtype → OpenDirs → List Entry
dir_of sub_digest (n, (g, m)) = g
dir_of sub_nomail (n, (g, m)) = m
dir_of _ (n, (g, m)) = n

abbrev pub open_dirs : Option ListDir → Option OpenDirs
open_dirs none = none
open_dirs (some d) = elim d.subscribers [
  | none ↦ none
  | some n ↦ elim d.digesters [
    | none ↦ none
    | some g ↦ elim d.nomailsubs [ none ↦ none | some m ↦ some (n, (g, m)) ]
  ]
]

-- For one address, and with what the system answers to `subscribe_type`.
abbrev pub directories : AppendCalls → Bytes → Store
directories calls address = record {
  State = OpenDirs;
  is_subbed_in = λ st typesub. search_dir (dir_of typesub st) address;
  subscribe_type = λ st typesub. open_dirs (subscribe_type calls address typesub (list_dir st));
  unsubscribe_type = λ st typesub. open_dirs (unsubscribe_type address typesub (list_dir st));
}

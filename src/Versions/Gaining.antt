-- ===== src/Versions/Gaining.antt =====
-- What the calls of `subscribe_type` of src/mlmmj-sub.c add to the directories.
use mlmmj.Base.{◌≡◌, refl, ap, ◌∙◌, Bool, true, false, ◌&&◌, ◌||◌, some, List, arith, Bytes, All}
use mlmmj.CString.{case_eq}
use mlmmj.Subscribers.{
  Entry, is_dots, search_dir, is_subbed_in, Subtype, sub_normal, sub_digest, sub_nomail, sub_both,
  sub_none,
}
use mlmmj.Subscribers.Erase.{IsLine}
use mlmmj.Subscribers.Change.{AppendCalls, chstr, subscribe_dir, subscribe_type}
use mlmmj.Subscribers.Append.{IsSound, Succeeds, subscribe_dir-is_subbed_in}
use mlmmj.Versions.{Store, Here}
use mlmmj.Versions.Leaving.{and_then}
use mlmmj.Versions.Joining.{same_type, join_one, join}
use mlmmj.Versions.Reading.{is_given}
use mlmmj.Versions.Directories.{OpenDirs, directories}

-- The directory gets the address, or stays as it is.
abbrev pub Gains : Bool → Bytes → List Entry → List Entry → Type 0
Gains joins a dir dir' =
    (b : Bytes) → search_dir dir' b ≡ (search_dir dir b || (joins && case_eq b a))

-- The directories that a type stands for.
abbrev pub covers : Subtype → Subtype → Bool
covers sub_both sub_normal = true
covers sub_both sub_digest = true
covers typesub d = same_type typesub d

abbrev pub GetsInto : Subtype → Bytes → OpenDirs → OpenDirs → Type 0
GetsInto typesub a (n, (g, m)) (n', (g', m')) =
    Gains (covers typesub sub_normal) a n n'
    × Gains (covers typesub sub_digest) a g g'
    × Gains (covers typesub sub_nomail) a m m'

abbrev pub AreSound : OpenDirs → Type 0
AreSound (n, (g, m)) = All IsSound n × All IsSound g × All IsSound m

same-Gains : (a : Bytes) (dir : List Entry) → Gains false a dir dir
same-Gains a dir b = ground arith

some_search :
    (dir : List Entry) (b : Bytes) (x : Bool)
    → is_subbed_in (some dir) b ≡ some x
    → search_dir dir b ≡ x
unfolding is_subbed_in
some_search dir b x h = cc

module _ (S : Store) (h : Here) (st st' : S.State) where
  join_one-some :
      (typesub : Subtype)
      → S.subscribe_type st typesub ≡ some st'
      → join_one S h typesub st ≡ (st', true)
  join_one-some typesub e = rw (join_one, e) refl

  join_normal :
      S.subscribe_type st sub_normal ≡ some st' → join S h sub_none sub_normal st ≡ (st', true)
  unfolding join
  join_normal e = join_one-some sub_normal e

  join_digest :
      S.subscribe_type st sub_digest ≡ some st' → join S h sub_none sub_digest st ≡ (st', true)
  unfolding join
  join_digest e = join_one-some sub_digest e

  join_nomail :
      S.subscribe_type st sub_nomail ≡ some st' → join S h sub_none sub_nomail st ≡ (st', true)
  unfolding join
  join_nomail e = join_one-some sub_nomail e

module _ (S : Store) (h : Here) (st st' st2 : S.State) where
  join_both :
      S.subscribe_type st sub_normal ≡ some st'
      → S.subscribe_type st' sub_digest ≡ some st2
      → join S h sub_none sub_both st ≡ (st2, true)
  unfolding join
  join_both e e' =
      ap (λ r. and_then S h r (join_one S h sub_digest)) (join_one-some S h st st' sub_normal e)
      ∙ join_one-some S h st' st2 sub_digest e'

module _ (calls : AppendCalls) (a : Bytes) (n g m dir' : List Entry) where
  appends_normal :
      subscribe_dir calls a n ≡ some dir'
      → (directories calls a).subscribe_type (n, (g, m)) sub_normal ≡ some (dir', (g, m))
  unfolding subscribe_type
  appends_normal e = rw (subscribe_type, e) refl

  appends_digest :
      subscribe_dir calls a g ≡ some dir'
      → (directories calls a).subscribe_type (n, (g, m)) sub_digest ≡ some (n, (dir', m))
  unfolding subscribe_type
  appends_digest e = rw (subscribe_type, e) refl

  appends_nomail :
      subscribe_dir calls a m ≡ some dir'
      → (directories calls a).subscribe_type (n, (g, m)) sub_nomail ≡ some (n, (g, dir'))
  unfolding subscribe_type
  appends_nomail e = rw (subscribe_type, e) refl

module _ (calls : AppendCalls) (a : Bytes) (works : Succeeds calls) (line : IsLine a)
    (first : is_dots (chstr a) ≡ false) where
  appended :
      (dir : List Entry)
      → All IsSound dir
      → (dir' : List Entry) × (subscribe_dir calls a dir ≡ some dir') × Gains true a dir dir'
  appended dir sound =
      let (dir', e, h) = subscribe_dir-is_subbed_in calls a dir works line first sound in
      (dir', e, λ b. some_search dir' b (search_dir dir b || case_eq b a) (h b))

  pub join-GetsInto :
      (h : Here) (typesub : Subtype) (st : OpenDirs)
      → is_given typesub ≡ true
      → AreSound st
      → (st' : OpenDirs) × (join (directories calls a) h sub_none typesub st ≡ (st', true))
        × GetsInto typesub a st st'
  join-GetsInto h sub_normal (n, (g, m)) given (sn, sg, sm) =
      let (n', e, gains) = appended n sn in
      (
        (n', (g, m)),
        join_normal (directories calls a) h (n, (g, m)) _ (appends_normal calls a n g m n' e),
        (gains, same-Gains a g, same-Gains a m),
      )
  join-GetsInto h sub_digest (n, (g, m)) given (sn, sg, sm) =
      let (g', e, gains) = appended g sg in
      (
        (n, (g', m)),
        join_digest (directories calls a) h (n, (g, m)) _ (appends_digest calls a n g m g' e),
        (same-Gains a n, gains, same-Gains a m),
      )
  join-GetsInto h sub_nomail (n, (g, m)) given (sn, sg, sm) =
      let (m', e, gains) = appended m sm in
      (
        (n, (g, m')),
        join_nomail (directories calls a) h (n, (g, m)) _ (appends_nomail calls a n g m m' e),
        (same-Gains a n, same-Gains a g, gains),
      )
  join-GetsInto h sub_both (n, (g, m)) given (sn, sg, sm) =
      let (n', e, gains) = appended n sn in
      let (g', e', gains') = appended g sg in
      (
        (n', (g', m)),
        join_both (directories calls a) h (n, (g, m)) _ _ (appends_normal calls a n g m n' e)
            (appends_digest calls a n' g m g' e'),
        (gains, gains', same-Gains a m),
      )
  join-GetsInto h _ st given sound = absurd (cc)

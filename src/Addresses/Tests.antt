-- ===== src/Addresses/Tests.antt =====
-- Concrete portions, and the theorem at one.
use mlmmj.Base.{◌≡◌, refl, true, some, List, [], ◌∷◌, ◌++◌, Bytes, codes, drop}
use mlmmj.Subscribers.{Opened}
use mlmmj.Subscribers.Lines.{lines}
use mlmmj.Addresses.{take_addrs, getaddrsfromfd}
use mlmmj.Addresses.Portions.{getaddrsfromfd-lines}

abbrev three_lines : Opened
three_lines = record { stat_ok = true; regular = true; mmap_ok = true; content = codes "a\nbc\nd" }

first_two :
    getaddrsfromfd three_lines 0 2 []
    ≡ some (record { strs = codes "a" ∷ codes "bc" ∷ []; offset = 5; left = 1 })
unfolding getaddrsfromfd take_addrs
first_two = refl

unterminated :
    getaddrsfromfd three_lines 5 2 []
    ≡ some (record { strs = codes "d" ∷ []; offset = 6; left = 0 })
unfolding getaddrsfromfd take_addrs
unterminated = refl

getaddrsfromfd-lines_example :
    (front : List Bytes) × (codes "a" ∷ codes "bc" ∷ [] ≡ [] ++ front)
    × (lines (drop 0 three_lines.content) ≡ front ++ lines (drop 5 three_lines.content))
getaddrsfromfd-lines_example =
    getaddrsfromfd-lines three_lines 0 2 []
      (record { strs = codes "a" ∷ codes "bc" ∷ []; offset = 5; left = 1 }) first_two

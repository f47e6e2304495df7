-- ===== src/Versions/Reading.antt =====
-- A subscription that a moderator permits, src/mlmmj-sub.c.
use mlmmj.Base.{◌≡◌, refl, Bool, true, false, some, List, [], ◌∷◌, ◌++◌, Bytes}
use mlmmj.CString.{strip_prefix}
use mlmmj.Subscribers.{Subtype, sub_normal, sub_digest, sub_nomail, sub_both}
use mlmmj.ControlFiles.{getlines}
use mlmmj.Versions.Waiting.{waiting_text, type_read, getaddrandtype}
use mlmmj.ControlFiles.Values.{IsLine, getlines-line, chomp-line}

-- One of the types that mlmmj-sub gives.
abbrev pub is_given : Subtype → Bool
is_given sub_normal = true
is_given sub_digest = true
is_given sub_nomail = true
is_given sub_both = true
is_given _ = false

-- The first two lines.
getaddrandtype-lines :
    (subaddr s readtype : Bytes) (more : List Bytes) (before : Subtype)
    → IsLine subaddr
    → getlines s ≡ readtype ∷ more
    → getaddrandtype (some (subaddr ++ b'\n' ∷ s)) before
      ≡ some (subaddr, type_read before readtype)
unfolding getaddrandtype
getaddrandtype-lines subaddr s readtype more before h e =
    rw (getaddrandtype, getlines-line subaddr s h, e, chomp-line subaddr h) refl

-- `mlmmj-sub -m` reads the address and the type that the subscription had when it was put aside, for an
-- address without newlines.
getaddrandtype-waiting_text :
    (subaddr : Bytes) (typesub before : Subtype)
    → IsLine subaddr
    → is_given typesub ≡ true
    → getaddrandtype (some (waiting_text subaddr typesub)) before ≡ some (subaddr, typesub)
unfolding waiting_text getlines strip_prefix
getaddrandtype-waiting_text subaddr sub_normal before h given =
    getaddrandtype-lines subaddr _ _ [] before h refl
getaddrandtype-waiting_text subaddr sub_digest before h given =
    getaddrandtype-lines subaddr _ _ [] before h refl
getaddrandtype-waiting_text subaddr sub_nomail before h given =
    getaddrandtype-lines subaddr _ _ [] before h refl
getaddrandtype-waiting_text subaddr sub_both before h given =
    getaddrandtype-lines subaddr _ _ [] before h refl
getaddrandtype-waiting_text _ _ before h given = absurd (cc)

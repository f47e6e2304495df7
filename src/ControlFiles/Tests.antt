-- ===== src/ControlFiles/Tests.antt =====
-- The examples of the control files.
use mlmmj.Base.{◌≡◌, refl, none, some, [], ◌∷◌, codes}
use mlmmj.ControlFiles.{ctrlvalues, getlistaddr, getlistdelim, ctrlcontent}

-- The last line need not be ended, and a line may end as on the network.
unended : ctrlvalues (some (codes "a@b\r\nc@d")) ≡ some (codes "a@b" ∷ codes "c@d" ∷ [])
unfolding ctrlvalues mlmmj.Headers.cut_newlines
unended = refl

listaddr_of : getlistaddr (some (codes "a@b\nc@d\n")) ≡ some (codes "a@b")
unfolding getlistaddr mlmmj.Headers.cut_newlines
listaddr_of = refl

default_delimiter : getlistdelim none ≡ some (codes "+")
unfolding getlistdelim
default_delimiter = refl

content_of : ctrlcontent (some (codes "one\ntwo\r\n")) ≡ some (some (codes "one\ntwo"))
unfolding ctrlcontent
content_of = refl

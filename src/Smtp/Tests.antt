-- ===== src/Smtp/Tests.antt =====
-- Concrete runs of the preparation of a mail for SMTP, and the theorems at them.
use mlmmj.Base.{◌+◌, ◌≡◌, refl, true, false, some, List, [], ◌∷◌, ◌++◌, Bytes, codes, length, All}
use mlmmj.CString.{strip_prefix, contains, strstr}
use mlmmj.Subscribers.Lines.{unlines}
use mlmmj.Smtp.{
  body_writes, write_mailbody_from_map, Prepared, count_body, prep_body,
  get_prepped_mailbody_from_map, dot,
}
use mlmmj.Smtp.Length.{unfinished, get_prepped_mailbody_from_map-len}
use mlmmj.Smtp.Receive.{receive, IsText, get_prepped_mailbody_from_map-receive}

abbrev spooled : Bytes
spooled = codes "A: 1\n\n.dot\nend\n"

-- A mail whose last line has no newline.
abbrev cut : Bytes
cut = codes "A: 1\n\nhi\nend"

writes : write_mailbody_from_map 9 spooled (some (codes "To: x\r\n")) ≡ (
  codes "A: 1"
      ∷ codes "\r\n"
      ∷ codes "To: x\r\n"
      ∷ []
      ∷ codes "\r\n."
      ∷ codes ".dot"
      ∷ codes "\r\n"
      ∷ codes "end"
      ∷ codes "\r\n"
      ∷ [],
  true,
)
unfolding write_mailbody_from_map body_writes
writes = refl

prepped :
    get_prepped_mailbody_from_map spooled
    ≡ some (record { text = codes "\r\n..dot\r\nend\r\n"; len = 14 })
unfolding get_prepped_mailbody_from_map strstr strip_prefix prep_body count_body
prepped = refl

-- The last line is lost, and the length counts it.
lost : get_prepped_mailbody_from_map cut ≡ some (record { text = codes "\r\nhi\r\n"; len = 9 })
unfolding get_prepped_mailbody_from_map strstr strip_prefix prep_body count_body
lost = refl

abbrev two_lines : List Bytes
two_lines = codes ".dot" ∷ codes "end" ∷ []

spooled_at : strstr (codes "\n\n") spooled ≡ some (codes "A: 1", codes "\n\n" ++ unlines two_lines)
unfolding strstr strip_prefix
spooled_at = refl

cut_at : strstr (codes "\n\n") cut ≡ some (codes "A: 1", codes "\n\nhi\nend")
unfolding strstr strip_prefix
cut_at = refl

two_lines-IsText : All IsText two_lines
unfolding contains
two_lines-IsText = (record { cr = refl; lf = refl }, (record { cr = refl; lf = refl }, tt))

get_prepped_mailbody_from_map-receive_example :
    (p : Prepared) × (get_prepped_mailbody_from_map spooled ≡ some p)
    × ((more : Bytes)
        → receive false [] (p.text ++ (dot ++ more)) ≡ some ([] ∷ (two_lines ++ [] ∷ []), more))
get_prepped_mailbody_from_map-receive_example =
    get_prepped_mailbody_from_map-receive spooled (codes "A: 1") two_lines spooled_at
      two_lines-IsText

get_prepped_mailbody_from_map-len_example :
    (p : Prepared) × (get_prepped_mailbody_from_map cut ≡ some p)
    × (p.len ≡ length p.text + length (unfinished [] (codes "\nhi\nend")))
get_prepped_mailbody_from_map-len_example =
    get_prepped_mailbody_from_map-len cut (codes "A: 1") (codes "\nhi\nend") cut_at

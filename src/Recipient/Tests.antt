-- ===== src/Recipient/Tests.antt =====
-- Concrete runs of `addrmatch`, and the theorems at them.
use mlmmj.Base.{◌≡◌, refl, true, false, none, some, Bytes, codes}
use mlmmj.CString.{strip_prefix, case_eq, case_eq_n, contains, strstr, strrchr}
use mlmmj.Recipient.{addrmatch, match_domain, match_delim}

abbrev listaddr : Bytes
listaddr = codes "mlmmj@example.org"

help_request :
    addrmatch listaddr (some (codes "Mlmmj+help@EXAMPLE.org")) (some (codes "+"))
    ≡ some (some (codes "help"))
unfolding addrmatch match_delim match_domain strstr strip_prefix strrchr case_eq case_eq_n
help_request = refl

other_list : addrmatch listaddr (some (codes "other+help@example.org")) (some (codes "+")) ≡ none
unfolding addrmatch match_delim match_domain strstr strip_prefix strrchr case_eq case_eq_n
other_list = refl

same_name : case_eq (codes "mlmmj") (codes "Mlmmj") ≡ true
unfolding case_eq
same_name = refl

same_domain : case_eq (codes "example.org") (codes "EXAMPLE.org") ≡ true
unfolding case_eq
same_domain = refl

no_at : contains b'@' (codes "EXAMPLE.org") ≡ false
unfolding contains
no_at = refl

not_list : case_eq listaddr (codes "Mlmmj+help@EXAMPLE.org") ≡ false
unfolding case_eq
not_list = refl

delim_at :
    strstr (codes "+") (codes "Mlmmj+help@EXAMPLE.org")
    ≡ some (codes "Mlmmj", codes "+help@EXAMPLE.org")
unfolding strstr strip_prefix
delim_at = refl

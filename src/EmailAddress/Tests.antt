-- ===== src/EmailAddress/Tests.antt =====
-- The examples of the addresses in headers, and tests of the code of src/find_email_adr.c.
use mlmmj.Base.{◌≡◌, refl, some, List, [], ◌∷◌, Bytes, codes}
use mlmmj.CString.{strip_prefix, strchr, contains}
use mlmmj.EmailAddress.{copy_quoted, skip_comment, skip_to_comma, skin_loop, skin}
use mlmmj.EmailAddress.Splitting.{judge_comma, cut_address, find_from, find_email_adr, skip_wsp}
use mlmmj.EmailAddress.Ending.{find_email_adr-Returns}

abbrev two_addresses : List Bytes
two_addresses = codes "a@example.org" ∷ codes "b@example.net" ∷ []

find_email_adr-Returns_example :
    (adrs : List Bytes) × (find_email_adr (codes "\"Doe, Jo\" <jo@example.org>, x@y") ≡ some adrs)
find_email_adr-Returns_example = find_email_adr-Returns (codes "\"Doe, Jo\" <jo@example.org>, x@y")

-- The comma in quotation marks does not cut; a comment goes, but the blank behind it stays.
quoted_comma :
    find_email_adr (codes "\"Doe, Jo\" <jo@example.org>, (me) x@y")
    ≡ some (codes "jo@example.org" ∷ codes " x@y" ∷ [])
unfolding find_email_adr find_from cut_address judge_comma strchr skip_wsp skin skin_loop
    copy_quoted skip_comment skip_to_comma strip_prefix contains
quoted_comma = refl

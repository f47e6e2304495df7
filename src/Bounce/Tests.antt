-- ===== src/Bounce/Tests.antt =====
-- Runs of mlmmj-bounce, and the witnesses.
use mlmmj.Base.{◌≡◌, refl, true, false, none, some, List, [], ◌∷◌, if◌then◌else◌, Bytes, codes, All}
use mlmmj.CString.{str_eq, strchr, contains, strrchr}
use mlmmj.EmailAddress.Splitting.{cut_address, find_from}
use mlmmj.Headers.{headers, headers_after, chomp, cut_newlines}
use mlmmj.Versions.{lowercase, exit_success}
use mlmmj.Bounce.{appends, exit_success, System, dsnparseaddr, bounce_line, bounce_main}
use mlmmj.Delivery.{arguments, read_bounce, bounce_from_adr, get_index_from_filename}
use mlmmj.Bounce.Records.{IsAllowed, bounce_main-IsAllowed}
use mlmmj.Bounce.Recipients.{bounce_main-bounce_from_adr, reported}
use mlmmj.Headers.{cut_newlines, chomp, headers_after, headers}
use mlmmj.EmailAddress.{skin}
use mlmmj.EmailAddress.Splitting.{find_from, cut_address}

abbrev bounced_list : System
bounced_list = record {
  may_run = true;
  mail = none;
  listaddress = some (codes "list@example.org\n");
  delimiter = none;
  is_subbed = λ address. str_eq address (codes "jo@example.org");
  is_link = λ file. false;
  opens = λ file. true;
  time = codes "1700000000";
  ctime = codes "Tue Nov 14 22:13:20 2023\n";
}

abbrev jo : Bytes
jo = codes "Jo=example.org"

bounce_main-IsAllowed_example :
    All (IsAllowed bounced_list) (bounce_main (reported jo (codes "12")) bounced_list).0
bounce_main-IsAllowed_example = bounce_main-IsAllowed (reported jo (codes "12")) bounced_list

-- The line that is added.
records_jo : bounce_main (reported jo (codes "12")) bounced_list ≡ (
  appends (codes "jo=example.org") (codes "12:1700000000 # Tue Nov 14 22:13:20 2023\n") ∷ [],
  exit_success,
)
unfolding bounce_main
records_jo = refl

ignores_strangers :
    bounce_main (reported (codes "al=example.org") (codes "12")) bounced_list ≡ ([], exit_success)
unfolding bounce_main
ignores_strangers = refl

abbrev status : List Bytes
status = codes "Content-Type: message/delivery-status\n" ∷ []

-- The recipient is taken from any header but Final-Recipient:.
takes_other :
    dsnparseaddr (
      some (
        codes "Content-Type: message/delivery-status\n"
        ∷ codes "Final-Recipient: rfc822; a@x.org\n"
        ∷ codes "To: x; b@x.org\n"
        ∷ []))
    ≡ some (codes "b@x.org")
unfolding dsnparseaddr headers chomp cut_newlines headers_after strchr find_from cut_address skin
takes_other = refl

bounce_main-bounce_from_adr_example :
    (sender : Bytes) × (bounce_from_adr none
        (codes "Jo@example.org")
        (codes "list@example.org")
        (codes "+")
        (codes "archive/12")
      ≡ some (some sender))
    × (address : Bytes) × (number : Bytes) × (read_bounce (codes "+") sender
        ≡ arguments address number)
    × (bounce_main (reported address number) bounced_list ≡ (
      (if bounced_list.is_subbed (lowercase (codes "Jo@example.org"))
          then appends (lowercase jo) (
              bounce_line
                (get_index_from_filename (codes "archive/12"))
                bounced_list.time
                bounced_list.ctime)
            ∷ []
          else []),
      exit_success,
    ))
unfolding contains get_index_from_filename strrchr
bounce_main-bounce_from_adr_example =
    bounce_main-bounce_from_adr b'+' (codes "list") (codes "example.org") refl refl refl refl
      bounced_list (codes "Jo") (codes "example.org") (codes "archive/12") refl refl refl refl refl
      refl refl refl

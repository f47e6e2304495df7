-- ===== src/Headers/Tests.antt =====
-- Concrete mails, and the theorems at them.
use mlmmj.Base.{◌≡◌, refl, true, none, some, List, [], ◌∷◌, ◌++◌, Bytes, codes}
use mlmmj.CString.{tolower, strip_prefix, case_eq_n, strstr}
use mlmmj.Headers.Rewriting.{
  Voodoo, written, add_extra, add_replyto, end_of_headers, wants_prefix, write_header,
  write_headers, write_rest, do_all_the_voodoo_here, concatenated, frees_twice,
}
use mlmmj.Headers.{headers_after, cut_newlines, findit, headers, chomp, cleanquotedp}
use mlmmj.Headers.Passing.{IsPlain, kept_with_extra, do_all_the_voodoo_here-kept_with_extra}
use mlmmj.Headers.Freeing.{IsMunging, IsFrom, IsReplyTo, do_all_the_voodoo_here_frees_twice}

abbrev mail : List Bytes
mail =
    codes "X: a\n"
    ∷ codes " b\n"
    ∷ codes "Del: c\n"
    ∷ codes "Mime-Version: 1\n"
    ∷ codes "\n"
    ∷ codes "body\n"
    ∷ []

abbrev plain_list : Voodoo
plain_list = record {
  hdrfd = some (codes "List: l\n");
  hdr_copies = true;
  footfd = some (codes "--\n");
  foot_copies = true;
  mail_copies = true;
  delhdrs = some (codes "del:" ∷ []);
  prefix = none;
  listaddr = none;
}

abbrev munging_list : Voodoo
munging_list = record {
  hdrfd = none;
  hdr_copies = true;
  footfd = none;
  foot_copies = true;
  mail_copies = true;
  delhdrs = none;
  prefix = none;
  listaddr = some (codes "l@d");
}

abbrev prefixing_list : Voodoo
prefixing_list = record {
  hdrfd = none;
  hdr_copies = true;
  footfd = none;
  foot_copies = true;
  mail_copies = true;
  delhdrs = none;
  prefix = some (codes "[l]");
  listaddr = some (codes "l@d");
}

passes :
    (do_all_the_voodoo_here plain_list [] mail).0
    ≡ written (codes "X: a\n b\nList: l\nMime-Version: 1\n\nbody\n--\n")
unfolding do_all_the_voodoo_here headers headers_after chomp cut_newlines write_headers write_header
    wants_prefix add_extra end_of_headers add_replyto write_rest findit case_eq_n tolower
passes = refl

munged :
    (do_all_the_voodoo_here prefixing_list []
      (codes "From: A <a@b>\n" ∷ codes "Subject: =5Bl=5D hi\n" ∷ codes "\n" ∷ [])).0
    ≡ written (codes "From:  A [a@b]<l@d>\nSubject: =5Bl=5D hi\nReply-To:  A <a@b>\n\n")
unfolding do_all_the_voodoo_here headers headers_after chomp cut_newlines write_headers write_header
    wants_prefix add_extra end_of_headers add_replyto write_rest findit case_eq_n tolower strstr
    strip_prefix cleanquotedp
munged = refl

plain_list-IsPlain : IsPlain plain_list
plain_list-IsPlain = record { prefix = refl; listaddr = refl; hdr = refl; foot = refl; mail = refl }

munging_list-IsMunging : IsMunging munging_list (codes "l@d")
munging_list-IsMunging = record { prefix = refl; hdrfd = refl; munged = refl }

abbrev from_line : Bytes
from_line = codes "From: a@b\n"

abbrev reply_line : Bytes
reply_line = codes "Reply-To: c@d\n"

two_headers :
    (headers (from_line ∷ reply_line ∷ codes "\n" ∷ [])).0
    ≡ (codes "From: a@b", from_line) ∷ (codes "Reply-To: c@d", reply_line) ∷ []
unfolding headers headers_after chomp cut_newlines
two_headers = refl

first_line-IsFrom : IsFrom (codes "From: a@b")
first_line-IsFrom = record {
  other = unfold case_eq_n tolower in refl;
  token = unfold case_eq_n tolower in refl;
}

second_line-IsReplyTo : IsReplyTo (codes "Reply-To: c@d")
unfolding case_eq_n tolower
second_line-IsReplyTo = refl

do_all_the_voodoo_here-kept_with_extra_example :
    (do_all_the_voodoo_here plain_list [] mail).0
    ≡ written (
        kept_with_extra plain_list (headers mail).0
        ++ (codes "\n" ++ (concatenated (headers mail).1 ++ codes "--\n")))
do_all_the_voodoo_here-kept_with_extra_example =
    do_all_the_voodoo_here-kept_with_extra plain_list [] mail plain_list-IsPlain

do_all_the_voodoo_here_frees_twice_example :
    (do_all_the_voodoo_here munging_list [] (from_line ∷ reply_line ∷ codes "\n" ∷ [])).0
    ≡ frees_twice
do_all_the_voodoo_here_frees_twice_example =
    do_all_the_voodoo_here_frees_twice munging_list (codes "l@d") munging_list-IsMunging []
      (from_line ∷ reply_line ∷ codes "\n" ∷ []) (codes "From: a@b", from_line)
      (codes "Reply-To: c@d", reply_line) two_headers first_line-IsFrom second_line-IsReplyTo

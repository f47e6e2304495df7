-- ===== src/Names/Tests.antt =====
-- Concrete names and cookies, and the theorems at them.
use mlmmj.Base.{◌≡◌, refl, true, false, some, Bytes, codes, All}
use mlmmj.CString.{strchr, contains}
use mlmmj.Names.{genlistname, hex_digit, random_plus_addr}
use mlmmj.Control.{ctrl_commands}
use mlmmj.Control.Syntax.{IsRead}
use mlmmj.Names.Cookies.{random_plus_addr-IsRead}

abbrev address : Bytes
address = codes "joe@example.org"

abbrev cookie : Bytes
cookie = codes "0000001f000000ab-joe=example.org"

made : random_plus_addr 31 171 address ≡ some cookie
unfolding random_plus_addr strchr hex_digit
made = refl

made_slash : random_plus_addr 0 0 (codes "a/b@c") ≡ some (codes "0000000000000000-a/b=c")
unfolding random_plus_addr strchr hex_digit
made_slash = refl

name_is : genlistname address ≡ some (codes "joe")
unfolding genlistname strchr
name_is = refl

no_slash : contains b'/' address ≡ false
unfolding contains
no_slash = refl

a_slash : contains b'/' (codes "a/b@c") ≡ true
unfolding contains
a_slash = refl

random_plus_addr-IsRead_example : All (IsRead cookie) ctrl_commands
random_plus_addr-IsRead_example = random_plus_addr-IsRead 31 171 address cookie made no_slash

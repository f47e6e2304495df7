-- ===== src/Process/Addressing.antt =====
-- The addresses of a mail, and the extension of the address that it was sent to, `main` of
-- src/mlmmj-process.c.
use mlmmj.Base.{
  Bool, true, false, ◌||◌, Option, none, some, List, [], ◌∷◌, ◌++◌, if◌then◌else◌, Bytes,
}
use mlmmj.CString.{strip_prefix}
use mlmmj.ControlFiles.{getlistdelim, ctrlvalues}
use mlmmj.Recipient.{addrmatch}
use mlmmj.EmailAddress.Splitting.{find_email_adr}
use mlmmj.Process.{Site}

-- What the calls of `find_email_adr` for the values of a header append to the list.
unfoldable pub get_emails : List Bytes → List Bytes
unfolding find_email_adr
get_emails [] = []
get_emails (value ∷ values) =
    elim (find_email_adr value) [ none ↦ [] | some adrs ↦ adrs ] ++ get_emails values

-- The extension of the address.
pub data Extra : Type 0 where
  -- the program ends, as no delimiter is found
  no_delimiter : Extra
  from_environment : Bytes → Extra
  findaddress : Extra

unfoldable pub address_extension : Site → Extra
unfolding getlistdelim strip_prefix
address_extension S = elim (S.getenv "DEFAULT") [
  | some envstr ↦ from_environment envstr
  | none ↦ elim (S.getenv "EXTENSION") [
    | some envstr ↦ from_environment envstr
    | none ↦ elim (S.getenv "LOCAL_PART_SUFFIX") [
      | none ↦ findaddress
      | some envstr ↦ elim (getlistdelim (S.control "delimiter")) [
        | none ↦ no_delimiter
        | some listdelim ↦ elim (strip_prefix listdelim envstr) [
          | some extra ↦ from_environment extra
          | none ↦ from_environment envstr
        ]
      ]
    ]
  ]
]

-- The loop over `listaddrs`: the first address of the list that fits gives `*recipextra`.
unfoldable pub match_listaddrs : List Bytes → Option Bytes → Bytes → Option (Option Bytes)
unfolding addrmatch
match_listaddrs [] listdelim addr = none
match_listaddrs (listaddr ∷ listaddrs) listdelim addr =
    let later = match_listaddrs listaddrs listdelim addr in
    elim (addrmatch listaddr (some addr) listdelim) [
      | some recipextra ↦ some recipextra
      | none ↦ later
    ]

-- `recipextra`, `findaddress` and `listdelim` behind a loop.
pub record Found : Type 0 where
  pub recipextra : Option Bytes
  pub searching : Bool
  pub listdelim : Option Bytes

unfoldable pub search_delivered : List Bytes → List Bytes → Found → Found
unfolding match_listaddrs
search_delivered listaddrs [] f = f
search_delivered listaddrs (addr ∷ dtemails) f = elim (match_listaddrs listaddrs f.listdelim addr) [
  | none ↦ search_delivered listaddrs dtemails f
  | some extra ↦
      search_delivered listaddrs dtemails
        (record { recipextra = extra; searching = false; listdelim = none })
]

-- The loops over the addresses of To: and Cc:, with `intocc`.
unfoldable pub search_tocc :
    List Bytes → Option Bytes → List Bytes → Option Bytes → Bool → Option Bytes × Bool
unfolding match_listaddrs
search_tocc listaddrs listdelim [] recipextra intocc = (recipextra, intocc)
search_tocc listaddrs listdelim (addr ∷ emails) recipextra intocc =
    elim (match_listaddrs listaddrs listdelim addr) [
      | none ↦ search_tocc listaddrs listdelim emails recipextra intocc
      | some extra ↦ search_tocc listaddrs listdelim emails extra true
    ]

pub record Emails : Type 0 where
  pub toemails : List Bytes
  pub ccemails : List Bytes
  pub dtemails : List Bytes

abbrev pub nonempty_extra : Option Bytes → Option Bytes
nonempty_extra none = none
nonempty_extra (some []) = none
nonempty_extra (some (c ∷ extra)) = some (c ∷ extra)

-- The searches, with the addresses of the list: `recipextra`, and `intocc`.
unfoldable pub search_all : List Bytes → Bool → Emails → Found → Option Bytes × Bool
unfolding search_delivered search_tocc
search_all listaddrs addrtocc m f =
    let f : Found = search_delivered listaddrs m.dtemails f in
    if addrtocc || f.searching
    then (let (recipextra, intocc) =
          search_tocc listaddrs f.listdelim m.toemails f.recipextra false in
        if intocc
        then (recipextra, true)
        else search_tocc listaddrs f.listdelim m.ccemails recipextra false)
    else (f.recipextra, false)

-- `none` is the end of the program. Where the file of the list's addresses does not open, the program
-- has already ended.
unfoldable pub start_search : Site → Bool → Emails → Found → Option (Option Bytes × Bool)
unfolding search_all ctrlvalues
start_search S addrtocc m f =
    if addrtocc || f.searching
    then elim (ctrlvalues (S.control "listaddress")) [
      | none ↦ none
      | some listaddrs ↦ some (search_all listaddrs addrtocc m f)
    ]
    else some (f.recipextra, false)

-- `recipextra` and `intocc`, or `none` for the end of the program.
unfoldable pub find_recipient : Site → Bool → Emails → Option (Option Bytes × Bool)
unfolding address_extension start_search getlistdelim
find_recipient S addrtocc m =
    let found : Option (Option Bytes × Bool) = elim (address_extension S) [
      | no_delimiter ↦ none
      | from_environment extra ↦
          start_search S addrtocc m
            (record { recipextra = some extra; searching = false; listdelim = none })
      | findaddress ↦ elim (getlistdelim (S.control "delimiter")) [
        | none ↦ none
        | some delim ↦
            start_search S addrtocc m
              (record { recipextra = none; searching = true; listdelim = some delim })
      ]
    ] in
    elim found [
      | none ↦ none
      | some (recipextra, intocc) ↦ some (nonempty_extra recipextra, intocc)
    ]

-- ===== src/Headers/Rewriting.antt =====
-- What becomes of a mail: `do_all_the_voodoo_here` of src/do_all_the_voodoo_here.c.
use mlmmj.Base.{
  Bool, true, false, ◌||◌, Option, none, some, List, [], ◌∷◌, ◌++◌, ◌==◌, if◌then◌else◌, Bytes,
  codes, drop,
}
use mlmmj.CString.{case_eq_n, strstr}
use mlmmj.Headers.{headers, cleanquotedp, findit, Header, plain, header_lines, read_headers}

-- The pointer `replyto`.
pub data Pointer : Type 0 where
  null freed : Pointer
  held : Bytes → Pointer

-- The arguments. A file that is not open is `none`, and `copies` says whether the calls of `dumpfd2fd`
-- for it work.
pub record Voodoo : Type 0 where
  pub hdrfd : Option Bytes
  pub hdr_copies : Bool
  pub footfd : Option Bytes
  pub foot_copies : Bool
  pub mail_copies : Bool
  pub delhdrs : Option (List Bytes)
  pub prefix : Option Bytes
  pub listaddr : Option Bytes

-- What is written for the result 0, or the result -1, or a second `free` of the same pointer.
pub data Written : Type 0 where
  written : Bytes → Written
  failed frees_twice : Written

abbrev pub emit : Bytes → Written → Written
emit s (written out) = written (s ++ out)
emit s failed = failed
emit s frees_twice = frees_twice

-- `free(replyto)`
abbrev pub free_then : Pointer → (Pointer → Written) → Written
free_then null k = k null
free_then (held s) k = k freed
free_then freed k = frees_twice

abbrev bracketed : Bytes → Bytes
bracketed [] = []
bracketed (c ∷ s) = (if c == b'<' then b'[' else if c == b'>' then b']' else c) ∷ bracketed s

abbrev pub concatenated : List Bytes → Bytes
concatenated [] = []
concatenated (l ∷ lines) = l ++ concatenated lines

module _ (v : Voodoo) where
  -- The footer, and what is in front of it the rest of the mail.
  unfoldable pub write_rest : List Bytes → Written
  write_rest body =
      let footer : Written = elim v.footfd [
        | none ↦ written []
        | some f ↦ if v.foot_copies then written f else failed
      ] in
      if v.mail_copies then emit (concatenated body) footer else failed

  -- The extra headers, before the first header of MIME or after all headers.
  unfoldable pub add_extra : Bool → Written → Written
  add_extra hdrsadded w =
      if hdrsadded
      then w
      else elim v.hdrfd [ none ↦ w | some extra ↦ if v.hdr_copies then emit extra w else failed ]

  -- The Reply-To: header that is written where From: was changed.
  unfoldable pub add_replyto : Bool → Pointer → Written → Written
  add_replyto replyto_present (held s) w = elim v.listaddr [
    | none ↦ w
    | some listaddr ↦ if replyto_present then w else emit s w
  ]
  add_replyto replyto_present null w = w
  add_replyto replyto_present freed w = frees_twice

  unfoldable pub end_of_headers : Bool → Bool → Pointer → List Bytes → Written
  end_of_headers subject_present replyto_present replyto body =
      let end = add_replyto replyto_present replyto (emit (codes "\n") (write_rest body)) in
      elim v.prefix [
        | none ↦ end
        | some prefix ↦
            if subject_present then end else emit (codes "Subject: " ++ (prefix ++ codes "\n")) end
      ]

  -- Whether the header is a Subject: that wants the prefix.
  unfoldable pub wants_prefix : Bytes → Option Bytes
  unfolding strstr cleanquotedp case_eq_n
  wants_prefix hdrline = elim v.prefix [
    | none ↦ none
    | some prefix ↦
        if case_eq_n 8 hdrline (codes "Subject:")
        then elim (strstr prefix (drop 8 hdrline)) [
          | some at ↦ none
          | none ↦ elim (strstr prefix (cleanquotedp plain (drop 8 hdrline))) [
            | some at ↦ none
            | none ↦ some prefix
          ]
        ]
        else none
  ]

  abbrev pub is_subject : Bytes → Bool
  is_subject hdrline = elim v.prefix [
    | none ↦ false
    | some prefix ↦ case_eq_n 8 hdrline (codes "Subject:")
  ]

  abbrev is_stripped : Bytes → Bool
  is_stripped hdrline = elim v.delhdrs [ none ↦ false | some delhdrs ↦ findit hdrline delhdrs ]

  -- What is done with a header that gets no prefix; `next` is the rest of the loop.
  unfoldable pub write_header : Bool → Pointer → Header → (Bool → Pointer → Written) → Written
  unfolding case_eq_n findit
  write_header replyto_present replyto (hdrline, unfolded) next =
      let copied = next replyto_present replyto in
      let plain = if is_stripped hdrline then copied else emit unfolded copied in
      elim v.listaddr [
        | none ↦ plain
        | some listaddr ↦
            if case_eq_n 9 hdrline (codes "Reply-To:")
            then free_then replyto (λ p. emit unfolded (next true p))
            else if case_eq_n 5 hdrline (codes "From:")
            then emit
                (codes "From: "
                  ++ (bracketed (drop 5 hdrline) ++ (codes "<" ++ (listaddr ++ codes ">\n"))))
                (next replyto_present (held (codes "Reply-To: " ++ (drop 5 hdrline ++ codes "\n"))))
            else plain
      ]

  -- The loop over the headers.
  unfoldable pub write_headers : Bool → Bool → Bool → Pointer → List Header → List Bytes → Written
  unfolding case_eq_n
  write_headers hdrsadded subject_present replyto_present replyto [] body =
      add_extra hdrsadded (end_of_headers subject_present replyto_present replyto body)
  write_headers hdrsadded subject_present replyto_present replyto ((hdrline, unfolded) ∷ hdrs)
        body =
      let mime = case_eq_n 4 hdrline (codes "mime") in
      let added = hdrsadded || mime in
      let next : Bool → Bool → Pointer → Written =
        λ subject present p. write_headers added subject present p hdrs body in
      let w : Written = elim (wants_prefix hdrline) [
        | some prefix ↦
            emit (codes "Subject: " ++ (prefix ++ (drop 8 hdrline ++ codes "\n")))
              (next true replyto_present replyto)
        | none ↦
            write_header replyto_present replyto (hdrline, unfolded)
              (next (subject_present || is_subject hdrline))
      ] in
      if mime then add_extra hdrsadded w else w

  -- With it, `allhdrs` and `readhdrs` as they are after a call that works.
  unfoldable pub do_all_the_voodoo_here :
      List (Bytes × List Bytes) → List Bytes → Written × (List Bytes × List (Bytes × List Bytes))
  do_all_the_voodoo_here readhdrs mail =
      let (hdrs, body) = headers mail in
      (
        write_headers false false false null hdrs body,
        (header_lines hdrs, read_headers hdrs readhdrs),
      )

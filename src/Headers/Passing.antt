-- ===== src/Headers/Passing.antt =====
-- What src/do_all_the_voodoo_here.c does to a mail.
use mlmmj.Base.{
  ◌≡◌, refl, ◌∙◌, inl, inr, Bool, true, false, ◌||◌, Option, none, some, List, [], ◌∷◌, ◌++◌,
  append_assoc, if◌then◌else◌, Bool-cases, Option-cases, Bytes, codes, sym, ap,
}
use mlmmj.Headers.{Header, headers, findit}
use mlmmj.Headers.Rewriting.{
  Pointer, is_subject, null, Voodoo, Written, written, emit, concatenated, write_rest, add_extra,
  add_replyto, end_of_headers, wants_prefix, write_header, write_headers, do_all_the_voodoo_here,
}
use mlmmj.CString.{case_eq_n}

-- Nothing is added to a header and every copy works.
pub record IsPlain (v : Voodoo) : Type 0 where
  pub prefix : v.prefix ≡ none
  pub listaddr : v.listaddr ≡ none
  pub hdr : v.hdr_copies ≡ true
  pub foot : v.foot_copies ≡ true
  pub mail : v.mail_copies ≡ true

abbrev pub text : Option Bytes → Bytes
text none = []
text (some s) = s

abbrev pub is_mime : Bytes → Bool
is_mime hdrline = case_eq_n 4 hdrline (codes "mime")

module _ (v : Voodoo) where
  abbrev pub stripped : Bytes → Bool
  stripped hdrline = elim v.delhdrs [ none ↦ false | some delhdrs ↦ findit hdrline delhdrs ]

  -- The headers that are kept, as they stand in the mail.
  unfoldable pub kept : List Header → Bytes
  kept [] = []
  kept ((hdrline, unfolded) ∷ hdrs) = if stripped hdrline then kept hdrs else unfolded ++ kept hdrs

  -- The same, with the extra headers in front of the first one of MIME, or behind them all.
  unfoldable pub kept_with_extra : List Header → Bytes
  kept_with_extra [] = text v.hdrfd
  kept_with_extra ((hdrline, unfolded) ∷ hdrs) =
      if is_mime hdrline
      then text v.hdrfd ++ kept ((hdrline, unfolded) ∷ hdrs)
      else if stripped hdrline
      then kept_with_extra hdrs
      else unfolded ++ kept_with_extra hdrs

  rest : List Bytes → Bytes
  rest body = codes "\n" ++ (concatenated body ++ text v.footfd)

  module _ (p : IsPlain v) where
    write_rest_plain :
        (body : List Bytes) → write_rest v body ≡ written (concatenated body ++ text v.footfd)
    unfolding write_rest
    write_rest_plain body = elim (Option-cases v.footfd) [
      | inl e ↦ rw (e, p.mail, write_rest) refl
      | inr (f, e) ↦ rw (e, p.mail, p.foot, write_rest) refl
    ]

    end_of_headers_plain :
        (subject present : Bool) (body : List Bytes)
        → end_of_headers v subject present null body ≡ written (rest body)
    unfolding end_of_headers add_replyto rest
    end_of_headers_plain subject present body =
        rw (p.prefix, end_of_headers, write_rest_plain body) refl

    add_extra_plain :
        (out : Bytes) → add_extra v false (written out) ≡ written (text v.hdrfd ++ out)
    unfolding add_extra
    add_extra_plain out = elim (Option-cases v.hdrfd) [
      | inl e ↦ rw (e, add_extra) refl
      | inr (extra, e) ↦ rw (e, p.hdr, add_extra) refl
    ]

    wants_prefix_plain : (hdrline : Bytes) → wants_prefix v hdrline ≡ none
    unfolding wants_prefix
    wants_prefix_plain hdrline = rw (p.prefix, wants_prefix) refl

    write_header_plain :
        (present : Bool) (hdrline unfolded : Bytes) (next : Bool → Pointer → Written)
        → write_header v present null (hdrline, unfolded) next
          ≡ (if stripped hdrline then next present null else emit unfolded (next present null))
    unfolding write_header
    write_header_plain present hdrline unfolded next = rw (p.listaddr, write_header) refl

    write_headers-next :
        (added subject present : Bool) (hdrline unfolded : Bytes) (hdrs : List Header)
        (body : List Bytes)
        → (w : Written)
        → ((s : Bool) → write_headers v (added || is_mime hdrline) s present null hdrs body ≡ w)
        → write_headers v added subject present null ((hdrline, unfolded) ∷ hdrs) body ≡ (
            let line = if stripped hdrline then w else emit unfolded w in
            if is_mime hdrline then add_extra v added line else line)
    unfolding write_headers
    write_headers-next added subject present hdrline unfolded hdrs body w h =
        rw
          (
            write_headers,
            wants_prefix_plain hdrline,
            write_header_plain present hdrline unfolded (λ q r.
                write_headers v (added || is_mime hdrline) (subject || is_subject v hdrline) q r
                  hdrs body),
            h (subject || is_subject v hdrline),
          )
          refl

    line_kept :
        (hdrline unfolded : Bytes) (hdrs : List Header) (out : Bytes)
        → (if stripped hdrline
            then written (kept hdrs ++ out)
            else emit unfolded (written (kept hdrs ++ out)))
          ≡ written (kept ((hdrline, unfolded) ∷ hdrs) ++ out)
    unfolding kept
    line_kept hdrline unfolded hdrs out = elim (Bool-cases (stripped hdrline)) [
      | inl e ↦ rw e refl
      | inr e ↦ rw (e, append_assoc unfolded (kept hdrs) out) refl
    ]

    write_headers_end :
        (added subject present : Bool) (q : Pointer) (body : List Bytes)
        → write_headers v added subject present q [] body
          ≡ add_extra v added (end_of_headers v subject present q body)
    unfolding write_headers
    write_headers_end added subject present q body = refl

    added_once : (t : Bool) (w : Written) → (if t then add_extra v true w else w) ≡ w
    unfolding add_extra
    added_once true w = refl
    added_once false w = refl

    write_headers-kept :
        (subject present : Bool) (hdrs : List Header) (body : List Bytes)
        → write_headers v true subject present null hdrs body ≡ written (kept hdrs ++ rest body)
    unfolding add_extra kept
    write_headers-kept subject present [] body =
        write_headers_end true subject present null body ∙ end_of_headers_plain subject present body
    write_headers-kept subject present ((hdrline, unfolded) ∷ hdrs) body =
        write_headers-next true subject present hdrline unfolded hdrs body _
          (λ s. write_headers-kept s present hdrs body)
        ∙ (added_once (is_mime hdrline) _ ∙ line_kept hdrline unfolded hdrs (rest body))

    line_with_extra :
        (hdrline unfolded : Bytes) (hdrs : List Header) (out : Bytes)
        → is_mime hdrline ≡ false
        → (if stripped hdrline
            then written (kept_with_extra hdrs ++ out)
            else emit unfolded (written (kept_with_extra hdrs ++ out)))
          ≡ written (kept_with_extra ((hdrline, unfolded) ∷ hdrs) ++ out)
    unfolding kept_with_extra
    line_with_extra hdrline unfolded hdrs out m = elim (Bool-cases (stripped hdrline)) [
      | inl e ↦ rw (m, e) refl
      | inr e ↦ rw (m, e, append_assoc unfolded (kept_with_extra hdrs) out) refl
    ]

    kept_with_extra-mime :
        (hdrline unfolded : Bytes) (hdrs : List Header)
        → is_mime hdrline ≡ true
        → kept_with_extra ((hdrline, unfolded) ∷ hdrs)
          ≡ text v.hdrfd ++ kept ((hdrline, unfolded) ∷ hdrs)
    unfolding kept_with_extra
    kept_with_extra-mime hdrline unfolded hdrs m = rw m refl

    write_headers-kept_with_extra :
        (subject present : Bool) (hdrs : List Header) (body : List Bytes)
        → write_headers v false subject present null hdrs body
          ≡ written (kept_with_extra hdrs ++ rest body)
    unfolding kept_with_extra
    write_headers-kept_with_extra subject present [] body =
        write_headers_end false subject present null body
        ∙ rw (end_of_headers_plain subject present body) (add_extra_plain (rest body))
    write_headers-kept_with_extra subject present ((hdrline, unfolded) ∷ hdrs) body =
        elim (Bool-cases (is_mime hdrline)) [
          | inl e ↦
              write_headers-next false subject present hdrline unfolded hdrs body
                (written (kept hdrs ++ rest body))
                (λ s. rw e (write_headers-kept s present hdrs body))
              ∙ with_mime e
          | inr e ↦
              write_headers-next false subject present hdrline unfolded hdrs body
                (written (kept_with_extra hdrs ++ rest body))
                (λ s. rw e (write_headers-kept_with_extra s present hdrs body))
              ∙ (rw e refl ∙ line_with_extra hdrline unfolded hdrs (rest body) e)
        ]
      where
        with_mime :
            is_mime hdrline ≡ true
            → (let line =
                  if stripped hdrline
                  then written (kept hdrs ++ rest body)
                  else emit unfolded (written (kept hdrs ++ rest body)) in
                if is_mime hdrline then add_extra v false line else line)
              ≡ written (kept_with_extra ((hdrline, unfolded) ∷ hdrs) ++ rest body)
        with_mime e =
            rw
              (
                e,
                line_kept hdrline unfolded hdrs (rest body),
                add_extra_plain (kept ((hdrline, unfolded) ∷ hdrs) ++ rest body),
              )
              (ap written
                (sym (append_assoc (text v.hdrfd) (kept ((hdrline, unfolded) ∷ hdrs)) (rest body))))

  -- A mail to which no prefix and no address is added keeps its headers as they stand in it and in
  -- their order, less those that are to be stripped; the extra headers stand in front of the first
  -- header of MIME or behind them all; an empty line, the body and the footer follow.
  pub do_all_the_voodoo_here-kept_with_extra :
      (readhdrs : List (Bytes × List Bytes)) (mail : List Bytes)
      → IsPlain v
      → (do_all_the_voodoo_here v readhdrs mail).0
        ≡ written (
            kept_with_extra (headers mail).0
            ++ (codes "\n" ++ (concatenated (headers mail).1 ++ text v.footfd)))
  unfolding do_all_the_voodoo_here rest
  do_all_the_voodoo_here-kept_with_extra readhdrs mail p =
      write_headers-kept_with_extra p false false (headers mail).0 (headers mail).1

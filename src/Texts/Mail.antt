-- ===== src/Texts/Mail.antt =====
-- The mail that `prepstdreply` of src/prepstdreply.c makes of a text.
use mlmmj.Base.{
  ℕ, zero, suc, ◌+◌, ◌<◌, ◌≡◌, refl, sym, ap, ◌∙◌, ◌⊎◌, inl, inr, Bool, true, false, ◌||◌, Option,
  none, some, List, [], ◌∷◌, ◌++◌, map, append_assoc, append-nil, arith, ◌==◌, if◌then◌else◌,
  Bool-cases, Bytes, codes, length, is_empty, All,
}
use mlmmj.CString.{peek, case_eq, case_eq_n, strchr, contains}
use mlmmj.CString.Search.{strchr-parts}
use mlmmj.Texts.{Site, Substs, Loop, done}
use mlmmj.Texts.Initial.{standard_headers-Distinct}
use mlmmj.Texts.Headers.{
  header_line, written, part, with_newline, write_lines, read_head, write_body, write_rest,
  finish_mail, go_on_with_body, Reply, standard_headers, register_randoms, prepstdreply,
}
use mlmmj.Texts.Standard.{
  field, IsNamed, Distinct, without, without-All, without-Distinct, remove_header-without,
  case_eq_n_field,
}
use mlmmj.Unistr.Header.{unistr_utf8_to_header}

abbrev is_continued : Bytes → Bool
is_continued line = peek line == b' ' || peek line == b'\t'

-- A line that is taken for a header, or that continues one.
abbrev pub IsHeaderLine : Bytes → Type 0
IsHeaderLine line = (is_empty line ≡ false) × ((is_continued line ≡ true) ⊎ IsNamed line)

-- What is written of it: the text of a subject is encoded.
unfoldable pub shown_header : Bytes → Bytes
unfolding case_eq strchr unistr_utf8_to_header
shown_header line = if is_continued line then line else elim (strchr b':' line) [
  | none ↦ line
  | some (name, value) ↦
      if case_eq name (codes "Subject")
      then codes "Subject: " ++ unistr_utf8_to_header value
      else line
]

-- The standard headers that are left behind some lines of the text: those whose names it does not have.
unfoldable pub left_headers : List Bytes → List Bytes → List Bytes
unfolding without
left_headers [] headers = headers
left_headers (line ∷ lines) headers =
    if is_continued line
    then left_headers lines headers
    else left_headers lines (without (field line) headers)

continued_line :
    (line : Bytes) (headers : List Bytes)
    → is_empty line ≡ false
    → is_continued line ≡ true
    → header_line headers line ≡ written (shown_header line) headers
unfolding header_line shown_header
continued_line [] headers e h = absurd (cc)
continued_line (c ∷ s) headers e h = rw (header_line, shown_header, h) refl

named_line :
    (line : Bytes) (headers : List Bytes)
    → is_empty line ≡ false
    → is_continued line ≡ false
    → IsNamed line
    → All IsNamed headers
    → Distinct headers
    → header_line headers line ≡ written (shown_header line) (without (field line) headers)
unfolding header_line shown_header contains
named_line [] headers e h n named distinct = absurd (cc)
named_line (c ∷ s) headers e h (parts, n) named distinct =
    let (at, free) = strchr-parts b':' (c ∷ s) parts.0 parts.1 n in
    let subject : case_eq_n (length parts.0 + 1) (c ∷ s) (codes "Subject:")
        ≡ case_eq parts.0 (codes "Subject") =
      ap (λ l. case_eq_n (length parts.0 + 1) l (codes "Subject:")) at
      ∙ case_eq_n_field parts.0 (codes "Subject") parts.1 [] free refl in
    rw
      (
        header_line,
        shown_header,
        h,
        field,
        n,
        subject,
        remove_header-without (c ∷ s) parts headers n named distinct,
      )
      refl

left-IsNamed :
    (lines headers : List Bytes)
    → All IsNamed headers
    → Distinct headers
    → All IsNamed (left_headers lines headers)
unfolding left_headers
left-IsNamed [] headers n d = n
left-IsNamed (line ∷ lines) headers n d = elim (Bool-cases (is_continued line)) [
  | inl e ↦ rw (left_headers, e) (left-IsNamed lines headers n d)
  | inr e ↦
      rw (left_headers, e)
        (left-IsNamed lines (without (field line) headers)
          (without-All IsNamed (field line) headers n) (without-Distinct (field line) headers d))
]

map_shown :
    (lines left body : List Bytes)
    → map with_newline (map shown_header lines ++ (left ++ [] ∷ body))
      ≡ map (λ line. with_newline (shown_header line)) lines
        ++ (map with_newline left ++ (codes "\n" ∷ map with_newline body))
map_shown [] [] body = refl
map_shown [] (header ∷ left) body = ap (λ l. with_newline header ∷ l) (map_shown [] left body)
map_shown (line ∷ lines) left body =
    ap (λ l. with_newline (shown_header line) ∷ l) (map_shown lines left body)

module _ {ℓ} {S : Type ℓ} (next : Bool → S → Loop (Option Bytes × S))
    (can_write : Bytes → Bool) where
  -- Asked again and again, the text gives these lines.
  abbrev pub Gives : Bool → S → List Bytes → S → Type ℓ
  Gives flag s [] t = s ≡ t
  Gives flag s (line ∷ lines) t =
      (u : S) × (next flag s ≡ done (some line, u)) × Gives flag u lines t

  module _ (writes : (line : Bytes) → can_write line ≡ true) where
    write_lines_all : (lines : List Bytes) → write_lines can_write lines ≡ (lines, true)
    write_lines_all [] = refl
    write_lines_all (line ∷ lines) = rw (writes line, write_lines_all lines) refl

    body_all :
        (fuel : ℕ) (lines : List Bytes) (s t u : S) (out : List Bytes)
        → length lines < fuel
        → Gives false s lines t
        → next false t ≡ done (none, u)
        → write_rest next can_write fuel s none out ≡ done (out ++ map with_newline lines)
    unfolding write_body write_rest
    body_all zero lines s t u out h g e = absurd (omega arith)
    body_all (suc fuel) [] s t u out h g e = rw (write_rest, g, e, append-nil out) refl
    body_all (suc fuel) (line ∷ lines) s t u out h (v, first, g) e =
        rw (write_rest, first, write_body, writes (with_newline line))
          (body_all fuel lines v t u (out ++ with_newline line ∷ []) (omega arith) g e
            ∙ ap done (append_assoc out (with_newline line ∷ []) (map with_newline lines)))

    finish_mail_all :
        (fuel : ℕ) (left out body : List Bytes) (s t u : S)
        → length body < fuel
        → Gives false s body t
        → next false t ≡ done (none, u)
        → finish_mail next can_write fuel (part left out none s)
          ≡ done (out ++ (map with_newline left ++ (codes "\n" ∷ map with_newline body)), true)
    unfolding finish_mail go_on_with_body
    finish_mail_all fuel left out body s t u h g e =
        let more : List Bytes = map with_newline left ++ codes "\n" ∷ [] in
        let ended : write_rest next can_write fuel s none (out ++ more)
            ≡ done ((out ++ more) ++ map with_newline body) =
          body_all fuel body s t u (out ++ more) h g e in
        ap (go_on_with_body next can_write fuel s none out) (write_lines_all more)
        ∙ rw (go_on_with_body, ended) (ap (λ o. done (o, true)) (simp append_assoc))

    read_head_all :
        (fuel : ℕ) (lines : List Bytes) (s t u : S) (headers out : List Bytes)
        → length lines < fuel
        → Gives true s lines t
        → next true t ≡ done (some [], u)
        → All IsHeaderLine lines
        → All IsNamed headers
        → Distinct headers
        → read_head next can_write fuel s headers out
          ≡ done (
              part
                (left_headers lines headers)
                (out ++ map (λ line. with_newline (shown_header line)) lines)
                none
                u)
    unfolding read_head header_line left_headers
    read_head_all zero lines s t u headers out h g e ls named distinct = absurd (omega arith)
    read_head_all (suc fuel) [] s t u headers out h g e ls named distinct =
        rw (read_head, g, e, append-nil out) refl
    read_head_all (suc fuel) (line ∷ lines) s t u headers out h (v, first, g) e ((full, ok), ls)
          named distinct =
        let shown : Bytes = with_newline (shown_header line) in
        let regroup =
          append_assoc out (shown ∷ []) (map (λ l. with_newline (shown_header l)) lines) in
        elim (Bool-cases (is_continued line)) [
          | inl c ↦
              rw
                (
                  read_head,
                  first,
                  continued_line line headers full c,
                  writes shown,
                  left_headers,
                  c,
                )
                (read_head_all fuel lines v t u headers (out ++ shown ∷ []) (omega arith) g e ls
                    named distinct
                  ∙ ap (λ o. done (part (left_headers lines headers) o none u)) regroup)
          | inr c ↦ elim ok [
            | inl d ↦ absurd (cc)
            | inr n ↦
                let left : List Bytes = without (field line) headers in
                rw
                  (
                    read_head,
                    first,
                    named_line line headers full c n named distinct,
                    writes shown,
                    left_headers,
                    c,
                  )
                  (read_head_all fuel lines v t u left (out ++ shown ∷ []) (omega arith) g e ls
                      (without-All IsNamed (field line) headers named)
                      (without-Distinct (field line) headers distinct)
                    ∙ ap (λ o. done (part (left_headers lines left) o none u)) regroup)
          ]
        ]

-- Where the file can be made and every line can be written, and the standard headers are found: a text whose lines up
-- to the first empty one are headers, and whose body ends, gives a mail with its headers in their order, then the
-- standard headers whose names it does not have, an empty line, and its body.
pub prepstdreply-left_headers {ℓ} :
    {S : Type ℓ} (next : Site → Bool → S → Loop (Option Bytes × S)) (text : Substs → S) (fuel : ℕ)
    (s : Site) (substs : Substs) (r : Reply) (headers : List Bytes) (lines body : List Bytes)
    (t u v w : S)
    → r.created ≡ true
    → ((line : Bytes) → r.can_write line ≡ true)
    → standard_headers fuel s (register_randoms 0 r.randoms substs) r ≡ done headers
    → Gives (next s) r.can_write true (text (register_randoms 0 r.randoms substs)) lines t
    → next s true t ≡ done (some [], u)
    → All IsHeaderLine lines
    → Gives (next s) r.can_write false u body v
    → next s false v ≡ done (none, w)
    → length lines < fuel
    → length body < fuel
    → prepstdreply next text fuel s substs r
      ≡ done (
          some (
            map with_newline (map shown_header lines ++ (left_headers lines headers ++ [] ∷ body)),
            true,
          ))
unfolding prepstdreply finish_mail
prepstdreply-left_headers next text fuel s substs r left lines body t u v w made writes std gl el ls
      gb eb hl hb =
    let (named, distinct) =
      standard_headers-Distinct fuel s (register_randoms 0 r.randoms substs) r left std in
    let own : List Bytes = map (λ line. with_newline (shown_header line)) lines in
    rw
      (
        prepstdreply,
        made,
        std,
        read_head_all (next s) r.can_write writes fuel lines _ t u left [] hl gl el ls named
            distinct,
        finish_mail_all (next s) r.can_write writes fuel (left_headers lines left) own body u v w hb
            gb eb,
      )
      (ap (λ o. done (some (o, true))) (sym (map_shown lines (left_headers lines left) body)))

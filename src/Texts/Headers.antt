-- ===== src/Texts/Headers.antt =====
-- The mail that is made of a list text, `prepstdreply` of src/prepstdreply.c, over what gives the lines of the text.
use mlmmj.Base.{
  ℕ, zero, suc, ◌+◌, Bool, true, false, ◌||◌, Option, none, some, List, [], ◌∷◌, ◌++◌, map, ◌==◌,
  if◌then◌else◌, Bytes, codes, length, take,
}
use mlmmj.CString.{case_eq_n, strchr}
use mlmmj.Texts.{Site, Substs, Loop, unfinished, crashed, done, substitute_from, substitute}
use mlmmj.Headers.{chomp}
use mlmmj.Names.{hex8}
use mlmmj.Unistr.Header.{unistr_utf8_to_header}

-- `genmsgid` of src/strgen.c, with the time, the process and a random number.
unfoldable pub genmsgid : Bytes → Bytes → ℕ → Bytes → Bytes
genmsgid time pid random fqdn = take 255 (
    codes "Message-ID: <"
    ++ (time ++ b'-' ∷ (pid ++ (codes "-mlmmj-" ++ (hex8 random ++ b'@' ∷ (fqdn ++ codes ">\n"))))))

-- What the caller gives, and what the system answers: `created` is whether a file can be made in queue/, and `date`
-- stands behind `Date: `.
pub record Reply : Type 0 where
  pub from : Bytes
  pub to : Bytes
  pub replyto : Option Bytes
  pub created : Bool
  pub can_write : Bytes → Bool
  pub randoms : List Bytes
  pub time : Bytes
  pub pid : Bytes
  pub random : ℕ
  pub date : Bytes

-- `random0` and the others, the last one first.
unfoldable pub register_randoms : ℕ → List Bytes → Substs → Substs
register_randoms i [] substs = substs
register_randoms i (str ∷ strs) substs =
    register_randoms (i + 1) strs ((codes "random" ++ (b'0' + i) ∷ [], str) ∷ substs)

abbrev pub and_then {ℓ ℓ'} : {A : Type ℓ} → {B : Type ℓ'} → Loop A → (A → Loop B) → Loop B
and_then unfinished f = unfinished
and_then crashed f = crashed
and_then (done value) f = f value

unfoldable pub replied : ℕ → Site → Substs → Option Bytes → Loop (Option Bytes)
unfolding substitute_from
replied fuel s substs none = done none
replied fuel s substs (some replyto) =
    and_then (substitute fuel s substs replyto) (λ value. done (some value))

-- The headers of a mail whose text has none of them.
unfoldable pub standard_list : Site → Reply → Bytes → Bytes → Option Bytes → List Bytes
unfolding genmsgid chomp
standard_list s r from to replyto =
    (codes "From: " ++ from)
    ∷ (codes "To: " ++ to)
    ∷ chomp (genmsgid r.time r.pid r.random s.fqdn)
    ∷ (codes "Date: " ++ r.date)
    ∷ codes "Subject: mlmmj administrivia"
    ∷ codes "MIME-Version: 1.0"
    ∷ codes "Content-Type: text/plain; charset=utf-8"
    ∷ codes "Content-Transfer-Encoding: 8bit"
    ∷ elim replyto [ none ↦ [] | some value ↦ (codes "Reply-To: " ++ value) ∷ [] ]

unfoldable pub standard_headers : ℕ → Site → Substs → Reply → Loop (List Bytes)
unfolding replied standard_list
standard_headers fuel s substs r = and_then (substitute fuel s substs r.from) (λ from.
    and_then (substitute fuel s substs r.to) (λ to.
      and_then (replied fuel s substs r.replyto)
        (λ replyto. done (standard_list s r from to replyto))))

-- The first header whose `len` characters are those of the line is taken out.
unfoldable pub remove_header : ℕ → Bytes → List Bytes → List Bytes
unfolding case_eq_n
remove_header len line [] = []
remove_header len line (header ∷ headers) =
    let others = remove_header len line headers in
    if case_eq_n len line header then headers else header ∷ others

-- What is done with a line in front of the first empty one: it is written, with the headers that are left; or it is
-- no header, and with what follows it the body.
pub data HeaderLine : Type 0 where
  ends_headers invalid : HeaderLine
  written : Bytes → List Bytes → HeaderLine

unfoldable pub header_line : List Bytes → Bytes → HeaderLine
unfolding remove_header case_eq_n strchr unistr_utf8_to_header
header_line headers [] = ends_headers
header_line headers (c ∷ s) =
    if c == b' ' || c == b'\t' then written (c ∷ s) headers else elim (strchr b':' (c ∷ s)) [
      | none ↦ invalid
      | some (name, value) ↦
          let len : ℕ = length name + 1 in
          let line : Bytes =
            if case_eq_n len (c ∷ s) (codes "Subject:")
            then codes "Subject: " ++ unistr_utf8_to_header value
            else c ∷ s in
          written line (remove_header len (c ∷ s) headers)
    ]

-- How the part with the headers ends: with the headers that are left, the lines in the file, a line that is kept for
-- the body, and the text; or with a line that could not be written.
pub data HeaderPart {ℓ} (S : Type ℓ) : Type ℓ where
  unwritten : List Bytes → HeaderPart S
  part : List Bytes → List Bytes → Option Bytes → S → HeaderPart S

abbrev pub with_newline : Bytes → Bytes
with_newline line = line ++ codes "\n"

-- The lines that can be written, up to the first one that can not, and whether all of them could.
abbrev pub write_lines : (Bytes → Bool) → List Bytes → List Bytes × Bool
write_lines can_write [] = ([], true)
write_lines can_write (line ∷ lines) =
    let (rest, all_written) = write_lines can_write lines in
    if can_write line then (line ∷ rest, all_written) else ([], false)

module _ {ℓ} {S : Type ℓ} (next : Bool → S → Loop (Option Bytes × S))
    (can_write : Bytes → Bool) where
  -- The text gives its next line; the flag is whether it is asked for a header.
  unfoldable pub read_head : ℕ → S → List Bytes → List Bytes → Loop (HeaderPart S)
  unfolding header_line
  read_head zero s headers out = unfinished
  read_head (suc fuel) s headers out = elim (next true s) [
    | unfinished ↦ unfinished
    | crashed ↦ crashed
    | done (none, t) ↦ done (part headers out none t)
    | done (some line, t) ↦ elim (header_line headers line) [
      | ends_headers ↦ done (part headers out none t)
      | invalid ↦ done (part headers out (some line) t)
      | written shown left ↦ elim (can_write (with_newline shown)) [
        | true ↦ read_head fuel t left (out ++ with_newline shown ∷ [])
        | false ↦ done (unwritten out)
      ]
    ]
  ]

  -- The body, from a line on. Where a line can not be written, a string is freed a second time.
  unfoldable pub write_body : ℕ → S → Option Bytes → List Bytes → Loop (List Bytes)
  write_body zero s line out = unfinished
  write_body (suc fuel) s none out = done out
  write_body (suc fuel) s (some line) out = elim (can_write (with_newline line)) [
    | false ↦ crashed
    | true ↦ elim (next false s) [
      | unfinished ↦ unfinished
      | crashed ↦ crashed
      | done (later, t) ↦ write_body fuel t later (out ++ with_newline line ∷ [])
    ]
  ]

  -- The body, with the line that was kept for it.
  unfoldable pub write_rest : ℕ → S → Option Bytes → List Bytes → Loop (List Bytes)
  unfolding write_body
  write_rest fuel s (some line) out = write_body fuel s (some line) out
  write_rest fuel s none out = elim (next false s) [
    | unfinished ↦ unfinished
    | crashed ↦ crashed
    | done (line, t) ↦ write_body fuel t line out
  ]

  -- Behind the lines in front of the body that were written, with whether all of them were.
  unfoldable pub go_on_with_body :
      ℕ → S → Option Bytes → List Bytes → List Bytes × Bool → Loop (List Bytes × Bool)
  unfolding write_rest
  go_on_with_body fuel s pending out (lines, false) = done (out ++ lines, false)
  go_on_with_body fuel s pending out (lines, true) =
      elim (write_rest fuel s pending (out ++ lines)) [
        | unfinished ↦ unfinished
        | crashed ↦ crashed
        | done out ↦ done (out, true)
      ]

  -- Behind the headers of the text: the standard ones that are left, an empty line and the body. The result has
  -- the lines of the file, and whether its name is returned.
  unfoldable pub finish_mail : ℕ → HeaderPart S → Loop (List Bytes × Bool)
  unfolding go_on_with_body
  finish_mail fuel (unwritten out) = done (out, false)
  finish_mail fuel (part headers out pending s) =
      go_on_with_body fuel s pending out
        (write_lines can_write (map with_newline headers ++ codes "\n" ∷ []))

-- The lines of the file in queue/ and whether its name is returned; `none` where there is no file. `register` adds
-- the substitutions to the text.
unfoldable pub prepstdreply {ℓ} :
    {S : Type ℓ}
    → (Site → Bool → S → Loop (Option Bytes × S))
    → (Substs → S)
    → ℕ
    → Site
    → Substs
    → Reply
    → Loop (Option (List Bytes × Bool))
unfolding register_randoms standard_headers read_head finish_mail
prepstdreply next text fuel s substs0 r =
    let substs : Substs = register_randoms 0 r.randoms substs0 in
    elim r.created [
      | false ↦ done none
      | true ↦ elim (standard_headers fuel s substs r) [
        | unfinished ↦ unfinished
        | crashed ↦ crashed
        | done headers ↦ elim (read_head (next s) r.can_write fuel (text substs) headers []) [
          | unfinished ↦ unfinished
          | crashed ↦ crashed
          | done made ↦ elim (finish_mail (next s) r.can_write fuel made) [
            | unfinished ↦ unfinished
            | crashed ↦ crashed
            | done mail ↦ done (some mail)
          ]
        ]
      ]
    ]

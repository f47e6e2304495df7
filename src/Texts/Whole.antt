-- ===== src/Texts/Whole.antt =====
-- The mail of a text in which nothing is to be dealt with, `prepstdreply` with `get_processed_text_line` of
-- src/prepstdreply.c.
use mlmmj.Base.{
  ℕ, suc, ◌<◌, ◌≡◌, refl, ap, Bool, true, false, ◌&&◌, Option, none, some, List, [], ◌∷◌, ◌++◌, map,
  arith, Bytes, codes, length, is_empty, All,
}
use mlmmj.Texts.{Site, Substs, Loop, done}
use mlmmj.Texts.Mail.{IsHeaderLine, shown_header, left_headers, Gives, prepstdreply-left_headers}
use mlmmj.Texts.Plain.{reading, IsPlain, get_processed_text_line-plain}
use mlmmj.Texts.Sources.{Text}
use mlmmj.Texts.Reading.{get_processed_text_line, read_rounds, read_round, read_source, fetch_line}
use mlmmj.Unistr.{unistr_to_utf8, unistr_append_utf8, utf8, encode_all, encode}
use mlmmj.Unistr.Escaped.{escaped, unistr_escaped_to_utf8}
use mlmmj.Texts.Headers.{with_newline, Reply, standard_headers, register_randoms, prepstdreply}

-- The text is asked for its lines with this fuel for the loops of a line.
abbrev pub reads : ℕ → ℕ → Site → Bool → Text → Loop (Option Bytes × Text)
reads rounds fuel s headers t = get_processed_text_line (suc rounds) fuel s headers t

-- A text of headers, an empty line and a body.
abbrev pub text_of : Text → List Bytes → List Bytes → Substs → Text
text_of t lines body substs =
    reading (record t { substs = substs })
      (map with_newline lines ++ codes "\n" ∷ map with_newline body) []

-- A line that can be read with so much fuel.
abbrev pub Fits : ℕ → Bytes → Type 0
Fits fuel line = IsPlain line × (length line < fuel)

module _ (rounds fuel : ℕ) (s : Site) (can_write : Bytes → Bool) (t : Text)
    (unwrapped : t.wrapwidth ≡ 0) (shows : t.conds.skip ≡ none) where
  headers-Gives :
      (lines rest : List Bytes)
      → All (Fits fuel) lines
      → Gives
          (reads rounds fuel s)
          can_write
          true
          (reading t (map with_newline lines ++ rest) [])
          lines
          (reading t rest [])
  headers-Gives [] rest h = refl
  headers-Gives (line ∷ lines) rest ((plain, short), hs) = (
    reading t (map with_newline lines ++ rest) [],
    get_processed_text_line-plain s t line (map with_newline lines ++ rest) [] true rounds fuel
        unwrapped shows plain (ground arith) short,
    headers-Gives lines rest hs,
  )

  body-Gives :
      (lines : List Bytes)
      → All (Fits fuel) lines
      → All (λ line. is_empty line ≡ false) lines
      → Gives
          (reads rounds fuel s)
          can_write
          false
          (reading t (map with_newline lines) [])
          lines
          (reading t [] [])
  body-Gives [] h full = refl
  body-Gives (line ∷ lines) ((plain, short), hs) (full, fulls) = (
    reading t (map with_newline lines) [],
    get_processed_text_line-plain s t line (map with_newline lines) [] false rounds fuel unwrapped
        shows plain (ap (λ b. b && true) full) short,
    body-Gives lines hs fulls,
  )

  reads-end : reads rounds fuel s false (reading t [] []) ≡ done (none, record t { sources = [] })
  unfolding read_rounds read_round fetch_line read_source
  reads-end = refl

empty-IsPlain : IsPlain []
unfolding unistr_escaped_to_utf8 escaped unistr_to_utf8 unistr_append_utf8 utf8 encode_all encode
empty-IsPlain = (refl, refl)

-- Where the file can be made and every line can be written, the standard headers are found, and the text neither wraps
-- nor skips: with enough fuel for the longest line and the number of lines, a text of headers, an empty line and a
-- body of lines that are not empty, in which nothing is to be dealt with, is answered. The mail has its headers in
-- their order, then the standard headers whose names it does not have, an empty line, and its body as it stands.
pub prepstdreply-plain :
    (rounds fuel size : ℕ) (s : Site) (t : Text) (substs : Substs) (r : Reply)
    (headers lines body : List Bytes)
    → t.wrapwidth ≡ 0
    → t.conds.skip ≡ none
    → r.created ≡ true
    → ((line : Bytes) → r.can_write line ≡ true)
    → standard_headers size s (register_randoms 0 r.randoms substs) r ≡ done headers
    → All (Fits fuel) lines
    → All IsHeaderLine lines
    → All (Fits fuel) body
    → All (λ line. is_empty line ≡ false) body
    → 0 < fuel
    → length lines < size
    → length body < size
    → prepstdreply (reads rounds fuel) (text_of t lines body) size s substs r
      ≡ done (
          some (
            map with_newline (map shown_header lines ++ (left_headers lines headers ++ [] ∷ body)),
            true,
          ))
prepstdreply-plain rounds fuel size s t substs r left lines body uw sh made writes std hl il hb fb
      pos nl nb =
    let all_substs : Substs = register_randoms 0 r.randoms substs in
    let u : Text = record t { substs = all_substs } in
    let bodies : List Bytes = map with_newline body in
    let blank : reads rounds fuel s true (reading u (codes "\n" ∷ bodies) [])
        ≡ done (some [], reading u bodies []) =
      get_processed_text_line-plain s u [] bodies [] true rounds fuel uw sh empty-IsPlain refl
        pos in
    prepstdreply-left_headers (reads rounds fuel) (text_of t lines body) size s substs r left lines
      body (reading u (codes "\n" ∷ bodies) []) (reading u bodies []) (reading u [] [])
      (record u { sources = [] }) made writes std
      (headers-Gives rounds fuel s r.can_write u uw sh lines (codes "\n" ∷ bodies) hl) blank il
      (body-Gives rounds fuel s r.can_write u uw sh body hb fb)
      (reads-end rounds fuel s r.can_write u uw sh) nl nb

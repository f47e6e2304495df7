-- ===== src/Texts/Plain.antt =====
-- Lines of a text that have nothing to be dealt with, `get_processed_text_line` of src/prepstdreply.c.
use mlmmj.Base.{
  ℕ, zero, suc, ◌<◌, ◌≡◌, refl, sym, ap, ◌∙◌, inl, inr, Bool, true, false, not, ◌&&◌, ◌||◌, none,
  some, List, [], ◌∷◌, ◌++◌, append_assoc, append-nil, arith, ltb, ◌==◌, if◌then◌else◌, &&-left,
  &&-right, Bool-cases, Bytes, codes, length, is_empty, all,
}
use mlmmj.Texts.{Site, Loop, unfinished, crashed, done}
use mlmmj.Texts.{Loop, unfinished, crashed, done, Site}
use mlmmj.Texts.Reading.{
  get_processed_text_line, read_rounds, read_round, read_source, fetch_line, join_prefix,
  finish_line, start_scanning, first_round, gives, Next,
}
use mlmmj.Unistr.Escaped.{unistr_escaped_to_utf8}
use mlmmj.Texts.Line.{
  Scanning, Turn, again, skipping, is_transparent, is_char, pass_char, end_line, turn, breaks,
  scan_line,
}
use mlmmj.Texts.Sources.{Text, new_source, Source}

abbrev pub is_plain : ℕ → Bool
is_plain c = not (c == b'\r' || c == b'\n' || c == b'\\' || c == b'$' || c == b'%')

-- What a character that is passed over leaves as it was.
abbrev pub Same : Scanning → Scanning → Type 0
Same r r1 =
    (r1.at.text ≡ r.at.text)
    × (r1.at.before ≡ r.at.before)
    × (r1.incision ≡ r.incision)
    × (r1.directive ≡ r.directive)
    × (r1.peeking ≡ r.peeking)

-- Scanning that is in a line of such a text, with what stands before the position.
abbrev Within : Text → Bytes → Scanning → Type 0
Within t before r =
    (r.at.text ≡ t)
    × (r.at.before ≡ before)
    × (r.incision ≡ none)
    × (r.directive ≡ false)
    × (r.peeking ≡ false)

abbrev pub Passed : Scanning → ℕ → Bytes → Turn → Type 0
Passed r c s turned =
    (r1 : Scanning) × (turned ≡ again r1)
    × (r1.at.text ≡ r.at.text)
    × (r1.at.before ≡ r.at.before ++ c ∷ [])
    × (r1.at.after ≡ s)
    × (r1.at.skipwhite ≡ false)
    × (r1.incision ≡ r.incision)
    × (r1.directive ≡ r.directive)
    × (r1.peeking ≡ r.peeking)

pub pass_char-Passed : (r : Scanning) (c : ℕ) (s : Bytes) → Passed r c s (pass_char r c s)
unfolding pass_char
pass_char-Passed r c s = elim (Bool-cases (skipping r)) [
  | inl e ↦ rw (pass_char, e) (_, refl, refl, refl, refl, refl, refl, refl, refl)
  | inr e ↦ rw (pass_char, e) (_, refl, refl, refl, refl, refl, refl, refl, refl)
]

abbrev pub Passes : Site → Scanning → ℕ → Bytes → Scanning → Type 0
Passes site r0 c s r = (r1 : Scanning) × (turn site r0 c s ≡ pass_char r1 c s) × Same r r1

if-Same :
    (b : Bool) (r1 r : Scanning)
    → Same r r1
    → Same r (record (if b then r1 else r) { inhibitbreak = false })
if-Same true r1 r same = same
if-Same false r1 r same = (refl, refl, refl, refl, refl)

module _ (site : Site) (r : Scanning) (c : ℕ) (s : Bytes)
    (opaque : is_transparent r.at.text ≡ false) (still : r.peeking ≡ false)
    (plain : is_plain c ≡ true) where
  pub turn-Passes : Passes site r c s r
  unfolding turn
  turn-Passes =
      let cr : (c == b'\r') ≡ false = ground arith in
      let lf : (c == b'\n') ≡ false = ground arith in
      let slash : (c == b'\\') ≡ false = ground arith in
      let dollar : (c == b'$') ≡ false = ground arith in
      let percent : (c == b'%') ≡ false = ground arith in
      elim (Bool-cases
        (ltb 191 c && not (skipping r) && is_char r.at.text.wrapmode && not r.inhibitbreak)) [
          | inl k ↦ elim (Bool-cases (c == b' ')) [
            | inl sp ↦
                rw (turn, k, cr, lf, sp)
                  (
                    _,
                    refl,
                    if-Same _ _ (record r { linebreak = r.len; linebreakwidth = r.at.width })
                        (refl, refl, refl, refl, refl),
                  )
            | inr sp ↦ elim (Bool-cases (c == b'\t')) [
              | inl tab ↦ rw (turn, k, cr, lf, sp, tab) (_, refl, (refl, refl, refl, refl, refl))
              | inr tab ↦
                  rw (turn, k, cr, lf, sp, tab, opaque, slash, dollar, percent, still)
                    (_, refl, (refl, refl, refl, refl, refl))
            ]
          ]
          | inr k ↦ elim (Bool-cases (c == b' ')) [
            | inl sp ↦
                rw (turn, k, cr, lf, sp) (_, refl, if-Same _ _ r (refl, refl, refl, refl, refl))
            | inr sp ↦ elim (Bool-cases (c == b'\t')) [
              | inl tab ↦ rw (turn, k, cr, lf, sp, tab) (_, refl, (refl, refl, refl, refl, refl))
              | inr tab ↦
                  rw (turn, k, cr, lf, sp, tab, opaque, slash, dollar, percent, still)
                    (_, refl, (refl, refl, refl, refl, refl))
            ]
          ]
        ]

pub breaks-unwrapped : (r : Scanning) → r.at.text.wrapwidth ≡ 0 → breaks r ≡ false
breaks-unwrapped r h = rw h refl

module _ (site : Site) (t : Text) (unwrapped : t.wrapwidth ≡ 0)
    (opaque : is_transparent t ≡ false) where
  abbrev Scanned : ℕ → Scanning → Bytes → Type 0
  Scanned fuel r whole =
      (r1 : Scanning) × (scan_line fuel site r ≡ done r1) × Within t whole r1 × (r1.at.after ≡ [])

  scan_line-step :
      (fuel : ℕ) (r r1 : Scanning) (c : ℕ) (s : Bytes)
      → r.at.text ≡ t
      → r.at.after ≡ c ∷ s
      → turn site r c s ≡ again r1
      → scan_line (suc fuel) site r ≡ scan_line fuel site r1
  unfolding scan_line
  scan_line-step fuel r r1 c s same at e =
      rw (scan_line, at, breaks-unwrapped r (ap (λ u. u.wrapwidth) same ∙ unwrapped), e) refl

  scan_line-end :
      (fuel : ℕ) (r : Scanning) (before : Bytes)
      → Within t before r
      → r.at.after ≡ b'\n' ∷ []
      → Scanned (suc fuel) r before
  unfolding scan_line turn end_line
  scan_line-end fuel r before (same, stands, whole, free, still) at =
      rw (scan_line, at, breaks-unwrapped r (ap (λ u. u.wrapwidth) same ∙ unwrapped))
        (
          record r { at = record (r.at) { after = [] } },
          refl,
          (same, stands, whole, free, still),
          refl,
        )

  scan_line-Scanned :
      (rest : Bytes) (fuel : ℕ) (r : Scanning) (before : Bytes)
      → length rest < fuel
      → all is_plain rest ≡ true
      → Within t before r
      → r.at.after ≡ rest ++ b'\n' ∷ []
      → Scanned fuel r (before ++ rest)
  scan_line-Scanned rest zero r before h plain within at = absurd (omega arith)
  scan_line-Scanned [] (suc fuel) r before h plain within at =
      rw (append-nil before) (scan_line-end fuel r before within at)
  scan_line-Scanned (c ∷ s) (suc fuel) r before h plain (same, stands, whole, free, still) at =
      let behind : Bytes = s ++ b'\n' ∷ [] in
      let (r1, e1, (same1, stands1, whole1, free1, still1)) =
        turn-Passes site r c behind (ap is_transparent same ∙ opaque) still (&&-left _ _ plain) in
      let (r2, e2, same2, stands2, at2, white2, whole2, free2, still2) =
        pass_char-Passed r1 c behind in
      let (r3, e3, within3, at3) =
        scan_line-Scanned s fuel r2 (before ++ c ∷ []) (omega arith) (&&-right _ _ plain)
          (
            same2 ∙ same1 ∙ same,
            stands2 ∙ ap (λ b. b ++ c ∷ []) (stands1 ∙ stands),
            whole2 ∙ whole1 ∙ whole,
            free2 ∙ free1 ∙ free,
            still2 ∙ still1 ∙ still,
          )
          at2 in
      rw (sym (append_assoc before (c ∷ []) s))
        (r3, scan_line-step fuel r r2 c behind same at (e1 ∙ e2) ∙ e3, within3, at3)

-- A text that is read from these lines, and then from the sources around them.
abbrev pub reading : Text → List Bytes → List Source → Text
reading t lines outer = record t { sources = new_source lines ∷ outer }

-- A line that nothing is to be done with: no escape, no directive, no substitution.
abbrev pub IsPlain : Bytes → Type 0
IsPlain line =
    (all is_plain line ≡ true) × (unistr_escaped_to_utf8 (line ++ codes "\n") ≡ line ++ codes "\n")

finish_line-plain :
    (headers : Bool) (r : Scanning) (t : Text) (line : Bytes) (lines : List Bytes)
    (outer : List Source)
    → t.wrapwidth ≡ 0
    → (is_empty line && not headers) ≡ false
    → Within (reading t lines outer) line r
    → r.at.after ≡ []
    → finish_line headers r ≡ gives line (reading t lines outer)
unfolding finish_line
finish_line-plain headers r t line lines outer unwrapped full (same, stands, whole, free, still)
      at =
    rw (finish_line, whole, at, stands, append-nil line, same, unwrapped, free, still, full) refl

read_round-plain :
    (site : Site) (t : Text) (line : Bytes) (lines : List Bytes) (outer : List Source)
    (headers : Bool) (fuel : ℕ)
    → t.wrapwidth ≡ 0
    → t.conds.skip ≡ none
    → IsPlain line
    → (is_empty line && not headers) ≡ false
    → length line < fuel
    → read_round fuel site headers (first_round (reading t ((line ++ codes "\n") ∷ lines) outer))
      ≡ done (gives line (reading t lines outer))
unfolding read_round fetch_line read_source join_prefix
read_round-plain site t line lines outer headers fuel unwrapped shows (plain, unescaped) full h =
    let start : Scanning =
      start_scanning (first_round (reading t ((line ++ codes "\n") ∷ lines) outer))
        (reading t lines outer) [] (line ++ codes "\n") 0 0 0 none false in
    let unskipped : start.incision ≡ none = rw shows refl in
    let (r, e, within, at) =
      scan_line-Scanned site (reading t lines outer) unwrapped refl line fuel start [] h plain
        (refl, refl, unskipped, refl, refl) refl in
    let finish : Loop Scanning → Loop Next = λ l. elim l [
      | unfinished ↦ unfinished
      | crashed ↦ crashed
      | done r ↦ done (finish_line headers r)
    ] in
    let started : read_round fuel site headers
          (first_round (reading t ((line ++ codes "\n") ∷ lines) outer))
        ≡ finish (scan_line fuel site start) =
      rw (read_round, fetch_line, read_source, unescaped, join_prefix, unwrapped) refl in
    started
    ∙ ap finish e
    ∙ ap done (finish_line-plain headers r t line lines outer unwrapped full within at)

-- Where nothing is wrapped or skipped, a line in which nothing is to be dealt with is given as it stands, and only
-- it is read. An empty one is given only among the headers.
pub get_processed_text_line-plain :
    (site : Site) (t : Text) (line : Bytes) (lines : List Bytes) (outer : List Source)
    (headers : Bool) (rounds fuel : ℕ)
    → t.wrapwidth ≡ 0
    → t.conds.skip ≡ none
    → IsPlain line
    → (is_empty line && not headers) ≡ false
    → length line < fuel
    → get_processed_text_line
        (suc rounds)
        fuel
        site
        headers
        (reading t ((line ++ codes "\n") ∷ lines) outer)
      ≡ done (some line, reading t lines outer)
unfolding read_rounds
get_processed_text_line-plain site t line lines outer headers rounds fuel unwrapped shows plain full
      h =
    rw
      (
        read_rounds,
        read_round-plain site t line lines outer headers fuel unwrapped shows plain full h,
      )
      refl

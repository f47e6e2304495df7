-- ===== src/Texts/Reading.antt =====
-- The lines of a list text, `get_processed_text_line` of src/prepstdreply.c.
use mlmmj.Base.{
  ℕ, zero, suc, ◌+◌, ◌-◌, Bool, true, false, not, ◌&&◌, ◌||◌, Option, none, some, List, [], ◌∷◌,
  ◌++◌, ltb, ◌==◌, if◌then◌else◌, Bytes, codes, length, take, drop, is_empty,
}
use mlmmj.Texts.{Site, Loop, unfinished, crashed, done}
use mlmmj.Texts.Conditionals.{is_skipping}
use mlmmj.Texts.Sources.{Source, Text, spaces, starts_line_end}
use mlmmj.Texts.Line.{Scanning, is_word, reaches, is_behind, scan_line}
use mlmmj.Texts.Directives.{skip_blanks}
use mlmmj.Unistr.Escaped.{unistr_escaped_to_utf8}

-- One read of a source; `none` at its end.
unfoldable pub read_source : Source → Option Source
unfolding unistr_escaped_to_utf8
read_source src = elim src.upcoming [
  | some _ ↦ some src
  | none ↦ elim src.limit [
    | some zero ↦ none
    | limit ↦ elim src.lines [
      | [] ↦ none
      | line ∷ lines ↦ some (record src {
        upcoming = some (if src.transparent then line else unistr_escaped_to_utf8 line);
        processedlen = 0;
        processedwidth = 0;
        lines = lines;
        limit = elim limit [ none ↦ none | some n ↦ some (n - 1) ];
      })
    ]
  ]
]

-- The next line, with the sources that are left; the ones that are at their end are closed.
unfoldable pub fetch_line : List Source → Option (Bytes × (Source × List Source))
unfolding read_source
fetch_line [] = none
fetch_line (src ∷ outer) =
    let later = fetch_line outer in
    elim (read_source src) [
      | none ↦ later
      | some src ↦ elim src.upcoming [
        | none ↦ later
        | some line ↦ some (line, (record src { upcoming = none }, outer))
      ]
    ]

-- What is kept between the rounds of the loop.
pub record Joining : Type 0 where
  pub text : Text
  pub prev : Option Bytes
  pub width : ℕ
  pub wrapindentlen : Option ℕ
  pub peeking : Bool

abbrev pub start_scanning : Joining → Text → Bytes → Bytes → ℕ → ℕ → ℕ → Option ℕ → Bool → Scanning
start_scanning j t before after len width linebreak indentlen skipwhite = record {
  at = record { text = t; before = before; after = after; width = width; skipwhite = skipwhite };
  len = len;
  linebreak = linebreak;
  linebreakwidth = if linebreak == 0 then 0 else width;
  incision = if is_skipping t.conds then some len else none;
  directive = false;
  inhibitbreak = false;
  peeking = j.peeking;
  wrapindentlen = indentlen;
}

-- The prefix, the indentation and the line. `none` is a prefix that is NULL, or a buffer that is too short: with an
-- indentation below the width of the prefix, less is allocated than is written.
unfoldable pub join_prefix : Joining → Text → Bytes → Source → List Source → Option Scanning
join_prefix j t line src outer =
    let wraps : Bool = not (t.wrapwidth == 0) in
    let indents : ℕ = if wraps then t.wrapindent - src.prefixwidth else 0 in
    let start : Option Bytes = if src.prefixwidth == 0 then some [] else src.prefix in
    if wraps && ltb t.wrapindent src.prefixwidth then none else elim start [
      | none ↦ none
      | some prefix ↦
          let front : Bytes = prefix ++ spaces indents in
          let kept : Source =
            if src.prefixwidth == 0 then src else record src { prefixlen = length prefix } in
          let whole : Bytes = front ++ line in
          let processed : ℕ = src.processedlen + length front in
          some (
            start_scanning j (record t { sources = kept ∷ outer }) (take processed whole)
              (drop processed whole) processed (src.processedwidth + (src.prefixwidth + indents)) 0
              (if wraps then some (length front) else j.wrapindentlen) false)
    ]

abbrev pub or_zero : Option ℕ → ℕ
or_zero none = 0
or_zero (some n) = n

-- The blanks at the end of a line that is wrapped, but for its indentation; and how many they are.
abbrev pub trim_blanks : ℕ → Bytes → Bytes
trim_blanks zero [] = []
trim_blanks zero (c ∷ s) =
    let rest = trim_blanks zero s in
    if (c == b' ' || c == b'\t') && is_empty rest then [] else c ∷ rest
trim_blanks (suc n) [] = []
trim_blanks (suc n) (c ∷ s) = c ∷ trim_blanks n s

-- A line that is joined to the one before it.
unfoldable pub join_line : Joining → Text → Bytes → Bytes → Source → List Source → Scanning
join_line j t prev line src outer =
    let indent : ℕ = or_zero j.wrapindentlen in
    let word : Bool = is_word t.wrapmode in
    let kept : Bytes = if word then trim_blanks indent prev else prev in
    let width : ℕ = j.width - (length prev - length kept) in
    let rest : Bytes = skip_blanks true line in
    let blank_line : Bool = starts_line_end rest && not (is_skipping t.conds) in
    if blank_line
    then start_scanning j
        (record t {
          wrapwidth = 0;
          sources =
              (record src { upcoming = some line; processedlen = 0; processedwidth = 0 }) ∷ outer;
        })
        kept [] (length kept) width (length kept) j.wrapindentlen false
    else (let blank : Bool = not (is_empty kept) && word && ltb indent (length kept) in
        let joined : Bytes = if blank then kept ++ codes " " else kept in
        let wide : ℕ = if blank then width + 1 else width in
        start_scanning j (record t { sources = src ∷ outer }) joined rest (length joined) wide
          (length joined) j.wrapindentlen true)

-- What is done with a line: it is given, or kept to be joined, or dropped.
pub data Next : Type 0 where
  gives : Bytes → Text → Next
  goes_on : Joining → Next
  ends : Option Bytes → Text → Next

abbrev pub go_on : Scanning → Option Bytes → Bool → Next
go_on r prev peeking = goes_on (record {
  text = r.at.text;
  prev = prev;
  width = r.at.width;
  wrapindentlen = r.wrapindentlen;
  peeking = peeking;
})

abbrev pub with_suffix : Text → Bytes → Next
with_suffix t line = elim t.sources [
  | [] ↦ gives line t
  | src ∷ outer ↦ elim src.suffix [ none ↦ gives line t | some suffix ↦ gives (line ++ suffix) t ]
]

-- A part of the line is kept for later.
abbrev pub put_back : Text → Bytes → Bool → ℕ → ℕ → Text
put_back t rest is_part processedlen processedwidth = elim t.sources [
  | [] ↦ t
  | src ∷ outer ↦
      let upcoming : Bytes = elim src.upcoming [
        | none ↦ rest
        | some later ↦ if is_part && is_empty rest then later else rest ++ b'\n' ∷ later
      ] in
      record t {
        sources =
            (record src {
              upcoming = some upcoming;
              processedlen = processedlen;
              processedwidth = processedwidth;
            })
            ∷ outer;
      }
]

abbrev pub ends_in_blank : Bytes → Bool
ends_in_blank [] = false
ends_in_blank (c ∷ []) = c == b' '
ends_in_blank (c ∷ d ∷ s) = ends_in_blank (d ∷ s)

abbrev pub without_last : Bytes → Bytes
without_last [] = []
without_last (c ∷ []) = []
without_last (c ∷ d ∷ s) = c ∷ without_last (d ∷ s)

-- A line that is broken.
unfoldable pub break_line : Scanning → Bytes → Next
break_line r line =
    let t : Text = r.at.text in
    let first : Bytes = take r.linebreak line in
    let rest : Bytes = drop r.linebreak line in
    let given : Bytes =
      if is_word t.wrapmode && ends_in_blank first then without_last first else first in
    if r.linebreak == 0 || is_empty rest
    then with_suffix t []
    else with_suffix (put_back t rest true (r.len - r.linebreak) (r.at.width - r.linebreakwidth))
        given

-- Behind the loop over the characters.
unfoldable pub finish_line : Bool → Scanning → Next
unfolding break_line
finish_line headers r =
    let t : Text = r.at.text in
    let whole : Bytes = r.at.before ++ r.at.after in
    let line : Bytes = elim r.incision [ none ↦ whole | some incision ↦ take incision whole ] in
    let is_whole_skipped : Bool = elim r.incision [
      | none ↦ false
      | some incision ↦ incision == 0
    ] in
    if is_whole_skipped
    then go_on r none r.peeking
    else if not (t.wrapwidth == 0) && not r.peeking
    then (if not (reaches r.at.width t.wrapwidth)
          || not (is_behind r.linebreak r.wrapindentlen)
          || not (ltb r.linebreak r.len)
        then go_on r (some line) r.peeking
        else break_line r line)
    else if r.directive && is_empty (skip_blanks true line)
    then go_on r none r.peeking
    else if is_empty line && not headers && not r.peeking
    then go_on r none true
    else if r.peeking
    then with_suffix (put_back t line false r.len r.at.width) []
    else with_suffix t line

-- One round. `none` is a read through a null pointer, or a write behind the end of a buffer.
unfoldable pub read_round : ℕ → Site → Bool → Joining → Loop Next
unfolding fetch_line join_prefix join_line scan_line finish_line
read_round fuel site headers j = elim (fetch_line j.text.sources) [
  | none ↦ done (ends (if j.peeking then some [] else j.prev) (record (j.text) { sources = [] }))
  | some (line, (src, outer)) ↦
      let started : Option Scanning = elim j.prev [
        | none ↦ join_prefix j j.text line src outer
        | some prev ↦ some (join_line j j.text prev line src outer)
      ] in
      elim started [
        | none ↦ crashed
        | some r ↦ elim (scan_line fuel site r) [
          | unfinished ↦ unfinished
          | crashed ↦ crashed
          | done r ↦ done (finish_line headers r)
        ]
      ]
]

abbrev pub first_round : Text → Joining
first_round t = record { text = t; prev = none; width = 0; wrapindentlen = none; peeking = false }

unfoldable pub read_rounds : ℕ → ℕ → Site → Bool → Joining → Loop (Option Bytes × Text)
unfolding read_round
read_rounds zero fuel site headers j = unfinished
read_rounds (suc rounds) fuel site headers j = elim (read_round fuel site headers j) [
  | unfinished ↦ unfinished
  | crashed ↦ crashed
  | done next ↦ elim next [
    | gives line t ↦ done (some line, t)
    | ends line t ↦ done (line, t)
    | goes_on j ↦ read_rounds rounds fuel site headers j
  ]
]

abbrev pub get_processed_text_line : ℕ → ℕ → Site → Bool → Text → Loop (Option Bytes × Text)
get_processed_text_line rounds fuel site headers t =
    read_rounds rounds fuel site headers (first_round t)

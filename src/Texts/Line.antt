-- ===== src/Texts/Line.antt =====
-- The loop over the characters of a line in `get_processed_text_line` of src/prepstdreply.c.
use mlmmj.Base.{
  ℕ, zero, suc, ◌+◌, ◌^◌, Bool, true, false, not, ◌&&◌, ◌||◌, Option, none, some, [], ◌∷◌, ◌++◌,
  ltb, leb, ◌==◌, if◌then◌else◌, Bytes, length, take, drop,
}
use mlmmj.CString.{peek, rest_of, strip_prefix, strstr}
use mlmmj.Texts.{Site, substitute_one, Loop, unfinished, crashed, done}
use mlmmj.Texts.Conditionals.{is_skipping}
use mlmmj.Texts.Sources.{WrapMode, wrap_word, wrap_char, wrap_user, Text, Position}
use mlmmj.Texts.Settings.{zero_, swallow_, undone, handled, overran_line, handle_directive}

-- `len` and `width` are of what is kept of the line, `linebreak` and `linebreakwidth` of where it may be broken, and
-- `incision` is where skipped text starts; `wrapindentlen` is none for -1.
pub record Scanning : Type 0 where
  pub at : Position
  pub len : ℕ
  pub linebreak : ℕ
  pub linebreakwidth : ℕ
  pub incision : Option ℕ
  pub directive : Bool
  pub inhibitbreak : Bool
  pub peeking : Bool
  pub wrapindentlen : Option ℕ

-- How a round ends: the loop goes on or stops, or the program reads through a null pointer or behind the end of the
-- line.
pub data Turn : Type 0 where
  again stop : Scanning → Turn
  crash : Turn

abbrev pub is_user : WrapMode → Bool
is_user wrap_user = true
is_user _ = false

abbrev pub is_char : WrapMode → Bool
is_char wrap_char = true
is_char _ = false

abbrev pub is_word : WrapMode → Bool
is_word wrap_word = true
is_word _ = false

-- `width >= wrapwidth`, for a `wrapwidth` that is negative from 2 ^ 31 on
abbrev pub reaches : ℕ → ℕ → Bool
reaches width wrapwidth = leb (2 ^ 31) wrapwidth || leb wrapwidth width

-- `linebreak > wrapindentlen`
abbrev pub is_behind : ℕ → Option ℕ → Bool
is_behind linebreak none = true
is_behind linebreak (some len) = ltb len linebreak

abbrev pub skipping : Scanning → Bool
skipping r = is_skipping r.at.text.conds

abbrev pub is_transparent : Text → Bool
is_transparent t = elim t.sources [ [] ↦ false | src ∷ outer ↦ src.transparent ]

-- The rest of the line becomes the next line.
abbrev pub save_upcoming : Bytes → Text → Text
save_upcoming rest t = elim t.sources [
  | [] ↦ t
  | src ∷ outer ↦ record t {
    sources = (record src { upcoming = some rest; processedlen = 0; processedwidth = 0 }) ∷ outer;
  }
]

abbrev pub continuation : ℕ → Bytes → Bytes
continuation zero s = []
continuation (suc n) [] = []
continuation (suc n) (c ∷ s) = if leb 128 c && leb c 191 then c ∷ continuation n s else []

abbrev pub is_zerowidth : Text → Bytes → Bool
is_zerowidth t char = elim t.zerowidth [
  | none ↦ false
  | some chars ↦ elim (strstr char chars) [ none ↦ false | some _ ↦ true ]
]

abbrev pub char_width : Text → ℕ → Bytes → ℕ
char_width t c s =
    if ltb c 128
    then 1
    else if ltb 191 c
    then if is_zerowidth t (c ∷ continuation 3 s) then 0 else if t.is_wide then 2 else 1
    else 0

-- The end of a round that passes over a character.
unfoldable pub pass_char : Scanning → ℕ → Bytes → Turn
unfolding strstr strip_prefix
pass_char r c s =
    let p : Position = record (r.at) {
      before = r.at.before ++ c ∷ [];
      after = s;
      skipwhite = false;
    } in
    if skipping r
    then again (record r { at = p })
    else again (record r {
      at = record p { width = r.at.width + char_width r.at.text c s };
      len = r.len + 1;
    })

-- A line end, with what stands behind it.
unfoldable pub end_line : Scanning → Bytes → Turn
end_line r [] = stop (record r { at = record (r.at) { after = [] } })
end_line r (c ∷ s) =
    stop (record r { at = record (r.at) { after = []; text = save_upcoming (c ∷ s) r.at.text } })

-- `pos = tmp + len` behind a backslash, with what is left of the line behind it.
abbrev pub escape_to : Scanning → Bytes → Bool → Turn
escape_to r rest inhibit =
    let line : Bytes = r.at.before ++ rest in
    again (record r {
      at = record (r.at) { before = take r.len line; after = drop r.len line; skipwhite = false };
      inhibitbreak = inhibit;
    })

unfoldable pub escape_char : Scanning → Bytes → Turn
escape_char r [] = escape_to r [] false
escape_char r (c ∷ s) =
    if c == b'/'
    then escape_to (record r { linebreak = r.len; linebreakwidth = r.at.width }) s false
    else if c == b'='
    then escape_to r s true
    else escape_to r (c ∷ s) (c == b' ')

-- What the length of the kept part is after a substitution or a directive.
abbrev pub adjust_len : Scanning → Scanning
adjust_len r =
    if r.len == length r.at.before
    then r
    else record r { len = length r.at.before; inhibitbreak = false }

unfoldable pub substitute_char : Site → Scanning → Bytes → Turn
unfolding substitute_one
substitute_char site r rest = elim (substitute_one site r.at.text.substs rest) [
  | none ↦ crash
  | some (shown, behind) ↦
      let p : Position = record (r.at) {
        before = r.at.before ++ shown;
        after = behind;
        width = r.at.width + length shown;
        skipwhite = false;
      } in
      again (adjust_len (record r { at = p }))
]

-- Skipped text starts, or is cut out.
abbrev pub cut_skipped : Scanning → Scanning
cut_skipped r =
    if skipping r
    then elim r.incision [ none ↦ record r { incision = some (length r.at.before) } | some _ ↦ r ]
    else elim r.incision [
      | none ↦ r
      | some incision ↦ record r {
        at = record (r.at) { before = take incision r.at.before };
        incision = none;
      }
    ]

abbrev pub start_wrapping : Scanning → Scanning
start_wrapping r = elim r.wrapindentlen [
  | some _ ↦ r
  | none ↦ if r.at.text.wrapwidth == 0 then r else record r { wrapindentlen = some r.len }
]

unfoldable pub direct_char : Site → Scanning → Bytes → Turn
unfolding handle_directive
direct_char site r0 rest =
    let r : Scanning = record r0 { directive = true } in
    elim (handle_directive site r.at r.peeking rest) [
      | overran_line ↦ crash
      | handled p answer ↦ elim answer [
        | undone ↦ stop (record r { at = p })
        | zero_ ↦ again (start_wrapping (adjust_len (cut_skipped (record r { at = p }))))
        | swallow_ ↦
            again (start_wrapping (adjust_len (cut_skipped (record r { at = p; peeking = false }))))
      ]
    ]

-- One round, at a character.
unfoldable pub turn : Site → Scanning → ℕ → Bytes → Turn
unfolding end_line escape_char substitute_char direct_char
turn site r0 c s =
    let mode : WrapMode = r0.at.text.wrapmode in
    let r : Scanning =
      if ltb 191 c && not (skipping r0) && is_char mode && not r0.inhibitbreak
      then record r0 { linebreak = r0.len; linebreakwidth = r0.at.width }
      else r0 in
    if c == b'\r'
    then end_line r (if peek s == b'\n' then rest_of s else s)
    else if c == b'\n'
    then end_line r s
    else if c == b' '
    then pass_char
        (record (if not (skipping r) && not (is_user mode) && not r.inhibitbreak
          then record r { linebreak = r.len + 1; linebreakwidth = r.at.width + 1 }
          else r) { inhibitbreak = false })
        c s
    else if c == b'\t'
    then pass_char (record r { inhibitbreak = false }) c s
    else if is_transparent r.at.text
    then if r.peeking && not (skipping r)
      then stop r
      else pass_char (record r { inhibitbreak = false }) c s
    else if c == b'\\' && not (skipping r)
    then if r.peeking then stop r else escape_char r s
    else if c == b'$' && not (skipping r)
    then if r.peeking then stop r else substitute_char site r s
    else if c == b'%'
    then direct_char site r s
    else if r.peeking && not (skipping r)
    then stop r
    else pass_char r c s

-- The line is long enough and can be broken.
abbrev pub breaks : Scanning → Bool
breaks r =
    not (r.at.text.wrapwidth == 0)
    && reaches r.at.width r.at.text.wrapwidth
    && not r.peeking
    && is_behind r.linebreak r.wrapindentlen
    && ltb r.linebreak r.len

unfoldable pub scan_line : ℕ → Site → Scanning → Loop Scanning
unfolding turn
scan_line zero site r = elim r.at.after [
  | [] ↦ done r
  | c ∷ s ↦ if breaks r then done r else unfinished
]
scan_line (suc fuel) site r = elim r.at.after [
  | [] ↦ done r
  | c ∷ s ↦ elim (breaks r) [
    | true ↦ done r
    | false ↦ elim (turn site r c s) [
      | crash ↦ crashed
      | stop r ↦ done r
      | again r ↦ scan_line fuel site r
    ]
  ]
]

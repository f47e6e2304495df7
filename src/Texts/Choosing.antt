-- ===== src/Texts/Choosing.antt =====
-- What is given of a line with conditionals by `get_processed_text_line` of src/prepstdreply.c.
use mlmmj.Base.{
  ℕ, suc, ◌+◌, ◌-◌, ◌≤◌, ◌≡◌, refl, sym, ap, ◌∙◌, inl, inr, Bool, true, false, none, some, List, [],
  ◌∷◌, append-nil, arith, Bool-cases, Bytes, codes, length, is_empty,
}
use mlmmj.Unistr.Escaped.{unistr_escaped_to_utf8}
use mlmmj.Texts.{Site, Loop, unfinished, crashed, done}
use mlmmj.Texts.Sources.{Text, Source}
use mlmmj.Texts.Directives.{skip_blanks}
use mlmmj.Texts.Line.{Scanning, is_transparent, end_line, turn, scan_line}
use mlmmj.Texts.Reading.{
  get_processed_text_line, read_rounds, read_round, read_source, fetch_line, join_prefix,
  finish_line, start_scanning, first_round, gives, Next,
}
use mlmmj.Texts.Plain.{reading, breaks-unwrapped}
use mlmmj.Texts.Nodes.{Nodes, written, About, seen, IsSound}
use mlmmj.Texts.Dealing.{IsAbout}
use mlmmj.Texts.Holding.{open_at, Stands}
use mlmmj.Texts.Branching.{conds}
use mlmmj.Texts.Nested.{nodes_visible}

-- A loop that is at its end, with what was kept.
abbrev Ends : Text → Bytes → Scanning → Type 0
Ends t out r =
    (r.at.text ≡ t)
    × (r.at.before ≡ out)
    × (r.at.after ≡ [])
    × (r.incision ≡ none)
    × (r.peeking ≡ false)

module _ (site : Site) (t : Text) (unwrapped : t.wrapwidth ≡ 0) (opaque : is_transparent t ≡ false)
    (a : About) (about : IsAbout a t) (closed : t.conds ≡ conds [] none) where
  open_at-closed : open_at t (conds [] none) ≡ t
  open_at-closed = ap (open_at t) (sym closed)

  scan_line-Ends :
      (fuel : ℕ) (out : Bytes) (r : Scanning)
      → Stands t (conds [] none) out (codes "\n") r
      → (r1 : Scanning) × (scan_line (suc fuel) site r ≡ done r1) × Ends t out r1
  unfolding scan_line turn end_line
  scan_line-Ends fuel out r (text, after, white, still, (free, before)) =
      let still_unwrapped : r.at.text.wrapwidth ≡ 0 = ap (λ u. u.wrapwidth) text ∙ unwrapped in
      rw (scan_line, after, breaks-unwrapped r still_unwrapped)
        (
          record r { at = record (r.at) { after = [] } },
          refl,
          (text ∙ open_at-closed, before, refl, free, still),
        )

  scan_line-seen :
      (fuel : ℕ) (nodes : Nodes) (r : Scanning)
      → IsSound nodes
      → Stands t (conds [] none) [] (written nodes (codes "\n")) r
      → length (written nodes (codes "\n")) ≤ fuel
      → (r1 : Scanning) × (scan_line fuel site r ≡ done r1) × Ends t (seen site a nodes) r1
  scan_line-seen fuel nodes r sound stands h =
      let (r1, n, bound, e, there) =
        nodes_visible site t unwrapped opaque a about nodes r [] (codes "\n") [] sound stands in
      let (_, after, _, _, _) = stands in
      let (left, enough) = more_fuel n fuel (omega (arith, ap length after)) in
      let (r2, e2, at_end) = scan_line-Ends left (seen site a nodes) r1 there in
      (r2, ap (λ k. scan_line k site r) enough ∙ e (suc left) ∙ e2, at_end)
    where
      more_fuel : (n fuel : ℕ) → n + 1 ≤ fuel → (left : ℕ) × (fuel ≡ n + suc left)
      more_fuel n fuel h = (fuel - n - 1, omega arith)

finish_line-seen :
    (headers : Bool) (r : Scanning) (t : Text) (line : Bytes) (lines : List Bytes)
    (outer : List Source)
    → t.wrapwidth ≡ 0
    → is_empty (skip_blanks true line) ≡ false
    → Ends (reading t lines outer) line r
    → finish_line headers r ≡ gives line (reading t lines outer)
unfolding finish_line
finish_line-seen headers r t [] lines outer unwrapped blank at_end = absurd (cc)
finish_line-seen headers r t (c ∷ s) lines outer unwrapped blank
      (text, before, after, free, still) =
    elim (Bool-cases r.directive) [
      | inl d ↦
          rw (finish_line, free, after, before, append-nil s, text, unwrapped, d, blank, still) refl
      | inr d ↦ rw (finish_line, free, after, before, append-nil s, text, unwrapped, d, still) refl
    ]

module _ (site : Site) (t : Text) (nodes : Nodes) (lines : List Bytes) (outer : List Source)
    (headers : Bool) (fuel : ℕ) (a : About) where
  read_round-seen :
      t.wrapwidth ≡ 0
      → IsAbout a t
      → t.conds ≡ conds [] none
      → IsSound nodes
      → unistr_escaped_to_utf8 (written nodes (codes "\n")) ≡ written nodes (codes "\n")
      → is_empty (skip_blanks true (seen site a nodes)) ≡ false
      → length (written nodes (codes "\n")) ≤ fuel
      → read_round fuel site headers
          (first_round (reading t (written nodes (codes "\n") ∷ lines) outer))
        ≡ done (gives (seen site a nodes) (reading t lines outer))
  unfolding read_round fetch_line read_source join_prefix
  read_round-seen unwrapped about closed sound unescaped full h =
      let start : Scanning =
        start_scanning (first_round (reading t (written nodes (codes "\n") ∷ lines) outer))
          (reading t lines outer) [] (written nodes (codes "\n")) 0 0 0 none false in
      let unskipped : start.incision ≡ none = rw closed refl in
      let (r, e, at_end) =
        scan_line-seen site (reading t lines outer) unwrapped refl a about closed fuel nodes start
          sound
          (
            ap (λ c. record (reading t lines outer) { conds = c }) closed,
            refl,
            refl,
            refl,
            (unskipped, refl),
          )
          h in
      let finish : Loop Scanning → Loop Next = λ l. elim l [
        | unfinished ↦ unfinished
        | crashed ↦ crashed
        | done r ↦ done (finish_line headers r)
      ] in
      let started : read_round fuel site headers
            (first_round (reading t (written nodes (codes "\n") ∷ lines) outer))
          ≡ finish (scan_line fuel site start) =
        rw (read_round, fetch_line, read_source, unescaped, join_prefix, unwrapped) refl in
      started
      ∙ ap finish e
      ∙ ap done (finish_line-seen headers r t (seen site a nodes) lines outer unwrapped full at_end)

  -- However the conditionals of a line are nested, the line is given with the text in the parts that are chosen,
  -- in its order, and no conditional is open behind it. This is for a text with an action, a reason and a type, where
  -- nothing is wrapped and no conditional is open in front of the line; conditionals with one parameter, a name of
  -- letters, digits, `_` and `-`; text without escapes, substitutions and other directives; fuel for the line; and
  -- where there is more than blanks to be seen.
  pub get_processed_text_line-seen :
      (rounds : ℕ)
      → t.wrapwidth ≡ 0
      → IsAbout a t
      → t.conds ≡ conds [] none
      → IsSound nodes
      → unistr_escaped_to_utf8 (written nodes (codes "\n")) ≡ written nodes (codes "\n")
      → is_empty (skip_blanks true (seen site a nodes)) ≡ false
      → length (written nodes (codes "\n")) ≤ fuel
      → get_processed_text_line
          (suc rounds)
          fuel
          site
          headers
          (reading t (written nodes (codes "\n") ∷ lines) outer)
        ≡ done (some (seen site a nodes), reading t lines outer)
  unfolding read_rounds
  get_processed_text_line-seen rounds unwrapped about closed sound unescaped full h =
      rw (read_rounds, read_round-seen unwrapped about closed sound unescaped full h) refl

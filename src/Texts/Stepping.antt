-- ===== src/Texts/Stepping.antt =====
-- The loop over the characters of a line at the directives of conditionals, src/prepstdreply.c.
use mlmmj.Base.{
  ℕ, suc, ◌+◌, ◌≤◌, ◌≡◌, refl, sym, ap, ◌∙◌, Bool, true, false, Option, [], ◌∷◌, ◌++◌, arith,
  &&-left, &&-right, Bytes, length, all,
}
use mlmmj.CString.{contains}
use mlmmj.CString.Search.{strchr_first}
use mlmmj.Texts.{Site}
use mlmmj.Texts.Conditionals.{Conds}
use mlmmj.Texts.Sources.{Text, Position}
use mlmmj.Texts.Directives.{dealt, deal_with}
use mlmmj.Texts.Settings.{handle_directive}
use mlmmj.Texts.Line.{
  Scanning, again, is_transparent, adjust_len, cut_skipped, start_wrapping, direct_char, turn,
  scan_line,
}
use mlmmj.Texts.Plain.{is_plain, pass_char-Passed, turn-Passes, breaks-unwrapped}
use mlmmj.Texts.Nodes.{directive}
use mlmmj.Texts.Dealing.{moved}
use mlmmj.Texts.Holding.{
  Held, open_at, Stands, Held-cut_skipped, cut_skipped-at, adjust_len-Alike, start_wrapping-Alike,
  Held-same, Held-Alike, kept, kept_nothing, kept_first, Held-kept, length-behind,
}

module _ (site : Site) (t : Text) (unwrapped : t.wrapwidth ≡ 0)
    (opaque : is_transparent t ≡ false) where
  Stands-settled :
      (skip : Option ℕ) (c : Conds) (out behind : Bytes) (r : Scanning)
      → r.at.text ≡ open_at t c
      → r.at.after ≡ behind
      → r.at.skipwhite ≡ false
      → r.peeking ≡ false
      → Held skip out r
      → Stands t c out behind (start_wrapping (adjust_len (cut_skipped r)))
  Stands-settled skip c out behind r text after white still held =
      let trimmed = cut_skipped r in
      let (p1, i1, k1) = adjust_len-Alike trimmed in
      let (p2, i2, k2) = start_wrapping-Alike (adjust_len trimmed) in
      let p = p2 ∙ p1 in
      let (text', after', white', still') = cut_skipped-at r in
      (
        ap (λ (q : Position). q.text) p ∙ text' ∙ text,
        ap (λ (q : Position). q.after) p ∙ after' ∙ after,
        ap (λ (q : Position). q.skipwhite) p ∙ white' ∙ white,
        k2 ∙ k1 ∙ still' ∙ still,
        Held-Alike c.skip out trimmed _ (p, i2 ∙ i1, k2 ∙ k1)
            (Held-cut_skipped skip c.skip out r (ap (λ (u : Text). u.conds.skip) text) held),
      )

  -- From here the loop comes there, in at most as many rounds as characters are passed.
  abbrev pub Goes : Scanning → Conds → Bytes → Bytes → Type 0
  Goes r c out behind =
      (r1 : Scanning) × (n : ℕ) × (n + length behind ≤ length r.at.after)
      × ((fuel : ℕ) → scan_line (n + fuel) site r ≡ scan_line fuel site r1)
      × Stands t c out behind r1

  pub Goes-nowhere :
      (r : Scanning) (c : Conds) (out behind : Bytes)
      → Stands t c out behind r
      → Goes r c out behind
  Goes-nowhere r c out behind stands =
      let (_, at, _, _, _) = stands in
      (
        r,
        0,
        omega (arith, ap length at),
        λ fuel. ap (λ n. scan_line n site r) (omega arith),
        stands,
      )

  pub Goes-then :
      (r : Scanning) (c c' : Conds) (out out' behind behind' : Bytes)
      → Goes r c out behind
      → ((r1 : Scanning) → Stands t c out behind r1 → Goes r1 c' out' behind')
      → Goes r c' out' behind'
  Goes-then r c c' out out' behind behind' (r1, n, h, e, stands) next =
      let (r2, m, h', e', stands') = next r1 stands in
      let (_, at, _, _, _) = stands in
      (
        r2,
        n + m,
        omega (arith, ap length at),
        λ fuel. ap (λ k. scan_line k site r) (omega arith) ∙ e (m + fuel) ∙ e' fuel,
        stands',
      )

  Goes-once :
      (r r1 : Scanning) (c0 c : Conds) (out0 out s behind : Bytes) (x : ℕ)
      → Stands t c0 out0 (x ∷ s) r
      → turn site r x s ≡ again r1
      → length behind ≤ length s
      → Stands t c out behind r1
      → Goes r c out behind
  unfolding scan_line
  Goes-once r r1 c0 c out0 out s behind x (text, at, _, _, _) e h stands =
      let still_unwrapped : r.at.text.wrapwidth ≡ 0 = ap (λ u. u.wrapwidth) text ∙ unwrapped in
      (
        r1,
        1,
        omega (arith, ap length at),
        λ fuel.
            let one : 1 + fuel ≡ suc fuel = omega arith in
            ap (λ n. scan_line n site r) one
            ∙ rw (scan_line, at, breaks-unwrapped r still_unwrapped, e) refl,
        stands,
      )

  turn-direct_char :
      (r : Scanning) (s : Bytes)
      → is_transparent r.at.text ≡ false
      → turn site r b'%' s ≡ direct_char site r s
  unfolding turn
  turn-direct_char r s h = rw (turn, h) refl

  -- The round of a directive that is dealt with.
  abbrev Landed : Scanning → Position → Bytes → Type 0
  Landed r q s =
      (r0 : Scanning) × (direct_char site r s
        ≡ again (start_wrapping (adjust_len (cut_skipped r0))))
      × (r0.at ≡ q)
      × (r0.incision ≡ r.incision)
      × (r0.peeking ≡ false)

  direct_char-Landed :
      (r : Scanning) (token more : Bytes) (q : Position) (swallow : Bool)
      → r.peeking ≡ false
      → contains b'%' token ≡ false
      → deal_with site r.at token more ≡ dealt q swallow
      → Landed r q (token ++ b'%' ∷ more)
  unfolding direct_char handle_directive
  direct_char-Landed r token more q true still free e =
      rw (direct_char, handle_directive, strchr_first b'%' token more free, e)
        (_, refl, refl, refl, refl)
  direct_char-Landed r token more q false still free e =
      rw (direct_char, handle_directive, strchr_first b'%' token more free, e)
        (_, refl, refl, refl, still)

  pub Goes-directive :
      (r : Scanning) (c c' : Conds) (out token more : Bytes) (swallow : Bool)
      → Stands t c out (directive token more) r
      → contains b'%' token ≡ false
      → deal_with site r.at token more ≡ dealt (moved r.at c' more) swallow
      → Goes r c' out more
  Goes-directive r c c' out token more swallow stands free e =
      let (text, at, white, still, held) = stands in
      let (r0, turned, p, i, k) =
        direct_char-Landed r token more (moved r.at c' more) swallow still free e in
      let before : r0.at.before ≡ r.at.before = ap (λ (q : Position). q.before) p in
      let text' : r0.at.text ≡ open_at t c' =
        ap (λ (q : Position). q.text) p ∙ ap (λ u. open_at u c') text in
      let after' : r0.at.after ≡ more = ap (λ (q : Position). q.after) p ∙ rw white refl in
      let white' : r0.at.skipwhite ≡ false = ap (λ (q : Position). q.skipwhite) p ∙ white in
      Goes-once r _ c c' out out (token ++ b'%' ∷ more) more b'%' stands
        (turn-direct_char r (token ++ b'%' ∷ more) (ap is_transparent text ∙ opaque) ∙ turned)
        (length-behind token more)
        (Stands-settled c.skip c' out more r0 text' after' white' k
          (Held-same c.skip out r r0 before i held))

  char_passes :
      (r : Scanning) (c : Conds) (out s : Bytes) (x : ℕ)
      → Stands t c out (x ∷ s) r
      → is_plain x ≡ true
      → Goes r c (kept c.skip out (x ∷ [])) s
  char_passes r c out s x stands plain =
      let (text, at, white, still, held) = stands in
      let (r1, e1, (text1, before1, whole1, free1, still1)) =
        turn-Passes site r x s (ap is_transparent text ∙ opaque) still plain in
      let (r2, e2, text2, before2, at2, white2, whole2, free2, still2) = pass_char-Passed r1 x s in
      Goes-once r r2 c c out (kept c.skip out (x ∷ [])) s s x stands (e1 ∙ e2) (omega arith) (
        text2 ∙ text1 ∙ text,
        at2,
        white2,
        still2 ∙ still1 ∙ still,
        Held-kept c.skip out (x ∷ []) r r2 (before2 ∙ ap (λ b. b ++ x ∷ []) before1)
            (whole2 ∙ whole1) held,
      )

  pub Goes-plain :
      (text : Bytes) (r : Scanning) (c : Conds) (out more : Bytes)
      → all is_plain text ≡ true
      → Stands t c out (text ++ more) r
      → Goes r c (kept c.skip out text) more
  Goes-plain [] r c out more h stands =
      Goes-nowhere r c (kept c.skip out []) more (rw (kept_nothing c.skip out) stands)
  Goes-plain (x ∷ text) r c out more h stands = rw (sym (kept_first c.skip out x text)) (
      Goes-then r c c (kept c.skip out (x ∷ [])) _ (text ++ more) more
        (char_passes r c out (text ++ more) x stands (&&-left _ _ h))
        (λ r1 there. Goes-plain text r1 c (kept c.skip out (x ∷ [])) more (&&-right _ _ h) there))

-- ===== src/Texts/Nested.antt =====
-- The conditionals of a line nest, src/prepstdreply.c.
use mlmmj.Base.{
  ℕ, ◌<◌, ◌≡◌, refl, sym, Bool, true, false, not, none, some, List, [], ◌∷◌, ◌++◌, append_assoc,
  append-nil, arith, if◌then◌else◌, Bytes, codes, length,
}
use mlmmj.Texts.{Site}
use mlmmj.Texts.Conditionals.{Cond, Conds}
use mlmmj.Texts.Sources.{Text}
use mlmmj.Texts.Line.{Scanning, is_transparent}
use mlmmj.Texts.Nodes.{
  Node, Nodes, shown, without_else, with_else, end, then_node, directive, written_of, written,
  About, is_chosen, seen_of, seen, IsSoundNode, IsSound,
}
use mlmmj.Texts.Dealing.{IsAbout}
use mlmmj.Texts.Holding.{Stands}
use mlmmj.Texts.Stepping.{Goes-nowhere, Goes-then, Goes-plain}
use mlmmj.Texts.Branching.{
  conds, opened, elsed, shut, open_hidden, either, open_visible, else_shut, else_hidden, end_shut,
  end_hidden, Comes, comes_opened, comes_skipped, comes_else, comes_endif, by_part,
}

module _ (site : Site) (t : Text) (unwrapped : t.wrapwidth ≡ 0) (opaque : is_transparent t ≡ false)
    (a : About) (about : IsAbout a t) where
  abbrev then_comes :
      (r : Scanning) (c c' : Conds) (out out' behind behind' : Bytes)
      → Comes site t unwrapped opaque a about r c out behind
      → ((r1 : Scanning)
          → Stands t c out behind r1
          → Comes site t unwrapped opaque a about r1 c' out' behind')
      → Comes site t unwrapped opaque a about r c' out' behind'
  then_comes = Goes-then site t unwrapped opaque

  mutual
    unfolding written IsSound

    node_hidden :
        (node : Node) (r : Scanning) (out more : Bytes) (stack : List Cond) (k : ℕ)
        → k < length stack
        → IsSoundNode node
        → Stands t (conds stack (some k)) out (written_of node more) r
        → Comes site t unwrapped opaque a about r (conds stack (some k)) out more
    node_hidden (shown text) r out more stack k h sound stands =
        Goes-plain site t unwrapped opaque text r (conds stack (some k)) out more sound stands
    node_hidden (without_else q nodes) r out more stack k h (name, sound) stands =
        let c : Conds = conds stack (some k) in
        let c1 : Conds = conds (opened true ∷ stack) (some k) in
        let closing : Bytes = directive (codes "endif") more in
        then_comes r c1 c out out (written nodes closing) more
          (comes_skipped site t unwrapped opaque a about r c out (written nodes closing) q c1 refl
            (open_hidden stack k) name stands)
          λ r1 there.
            then_comes r1 c1 c out out closing more
              (nodes_hidden nodes r1 out closing (opened true ∷ stack) k (omega arith) sound there)
              λ r2 behind.
                comes_endif site t unwrapped opaque a about r2 c1 out more c _
                  (end_hidden stack (opened true) k h) behind
    node_hidden (with_else q nodes others) r out more stack k h (name, sound, sound') stands =
        let c : Conds = conds stack (some k) in
        let c1 : Conds = conds (opened true ∷ stack) (some k) in
        let c2 : Conds = conds (elsed true ∷ stack) (some k) in
        let closing : Bytes = directive (codes "endif") more in
        let otherwise : Bytes = directive (codes "else") (written others closing) in
        then_comes r c1 c out out (written nodes otherwise) more
          (comes_skipped site t unwrapped opaque a about r c out (written nodes otherwise) q c1 refl
            (open_hidden stack k) name stands)
          λ r1 there.
            then_comes r1 c1 c out out otherwise more
              (nodes_hidden nodes r1 out otherwise (opened true ∷ stack) k (omega arith) sound
                there)
              λ r2 turned.
                then_comes r2 c2 c out out (written others closing) more
                  (comes_else site t unwrapped opaque a about r2 c1 out (written others closing) c2
                    (else_hidden stack true k h) turned)
                  λ r3 there'.
                    then_comes r3 c2 c out out closing more
                      (nodes_hidden others r3 out closing (elsed true ∷ stack) k (omega arith)
                        sound' there')
                      λ r4 behind.
                        comes_endif site t unwrapped opaque a about r4 c2 out more c _
                          (end_hidden stack (elsed true) k h) behind

    nodes_hidden :
        (nodes : Nodes) (r : Scanning) (out more : Bytes) (stack : List Cond) (k : ℕ)
        → k < length stack
        → IsSound nodes
        → Stands t (conds stack (some k)) out (written nodes more) r
        → Comes site t unwrapped opaque a about r (conds stack (some k)) out more
    nodes_hidden end r out more stack k h sound stands =
        Goes-nowhere site t unwrapped opaque r (conds stack (some k)) out more stands
    nodes_hidden (then_node node nodes) r out more stack k h (sound, sounds) stands =
        let c : Conds = conds stack (some k) in
        then_comes r c c out out (written nodes more) more
          (node_hidden node r out (written nodes more) stack k h sound stands)
          λ r1 there. nodes_hidden nodes r1 out more stack k h sounds there

  mutual
    unfolding written seen IsSound

    node_visible :
        (node : Node) (r : Scanning) (out more : Bytes) (stack : List Cond)
        → IsSoundNode node
        → Stands t (conds stack none) out (written_of node more) r
        → Comes site t unwrapped opaque a about r
            (conds stack none)
            (out ++ seen_of site a node)
            more
    node_visible (shown text) r out more stack sound stands =
        Goes-plain site t unwrapped opaque text r (conds stack none) out more sound stands
    node_visible (without_else q nodes) r out more stack (name, sound) stands =
        let b : Bool = is_chosen site a q in
        let c : Conds = conds stack none in
        let c1 : Conds = conds (opened b ∷ stack) (shut b stack) in
        let closing : Bytes = directive (codes "endif") more in
        let out1 : Bytes = out ++ (if b then seen site a nodes else []) in
        then_comes r c1 c out out1 (written nodes closing) more
          (comes_opened site t unwrapped opaque a about r c out (written nodes closing) q c1 refl
            (open_visible stack b) name stands)
          λ r1 there.
            then_comes r1 c1 c out1 out1 closing more
              (by_part site t unwrapped opaque a about b r1 (opened b) stack out (seen site a nodes)
                (written nodes closing) closing
                (nodes_visible nodes r1 out closing (opened b ∷ stack) sound)
                (nodes_hidden nodes r1 out closing (opened b ∷ stack) (length stack) (omega arith)
                  sound)
                there)
              λ r2 behind.
                comes_endif site t unwrapped opaque a about r2 c1 out1 more c _
                  (end_shut stack (opened b) b) behind
    node_visible (with_else q nodes others) r out more stack (name, sound, sound') stands =
        let b : Bool = is_chosen site a q in
        let c : Conds = conds stack none in
        let c1 : Conds = conds (opened b ∷ stack) (shut b stack) in
        let c2 : Conds = conds (elsed b ∷ stack) (shut (not b) stack) in
        let closing : Bytes = directive (codes "endif") more in
        let otherwise : Bytes = directive (codes "else") (written others closing) in
        let out1 : Bytes = out ++ (if b then seen site a nodes else []) in
        let out2 : Bytes = out1 ++ (if not b then seen site a others else []) in
        rw (sym (either b out (seen site a nodes) (seen site a others))) (
          then_comes r c1 c out out2 (written nodes otherwise) more
            (comes_opened site t unwrapped opaque a about r c out (written nodes otherwise) q c1
              refl (open_visible stack b) name stands)
            λ r1 there.
              then_comes r1 c1 c out1 out2 otherwise more
                (by_part site t unwrapped opaque a about b r1 (opened b) stack out
                  (seen site a nodes) (written nodes otherwise) otherwise
                  (nodes_visible nodes r1 out otherwise (opened b ∷ stack) sound)
                  (nodes_hidden nodes r1 out otherwise (opened b ∷ stack) (length stack)
                    (omega arith) sound)
                  there)
                λ r2 turned.
                  then_comes r2 c2 c out1 out2 (written others closing) more
                    (comes_else site t unwrapped opaque a about r2 c1 out1 (written others closing)
                      c2 (else_shut stack b) turned)
                    λ r3 there'.
                      then_comes r3 c2 c out2 out2 closing more
                        (by_part site t unwrapped opaque a about (not b) r3 (elsed b) stack out1
                          (seen site a others) (written others closing) closing
                          (nodes_visible others r3 out1 closing (elsed b ∷ stack) sound')
                          (nodes_hidden others r3 out1 closing (elsed b ∷ stack) (length stack)
                            (omega arith) sound')
                          there')
                        λ r4 behind.
                          comes_endif site t unwrapped opaque a about r4 c2 out2 more c _
                            (end_shut stack (elsed b) (not b)) behind)

    pub nodes_visible :
        (nodes : Nodes) (r : Scanning) (out more : Bytes) (stack : List Cond)
        → IsSound nodes
        → Stands t (conds stack none) out (written nodes more) r
        → Comes site t unwrapped opaque a about r (conds stack none) (out ++ seen site a nodes) more
    nodes_visible end r out more stack sound stands =
        rw (append-nil out)
          (Goes-nowhere site t unwrapped opaque r (conds stack none) out more stands)
    nodes_visible (then_node node nodes) r out more stack (sound, sounds) stands =
        let c : Conds = conds stack none in
        rw (sym (append_assoc out (seen_of site a node) (seen site a nodes))) (
          then_comes r c c (out ++ seen_of site a node) _ (written nodes more) more
            (node_visible node r out (written nodes more) stack sound stands)
            λ r1 there. nodes_visible nodes r1 (out ++ seen_of site a node) more stack sounds there)

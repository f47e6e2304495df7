-- ===== src/Texts/Initial.antt =====
-- The headers that a mail of a text begins with, `prepstdreply` of src/prepstdreply.c.
use mlmmj.Base.{ℕ, ◌≡◌, refl, Option, none, some, List, Bytes, All}
use mlmmj.CString.{case_eq, strchr}
use mlmmj.Texts.{Site, Substs, Loop, unfinished, crashed, done, substitute}
use mlmmj.Texts.Headers.{Reply, standard_headers, standard_list, replied, and_then, genmsgid}
use mlmmj.Texts.Standard.{IsNamed, Distinct}
use mlmmj.Headers.{chomp, cut_newlines}
use mathlib.Core.Path.{subst}

and_then-done {ℓ ℓ'} :
    {A : Type ℓ} {B : Type ℓ'} (l : Loop A) (f : A → Loop B) (b : B)
    → and_then l f ≡ done b
    → (a : A) × (l ≡ done a) × (f a ≡ done b)
and_then-done unfinished f b h = absurd (cc)
and_then-done crashed f b h = absurd (cc)
and_then-done (done a) f b h = (a, refl, h)

-- The headers that a mail begins with have different names.
standard_list-Distinct :
    (s : Site) (r : Reply) (from to : Bytes) (replyto : Option Bytes)
    → All IsNamed (standard_list s r from to replyto) × Distinct (standard_list s r from to replyto)
unfolding standard_list genmsgid chomp cut_newlines strchr case_eq
standard_list-Distinct s r from to none = (
  (
    (_, refl),
    ((_, refl), ((_, refl), ((_, refl), ((_, refl), ((_, refl), ((_, refl), ((_, refl), tt))))))),
  ),
  (
    (refl, (refl, (refl, (refl, (refl, (refl, (refl, tt))))))),
    (
      (refl, (refl, (refl, (refl, (refl, (refl, tt)))))),
      (
        (refl, (refl, (refl, (refl, (refl, tt))))),
        (
          (refl, (refl, (refl, (refl, tt)))),
          ((refl, (refl, (refl, tt))), ((refl, (refl, tt)), ((refl, tt), (tt, tt)))),
        ),
      ),
    ),
  ),
)
standard_list-Distinct s r from to (some value) = (
  (
    (_, refl),
    (
      (_, refl),
      ((_, refl), ((_, refl), ((_, refl), ((_, refl), ((_, refl), ((_, refl), ((_, refl), tt))))))),
    ),
  ),
  (
    (refl, (refl, (refl, (refl, (refl, (refl, (refl, (refl, tt)))))))),
    (
      (refl, (refl, (refl, (refl, (refl, (refl, (refl, tt))))))),
      (
        (refl, (refl, (refl, (refl, (refl, (refl, tt)))))),
        (
          (refl, (refl, (refl, (refl, (refl, tt))))),
          (
            (refl, (refl, (refl, (refl, tt)))),
            ((refl, (refl, (refl, tt))), ((refl, (refl, tt)), ((refl, tt), (tt, tt)))),
          ),
        ),
      ),
    ),
  ),
)

pub standard_headers-Distinct :
    (fuel : ℕ) (s : Site) (substs : Substs) (r : Reply) (headers : List Bytes)
    → standard_headers fuel s substs r ≡ done headers
    → All IsNamed headers × Distinct headers
unfolding standard_headers
standard_headers-Distinct fuel s substs r left e =
    let with_to : Bytes → Bytes → Loop (List Bytes) = λ from to.
      and_then (replied fuel s substs r.replyto)
        (λ replyto. done (standard_list s r from to replyto)) in
    let with_from : Bytes → Loop (List Bytes) =
      λ from. and_then (substitute fuel s substs r.to) (with_to from) in
    let (from, _, e1) = and_then-done (substitute fuel s substs r.from) with_from left e in
    let (to, _, e2) = and_then-done (substitute fuel s substs r.to) (with_to from) left e1 in
    let (replyto, _, e3) =
      and_then-done (replied fuel s substs r.replyto)
        (λ replyto. done (standard_list s r from to replyto)) left e2 in
    let same : standard_list s r from to replyto ≡ left = cc in
    subst (λ l. All IsNamed l × Distinct l) same (standard_list-Distinct s r from to replyto)

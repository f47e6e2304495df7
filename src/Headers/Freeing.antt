-- ===== src/Headers/Freeing.antt =====
-- The pointer that src/do_all_the_voodoo_here.c frees twice.
use mlmmj.Base.{
  ◌≡◌, refl, ◌∙◌, Bool, true, false, ◌||◌, none, some, List, [], ◌∷◌, ◌++◌, if◌then◌else◌, Bytes,
  codes, drop,
}
use mlmmj.CString.{case_eq_n}
use mlmmj.Headers.Rewriting.{
  Voodoo, Written, Pointer, is_subject, add_extra, add_replyto, end_of_headers, wants_prefix,
  write_header, write_headers, do_all_the_voodoo_here, null, frees_twice, freed, held, emit,
}
use mlmmj.Headers.{Header, headers}
use mlmmj.Headers.Passing.{is_mime}

-- Neither a prefix nor extra headers are set, and the address of the list goes into From:.
pub record IsMunging (v : Voodoo) (listaddr : Bytes) : Type 0 where
  pub prefix : v.prefix ≡ none
  pub hdrfd : v.hdrfd ≡ none
  pub munged : v.listaddr ≡ some listaddr

pub record IsFrom (hdrline : Bytes) : Type 0 where
  pub other : case_eq_n 9 hdrline (codes "Reply-To:") ≡ false
  pub token : case_eq_n 5 hdrline (codes "From:") ≡ true

abbrev pub IsReplyTo : Bytes → Type 0
IsReplyTo hdrline = case_eq_n 9 hdrline (codes "Reply-To:") ≡ true

emit-frees_twice : (s : Bytes) (w : Written) → w ≡ frees_twice → emit s w ≡ frees_twice
emit-frees_twice s w h = rw h refl

module _ (v : Voodoo) (listaddr : Bytes) (m : IsMunging v listaddr) where
  add_extra_none : (added : Bool) (w : Written) → add_extra v added w ≡ w
  unfolding add_extra
  add_extra_none true w = refl
  add_extra_none false w = rw (m.hdrfd, add_extra) refl

  same_if : (t added : Bool) (w : Written) → (if t then add_extra v added w else w) ≡ w
  same_if true added w = add_extra_none added w
  same_if false added w = refl

  no_prefix : (hdrline : Bytes) → wants_prefix v hdrline ≡ none
  unfolding wants_prefix
  no_prefix hdrline = rw (m.prefix, wants_prefix) refl

  write_headers-write_header :
      (added subject present : Bool) (q : Pointer) (h : Header) (hdrs : List Header)
      (body : List Bytes)
      → write_headers v added subject present q (h ∷ hdrs) body
        ≡ write_header v present q h (λ present' q'.
          write_headers v
            (added || is_mime h.0)
            (subject || is_subject v h.0)
            present'
            q'
            hdrs
            body)
  unfolding write_headers
  write_headers-write_header added subject present q h hdrs body =
      rw (write_headers, no_prefix h.0) (same_if (is_mime h.0) added _)

  write_header-frees :
      (present : Bool) (q : Pointer) (h : Header) (next : Bool → Pointer → Written)
      → IsFrom h.0
      → ((s : Bytes) → next present (held s) ≡ frees_twice)
      → write_header v present q h next ≡ frees_twice
  unfolding write_header
  write_header-frees present q h next f k =
      rw
        (
          m.munged,
          write_header,
          f.other,
          f.token,
          k (codes "Reply-To: " ++ (drop 5 h.0 ++ codes "\n")),
        )
        refl

  write_header-reply :
      (present : Bool) (s : Bytes) (h : Header) (next : Bool → Pointer → Written)
      → IsReplyTo h.0
      → next true freed ≡ frees_twice
      → write_header v present (held s) h next ≡ frees_twice
  unfolding write_header
  write_header-reply present s h next f k =
      rw (m.munged, write_header, f) (emit-frees_twice h.1 (next true freed) k)

  freed_again :
      (subject : Bool) (body : List Bytes) → end_of_headers v subject true freed body ≡ frees_twice
  unfolding end_of_headers add_replyto
  freed_again subject body = rw (m.prefix, end_of_headers) refl

  freed_end :
      (added subject : Bool) (body : List Bytes)
      → write_headers v added subject true freed [] body ≡ frees_twice
  unfolding write_headers
  freed_end added subject body =
      rw (write_headers, freed_again subject body) (add_extra_none added frees_twice)

  -- A mail whose only headers are a From: header and then a Reply-To: header makes the program free the same
  -- pointer twice, on a list whose address goes into From:, without a prefix and without extra headers.
  pub do_all_the_voodoo_here_frees_twice :
      (readhdrs : List (Bytes × List Bytes)) (mail : List Bytes) (from reply : Header)
      → (headers mail).0 ≡ from ∷ reply ∷ []
      → IsFrom from.0
      → IsReplyTo reply.0
      → (do_all_the_voodoo_here v readhdrs mail).0 ≡ frees_twice
  unfolding do_all_the_voodoo_here
  do_all_the_voodoo_here_frees_twice readhdrs mail from reply e f r =
      rw (do_all_the_voodoo_here, e)
        (write_headers-write_header false false false null from (reply ∷ []) (headers mail).1
          ∙ write_header-frees false null from _ f (λ s.
            write_headers-write_header _ _ false (held s) reply [] (headers mail).1
            ∙ write_header-reply false s reply _ r (freed_end _ _ (headers mail).1)))

-- ===== src/Unistr/Header/Quoted.antt =====
-- The "Q" encoding of src/unistr.c, written and read back.
use mlmmj.Base.{
  ℕ, ◌/◌, ◌%◌, ◌<◌, ◌≡◌, refl, ap, ◌∙◌, inl, inr, true, false, [], ◌∷◌, arith, ◌==◌, Bool-cases,
  Bytes, All, sym,
}
use mlmmj.CString.{tolower, is_xdigit}
use mlmmj.Unistr.Header.{hexval, decode_qp, qp_plain, hex_digit, qp, is_ok_in_header}

abbrev pub IsByte : ℕ → Type 0
IsByte c = c < 256

pub hexval-hex_digit : (d : ℕ) → d < 16 → hexval (hex_digit d) ≡ d
unfolding hexval hex_digit tolower
hexval-hex_digit d h = ground arith

pub is_xdigit-hex_digit : (d : ℕ) → d < 16 → is_xdigit (hex_digit d) ≡ true
unfolding hex_digit
is_xdigit-hex_digit d h = ground arith

decode_qp_plain :
    (c : ℕ) (str : Bytes) → (c == b'=') ≡ false → decode_qp (c ∷ str) ≡ qp_plain c ∷ decode_qp str
unfolding decode_qp
decode_qp_plain c [] h = refl
decode_qp_plain c (a ∷ []) h = refl
decode_qp_plain c (a ∷ b ∷ str) h = rw h refl

decode_qp_escaped :
    (c : ℕ) (str : Bytes)
    → c < 256
    → decode_qp (b'=' ∷ hex_digit (c / 16) ∷ hex_digit (c % 16) ∷ str) ≡ c ∷ decode_qp str
unfolding decode_qp
decode_qp_escaped c str h =
    rw
      (
        is_xdigit-hex_digit (c / 16) (omega (arith, h)),
        is_xdigit-hex_digit (c % 16) (omega arith),
        hexval-hex_digit (c / 16) (omega (arith, h)),
        hexval-hex_digit (c % 16) (omega arith),
      )
      (ap (λ x. x ∷ decode_qp str) (omega arith))

ok-plain : (c : ℕ) → is_ok_in_header c ≡ true → ((c == b'=') ≡ false) × (qp_plain c ≡ c)
unfolding is_ok_in_header
ok-plain c h = ground arith

is_space : (c : ℕ) → (c == 32) ≡ true → c ≡ 32
is_space c h = ground arith

-- Bytes that were written in the "Q" encoding are read back as they were.
pub decode_qp-qp : (str : Bytes) → All IsByte str → decode_qp (qp str) ≡ str
unfolding qp
decode_qp-qp [] h = unfold decode_qp in refl
decode_qp-qp (c ∷ str) (h, hs) = elim (Bool-cases (c == 32)) [
  | inl e ↦ rw e (
      decode_qp_plain b'_' (qp str) refl
      ∙ (ap (λ x. 32 ∷ x) (decode_qp-qp str hs) ∙ ap (λ x. x ∷ str) (sym (is_space c e))))
  | inr e ↦ elim (Bool-cases (is_ok_in_header c)) [
    | inl ok ↦
        rw (e, ok)
          (decode_qp_plain c (qp str) (ok-plain c ok).0
            ∙ rw (ok-plain c ok).1 (ap (λ x. c ∷ x) (decode_qp-qp str hs)))
    | inr ok ↦ rw (e, ok) (decode_qp_escaped c (qp str) h ∙ ap (λ x. c ∷ x) (decode_qp-qp str hs))
  ]
]

-- ===== src/Unistr/Lossy.antt =====
-- Characters that src/unistr.c writes and does not read back.
use mlmmj.Base.{
  ℕ, suc, ◌+◌, ◌/◌, ◌%◌, ◌≤◌, ◌<◌, ◌≡◌, refl, ap, ◌∙◌, ◌⊎◌, inl, inr, true, false, none, some, [],
  ◌∷◌, arith, leb, if◌then◌else◌, Bytes, codes, length,
}
use mlmmj.Unistr.{utf8, encode, lead, follow, unistr_append_utf8}
use mlmmj.Unistr.Utf8.{encode_three, encode_four}

-- A byte that can only follow is no first byte.
utf8-stray : (n ch d : ℕ) (bin : Bytes) → utf8 (suc n) 0 ch (follow d ∷ bin) ≡ b'?' ∷ utf8 n 0 0 bin
unfolding utf8 lead
utf8-stray n ch d bin = rw (above d, no_lead d) refl
  where
    above : (d : ℕ) → leb (follow d) 127 ≡ false
    above d = ground arith

    no_lead : (d : ℕ) → lead (follow d) ≡ none
    no_lead d = ground arith

utf8-empty_lead :
    (n b j : ℕ) (bin : Bytes)
    → 127 < b
    → lead b ≡ some (0, j)
    → utf8 (suc n) 0 0 (b ∷ bin) ≡ b'?' ∷ utf8 n 0 0 bin
unfolding utf8
utf8-empty_lead n b j bin h k = rw (above b h, k) refl
  where
    above : (b : ℕ) → 127 < b → leb b 127 ≡ false
    above b h = ground arith

lead-E0 : (c : ℕ) → c ≤ 4095 → lead (224 + (c / 4096) % 16) ≡ some (0, 2)
unfolding lead
lead-E0 c h = ground arith

lead-F0 : (c : ℕ) → c ≤ 262143 → lead (240 + (c / 262144) % 8) ≡ some (0, 3)
unfolding lead
lead-F0 c h = ground arith

marks_E0 :
    (c : ℕ)
    → c ≤ 4095
    → utf8 3 0 0 ((224 + (c / 4096) % 16) ∷ follow (c / 64) ∷ follow c ∷ []) ≡ codes "???"
unfolding utf8
marks_E0 c h =
    utf8-empty_lead 2 (224 + (c / 4096) % 16) 2 (follow (c / 64) ∷ follow c ∷ []) (omega arith)
      (lead-E0 c h)
    ∙ ap (λ x. b'?' ∷ x)
        (utf8-stray 1 0 (c / 64) (follow c ∷ []) ∙ ap (λ x. b'?' ∷ x) (utf8-stray 0 0 c []))

marks_F0 :
    (c : ℕ)
    → c ≤ 262143
    → utf8 4 0 0 ((240 + (c / 262144) % 8) ∷ follow (c / 4096) ∷ follow (c / 64) ∷ follow c ∷ [])
      ≡ codes "????"
unfolding utf8
marks_F0 c h =
    utf8-empty_lead 3 (240 + (c / 262144) % 8) 3
      (follow (c / 4096) ∷ follow (c / 64) ∷ follow c ∷ []) (omega arith) (lead-F0 c h)
    ∙ ap (λ x. b'?' ∷ x)
        (utf8-stray 2 0 (c / 4096) (follow (c / 64) ∷ follow c ∷ [])
          ∙ ap (λ x. b'?' ∷ x)
              (utf8-stray 1 0 (c / 64) (follow c ∷ []) ∙ ap (λ x. b'?' ∷ x) (utf8-stray 0 0 c [])))

leb-true : (m k : ℕ) → m ≤ k → leb m k ≡ true
leb-true m k h = ground arith

leb-false : (m k : ℕ) → k < m → leb m k ≡ false
leb-false m k h = ground arith

-- A character from U+0800 to U+0FFF is read as three question marks, and one from U+10000 to
-- U+3FFFF as four.
unistr_append_utf8_lossy :
    (c : ℕ)
    → ((2047 < c) × (c ≤ 4095)) ⊎ ((65535 < c) × (c ≤ 262143))
    → unistr_append_utf8 (encode c) (length (encode c))
      ≡ (if leb c 4095 then codes "???" else codes "????")
unfolding unistr_append_utf8
unistr_append_utf8_lossy c (inl (l, h)) =
    rw (leb-true c 4095 h, encode_three c l (omega (arith, h))) (marks_E0 c h)
unistr_append_utf8_lossy c (inr (l, h)) =
    rw (leb-false c 4095 (omega (arith, l)), encode_four c l (omega (arith, h))) (marks_F0 c h)

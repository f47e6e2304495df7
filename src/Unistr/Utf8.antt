-- ===== src/Unistr/Utf8.antt =====
-- The UTF-8 of src/unistr.c, written and read back.
use mlmmj.Base.{
  ℕ, suc, ◌+◌, ◌*◌, ◌/◌, ◌%◌, ◌≤◌, ◌<◌, ◌≡◌, refl, ap, ◌∙◌, true, List, [], ◌∷◌, ◌++◌, arith, leb,
  Bytes, length, length-append, All, all,
}
use mlmmj.Unistr.{utf8, encode, encode_all, unistr_to_utf8, unistr_append_utf8, fits, follow}
use mlmmj.Unistr.Steps.{
  lead-two, lead-three, utf8-follow, utf8-last, utf8-lead, lead-four, lead-five, lead-six, plus_2,
  plus_3, plus_4, plus_5, plus_6,
}

-- A character whose first byte carries a bit of it.
pub data IsCarried (c : ℕ) : Type 0 where
  one : c ≤ 127 → IsCarried c
  two : 127 < c → c ≤ 2047 → IsCarried c
  three : 4095 < c → c ≤ 65535 → IsCarried c
  four : 262143 < c → c ≤ 2097151 → IsCarried c
  five : 16777215 < c → c ≤ 67108863 → IsCarried c
  six : 1073741823 < c → c ≤ 2147483647 → IsCarried c

joined_two : (c : ℕ) → c ≤ 2047 → (c / 64) % 32 * 64 + c % 64 ≡ c
joined_two c h = omega arith

utf8-two :
    (n c : ℕ) (bin : Bytes)
    → 127 < c
    → c ≤ 2047
    → utf8 (2 + n) 0 0 ((192 + (c / 64) % 32) ∷ follow c ∷ bin) ≡ c ∷ utf8 n 0 0 bin
utf8-two n c bin l h = rw (plus_2 n) (
    utf8-lead _ _ ((c / 64) % 32) 1 _ (omega arith) (lead-two ((c / 64) % 32) (omega arith))
      (omega arith)
    ∙ (utf8-last _ _ c bin ∙ ap (λ x. x ∷ utf8 n 0 0 bin) (joined_two c h)))

pub encode_two : (c : ℕ) → 127 < c → c ≤ 2047 → encode c ≡ (192 + (c / 64) % 32) ∷ follow c ∷ []
unfolding encode
encode_two c l h = ground arith

joined_three : (c : ℕ) → c ≤ 65535 → ((c / 4096) % 16 * 64 + (c / 64) % 64) * 64 + c % 64 ≡ c
joined_three c h = omega arith

utf8-three :
    (n c : ℕ) (bin : Bytes)
    → 4095 < c
    → c ≤ 65535
    → utf8 (3 + n) 0 0 ((224 + (c / 4096) % 16) ∷ follow (c / 64) ∷ follow c ∷ bin)
      ≡ c ∷ utf8 n 0 0 bin
utf8-three n c bin l h = rw (plus_3 n) (
    utf8-lead _ _ ((c / 4096) % 16) 2 _ (omega arith) (lead-three ((c / 4096) % 16) (omega arith))
      (omega arith)
    ∙ (utf8-follow _ _ _ (c / 64) _
        ∙ (utf8-last _ _ c bin ∙ ap (λ x. x ∷ utf8 n 0 0 bin) (joined_three c h))))

pub encode_three :
    (c : ℕ)
    → 2047 < c
    → c ≤ 65535
    → encode c ≡ (224 + (c / 4096) % 16) ∷ follow (c / 64) ∷ follow c ∷ []
unfolding encode
encode_three c l h = ground arith

joined_four :
    (c : ℕ)
    → c ≤ 2097151
    → (((c / 262144) % 8 * 64 + (c / 4096) % 64) * 64 + (c / 64) % 64) * 64 + c % 64 ≡ c
joined_four c h = omega arith

utf8-four :
    (n c : ℕ) (bin : Bytes)
    → 262143 < c
    → c ≤ 2097151
    → utf8
        (4 + n)
        0
        0
        ((240 + (c / 262144) % 8) ∷ follow (c / 4096) ∷ follow (c / 64) ∷ follow c ∷ bin)
      ≡ c ∷ utf8 n 0 0 bin
utf8-four n c bin l h = rw (plus_4 n) (
    utf8-lead _ _ ((c / 262144) % 8) 3 _ (omega arith) (lead-four ((c / 262144) % 8) (omega arith))
      (omega arith)
    ∙ (utf8-follow _ _ _ (c / 4096) _
        ∙ (utf8-follow _ _ _ (c / 64) _
            ∙ (utf8-last _ _ c bin ∙ ap (λ x. x ∷ utf8 n 0 0 bin) (joined_four c h)))))

pub encode_four :
    (c : ℕ)
    → 65535 < c
    → c ≤ 2097151
    → encode c ≡ (240 + (c / 262144) % 8) ∷ follow (c / 4096) ∷ follow (c / 64) ∷ follow c ∷ []
unfolding encode
encode_four c l h = ground arith

joined_five :
    (c : ℕ)
    → c ≤ 67108863
    → ((((c / 16777216) % 4 * 64 + (c / 262144) % 64) * 64 + (c / 4096) % 64) * 64 + (c / 64) % 64)
          * 64
        + c % 64
      ≡ c
joined_five c h = omega arith

utf8-five :
    (n c : ℕ) (bin : Bytes)
    → 16777215 < c
    → c ≤ 67108863
    → utf8 (5 + n) 0 0 (
        (248 + (c / 16777216) % 4)
        ∷ follow (c / 262144)
        ∷ follow (c / 4096)
        ∷ follow (c / 64)
        ∷ follow c
        ∷ bin)
      ≡ c ∷ utf8 n 0 0 bin
utf8-five n c bin l h = rw (plus_5 n) (
    utf8-lead _ _ ((c / 16777216) % 4) 4 _ (omega arith)
      (lead-five ((c / 16777216) % 4) (omega arith)) (omega arith)
    ∙ (utf8-follow _ _ _ (c / 262144) _
        ∙ (utf8-follow _ _ _ (c / 4096) _
            ∙ (utf8-follow _ _ _ (c / 64) _
                ∙ (utf8-last _ _ c bin ∙ ap (λ x. x ∷ utf8 n 0 0 bin) (joined_five c h))))))

pub encode_five :
    (c : ℕ)
    → 2097151 < c
    → c ≤ 67108863
    → encode c
      ≡ (248 + (c / 16777216) % 4)
        ∷ follow (c / 262144)
        ∷ follow (c / 4096)
        ∷ follow (c / 64)
        ∷ follow c
        ∷ []
unfolding encode
encode_five c l h = ground arith

joined_six :
    (c : ℕ)
    → c ≤ 2147483647
    → (((((c / 1073741824) % 2 * 64 + (c / 16777216) % 64) * 64 + (c / 262144) % 64) * 64
                + (c / 4096) % 64)
              * 64
            + (c / 64) % 64)
          * 64
        + c % 64
      ≡ c
joined_six c h = omega arith

utf8-six :
    (n c : ℕ) (bin : Bytes)
    → 1073741823 < c
    → c ≤ 2147483647
    → utf8 (6 + n) 0 0 (
        (252 + (c / 1073741824) % 2)
        ∷ follow (c / 16777216)
        ∷ follow (c / 262144)
        ∷ follow (c / 4096)
        ∷ follow (c / 64)
        ∷ follow c
        ∷ bin)
      ≡ c ∷ utf8 n 0 0 bin
utf8-six n c bin l h = rw (plus_6 n) (
    utf8-lead _ _ ((c / 1073741824) % 2) 5 _ (omega arith)
      (lead-six ((c / 1073741824) % 2) (omega arith)) (omega arith)
    ∙ (utf8-follow _ _ _ (c / 16777216) _
        ∙ (utf8-follow _ _ _ (c / 262144) _
            ∙ (utf8-follow _ _ _ (c / 4096) _
                ∙ (utf8-follow _ _ _ (c / 64) _
                    ∙ (utf8-last _ _ c bin ∙ ap (λ x. x ∷ utf8 n 0 0 bin) (joined_six c h)))))))

pub encode_six :
    (c : ℕ)
    → 67108863 < c
    → c ≤ 2147483647
    → encode c
      ≡ (252 + (c / 1073741824) % 2)
        ∷ follow (c / 16777216)
        ∷ follow (c / 262144)
        ∷ follow (c / 4096)
        ∷ follow (c / 64)
        ∷ follow c
        ∷ []
unfolding encode
encode_six c l h = ground arith

utf8-one : (c n : ℕ) (bin : Bytes) → c ≤ 127 → utf8 (1 + n) 0 0 (c ∷ bin) ≡ c ∷ utf8 n 0 0 bin
unfolding utf8
utf8-one c n bin h = rw (plus_1 n, small c h) refl
  where
    plus_1 : (n : ℕ) → 1 + n ≡ suc n
    plus_1 n = omega arith

    small : (c : ℕ) → c ≤ 127 → leb c 127 ≡ true
    small c h = ground arith

encode_one : (c : ℕ) → c ≤ 127 → encode c ≡ c ∷ []
unfolding encode
encode_one c h = ground arith

utf8-encode :
    (c : ℕ) (bin : Bytes) (n : ℕ)
    → IsCarried c
    → utf8 (length (encode c) + n) 0 0 (encode c ++ bin) ≡ c ∷ utf8 n 0 0 bin
utf8-encode c bin n (one h) = rw (encode_one c h) (utf8-one c n bin h)
utf8-encode c bin n (two l h) = rw (encode_two c l h) (utf8-two n c bin l h)
utf8-encode c bin n (three l h) = rw (encode_three c (omega (arith, l)) h) (utf8-three n c bin l h)
utf8-encode c bin n (four l h) = rw (encode_four c (omega (arith, l)) h) (utf8-four n c bin l h)
utf8-encode c bin n (five l h) = rw (encode_five c (omega (arith, l)) h) (utf8-five n c bin l h)
utf8-encode c bin n (six l h) = rw (encode_six c (omega (arith, l)) h) (utf8-six n c bin l h)

IsCarried-fits : (c : ℕ) → IsCarried c → fits c ≡ true
IsCarried-fits c (one h) = ground arith
IsCarried-fits c (two l h) = ground arith
IsCarried-fits c (three l h) = ground arith
IsCarried-fits c (four l h) = ground arith
IsCarried-fits c (five l h) = ground arith
IsCarried-fits c (six l h) = ground arith

IsCarried-all : (chars : List ℕ) → All IsCarried chars → all fits chars ≡ true
IsCarried-all [] h = refl
IsCarried-all (c ∷ chars) (h, hs) = rw (IsCarried-fits c h) (IsCarried-all chars hs)

utf8-encode_all :
    (chars : List ℕ)
    → All IsCarried chars
    → utf8 (length (encode_all chars)) 0 0 (encode_all chars) ≡ chars
unfolding encode_all utf8
utf8-encode_all [] h = refl
utf8-encode_all (c ∷ chars) (h, hs) =
    rw
      (
        length-append (encode c) (encode_all chars),
        utf8-encode c (encode_all chars) (length (encode_all chars)) h,
        utf8-encode_all chars hs,
      )
      refl

-- UTF-8 that was written is read back as the same characters, where the first byte of each carries
-- a bit: those up to U+07FF, from U+1000, from U+40000, and so on.
pub unistr_append_utf8-unistr_to_utf8 :
    (chars : List ℕ)
    → All IsCarried chars
    → unistr_append_utf8 (unistr_to_utf8 chars) (length (unistr_to_utf8 chars)) ≡ chars
unfolding unistr_append_utf8 unistr_to_utf8
unistr_append_utf8-unistr_to_utf8 chars h = rw (IsCarried-all chars h) (utf8-encode_all chars h)

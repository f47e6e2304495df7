-- ===== src/Unistr/Header/Base64.antt =====
-- The "B" encoding, as RFC 4648 writes it, read by src/unistr.c.
use mlmmj.Base.{
  ℕ, ◌+◌, ◌-◌, ◌*◌, ◌/◌, ◌%◌, ◌<◌, ◌≡◌, refl, ◌∙◌, some, [], ◌∷◌, arith, leb, ◌==◌, if◌then◌else◌,
  Bytes, codes, All,
}
use mlmmj.Unistr.Header.Quoted.{IsByte}
use mlmmj.Unistr.Header.{tab, base64, decode_base64}

-- The digit for six bits.
unfoldable pub symbol : ℕ → ℕ
symbol v =
    if leb v 25
    then b'A' + v
    else if leb v 51
    then b'a' + (v - 26)
    else if leb v 61
    then b'0' + (v - 52)
    else if v == 62
    then b'+'
    else b'/'

tab-symbol : (v : ℕ) → v < 64 → tab (symbol v) ≡ some v
unfolding tab symbol
tab-symbol v h = ground arith

unfoldable pub encode_base64 : Bytes → Bytes
encode_base64 [] = []
encode_base64 (a ∷ []) = symbol (a / 4) ∷ symbol (a % 4 * 16) ∷ codes "=="
encode_base64 (a ∷ b ∷ []) =
    symbol (a / 4) ∷ symbol (a % 4 * 16 + b / 16) ∷ symbol (b % 16 * 4) ∷ codes "="
encode_base64 (a ∷ b ∷ c ∷ s) =
    symbol (a / 4)
    ∷ symbol (a % 4 * 16 + b / 16)
    ∷ symbol (b % 16 * 4 + c / 64)
    ∷ symbol (c % 64)
    ∷ encode_base64 s

abbrev taken : ℕ → ℕ → ℕ
taken out v = (out * 64 + v) % 4294967296

base64-0 :
    (out v : ℕ) (str : Bytes) → v < 64 → base64 out 0 (symbol v ∷ str) ≡ base64 (taken out v) 6 str
unfolding base64
base64-0 out v str h = rw (tab-symbol v h, base64) refl

base64-6 :
    (out v : ℕ) (str : Bytes)
    → v < 64
    → base64 out 6 (symbol v ∷ str) ≡ (taken out v / 16) % 256 ∷ base64 (taken out v) 4 str
unfolding base64
base64-6 out v str h = rw (tab-symbol v h, base64) refl

base64-4 :
    (out v : ℕ) (str : Bytes)
    → v < 64
    → base64 out 4 (symbol v ∷ str) ≡ (taken out v / 4) % 256 ∷ base64 (taken out v) 2 str
unfolding base64
base64-4 out v str h = rw (tab-symbol v h, base64) refl

base64-2 :
    (out v : ℕ) (str : Bytes)
    → v < 64
    → base64 out 2 (symbol v ∷ str) ≡ (taken out v / 1) % 256 ∷ base64 (taken out v) 0 str
unfolding base64
base64-2 out v str h = rw (tab-symbol v h, base64) refl

first_byte :
    (out a v : ℕ) → a < 256 → v < 16 → (taken (taken out (a / 4)) (a % 4 * 16 + v) / 16) % 256 ≡ a
first_byte out a v h k = omega (arith, h, k)

second_byte :
    (out b u v : ℕ)
    → b < 256
    → v < 4
    → (taken (taken out (u * 16 + b / 16)) (b % 16 * 4 + v) / 4) % 256 ≡ b
second_byte out b u v h k = omega (arith, h, k)

one_byte : (out a : ℕ) → a < 256 → (taken (taken out (a / 4)) (a % 4 * 16) / 16) % 256 ≡ a
one_byte out a h = omega (arith, h)

last_byte :
    (out b u : ℕ) → b < 256 → (taken (taken out (u * 16 + b / 16)) (b % 16 * 4) / 4) % 256 ≡ b
last_byte out b u h = omega (arith, h)

third_byte : (out c u : ℕ) → c < 256 → (taken (taken out (u * 4 + c / 64)) (c % 64) / 1) % 256 ≡ c
third_byte out c u h = omega (arith, h)

both_equal : {x y : ℕ} {xs ys : Bytes} → x ≡ y → xs ≡ ys → x ∷ xs ≡ y ∷ ys
both_equal h k = cc

padding : (out n : ℕ) → base64 out n (codes "=") ≡ []
unfolding base64 tab
padding out n = refl

padding_2 : (out n : ℕ) → base64 out n (codes "==") ≡ []
unfolding base64 tab
padding_2 out n = refl

base64-encode_base64 : (s : Bytes) (out : ℕ) → All IsByte s → base64 out 0 (encode_base64 s) ≡ s
unfolding encode_base64
base64-encode_base64 [] out h = unfold base64 in refl
base64-encode_base64 (a ∷ []) out (h, hs) =
    base64-0 out (a / 4) _ (omega (arith, h))
    ∙ (base64-6 _ (a % 4 * 16) _ (omega arith) ∙ both_equal (one_byte out a h) (padding_2 _ 4))
base64-encode_base64 (a ∷ b ∷ []) out (h, (k, hs)) =
    base64-0 out (a / 4) _ (omega (arith, h))
    ∙ (base64-6 _ (a % 4 * 16 + b / 16) _ (omega (arith, k))
        ∙ both_equal (first_byte out a (b / 16) h (omega (arith, k))) (
            base64-4 _ (b % 16 * 4) _ (omega arith)
            ∙ both_equal (last_byte _ b (a % 4) k) (padding _ 2)))
base64-encode_base64 (a ∷ b ∷ c ∷ s) out (h, (k, (l, hs))) =
    base64-0 out (a / 4) _ (omega (arith, h))
    ∙ (base64-6 _ (a % 4 * 16 + b / 16) _ (omega (arith, k))
        ∙ both_equal (first_byte out a (b / 16) h (omega (arith, k))) (
            base64-4 _ (b % 16 * 4 + c / 64) _ (omega (arith, l))
            ∙ both_equal (second_byte _ b (a % 4) (c / 64) k (omega (arith, l))) (
                base64-2 _ (c % 64) _ (omega arith)
                ∙ both_equal (third_byte _ c (b % 16) l) (base64-encode_base64 s _ hs))))

-- Bytes in the base 64 of RFC 4648 are read back as they were.
pub decode_base64-encode_base64 : (s : Bytes) → All IsByte s → decode_base64 (encode_base64 s) ≡ s
unfolding decode_base64
decode_base64-encode_base64 s h = base64-encode_base64 s 0 h

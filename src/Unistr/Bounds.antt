-- ===== src/Unistr/Bounds.antt =====
-- The characters that src/unistr.c makes of bytes stay in range.
use native.Mathlib.Nat.{mul_assoc, mul-le-mul_right}
use mlmmj.Base.{
  ℕ, zero, suc, ◌+◌, ◌-◌, ◌*◌, ◌/◌, ◌%◌, ◌≤◌, ◌<◌, ◌≡◌, ◌⊎◌, inl, inr, Bool, some, [], ◌∷◌, arith,
  leb, ◌==◌, if◌then◌else◌, Bool-cases, Option-cases, Bytes, All, true, false,
}
use mlmmj.Unistr.{utf8, lead, unistr_append_utf8}

abbrev pub IsBelow : ℕ → ℕ → Type 0
IsBelow m c = c < m

-- 64 ^ j
abbrev shifted : ℕ → ℕ
shifted zero = 1
shifted (suc j) = 64 * shifted j

lead-cases :
    (b bits j : ℕ)
    → b < 256
    → lead b ≡ some (bits, j)
    → ((bits < 32) × (j ≡ 1))
      ⊎ (((bits < 16) × (j ≡ 2))
          ⊎ (((bits < 8) × (j ≡ 3)) ⊎ (((bits < 4) × (j ≡ 4)) ⊎ ((bits < 2) × (j ≡ 5)))))
unfolding lead
lead-cases b bits j h k = ground arith

lead-shifted :
    (b bits j : ℕ) → b < 256 → lead b ≡ some (bits, j) → (bits + 1) * shifted j ≤ 2147483648
unfolding lead
lead-shifted b bits j h k = elim (lead-cases b bits j h k) [
  | inl (l, e) ↦ rw e (omega (arith, l))
  | inr (inl (l, e)) ↦ rw e (omega (arith, l))
  | inr (inr (inl (l, e))) ↦ rw e (omega (arith, l))
  | inr (inr (inr (inl (l, e)))) ↦ rw e (omega (arith, l))
  | inr (inr (inr (inr (l, e)))) ↦ rw e (omega (arith, l))
]

below_next : (ch d : ℕ) → d < 64 → ch * 64 + d + 1 ≤ (ch + 1) * 64
below_next ch d h = omega (arith, h)

step : (ch d m : ℕ) → d < 64 → (ch + 1) * (64 * m) ≤ 2147483648 → (ch * 64 + d + 1) * m ≤ 2147483648
step ch d m h k =
    omega (arith, h, k, mul-le-mul_right m (below_next ch d h), mul_assoc (ch + 1) 64 m)

utf8-IsBelow :
    (n j ch : ℕ) (bin : Bytes)
    → All (IsBelow 256) bin
    → (ch + 1) * shifted j ≤ 2147483648
    → All (IsBelow 2147483648) (utf8 n j ch bin)
unfolding utf8
utf8-IsBelow n zero ch [] h k = tt
utf8-IsBelow n (suc j) ch [] h k = (omega arith, tt)
utf8-IsBelow zero zero ch (b ∷ bin) h k = tt
utf8-IsBelow (suc n) zero ch (b ∷ bin) (h, hs) k = elim (Bool-cases (leb b 127)) [
  | inl e ↦ rw e (omega (arith, h), utf8-IsBelow n 0 0 bin hs (omega arith))
  | inr e ↦ elim (Option-cases (lead b)) [
    | inl m ↦ rw (e, m) (omega arith, utf8-IsBelow n 0 0 bin hs (omega arith))
    | inr ((bits, j), m) ↦ elim (Bool-cases (bits == 0)) [
      | inl z ↦ rw (e, m, z) (omega arith, utf8-IsBelow n 0 0 bin hs (omega arith))
      | inr z ↦ rw (e, m, z) (utf8-IsBelow n j bits bin hs (lead-shifted b bits j h m))
    ]
  ]
]
utf8-IsBelow n (suc zero) ch (b ∷ bin) (h, hs) k =
    (character (b / 64 == 2), utf8-IsBelow (n - 1) 0 0 bin hs (omega arith))
  where
    character : (t : Bool) → (if t then ch * 64 + b % 64 else b'?') < 2147483648
    character true = omega (arith, k)
    character false = omega arith
utf8-IsBelow n (suc (suc j)) ch (b ∷ bin) (h, hs) k = elim (Bool-cases (b / 64 == 2)) [
  | inl e ↦ rw e (
      utf8-IsBelow (n - 1) (suc j) (ch * 64 + b % 64) bin hs
        (step ch (b % 64) (shifted (suc j)) (omega arith) k))
  | inr e ↦ rw e (omega arith, utf8-IsBelow (n - 1) 0 0 bin hs (omega arith))
]

-- Every character that is read from UTF-8, valid or not, is below 2 ^ 31, so the 32 bits that hold
-- it while it is put together are enough.
unistr_append_utf8-IsBelow :
    (bin : Bytes) (bin_len : ℕ)
    → All (IsBelow 256) bin
    → All (IsBelow 2147483648) (unistr_append_utf8 bin bin_len)
unfolding unistr_append_utf8
unistr_append_utf8-IsBelow bin bin_len h = utf8-IsBelow bin_len 0 0 bin h (omega arith)

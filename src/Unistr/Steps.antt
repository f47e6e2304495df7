-- ===== src/Unistr/Steps.antt =====
-- The steps of `unistr_append_utf8` of src/unistr.c at single bytes.
use mlmmj.Base.{
  ℕ, suc, ◌+◌, ◌-◌, ◌*◌, ◌/◌, ◌%◌, ◌<◌, ◌≡◌, refl, false, some, ◌∷◌, arith, leb, ◌==◌, Bytes,
}
use mlmmj.Unistr.{utf8, lead, follow}

follow-lead : (d : ℕ) → follow d / 64 ≡ 2
follow-lead d = omega arith

follow-bits : (d : ℕ) → follow d % 64 ≡ d % 64
follow-bits d = omega arith

pred_suc : (n : ℕ) → suc n - 1 ≡ n
pred_suc n = omega arith

pub utf8-follow :
    (n j ch d : ℕ) (bin : Bytes)
    → utf8 (suc n) (suc (suc j)) ch (follow d ∷ bin) ≡ utf8 n (suc j) (ch * 64 + d % 64) bin
unfolding utf8
utf8-follow n j ch d bin = rw (follow-lead d, follow-bits d, pred_suc n) refl

pub utf8-last :
    (n ch d : ℕ) (bin : Bytes)
    → utf8 (suc n) 1 ch (follow d ∷ bin) ≡ (ch * 64 + d % 64) ∷ utf8 n 0 0 bin
unfolding utf8
utf8-last n ch d bin = rw (follow-lead d, follow-bits d, pred_suc n) refl

pub utf8-lead :
    (n b bits j : ℕ) (bin : Bytes)
    → 127 < b
    → lead b ≡ some (bits, j)
    → 0 < bits
    → utf8 (suc n) 0 0 (b ∷ bin) ≡ utf8 n j bits bin
unfolding utf8
utf8-lead n b bits j bin h k l = rw (leb-false b 127 h, k, nonzero bits l) refl
  where
    nonzero : (m : ℕ) → 0 < m → (m == 0) ≡ false
    nonzero m l = ground arith

    leb-false : (m k : ℕ) → k < m → leb m k ≡ false
    leb-false m k l = ground arith

pub lead-two : (x : ℕ) → x < 32 → lead (192 + x) ≡ some (x, 1)
unfolding lead
lead-two x h = ground arith

pub lead-three : (x : ℕ) → x < 16 → lead (224 + x) ≡ some (x, 2)
unfolding lead
lead-three x h = ground arith

pub lead-four : (x : ℕ) → x < 8 → lead (240 + x) ≡ some (x, 3)
unfolding lead
lead-four x h = ground arith

pub lead-five : (x : ℕ) → x < 4 → lead (248 + x) ≡ some (x, 4)
unfolding lead
lead-five x h = ground arith

pub lead-six : (x : ℕ) → x < 2 → lead (252 + x) ≡ some (x, 5)
unfolding lead
lead-six x h = ground arith

pub plus_2 : (n : ℕ) → 2 + n ≡ suc (suc n)
plus_2 n = omega arith

pub plus_3 : (n : ℕ) → 3 + n ≡ suc (suc (suc n))
plus_3 n = omega arith

pub plus_4 : (n : ℕ) → 4 + n ≡ suc (suc (suc (suc n)))
plus_4 n = omega arith

pub plus_5 : (n : ℕ) → 5 + n ≡ suc (suc (suc (suc (suc n))))
plus_5 n = omega arith

pub plus_6 : (n : ℕ) → 6 + n ≡ suc (suc (suc (suc (suc (suc n)))))
plus_6 n = omega arith

-- ===== src/Buffers/Numbers.antt =====
-- A number that is within the bounds of an integer is got back from its bytes.
use native.Mathlib.Nat.{
  pow-suc, mod-lt, mod-eq_of_lt, mul-add-mod_self_right, div-add-mod', mul_assoc, one-le-pow,
}
use mathlib.Core.List.{reverse-reverse}
use noderati.Prelude.{
  ℕ, zero, suc, ◌+◌, ◌*◌, ◌/◌, ◌%◌, ◌^◌, ◌≤◌, ◌<◌, ◌≡◌, sym, ap, ◌∙◌, Bool, false, ◌&&◌, ltb, arith,
}
use noderati.Prelude.Words.{le_value, put_le, be_value, put_be}
use noderati.Buffers.Integers.{
  Number, nan, infinite, finite, natural, int_max, int_min, exceeds, word_of, sign_extended,
  number_of,
}

digit_step : (v p : ℕ) → 0 < p → v / 256 % p * 256 + v % 256 ≡ v % (p * 256)
digit_step v p h =
    let q = v / 256 in
    let low = q % p * 256 + v % 256 in
    let parts : q / p * p + q % p ≡ q = div-add-mod' q p in
    let regroup : q / p * p * 256 ≡ q / p * (p * 256) = mul_assoc (q / p) p 256 in
    let small : q % p < p = mod-lt q h in
    let whole : q / p * (p * 256) + low ≡ v = omega (arith, parts, regroup) in
    sym (mod-eq_of_lt (omega (arith, small)))
    ∙ sym (mul-add-mod_self_right (q / p) (p * 256) low)
    ∙ ap (λ k. k % (p * 256)) whole

pub le_value-put_le-mod : (n v : ℕ) → le_value (put_le n v) ≡ v % 256 ^ n
unfolding le_value put_le
le_value-put_le-mod zero v = omega arith
le_value-put_le-mod (suc n) v =
    ap (λ k. k * 256 + v % 256) (le_value-put_le-mod n (v / 256))
    ∙ digit_step v (256 ^ n) (one-le-pow n 256 (omega arith))
    ∙ ap (λ k. v % k) (sym (pow-suc 256 n))

pub be_value-put_be-mod : (n v : ℕ) → be_value (put_be n v) ≡ v % 256 ^ n
unfolding be_value put_be
be_value-put_be-mod n v = ap le_value (reverse-reverse (put_le n v)) ∙ le_value-put_le-mod n v

-- The numbers of bytes that are allowed.
abbrev pub IsSize : ℕ → Type 0
IsSize n = (1 ≤ n) × (n ≤ 6)

sizes : (P : ℕ → Type 0) → P 1 → P 2 → P 3 → P 4 → P 5 → P 6 → (n : ℕ) → IsSize n → P n
sizes P a b c d e f zero h = absurd (omega (arith, h.0))
sizes P a b c d e f (suc zero) h = a
sizes P a b c d e f (suc (suc zero)) h = b
sizes P a b c d e f (suc (suc (suc zero))) h = c
sizes P a b c d e f (suc (suc (suc (suc zero)))) h = d
sizes P a b c d e f (suc (suc (suc (suc (suc zero))))) h = e
sizes P a b c d e f (suc (suc (suc (suc (suc (suc zero)))))) h = f
sizes P a b c d e f (suc (suc (suc (suc (suc (suc (suc n))))))) h = absurd (omega (arith, h.1))

-- `math.Trunc`, with 0 for what is not a number and for -0
unfoldable pub truncated_value : Number → Number
truncated_value nan = natural 0
truncated_value (infinite negative) = infinite negative
truncated_value (finite negative n fraction) = finite (negative && ltb 0 n) n false

abbrev Back : Bool → Number → ℕ → Type 0
Back signed v size =
    exceeds size signed v ≡ false
    → number_of size signed (word_of v % 256 ^ size % 2 ^ 64) ≡ truncated_value v

-- The lowest bytes of a number that is not out of the bounds stand for its whole part.
pub number_of-word_of : (signed : Bool) (v : Number) (size : ℕ) → IsSize size → Back signed v size
unfolding exceeds int_max int_min number_of word_of truncated_value sign_extended
number_of-word_of signed nan size h =
    sizes (Back signed nan) (λ k. ground arith) (λ k. ground arith) (λ k. ground arith)
      (λ k. ground arith) (λ k. ground arith) (λ k. ground arith) size h
number_of-word_of signed (infinite negative) size h = λ k. cc
number_of-word_of signed (finite negative n fraction) size h =
    sizes (Back signed (finite negative n fraction)) (λ k. ground arith) (λ k. ground arith)
      (λ k. ground arith) (λ k. ground arith) (λ k. ground arith) (λ k. ground arith) size h

abbrev Inside : Bool → ℕ → ℕ → Type 0
Inside signed u size =
    u < 256 ^ size → exceeds size signed (number_of size signed (u % 2 ^ 64)) ≡ false

pub exceeds-number_of : (signed : Bool) (u size : ℕ) → IsSize size → Inside signed u size
unfolding exceeds int_max int_min number_of sign_extended
exceeds-number_of signed u size h =
    sizes (Inside signed u) (λ k. ground arith) (λ k. ground arith) (λ k. ground arith)
      (λ k. ground arith) (λ k. ground arith) (λ k. ground arith) size h

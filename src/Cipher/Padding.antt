-- ===== src/Cipher/Padding.antt =====
-- The padding of the key wrap can be taken off, and only it is accepted.
use mathlib.Core.Path.{subst}
use noderati.Prelude.{
  ℕ, zero, suc, ◌+◌, ◌-◌, ◌%◌, ◌^◌, ◌≤◌, ◌<◌, ◌≡◌, ◌↔◌, refl, sym, ap, ◌∙◌, true, false, ◌||◌, none,
  some, [], ◌∷◌, ◌++◌, length, take, drop, replicate, All, arith, take-append-drop, take-length,
  drop-length, length-take, length-drop, length-append, All-append, All-drop, if◌then◌else◌, leb,
  ltb, ◌==◌, ==_iff, &&_iff, if-some, if-none, inl, inr, Bool-cases, if-false,
}
use noderati.Prelude.Strings.{Bytes, beq, beq→eq, beq_refl, is_empty}
use noderati.Prelude.Words.{
  IsByte, be_value, put_be, length-put_be, put_be-IsByte, be_value-put_be, put_be-be_value,
}
use noderati.Cipher.Blocks.{IsBlock}
use noderati.Cipher.WrapPad.{pad_prefix, pad_value, padded, all_zero, unpad, open_pad}

length-replicate : (n : ℕ) → length (replicate {A = ℕ} n 0) ≡ n
length-replicate zero = refl
length-replicate (suc n) = ap suc (length-replicate n)

all_zero-replicate : (n : ℕ) → all_zero (replicate n 0) ≡ true
unfolding all_zero
all_zero-replicate zero = refl
all_zero-replicate (suc n) = all_zero-replicate n

all_zero_lem : (s : Bytes) → all_zero s ≡ true → s ≡ replicate (length s) 0
unfolding all_zero
all_zero_lem [] h = refl
all_zero_lem (z ∷ s) h =
    let both = (&&_iff (z == 0) (all_zero s)).0 h in
    let first : z ≡ 0 = (==_iff z 0).0 both.0 in λ i. first i ∷ all_zero_lem s both.1 i

replicate-IsByte : (n : ℕ) → All IsByte (replicate n 0)
replicate-IsByte zero = tt
replicate-IsByte (suc n) = (omega arith, replicate-IsByte n)

pub length-padded : (p : Bytes) → length (padded p) ≡ length p + (8 - length p % 8) % 8
unfolding padded
length-padded p = omega (
  arith,
  length-append p (replicate ((8 - length p % 8) % 8) 0),
  length-replicate ((8 - length p % 8) % 8),
)

pub padded-IsByte : (p : Bytes) → All IsByte p → All IsByte (padded p)
unfolding padded
padded-IsByte p h =
    All-append IsByte p (replicate ((8 - length p % 8) % 8) 0) h
      (replicate-IsByte ((8 - length p % 8) % 8))

in_range : (mli n : ℕ) → mli ≤ n → n < mli + 8 → 8 ≤ n → (ltb n mli || leb mli (n - 8)) ≡ false
in_range mli n h k l = ground arith

out_range :
    (mli n : ℕ)
    → (ltb n mli || leb mli (n - 8)) ≡ false
    → 8 ≤ n
    → (mli ≤ n) × (n < mli + 8) × (0 < mli)
out_range mli n h l = ground arith

unpad-padded : (p : Bytes) → is_empty p ≡ false → unpad (length p) (padded p) ≡ some p
unfolding unpad padded
unpad-padded [] h = cc
unpad-padded (c ∷ s) h =
    let p : Bytes = c ∷ s in
    let zeros : Bytes = replicate ((8 - length p % 8) % 8) 0 in
    let size = length-padded p in
    if-false (ltb (length (padded p)) (length p) || leb (length p) (length (padded p) - 8)) _ _ _
      (in_range (length p) (length (padded p)) (omega (arith, size)) (omega (arith, size))
        (omega (arith, size)))
      (ap (λ t. if all_zero t then some (take (length p) (p ++ zeros)) else none)
          (drop-length p zeros)
        ∙ ap (λ b. if b then some (take (length p) (p ++ zeros)) else none)
            (all_zero-replicate ((8 - length p % 8) % 8))
        ∙ ap some (take-length p zeros))

some-injective : (a b : Bytes) → some a ≡ some b → a ≡ b
some-injective a b h = cc

filled : (s p : Bytes) → is_empty p ≡ false → 0 < length p
filled s [] h = cc
filled s (c ∷ p) h = omega arith

-- What is taken off is the padding.
pub record IsPadded (mli : ℕ) (p u : Bytes) : Type 0 where
  pub size : mli ≡ length p
  pub some_bytes : is_empty p ≡ false
  pub text : u ≡ padded p

not_empty : (p : Bytes) → 0 < length p → is_empty p ≡ false
not_empty [] h = absurd (omega (arith, h))
not_empty (c ∷ p) h = refl

unpad-IsPadded :
    (mli : ℕ) (u p : Bytes)
    → length u % 8 ≡ 0
    → 8 ≤ length u
    → unpad mli u ≡ some p
    → IsPadded mli p u
unfolding unpad padded
unpad-IsPadded mli u p whole long h =
    let (range, k) = if-none (ltb (length u) mli || leb mli (length u - 8)) _ p h in
    let (zeros, e) = if-some (all_zero (drop mli u)) (some (take mli u)) p k in
    let front : take mli u ≡ p = some-injective (take mli u) p e in
    let (fits, near, filled) = out_range mli (length u) range long in
    let size : mli ≡ length p = omega (arith, fits, length-take mli u, ap length front) in
    let count : length (drop mli u) ≡ (8 - length p % 8) % 8 =
      omega (arith, whole, fits, near, size, length-drop mli u) in
    record {
      size = size;
      some_bytes = not_empty p (omega (arith, size, filled));
      text =
          sym (take-append-drop mli u)
          ∙ (λ i. front i ++ (all_zero_lem (drop mli u) zeros ∙ ap (λ n. replicate n 0) count) i);
    }

prefix-IsBlock : (iv : Bytes) → All IsByte iv → IsBlock 4 (pad_prefix iv)
prefix-IsBlock iv h = elim (Bool-cases (length iv == 4)) [
  | inl e ↦
      subst (λ b. IsBlock 4 (if b then iv else 0xa6 ∷ 0x59 ∷ 0x59 ∷ 0xa6 ∷ [])) (sym e)
        ((==_iff (length iv) 4).0 e, h)
  | inr e ↦
      subst (λ b. IsBlock 4 (if b then iv else 0xa6 ∷ 0x59 ∷ 0x59 ∷ 0xa6 ∷ [])) (sym e)
        (refl, omega arith)
]

pub pad_value-IsBlock : (iv p : Bytes) → All IsByte iv → IsBlock 8 (pad_value iv p)
unfolding pad_value
pad_value-IsBlock iv p h =
    let number = put_be 4 (length p % 2 ^ 32) in
    let first = prefix-IsBlock iv h in
    (
      omega (
        arith,
        first.0,
        length-put_be 4 (length p % 2 ^ 32),
        length-append (pad_prefix iv) number,
      ),
      All-append IsByte (pad_prefix iv) number first.1 (put_be-IsByte 4 (length p % 2 ^ 32)),
    )

open_pad-padded :
    (iv p : Bytes)
    → All IsByte iv
    → length p < 2 ^ 32
    → is_empty p ≡ false
    → open_pad (pad_prefix iv) (pad_value iv p, padded p) ≡ some p
unfolding open_pad pad_value
open_pad-padded iv p h fits k =
    let prefix = pad_prefix iv in
    let number = put_be 4 (length p % 2 ^ 32) in
    let four = (prefix-IsBlock iv h).0 in
    let front : take 4 (prefix ++ number) ≡ prefix =
      ap (λ n. take n (prefix ++ number)) (sym four) ∙ take-length prefix number in
    let back : drop 4 (prefix ++ number) ≡ number =
      ap (λ n. drop n (prefix ++ number)) (sym four) ∙ drop-length prefix number in
    let small : length p % 2 ^ 32 ≡ length p = omega (arith, fits) in
    let value : be_value (drop 4 (prefix ++ number)) ≡ length p =
      ap be_value back ∙ be_value-put_be 4 (length p % 2 ^ 32) (omega arith) ∙ small in
    let rest = unpad (be_value (drop 4 (prefix ++ number))) (padded p) in
    ap (λ a. if beq a prefix then rest else none) front
    ∙ ap (λ b. if b then rest else none) (beq_refl prefix)
    ∙ ap (λ n. unpad n (padded p)) value
    ∙ unpad-padded p k

open_pad_lem :
    (iv a u p : Bytes)
    → IsBlock 8 a
    → length u % 8 ≡ 0
    → 8 ≤ length u
    → length p < 2 ^ 32
    → open_pad (pad_prefix iv) (a, u) ≡ some p
    → (is_empty p ≡ false) × ((a ≡ pad_value iv p) × (u ≡ padded p))
unfolding open_pad pad_value
open_pad_lem iv a u p g whole long fits h =
    let mli = be_value (drop 4 a) in
    let (same, k) = if-some (beq (take 4 a) (pad_prefix iv)) (unpad mli u) p h in
    let r = unpad-IsPadded mli u p whole long k in
    let rest : length (drop 4 a) ≡ 4 = omega (arith, g.0, length-drop 4 a) in
    let count : mli ≡ length p % 2 ^ 32 = omega (arith, r.size, fits) in
    let number : drop 4 a ≡ put_be 4 (length p % 2 ^ 32) =
      sym (put_be-be_value (drop 4 a) (All-drop IsByte 4 a g.1))
      ∙ (λ i. put_be (rest i) (count i)) in
    (
      r.some_bytes,
      (
        sym (take-append-drop 4 a) ∙ (λ i. beq→eq (take 4 a) (pad_prefix iv) same i ++ number i),
        r.text,
      ),
    )

-- What openPad takes off is what was put on, and nothing else.
pub open_pad_iff :
    (iv a u p : Bytes)
    → All IsByte iv
    → IsBlock 8 a
    → length u % 8 ≡ 0
    → 8 ≤ length u
    → length p < 2 ^ 32
    → (open_pad (pad_prefix iv) (a, u) ≡ some p)
      ↔ ((is_empty p ≡ false) × ((a ≡ pad_value iv p) × (u ≡ padded p)))
open_pad_iff iv a u p h g whole long fits = (
  open_pad_lem iv a u p g whole long fits,
  λ e. (λ i. open_pad (pad_prefix iv) (e.1.0 i, e.1.1 i)) ∙ open_pad-padded iv p h fits e.0,
)

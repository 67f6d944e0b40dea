-- ===== src/Prelude/Words.antt =====
-- Numbers as bytes in both orders, and lists of bytes.
use Prim.Native.Nat.{ℕ, zero, suc, ◌+◌, ◌*◌, ◌/◌, ◌%◌, ◌^◌, ◌<◌}
use mathlib.Core.Path.{◌≡◌, refl, sym, ap, ◌∙◌}
use mathlib.Core.List.{List, [], ◌∷◌, reverse, reverse-reverse, reverse-cons}
use native.Mathlib.Nat.{pow-suc}
use native.Mathlib.Omega.{arith}
use noderati.Prelude.Lists.{length, length-append, All, All-append}

abbrev pub IsByte : ℕ → Type 0
IsByte c = c < 256

-- The number whose bytes are these, the lowest first.
unfoldable pub le_value : List ℕ → ℕ
le_value [] = 0
le_value (c ∷ s) = le_value s * 256 + c

-- The lowest `n` bytes of the number, the lowest first.
unfoldable pub put_le : ℕ → ℕ → List ℕ
put_le zero v = []
put_le (suc n) v = v % 256 ∷ put_le n (v / 256)

pub length-put_le : (n v : ℕ) → length (put_le n v) ≡ n
unfolding put_le
length-put_le zero v = refl
length-put_le (suc n) v = ap suc (length-put_le n (v / 256))

pub put_le-IsByte : (n v : ℕ) → All IsByte (put_le n v)
unfolding put_le
put_le-IsByte zero v = tt
put_le-IsByte (suc n) v = (omega arith, put_le-IsByte n (v / 256))

pub le_value-put_le : (n v : ℕ) → v < 256 ^ n → le_value (put_le n v) ≡ v
unfolding le_value put_le
le_value-put_le zero v h = omega arith
le_value-put_le (suc n) v h =
    omega (arith, pow-suc 256 n, le_value-put_le n (v / 256) (omega (arith, pow-suc 256 n)))

pub put_le-le_value : (s : List ℕ) → All IsByte s → put_le (length s) (le_value s) ≡ s
unfolding le_value put_le
put_le-le_value [] h = refl
put_le-le_value (c ∷ s) h =
    let low : (le_value s * 256 + c) % 256 ≡ c = omega (arith, h.0) in
    let high : (le_value s * 256 + c) / 256 ≡ le_value s = omega (arith, h.0) in
    λ i. low i ∷ (ap (put_le (length s)) high ∙ put_le-le_value s h.1) i

pub le_value-lt : (s : List ℕ) → All IsByte s → le_value s < 256 ^ length s
unfolding le_value
le_value-lt [] h = omega arith
le_value-lt (c ∷ s) h = omega (arith, h.0, pow-suc 256 (length s), le_value-lt s h.1)

pub All-reverse {ℓ} : (P : ℕ → Type ℓ) (s : List ℕ) → All P s → All P (reverse s)
All-reverse P [] h = tt
All-reverse P (c ∷ s) h =
    rw reverse-cons (All-append P (reverse s) (c ∷ []) (All-reverse P s h.1) (h.0, tt))

pub length-reverse : (s : List ℕ) → length (reverse s) ≡ length s
length-reverse [] = refl
length-reverse (c ∷ s) =
    ap length (reverse-cons c s)
    ∙ omega (arith, length-append (reverse s) (c ∷ []), length-reverse s)

-- The highest byte first: `binary.BigEndian`.
unfoldable pub be_value : List ℕ → ℕ
be_value s = le_value (reverse s)

unfoldable pub put_be : ℕ → ℕ → List ℕ
put_be n v = reverse (put_le n v)

pub length-put_be : (n v : ℕ) → length (put_be n v) ≡ n
unfolding put_be
length-put_be n v = length-reverse (put_le n v) ∙ length-put_le n v

pub put_be-IsByte : (n v : ℕ) → All IsByte (put_be n v)
unfolding put_be
put_be-IsByte n v = All-reverse IsByte (put_le n v) (put_le-IsByte n v)

pub be_value-put_be : (n v : ℕ) → v < 256 ^ n → be_value (put_be n v) ≡ v
unfolding be_value put_be
be_value-put_be n v h = ap le_value (reverse-reverse (put_le n v)) ∙ le_value-put_le n v h

pub put_be-be_value : (s : List ℕ) → All IsByte s → put_be (length s) (be_value s) ≡ s
unfolding be_value put_be
put_be-be_value s h =
    ap (λ n. reverse (put_le n (le_value (reverse s)))) (sym (length-reverse s))
    ∙ ap reverse (put_le-le_value (reverse s) (All-reverse IsByte s h))
    ∙ reverse-reverse s

pub be_value-lt : (s : List ℕ) → All IsByte s → be_value s < 256 ^ length s
unfolding be_value
be_value-lt s h =
    omega (
      arith,
      le_value-lt (reverse s) (All-reverse IsByte s h),
      ap (λ n. 256 ^ n) (length-reverse s),
    )

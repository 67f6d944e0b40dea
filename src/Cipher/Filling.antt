-- ===== src/Cipher/Filling.antt =====
-- The filling of the last block, and how blocks are counted, for the modes of
-- internal/host/crypto_cipher.go.
use native.Mathlib.Nat.{suc-mul, add-mul, le_of_mul-le-mul_right}
use noderati.Prelude.{
  ℕ, zero, suc, ◌+◌, ◌-◌, ◌*◌, ◌≤◌, ◌<◌, ◌≡◌, refl, sym, ap, ◌∙◌, true, ◌||◌, [], ◌∷◌, ◌++◌, length,
  take, drop, replicate, arith, length-append, if◌then◌else◌, ltb, ◌==◌, if-false, All, take-length,
  drop-length,
}
use noderati.Prelude.Strings.{Bytes}
use noderati.Prelude.Words.{IsByte}
use noderati.Cipher.Modes.{
  Outcome, output, bad_decrypt, wrong_final_block_length, unsupported_state, ahead, last_byte,
  all_are, take_padding,
}

pub length-replicate : (n b : ℕ) → length (replicate n b) ≡ n
length-replicate zero b = refl
length-replicate (suc n) b = ap suc (length-replicate n b)

pub replicate-IsByte : (n b : ℕ) → b < 256 → All IsByte (replicate n b)
replicate-IsByte zero b h = tt
replicate-IsByte (suc n) b h = (h, replicate-IsByte n b h)

all_are-replicate : (n b : ℕ) → all_are b (replicate n b) ≡ true
unfolding all_are
all_are-replicate zero b = refl
all_are-replicate (suc n) b = ground (arith, all_are-replicate n b)

last_byte-replicate : (n b : ℕ) → last_byte (replicate (suc n) b) ≡ b
unfolding last_byte
last_byte-replicate zero b = refl
last_byte-replicate (suc n) b = last_byte-replicate n b

last_byte-append : (s : Bytes) (c : ℕ) (t : Bytes) → last_byte (s ++ c ∷ t) ≡ last_byte (c ∷ t)
unfolding last_byte
last_byte-append [] c t = refl
last_byte-append (b ∷ []) c t = refl
last_byte-append (b ∷ d ∷ s) c t = last_byte-append (d ∷ s) c t

-- Padding that has been put on is taken off.
pub take_padding-replicate :
    (size n : ℕ) (t : Bytes)
    → n < size
    → take_padding size (t ++ replicate (suc n) (suc n)) ≡ output t
unfolding take_padding
take_padding-replicate size n t h =
    let all = t ++ replicate (suc n) (suc n) in
    let pad : last_byte all ≡ suc n =
      last_byte-append t (suc n) (replicate n (suc n)) ∙ last_byte-replicate n (suc n) in
    let start : length all - last_byte all ≡ length t =
      omega (
        arith,
        pad,
        length-append t (replicate (suc n) (suc n)),
        length-replicate (suc n) (suc n),
      ) in
    let tail : drop (length all - last_byte all) all ≡ replicate (suc n) (suc n) =
      ap (λ k. drop k all) start ∙ drop-length t (replicate (suc n) (suc n)) in
    let front : take (length all - last_byte all) all ≡ t =
      ap (λ k. take k all) start ∙ take-length t (replicate (suc n) (suc n)) in
    let same : all_are (last_byte all) (drop (length all - last_byte all) all) ≡ true =
      (λ i. all_are (pad i) (tail i)) ∙ all_are-replicate (suc n) (suc n) in
    if-false (last_byte all == 0 || ltb size (last_byte all)) bad_decrypt _ _
      (ground (arith, pad, h))
      (ap (λ b. if b then output (take (length all - last_byte all) all) else bad_decrypt) same
        ∙ ap output front)

pub output-injective : (s t : Bytes) → output s ≡ output t → s ≡ t
output-injective s t h = cc

pub plain_outcome : (o : Outcome) → o ≡ ahead [] o
plain_outcome (output s) = refl
plain_outcome wrong_final_block_length = refl
plain_outcome bad_decrypt = refl
plain_outcome unsupported_state = refl

-- The blocks of a text of which a part has been handled: the rest of it is handled by so many more.
pub more_blocks :
    (size m n len : ℕ)
    → 0 < size
    → m * size + len ≡ n * size
    → (q : ℕ) × ((n ≡ m + q) × (len ≡ q * size))
more_blocks size m n len h e =
    let fewer : m ≤ n = le_of_mul-le-mul_right (omega (arith, e)) h in
    let split : n ≡ m + (n - m) = omega (arith, fewer) in
    (n - m, (split, omega (arith, e, add-mul m (n - m) size, ap (λ k. k * size) split)))

pub same_parts : (a b c d : Bytes) → a ++ b ≡ c ++ d → length a ≡ length c → (a ≡ c) × (b ≡ d)
same_parts a b c d e h = (
  sym (take-length a b) ∙ (λ i. take (h i) (e i)) ∙ take-length c d,
  sym (drop-length a b) ∙ (λ i. drop (h i) (e i)) ∙ drop-length c d,
)

pub le-mul : (n size : ℕ) → 0 < n → size ≤ n * size
le-mul zero size h = absurd (omega (arith, h))
le-mul (suc n) size h = omega (arith, suc-mul n size)

-- A decipher that holds back keeps a block, if there is any.
pub some_more :
    (m count left size len : ℕ)
    → suc count ≡ m + left
    → len ≡ left * size
    → (len ≡ 0 → m ≡ 0)
    → 0 < left
some_more m count zero size len e h k =
    let nothing : len ≡ 0 = omega (arith, h) in absurd (omega (arith, e, k nothing))
some_more m count (suc left) size len e h k = omega arith

-- ===== src/Cipher/Runs.antt =====
-- Blocks in a row: in parts, and decrypted again.
use native.Mathlib.Nat.{suc-mul}
use noderati.Prelude.{
  ℕ, zero, suc, ◌+◌, ◌*◌, ◌≤◌, ◌≡◌, refl, sym, ap, ◌∙◌, Bool, true, false, [], ◌∷◌, ◌++◌, length,
  take, drop, arith, All, All-take, All-drop, length-append, length-take, length-drop,
  take-append-drop, append_assoc, take-length, drop-length,
}
use noderati.Prelude.Strings.{Bytes}
use noderati.Prelude.Words.{IsByte}
use noderati.Prelude.Bits.{bit_xor-cancel_right, bit_xor-lt}
use noderati.Cipher.Blocks.{IsBlock, BlockCipher}
use noderati.Cipher.Modes.{Impl, cbc, ecb, xor_bytes, block_step, blocks}

pub xor_bytes-cancel : (s t : Bytes) → length s ≡ length t → xor_bytes (xor_bytes s t) t ≡ s
unfolding xor_bytes
xor_bytes-cancel [] t h = refl
xor_bytes-cancel (c ∷ s) [] h = absurd (omega (arith, h))
xor_bytes-cancel (c ∷ s) (d ∷ t) h =
    λ i. bit_xor-cancel_right c d i ∷ xor_bytes-cancel s t (omega (arith, h)) i

pub xor_bytes-IsBlock :
    (n : ℕ) (s t : Bytes) → IsBlock n s → IsBlock n t → IsBlock n (xor_bytes s t)
unfolding xor_bytes
xor_bytes-IsBlock n [] t h k = h
xor_bytes-IsBlock n (c ∷ s) [] h k = absurd (omega (arith, h.0, k.0))
xor_bytes-IsBlock n (c ∷ s) (d ∷ t) h k =
    let rest = xor_bytes-IsBlock (length s) s t (refl, h.1.1) (omega (arith, h.0, k.0), k.1.1) in
    (omega (arith, rest.0, h.0), (bit_xor-lt 8 c d h.1.0 k.1.0, rest.1))

-- The first `n` bytes of a text that has them.
head-IsBlock : (n : ℕ) (s : Bytes) → n ≤ length s → All IsByte s → IsBlock n (take n s)
head-IsBlock n s h k = (omega (arith, length-take n s, h), All-take IsByte n s k)

take_inside : (n : ℕ) (x y : Bytes) → n ≤ length x → take n (x ++ y) ≡ take n x
take_inside zero x y h = refl
take_inside (suc n) [] y h = absurd (omega (arith, h))
take_inside (suc n) (c ∷ x) y h = ap (λ r. c ∷ r) (take_inside n x y (omega (arith, h)))

drop_inside : (n : ℕ) (x y : Bytes) → n ≤ length x → drop n (x ++ y) ≡ drop n x ++ y
drop_inside zero x y h = refl
drop_inside (suc n) [] y h = absurd (omega (arith, h))
drop_inside (suc n) (c ∷ x) y h = drop_inside n x y (omega (arith, h))

module _ {size : ℕ} (block : BlockCipher size) where
  step_inverse :
      (impl : Impl) (prev src : Bytes)
      → IsBlock size prev
      → IsBlock size src
      → block_step block impl true prev (block_step block impl false prev src).0
        ≡ (src, (block_step block impl false prev src).1)
  unfolding block_step
  step_inverse ecb prev src h k = λ i. (block.decrypt-encrypt src k i, prev)
  step_inverse cbc prev src h k =
      let whole =
        block.decrypt-encrypt (xor_bytes src prev) (xor_bytes-IsBlock size src prev k h) in
      λ i. (
        (ap (λ b. xor_bytes b prev) whole ∙ xor_bytes-cancel src prev (k.0 ∙ sym h.0)) i,
        block.encrypt (xor_bytes src prev),
      )

  step-IsBlock :
      (impl : Impl) (prev src : Bytes)
      → IsBlock size prev
      → IsBlock size src
      → IsBlock size (block_step block impl false prev src).0
        × IsBlock size (block_step block impl false prev src).1
  unfolding block_step
  step-IsBlock ecb prev src h k = (block.encrypt-IsBlock src k, h)
  step-IsBlock cbc prev src h k =
      let out = block.encrypt-IsBlock (xor_bytes src prev) (xor_bytes-IsBlock size src prev k h) in
      (out, out)

module _ {size : ℕ} (block : BlockCipher size) (impl : Impl) where
  module _ (decrypt : Bool) where
    -- What comes behind whole blocks is handled from the state that they leave.
    pub blocks-append :
        (m n t : ℕ) (prev x y : Bytes)
        → t ≡ m + n
        → length x ≡ m * size
        → blocks block impl decrypt t prev (x ++ y) ≡ (
          (blocks block impl decrypt m prev x).0
              ++ (blocks block impl decrypt n (blocks block impl decrypt m prev x).1 y).0,
          (blocks block impl decrypt n (blocks block impl decrypt m prev x).1 y).1,
        )
    unfolding blocks
    blocks-append zero n t prev [] y e h =
        ap (λ k. blocks block impl decrypt k prev y) (omega (arith, e))
    blocks-append zero n t prev (c ∷ x) y e h = absurd (omega (arith, h))
    blocks-append (suc m) n zero prev x y e h = absurd (omega (arith, e))
    blocks-append (suc m) n (suc t) prev x y e h =
        let wide : size ≤ length x = omega (arith, h, suc-mul m size) in
        let rest_length : length (drop size x) ≡ m * size =
          omega (arith, h, suc-mul m size, length-drop size x) in
        let first = block_step block impl decrypt prev (take size x) in
        let ih = blocks-append m n t first.1 (drop size x) y (omega (arith, e)) rest_length in
        (λ i.
          let one = block_step block impl decrypt prev (take_inside size x y wide i) in
          let rest = blocks block impl decrypt t one.1 (drop_inside size x y wide i) in
          (one.0 ++ rest.0, rest.1))
        ∙ (λ i. (first.0 ++ (ih i).0, (ih i).1))
        ∙ (λ i. (
          sym
              (append_assoc first.0 (blocks block impl decrypt m first.1 (drop size x)).0
                (blocks block impl decrypt n (blocks block impl decrypt m first.1 (drop size x)).1
                  y).0)
              i,
          (blocks block impl decrypt n (blocks block impl decrypt m first.1 (drop size x)).1 y).1,
        ))

  -- Blocks that are encrypted: as many bytes, and decrypting them from the same state gives them
  -- back and leaves the same state.
  pub record Reversed (n : ℕ) (prev s : Bytes) : Type 0 where
    pub same_length : length (blocks block impl false n prev s).0 ≡ n * size
    pub state-IsBlock : IsBlock size (blocks block impl false n prev s).1
    pub again :
        blocks block impl true n prev (blocks block impl false n prev s).0
        ≡ (s, (blocks block impl false n prev s).1)

  pub blocks-Reversed :
      (n : ℕ) (prev s : Bytes)
      → IsBlock size prev
      → length s ≡ n * size
      → All IsByte s
      → Reversed n prev s
  unfolding blocks
  blocks-Reversed zero prev [] h k bytes = record {
    same_length = omega arith;
    state-IsBlock = h;
    again = refl;
  }
  blocks-Reversed zero prev (c ∷ s) h k bytes = absurd (omega (arith, k))
  blocks-Reversed (suc n) prev s h k bytes =
      let wide : size ≤ length s = omega (arith, k, suc-mul n size) in
      let rest_length : length (drop size s) ≡ n * size =
        omega (arith, k, suc-mul n size, length-drop size s) in
      let head = head-IsBlock size s wide bytes in
      let first = block_step block impl false prev (take size s) in
      let (out-IsBlock, state) = step-IsBlock block impl prev (take size s) h head in
      let r =
        blocks-Reversed n first.1 (drop size s) state rest_length (All-drop IsByte size s bytes) in
      let rest = blocks block impl false n first.1 (drop size s) in
      let back = step_inverse block impl prev (take size s) h head in
      record {
        same_length =
            omega
              (arith, r.same_length, out-IsBlock.0, length-append first.0 rest.0, suc-mul n size);
        state-IsBlock = r.state-IsBlock;
        again =
            (λ i.
              let one = block_step block impl true prev (
                (ap (λ m. take m (first.0 ++ rest.0)) (sym out-IsBlock.0)
                    ∙ take-length first.0 rest.0)
                  i) in
              let others = blocks block impl true n one.1 (
                (ap (λ m. drop m (first.0 ++ rest.0)) (sym out-IsBlock.0)
                    ∙ drop-length first.0 rest.0)
                  i) in
              (one.0 ++ others.0, others.1))
            ∙ (λ i. (
              (back i).0 ++ (blocks block impl true n (back i).1 rest.0).0,
              (blocks block impl true n (back i).1 rest.0).1,
            ))
            ∙ (λ i. (take size s ++ (r.again i).0, (r.again i).1))
            ∙ (λ i. (take-append-drop size s i, rest.1));
      }

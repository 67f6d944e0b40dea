-- ===== src/Cipher/Unwrap.antt =====
-- Unwrapping undoes wrapping, and wrapping undoes unwrapping.
use Prim.Native.Nat.{bit_xor}
use noderati.Prelude.{
  ℕ, ◌+◌, ◌%◌, ◌^◌, ◌<◌, ◌≡◌, refl, sym, ap, ◌∙◌, List, [], ◌∷◌, ◌++◌, take, drop, All, arith,
  take-append-drop, take-length, drop-length, length-take, length-drop, length-append, All-append,
  All-take, All-drop,
}
use noderati.Prelude.Bits.{bit_xor-cancel_right, bit_xor-lt}
use noderati.Prelude.Strings.{Bytes}
use noderati.Prelude.Words.{
  IsByte, be_value, put_be, length-put_be, put_be-IsByte, be_value-put_be, put_be-be_value,
  be_value-lt,
}
use noderati.Cipher.Blocks.{BlockCipher, IsBlock}
use noderati.Cipher.Wrap.{Registers, xor_count, wrap_step, wrap_row, unwrap_step, unwrap_row}

xor_count-IsBlock : (b : Bytes) (t : ℕ) → IsBlock 8 (xor_count b t)
unfolding xor_count
xor_count-IsBlock b t = (length-put_be 8 _, put_be-IsByte 8 _)

be_value-word : (b : Bytes) → IsBlock 8 b → be_value b < 2 ^ 64
be_value-word b h = omega (arith, be_value-lt b h.1, ap (λ n. 256 ^ n) h.0)

xor_count-cancel : (b : Bytes) (t : ℕ) → IsBlock 8 b → xor_count (xor_count b t) t ≡ b
unfolding xor_count
xor_count-cancel b t h =
    let u = t % 2 ^ 64 in
    let fits : bit_xor (be_value b) u < 2 ^ 64 =
      bit_xor-lt 64 (be_value b) u (be_value-word b h) (omega arith) in
    ap (λ v. put_be 8 (bit_xor v u)) (be_value-put_be 8 (bit_xor (be_value b) u) fits)
    ∙ ap (put_be 8) (bit_xor-cancel_right (be_value b) u)
    ∙ ap (λ n. put_be n (be_value b)) (sym h.0)
    ∙ put_be-be_value b h.1

-- The two halves of sixteen bytes.
pub halves-IsBlock : (b : Bytes) → IsBlock 16 b → IsBlock 8 (take 8 b) × IsBlock 8 (drop 8 b)
halves-IsBlock b h = (
  (omega (arith, h.0, length-take 8 b), All-take IsByte 8 b h.1),
  (omega (arith, h.0, length-drop 8 b), All-drop IsByte 8 b h.1),
)

pub joined-IsBlock : (a x : Bytes) → IsBlock 8 a → IsBlock 8 x → IsBlock 16 (a ++ x)
joined-IsBlock a x h k = (omega (arith, h.0, k.0, length-append a x), All-append IsByte a x h.1 k.1)

pub take-joined : (a x : Bytes) → IsBlock 8 a → take 8 (a ++ x) ≡ a
take-joined a x h = ap (λ n. take n (a ++ x)) (sym h.0) ∙ take-length a x

pub drop-joined : (a x : Bytes) → IsBlock 8 a → drop 8 (a ++ x) ≡ x
drop-joined a x h = ap (λ n. drop n (a ++ x)) (sym h.0) ∙ drop-length a x

abbrev IsPair : Bytes × Bytes → Type 0
IsPair p = IsBlock 8 p.0 × IsBlock 8 p.1

abbrev pub IsRegisters : Registers → Type 0
IsRegisters r = IsBlock 8 r.0 × All (IsBlock 8) r.1

module _ (block : BlockCipher 16) where
  wrap_step-IsPair :
      (t : ℕ) (a x : Bytes) → IsBlock 8 a → IsBlock 8 x → IsPair (wrap_step block t a x)
  unfolding wrap_step
  wrap_step-IsPair t a x h k =
      let b = block.encrypt (a ++ x) in
      let whole = block.encrypt-IsBlock (a ++ x) (joined-IsBlock a x h k) in
      (xor_count-IsBlock (take 8 b) t, (halves-IsBlock b whole).1)

  unwrap_step-IsPair : (t : ℕ) (a x : Bytes) → IsBlock 8 x → IsPair (unwrap_step block t a x)
  unfolding unwrap_step
  unwrap_step-IsPair t a x k =
      let b = xor_count a t ++ x in
      halves-IsBlock (block.decrypt b)
        (block.decrypt-IsBlock b (joined-IsBlock (xor_count a t) x (xor_count-IsBlock a t) k))

  unwrap_step-wrap_step :
      (t : ℕ) (a x : Bytes)
      → IsBlock 8 a
      → IsBlock 8 x
      → let w = wrap_step block t a x in unwrap_step block t w.0 w.1 ≡ (a, x)
  unfolding wrap_step unwrap_step
  unwrap_step-wrap_step t a x h k =
      let b = block.encrypt (a ++ x) in
      let input = joined-IsBlock a x h k in
      let back : block.decrypt (xor_count (xor_count (take 8 b) t) t ++ drop 8 b) ≡ a ++ x =
        ap (λ u. block.decrypt (u ++ drop 8 b))
          (xor_count-cancel (take 8 b) t
            (halves-IsBlock b (block.encrypt-IsBlock (a ++ x) input)).0)
        ∙ ap block.decrypt (take-append-drop 8 b)
        ∙ block.decrypt-encrypt (a ++ x) input in
      λ i. ((ap (take 8) back ∙ take-joined a x h) i, (ap (drop 8) back ∙ drop-joined a x h) i)

  wrap_step-unwrap_step :
      (t : ℕ) (a x : Bytes)
      → IsBlock 8 a
      → IsBlock 8 x
      → let u = unwrap_step block t a x in wrap_step block t u.0 u.1 ≡ (a, x)
  unfolding wrap_step unwrap_step
  wrap_step-unwrap_step t a x h k =
      let b = xor_count a t ++ x in
      let d = block.decrypt b in
      let left = xor_count-IsBlock a t in
      let back : block.encrypt (take 8 d ++ drop 8 d) ≡ b =
        ap block.encrypt (take-append-drop 8 d)
        ∙ block.encrypt-decrypt b (joined-IsBlock (xor_count a t) x left k) in
      λ i. (
        (ap (λ e. xor_count (take 8 e) t) back
              ∙ ap (λ e. xor_count e t) (take-joined (xor_count a t) x left)
              ∙ xor_count-cancel a t h)
            i,
        (ap (drop 8) back ∙ drop-joined (xor_count a t) x left) i,
      )

  pub wrap_row-IsRegisters :
      (t : ℕ) (a : Bytes) (xs : List Bytes)
      → IsRegisters (a, xs)
      → IsRegisters (wrap_row block t a xs)
  unfolding wrap_row
  wrap_row-IsRegisters t a [] h = h
  wrap_row-IsRegisters t a (x ∷ xs) h =
      let first = wrap_step-IsPair t a x h.0 h.1.0 in
      let rest = wrap_row-IsRegisters (t + 1) (wrap_step block t a x).0 xs (first.0, h.1.1) in
      (rest.0, (first.1, rest.1))

  pub unwrap_row-IsRegisters :
      (t : ℕ) (a : Bytes) (xs : List Bytes)
      → IsRegisters (a, xs)
      → IsRegisters (unwrap_row block t a xs)
  unfolding unwrap_row
  unwrap_row-IsRegisters t a [] h = h
  unwrap_row-IsRegisters t a (x ∷ xs) h =
      let rest = unwrap_row-IsRegisters (t + 1) a xs (h.0, h.1.1) in
      let first = unwrap_step-IsPair t (unwrap_row block (t + 1) a xs).0 x h.1.0 in
      (first.0, (first.1, rest.1))

  pub unwrap_row-wrap_row :
      (t : ℕ) (a : Bytes) (xs : List Bytes)
      → IsRegisters (a, xs)
      → let w = wrap_row block t a xs in unwrap_row block t w.0 w.1 ≡ (a, xs)
  unfolding wrap_row unwrap_row
  unwrap_row-wrap_row t a [] h = refl
  unwrap_row-wrap_row t a (x ∷ xs) h =
      let w = wrap_step block t a x in
      let rest = unwrap_row-wrap_row (t + 1) w.0 xs ((wrap_step-IsPair t a x h.0 h.1.0).0, h.1.1) in
      let first : unwrap_step block t
            (unwrap_row block (t + 1) (wrap_row block (t + 1) w.0 xs).0
              (wrap_row block (t + 1) w.0 xs).1).0
            w.1
          ≡ (a, x) =
        ap (λ r. unwrap_step block t r.0 w.1) rest ∙ unwrap_step-wrap_step t a x h.0 h.1.0 in
      λ i. ((first i).0, (first i).1 ∷ (rest i).1)

  pub wrap_row-unwrap_row :
      (t : ℕ) (a : Bytes) (xs : List Bytes)
      → IsRegisters (a, xs)
      → let u = unwrap_row block t a xs in wrap_row block t u.0 u.1 ≡ (a, xs)
  unfolding wrap_row unwrap_row
  wrap_row-unwrap_row t a [] h = refl
  wrap_row-unwrap_row t a (x ∷ xs) h =
      let r = unwrap_row block (t + 1) a xs in
      let first =
        wrap_step-unwrap_step t r.0 x (unwrap_row-IsRegisters (t + 1) a xs (h.0, h.1.1)).0 h.1.0 in
      let rest =
        ap (λ s. wrap_row block (t + 1) s r.1) (λ i. (first i).0)
        ∙ wrap_row-unwrap_row (t + 1) a xs (h.0, h.1.1) in
      λ i. ((rest i).0, (first i).1 ∷ (rest i).1)

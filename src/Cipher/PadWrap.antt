-- ===== src/Cipher/PadWrap.antt =====
-- aesWrapPad and aesUnwrapPad of internal/host/crypto_cipher.go are inverse.
use mathlib.Core.Path.{subst}
use noderati.Prelude.{
  ℕ, ◌+◌, ◌-◌, ◌%◌, ◌^◌, ◌≤◌, ◌<◌, ◌≡◌, ◌↔◌, ◌≢◌, refl, sym, ap, ◌∙◌, false, Option, none, some, [],
  ◌∷◌, ◌++◌, length, take, drop, All, arith, take-append-drop, if◌then◌else◌, ◌==◌, ==_iff, if-some,
  if-none, inl, inr, Bool-cases, if-false,
}
use noderati.Prelude.Strings.{Bytes, is_empty}
use noderati.Prelude.Words.{IsByte}
use noderati.Cipher.Blocks.{BlockCipher, IsBlock}
use noderati.Cipher.Wrap.{has_blocks, aes_wrap_core, aes_unwrap_core}
use noderati.Cipher.WrapPad.{
  pad_prefix, pad_value, padded, open_pad, halves, seal, aes_wrap_pad, unseal, aes_unwrap_pad,
}
use noderati.Cipher.Padding.{length-padded, padded-IsByte, pad_value-IsBlock, open_pad_iff}
use noderati.Cipher.Unwrap.{halves-IsBlock, joined-IsBlock, take-joined, drop-joined}
use noderati.Cipher.KeyWrap.{
  has_blocks_iff, when-true, some-injective, aes_unwrap_core-aes_wrap_core, length-aes_wrap_core,
  aes_unwrap_core-IsUnwrapped,
}

differs : (m n : ℕ) → m ≢ n → (m == n) ≡ false
differs m n h = ground arith

not_equal : (m n : ℕ) → (m == n) ≡ false → m ≢ n
not_equal m n h = ground arith

-- What a sealed text may hold: whole blocks of eight bytes, at least one.
abbrev IsWhole : Bytes → Type 0
IsWhole p = (length p % 8 ≡ 0) × (8 ≤ length p)

module _ (block : BlockCipher 16) where
  abbrev Sealed : Bytes → Bytes → Bytes → Type 0
  Sealed a p c = (unseal block c ≡ (a, p)) × (length c ≡ 8 + length p)

  seal_one : (a p : Bytes) → length p ≡ 8 → seal block a p ≡ block.encrypt (a ++ p)
  unfolding seal
  seal_one a p h =
      ap (λ b. if b then block.encrypt (a ++ p) else aes_wrap_core block a p)
        ((==_iff (length p) 8).1 h)

  seal_more : (a p : Bytes) → length p ≢ 8 → seal block a p ≡ aes_wrap_core block a p
  unfolding seal
  seal_more a p h = if-false (length p == 8) _ _ _ (differs (length p) 8 h) refl

  unseal_one : (c : Bytes) → length c ≡ 16 → unseal block c ≡ halves (block.decrypt c)
  unfolding unseal
  unseal_one c h =
      ap (λ b. if b then halves (block.decrypt c) else aes_unwrap_core block c)
        ((==_iff (length c) 16).1 h)

  unseal_more : (c : Bytes) → length c ≢ 16 → unseal block c ≡ aes_unwrap_core block c
  unfolding unseal
  unseal_more c h = if-false (length c == 16) _ _ _ (differs (length c) 16 h) refl

  seal-Sealed : (a p : Bytes) → IsBlock 8 a → All IsByte p → IsWhole p → Sealed a p (seal block a p)
  seal-Sealed a p g h k = elim (Bool-cases (length p == 8)) [
    | inl e ↦
        let eight = (==_iff (length p) 8).0 e in
        let input = joined-IsBlock a p g (eight, h) in
        subst (Sealed a p) (sym (seal_one a p eight)) (
          unseal_one (block.encrypt (a ++ p)) (block.encrypt-IsBlock (a ++ p) input).0
              ∙ ap halves (block.decrypt-encrypt (a ++ p) input)
              ∙ (λ i. (take-joined a p g i, drop-joined a p g i)),
          omega (arith, eight, (block.encrypt-IsBlock (a ++ p) input).0),
        )
    | inr e ↦
        let more = not_equal (length p) 8 e in
        let size = length-aes_wrap_core block a p g h in
        subst (Sealed a p) (sym (seal_more a p more)) (
          unseal_more (aes_wrap_core block a p)
                (λ (q : length (aes_wrap_core block a p) ≡ 16). more (omega (arith, size, q)))
              ∙ aes_unwrap_core-aes_wrap_core block a p g h,
          size,
        )
  ]

  -- What unsealing gives, and that sealing makes the text again.
  pub record Unsealed (c : Bytes) (u : Bytes × Bytes) : Type 0 where
    pub first : IsBlock 8 u.0
    pub size : length u.1 ≡ length c - 8
    pub again : seal block u.0 u.1 ≡ c

  unseal-Unsealed :
      (c : Bytes) → length c % 8 ≡ 0 → 16 ≤ length c → All IsByte c → Unsealed c (unseal block c)
  unseal-Unsealed c whole long h = elim (Bool-cases (length c == 16)) [
    | inl e ↦
        let sixteen = (==_iff (length c) 16).0 e in
        let b = block.decrypt c in
        let parts = halves-IsBlock b (block.decrypt-IsBlock c (sixteen, h)) in
        subst (Unsealed c) (sym (unseal_one c sixteen)) (record {
          first = parts.0;
          size = omega (arith, sixteen, parts.1.0);
          again =
              seal_one (take 8 b) (drop 8 b) parts.1.0
              ∙ ap block.encrypt (take-append-drop 8 b)
              ∙ block.encrypt-decrypt c (sixteen, h);
        })
    | inr e ↦
        let more = not_equal (length c) 16 e in
        let u = aes_unwrap_core-IsUnwrapped block c (omega (arith, long)) h in
        let size = u.size in
        subst (Unsealed c) (sym (unseal_more c more)) (record {
          first = u.first;
          size = size;
          again =
              seal_more (aes_unwrap_core block c).0 (aes_unwrap_core block c).1
                (λ (q : length (aes_unwrap_core block c).1 ≡ 8).
                  more (omega (arith, long, size, q)))
              ∙ u.again;
        })
  ]

  abbrev wrapped : Bytes → Bytes → Option Bytes
  wrapped iv p = some (seal block (pad_value iv p) (padded p))

  aes_wrap_pad_lem :
      (iv p : Bytes) → aes_wrap_pad block iv p ≡ (if is_empty p then none else wrapped iv p)
  unfolding aes_wrap_pad
  aes_wrap_pad_lem iv p = refl

  aes_unwrap_pad_lem :
      (iv c : Bytes)
      → aes_unwrap_pad block iv c
        ≡ (if has_blocks 16 c then open_pad (pad_prefix iv) (unseal block c) else none)
  unfolding aes_unwrap_pad
  aes_unwrap_pad_lem iv c = refl

  padded-IsWhole : (p : Bytes) → is_empty p ≡ false → IsWhole (padded p)
  padded-IsWhole [] h = cc
  padded-IsWhole (x ∷ s) h =
      let size = length-padded (x ∷ s) in (omega (arith, size), omega (arith, size))

  unwraps :
      (iv p c : Bytes)
      → All IsByte iv
      → All IsByte p
      → length p < 2 ^ 32
      → aes_wrap_pad block iv p ≡ some c
      → aes_unwrap_pad block iv c ≡ some p
  unwraps iv p c iv_bytes p_bytes fits h =
      let a = pad_value iv p in
      let (filled, e) = if-none (is_empty p) (wrapped iv p) c (sym (aes_wrap_pad_lem iv p) ∙ h) in
      let made = some-injective (seal block a (padded p)) c e in
      let whole = padded-IsWhole p filled in
      let first = pad_value-IsBlock iv p iv_bytes in
      let (same, size) = seal-Sealed a (padded p) first (padded-IsByte p p_bytes) whole in
      aes_unwrap_pad_lem iv c
      ∙ when-true (has_blocks 16 c) (open_pad (pad_prefix iv) (unseal block c)) (
          (has_blocks_iff 16 c).1 (
            omega (arith, whole.1, size, ap length made),
            omega (arith, whole.0, size, ap length made),
          ))
      ∙ ap (λ d. open_pad (pad_prefix iv) (unseal block d)) (sym made)
      ∙ ap (open_pad (pad_prefix iv)) same
      ∙ (open_pad_iff iv a (padded p) p iv_bytes first whole.0 whole.1 fits).1
          (filled, (refl, refl))

  wraps :
      (iv p c : Bytes)
      → All IsByte iv
      → All IsByte c
      → length p < 2 ^ 32
      → aes_unwrap_pad block iv c ≡ some p
      → aes_wrap_pad block iv p ≡ some c
  wraps iv p c iv_bytes c_bytes fits h =
      let o = open_pad (pad_prefix iv) (unseal block c) in
      let (guard, e) = if-some (has_blocks 16 c) o p (sym (aes_unwrap_pad_lem iv c) ∙ h) in
      let (long, whole) = (has_blocks_iff 16 c).0 guard in
      let u = unseal-Unsealed c whole long c_bytes in
      let v = unseal block c in
      let size = u.size in
      let (filled, (same_value, same_text)) =
        (open_pad_iff iv v.0 v.1 p iv_bytes u.first (omega (arith, long, whole, size))
            (omega (arith, long, size)) fits).0
          e in
      aes_wrap_pad_lem iv p
      ∙ if-false (is_empty p) none (wrapped iv p) (wrapped iv p) filled refl
      ∙ (λ i. some (seal block (sym same_value i) (sym same_text i)))
      ∙ ap some u.again

  -- Under one key and one initial value, aesWrapPad makes `c` from `p` exactly if aesUnwrapPad makes
  -- `p` from `c`, where `p` has fewer than 2 ^ 32 bytes.
  pub aes_wrap_pad-aes_unwrap_pad :
      (iv p c : Bytes)
      → All IsByte iv
      → All IsByte p
      → All IsByte c
      → length p < 2 ^ 32
      → (aes_wrap_pad block iv p ≡ some c) ↔ (aes_unwrap_pad block iv c ≡ some p)
  aes_wrap_pad-aes_unwrap_pad iv p c iv_bytes p_bytes c_bytes fits =
      (unwraps iv p c iv_bytes p_bytes fits, wraps iv p c iv_bytes c_bytes fits)

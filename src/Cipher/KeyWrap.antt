-- ===== src/Cipher/KeyWrap.antt =====
-- aesWrap and aesUnwrap of internal/host/crypto_cipher.go are inverse.
use mathlib.Core.Path.{subst}
use noderati.Prelude.{
  inl, inr, Bool-cases, ℕ, ◌+◌, ◌-◌, ◌*◌, ◌/◌, ◌%◌, ◌≤◌, ◌<◌, ◌≡◌, ◌↔◌, refl, sym, ap, ◌∙◌, Bool,
  true, false, Option, none, some, List, ◌++◌, length, take, drop, concat, All, arith,
  take-append-drop, length-take, length-drop, length-append, All-take, All-drop, if◌then◌else◌,
  ◌==◌, ==_iff, if-some,
}
use noderati.Prelude.Strings.{Bytes, beq, beq→eq, beq_refl}
use noderati.Prelude.Words.{IsByte}
use noderati.Cipher.Blocks.{
  BlockCipher, IsBlock, blocks_of, concat-blocks_of, blocks_of-IsBlock, length-concat,
}
use noderati.Cipher.Wrap.{
  wrap_rounds, aes_wrap_core, unwrap_rounds, aes_unwrap_core, default_wrap_iv, wrap_iv, has_blocks,
  aes_wrap, checked, aes_unwrap,
}
use noderati.Cipher.Rounds.{
  wrap_rounds-IsRegisters, unwrap_rounds-IsRegisters, unwrap_rounds-wrap_rounds,
  wrap_rounds-unwrap_rounds, length-wrap_rounds, length-unwrap_rounds, output, aes_wrap_core-blocks,
  aes_unwrap_core-blocks,
}

pub some-injective : (a b : Bytes) → some a ≡ some b → a ≡ b
some-injective a b h = cc

-- A text as its blocks and the rest.
pub record IsSplit (s : Bytes) (xs : List Bytes) (t : Bytes) : Type 0 where
  pub blocks : All (IsBlock 8) xs
  pub short : length t < 8
  pub joined : concat xs ++ t ≡ s

text-IsSplit :
    (s : Bytes)
    → All IsByte s
    → IsSplit s (blocks_of 8 (length s / 8) s) (drop (length s / 8 * 8) s)
text-IsSplit s h = record {
  blocks = blocks_of-IsBlock 8 (length s / 8) s (omega arith) h;
  short = omega (arith, length-drop (length s / 8 * 8) s);
  joined = concat-blocks_of 8 (length s / 8) s;
}

module _ (block : BlockCipher 16) where
  pub aes_unwrap_core-aes_wrap_core :
      (a p : Bytes)
      → IsBlock 8 a
      → All IsByte p
      → aes_unwrap_core block (aes_wrap_core block a p) ≡ (a, p)
  aes_unwrap_core-aes_wrap_core a p g h =
      let xs = blocks_of 8 (length p / 8) p in
      let t = drop (length p / 8 * 8) p in
      let s = text-IsSplit p h in
      let r = wrap_rounds block 6 (length xs) (a, xs) in
      let kept = wrap_rounds-IsRegisters block 6 (length xs) (a, xs) (g, s.blocks) in
      ap (λ q. aes_unwrap_core block (aes_wrap_core block a q)) (sym s.joined)
      ∙ ap (aes_unwrap_core block) (aes_wrap_core-blocks block a xs t s.blocks s.short)
      ∙ aes_unwrap_core-blocks block r.0 r.1 t kept.0 kept.1 s.short
      ∙ ap (λ n. output block (unwrap_rounds block 6 n r) t)
          (length-wrap_rounds block 6 (length xs) (a, xs))
      ∙ ap (λ q. output block q t)
          (unwrap_rounds-wrap_rounds block 6 (length xs) (a, xs) (g, s.blocks))
      ∙ (λ i. (a, s.joined i))

  pub length-aes_wrap_core :
      (a p : Bytes) → IsBlock 8 a → All IsByte p → length (aes_wrap_core block a p) ≡ 8 + length p
  length-aes_wrap_core a p g h =
      let xs = blocks_of 8 (length p / 8) p in
      let t = drop (length p / 8 * 8) p in
      let s = text-IsSplit p h in
      let r = wrap_rounds block 6 (length xs) (a, xs) in
      let kept = wrap_rounds-IsRegisters block 6 (length xs) (a, xs) (g, s.blocks) in
      let out : length (aes_wrap_core block a p) ≡ length (r.0 ++ (concat r.1 ++ t)) =
        ap (λ q. length (aes_wrap_core block a q)) (sym s.joined)
        ∙ ap length (aes_wrap_core-blocks block a xs t s.blocks s.short) in
      omega (
        arith,
        out,
        kept.0.0,
        ap length s.joined,
        length-append r.0 (concat r.1 ++ t),
        length-append (concat r.1) t,
        length-append (concat xs) t,
        length-concat 8 xs s.blocks,
        length-concat 8 r.1 kept.1,
        length-wrap_rounds block 6 (length xs) (a, xs),
      )

  -- What unwrapping takes apart, wrapping makes again.
  pub record IsUnwrapped (c : Bytes) (u : Bytes × Bytes) : Type 0 where
    pub first : IsBlock 8 u.0
    pub size : length u.1 ≡ length c - 8
    pub again : aes_wrap_core block u.0 u.1 ≡ c

  blocks-IsUnwrapped :
      (a : Bytes) (xs : List Bytes) (t : Bytes)
      → IsBlock 8 a
      → All (IsBlock 8) xs
      → length t < 8
      → IsUnwrapped
          (a ++ (concat xs ++ t))
          (output block (unwrap_rounds block 6 (length xs) (a, xs)) t)
  blocks-IsUnwrapped a xs t g h k =
      let r = unwrap_rounds block 6 (length xs) (a, xs) in
      let kept = unwrap_rounds-IsRegisters block 6 (length xs) (a, xs) (g, h) in
      let count = length-unwrap_rounds block 6 (length xs) (a, xs) in
      record {
        first = kept.0;
        size = omega (
          arith,
          g.0,
          count,
          length-append a (concat xs ++ t),
          length-append (concat xs) t,
          length-append (concat r.1) t,
          length-concat 8 xs h,
          length-concat 8 r.1 kept.1,
        );
        again =
            aes_wrap_core-blocks block r.0 r.1 t kept.1 k
            ∙ ap (λ n. let w = wrap_rounds block 6 n r in w.0 ++ (concat w.1 ++ t)) count
            ∙ ap (λ w. w.0 ++ (concat w.1 ++ t))
                (wrap_rounds-unwrap_rounds block 6 (length xs) (a, xs) (g, h));
      }

  pub aes_unwrap_core-IsUnwrapped :
      (c : Bytes) → 8 ≤ length c → All IsByte c → IsUnwrapped c (aes_unwrap_core block c)
  aes_unwrap_core-IsUnwrapped c long h =
      let a = take 8 c in
      let p = drop 8 c in
      let xs = blocks_of 8 (length p / 8) p in
      let t = drop (length p / 8 * 8) p in
      let s = text-IsSplit p (All-drop IsByte 8 c h) in
      let g : IsBlock 8 a = (omega (arith, long, length-take 8 c), All-take IsByte 8 c h) in
      let whole : a ++ (concat xs ++ t) ≡ c = ap (λ q. a ++ q) s.joined ∙ take-append-drop 8 c in
      subst (λ d. IsUnwrapped d (aes_unwrap_core block d)) whole
        (subst (IsUnwrapped (a ++ (concat xs ++ t)))
          (sym (aes_unwrap_core-blocks block a xs t g s.blocks s.short))
          (blocks-IsUnwrapped a xs t g s.blocks s.short))

default-IsByte : All IsByte default_wrap_iv
default-IsByte = omega arith

wrap_iv-IsBlock : (iv : Bytes) → All IsByte iv → IsBlock 8 (wrap_iv iv)
wrap_iv-IsBlock iv h = elim (Bool-cases (length iv == 8)) [
  | inl e ↦
      subst (λ b. IsBlock 8 (if b then iv else default_wrap_iv)) (sym e)
        ((==_iff (length iv) 8).0 e, h)
  | inr e ↦
      subst (λ b. IsBlock 8 (if b then iv else default_wrap_iv)) (sym e) (refl, default-IsByte)
]

pub has_blocks_iff :
    (n : ℕ) (p : Bytes) → (has_blocks n p ≡ true) ↔ ((n ≤ length p) × (length p % 8 ≡ 0))
has_blocks_iff n p = ground arith

checked_iff : (iv p : Bytes) (u : Bytes × Bytes) → (checked iv u ≡ some p) ↔ (u ≡ (iv, p))
checked_iff iv p (a, q) = (
  λ h.
      let (same, e) = if-some (beq a iv) (some q) p h in
      let f = some-injective q p e in λ i. (beq→eq a iv same i, f i),
  λ e. (λ i. checked iv (e i)) ∙ ap (λ b. if b then some p else none) (beq_refl iv),
)

abbrev when : Bool → Option Bytes → Option Bytes
when b o = if b then o else none

pub when-true : (b : Bool) (o : Option Bytes) → b ≡ true → when b o ≡ o
when-true true o h = refl
when-true false o h = cc

module _ (block : BlockCipher 16) where
  -- Under one key and one initial value, aesWrap makes `c` from `p` exactly if aesUnwrap makes `p`
  -- from `c`: unwrapping undoes wrapping, and aesUnwrap accepts nothing but what aesWrap makes.
  pub aes_wrap-aes_unwrap :
      (iv p c : Bytes)
      → All IsByte iv
      → All IsByte p
      → All IsByte c
      → (aes_wrap block iv p ≡ some c) ↔ (aes_unwrap block iv c ≡ some p)
  unfolding aes_wrap aes_unwrap
  aes_wrap-aes_unwrap iv p c iv_bytes p_bytes c_bytes = (unwraps, wraps)
    where
      v : Bytes
      v = wrap_iv iv

      unwraps : aes_wrap block iv p ≡ some c → aes_unwrap block iv c ≡ some p
      unwraps h =
          let (guard, e) = if-some (has_blocks 16 p) (some (aes_wrap_core block v p)) c h in
          let made = some-injective (aes_wrap_core block v p) c e in
          let (long, whole) = (has_blocks_iff 16 p).0 guard in
          let first = wrap_iv-IsBlock iv iv_bytes in
          let size = length-aes_wrap_core block v p first p_bytes in
          when-true (has_blocks 24 c) (checked v (aes_unwrap_core block c)) (
            (has_blocks_iff 24 c).1 (
              omega (arith, long, size, ap length made),
              omega (arith, whole, size, ap length made),
            ))
          ∙ ap (λ d. checked v (aes_unwrap_core block d)) (sym made)
          ∙ ap (checked v) (aes_unwrap_core-aes_wrap_core block v p first p_bytes)
          ∙ (checked_iff v p (v, p)).1 refl

      wraps : aes_unwrap block iv c ≡ some p → aes_wrap block iv p ≡ some c
      wraps h =
          let (guard, e) = if-some (has_blocks 24 c) (checked v (aes_unwrap_core block c)) p h in
          let same = (checked_iff v p (aes_unwrap_core block c)).0 e in
          let (long, whole) = (has_blocks_iff 24 c).0 guard in
          let u = aes_unwrap_core-IsUnwrapped block c (omega (arith, long)) c_bytes in
          let size = u.size in
          when-true (has_blocks 16 p) (some (aes_wrap_core block v p)) (
            (has_blocks_iff 16 p).1 (
              omega (arith, long, size, ap (λ q. length q.1) same),
              omega (arith, long, whole, size, ap (λ q. length q.1) same),
            ))
          ∙ ap (λ q. some (aes_wrap_core block q.0 q.1)) (sym same)
          ∙ ap some u.again

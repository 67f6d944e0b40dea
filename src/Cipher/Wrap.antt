-- ===== src/Cipher/Wrap.antt =====
-- The AES key wrap of internal/host/crypto_cipher.go (RFC 3394 and RFC 5649).
use Prim.Native.Nat.{bit_xor}
use noderati.Prelude.{
  ℕ, zero, suc, ◌+◌, ◌-◌, ◌*◌, ◌/◌, ◌%◌, ◌^◌, Bool, ◌&&◌, Option, none, some, List, [], ◌∷◌, ◌++◌,
  length, take, drop, replicate, concat, if◌then◌else◌, leb, ◌==◌,
}
use noderati.Prelude.Strings.{Bytes, beq}
use noderati.Prelude.Words.{be_value, put_be}
use noderati.Cipher.Blocks.{BlockCipher, blocks_of}

-- `A` and `r`, the bytes of `r` as blocks of eight.
abbrev pub Registers : Type 0
Registers = Bytes × List Bytes

-- `binary.BigEndian.Uint64(b) ^ t`, written back; `t` is a uint64.
unfoldable pub xor_count : Bytes → ℕ → Bytes
unfolding be_value put_be
xor_count b t = put_be 8 (bit_xor (be_value b) (t % 2 ^ 64))

abbrev pub default_wrap_iv : Bytes
default_wrap_iv = replicate 8 0xa6

abbrev pub wrap_iv : Bytes → Bytes
wrap_iv iv = if length iv == 8 then iv else default_wrap_iv

-- The guards of aesWrap and aesUnwrap.
abbrev pub has_blocks : ℕ → Bytes → Bool
has_blocks least p = leb least (length p) && length p % 8 == 0

-- The comparison of the checked value, and what aesUnwrap returns.
abbrev pub checked : Bytes → Bytes × Bytes → Option Bytes
checked iv (a, p) = if beq a iv then some p else none

module _ (block : BlockCipher 16) where
  -- One round of the inner loop of aesWrapCore: `A`, `r[i*8:i*8+8]` and `t`.
  unfoldable pub wrap_step : ℕ → Bytes → Bytes → Bytes × Bytes
  unfolding xor_count
  wrap_step t a x = let b = block.encrypt (a ++ x) in (xor_count (take 8 b) t, drop 8 b)

  -- The inner loop, from the round with `t` on.
  unfoldable pub wrap_row : ℕ → Bytes → List Bytes → Registers
  unfolding wrap_step
  wrap_row t a [] = (a, [])
  wrap_row t a (x ∷ xs) =
      let first = wrap_step t a x in
      let rest = wrap_row (t + 1) first.0 xs in (rest.0, first.1 ∷ rest.1)

  -- The outer loop up to `j`; `t` is `n*j + i + 1`.
  unfoldable pub wrap_rounds : ℕ → ℕ → Registers → Registers
  unfolding wrap_row
  wrap_rounds zero n r = r
  wrap_rounds (suc j) n r = let s = wrap_rounds j n r in wrap_row (n * j + 1) s.0 s.1

  -- What behind the last block is no whole block stays as it is.
  unfoldable pub aes_wrap_core : Bytes → Bytes → Bytes
  unfolding wrap_rounds blocks_of
  aes_wrap_core a p =
      let n = length p / 8 in
      let r = wrap_rounds 6 n (a, blocks_of 8 n p) in r.0 ++ (concat r.1 ++ drop (n * 8) p)

  unfoldable pub unwrap_step : ℕ → Bytes → Bytes → Bytes × Bytes
  unfolding xor_count
  unwrap_step t a x = let b = block.decrypt (xor_count a t ++ x) in (take 8 b, drop 8 b)

  -- The inner loop goes down, so the last block is the first.
  unfoldable pub unwrap_row : ℕ → Bytes → List Bytes → Registers
  unfolding unwrap_step
  unwrap_row t a [] = (a, [])
  unwrap_row t a (x ∷ xs) =
      let rest = unwrap_row (t + 1) a xs in
      let first = unwrap_step t rest.0 x in (first.0, first.1 ∷ rest.1)

  unfoldable pub unwrap_rounds : ℕ → ℕ → Registers → Registers
  unfolding unwrap_row
  unwrap_rounds zero n r = r
  unwrap_rounds (suc j) n r = unwrap_rounds j n (unwrap_row (n * j + 1) r.0 r.1)

  unfoldable pub aes_unwrap_core : Bytes → Bytes × Bytes
  unfolding unwrap_rounds blocks_of
  aes_unwrap_core c =
      let n = length c / 8 - 1 in
      let r = unwrap_rounds 6 n (take 8 c, blocks_of 8 n (drop 8 c)) in
      (r.0, concat r.1 ++ drop (n * 8) (drop 8 c))

  unfoldable pub aes_wrap : Bytes → Bytes → Option Bytes
  unfolding aes_wrap_core
  aes_wrap iv p = if has_blocks 16 p then some (aes_wrap_core (wrap_iv iv) p) else none

  unfoldable pub aes_unwrap : Bytes → Bytes → Option Bytes
  unfolding aes_unwrap_core beq
  aes_unwrap iv c = if has_blocks 24 c then checked (wrap_iv iv) (aes_unwrap_core c) else none

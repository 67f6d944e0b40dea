-- ===== src/Cipher/WrapPad.antt =====
-- The AES key wrap with padding of internal/host/crypto_cipher.go (RFC 5649).
use noderati.Prelude.{
  ℕ, ◌-◌, ◌%◌, ◌^◌, Bool, true, ◌&&◌, ◌||◌, Option, none, some, [], ◌∷◌, ◌++◌, length, take, drop,
  replicate, if◌then◌else◌, ltb, leb, ◌==◌,
}
use noderati.Prelude.Strings.{Bytes, beq, is_empty}
use noderati.Prelude.Words.{be_value, put_be}
use noderati.Cipher.Blocks.{BlockCipher}
use noderati.Cipher.Wrap.{has_blocks, aes_wrap_core, aes_unwrap_core}

abbrev pub pad_prefix : Bytes → Bytes
pad_prefix iv = if length iv == 4 then iv else 0xa6 ∷ 0x59 ∷ 0x59 ∷ 0xa6 ∷ []

-- `aiv`: the prefix and the length as a uint32
unfoldable pub pad_value : Bytes → Bytes → Bytes
unfolding put_be
pad_value iv p = pad_prefix iv ++ put_be 4 (length p % 2 ^ 32)

-- `padded`: zeros up to the next multiple of eight bytes
unfoldable pub padded : Bytes → Bytes
padded p = p ++ replicate ((8 - length p % 8) % 8) 0

unfoldable pub all_zero : Bytes → Bool
all_zero [] = true
all_zero (z ∷ s) = z == 0 && all_zero s

-- The guards of aesUnwrapPad on the length `mli` in the value, and its result.
unfoldable pub unpad : ℕ → Bytes → Option Bytes
unfolding all_zero
unpad mli p =
    if ltb (length p) mli || leb mli (length p - 8)
    then none
    else if all_zero (drop mli p)
    then some (take mli p)
    else none

unfoldable pub open_pad : Bytes → Bytes × Bytes → Option Bytes
unfolding be_value unpad beq
open_pad prefix (a, p) = if beq (take 4 a) prefix then unpad (be_value (drop 4 a)) p else none

abbrev pub halves : Bytes → Bytes × Bytes
halves b = (take 8 b, drop 8 b)

module _ (block : BlockCipher 16) where
  -- One block is encrypted as it is.
  unfoldable pub seal : Bytes → Bytes → Bytes
  unfolding aes_wrap_core
  seal a p = if length p == 8 then block.encrypt (a ++ p) else aes_wrap_core block a p

  unfoldable pub aes_wrap_pad : Bytes → Bytes → Option Bytes
  unfolding seal pad_value padded
  aes_wrap_pad iv p = if is_empty p then none else some (seal (pad_value iv p) (padded p))

  unfoldable pub unseal : Bytes → Bytes × Bytes
  unfolding aes_unwrap_core
  unseal c = if length c == 16 then halves (block.decrypt c) else aes_unwrap_core block c

  unfoldable pub aes_unwrap_pad : Bytes → Bytes → Option Bytes
  unfolding unseal open_pad
  aes_unwrap_pad iv c = if has_blocks 16 c then open_pad (pad_prefix iv) (unseal c) else none

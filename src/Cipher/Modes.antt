-- ===== src/Cipher/Modes.antt =====
-- The modes CBC and ECB of internal/host/crypto_cipher.go, with their padding.
use Prim.Native.Nat.{bit_xor}
use noderati.Prelude.{
  ℕ, zero, suc, ◌-◌, ◌*◌, ◌/◌, ◌%◌, Bool, true, false, not, ◌&&◌, ◌||◌, Option, none, some, List,
  [], ◌∷◌, ◌++◌, length, take, drop, replicate, if◌then◌else◌, ltb, ◌==◌,
}
use noderati.Prelude.Strings.{Bytes}
use noderati.Cipher.Blocks.{BlockCipher}

pub data Impl : Type 0 where
  cbc : Impl
  ecb : Impl

-- `subtle.XORBytes`, of as many bytes as the shorter has
unfoldable pub xor_bytes : Bytes → Bytes → Bytes
xor_bytes [] t = []
xor_bytes (c ∷ s) [] = []
xor_bytes (c ∷ s) (d ∷ t) = bit_xor c d ∷ xor_bytes s t

-- The part of the cipher's state that changes.
pub record CipherCtx : Type 0 where
  pub finalized : Bool
  pub pending : Bytes
  pub cbc_prev : Bytes

pub data Outcome : Type 0 where
  output : Bytes → Outcome
  wrong_final_block_length : Outcome
  bad_decrypt : Outcome
  unsupported_state : Outcome

-- `out[len(out)-1]`, of what is not empty
unfoldable pub last_byte : Bytes → ℕ
last_byte [] = 0
last_byte (c ∷ []) = c
last_byte (c ∷ d ∷ s) = last_byte (d ∷ s)

unfoldable pub all_are : ℕ → Bytes → Bool
all_are pad [] = true
all_are pad (x ∷ s) = x == pad && all_are pad s

-- The padding of what has been decrypted, taken off.
unfoldable pub take_padding : ℕ → Bytes → Outcome
unfolding last_byte all_are
take_padding size out =
    let pad = last_byte out in
    if pad == 0 || ltb size pad
    then bad_decrypt
    else if all_are pad (drop (length out - pad) out)
    then output (take (length out - pad) out)
    else bad_decrypt

-- `out` ahead of what comes.
abbrev pub ahead : Bytes → Outcome → Outcome
ahead out (output s) = output (out ++ s)
ahead out wrong_final_block_length = wrong_final_block_length
ahead out bad_decrypt = bad_decrypt
ahead out unsupported_state = unsupported_state

module _ {size : ℕ} (block : BlockCipher size) (impl : Impl) (decrypt : Bool) where
  -- One block, with what it leaves in `cbcPrev`.
  unfoldable pub block_step : Bytes → Bytes → Bytes × Bytes
  unfolding xor_bytes
  block_step prev src = elim impl [
    | ecb ↦ if decrypt then (block.decrypt src, prev) else (block.encrypt src, prev)
    | cbc ↦
        if decrypt
        then (xor_bytes (block.decrypt src) prev, src)
        else (let dst = block.encrypt (xor_bytes src prev) in (dst, dst))
  ]

  -- So many blocks: the output and `cbcPrev`.
  unfoldable pub blocks : ℕ → Bytes → Bytes → Bytes × Bytes
  unfolding block_step
  blocks zero prev bytes = ([], prev)
  blocks (suc n) prev bytes =
      let first = block_step prev (take size bytes) in
      let rest = blocks n first.1 (drop size bytes) in (first.0 ++ rest.0, rest.1)

  module _ (padding : Bool) where
    -- How many of so many bytes an update handles; the block that may carry padding is held back.
    unfoldable pub handled : ℕ → ℕ
    handled len =
        let n = len / size * size in
        if (decrypt && padding) && (n == len && ltb 0 n) then n - size else n

    unfoldable pub handle : CipherCtx → Bytes → CipherCtx × Bytes
    unfolding blocks handled
    handle c bytes =
        let n = handled (length bytes) in
        let out = blocks (length (take n bytes) / size) c.cbc_prev (take n bytes) in
        (record c { pending = drop n bytes; cbc_prev = out.1 }, out.0)

    -- `none` is the error of a cipher that is finished.
    unfoldable pub update : CipherCtx → Bytes → Option (CipherCtx × Bytes)
    unfolding handle
    update c chunk = if c.finalized then none else some (handle c (c.pending ++ chunk))

    unfoldable pub padded_pending : Bytes → Bytes
    padded_pending pending =
        let pad = size - length pending % size in pending ++ replicate pad (pad % 256)

    unfoldable pub final_blocks : CipherCtx → Bytes → Bytes
    unfolding blocks
    final_blocks c bytes = (blocks (length bytes / size) c.cbc_prev bytes).0

    unfoldable pub final_encrypt : CipherCtx → Outcome
    unfolding final_blocks padded_pending
    final_encrypt c =
        if padding
        then output (final_blocks c (padded_pending c.pending))
        else if length c.pending % size == 0
        then output (final_blocks c c.pending)
        else wrong_final_block_length

    unfoldable pub final_decrypt : CipherCtx → Outcome
    unfolding final_blocks take_padding
    final_decrypt c =
        if not (length c.pending % size == 0) || (padding && length c.pending == 0)
        then wrong_final_block_length
        else if padding
        then take_padding size (final_blocks c c.pending)
        else output (final_blocks c c.pending)

    unfoldable pub final : CipherCtx → Outcome
    unfolding final_encrypt final_decrypt
    final c =
        if c.finalized
        then unsupported_state
        else if decrypt
        then final_decrypt c
        else final_encrypt c

    -- The updates with these chunks and the call of final behind them: all they give.
    unfoldable pub crypt : CipherCtx → List Bytes → Outcome
    unfolding update final
    crypt c [] = final c
    crypt c (chunk ∷ chunks) = elim (update c chunk) [
      | none ↦ unsupported_state
      | some (d, out) ↦ ahead out (crypt d chunks)
    ]

-- The state of a new cipher
abbrev pub fresh : Bytes → CipherCtx
fresh iv = record { finalized = false; pending = []; cbc_prev = iv }

-- ===== src/Cipher/Tests.antt =====
-- A block cipher that reverses its block, on which the theorems are applied.
use mathlib.Core.List.{reverse, reverse-reverse}
use noderati.Prelude.{
  take, length, ◌<◌, ◌≤◌, ◌+◌, List, true, false, concat, ◌%◌, ℕ, ◌≡◌, ◌↔◌, refl, none, some, [],
  ◌∷◌, ◌++◌, arith, ◌∙◌, replicate, drop,
}
use noderati.Prelude.Strings.{Bytes, codes}
use noderati.Prelude.Words.{IsByte, length-reverse, All-reverse, put_le, le_value}
use noderati.Cipher.Blocks.{IsBlock, BlockCipher}
use noderati.Cipher.Wrap.{aes_wrap, aes_unwrap}
use noderati.Cipher.WrapPad.{aes_wrap_pad, aes_unwrap_pad}
use noderati.Cipher.KeyWrap.{aes_wrap-aes_unwrap}
use noderati.Cipher.Modes.{cbc, output, wrong_final_block_length, crypt, fresh}
use noderati.Cipher.Crypt.{crypt-crypt, crypt-encrypts}
use noderati.Cipher.PadWrap.{aes_wrap_pad-aes_unwrap_pad}

reverse-IsBlock : (n : ℕ) (b : Bytes) → IsBlock n b → IsBlock n (reverse b)
reverse-IsBlock n b h = (length-reverse b ∙ h.0, All-reverse IsByte b h.1)

abbrev reversal : (n : ℕ) → BlockCipher n
reversal n = record {
  encrypt = reverse;
  decrypt = reverse;
  encrypt-IsBlock = reverse-IsBlock n;
  decrypt-IsBlock = reverse-IsBlock n;
  decrypt-encrypt = λ b h. reverse-reverse b;
  encrypt-decrypt = λ b h. reverse-reverse b;
}

abbrev key_text : Bytes
key_text = codes "0123456789abcdef"

-- What aesWrap makes of it.
abbrev wrapped_key : Bytes
wrapped_key = replicate 8 166 ++ codes "81234567<9abcdef"

abbrev padded_key : Bytes
padded_key = 0 ∷ 0 ∷ 0 ∷ 0 ∷ 0 ∷ 99 ∷ 98 ∷ 97 ∷ 3 ∷ 0 ∷ 0 ∷ 0 ∷ 166 ∷ 89 ∷ 89 ∷ 166 ∷ []

wrapped_key_lem : aes_wrap (reversal 16) [] key_text ≡ some wrapped_key
unfolding aes_wrap put_le le_value
wrapped_key_lem = refl

unwrapped_key_lem : aes_unwrap (reversal 16) [] wrapped_key ≡ some key_text
unfolding aes_unwrap put_le le_value
unwrapped_key_lem = refl

tampered_key_lem : aes_unwrap (reversal 16) [] (1 ∷ drop 1 wrapped_key) ≡ none
unfolding aes_unwrap put_le le_value
tampered_key_lem = refl

padded_key_lem : aes_wrap_pad (reversal 16) [] (codes "abc") ≡ some padded_key
unfolding aes_wrap_pad put_le
padded_key_lem = refl

aes_wrap-aes_unwrap_example :
    (aes_wrap (reversal 16) [] key_text ≡ some wrapped_key)
    ↔ (aes_unwrap (reversal 16) [] wrapped_key ≡ some key_text)
aes_wrap-aes_unwrap_example =
    aes_wrap-aes_unwrap (reversal 16) [] key_text wrapped_key tt (omega arith) (omega arith)

aes_wrap_pad-aes_unwrap_pad_example :
    (aes_wrap_pad (reversal 16) [] (codes "abc") ≡ some padded_key)
    ↔ (aes_unwrap_pad (reversal 16) [] padded_key ≡ some (codes "abc"))
aes_wrap_pad-aes_unwrap_pad_example =
    aes_wrap_pad-aes_unwrap_pad (reversal 16) [] (codes "abc") padded_key tt (omega arith)
      (omega arith) (omega arith)

abbrev small_cipher : BlockCipher 4
small_cipher = reversal 4

abbrev vector : Bytes
vector = codes "abcd"

abbrev sent : List Bytes
sent = codes "hel" ∷ codes "lo" ∷ []

-- What CBC makes of it.
abbrev sealed_word : Bytes
sealed_word = 8 ∷ 15 ∷ 7 ∷ 9 ∷ 10 ∷ 4 ∷ 12 ∷ 103 ∷ []

abbrev received : List Bytes
received = take 3 sealed_word ∷ drop 3 sealed_word ∷ []

sealed_word_lem : crypt small_cipher cbc false true (fresh vector) sent ≡ output sealed_word
unfolding crypt
sealed_word_lem = refl

opened_word_lem :
    crypt small_cipher cbc true true (fresh vector) (take 7 sealed_word ∷ [])
    ≡ wrong_final_block_length
unfolding crypt
opened_word_lem = refl

vector-IsBlock : IsBlock 4 vector
vector-IsBlock = (refl, omega arith)

crypt-crypt_example :
    crypt small_cipher cbc true true (fresh vector) received ≡ output (concat sent)
crypt-crypt_example =
    crypt-crypt small_cipher cbc (omega arith) (omega arith) vector sent received vector-IsBlock
      (omega arith) sealed_word_lem

crypt-encrypts_example :
    (sealed : Bytes) × ((crypt small_cipher cbc false true (fresh vector) sent ≡ output sealed)
      × ((length sealed % 4 ≡ 0)
          × ((length (concat sent) < length sealed) × (length sealed ≤ length (concat sent) + 4))))
crypt-encrypts_example =
    crypt-encrypts small_cipher cbc (omega arith) (omega arith) vector sent vector-IsBlock
      (omega arith)

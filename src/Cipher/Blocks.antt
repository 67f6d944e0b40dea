-- ===== src/Cipher/Blocks.antt =====
-- Block ciphers, and a text as its blocks.
use noderati.Prelude.{
  ℕ, zero, suc, ◌+◌, ◌*◌, ◌≤◌, ◌≡◌, refl, sym, ap, ◌∙◌, List, [], ◌∷◌, ◌++◌, length, take, drop,
  concat, All, All-take, All-drop, arith, length-take, length-drop, take-append-drop, drop-drop,
  take-length, drop-length, append_assoc, length-append, All-append,
}
use noderati.Prelude.Strings.{Bytes}
use noderati.Prelude.Words.{IsByte}

-- So many bytes.
abbrev pub IsBlock : ℕ → Bytes → Type 0
IsBlock n b = (length b ≡ n) × All IsByte b

-- `cipher.Block` with its key: `Encrypt` and `Decrypt` are inverse on blocks.
pub record BlockCipher (size : ℕ) : Type 0 where
  pub encrypt : Bytes → Bytes
  pub decrypt : Bytes → Bytes
  pub encrypt-IsBlock : (b : Bytes) → IsBlock size b → IsBlock size (encrypt b)
  pub decrypt-IsBlock : (b : Bytes) → IsBlock size b → IsBlock size (decrypt b)
  pub decrypt-encrypt : (b : Bytes) → IsBlock size b → decrypt (encrypt b) ≡ b
  pub encrypt-decrypt : (b : Bytes) → IsBlock size b → encrypt (decrypt b) ≡ b

-- The first `n` blocks of a text.
unfoldable pub blocks_of : ℕ → ℕ → Bytes → List Bytes
blocks_of size zero s = []
blocks_of size (suc n) s = take size s ∷ blocks_of size n (drop size s)

pub length-blocks_of : (size n : ℕ) (s : Bytes) → length (blocks_of size n s) ≡ n
unfolding blocks_of
length-blocks_of size zero s = refl
length-blocks_of size (suc n) s = ap suc (length-blocks_of size n (drop size s))

-- The blocks and what is behind them are the text.
pub concat-blocks_of :
    (size n : ℕ) (s : Bytes) → concat (blocks_of size n s) ++ drop (n * size) s ≡ s
unfolding blocks_of
concat-blocks_of size zero s =
    let none_yet : 0 * size ≡ 0 = grind arith in ap (λ k. drop k s) none_yet
concat-blocks_of size (suc n) s =
    let rest : drop (suc n * size) s ≡ drop (n * size) (drop size s) =
      ap (λ k. drop k s) (grind arith) ∙ sym (drop-drop size (n * size) s) in
    append_assoc (take size s) (concat (blocks_of size n (drop size s))) (drop (suc n * size) s)
    ∙ ap (λ t. take size s ++ (concat (blocks_of size n (drop size s)) ++ t)) rest
    ∙ ap (λ t. take size s ++ t) (concat-blocks_of size n (drop size s))
    ∙ take-append-drop size s

pub blocks_of-IsBlock :
    (size n : ℕ) (s : Bytes)
    → n * size ≤ length s
    → All IsByte s
    → All (IsBlock size) (blocks_of size n s)
unfolding blocks_of
blocks_of-IsBlock size zero s h k = tt
blocks_of-IsBlock size (suc n) s h k =
    let more : suc n * size ≡ size + n * size = grind arith in
    (
      (omega (arith, h, more, length-take size s), All-take IsByte size s k),
      blocks_of-IsBlock size n (drop size s) (omega (arith, h, more, length-drop size s))
          (All-drop IsByte size s k),
    )

-- The text of blocks has them again.
pub blocks_of-concat :
    (size : ℕ) (xs : List Bytes) (t : Bytes)
    → All (IsBlock size) xs
    → blocks_of size (length xs) (concat xs ++ t) ≡ xs
unfolding blocks_of
blocks_of-concat size [] t h = refl
blocks_of-concat size (x ∷ xs) t h =
    let joined : (x ++ concat xs) ++ t ≡ x ++ (concat xs ++ t) = append_assoc x (concat xs) t in
    let first : take size ((x ++ concat xs) ++ t) ≡ x =
      (λ i. take (sym h.0.0 i) (joined i)) ∙ take-length x (concat xs ++ t) in
    let rest : drop size ((x ++ concat xs) ++ t) ≡ concat xs ++ t =
      (λ i. drop (sym h.0.0 i) (joined i)) ∙ drop-length x (concat xs ++ t) in
    λ i. first i ∷ (ap (blocks_of size (length xs)) rest ∙ blocks_of-concat size xs t h.1) i

pub length-concat :
    (size : ℕ) (xs : List Bytes) → All (IsBlock size) xs → length (concat xs) ≡ length xs * size
length-concat size [] h = grind arith
length-concat size (x ∷ xs) h =
    let more : suc (length xs) * size ≡ size + length xs * size = grind arith in
    omega (arith, more, h.0.0, length-append x (concat xs), length-concat size xs h.1)

pub concat-IsByte : (size : ℕ) (xs : List Bytes) → All (IsBlock size) xs → All IsByte (concat xs)
concat-IsByte size [] h = tt
concat-IsByte size (x ∷ xs) h = All-append IsByte x (concat xs) h.0.1 (concat-IsByte size xs h.1)

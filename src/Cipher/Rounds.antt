-- ===== src/Cipher/Rounds.antt =====
-- The six rounds of the key wrap, and the cores on blocks.
use noderati.Prelude.{
  ℕ, zero, suc, ◌+◌, ◌-◌, ◌*◌, ◌/◌, ◌<◌, ◌≡◌, refl, sym, ap, ◌∙◌, List, [], ◌∷◌, ◌++◌, length, take,
  drop, concat, All, arith, take-length, drop-length, length-append,
}
use noderati.Prelude.Strings.{Bytes}
use noderati.Cipher.Blocks.{BlockCipher, IsBlock, blocks_of, blocks_of-concat, length-concat}
use noderati.Cipher.Wrap.{
  Registers, wrap_row, wrap_rounds, aes_wrap_core, unwrap_row, unwrap_rounds, aes_unwrap_core,
}
use noderati.Cipher.Unwrap.{
  IsRegisters, wrap_row-IsRegisters, unwrap_row-IsRegisters, unwrap_row-wrap_row,
  wrap_row-unwrap_row,
}

module _ (block : BlockCipher 16) where
  pub wrap_rounds-IsRegisters :
      (j n : ℕ) (r : Registers) → IsRegisters r → IsRegisters (wrap_rounds block j n r)
  unfolding wrap_rounds
  wrap_rounds-IsRegisters zero n r h = h
  wrap_rounds-IsRegisters (suc j) n r h =
      let s = wrap_rounds block j n r in
      wrap_row-IsRegisters block (n * j + 1) s.0 s.1 (wrap_rounds-IsRegisters j n r h)

  pub unwrap_rounds-IsRegisters :
      (j n : ℕ) (r : Registers) → IsRegisters r → IsRegisters (unwrap_rounds block j n r)
  unfolding unwrap_rounds
  unwrap_rounds-IsRegisters zero n r h = h
  unwrap_rounds-IsRegisters (suc j) n r h =
      unwrap_rounds-IsRegisters j n (unwrap_row block (n * j + 1) r.0 r.1)
        (unwrap_row-IsRegisters block (n * j + 1) r.0 r.1 h)

  pub unwrap_rounds-wrap_rounds :
      (j n : ℕ) (r : Registers)
      → IsRegisters r
      → unwrap_rounds block j n (wrap_rounds block j n r) ≡ r
  unfolding wrap_rounds unwrap_rounds
  unwrap_rounds-wrap_rounds zero n r h = refl
  unwrap_rounds-wrap_rounds (suc j) n r h =
      let s = wrap_rounds block j n r in
      ap (unwrap_rounds block j n)
        (unwrap_row-wrap_row block (n * j + 1) s.0 s.1 (wrap_rounds-IsRegisters j n r h))
      ∙ unwrap_rounds-wrap_rounds j n r h

  pub wrap_rounds-unwrap_rounds :
      (j n : ℕ) (r : Registers)
      → IsRegisters r
      → wrap_rounds block j n (unwrap_rounds block j n r) ≡ r
  unfolding wrap_rounds unwrap_rounds
  wrap_rounds-unwrap_rounds zero n r h = refl
  wrap_rounds-unwrap_rounds (suc j) n r h =
      let t = n * j + 1 in
      let s = unwrap_row block t r.0 r.1 in
      ap (λ q. wrap_row block t q.0 q.1)
        (wrap_rounds-unwrap_rounds j n s (unwrap_row-IsRegisters block t r.0 r.1 h))
      ∙ wrap_row-unwrap_row block t r.0 r.1 h

  length-wrap_row :
      (t : ℕ) (a : Bytes) (xs : List Bytes) → length (wrap_row block t a xs).1 ≡ length xs
  unfolding wrap_row
  length-wrap_row t a [] = refl
  length-wrap_row t a (x ∷ xs) = ap suc (length-wrap_row (t + 1) _ xs)

  pub length-wrap_rounds :
      (j n : ℕ) (r : Registers) → length (wrap_rounds block j n r).1 ≡ length r.1
  unfolding wrap_rounds
  length-wrap_rounds zero n r = refl
  length-wrap_rounds (suc j) n r =
      let s = wrap_rounds block j n r in
      length-wrap_row (n * j + 1) s.0 s.1 ∙ length-wrap_rounds j n r

  length-unwrap_row :
      (t : ℕ) (a : Bytes) (xs : List Bytes) → length (unwrap_row block t a xs).1 ≡ length xs
  unfolding unwrap_row
  length-unwrap_row t a [] = refl
  length-unwrap_row t a (x ∷ xs) = ap suc (length-unwrap_row (t + 1) a xs)

  pub length-unwrap_rounds :
      (j n : ℕ) (r : Registers) → length (unwrap_rounds block j n r).1 ≡ length r.1
  unfolding unwrap_rounds
  length-unwrap_rounds zero n r = refl
  length-unwrap_rounds (suc j) n r =
      length-unwrap_rounds j n (unwrap_row block (n * j + 1) r.0 r.1)
      ∙ length-unwrap_row (n * j + 1) r.0 r.1

  -- The cores on a text that is given by its blocks and the rest.
  abbrev pub output : Registers → Bytes → Bytes × Bytes
  output r t = (r.0, concat r.1 ++ t)

  count_blocks :
      (xs : List Bytes) (t : Bytes)
      → All (IsBlock 8) xs
      → length t < 8
      → length (concat xs ++ t) / 8 ≡ length xs
  count_blocks xs t h k = omega (arith, k, length-append (concat xs) t, length-concat 8 xs h)

  drop-blocks :
      (xs : List Bytes) (t : Bytes) → All (IsBlock 8) xs → drop (length xs * 8) (concat xs ++ t) ≡ t
  drop-blocks xs t h =
      ap (λ n. drop n (concat xs ++ t)) (sym (length-concat 8 xs h)) ∙ drop-length (concat xs) t

  pub aes_wrap_core-blocks :
      (a : Bytes) (xs : List Bytes) (t : Bytes)
      → All (IsBlock 8) xs
      → length t < 8
      → let r = wrap_rounds block 6 (length xs) (a, xs) in
        aes_wrap_core block a (concat xs ++ t) ≡ r.0 ++ (concat r.1 ++ t)
  unfolding aes_wrap_core
  aes_wrap_core-blocks a xs t h k =
      let p = concat xs ++ t in
      let join = λ (n : ℕ) (bs : List Bytes) (u : Bytes).
        (wrap_rounds block 6 n (a, bs)).0 ++ (concat (wrap_rounds block 6 n (a, bs)).1 ++ u) in
      ap (λ n. join n (blocks_of 8 n p) (drop (n * 8) p)) (count_blocks xs t h k)
      ∙ ap (λ bs. join (length xs) bs (drop (length xs * 8) p)) (blocks_of-concat 8 xs t h)
      ∙ ap (join (length xs) xs) (drop-blocks xs t h)

  pub aes_unwrap_core-blocks :
      (a : Bytes) (xs : List Bytes) (t : Bytes)
      → IsBlock 8 a
      → All (IsBlock 8) xs
      → length t < 8
      → aes_unwrap_core block (a ++ (concat xs ++ t))
        ≡ output (unwrap_rounds block 6 (length xs) (a, xs)) t
  unfolding aes_unwrap_core
  aes_unwrap_core-blocks a xs t g h k =
      let p = concat xs ++ t in
      let c = a ++ p in
      let join = λ (n : ℕ) (b : Bytes) (bs : List Bytes) (u : Bytes).
        output (unwrap_rounds block 6 n (b, bs)) u in
      let count : length c / 8 - 1 ≡ length xs =
        omega
          (arith, g.0, k, length-append a p, length-append (concat xs) t, length-concat 8 xs h) in
      let front : take 8 c ≡ a = ap (λ n. take n c) (sym g.0) ∙ take-length a p in
      let back : drop 8 c ≡ p = ap (λ n. drop n c) (sym g.0) ∙ drop-length a p in
      (λ i. join (count i) (front i) (blocks_of 8 (count i) (back i)) (drop (count i * 8) (back i)))
      ∙ (λ i. join (length xs) a (blocks_of-concat 8 xs t h i) (drop-blocks xs t h i))

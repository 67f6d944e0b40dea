-- ===== src/Cipher/Fed.antt =====
-- What a cipher has given and what it keeps, after any updates.
use mathlib.Core.Path.{subst}
use native.Mathlib.Nat.{suc-mul, mul-div_cancel, div-mul-le_self, add-mul}
use noderati.Prelude.{
  ℕ, zero, suc, ◌+◌, ◌-◌, ◌*◌, ◌/◌, ◌≤◌, ◌<◌, ◌≡◌, refl, sym, ap, ◌∙◌, Bool, true, false, ◌&&◌,
  none, some, List, [], ◌∷◌, ◌++◌, length, take, drop, arith, length-append, length-take,
  length-drop, take-append-drop, append_assoc, append-nil, if◌then◌else◌, ltb, ◌==◌, inl, inr,
  Bool-cases, concat,
}
use noderati.Prelude.Strings.{Bytes}
use noderati.Cipher.Blocks.{BlockCipher}
use noderati.Cipher.Modes.{
  Impl, CipherCtx, Outcome, output, wrong_final_block_length, bad_decrypt, unsupported_state, ahead,
  blocks, handled, handle, update, final, crypt, fresh,
}
use noderati.Cipher.Runs.{blocks-append}

-- Whole blocks of `len` bytes: not all of them, if the last is to be held back.
record Whole (size : ℕ) (back : Bool) (len n : ℕ) : Type 0 where
  count : ℕ
  size_is : n ≡ count * size
  inside : n ≤ len
  held : back ≡ true → len ≡ n → count ≡ 0

one_less :
    (size m len : ℕ)
    → 0 < size
    → 0 < m * size
    → m * size ≤ len
    → Whole size true len (m * size - size)
one_less size zero len h k l = absurd (omega (arith, k))
one_less size (suc m) len h k l = record {
  count = m;
  size_is = omega (arith, suc-mul m size);
  inside = omega (arith, l);
  held = λ b e. absurd (omega (arith, suc-mul m size, h, l, e));
}

none_held :
    (size m len : ℕ)
    → 0 < size
    → (m * size == len && ltb 0 (m * size)) ≡ false
    → len ≡ m * size
    → m ≡ 0
none_held size zero len h k e = refl
none_held size (suc m) len h k e =
    let filled : 0 < suc m * size = omega (arith, suc-mul m size, h) in
    absurd (ground (arith, filled))

handled_at :
    (size m len : ℕ) (back : Bool)
    → 0 < size
    → m * size ≤ len
    → Whole size back len
        (if back && (m * size == len && ltb 0 (m * size)) then m * size - size else m * size)
handled_at size m len false h k = record { count = m; size_is = refl; inside = k; held = λ b. cc }
handled_at size m len true h k = elim (Bool-cases (m * size == len && ltb 0 (m * size))) [
  | inl e ↦
      let filled : 0 < m * size = ground arith in
      subst (λ b. Whole size true len (if b then m * size - size else m * size)) (sym e)
        (one_less size m len h filled k)
  | inr e ↦
      subst (λ b. Whole size true len (if b then m * size - size else m * size)) (sym e)
        (record { count = m; size_is = refl; inside = k; held = λ b. none_held size m len h e })
]

ahead-ahead : (s t : Bytes) (o : Outcome) → ahead s (ahead t o) ≡ ahead (s ++ t) o
ahead-ahead s t (output r) = ap output (sym (append_assoc s t r))
ahead-ahead s t wrong_final_block_length = refl
ahead-ahead s t bad_decrypt = refl
ahead-ahead s t unsupported_state = refl

updated :
    (later : CipherCtx → Outcome) (b : Bool) (r : CipherCtx × Bytes)
    → b ≡ false
    → (elim (if b then none else some r) [
      | none ↦ unsupported_state
      | some (d, out) ↦ ahead out (later d)
    ])
      ≡ ahead r.1 (later r.0)
updated later true r h = cc
updated later false r h = refl

module _ {size : ℕ} (block : BlockCipher size) (impl : Impl) (decrypt padding : Bool)
    (positive : 0 < size) where
  pub record Fed (iv total out : Bytes) (c : CipherCtx) : Type 0 where
    pub count : ℕ
    pub head : Bytes
    pub head_length : length head ≡ count * size
    pub total_is : total ≡ head ++ c.pending
    pub state : blocks block impl decrypt count iv head ≡ (out, c.cbc_prev)
    pub still_open : c.finalized ≡ false
    pub held : decrypt && padding ≡ true → length c.pending ≡ 0 → count ≡ 0

  pub fresh-Fed : (iv : Bytes) → Fed iv [] [] (fresh iv)
  unfolding blocks
  fresh-Fed iv = record {
    count = 0;
    head = [];
    head_length = omega arith;
    total_is = refl;
    state = refl;
    still_open = refl;
    held = λ b h. refl;
  }

  handled-Whole :
      (len : ℕ) → Whole size (decrypt && padding) len (handled block impl decrypt padding len)
  unfolding handled
  handled-Whole len =
      handled_at size (len / size) len (decrypt && padding) positive (div-mul-le_self len size)

  handle-Fed :
      (iv total out chunk : Bytes) (c : CipherCtx)
      → Fed iv total out c
      → Fed iv
          (total ++ chunk)
          (out ++ (handle block impl decrypt padding c (c.pending ++ chunk)).1)
          (handle block impl decrypt padding c (c.pending ++ chunk)).0
  unfolding handle
  handle-Fed iv total out chunk c f =
      let bytes = c.pending ++ chunk in
      let n = handled block impl decrypt padding (length bytes) in
      let w = handled-Whole (length bytes) in
      let part_length : length (take n bytes) ≡ w.count * size =
        omega (arith, length-take n bytes, w.inside, w.size_is) in
      let part_count : length (take n bytes) / size ≡ w.count =
        ap (λ k. k / size) part_length ∙ mul-div_cancel w.count positive in
      record {
        count = f.count + w.count;
        head = f.head ++ take n bytes;
        head_length = omega (
          arith,
          length-append f.head (take n bytes),
          part_length,
          f.head_length,
          add-mul f.count w.count size,
        );
        total_is =
            (λ i. f.total_is i ++ chunk)
            ∙ append_assoc f.head c.pending chunk
            ∙ ap (λ r. f.head ++ r) (sym (take-append-drop n bytes))
            ∙ sym (append_assoc f.head (take n bytes) (drop n bytes));
        state =
            blocks-append block impl decrypt f.count w.count (f.count + w.count) iv f.head
              (take n bytes) refl f.head_length
            ∙ (λ i.
                let rest =
                  blocks block impl decrypt (sym part_count i) (f.state i).1 (take n bytes) in
                ((f.state i).0 ++ rest.0, rest.1));
        still_open = f.still_open;
        held = λ b h.
            let all : length bytes ≡ n = omega (arith, length-drop n bytes, h, w.inside) in
            let no_count : w.count ≡ 0 = w.held b all in
            let nothing : length bytes ≡ 0 =
              omega (arith, all, w.size_is, ap (λ k. k * size) no_count) in
            let before : f.count ≡ 0 =
              f.held b (omega (arith, nothing, length-append c.pending chunk)) in
            omega (arith, no_count, before);
      }

  -- All that crypt gives: what the updates give, and behind it the outcome of final.
  pub record Crypted (iv total out : Bytes) (o : Outcome) : Type 0 where
    pub last_out : Bytes
    pub last_state : CipherCtx
    pub fed : Fed iv total last_out last_state
    pub outcome : ahead out o ≡ ahead last_out (final block impl decrypt padding last_state)

  pub crypt-Crypted :
      (iv total out : Bytes) (chunks : List Bytes) (c : CipherCtx)
      → Fed iv total out c
      → Crypted iv (total ++ concat chunks) out (crypt block impl decrypt padding c chunks)
  unfolding crypt update
  crypt-Crypted iv total out [] c f = record {
    last_out = out;
    last_state = c;
    fed = subst (λ t. Fed iv t out c) (sym (append-nil total)) f;
    outcome = refl;
  }
  crypt-Crypted iv total out (chunk ∷ chunks) c f =
      let r = handle block impl decrypt padding c (c.pending ++ chunk) in
      let rest = crypt block impl decrypt padding r.0 chunks in
      let ih =
        crypt-Crypted iv (total ++ chunk) (out ++ r.1) chunks r.0
          (handle-Fed iv total out chunk c f) in
      record {
        last_out = ih.last_out;
        last_state = ih.last_state;
        fed =
            subst (λ t. Fed iv t ih.last_out ih.last_state)
              (append_assoc total chunk (concat chunks)) ih.fed;
        outcome =
            ap (ahead out)
              (updated (λ d. crypt block impl decrypt padding d chunks) c.finalized r f.still_open)
            ∙ ahead-ahead out r.1 rest
            ∙ ih.outcome;
      }

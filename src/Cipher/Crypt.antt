-- ===== src/Cipher/Crypt.antt =====
-- What a cipher with padding encrypts, in any chunks, is decrypted in any chunks.
use mathlib.Core.Path.{subst}
use native.Mathlib.Nat.{suc-mul, mul-div_cancel, add-mul, mul-mod_left, mod-lt, div-add-mod'}
use noderati.Prelude.{
  ℕ, suc, ◌+◌, ◌-◌, ◌*◌, ◌/◌, ◌%◌, ◌≤◌, ◌<◌, ◌≡◌, refl, sym, ap, ◌∙◌, true, false, not, ◌||◌, List,
  [], ◌++◌, length, take, drop, replicate, arith, length-append, length-take, length-drop,
  take-append-drop, append_assoc, ◌==◌, concat, if-false, All, All-append, All-take, All-drop,
  append-cut,
}
use noderati.Prelude.Strings.{Bytes}
use noderati.Prelude.Words.{IsByte}
use noderati.Cipher.Blocks.{BlockCipher, IsBlock}
use noderati.Cipher.Modes.{
  Impl, CipherCtx, output, wrong_final_block_length, unsupported_state, ahead, blocks, take_padding,
  padded_pending, final_blocks, final_encrypt, final_decrypt, final, crypt, fresh,
}
use noderati.Cipher.Runs.{blocks-append, blocks-Reversed}
use noderati.Cipher.Fed.{Fed, fresh-Fed, crypt-Crypted}
use noderati.Cipher.Filling.{
  length-replicate, replicate-IsByte, take_padding-replicate, output-injective, plain_outcome,
  more_blocks, same_parts, le-mul, some_more,
}

module _ {size : ℕ} (block : BlockCipher size) (impl : Impl) (positive : 0 < size)
    (small : size < 256) where
  -- A text with its padding, and what it is encrypted to.
  record Padded (iv text out : Bytes) : Type 0 where
    pad : ℕ
    count : ℕ
    short : pad < size
    whole : length (text ++ replicate (suc pad) (suc pad)) ≡ suc count * size
    out_is :
        out ≡ (blocks block impl false (suc count) iv (text ++ replicate (suc pad) (suc pad))).0

  final_encrypt-Padded :
      (iv total out : Bytes) (c : CipherCtx)
      → Fed block impl false true positive iv total out c
      → (s : Bytes) × ((ahead out (final block impl false true c) ≡ output s) × Padded iv total s)
  unfolding final final_encrypt final_blocks padded_pending
  final_encrypt-Padded iv total out c f =
      let r = length c.pending % size in
      let q = length c.pending / size in
      let pad = size - r - 1 in
      let part : r < size = mod-lt (length c.pending) positive in
      let fits : pad < size = omega (arith, part) in
      let amount : size - r ≡ suc pad = omega (arith, part) in
      let as_byte : (size - r) % 256 ≡ suc pad = omega (arith, part, small) in
      let filling = replicate (suc pad) (suc pad) in
      let text : padded_pending block impl false true c.pending ≡ c.pending ++ filling =
        λ i. c.pending ++ replicate (amount i) (as_byte i) in
      let text_length : length (c.pending ++ filling) ≡ suc q * size = omega (
        arith,
        length-append c.pending filling,
        length-replicate (suc pad) (suc pad),
        div-add-mod' (length c.pending) size,
        suc-mul q size,
        part,
      ) in
      let number : length (c.pending ++ filling) / size ≡ suc q =
        ap (λ k. k / size) text_length ∙ mul-div_cancel (suc q) positive in
      let last = blocks block impl false (suc q) c.cbc_prev (c.pending ++ filling) in
      let given : final block impl false true c ≡ output last.0 =
        if-false c.finalized unsupported_state (final_encrypt block impl false true c)
          (output last.0) f.still_open
          ((λ i. output (blocks block impl false (length (text i) / size) c.cbc_prev (text i)).0)
            ∙ ap (λ k. output (blocks block impl false k c.cbc_prev (c.pending ++ filling)).0)
                number) in
      let whole_text : total ++ filling ≡ f.head ++ (c.pending ++ filling) =
        (λ i. f.total_is i ++ filling) ∙ append_assoc f.head c.pending filling in
      (
        out ++ last.0,
        (
          ap (ahead out) given,
          record {
            pad = pad;
            count = f.count + q;
            short = fits;
            whole =
                ap length whole_text
                ∙ omega (
                  arith,
                  length-append f.head (c.pending ++ filling),
                  f.head_length,
                  text_length,
                  add-mul f.count q size,
                  suc-mul q size,
                  suc-mul (f.count + q) size,
                );
            out_is = sym (
                ap (λ t. (blocks block impl false (suc (f.count + q)) iv t).0) whole_text
                ∙ ap (λ p. p.0)
                    (blocks-append block impl false f.count (suc q) (suc (f.count + q)) iv f.head
                      (c.pending ++ filling) (omega arith) f.head_length)
                ∙ (λ i.
                    (f.state i).0
                    ++ (blocks block impl false (suc q) (f.state i).1 (c.pending ++ filling)).0));
          },
        ),
      )

  -- How a decipher has cut a text of whole blocks: what it has given, and what it has kept.
  record Undone (iv text out : Bytes) (c : CipherCtx) : Type 0 where
    kept : Bytes
    left : ℕ
    some_left : 0 < left
    splits : text ≡ out ++ kept
    kept_length : length kept ≡ left * size
    pending_length : length c.pending ≡ left * size
    last_blocks : (blocks block impl true left c.cbc_prev c.pending).0 ≡ kept

  sealed-Undone :
      (iv text out : Bytes) (count : ℕ) (c : CipherCtx)
      → IsBlock size iv
      → All IsByte text
      → length text ≡ suc count * size
      → Fed block impl true true positive iv (blocks block impl false (suc count) iv text).0 out c
      → Undone iv text out c
  sealed-Undone iv text out count c h bytes whole f =
      let sealed = blocks block impl false (suc count) iv text in
      let all = blocks-Reversed block impl (suc count) iv text h whole bytes in
      let lengths : f.count * size + length c.pending ≡ suc count * size = omega (
        arith,
        sym (ap length f.total_is) ∙ all.same_length,
        length-append f.head c.pending,
        f.head_length,
      ) in
      let (left, (sum, pending_length)) =
        more_blocks size f.count (suc count) (length c.pending) positive lengths in
      let first = take (f.count * size) text in
      let second = drop (f.count * size) text in
      let first_length : length first ≡ f.count * size =
        omega (arith, length-take (f.count * size) text, whole, lengths) in
      let second_length : length second ≡ left * size =
        omega (arith, length-drop (f.count * size) text, whole, lengths, pending_length) in
      let r =
        blocks-Reversed block impl f.count iv first h first_length
          (All-take IsByte (f.count * size) text bytes) in
      let one = blocks block impl false f.count iv first in
      let two = blocks block impl false left one.1 second in
      let s =
        blocks-Reversed block impl left one.1 second r.state-IsBlock second_length
          (All-drop IsByte (f.count * size) text bytes) in
      let parts : f.head ++ c.pending ≡ one.0 ++ two.0 =
        sym f.total_is
        ∙ ap (λ t. (blocks block impl false (suc count) iv t).0)
            (sym (take-append-drop (f.count * size) text))
        ∙ ap (λ p. p.0)
            (blocks-append block impl false f.count left (suc count) iv first second sum
              first_length) in
      let (same_head, same_pending) =
        same_parts f.head c.pending one.0 two.0 parts (f.head_length ∙ sym r.same_length) in
      let state : (out, c.cbc_prev) ≡ (first, one.1) =
        sym f.state ∙ ap (blocks block impl true f.count iv) same_head ∙ r.again in
      record {
        kept = second;
        left = left;
        some_left =
            some_more f.count count left size (length c.pending) sum pending_length (f.held refl);
        splits =
            sym (take-append-drop (f.count * size) text)
            ∙ ap (λ x. x ++ second) (sym (ap (λ p. p.0) state));
        kept_length = second_length;
        pending_length = pending_length;
        last_blocks =
            (λ i. (blocks block impl true left (state i).1 (same_pending i)).0)
            ∙ ap (λ p. p.0) s.again;
      }

  final_decrypt-output :
      (iv text sealed out : Bytes) (c : CipherCtx)
      → IsBlock size iv
      → All IsByte text
      → Padded iv text sealed
      → Fed block impl true true positive iv sealed out c
      → ahead out (final block impl true true c) ≡ output text
  unfolding final final_decrypt final_blocks
  final_decrypt-output iv text sealed out c h bytes p f =
      let filling = replicate (suc p.pad) (suc p.pad) in
      let all_bytes =
        All-append IsByte text filling bytes
          (replicate-IsByte (suc p.pad) (suc p.pad) (omega (arith, p.short, small))) in
      let u =
        sealed-Undone iv (text ++ filling) out p.count c h all_bytes p.whole
          (subst (λ t. Fed block impl true true positive iv t out c) p.out_is f) in
      let wide : size ≤ u.left * size = le-mul u.left size u.some_left in
      let (t, (is_text, is_kept)) = append-cut out u.kept text filling (sym u.splits) (
        omega (
          arith,
          ap length u.splits,
          length-append text filling,
          length-append out u.kept,
          length-replicate (suc p.pad) (suc p.pad),
          u.kept_length,
          wide,
          p.short,
        )) in
      let whole : length c.pending % size ≡ 0 =
        ap (λ k. k % size) u.pending_length ∙ mul-mod_left u.left size in
      let number : length c.pending / size ≡ u.left =
        ap (λ k. k / size) u.pending_length ∙ mul-div_cancel u.left positive in
      let given : final block impl true true c ≡ output t =
        if-false c.finalized unsupported_state (final_decrypt block impl true true c) (output t)
          f.still_open
          (if-false (not (length c.pending % size == 0) || length c.pending == 0)
            wrong_final_block_length _ _ (ground (arith, whole, u.pending_length, wide, positive))
            (ap (λ k. take_padding size (blocks block impl true k c.cbc_prev c.pending).0) number
              ∙ ap (take_padding size) (u.last_blocks ∙ is_kept)
              ∙ take_padding-replicate size p.pad t p.short)) in
      ap (ahead out) given ∙ ap output (sym is_text)

  encrypted :
      (iv : Bytes) (chunks : List Bytes)
      → (sealed : Bytes) × ((crypt block impl false true (fresh iv) chunks ≡ output sealed)
          × Padded iv (concat chunks) sealed)
  encrypted iv chunks =
      let e =
        crypt-Crypted block impl false true positive iv [] [] chunks (fresh iv)
          (fresh-Fed block impl false true positive iv) in
      let (sealed, (given, p)) =
        final_encrypt-Padded iv (concat chunks) e.last_out e.last_state e.fed in
      (
        sealed,
        (plain_outcome (crypt block impl false true (fresh iv) chunks) ∙ e.outcome ∙ given, p),
      )

  -- A cipher with padding never fails, in whatever chunks a text of bytes is written: it gives whole
  -- blocks, more bytes than the text has, and at most a block more; in CBC and in ECB, with blocks of
  -- fewer than 256 bytes.
  pub crypt-encrypts :
      (iv : Bytes) (chunks : List Bytes)
      → IsBlock size iv
      → All IsByte (concat chunks)
      → (sealed : Bytes) × ((crypt block impl false true (fresh iv) chunks ≡ output sealed)
          × ((length sealed % size ≡ 0)
              × ((length (concat chunks) < length sealed)
                  × (length sealed ≤ length (concat chunks) + size))))
  crypt-encrypts iv chunks h bytes =
      let (sealed, (given, p)) = encrypted iv chunks in
      let filling = replicate (suc p.pad) (suc p.pad) in
      let all_bytes =
        All-append IsByte (concat chunks) filling bytes
          (replicate-IsByte (suc p.pad) (suc p.pad) (omega (arith, p.short, small))) in
      let r =
        blocks-Reversed block impl (suc p.count) iv (concat chunks ++ filling) h p.whole
          all_bytes in
      let size_is : length sealed ≡ suc p.count * size = ap length p.out_is ∙ r.same_length in
      let sum : length (concat chunks) + suc p.pad ≡ suc p.count * size = omega (
        arith,
        p.whole,
        length-append (concat chunks) filling,
        length-replicate (suc p.pad) (suc p.pad),
      ) in
      (
        sealed,
        (
          given,
          (
            ap (λ k. k % size) size_is ∙ mul-mod_left (suc p.count) size,
            (omega (arith, size_is, sum), omega (arith, size_is, sum, p.short)),
          ),
        ),
      )

  -- What a cipher with padding gives for a text of bytes, in whatever chunks it is written, a decipher
  -- with the same key and initial vector turns into the text again, in whatever chunks it comes; in
  -- CBC and in ECB, with blocks of fewer than 256 bytes.
  pub crypt-crypt :
      (iv : Bytes) (chunks pieces : List Bytes)
      → IsBlock size iv
      → All IsByte (concat chunks)
      → crypt block impl false true (fresh iv) chunks ≡ output (concat pieces)
      → crypt block impl true true (fresh iv) pieces ≡ output (concat chunks)
  crypt-crypt iv chunks pieces h bytes k =
      let (sealed, (given, p)) = encrypted iv chunks in
      let same : sealed ≡ concat pieces = output-injective sealed (concat pieces) (sym given ∙ k) in
      let d =
        crypt-Crypted block impl true true positive iv [] [] pieces (fresh iv)
          (fresh-Fed block impl true true positive iv) in
      plain_outcome (crypt block impl true true (fresh iv) pieces)
      ∙ d.outcome
      ∙ final_decrypt-output iv (concat chunks) (concat pieces) d.last_out d.last_state h bytes
          (subst (Padded iv (concat chunks)) same p) d.fed

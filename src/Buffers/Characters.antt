-- ===== src/Buffers/Characters.antt =====
-- The decoder of UTF-8 gives whole characters, however a text is cut.
use mathlib.Core.Path.{subst}
use mathlib.Core.List.{reverse, reverse-append, reverse-cons}
use noderati.Prelude.{
  ℕ, zero, suc, ◌+◌, ◌-◌, ◌≤◌, ◌<◌, ◌≡◌, inl, inr, refl, ap, sym, ◌∙◌, some, List, [], ◌∷◌, ◌++◌,
  length, concat, arith, append_assoc, length-append, if◌then◌else◌, ltb, All, dec_lt, append-nil,
  take, drop, take-length, drop-length,
}
use noderati.Prelude.Strings.{Bytes}
use noderati.Prelude.Words.{length-reverse, All-reverse}
use noderati.Buffers.Encoding.{utf8, encode_buffer_bytes}
use noderati.Buffers.Decoder.{
  StringDecoder, no_lead, whole, truncated, found_at, look_back, hold, utf8_incomplete, split_end,
  utf8_split_incomplete, parts_of, process, write, write_all,
}
use noderati.Buffers.Utf8.{
  sequence_length, IsFollow, IsChar, IsText, IsStart, sequence_length-le, Cut, text-Cut, text_end,
}
use noderati.Buffers.LeadBytes.{lead_len}

module _ (b need : ℕ) (first : sequence_length b ≡ some (suc need)) where
  -- The loop stops at a byte that begins a character.
  look_back-follow :
      (limit back : ℕ) (fs w : Bytes)
      → All IsFollow fs
      → length fs < limit
      → look_back limit back (fs ++ b ∷ w)
        ≡ (if ltb (back + length fs) (suc need) then truncated (back + length fs) else whole)
  unfolding look_back found_at
  look_back-follow zero back fs w h k = absurd (omega (arith, k))
  look_back-follow (suc limit) back [] w h k =
      ap (λ o. found_at back o (look_back limit (back + 1) w)) (lead_len b (suc need) first)
      ∙ ap (λ n. if ltb n (suc need) then truncated n else whole) (omega arith)
  look_back-follow (suc limit) back (f ∷ fs) w h k =
      ap (λ o. found_at back o (look_back limit (back + 1) (fs ++ b ∷ w))) (lead_len f 0 h.0)
      ∙ look_back-follow limit (back + 1) fs w h.1 (omega (arith, k))
      ∙ ap (λ n. if ltb n (suc need) then truncated n else whole) (omega arith)

look_back-follows :
    (limit back : ℕ) (fs w : Bytes)
    → All IsFollow fs
    → limit ≤ length fs
    → look_back limit back (fs ++ w) ≡ no_lead
unfolding look_back found_at
look_back-follows zero back fs w h k = refl
look_back-follows (suc limit) back [] w h k = absurd (omega (arith, k))
look_back-follows (suc limit) back (f ∷ fs) w h k =
    ap (λ o. found_at back o (look_back limit (back + 1) (fs ++ w))) (lead_len f 0 h.0)
    ∙ look_back-follows limit (back + 1) fs w h.1 (omega (arith, k))

reverse-last : (t q : Bytes) (b : ℕ) → reverse (t ++ b ∷ q) ≡ reverse q ++ b ∷ reverse t
reverse-last t q b =
    reverse-append t (b ∷ q)
    ∙ ap (λ r. r ++ reverse t) (reverse-cons b q)
    ∙ append_assoc (reverse q) (b ∷ []) (reverse t)

utf8_incomplete-start :
    (t p : Bytes) → IsStart p → 0 < length p → utf8_incomplete (t ++ p) ≡ length p
unfolding utf8_incomplete hold
utf8_incomplete-start t [] h k = absurd (omega (arith, k))
utf8_incomplete-start t (b ∷ q) (need, (first, (short, rest))) k =
    let bound : suc need ≤ 4 = sequence_length-le b (suc need) first in
    let size : length (reverse q) ≡ length q = length-reverse q in
    ap (λ s. hold (length (t ++ b ∷ q)) (look_back 3 1 s)) (reverse-last t q b)
    ∙ ap (hold (length (t ++ b ∷ q))) (
        look_back-follow b need first 3 1 (reverse q) (reverse t) (All-reverse IsFollow q rest)
          (omega (arith, size, short, bound))
        ∙ ap (λ n. if ltb (1 + n) (suc need) then truncated (1 + n) else whole) size)
    ∙ ground (arith, short)

utf8_incomplete-char : (t c : Bytes) → IsChar c → utf8_incomplete (t ++ c) ≡ 0
unfolding utf8_incomplete hold
utf8_incomplete-char t [] h = cc
utf8_incomplete-char t (b ∷ q) (first, rest) =
    let size : length (reverse q) ≡ length q = length-reverse q in
    let follow = All-reverse IsFollow q rest in
    ap (λ s. hold (length (t ++ b ∷ q)) (look_back 3 1 s)) (reverse-last t q b)
    ∙ elim (dec_lt (length q) 3) [
      | yes short ↦
          ap (hold (length (t ++ b ∷ q))) (
            look_back-follow b (length q) first 3 1 (reverse q) (reverse t) follow
              (omega (arith, size, short))
            ∙ ap (λ n. if ltb (1 + n) (suc (length q)) then truncated (1 + n) else whole) size)
          ∙ ground arith
      | no long ↦
          ap (hold (length (t ++ b ∷ q)))
            (look_back-follows 3 1 (reverse q) (b ∷ reverse t) follow (omega (arith, size, long)))
          ∙ (let wide : 3 ≤ length (t ++ b ∷ q) = omega (arith, length-append t (b ∷ q), long) in
              ground (arith, wide))
    ]

utf8_incomplete-nil : utf8_incomplete [] ≡ 0
unfolding utf8_incomplete hold look_back
utf8_incomplete-nil = refl

utf8_incomplete-text : (chars : List Bytes) → All IsChar chars → utf8_incomplete (concat chars) ≡ 0
utf8_incomplete-text chars h = elim (text_end chars h) [
  | inl e ↦ ap utf8_incomplete e ∙ utf8_incomplete-nil
  | inr (t, (c, (k, e))) ↦ ap utf8_incomplete e ∙ utf8_incomplete-char t c k
]

-- What is held back is the character that has begun.
utf8_incomplete-Cut :
    (chars : List Bytes) (p : Bytes)
    → All IsChar chars
    → IsStart p
    → utf8_incomplete (concat chars ++ p) ≡ length p
utf8_incomplete-Cut chars [] h k =
    ap utf8_incomplete (append-nil (concat chars)) ∙ utf8_incomplete-text chars h
utf8_incomplete-Cut chars (b ∷ q) h k = utf8_incomplete-start (concat chars) (b ∷ q) k (omega arith)

split_end-exact : (t p : Bytes) → split_end (length p) (t ++ p) ≡ (t, p)
unfolding split_end
split_end-exact t p =
    let e : length (t ++ p) - length p ≡ length t = omega (arith, length-append t p) in
    λ i. (
      (ap (λ n. take n (t ++ p)) e ∙ take-length t p) i,
      (ap (λ n. drop n (t ++ p)) e ∙ drop-length t p) i,
    )

utf8_split_incomplete-Cut :
    (s r : Bytes) → (c : Cut s r) → utf8_split_incomplete s ≡ (concat c.chars, c.start)
unfolding utf8_split_incomplete
utf8_split_incomplete-Cut s r c =
    ap utf8_split_incomplete c.splits
    ∙ ap (λ n. split_end n (concat c.chars ++ c.start))
        (utf8_incomplete-Cut c.chars c.start c.chars-IsChar c.start-IsStart)
    ∙ split_end-exact (concat c.chars) c.start

-- What a decoder of UTF-8 has given and what it keeps, if `rest` is still to come.
pub record Decoded (d : StringDecoder) (texts : List Bytes) (rest : Bytes) : Type 0 where
  pub texts-IsText : All IsText texts
  pub rest-IsText : IsText (d.pending ++ rest)
  pub pending-IsStart : IsStart d.pending

write-encoding : (d : StringDecoder) (chunk : Bytes) → (write d chunk).0.encoding ≡ d.encoding
unfolding write process
write-encoding d chunk = refl

write-text :
    (d : StringDecoder) (chunk rest : Bytes)
    → d.encoding ≡ utf8
    → IsText (d.pending ++ (chunk ++ rest))
    → Decoded (write d chunk).0 ((write d chunk).1 ∷ []) rest
unfolding write process parts_of encode_buffer_bytes
write-text d chunk rest e (chars, (h, k)) =
    let c = text-Cut chars (d.pending ++ chunk) rest h (append_assoc d.pending chunk rest ∙ k) in
    let f : parts_of d.encoding (d.pending ++ chunk) ≡ (concat c.chars, c.start) =
      ap (λ x. parts_of x (d.pending ++ chunk)) e
      ∙ utf8_split_incomplete-Cut (d.pending ++ chunk) rest c in
    let g : encode_buffer_bytes d.encoding (parts_of d.encoding (d.pending ++ chunk)).0
        ≡ concat c.chars =
      λ i. encode_buffer_bytes (e i) (f i).0 in
    record {
      texts-IsText = ((c.chars, (c.chars-IsChar, g)), tt);
      rest-IsText = subst (λ p. IsText (p ++ rest)) (λ i. (sym f i).1) c.rest-IsText;
      pending-IsStart = subst IsStart (λ i. (sym f i).1) c.start-IsStart;
    }

write_all-text :
    (d : StringDecoder) (chunks : List Bytes) (rest : Bytes)
    → d.encoding ≡ utf8
    → IsText (d.pending ++ (concat chunks ++ rest))
    → IsStart d.pending
    → Decoded (write_all d chunks).0 (write_all d chunks).1 rest
unfolding write_all
write_all-text d [] rest e h k = record { texts-IsText = tt; rest-IsText = h; pending-IsStart = k }
write_all-text d (c ∷ cs) rest e h k =
    let first =
      write-text d c (concat cs ++ rest) e
        (subst (λ t. IsText (d.pending ++ t)) (append_assoc c (concat cs) rest) h) in
    let others =
      write_all-text (write d c).0 cs rest (write-encoding d c ∙ e) first.rest-IsText
        first.pending-IsStart in
    record {
      texts-IsText = (first.texts-IsText.0, others.texts-IsText);
      rest-IsText = others.rest-IsText;
      pending-IsStart = others.pending-IsStart;
    }

-- Whatever chunks a text of whole characters arrives in, and however much of it is still to come:
-- each write of a UTF-8 decoder gives whole characters, and what it keeps is the start of the
-- character that the next chunk continues.
pub write_all-Decoded :
    (d : StringDecoder) (chunks : List Bytes) (rest : Bytes)
    → d.encoding ≡ utf8
    → d.pending ≡ []
    → IsText (concat chunks ++ rest)
    → Decoded (write_all d chunks).0 (write_all d chunks).1 rest
write_all-Decoded d chunks rest e none_yet h =
    write_all-text d chunks rest e
      (subst (λ p. IsText (p ++ (concat chunks ++ rest))) (sym none_yet) h)
      (subst IsStart (sym none_yet) tt)

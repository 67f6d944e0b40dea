-- ===== src/Buffers/Utf8.antt =====
-- UTF-8 text as a sequence of characters, and how a part of it ends.
use mathlib.Core.Path.{subst}
use noderati.Prelude.{
  ℕ, suc, ◌≤◌, ◌<◌, ◌≡◌, ◌⊎◌, inl, inr, refl, ap, sym, ◌∙◌, true, false, Option, none, some, List,
  [], ◌∷◌, ◌++◌, length, concat, arith, append_assoc, if◌then◌else◌, ltb, All, dec_lt, append-nil,
  append-cut,
}
use noderati.Prelude.Strings.{Bytes}

-- By its value: the length of the sequence that a byte begins, 0 in the midst of one.
unfoldable pub sequence_length : ℕ → Option ℕ
sequence_length b =
    if ltb b 128
    then some 1
    else if ltb b 192
    then some 0
    else if ltb b 224
    then some 2
    else if ltb b 240
    then some 3
    else if ltb b 248
    then some 4
    else none

abbrev pub IsFollow : ℕ → Type 0
IsFollow b = sequence_length b ≡ some 0

-- One character: a first byte and as many others as it says.
abbrev pub IsChar : Bytes → Type 0
IsChar [] = true ≡ false
IsChar (b ∷ s) = (sequence_length b ≡ some (suc (length s))) × All IsFollow s

-- Any number of characters.
abbrev pub IsText : Bytes → Type 0
IsText s = (chars : List Bytes) × (All IsChar chars × (s ≡ concat chars))

-- Nothing, or a character without some of its last bytes.
abbrev pub IsStart : Bytes → Type 0
IsStart [] = Unit
IsStart (b ∷ s) =
    (need : ℕ) × ((sequence_length b ≡ some (suc need)) × ((length s < need) × All IsFollow s))

pub sequence_length-le : (b n : ℕ) → sequence_length b ≡ some n → n ≤ 4
unfolding sequence_length
sequence_length-le b n h = ground arith

-- The start of a character is less than a character.
length-IsStart : (s : Bytes) → IsStart s → length s ≤ 3
length-IsStart [] h = omega arith
length-IsStart (b ∷ s) (need, (first, (short, rest))) =
    omega (arith, sequence_length-le b (suc need) first, short)

All-prefix : (s t : Bytes) → All IsFollow (s ++ t) → All IsFollow s
All-prefix [] t h = tt
All-prefix (c ∷ s) t h = (h.0, All-prefix s t h.1)

char-IsStart : (s t : Bytes) → IsChar (s ++ t) → length s < length (s ++ t) → IsStart s
char-IsStart [] t h k = tt
char-IsStart (b ∷ s) t h k = (length (s ++ t), (h.0, (omega (arith, k), All-prefix s t h.1)))

-- A text cut anywhere: whole characters, and the start of the one that is cut.
pub record Cut (s r : Bytes) : Type 0 where
  pub chars : List Bytes
  pub start : Bytes
  pub chars-IsChar : All IsChar chars
  pub start-IsStart : IsStart start
  pub rest-IsText : IsText (start ++ r)
  pub splits : s ≡ concat chars ++ start

pub text-Cut :
    (chars : List Bytes) (s r : Bytes) → All IsChar chars → s ++ r ≡ concat chars → Cut s r
text-Cut [] [] r h e = record {
  chars = [];
  start = [];
  chars-IsChar = tt;
  start-IsStart = tt;
  rest-IsText = ([], (tt, e));
  splits = refl;
}
text-Cut [] (b ∷ s) r h e = cc
text-Cut (c ∷ cs) s r h e = elim (dec_lt (length s) (length c)) [
  | yes short ↦
      let (t, (f, g)) = append-cut s r c (concat cs) e (omega (arith, short)) in
      record {
        chars = [];
        start = s;
        chars-IsChar = tt;
        start-IsStart =
            char-IsStart s t (subst IsChar f h.0) (subst (λ k. length s < length k) f short);
        rest-IsText = (c ∷ cs, (h, e));
        splits = refl;
      }
  | no long ↦
      let (t, (f, g)) = append-cut c (concat cs) s r (sym e) (omega (arith, long)) in
      let u = text-Cut cs t r h.1 (sym g) in
      record {
        chars = c ∷ u.chars;
        start = u.start;
        chars-IsChar = (h.0, u.chars-IsChar);
        start-IsStart = u.start-IsStart;
        rest-IsText = u.rest-IsText;
        splits = f ∙ ap (λ k. c ++ k) u.splits ∙ sym (append_assoc c (concat u.chars) u.start);
      }
]

-- A text that is not empty ends in a character.
pub text_end :
    (chars : List Bytes)
    → All IsChar chars
    → (concat chars ≡ []) ⊎ ((t : Bytes) × ((c : Bytes) × (IsChar c × (concat chars ≡ t ++ c))))
text_end [] h = inl refl
text_end (c ∷ cs) h = elim (text_end cs h.1) [
  | inl none_left ↦ inr ([], (c, (h.0, ap (λ k. c ++ k) none_left ∙ append-nil c)))
  | inr (t, (d, (k, e))) ↦ inr (c ++ t, (d, (k, ap (λ r. c ++ r) e ∙ sym (append_assoc c t d))))
]

-- ===== src/Glob/NonAscii.antt =====
-- What globSegmentRegexp makes of bytes that are not ASCII.
use noderati.Prelude.{
  &&_iff, ltb→lt, if-false, ℕ, ◌+◌, ◌/◌, ◌%◌, ◌≤◌, ◌<◌, Bool, true, false, ◌&&◌, ◌||◌, List, [],
  ◌∷◌, ◌++◌, ltb, ◌==◌, ◌≡◌, refl, ap, ◌∙◌, arith,
}
use noderati.Prelude.Strings.{Bytes, codes, contains_byte}
use noderati.Glob.Segment.{opens_group, quote_char, piece, Piece, translate}

-- `c == b` for the byte `b` of an ASCII character
apart : (c b : ℕ) → 128 ≤ c → b < 128 → (c == b) ≡ false
apart c b h k = ground arith

all_ascii : Bytes → Bool
all_ascii [] = true
all_ascii (b ∷ s) = ltb b 128 && all_ascii s

contains_byte-high : (c : ℕ) (s : Bytes) → 128 ≤ c → all_ascii s ≡ true → contains_byte c s ≡ false
unfolding contains_byte all_ascii
contains_byte-high c [] h k = refl
contains_byte-high c (b ∷ s) h k =
    let both = (&&_iff (ltb b 128) (all_ascii s)).0 k in
    let differ : (b == c) ≡ false = ground (arith, ltb→lt b 128 both.0) in
    ap (λ x. x || contains_byte c s) differ ∙ contains_byte-high c s h both.1

and-false : (b : Bool) → (b && false) ≡ false
and-false true = refl
and-false false = refl

opens_group-high : (c : ℕ) (s : Bytes) → 128 ≤ c → opens_group c s ≡ false
unfolding opens_group all_ascii
opens_group-high c [] h = refl
opens_group-high c (d ∷ s) h =
    ap (λ x. d == b'(' && x) (contains_byte-high c (codes "@?+*") h refl) ∙ and-false (d == b'(')

high_not_low : (c : ℕ) → 128 ≤ c → ltb c 128 ≡ false
high_not_low c h = ground arith

-- The two bytes of the character with this code.
abbrev pub two_bytes : ℕ → Bytes
two_bytes c = (192 + c / 64) ∷ (128 + c % 64) ∷ []

quote_char-high : (c : ℕ) → 128 ≤ c → quote_char c ≡ two_bytes c
unfolding quote_char all_ascii
quote_char-high c h =
    if-false (contains_byte c (codes "\\.+*?()|[]{}^$")) _ _ _
      (contains_byte-high c (codes "\\.+*?()|[]{}^$") h refl)
      (if-false (ltb c 128) _ _ _ (high_not_low c h) refl)

abbrev plain : Bytes → List ℕ → Piece
plain t stack = record { text = t; skip = 0; stack = stack }

piece-high :
    (c : ℕ) (s : Bytes) (stack : List ℕ) → 128 ≤ c → piece c s stack ≡ plain (two_bytes c) stack
unfolding piece
piece-high c s stack h = if-false (opens_group c s) _ _ _ (opens_group-high c s h) (
    if-false (c == b'\\') _ _ _ (apart c b'\\' h (omega arith)) (
      if-false (c == b'*') _ _ _ (apart c b'*' h (omega arith)) (
        if-false (c == b'?') _ _ _ (apart c b'?' h (omega arith)) (
          if-false (c == b'|') _ _ _ (apart c b'|' h (omega arith)) (
            if-false (c == b')') _ _ _ (apart c b')' h (omega arith)) (
              if-false (c == b'[') _ _ _ (apart c b'[' h (omega arith))
                (ap (λ t. plain t stack) (quote_char-high c h))))))))

translate-piece :
    (c : ℕ) (s : Bytes) (stack : List ℕ) (t : Bytes)
    → piece c s stack ≡ plain t stack
    → translate 0 stack (c ∷ s) ≡ t ++ translate 0 stack s
unfolding translate
translate-piece c s stack t h = ap (λ p. p.text ++ translate p.skip p.stack s) h

unfoldable pub doubled : Bytes → Bytes
doubled [] = []
doubled (c ∷ s) = two_bytes c ++ doubled s

unfoldable pub AllHigh : Bytes → Type 0
AllHigh [] = Unit
AllHigh (c ∷ s) = (128 ≤ c) × AllHigh s

-- A byte that is not ASCII, which is a part of a character in UTF-8, is taken for the character with
-- its code: a run of such bytes is translated to two bytes for each, behind any groups that are
-- open, so that the regular expression asks for other characters than the segment has.
pub translate-doubled :
    (run : Bytes) (s : Bytes) (stack : List ℕ)
    → AllHigh run
    → translate 0 stack (run ++ s) ≡ doubled run ++ translate 0 stack s
unfolding AllHigh doubled
translate-doubled [] s stack h = refl
translate-doubled (c ∷ run) s stack h =
    translate-piece c (run ++ s) stack (two_bytes c) (piece-high c (run ++ s) stack h.0)
    ∙ ap (λ t. two_bytes c ++ t) (translate-doubled run s stack h.1)

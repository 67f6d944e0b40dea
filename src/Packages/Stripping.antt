-- ===== src/Packages/Stripping.antt =====
-- stripCommentsAndStringsForESMDetection of internal/host/nodemodules.go, on runes.
use noderati.Prelude.{
  ℕ, Bool, true, false, ◌&&◌, ◌||◌, [], ◌∷◌, ◌++◌, if◌then◌else◌, ◌==◌, ◌≡◌, refl,
}
use noderati.Prelude.Strings.{Bytes}

-- Where the scan stands: between tokens, in a line comment, behind the "/" of "/*", in a block comment,
-- behind the "*" of "*/", in a literal with its quotation mark, and behind a backslash in one.
pub data Place : Type 0 where
  code in_line opening in_block closing : Place
  quoted escaped : ℕ → Place

abbrev pub head_is : ℕ → Bytes → Bool
head_is c [] = false
head_is c (d ∷ s) = d == c

abbrev pub is_quote : ℕ → Bool
is_quote c = c == b'\'' || (c == b'"' || c == b'`')

-- What is written for the rune `c` with `s` behind it, and the place behind it.
unfoldable pub strip_step : ℕ → Bytes → Place → Bytes × Place
strip_step c s code =
    if c == b'/' && head_is b'/' s
    then ([], in_line)
    else if c == b'/' && head_is b'*' s
    then ([], opening)
    else if is_quote c
    then ([], quoted c)
    else (c ∷ [], code)
strip_step c s in_line = if c == 10 then (10 ∷ [], code) else ([], in_line)
strip_step c s opening = ([], in_block)
strip_step c s in_block = if c == b'*' && head_is b'/' s then ([], closing) else ([], in_block)
strip_step c s closing = ([], code)
strip_step c s (quoted q) =
    if c == q then ([], code) else if c == b'\\' then ([], escaped q) else ([], quoted q)
strip_step c s (escaped q) = ([], quoted q)

unfoldable pub strip_from : Place → Bytes → Bytes
unfolding strip_step
strip_from place [] = []
strip_from place (c ∷ s) = let r = strip_step c s place in r.0 ++ strip_from r.1 s

unfoldable pub strip : Bytes → Bytes
unfolding strip_from
strip source = strip_from code source

unfoldable pub NoQuotes : Bytes → Type 0
NoQuotes [] = Unit
NoQuotes (c ∷ s) = (is_quote c ≡ false) × NoQuotes s

NoQuotes-append : (s t : Bytes) → NoQuotes s → NoQuotes t → NoQuotes (s ++ t)
unfolding NoQuotes
NoQuotes-append [] t h k = k
NoQuotes-append (c ∷ s) t h k = (h.0, NoQuotes-append s t h.1 k)

if-written :
    (b : Bool) (x y : Bytes × Place)
    → NoQuotes x.0
    → (b ≡ false → NoQuotes y.0)
    → NoQuotes (if b then x else y).0
if-written true x y h k = h
if-written false x y h k = k refl

strip_step-NoQuotes : (c : ℕ) (s : Bytes) (place : Place) → NoQuotes (strip_step c s place).0
unfolding strip_step NoQuotes
strip_step-NoQuotes c s code = if-written (c == b'/' && head_is b'/' s) _ _ tt (λ _.
    if-written (c == b'/' && head_is b'*' s) _ _ tt
      (λ _. if-written (is_quote c) _ _ tt (λ e. (e, tt))))
strip_step-NoQuotes c s in_line = if-written (c == 10) _ _ (refl, tt) (λ _. tt)
strip_step-NoQuotes c s opening = tt
strip_step-NoQuotes c s in_block = if-written (c == b'*' && head_is b'/' s) _ _ tt (λ _. tt)
strip_step-NoQuotes c s closing = tt
strip_step-NoQuotes c s (quoted q) =
    if-written (c == q) _ _ tt (λ _. if-written (c == b'\\') _ _ tt (λ _. tt))
strip_step-NoQuotes c s (escaped q) = tt

strip_from-NoQuotes : (place : Place) (s : Bytes) → NoQuotes (strip_from place s)
unfolding strip_from NoQuotes
strip_from-NoQuotes place [] = tt
strip_from-NoQuotes place (c ∷ s) =
    let r = strip_step c s place in
    NoQuotes-append r.0 (strip_from r.1 s) (strip_step-NoQuotes c s place)
      (strip_from-NoQuotes r.1 s)

-- The text inside a literal: runes that are neither its quotation mark nor a backslash, and
-- backslashes with a rune behind each.
pub data IsLiteral (q : ℕ) : Bytes → Type 0 where
  empty : IsLiteral q []
  plain :
      {c : ℕ} {s : Bytes}
      → (c == q) ≡ false
      → (c == b'\\') ≡ false
      → IsLiteral q s
      → IsLiteral q (c ∷ s)
  escape : {c : ℕ} {s : Bytes} → IsLiteral q s → IsLiteral q (b'\\' ∷ c ∷ s)

-- The place behind a text.
unfoldable pub place_after : Place → Bytes → Place
unfolding strip_step
place_after place [] = place
place_after place (c ∷ s) = place_after (strip_step c s place).1 s

-- What is left of a source holds no quotation mark.
pub strip-NoQuotes : (source : Bytes) → NoQuotes (strip source)
unfolding strip
strip-NoQuotes source = strip_from-NoQuotes code source

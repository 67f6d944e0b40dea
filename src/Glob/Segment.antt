-- ===== src/Glob/Segment.antt =====
-- globHasMagic and globSegmentRegexp of internal/host/fs_glob.go: the text of the regular expression
-- for one segment of a pattern.
use noderati.Prelude.{
  ℕ, zero, suc, ◌+◌, ◌/◌, ◌%◌, Bool, true, false, ◌&&◌, ◌||◌, Option, none, some, List, [], ◌∷◌,
  ◌++◌, length, take, drop, replicate, if◌then◌else◌, ltb, ◌==◌, ◌≡◌, refl,
}
use noderati.Prelude.Strings.{Bytes, codes, contains_byte, has_prefix}
use noderati.Packages.Specifier.{contains}
use noderati.Ipc.Frames.{index_byte}

unfoldable pub has_magic : Bytes → Bool
unfolding contains contains_byte
has_magic seg =
    (contains_byte b'*' seg || (contains_byte b'?' seg || contains_byte b'[' seg))
    || (contains (codes "@(") seg || contains (codes "+(") seg)

-- `regexp.QuoteMeta(string(c))` of a byte: `string` makes the character with that code, in UTF-8.
unfoldable pub quote_char : ℕ → Bytes
unfolding contains_byte
quote_char c =
    if contains_byte c (codes "\\.+*?()|[]{}^$")
    then b'\\' ∷ c ∷ []
    else if ltb c 128
    then c ∷ []
    else (192 + c / 64) ∷ (128 + c % 64) ∷ []

-- `regexp.QuoteMeta(s)` of a string
unfoldable pub quote_meta : Bytes → Bytes
unfolding contains_byte
quote_meta [] = []
quote_meta (c ∷ s) =
    let rest = quote_meta s in
    if contains_byte c (codes "\\.+*?()|[]{}^$") then b'\\' ∷ c ∷ rest else c ∷ rest

-- What one round of the loop writes, how many bytes behind it are done with, and the stack after it.
pub record Piece : Type 0 where
  pub text : Bytes
  pub skip : ℕ
  pub stack : List ℕ

abbrev literal : Bytes → List ℕ → Piece
literal t stack = record { text = t; skip = 0; stack = stack }

-- A byte of "@?+*" before a parenthesis.
unfoldable pub opens_group : ℕ → Bytes → Bool
unfolding contains_byte
opens_group c [] = false
opens_group c (d ∷ s) = d == b'(' && contains_byte c (codes "@?+*")

abbrev suffix_of : ℕ → Bytes
suffix_of kind = if contains_byte kind (codes "?+*") then kind ∷ [] else []

unfoldable pub escape_piece : Bytes → List ℕ → Piece
unfolding quote_meta
escape_piece [] stack = literal [] stack
escape_piece (c ∷ s) stack = record { text = quote_meta (c ∷ []); skip = 1; stack = stack }

unfoldable pub close_piece : List ℕ → Piece
unfolding contains_byte
close_piece [] = literal (codes "\\)") []
close_piece (kind ∷ stack) = literal (codes ")" ++ suffix_of kind) stack

-- `strings.ReplaceAll(strings.ReplaceAll(class, "\\", "\\\\"), "[", "\\[")`
unfoldable pub class_text : Bytes → Bytes
class_text [] = []
class_text (c ∷ s) =
    let rest = class_text s in if c == b'\\' || c == b'[' then b'\\' ∷ c ∷ rest else c ∷ rest

unfoldable pub negated : Bytes → Bytes
unfolding class_text
negated class =
    if has_prefix (codes "!") class || has_prefix (codes "^") class
    then codes "^" ++ class_text (drop 1 class)
    else class_text class

abbrev class_piece : Bytes → ℕ → List ℕ → Piece
class_piece s end stack = record {
  text = codes "[" ++ (negated (take end s) ++ codes "]");
  skip = end + 1;
  stack = stack;
}

-- A class "[]…]" has its first bracket as a member; `second` is the index behind it.
abbrev bracket_first : Bytes → Option ℕ → List ℕ → Piece
bracket_first s none stack = class_piece s 0 stack
bracket_first s (some second) stack = class_piece s (second + 1) stack

abbrev bracket_at : Bytes → Option ℕ → List ℕ → Piece
bracket_at s none stack = literal (codes "\\[") stack
bracket_at s (some zero) stack = bracket_first s (index_byte b']' (drop 1 s)) stack
bracket_at s (some (suc end)) stack = class_piece s (suc end) stack

unfoldable pub bracket_piece : Bytes → List ℕ → Piece
unfolding index_byte negated has_prefix
bracket_piece s stack = bracket_at s (index_byte b']' s) stack

abbrev is_nil : List ℕ → Bool
is_nil [] = true
is_nil (c ∷ s) = false

-- One round, for the byte `c` with `s` behind it.
unfoldable pub piece : ℕ → Bytes → List ℕ → Piece
unfolding opens_group escape_piece close_piece bracket_piece quote_char
piece c s stack =
    if opens_group c s
    then record { text = codes "(?:"; skip = 1; stack = c ∷ stack }
    else if c == b'\\'
    then escape_piece s stack
    else if c == b'*'
    then literal (codes "[^/]*") stack
    else if c == b'?'
    then literal (codes "[^/]") stack
    else if c == b'|'
    then literal (if is_nil stack then codes "\\|" else codes "|") stack
    else if c == b')'
    then close_piece stack
    else if c == b'['
    then bracket_piece s stack
    else literal (quote_char c) stack

-- The loop from a byte on, the first `skip` bytes of which are done with, and what closes the groups
-- that are open at the end.
unfoldable pub translate : ℕ → List ℕ → Bytes → Bytes
unfolding piece
translate skip stack [] = replicate (length stack) b')'
translate (suc skip) stack (c ∷ s) = translate skip stack s
translate zero stack (c ∷ s) = let p = piece c s stack in p.text ++ translate p.skip p.stack s

-- `regexp.Compile` accepts these texts.
module _ (compiles : Bytes → Bool) where
  -- The text of the regular expression that globSegmentRegexp returns.
  unfoldable pub segment_regexp : Bytes → Bytes
  unfolding translate quote_meta
  segment_regexp seg =
      let text = codes "^" ++ (translate 0 [] seg ++ codes "$") in
      if compiles text then text else codes "^" ++ (quote_meta seg ++ codes "$")

translate_runs : translate 0 [] (codes "a@(b|c)[!x]*.d") ≡ codes "a(?:b|c)[^x][^/]*\\.d"
unfolding translate
translate_runs = refl

translate_bracket : translate 0 [] (codes "[]a]?(b") ≡ codes "[]a](?:b)"
unfolding translate
translate_bracket = refl

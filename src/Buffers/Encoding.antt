-- ===== src/Buffers/Encoding.antt =====
-- The encodings of internal/host/buffer.go: their names, and the text of bytes in each.
use noderati.Prelude.{
  ℕ, ◌+◌, ◌/◌, ◌%◌, ◌≡◌, refl, ap, true, false, ◌&&◌, ◌||◌, [], ◌∷◌, ◌++◌, if◌then◌else◌, ltb, leb,
  ◌==◌, map, length, append_assoc, ◌∙◌, sym,
}
use mathlib.Core.List.{reverse}
use noderati.Prelude.Strings.{Bytes, codes, beq}
use noderati.Buffers.Base64.{base64, hex, base64-append, hex-append}

-- `strings.ToLower` and `strings.TrimSpace` of an ASCII name
unfoldable pub lower : ℕ → ℕ
lower c = if leb 65 c && leb c 90 then c + 32 else c

unfoldable pub skip_spaces : Bytes → Bytes
skip_spaces [] = []
skip_spaces (c ∷ s) =
    let rest = skip_spaces s in if c == 32 || (leb 9 c && leb c 13) then rest else c ∷ s

unfoldable pub lower_name : Bytes → Bytes
unfolding lower skip_spaces
lower_name e = map lower (reverse (skip_spaces (reverse (skip_spaces e))))

-- The cases of the switches over a normalized name; what is none of these is treated as utf8.
pub data Encoding : Type 0 where
  utf8 : Encoding
  base64_std : Encoding
  base64_url : Encoding
  hexadecimal : Encoding
  latin1 : Encoding
  ascii : Encoding

unfoldable pub normalize_buffer_encoding : Bytes → Bytes
unfolding lower_name beq
normalize_buffer_encoding e =
    let name = lower_name e in
    if beq name (codes "utf-8")
    then codes "utf8"
    else if beq name (codes "ucs2")
        || (beq name (codes "ucs-2") || (beq name (codes "utf16le") || beq name (codes "utf-16le")))
    then codes "utf8"
    else name

unfoldable pub encoding_named : Bytes → Encoding
unfolding beq
encoding_named name =
    if beq name (codes "base64")
    then base64_std
    else if beq name (codes "base64url")
    then base64_url
    else if beq name (codes "hex")
    then hexadecimal
    else if beq name (codes "latin1") || beq name (codes "binary")
    then latin1
    else if beq name (codes "ascii")
    then ascii
    else utf8

-- `sb.WriteRune(rune(c))` for a byte
unfoldable pub write_rune : ℕ → Bytes
write_rune c = if ltb c 128 then c ∷ [] else (192 + c / 64) ∷ (128 + c % 64) ∷ []

unfoldable pub write_runes : Bytes → Bytes
unfolding write_rune
write_runes [] = []
write_runes (c ∷ s) = write_rune c ++ write_runes s

-- `b & 0x7f`
abbrev pub low_bits : ℕ → ℕ
low_bits b = b % 128

unfoldable pub encode_buffer_bytes : Encoding → Bytes → Bytes
unfolding base64 hex write_runes
encode_buffer_bytes utf8 bytes = bytes
encode_buffer_bytes base64_std bytes = base64 false bytes
encode_buffer_bytes base64_url bytes = base64 true bytes
encode_buffer_bytes hexadecimal bytes = hex bytes
encode_buffer_bytes latin1 bytes = write_runes bytes
encode_buffer_bytes ascii bytes = write_runes (map low_bits bytes)

pub write_runes-append : (s t : Bytes) → write_runes (s ++ t) ≡ write_runes s ++ write_runes t
unfolding write_runes
write_runes-append [] t = refl
write_runes-append (c ∷ s) t =
    ap (λ r. write_rune c ++ r) (write_runes-append s t)
    ∙ sym (append_assoc (write_rune c) (write_runes s) (write_runes t))

map-append : (f : ℕ → ℕ) (s t : Bytes) → map f (s ++ t) ≡ map f s ++ map f t
map-append f [] t = refl
map-append f (c ∷ s) t = ap (λ r. f c ∷ r) (map-append f s t)

-- The first of two texts can be encoded ahead of the second: in base64, if it is whole threes.
abbrev pub IsAligned : Encoding → Bytes → Type 0
IsAligned utf8 s = Unit
IsAligned base64_std s = length s % 3 ≡ 0
IsAligned base64_url s = length s % 3 ≡ 0
IsAligned hexadecimal s = Unit
IsAligned latin1 s = Unit
IsAligned ascii s = Unit

pub encode_buffer_bytes-append :
    (e : Encoding) (s t : Bytes)
    → IsAligned e s
    → encode_buffer_bytes e (s ++ t) ≡ encode_buffer_bytes e s ++ encode_buffer_bytes e t
unfolding encode_buffer_bytes
encode_buffer_bytes-append utf8 s t h = refl
encode_buffer_bytes-append base64_std s t h = base64-append false s t h
encode_buffer_bytes-append base64_url s t h = base64-append true s t h
encode_buffer_bytes-append hexadecimal s t h = hex-append s t
encode_buffer_bytes-append latin1 s t h = write_runes-append s t
encode_buffer_bytes-append ascii s t h =
    ap write_runes (map-append low_bits s t) ∙ write_runes-append (map low_bits s) (map low_bits t)

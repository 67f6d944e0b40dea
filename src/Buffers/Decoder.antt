-- ===== src/Buffers/Decoder.antt =====
-- The string decoder of internal/host/stringdecoder.go. A chunk stands for its bytes.
use Prim.Native.Nat.{bit_and}
use noderati.Prelude.{
  ℕ, zero, suc, ◌+◌, ◌-◌, ◌%◌, Bool, true, false, Option, none, some, List, [], ◌∷◌, ◌++◌,
  if◌then◌else◌, ltb, ◌==◌, length, take, drop,
}
use mathlib.Core.List.{reverse}
use noderati.Prelude.Strings.{Bytes}
use noderati.Buffers.Encoding.{
  Encoding, utf8, base64_std, base64_url, hexadecimal, latin1, ascii, normalize_buffer_encoding,
  encoding_named, encode_buffer_bytes,
}

pub record StringDecoder : Type 0 where
  pub encoding : Encoding
  pub pending : Bytes

-- `new StringDecoder(encoding?)`
unfoldable pub new_string_decoder : Option Bytes → StringDecoder
unfolding normalize_buffer_encoding encoding_named
new_string_decoder none = record { encoding = utf8; pending = [] }
new_string_decoder (some e) = record {
  encoding = encoding_named (normalize_buffer_encoding e);
  pending = [];
}

-- `none` is -1, a byte that is in no character.
unfoldable pub utf8_lead_len : ℕ → Option ℕ
utf8_lead_len b =
    if bit_and b 0x80 == 0
    then some 1
    else if bit_and b 0xE0 == 0xC0
    then some 2
    else if bit_and b 0xF0 == 0xE0
    then some 3
    else if bit_and b 0xF8 == 0xF0
    then some 4
    else if bit_and b 0xC0 == 0x80
    then some 0
    else none

-- What the loop finds of the last bytes.
pub data Found : Type 0 where
  no_lead : Found
  whole : Found
  truncated : ℕ → Found

-- One byte, `back` from the end, and the loop from there on.
unfoldable pub found_at : ℕ → Option ℕ → Found → Found
found_at back none rest = whole
found_at back (some zero) rest = rest
found_at back (some (suc need)) rest = if ltb back (suc need) then truncated back else whole

-- The loop: how many bytes it may still look at, `back`, and the bytes from `data[n-back]` downwards.
unfoldable pub look_back : ℕ → ℕ → Bytes → Found
unfolding found_at utf8_lead_len
look_back zero back s = no_lead
look_back (suc limit) back [] = no_lead
look_back (suc limit) back (lead ∷ s) =
    found_at back (utf8_lead_len lead) (look_back limit (back + 1) s)

-- How many bytes to hold back of so many.
unfoldable pub hold : ℕ → Found → ℕ
hold n no_lead = if ltb n 3 then n else 0
hold n whole = 0
hold n (truncated back) = back

unfoldable pub utf8_incomplete : Bytes → ℕ
unfolding look_back hold
utf8_incomplete bytes = hold (length bytes) (look_back 3 1 (reverse bytes))

unfoldable pub split_end : ℕ → Bytes → Bytes × Bytes
split_end keep bytes = let emit = length bytes - keep in (take emit bytes, drop emit bytes)

-- The complete bytes and the incomplete ones.
unfoldable pub utf8_split_incomplete : Bytes → Bytes × Bytes
unfolding utf8_incomplete split_end
utf8_split_incomplete bytes = split_end (utf8_incomplete bytes) bytes

-- What a write decodes, and what it leaves pending.
unfoldable pub parts_of : Encoding → Bytes → Bytes × Bytes
unfolding utf8_split_incomplete split_end
parts_of utf8 bytes = utf8_split_incomplete bytes
parts_of base64_std bytes = split_end (length bytes % 3) bytes
parts_of base64_url bytes = split_end (length bytes % 3) bytes
parts_of hexadecimal bytes = (bytes, [])
parts_of latin1 bytes = (bytes, [])
parts_of ascii bytes = (bytes, [])

unfoldable pub process : StringDecoder → Bytes → Bool → StringDecoder × Bytes
unfolding parts_of encode_buffer_bytes
process d chunk true =
    (record d { pending = [] }, encode_buffer_bytes d.encoding (d.pending ++ chunk))
process d chunk false =
    let p = parts_of d.encoding (d.pending ++ chunk) in
    (record d { pending = p.1 }, encode_buffer_bytes d.encoding p.0)

unfoldable pub write : StringDecoder → Bytes → StringDecoder × Bytes
unfolding process
write d chunk = process d chunk false

-- The last chunk may be left out.
unfoldable pub end : StringDecoder → Option Bytes → StringDecoder × Bytes
unfolding process
end d none = process d [] true
end d (some chunk) = process d chunk true

-- The decoder and the texts of successive writes.
unfoldable pub write_all : StringDecoder → List Bytes → StringDecoder × List Bytes
unfolding write
write_all d [] = (d, [])
write_all d (c ∷ cs) =
    let first = write d c in let rest = write_all first.0 cs in (rest.0, first.1 ∷ rest.1)

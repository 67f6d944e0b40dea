-- ===== src/Buffers/Tests.antt =====
-- The theorems on buffers at concrete chunks, numbers and buffers.
use noderati.Prelude.{
  ◌≡◌, refl, true, false, none, some, List, [], ◌∷◌, ◌++◌, ◌-◌, arith, length, take, drop, concat,
}
use noderati.Prelude.Strings.{Bytes, codes}
use noderati.Buffers.Encoding.{encode_buffer_bytes}
use noderati.Buffers.Decoder.{StringDecoder, new_string_decoder, end, write_all, process}
use noderati.Buffers.Chunks.{write_all-encode}
use noderati.Buffers.Utf8.{sequence_length}
use noderati.Buffers.Characters.{Decoded, write_all-Decoded}
use noderati.Buffers.Integers.{
  finite, natural, number, ok, read_int, write_int, read_int_of, write_int_of,
}
use noderati.Buffers.Numbers.{truncated_value}
use noderati.Buffers.InPlace.{write_int-read_int}

abbrev base64_decoder : StringDecoder
unfolding new_string_decoder
base64_decoder = new_string_decoder (some (codes " BASE64 "))

-- "Man" and "M" in base64, and the same in chunks of two bytes.
texts_lem : (write_all base64_decoder (codes "Ma" ∷ codes "nM" ∷ [])).1 ≡ [] ∷ codes "TWFu" ∷ []
unfolding write_all process base64_decoder
texts_lem = refl

last_text_lem :
    (end (write_all base64_decoder (codes "Ma" ∷ codes "nM" ∷ [])).0 none).1 ≡ codes "TQ=="
unfolding write_all process end base64_decoder
last_text_lem = refl

write_all-encode_example :
    concat (write_all base64_decoder (codes "Ma" ∷ codes "nM" ∷ [])).1
      ++ (end (write_all base64_decoder (codes "Ma" ∷ codes "nM" ∷ [])).0 (some [])).1
    ≡ encode_buffer_bytes base64_decoder.encoding
        (base64_decoder.pending ++ (concat (codes "Ma" ∷ codes "nM" ∷ []) ++ []))
write_all-encode_example = write_all-encode base64_decoder (codes "Ma" ∷ codes "nM" ∷ []) []

abbrev utf8_decoder : StringDecoder
unfolding new_string_decoder
utf8_decoder = new_string_decoder none

-- The euro sign, cut behind each of its bytes, between two letters.
abbrev cut_text : List Bytes
cut_text = (97 ∷ 226 ∷ []) ∷ (130 ∷ []) ∷ (172 ∷ 98 ∷ []) ∷ []

cut_text_lem :
    (write_all utf8_decoder cut_text).1 ≡ (97 ∷ []) ∷ [] ∷ (226 ∷ 130 ∷ 172 ∷ 98 ∷ []) ∷ []
unfolding write_all process utf8_decoder
cut_text_lem = refl

write_all-Decoded_example :
    Decoded (write_all utf8_decoder cut_text).0 (write_all utf8_decoder cut_text).1 (195 ∷ 164 ∷ [])
unfolding sequence_length utf8_decoder
write_all-Decoded_example = write_all-Decoded utf8_decoder cut_text (195 ∷ 164 ∷ []) refl refl (
  (97 ∷ []) ∷ (226 ∷ 130 ∷ 172 ∷ []) ∷ (98 ∷ []) ∷ (195 ∷ 164 ∷ []) ∷ [],
  (((refl, tt), ((refl, (refl, (refl, tt))), ((refl, tt), ((refl, (refl, tt)), tt)))), refl),
)

abbrev six_bytes : Bytes
six_bytes = 1 ∷ 2 ∷ 3 ∷ 4 ∷ 5 ∷ 6 ∷ []

abbrev written : Bytes
written = 1 ∷ 255 ∷ 255 ∷ 254 ∷ 5 ∷ 6 ∷ []

-- -2.5 is written as -2.
written_lem :
    write_int_of true false six_bytes (finite true 2 true) (number (natural 1)) (number (natural 3))
    ≡ ok (written, 4)
unfolding write_int_of
written_lem = refl

read_lem :
    read_int_of true false written (number (natural 1)) (number (natural 3))
    ≡ ok (finite true 2 false)
unfolding read_int_of
read_lem = refl

write_int-read_int_example :
    (read_int 3 true false written (number (natural 1)) ≡ ok (truncated_value (finite true 2 true)))
    × ((length written ≡ length six_bytes)
        × ((take (4 - 3) written ≡ take (4 - 3) six_bytes) × (drop 4 written ≡ drop 4 six_bytes)))
unfolding write_int
write_int-read_int_example =
    write_int-read_int 3 true false six_bytes (finite true 2 true) (number (natural 1)) written 4
      (omega arith, omega arith) refl

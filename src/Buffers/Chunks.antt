-- ===== src/Buffers/Chunks.antt =====
-- How a text is cut into chunks does not matter to the decoder.
use noderati.Prelude.{
  ℕ, ◌-◌, ◌%◌, ◌≡◌, refl, ap, sym, ◌∙◌, some, List, [], ◌∷◌, ◌++◌, length, concat, arith,
  take-append-drop, length-take, append_assoc, append-nil,
}
use noderati.Prelude.Strings.{Bytes}
use noderati.Buffers.Encoding.{
  Encoding, utf8, base64_std, base64_url, hexadecimal, latin1, ascii, encode_buffer_bytes,
  IsAligned, encode_buffer_bytes-append,
}
use noderati.Buffers.Decoder.{
  StringDecoder, split_end, utf8_split_incomplete, parts_of, process, write, end, write_all,
}

split_end-append : (k : ℕ) (bytes : Bytes) → (split_end k bytes).0 ++ (split_end k bytes).1 ≡ bytes
unfolding split_end
split_end-append k bytes = take-append-drop (length bytes - k) bytes

split_end-aligned : (bytes : Bytes) → length (split_end (length bytes % 3) bytes).0 % 3 ≡ 0
unfolding split_end
split_end-aligned bytes = omega (arith, length-take (length bytes - length bytes % 3) bytes)

-- What is decoded and what is pending is the bytes, and the first can be encoded ahead.
parts_of-append :
    (e : Encoding) (bytes : Bytes) → (parts_of e bytes).0 ++ (parts_of e bytes).1 ≡ bytes
unfolding parts_of utf8_split_incomplete
parts_of-append utf8 bytes = split_end-append _ bytes
parts_of-append base64_std bytes = split_end-append _ bytes
parts_of-append base64_url bytes = split_end-append _ bytes
parts_of-append hexadecimal bytes = append-nil bytes
parts_of-append latin1 bytes = append-nil bytes
parts_of-append ascii bytes = append-nil bytes

parts_of-IsAligned : (e : Encoding) (bytes : Bytes) → IsAligned e (parts_of e bytes).0
unfolding parts_of
parts_of-IsAligned utf8 bytes = tt
parts_of-IsAligned base64_std bytes = split_end-aligned bytes
parts_of-IsAligned base64_url bytes = split_end-aligned bytes
parts_of-IsAligned hexadecimal bytes = tt
parts_of-IsAligned latin1 bytes = tt
parts_of-IsAligned ascii bytes = tt

pub write-encode :
    (d : StringDecoder) (chunk rest : Bytes)
    → (write d chunk).1 ++ encode_buffer_bytes d.encoding ((write d chunk).0.pending ++ rest)
      ≡ encode_buffer_bytes d.encoding (d.pending ++ (chunk ++ rest))
unfolding write process
write-encode d chunk rest =
    let p = parts_of d.encoding (d.pending ++ chunk) in
    sym (
      encode_buffer_bytes-append d.encoding p.0 (p.1 ++ rest)
        (parts_of-IsAligned d.encoding (d.pending ++ chunk)))
    ∙ ap (encode_buffer_bytes d.encoding) (
        sym (append_assoc p.0 p.1 rest)
        ∙ (λ i. parts_of-append d.encoding (d.pending ++ chunk) i ++ rest)
        ∙ append_assoc d.pending chunk rest)

-- The texts of any writes and of the end that follows them are, one after the other, the text of all
-- the bytes at once.
pub write_all-encode :
    (d : StringDecoder) (chunks : List Bytes) (last : Bytes)
    → concat (write_all d chunks).1 ++ (end (write_all d chunks).0 (some last)).1
      ≡ encode_buffer_bytes d.encoding (d.pending ++ (concat chunks ++ last))
unfolding write_all end process
write_all-encode d [] last = refl
write_all-encode d (c ∷ cs) last =
    let first = write d c in
    append_assoc first.1 (concat (write_all first.0 cs).1)
      (end (write_all first.0 cs).0 (some last)).1
    ∙ ap (λ r. first.1 ++ r) (write_all-encode first.0 cs last)
    ∙ write-encode d c (concat cs ++ last)
    ∙ ap (λ r. encode_buffer_bytes d.encoding (d.pending ++ r))
        (sym (append_assoc c (concat cs) last))

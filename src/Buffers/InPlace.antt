-- ===== src/Buffers/InPlace.antt =====
-- Integers are written where they are read, and nowhere else.
use noderati.Prelude.{
  ℕ, ◌+◌, ◌-◌, ◌%◌, ◌^◌, ◌≤◌, ◌<◌, ◌≡◌, refl, sym, ap, ◌∙◌, Bool, true, false, ◌++◌, if◌then◌else◌,
  length, take, drop, arith, length-append, length-take, length-drop, take-length, drop-length,
  drop-drop, All,
}
use noderati.Prelude.Strings.{Bytes}
use noderati.Prelude.Words.{
  IsByte, le_value, be_value, length-put_le, length-put_be, le_value-lt, be_value-lt,
}
use noderati.Buffers.Integers.{
  Number, Arg, undefined, number, other, nan, infinite, finite, Fault, Result, ok, err, offset_at,
  buffer_offset, read_uint_n, write_uint_n, exceeds, word_of, number_of, read_int, write_int,
  and_then, out_of_range,
}
use noderati.Buffers.Numbers.{
  IsSize, le_value-put_le-mod, be_value-put_be-mod, truncated_value, number_of-word_of,
}

offset_at-le :
    (len size n m : ℕ) (negative : Bool) → offset_at len size negative m ≡ ok n → n + size ≤ len
unfolding offset_at
offset_at-le len size n m negative h = ground arith

-- An offset that is let through is an integer, and the access stays within the buffer.
buffer_offset-le :
    (len size n : ℕ) (offset : Arg) → buffer_offset len offset size ≡ ok n → n + size ≤ len
unfolding buffer_offset
buffer_offset-le len size n undefined h = offset_at-le len size n 0 false h
buffer_offset-le len size n (number nan) h = cc
buffer_offset-le len size n (number (infinite negative)) h = cc
buffer_offset-le len size n (number (finite negative m true)) h = cc
buffer_offset-le len size n (number (finite negative m false)) h =
    offset_at-le len size n m negative h
buffer_offset-le len size n other h = cc

length-write_uint_n : (n u : ℕ) (little : Bool) → length (write_uint_n n u little) ≡ n
unfolding write_uint_n
length-write_uint_n n u true = length-put_le n u
length-write_uint_n n u false = length-put_be n u

read_uint_n-write_uint_n :
    (n u : ℕ) (little : Bool) → read_uint_n (write_uint_n n u little) little ≡ u % 256 ^ n % 2 ^ 64
unfolding read_uint_n write_uint_n
read_uint_n-write_uint_n n u true = ap (λ k. k % 2 ^ 64) (le_value-put_le-mod n u)
read_uint_n-write_uint_n n u false = ap (λ k. k % 2 ^ 64) (be_value-put_be-mod n u)

read_uint_n-lt :
    (b : Bytes) (little : Bool)
    → All IsByte b
    → (u : ℕ) × ((u < 256 ^ length b) × (read_uint_n b little ≡ u % 2 ^ 64))
unfolding read_uint_n
read_uint_n-lt b true h = (le_value b, (le_value-lt b h, refl))
read_uint_n-lt b false h = (be_value b, (be_value-lt b h, refl))

-- `b` with the bytes from `off` on replaced by as many new ones.
abbrev put_in : ℕ → ℕ → Bytes → Bytes → Bytes
put_in off size new b = take off b ++ (new ++ drop (off + size) b)

module _ (off size : ℕ) (new b : Bytes) (inside : off + size ≤ length b)
    (k : length new ≡ size) where
  length-head : length (take off b) ≡ off
  length-head = omega (arith, length-take off b, inside)

  drop-put_in : drop off (put_in off size new b) ≡ new ++ drop (off + size) b
  drop-put_in =
      ap (λ n. drop n (put_in off size new b)) (sym length-head)
      ∙ drop-length (take off b) (new ++ drop (off + size) b)

  take-put_in : take off (put_in off size new b) ≡ take off b
  take-put_in =
      ap (λ n. take n (put_in off size new b)) (sym length-head)
      ∙ take-length (take off b) (new ++ drop (off + size) b)

  bytes-put_in : take size (drop off (put_in off size new b)) ≡ new
  bytes-put_in =
      ap (take size) drop-put_in
      ∙ ap (λ n. take n (new ++ drop (off + size) b)) (sym k)
      ∙ take-length new (drop (off + size) b)

  rest-put_in : drop (off + size) (put_in off size new b) ≡ drop (off + size) b
  rest-put_in =
      ap (λ n. drop n (put_in off size new b)) (omega arith)
      ∙ sym (drop-drop off size (put_in off size new b))
      ∙ ap (drop size) drop-put_in
      ∙ ap (λ n. drop n (new ++ drop (off + size) b)) (sym k)
      ∙ drop-length new (drop (off + size) b)

  length-put_in : length (put_in off size new b) ≡ length b
  length-put_in = omega (
    arith,
    inside,
    k,
    length-head,
    length-append (take off b) (new ++ drop (off + size) b),
    length-append new (drop (off + size) b),
    length-drop (off + size) b,
  )

-- What a write that succeeds has done.
record Put (size : ℕ) (signed little : Bool) (b : Bytes) (value : Number) (offset : Arg)
    (after : Bytes) (next : ℕ) : Type 0 where
  off : ℕ
  fits : exceeds size signed value ≡ false
  found : buffer_offset (length b) offset size ≡ ok off
  new_bytes : after ≡ put_in off size (write_uint_n size (word_of value) little) b
  next_offset : next ≡ off + size

placed :
    (size : ℕ) (signed little : Bool) (b : Bytes) (value : Number) (offset : Arg) (after : Bytes)
    (next : ℕ) (r : Result ℕ)
    → exceeds size signed value ≡ false
    → buffer_offset (length b) offset size ≡ r
    → and_then {B = Bytes × ℕ} r
        (λ off. ok (put_in off size (write_uint_n size (word_of value) little) b, off + size))
      ≡ ok (after, next)
    → Put size signed little b value offset after next
placed size signed little b value offset after next (ok off) f g h = record {
  off = off;
  fits = f;
  found = g;
  new_bytes = cc;
  next_offset = cc;
}
placed size signed little b value offset after next (err e) f g h = cc

if-ok {ℓ} :
    {A : Type ℓ} (b : Bool) (e : Fault) (r : Result A) (a : A)
    → (if b then err e else r) ≡ ok a
    → (b ≡ false) × (r ≡ ok a)
if-ok true e r a h = cc
if-ok false e r a h = (refl, h)

write_int-Put :
    (size : ℕ) (signed little : Bool) (b : Bytes) (value : Number) (offset : Arg) (after : Bytes)
    (next : ℕ)
    → write_int size signed little b value offset ≡ ok (after, next)
    → Put size signed little b value offset after next
unfolding write_int
write_int-Put size signed little b value offset after next h =
    let (fits, rest) = if-ok (exceeds size signed value) out_of_range _ (after, next) h in
    placed size signed little b value offset after next (buffer_offset (length b) offset size) fits
      refl rest

read_int-at :
    (size off : ℕ) (signed little : Bool) (b : Bytes) (offset : Arg)
    → buffer_offset (length b) offset size ≡ ok off
    → read_int size signed little b offset
      ≡ ok (number_of size signed (read_uint_n (take size (drop off b)) little))
unfolding read_int
read_int-at size off signed little b offset h =
    ap
      (λ r.
        and_then r (λ n. ok (number_of size signed (read_uint_n (take size (drop n b)) little))))
      h

-- Of an integer of one to six bytes, signed or not, in either order: a write that succeeds leaves a
-- buffer of the same length, from which a read at the same offset gives the value written without
-- its fraction; the bytes ahead of the offset and from the returned one on are as they were.
pub write_int-read_int :
    (size : ℕ) (signed little : Bool) (b : Bytes) (value : Number) (offset : Arg) (after : Bytes)
    (next : ℕ)
    → IsSize size
    → write_int size signed little b value offset ≡ ok (after, next)
    → (read_int size signed little after offset ≡ ok (truncated_value value))
      × ((length after ≡ length b)
          × ((take (next - size) after ≡ take (next - size) b) × (drop next after ≡ drop next b)))
write_int-read_int size signed little b value offset after next valid h =
    let p = write_int-Put size signed little b value offset after next h in
    let new = write_uint_n size (word_of value) little in
    let inside : p.off + size ≤ length b = buffer_offset-le (length b) size p.off offset p.found in
    let k : length new ≡ size = length-write_uint_n size (word_of value) little in
    let same_length : length after ≡ length b =
      ap length p.new_bytes ∙ length-put_in p.off size new b inside k in
    let start : next - size ≡ p.off = omega (arith, p.next_offset) in
    (
      read_int-at size p.off signed little after offset
            (ap (λ n. buffer_offset n offset size) same_length ∙ p.found)
          ∙ ap (λ s. ok (number_of size signed (read_uint_n s little)))
              (ap (λ s. take size (drop p.off s)) p.new_bytes
                ∙ bytes-put_in p.off size new b inside k)
          ∙ ap (λ u. ok (number_of size signed u))
              (read_uint_n-write_uint_n size (word_of value) little)
          ∙ ap ok (number_of-word_of signed value size valid p.fits),
      (
        same_length,
        (
          (λ i. (take (start i) (p.new_bytes i)))
              ∙ take-put_in p.off size new b inside k
              ∙ ap (λ n. take n b) (sym start),
          (λ i. drop (p.next_offset i) (p.new_bytes i))
              ∙ rest-put_in p.off size new b inside k
              ∙ ap (λ n. drop n b) (sym p.next_offset),
        ),
      ),
    )

-- ===== src/Buffers/Integers.antt =====
-- The integers of a buffer: readInt*, readUInt*, writeInt* and writeUInt* of
-- internal/host/buffer_methods.go, of one to six bytes.
use noderati.Prelude.{
  ℕ, ◌+◌, ◌-◌, ◌*◌, ◌/◌, ◌%◌, ◌^◌, Bool, true, false, ◌&&◌, ◌||◌, ◌++◌, if◌then◌else◌, ltb, ◌==◌,
  length, take, drop,
}
use noderati.Prelude.Strings.{Bytes}
use noderati.Prelude.Words.{le_value, be_value, put_le, put_be}

-- A number by its sign, the whole part of its absolute value, and whether there is a fraction.
pub data Number : Type 0 where
  nan : Number
  infinite : Bool → Number
  finite : Bool → ℕ → Bool → Number

abbrev pub natural : ℕ → Number
natural n = finite false n false

-- An argument that is to be a number.
pub data Arg : Type 0 where
  undefined : Arg
  number : Number → Arg
  other : Arg

pub data Fault : Type 0 where
  invalid_arg_type : Fault
  out_of_range : Fault
  out_of_bounds : Fault

pub data Result {ℓ} (A : Type ℓ) : Type ℓ where
  ok : A → Result A
  err : Fault → Result A

abbrev pub and_then {ℓ κ} : {A : Type ℓ} → {B : Type κ} → Result A → (A → Result B) → Result B
and_then (ok a) f = f a
and_then (err e) f = err e

-- An offset with no fraction: its sign and absolute value.
unfoldable pub offset_at : ℕ → ℕ → Bool → ℕ → Result ℕ
offset_at len size negative n =
    if (negative && ltb 0 n) || ltb len (n + size)
    then (if ltb len size then err out_of_bounds else err out_of_range)
    else ok n

unfoldable pub buffer_offset : ℕ → Arg → ℕ → Result ℕ
unfolding offset_at
buffer_offset len undefined size = offset_at len size false 0
buffer_offset len (number nan) size = err out_of_range
buffer_offset len (number (infinite negative)) size = err out_of_range
buffer_offset len (number (finite negative n fraction)) size =
    if fraction then err out_of_range else offset_at len size negative n
buffer_offset len other size = err invalid_arg_type

unfoldable pub buffer_byte_length : Arg → Result ℕ
buffer_byte_length undefined = err invalid_arg_type
buffer_byte_length (number nan) = err out_of_range
buffer_byte_length (number (infinite negative)) = err out_of_range
buffer_byte_length (number (finite negative n fraction)) =
    if fraction || (negative || (ltb n 1 || ltb 6 n)) then err out_of_range else ok n
buffer_byte_length other = err invalid_arg_type

unfoldable pub read_uint_n : Bytes → Bool → ℕ
unfolding le_value be_value
read_uint_n b little = (if little then le_value b else be_value b) % 2 ^ 64

-- The bytes that take the place of so many.
unfoldable pub write_uint_n : ℕ → ℕ → Bool → Bytes
unfolding put_le put_be
write_uint_n n u little = if little then put_le n u else put_be n u

-- The absolute values of the bounds.
unfoldable pub int_max : ℕ → Bool → ℕ
int_max size signed = if signed then 2 ^ (size * 8 - 1) - 1 else 2 ^ (size * 8) - 1

unfoldable pub int_min : ℕ → Bool → ℕ
int_min size signed = if signed then 2 ^ (size * 8 - 1) else 0

-- The absolute value of a number is more than `m`.
abbrev pub is_over : ℕ → ℕ → Bool → Bool
is_over m n fraction = ltb m n || (n == m && fraction)

-- `f > max || f < min`
unfoldable pub exceeds : ℕ → Bool → Number → Bool
unfolding int_max int_min
exceeds size signed nan = false
exceeds size signed (infinite negative) = true
exceeds size signed (finite negative n fraction) =
    if negative
    then is_over (int_min size signed) n fraction
    else is_over (int_max size signed) n fraction

-- `uint64(int64(math.Trunc(nanToZero(f))))`; what is infinite does not come here.
unfoldable pub word_of : Number → ℕ
word_of nan = 0
word_of (infinite negative) = 0
word_of (finite negative n fraction) = (if negative then 2 ^ 64 - n % 2 ^ 64 else n) % 2 ^ 64

-- `int64(u<<shift) >> shift`, rounding down
unfoldable pub sign_extended : ℕ → ℕ → Number
sign_extended shift u =
    let w = u * 2 ^ shift % 2 ^ 64 in
    if ltb w (2 ^ 63)
    then natural (w / 2 ^ shift)
    else finite true ((2 ^ 64 - w + (2 ^ shift - 1)) / 2 ^ shift) false

-- What a method returns for `u`.
unfoldable pub number_of : ℕ → Bool → ℕ → Number
unfolding sign_extended
number_of size signed u = if signed then sign_extended (64 - size * 8) u else natural u

unfoldable pub read_int : ℕ → Bool → Bool → Bytes → Arg → Result Number
unfolding buffer_offset read_uint_n number_of
read_int size signed little b offset =
    and_then (buffer_offset (length b) offset size)
      (λ off. ok (number_of size signed (read_uint_n (take size (drop off b)) little)))

-- The buffer afterwards, and the result.
unfoldable pub write_int : ℕ → Bool → Bool → Bytes → Number → Arg → Result (Bytes × ℕ)
unfolding exceeds buffer_offset write_uint_n word_of
write_int size signed little b value offset =
    if exceeds size signed value
    then err out_of_range
    else and_then (buffer_offset (length b) offset size) (λ off.
      ok (
        take off b ++ (write_uint_n size (word_of value) little ++ drop (off + size) b),
        off + size,
      ))

-- With the number of bytes as an argument.
unfoldable pub read_int_of : Bool → Bool → Bytes → Arg → Arg → Result Number
unfolding buffer_byte_length read_int
read_int_of signed little b offset byte_length =
    and_then (buffer_byte_length byte_length) (λ size. read_int size signed little b offset)

unfoldable pub write_int_of : Bool → Bool → Bytes → Number → Arg → Arg → Result (Bytes × ℕ)
unfolding buffer_byte_length write_int
write_int_of signed little b value offset byte_length =
    and_then (buffer_byte_length byte_length) (λ size. write_int size signed little b value offset)

-- ===== src/Buffers/Base64.antt =====
-- Go's encoding/base64 and encoding/hex, as internal/host/buffer.go uses them.
use noderati.Prelude.{
  ℕ, ◌+◌, ◌-◌, ◌*◌, ◌/◌, ◌%◌, ◌≡◌, refl, Bool, [], ◌∷◌, ◌++◌, if◌then◌else◌, ltb, ◌==◌, length,
  arith,
}
use noderati.Prelude.Strings.{Bytes}

-- The digits of StdEncoding, and of URLEncoding if `url`.
unfoldable pub base64_digit : Bool → ℕ → ℕ
base64_digit url d =
    if ltb d 26
    then 65 + d
    else if ltb d 52
    then 97 + (d - 26)
    else if ltb d 62
    then 48 + (d - 52)
    else if d == 62
    then (if url then 45 else 43)
    else (if url then 95 else 47)

-- Three bytes are four digits; `=` fills up the last four.
unfoldable pub base64 : Bool → Bytes → Bytes
unfolding base64_digit
base64 url [] = []
base64 url (a ∷ []) = base64_digit url (a / 4) ∷ base64_digit url (a % 4 * 16) ∷ 61 ∷ 61 ∷ []
base64 url (a ∷ b ∷ []) =
    base64_digit url (a / 4)
    ∷ base64_digit url (a % 4 * 16 + b / 16)
    ∷ base64_digit url (b % 16 * 4)
    ∷ 61
    ∷ []
base64 url (a ∷ b ∷ c ∷ s) =
    base64_digit url (a / 4)
    ∷ base64_digit url (a % 4 * 16 + b / 16)
    ∷ base64_digit url (b % 16 * 4 + c / 64)
    ∷ base64_digit url (c % 64)
    ∷ base64 url s

unfoldable pub hex_digit : ℕ → ℕ
hex_digit d = if ltb d 10 then 48 + d else 97 + (d - 10)

unfoldable pub hex : Bytes → Bytes
unfolding hex_digit
hex [] = []
hex (b ∷ s) = hex_digit (b / 16) ∷ hex_digit (b % 16) ∷ hex s

-- Whole threes can be encoded ahead of the rest.
pub base64-append :
    (url : Bool) (s t : Bytes)
    → length s % 3 ≡ 0
    → base64 url (s ++ t) ≡ base64 url s ++ base64 url t
unfolding base64
base64-append url [] t h = refl
base64-append url (a ∷ []) t h = absurd (omega (arith, h))
base64-append url (a ∷ b ∷ []) t h = absurd (omega (arith, h))
base64-append url (a ∷ b ∷ c ∷ s) t h =
    let rest : length s % 3 ≡ 0 = omega (arith, h) in
    λ i.
      base64_digit url (a / 4)
      ∷ base64_digit url (a % 4 * 16 + b / 16)
      ∷ base64_digit url (b % 16 * 4 + c / 64)
      ∷ base64_digit url (c % 64)
      ∷ base64-append url s t rest i

pub hex-append : (s t : Bytes) → hex (s ++ t) ≡ hex s ++ hex t
unfolding hex
hex-append [] t = refl
hex-append (b ∷ s) t = λ i. hex_digit (b / 16) ∷ hex_digit (b % 16) ∷ hex-append s t i

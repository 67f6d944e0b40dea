-- ===== src/Buffers/LeadBytes.antt =====
-- The first bytes of UTF-8 sequences, as internal/host/stringdecoder.go tells them.
use mathlib.Core.Path.{subst}
use noderati.Prelude.{
  ℕ, zero, suc, ◌<◌, ◌≡◌, refl, ◌∙◌, Bool, true, false, ◌&&◌, Option, none, some, arith, ◌==◌,
  dec_lt,
}
use noderati.Buffers.Decoder.{utf8_lead_len}
use noderati.Buffers.Utf8.{sequence_length}

pub same : Option ℕ → Option ℕ → Bool
same none none = true
same none (some n) = false
same (some m) none = false
same (some m) (some n) = m == n

same→eq : (o p : Option ℕ) → same o p ≡ true → o ≡ p
unfolding same
same→eq none none h = refl
same→eq none (some n) h = cc
same→eq (some m) none h = cc
same→eq (some m) (some n) h = ground arith

all_below : ℕ → (ℕ → Bool) → Bool
all_below zero f = true
all_below (suc n) f = f n && all_below n f

all_below-at : (n : ℕ) (f : ℕ → Bool) (b : ℕ) → all_below n f ≡ true → b < n → f b ≡ true
unfolding all_below
all_below-at zero f b h k = absurd (omega (arith, k))
all_below-at (suc n) f b h k = elim (dec_lt b n) [
  | yes smaller ↦ all_below-at n f b (ground arith) smaller
  | no larger ↦ let e : n ≡ b = omega (arith, k, larger) in subst (λ c. f c ≡ true) e (ground arith)
]

agrees : ℕ → Bool
unfolding same
agrees b = same (utf8_lead_len b) (sequence_length b)

all-agree : all_below 256 agrees ≡ true
unfolding all_below agrees utf8_lead_len sequence_length
all-agree = refl

-- On bytes, the tests on bits are the ranges of UTF-8.
utf8_lead_len-sequence_length : (b : ℕ) → b < 256 → utf8_lead_len b ≡ sequence_length b
unfolding agrees
utf8_lead_len-sequence_length b h =
    same→eq (utf8_lead_len b) (sequence_length b) (all_below-at 256 agrees b all-agree h)

pub lead_len : (b n : ℕ) → sequence_length b ≡ some n → utf8_lead_len b ≡ some n
unfolding sequence_length
lead_len b n h = let byte : b < 256 = ground arith in utf8_lead_len-sequence_length b byte ∙ h

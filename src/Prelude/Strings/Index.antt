-- ===== src/Prelude/Strings/Index.antt =====
-- Where `last_index` finds the byte.
use Prim.Native.Nat.{ℕ, zero, suc}
use mathlib.Core.Path.{◌≡◌, refl}
use mathlib.Core.Bool.{false}
use mathlib.Core.Option.{none, some}
use mathlib.Core.List.{[], ◌∷◌, ◌++◌}
use native.Mathlib.Omega.{arith}
use noderati.Prelude.Lists.{take, drop}
use noderati.Prelude.Strings.Defs.{Bytes, contains_byte, last_index}

pub last_index-none : (b : ℕ) (s : Bytes) → last_index b s ≡ none → contains_byte b s ≡ false
unfolding last_index contains_byte
last_index-none b [] h = refl
last_index-none b (c ∷ s) h = ground (arith, last_index-none b s)

pub last_index-some :
    (b : ℕ) (s : Bytes) (i : ℕ)
    → last_index b s ≡ some i
    → (s ≡ take i s ++ (b ∷ drop (suc i) s)) × (contains_byte b (drop (suc i) s) ≡ false)
unfolding last_index
last_index-some b [] i h = cc
last_index-some b (c ∷ s) zero h = ground (arith, last_index-none b s)
last_index-some b (c ∷ s) (suc i) h = ground (arith, last_index-some b s i)

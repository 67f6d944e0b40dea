-- ===== src/Prelude/Strings/Split.antt =====
-- `Split` and `Join` undo one another on parts that are not empty and lack the separator.
use Prim.Native.Nat.{ℕ}
use mathlib.Core.Path.{◌≡◌, refl, ap, ◌∙◌}
use mathlib.Core.Bool.{false}
use mathlib.Core.Logic.{inl, inr}
use mathlib.Core.List.{List, [], ◌∷◌, ◌++◌, append-nil}
use native.Mathlib.Omega.{arith}
use noderati.Prelude.Tests.{◌==◌, Bool-cases, ==_refl}
use noderati.Prelude.Lists.{All}
use noderati.Prelude.Strings.Defs.{
  Bytes, is_empty, contains_byte, split, drop_empty, split_non_empty, join,
}

-- A part of a path: not empty, and without the separator.
pub record IsSegment (sep : ℕ) (w : Bytes) : Type 0 where
  pub filled : is_empty w ≡ false
  pub lacks : contains_byte sep w ≡ false

split_cons : (sep : ℕ) (s : Bytes) → (w : Bytes) × (ws : List Bytes) × (split sep s ≡ w ∷ ws)
unfolding split
split_cons sep [] = ([], [], refl)
split_cons sep (c ∷ s) = elim (Bool-cases (c == sep)) [
  | inl e ↦ ([], split sep s, rw e)
  | inr e ↦ let (w, ws, h) = split_cons sep s in (c ∷ w, ws, rw (e, h))
]

-- Splitting at a separator that is known.
pub split-append : (sep : ℕ) (s t : Bytes) → split sep (s ++ (sep ∷ t)) ≡ split sep s ++ split sep t
unfolding split
split-append sep [] t = rw (==_refl sep)
split-append sep (c ∷ s) t =
    let (w, ws, h) = split_cons sep s in ground (arith, split-append sep s t, h)

drop_empty-append : (xs ys : List Bytes) → drop_empty (xs ++ ys) ≡ drop_empty xs ++ drop_empty ys
unfolding drop_empty
drop_empty-append [] ys = refl
drop_empty-append ([] ∷ xs) ys = drop_empty-append xs ys
drop_empty-append ((c ∷ w) ∷ xs) ys = ap (λ l. (c ∷ w) ∷ l) (drop_empty-append xs ys)

pub split_non_empty-append :
    (sep : ℕ) (s t : Bytes)
    → split_non_empty (s ++ (sep ∷ t)) sep ≡ split_non_empty s sep ++ split_non_empty t sep
unfolding split_non_empty
split_non_empty-append sep s t =
    rw (split-append sep s t) (drop_empty-append (split sep s) (split sep t))

pub split_non_empty-cons_sep :
    (sep : ℕ) (s : Bytes) → split_non_empty (sep ∷ s) sep ≡ split_non_empty s sep
unfolding split_non_empty
split_non_empty-cons_sep sep s = split_non_empty-append sep [] s

pub split_non_empty-trailing :
    (sep : ℕ) (s : Bytes) → split_non_empty (s ++ (sep ∷ [])) sep ≡ split_non_empty s sep
unfolding split_non_empty
split_non_empty-trailing sep s =
    split_non_empty-append sep s [] ∙ append-nil (split_non_empty s sep)

split-lacks : (sep : ℕ) (w : Bytes) → contains_byte sep w ≡ false → split sep w ≡ w ∷ []
unfolding split contains_byte
split-lacks sep [] h = refl
split-lacks sep (c ∷ w) h = ground (arith, split-lacks sep w)

split_non_empty-segment : (sep : ℕ) (w : Bytes) → IsSegment sep w → split_non_empty w sep ≡ w ∷ []
unfolding split_non_empty
split_non_empty-segment sep [] h = cc (h.filled)
split_non_empty-segment sep (c ∷ w) h = rw (split-lacks sep (c ∷ w) h.lacks)

pub split_non_empty-join :
    (sep : ℕ) (ws : List Bytes) → All (IsSegment sep) ws → split_non_empty (join sep ws) sep ≡ ws
unfolding join
split_non_empty-join sep [] h = unfold split_non_empty in refl
split_non_empty-join sep (w ∷ []) h = split_non_empty-segment sep w h.0
split_non_empty-join sep (w ∷ v ∷ ws) h = rw (
  split_non_empty-append sep w (join sep (v ∷ ws)),
  split_non_empty-segment sep w h.0,
  split_non_empty-join sep (v ∷ ws) h.1,
)

drop_empty-lacks :
    (sep : ℕ) (ws : List Bytes)
    → All (λ w. contains_byte sep w ≡ false) ws
    → All (IsSegment sep) (drop_empty ws)
unfolding drop_empty
drop_empty-lacks sep [] h = tt
drop_empty-lacks sep ([] ∷ ws) h = drop_empty-lacks sep ws h.1
drop_empty-lacks sep ((c ∷ w) ∷ ws) h =
    (record { filled = refl; lacks = h.0 }, drop_empty-lacks sep ws h.1)

split-All_lack : (sep : ℕ) (s : Bytes) → All (λ w. contains_byte sep w ≡ false) (split sep s)
unfolding split contains_byte
split-All_lack sep [] = (refl, tt)
split-All_lack sep (c ∷ s) =
    let (w, ws, h) = split_cons sep s in
    let ih : All (λ w. contains_byte sep w ≡ false) (w ∷ ws) = rw h at (split-All_lack sep s) in
    elim (Bool-cases (c == sep)) [
      | inl e ↦ rw e (refl, split-All_lack sep s)
      | inr e ↦ rw (e, h) (rw e ih.0, ih.1)
    ]

-- The parts that `splitNonEmpty` returns are segments.
pub split_non_empty-All : (sep : ℕ) (s : Bytes) → All (IsSegment sep) (split_non_empty s sep)
unfolding split_non_empty
split_non_empty-All sep s = drop_empty-lacks sep (split sep s) (split-All_lack sep s)

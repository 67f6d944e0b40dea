-- ===== src/Path/Parse/Total.antt =====
-- posixParse and win32Parse never slice out of range.
use noderati.Prelude.{
  ℕ, ◌+◌, ◌-◌, ◌≤◌, ◌≡◌, refl, ◌∙◌, Bool, true, false, not, ◌&&◌, Option, length-drop, some, [],
  ◌∷◌, ◌++◌, inl, inr, length, drop, if◌then◌else◌, ltb, ◌==◌, arith, Bool-cases,
}
use noderati.Prelude.Strings.{Bytes, codes}
use noderati.Path.Parse.Scan.{Walk, scan, scan_start, slice, element, ◌>>=◌}
use noderati.Path.Parse.Walked.{slice_total, element_total, IsWalked, scan-IsWalked}
use noderati.Path.Parse.{
  Parsed, parsed, is_slash, posix_finish, posix_parse, is_sep, span, unc_root_end, Root, whole,
  ends_at, win32_root, win32_finish, win32_parse,
}

-- A result in which the base is the name and the extension.
abbrev pub ParsesWell : Option Parsed → Type 0
ParsesWell o = (r : Parsed) × (o ≡ some r) × (r.base ≡ r.name ++ r.ext)

slice_if_total :
    (p : Bytes) (t : Bool) (a b : ℕ) (other : Bytes)
    → (t ≡ true → (a ≤ b) × (b ≤ length p))
    → (d : Bytes) × ((if t then slice p a b else some other) ≡ some d)
slice_if_total p true a b other h = (_, slice_total p a b (h refl).0 (h refl).1)
slice_if_total p false a b other h = (other, refl)

posix_finish_total :
    (p : Bytes) (is_absolute : Bool) (lo : ℕ) (st : Walk)
    → (if is_absolute then 1 else 0) ≤ lo
    → lo ≤ length p
    → IsWalked lo (length p) st
    → ParsesWell (posix_finish p is_absolute st)
unfolding posix_finish
posix_finish_total p is_absolute lo st h k w =
    let from : ℕ = if st.start_part == 0 && is_absolute then 1 else st.start_part in
    let (el, e, good) = element_total p lo from st (ground arith) w in
    let (dir, d) =
      slice_if_total p (ltb 0 st.start_part) 0 (st.start_part - 1)
        (if is_absolute then codes "/" else []) (λ _. (omega arith, omega arith)) in
    let root = if is_absolute then codes "/" else [] in
    (parsed root dir el, λ i. do el ← e i; dir ← d i; some (parsed root dir el), good)

-- posixParse panics on no path, and the base that it returns is the name and the extension.
pub posix_parse_total : (p : Bytes) → ParsesWell (posix_parse p)
unfolding posix_parse
posix_parse_total [] = (record { root = []; dir = []; base = []; ext = []; name = [] }, refl, refl)
posix_parse_total (c ∷ p) =
    let is_absolute = c == b'/' in
    let start : ℕ = if is_absolute then 1 else 0 in
    let len = length (c ∷ p) in
    let (lo, a, b, w) =
      scan-IsWalked is_slash (c ∷ p) start (len - start) len (scan_start 0) (ground arith)
        (omega arith) tt (omega arith) in
    posix_finish_total (c ∷ p) is_absolute lo _ a b w

span-le : (test : ℕ → Bool) (p : Bytes) → span test p ≤ length p
unfolding span
span-le test [] = omega arith
span-le test (c ∷ p) = elim (Bool-cases (test c)) [
  | inl e ↦ rw e (omega (arith, span-le test p))
  | inr e ↦ rw e (omega arith)
]

-- Running on from an index within the path stays within the path.
span_within :
    (test : ℕ → Bool) (p : Bytes) (j : ℕ) → j ≤ length p → j + span test (drop j p) ≤ length p
span_within test p j h = omega (arith, span-le test (drop j p), length-drop j p)

unc_root_end-le : (p : Bytes) → 2 ≤ length p → unc_root_end p ≤ length p
unfolding unc_root_end
unc_root_end-le p h =
    let text : ℕ → Bool = λ b. not (is_sep b) in
    let j1 = 2 + span text (drop 2 p) in
    let j2 = j1 + span is_sep (drop j1 p) in
    let j3 = j2 + span text (drop j2 p) in
    bound (length p) j1 j2 j3 (omega arith) (span_within text p 2 h) (span_within is_sep p j1)
      (span_within text p j2)
  where
    bound :
        (len j1 j2 j3 : ℕ)
        → 1 ≤ len
        → j1 ≤ len
        → (j1 ≤ len → j2 ≤ len)
        → (j2 ≤ len → j3 ≤ len)
        → (if ltb j1 len && not (j1 == 2)
            then (if ltb j2 len && not (j2 == j1)
                then (if j3 == len then j3 else if not (j3 == j2) then j3 + 1 else 1)
                else 1)
            else 1)
          ≤ len
    bound len j1 j2 j3 a b c d = ground (arith, c b, d (c b))

-- The root that is found lies within the path.
abbrev RootIn : ℕ → Root → Type 0
RootIn len whole = Unit
RootIn len (ends_at r) = r ≤ len

win32_root-RootIn : (c d : ℕ) (p : Bytes) → RootIn (length (c ∷ d ∷ p)) (win32_root c d p)
unfolding win32_root
win32_root-RootIn c d p = ground (arith, unc_root_end-le (c ∷ d ∷ p))

win32_finish_total : (p : Bytes) (r : Root) → RootIn (length p) r → ParsesWell (win32_finish p r)
unfolding win32_finish
win32_finish_total p whole h =
    (record { root = p; dir = p; base = []; ext = []; name = [] }, refl, refl)
win32_finish_total p (ends_at r) h =
    let len = length p in
    let st = scan is_sep p r (len - r) (scan_start r) in
    let (lo, a, b, w) =
      scan-IsWalked is_sep p r (len - r) len (scan_start r) (omega arith) (omega arith) tt
        (omega arith) in
    let (el, e, good) = element_total p lo st.start_part st w.part_le w in
    let (root, q) = slice_if_total p (ltb 0 r) 0 r [] (λ _. (omega arith, h)) in
    let part_le = w.part_le in
    let (dir, d) =
      slice_if_total p (ltb 0 st.start_part && not (st.start_part == r)) 0 (st.start_part - 1) root
        (λ _. (omega arith, omega arith)) in
    (
      parsed root dir el,
      (λ i. do
        root ← q i
        el ← element p st.start_part st
        dir ←
            (if ltb 0 st.start_part && not (st.start_part == r)
              then slice p 0 (st.start_part - 1)
              else some root)
        some (parsed root dir el))
          ∙ λ i. do el ← e i; dir ← d i; some (parsed root dir el),
      good,
    )

-- win32Parse panics on no path, and the base that it returns is the name and the extension.
pub win32_parse_total : (p : Bytes) → ParsesWell (win32_parse p)
unfolding win32_parse
win32_parse_total [] = (record { root = []; dir = []; base = []; ext = []; name = [] }, refl, refl)
win32_parse_total (c ∷ []) = elim (Bool-cases (is_sep c)) [
  | inl e ↦
      simp e (record { root = c ∷ []; dir = c ∷ []; base = []; ext = []; name = [] }, refl, refl)
  | inr e ↦
      simp e (record { root = []; dir = []; base = c ∷ []; ext = []; name = c ∷ [] }, refl, refl)
]
win32_parse_total (c ∷ d ∷ p) =
    win32_finish_total (c ∷ d ∷ p) (win32_root c d p) (win32_root-RootIn c d p)

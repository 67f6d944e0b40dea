-- ===== src/Path/Parse/Walked.antt =====
-- The walk of posixParse and win32Parse stays within the path, and its slices meet.
use mathlib.Core.Path.{subst}
use noderati.Prelude.{
  ℕ, zero, suc, ◌+◌, ◌-◌, ◌≤◌, ◌<◌, ◌≡◌, refl, Bool, Option, none, some, [], ◌∷◌, ◌++◌, take, drop,
  length, if◌then◌else◌, arith, inl, inr, Bool-cases, sym, ap, ◌∙◌, append-nil,
}
use noderati.Prelude.Strings.{Bytes}
use noderati.Path.Parse.Scan.{
  Walk, mark_end, mark_dot, byte_at, scan, slice, ◌>>=◌, Element, has_no_ext, whole_element,
  parted_element, element_at, element,
}

-- What the walk leaves: the last element ends within the path, and its dot is inside it.
abbrev pub InBounds : ℕ → ℕ → Option ℕ → Option ℕ → Type 0
InBounds lo len none none = Unit
InBounds lo len (some d) none = ⊥
InBounds lo len none (some e) = (lo < e) × (e ≤ len)
InBounds lo len (some d) (some e) = (lo ≤ d) × (d < e) × (e ≤ len)

InBounds-mono :
    (lo lo' len : ℕ) (dot end : Option ℕ)
    → lo' ≤ lo
    → InBounds lo len dot end
    → InBounds lo' len dot end
InBounds-mono lo lo' len none none h k = tt
InBounds-mono lo lo' len (some d) none h k = k
InBounds-mono lo lo' len none (some e) h k = omega arith
InBounds-mono lo lo' len (some d) (some e) h k = omega arith

mark-InBounds :
    (i len c : ℕ) (st : Walk)
    → i < len
    → InBounds (suc i) len st.start_dot st.end
    → InBounds i len (mark_dot i c (mark_end i st)).start_dot (mark_dot i c (mark_end i st)).end
unfolding mark_dot mark_end
mark-InBounds i len c st h k = ground (arith, k)

-- The last element lies behind the index `lo` and `start_part` is not behind it.
pub record IsWalked (lo len : ℕ) (st : Walk) : Type 0 where
  pub part_le : st.start_part ≤ lo
  pub bounds : InBounds lo len st.start_dot st.end

mark-start_part : (i c : ℕ) (st : Walk) → (mark_dot i c (mark_end i st)).start_part ≡ st.start_part
unfolding mark_dot mark_end
mark-start_part i c st = ground arith

widen_to :
    (len start i hi : ℕ)
    → i ≤ hi
    → {st : Walk} → (lo : ℕ) × (start ≤ lo) × (lo ≤ i) × IsWalked lo len st
    → (lo : ℕ) × (start ≤ lo) × (lo ≤ hi) × IsWalked lo len st
widen_to len start i hi h (lo, a, b, w) = (lo, a, omega arith, w)

-- Walking back from `start + k`, the loop stops with the last element in the path.
pub scan-IsWalked :
    (is_sep : ℕ → Bool) (p : Bytes) (start k hi : ℕ) (st : Walk)
    → hi ≡ start + k
    → hi ≤ length p
    → InBounds hi (length p) st.start_dot st.end
    → st.start_part ≤ start
    → (lo : ℕ) × (start ≤ lo) × (lo ≤ hi) × IsWalked lo (length p) (scan is_sep p start k st)
unfolding scan
scan-IsWalked is_sep p start zero hi st e h w q = (
  start,
  omega arith,
  omega arith,
  record {
    part_le = q;
    bounds = InBounds-mono hi start (length p) st.start_dot st.end (omega arith) w;
  },
)
scan-IsWalked is_sep p start (suc k) hi st e h w q =
    let i = start + k in
    let w' : InBounds (suc i) (length p) st.start_dot st.end =
      InBounds-mono hi (suc i) (length p) st.start_dot st.end (omega arith) w in
    let low = InBounds-mono (suc i) i (length p) st.start_dot st.end (omega arith) w' in
    let le : i ≤ hi = omega arith in
    let st' = mark_dot i (byte_at p i) (mark_end i st) in
    elim (Bool-cases (is_sep (byte_at p i))) [
      | inl s ↦ elim (Bool-cases st.matched_slash) [
        | inl m ↦
            simp (s, m)
              (widen_to (length p) start i hi le
                (scan-IsWalked is_sep p start k i st refl (omega arith) low q))
        | inr m ↦
            rw (s, m)
              (suc i, omega arith, omega arith, record { part_le = omega arith; bounds = w' })
      ]
      | inr s ↦ rw s (
          widen_to (length p) start i hi le (
            scan-IsWalked is_sep p start k i st' refl (omega arith)
              (mark-InBounds i (length p) (byte_at p i) st (omega arith) w')
              (omega (arith, mark-start_part i (byte_at p i) st))))
    ]

pub slice_total :
    (p : Bytes) (a b : ℕ) → a ≤ b → b ≤ length p → slice p a b ≡ some (take (b - a) (drop a p))
unfolding slice
slice_total p a b h k = ground arith

take-append : (xs : Bytes) (a b c : ℕ) → c ≡ a + b → take a xs ++ take b (drop a xs) ≡ take c xs
take-append xs zero b c h = ap (λ n. take n xs) (omega arith)
take-append [] (suc a) zero zero h = absurd (omega arith)
take-append [] (suc a) (suc b) zero h = absurd (omega arith)
take-append [] (suc a) zero (suc c) h = refl
take-append [] (suc a) (suc b) (suc c) h = refl
take-append (x ∷ xs) (suc a) b zero h = absurd (omega arith)
take-append (x ∷ xs) (suc a) b (suc c) h = ap (λ l. x ∷ l) (take-append xs a b c (omega arith))

drop-drop : (xs : Bytes) (a b c : ℕ) → c ≡ a + b → drop b (drop a xs) ≡ drop c xs
drop-drop xs zero b c h = ap (λ n. drop n xs) (omega arith)
drop-drop [] (suc a) zero zero h = absurd (omega arith)
drop-drop [] (suc a) (suc b) zero h = absurd (omega arith)
drop-drop [] (suc a) zero (suc c) h = refl
drop-drop [] (suc a) (suc b) (suc c) h = refl
drop-drop (x ∷ xs) (suc a) b zero h = absurd (omega arith)
drop-drop (x ∷ xs) (suc a) b (suc c) h = drop-drop xs a b c (omega arith)

-- Two slices that meet.
slices_meet :
    (p : Bytes) (a d e : ℕ)
    → a ≤ d
    → d ≤ e
    → take (e - a) (drop a p) ≡ take (d - a) (drop a p) ++ take (e - d) (drop d p)
slices_meet p a d e h k = sym (
    ap (λ l. take (d - a) (drop a p) ++ take (e - d) l)
      (sym (drop-drop p a (d - a) d (omega arith)))
    ∙ take-append (drop a p) (d - a) (e - d) (e - a) (omega arith))

-- The parts of an element are a base, and the name and extension that make it up.
abbrev pub IsParted : Bytes → Bytes → Bytes → Type 0
IsParted base name ext = base ≡ name ++ ext

abbrev HasElement : Option Element → Type 0
HasElement o = (r : Element) × (o ≡ some r) × IsParted r.base r.name r.ext

whole_element_total :
    (p : Bytes) (from e : ℕ) → from ≤ e → e ≤ length p → HasElement (whole_element p from e)
unfolding whole_element
whole_element_total p from e h k =
    let w = take (e - from) (drop from p) in
    (
      record { base = w; ext = []; name = w },
      ap (λ o. o >>= λ w. some (record { base = w; ext = []; name = w }))
          (slice_total p from e h k),
      sym (append-nil w),
    )

abbrev parts : Option Bytes → Option Bytes → Option Bytes → Option Element
parts on ob ox = do n ← on; b ← ob; x ← ox; some (record { base = b; ext = x; name = n })

take_parts :
    {on ob ox : Option Bytes} {n b x : Bytes}
    → on ≡ some n
    → ob ≡ some b
    → ox ≡ some x
    → parts on ob ox ≡ some (record { base = b; ext = x; name = n })
take_parts p q r = λ i. parts (p i) (q i) (r i)

parted_element_total :
    (p : Bytes) (from d e : ℕ)
    → from ≤ d
    → d < e
    → e ≤ length p
    → HasElement (parted_element p from d e)
unfolding parted_element
parted_element_total p from d e h k l =
    let name = take (d - from) (drop from p) in
    let base = take (e - from) (drop from p) in
    let ext = take (e - d) (drop d p) in
    (
      record { base = base; ext = ext; name = name },
      take_parts (slice_total p from d h (omega arith)) (slice_total p from e (omega arith) l)
          (slice_total p d e (omega arith) l),
      slices_meet p from d e h (omega arith),
    )

-- Behind the walk no slice is out of range, and the base is the name and the extension.
pub element_total :
    (p : Bytes) (lo from : ℕ) (st : Walk)
    → from ≤ lo
    → IsWalked lo (length p) st
    → HasElement (element p from st)
unfolding element
element_total p lo from st h w = at st.start_dot st.end w.bounds
  where
    at :
        (dot end : Option ℕ)
        → InBounds lo (length p) dot end
        → HasElement (element_at p from st.start_part st.pre_dot_state dot end)
    at none none b = (record { base = []; ext = []; name = [] }, refl, refl)
    at (some d) none b = absurd b
    at none (some e) b = whole_element_total p from e (omega arith) b.1
    at (some d) (some e) b = elim (Bool-cases (has_no_ext d e st.start_part st.pre_dot_state)) [
      | inl t ↦
          subst (λ b. HasElement (if b then whole_element p from e else parted_element p from d e))
            (sym t) (whole_element_total p from e (omega arith) b.2)
      | inr t ↦
          subst (λ b. HasElement (if b then whole_element p from e else parted_element p from d e))
            (sym t) (parted_element_total p from d e (omega arith) b.1 b.2)
    ]

-- ===== src/Glob/Expansion.antt =====
-- The expansion of braces ends: enough fuel is one more than the pattern has bytes.
use mathlib.Core.Path.{subst}
use noderati.Prelude.{
  if-none, if-some, &&_iff, ==_iff, ℕ, zero, suc, ◌+◌, ◌-◌, ◌≤◌, ◌<◌, Bool, true, false, ◌&&◌,
  Option, none, some, List, [], ◌∷◌, ◌++◌, length, take, drop, if◌then◌else◌, ltb, ◌==◌, ◌≡◌, refl,
  sym, ap, ◌∙◌, ◌⊎◌, inl, inr, arith, length-append, length-take, length-drop, Option-cases, All,
}
use noderati.Prelude.Strings.{Bytes}
use noderati.Glob.Braces.{
  alt_state, alternatives, Group, Scan, scan_state, body_of, group_of, ended, or_else, find_group,
  first_group, replaced, concat_map, expand_at, expand_braces, glob_expand_braces,
}

-- The bytes of the alternatives, and one for each.
total : List Bytes → ℕ
total [] = 0
total (a ∷ alts) = length a + (1 + total alts)

total-if :
    (b : Bool) (c : ℕ) (current s : Bytes) (f : Bytes → List Bytes)
    → ((cur : Bytes) → total (f cur) ≡ length cur + (length s + 1))
    → total (
        if b
        then current ∷ f (if b then [] else current ++ (c ∷ []))
        else f (if b then [] else current ++ (c ∷ [])))
      ≡ length current + (length (c ∷ s) + 1)
unfolding total
total-if true c current s f h = omega (arith, h [])
total-if false c current s f h =
    omega (arith, h (current ++ (c ∷ [])), length-append current (c ∷ []))

total-alternatives :
    (skip d : ℕ) (current s : Bytes)
    → total (alternatives skip d current s) ≡ length current + (length s + 1)
unfolding alternatives total
total-alternatives skip d current [] = omega arith
total-alternatives (suc skip) d current (c ∷ s) =
    omega (arith, total-alternatives skip d (current ++ (c ∷ [])) s, length-append current (c ∷ []))
total-alternatives zero d current (c ∷ s) =
    total-if (c == b',' && d == 0) c current s
      (λ cur. alternatives (alt_state c d).skip (alt_state c d).d cur s)
      (λ cur. total-alternatives (alt_state c d).skip (alt_state c d).d cur s)

All-widen :
    {P Q : Bytes → Type 0}
    → ((a : Bytes) → P a → Q a)
    → (alts : List Bytes) → All P alts
    → All Q alts
All-widen f [] h = tt
All-widen f (a ∷ alts) h = (f a h.0, All-widen f alts h.1)

length-total : (alts : List Bytes) → length alts ≤ total alts
unfolding total
length-total [] = omega arith
length-total (a ∷ alts) = omega (arith, length-total alts)

alts-bounded : (alts : List Bytes) → All (λ a. length a + length alts ≤ total alts) alts
unfolding total
alts-bounded [] = tt
alts-bounded (a ∷ alts) =
    (omega (arith, length-total alts), All-widen (λ b h. omega (arith, h)) alts (alts-bounded alts))

-- Each alternative in place of the group makes a shorter pattern.
abbrev pub Shortens : Bytes → Group → Type 0
Shortens p g = All (λ a. length (replaced p g a) < length p) g.alts

some-injective : (g h : Group) → some g ≡ some h → g ≡ h
some-injective g h e = cc

at_least : (m n : ℕ) → ltb m n ≡ false → n ≤ m
at_least m n h = ground arith

length-replaced :
    (p : Bytes) (g : Group) (a : Bytes)
    → g.start < g.close
    → g.close < length p
    → length a + 2 ≤ length (body_of p g.start g.close) + 1
    → length (replaced p g a) < length p
length-replaced p g a lo hi h = omega (
  arith,
  lo,
  hi,
  h,
  length-append (take g.start p) (a ++ drop (g.close + 1) p),
  length-append a (drop (g.close + 1) p),
  length-take g.start p,
  length-drop (g.close + 1) p,
  length-take (g.close - (g.start + 1)) (drop (g.start + 1) p),
)

group_of-Shortens :
    (p : Bytes) (start i : ℕ) (g : Group)
    → start < i
    → i < length p
    → group_of start i (alternatives 0 0 [] (body_of p start i)) ≡ some g
    → Shortens p g
group_of-Shortens p start i g lo hi h =
    let alts = alternatives 0 0 [] (body_of p start i) in
    let (many, e) = if-none (ltb (length alts) 2) _ g h in
    let made : Group = record { start = start; close = i; alts = alts } in
    subst (Shortens p) (some-injective made g e) (
      All-widen
        (λ a k. length-replaced p made a lo hi (
          omega (
            arith,
            k,
            at_least (length alts) 2 many,
            total-alternatives 0 0 [] (body_of p start i),
          )))
        alts (alts-bounded alts))

-- Where the loop is inside a group, it is behind the group's start.
abbrev IsInside : ℕ → Scan → Type 0
IsInside i st = 0 < st.depth → st.start < i

scan_state-IsInside : (c i : ℕ) (st : Scan) → IsInside i st → IsInside (i + 1) (scan_state c i st)
unfolding scan_state
scan_state-IsInside c i st h = ground arith

ended-Shortens :
    (p : Bytes) (c i : ℕ) (st : Scan) (g : Group)
    → IsInside i st
    → i < length p
    → ended p c i st ≡ some g
    → Shortens p g
unfolding ended
ended-Shortens p c i st g inside hi h =
    let (closes, e) = if-some (c == b'}' && st.depth == 1) _ g h in
    let one_deep : st.depth ≡ 1 =
      (==_iff st.depth 1).0 ((&&_iff (c == b'}') (st.depth == 1)).0 closes).1 in
    group_of-Shortens p st.start i g (inside (omega (arith, one_deep))) hi e

or_else_iff : (o r : Option Group) (g : Group) → or_else o r ≡ some g → (o ≡ some g) ⊎ (r ≡ some g)
or_else_iff none r g h = inr h
or_else_iff (some k) r g h = inl h

skip-IsInside :
    (b : Bool) (i : ℕ) (c : ℕ) (st : Scan)
    → IsInside i st
    → IsInside (i + 1) (if b then record st { skip = st.skip - 1 } else scan_state c i st)
skip-IsInside true i c st h = λ k. omega (arith, h k)
skip-IsInside false i c st h = scan_state-IsInside c i st h

find_group-Shortens :
    (p : Bytes) (i : ℕ) (st : Scan) (s : Bytes) (g : Group)
    → IsInside i st
    → i + length s ≡ length p
    → find_group p i st s ≡ some g
    → Shortens p g
unfolding find_group
find_group-Shortens p i st [] g inside e h = cc
find_group-Shortens p i st (c ∷ s) g inside e h =
    let skipping = ltb 0 st.skip in
    let next = if skipping then record st { skip = st.skip - 1 } else scan_state c i st in
    elim (or_else_iff (if skipping then none else ended p c i st) (find_group p (i + 1) next s) g
      h) [
        | inl now ↦
            ended-Shortens p c i st g inside (omega (arith, e))
              (if-none skipping (ended p c i st) g now).1
        | inr later ↦
            find_group-Shortens p (i + 1) next s g (skip-IsInside skipping i c st inside)
              (omega (arith, e)) later
      ]

first_group-Shortens : (p : Bytes) (g : Group) → first_group p ≡ some g → Shortens p g
unfolding first_group
first_group-Shortens p g h =
    find_group-Shortens p 0 (record { skip = 0; depth = 0; start = 0 }) p g
      (λ k. absurd (omega (arith, k))) (omega arith) h

concat_map-cong :
    (f g : Bytes → List Bytes) (alts : List Bytes)
    → All (λ a. f a ≡ g a) alts
    → concat_map f alts ≡ concat_map g alts
unfolding concat_map
concat_map-cong f g [] h = refl
concat_map-cong f g (a ∷ alts) h = λ i. h.0 i ++ concat_map-cong f g alts h.1 i

-- More fuel than the pattern has bytes changes nothing.
pub expand_braces-fuel :
    (m n : ℕ) (p : Bytes) → length p < m → length p < n → expand_braces m p ≡ expand_braces n p
unfolding expand_braces
expand_braces-fuel zero n p h k = absurd (omega (arith, h))
expand_braces-fuel (suc m) zero p h k = absurd (omega (arith, k))
expand_braces-fuel (suc m) (suc n) p h k = elim (Option-cases (first_group p)) [
  | inl e ↦ ap (expand_at (expand_braces m) p) e ∙ ap (expand_at (expand_braces n) p) (sym e)
  | inr (g, e) ↦
      ap (expand_at (expand_braces m) p) e
      ∙ concat_map-cong (λ a. expand_braces m (replaced p g a))
          (λ a. expand_braces n (replaced p g a)) g.alts
          (All-widen
            (λ a s.
              expand_braces-fuel m n (replaced p g a) (omega (arith, s, h)) (omega (arith, s, k)))
            g.alts (first_group-Shortens p g e))
      ∙ ap (expand_at (expand_braces n) p) (sym e)
]

opened :
    (p : Bytes) (n : ℕ) → expand_braces (suc n) p ≡ expand_at (expand_braces n) p (first_group p)
unfolding expand_braces
opened p n = refl

-- globExpandBraces ends on each pattern, with the result that its own recursion describes: the pattern
-- itself where no group has two alternatives, and otherwise the expansions of the patterns that have
-- an alternative of the first such group in its place.
pub glob_expand_braces_lem :
    (p : Bytes) → glob_expand_braces p ≡ expand_at glob_expand_braces p (first_group p)
unfolding glob_expand_braces
glob_expand_braces_lem p = elim (Option-cases (first_group p)) [
  | inl e ↦
      opened p (length p)
      ∙ ap (expand_at (expand_braces (length p)) p) e
      ∙ ap (expand_at (λ q. expand_braces (suc (length q)) q) p) (sym e)
  | inr (g, e) ↦
      opened p (length p)
      ∙ ap (expand_at (expand_braces (length p)) p) e
      ∙ concat_map-cong (λ a. expand_braces (length p) (replaced p g a))
          (λ a. expand_braces (suc (length (replaced p g a))) (replaced p g a)) g.alts
          (All-widen
            (λ a s.
              expand_braces-fuel (length p) (suc (length (replaced p g a))) (replaced p g a) s
                (omega arith))
            g.alts (first_group-Shortens p g e))
      ∙ ap (expand_at (λ q. expand_braces (suc (length q)) q) p) (sym e)
]

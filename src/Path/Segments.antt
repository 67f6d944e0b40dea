-- ===== src/Path/Segments.antt =====
-- The loop over path segments that drops "." and lets ".." take the segment before it, which
-- win32Normalize of internal/host/path.go writes out and Go's `path.Clean` documents.
use mathlib.Core.List.{reverse, reverse-append}
use noderati.Prelude.{
  ℕ, ◌≡◌, refl, sym, ap, ◌∙◌, Bool, true, false, List, [], ◌∷◌, ◌++◌, append_assoc, inl, inr,
  if◌then◌else◌, Bool-cases, All, arith, length, length-append, map,
}
use noderati.Prelude.Strings.{Bytes, beq, beq→eq, codes}
use noderati.Prelude.Strings.Split.{IsSegment}

abbrev pub dot : Bytes
dot = codes "."

abbrev pub dotdot : Bytes
dotdot = codes ".."

-- The case "..". `out` is held with its last segment first.
parent : Bool → List Bytes → List Bytes
parent rooted [] = if rooted then [] else dotdot ∷ []
parent rooted (top ∷ out) =
    if beq top dotdot then (if rooted then top ∷ out else dotdot ∷ top ∷ out) else out

-- One round of the loop.
clean_step : Bool → List Bytes → Bytes → List Bytes
unfolding parent
clean_step rooted out seg =
    if beq seg dot then out else if beq seg dotdot then parent rooted out else seg ∷ out

-- The loop, from the segments kept so far.
unfoldable pub clean_from : Bool → List Bytes → List Bytes → List Bytes
unfolding clean_step
clean_from rooted out [] = out
clean_from rooted out (seg ∷ segs) = clean_from rooted (clean_step rooted out seg) segs

unfoldable pub clean_segments : Bool → List Bytes → List Bytes
unfolding clean_from
clean_segments rooted segs = reverse (clean_from rooted [] segs)

-- A segment that names an entry.
pub record IsName (w : Bytes) : Type 0 where
  pub not_dot : beq w dot ≡ false
  pub not_dotdot : beq w dotdot ≡ false

-- What the loop keeps: names, above a run of ".." that a rooted path does not have.
abbrev pub IsClean : Bool → List Bytes → Type 0
IsClean rooted [] = Unit
IsClean true (top ∷ out) = IsName top × IsClean true out
IsClean false (top ∷ out) =
    (beq top dot ≡ false) × (beq top dotdot ≡ true → All (λ w. w ≡ dotdot) out) × IsClean false out

pub clean_from-append :
    (rooted : Bool) (out xs ys : List Bytes)
    → clean_from rooted out (xs ++ ys) ≡ clean_from rooted (clean_from rooted out xs) ys
unfolding clean_from
clean_from-append rooted out [] ys = refl
clean_from-append rooted out (x ∷ xs) ys = clean_from-append rooted (clean_step rooted out x) xs ys

parent-IsClean :
    (rooted : Bool) (out : List Bytes) → IsClean rooted out → IsClean rooted (parent rooted out)
unfolding parent beq
parent-IsClean true [] h = tt
parent-IsClean false [] h = (refl, λ _. tt, tt)
parent-IsClean true (top ∷ out) h = rw (h.0.not_dotdot) (h.1)
parent-IsClean false (top ∷ out) h = elim (Bool-cases (beq top dotdot)) [
  | inl e ↦ rw e (refl, λ _. (beq→eq top dotdot e, h.1 e), h)
  | inr e ↦ rw e (h.2)
]

clean_step-IsClean :
    (rooted : Bool) (out : List Bytes) (seg : Bytes)
    → IsClean rooted out
    → IsClean rooted (clean_step rooted out seg)
unfolding clean_step
clean_step-IsClean rooted out seg h = elim (Bool-cases (beq seg dot)) [
  | inl e ↦ rw e h
  | inr e ↦ elim (Bool-cases (beq seg dotdot)) [
    | inl d ↦ rw (e, d) (parent-IsClean rooted out h)
    | inr d ↦ rw (e, d) (push rooted e d h)
  ]
]
  where
    push :
        (r : Bool)
        → beq seg dot ≡ false
        → beq seg dotdot ≡ false
        → IsClean r out
        → IsClean r (seg ∷ out)
    push true e d h = (record { not_dot = e; not_dotdot = d }, h)
    push false e d h = (e, λ t. absurd (clash (sym d ∙ t)), h)
      where
        clash : false ≡ true → ⊥
        clash q = cc

-- Whatever the segments, what is kept is clean.
pub clean_from-IsClean :
    (rooted : Bool) (out segs : List Bytes)
    → IsClean rooted out
    → IsClean rooted (clean_from rooted out segs)
unfolding clean_from
clean_from-IsClean rooted out [] h = h
clean_from-IsClean rooted out (seg ∷ segs) h =
    clean_from-IsClean rooted (clean_step rooted out seg) segs (clean_step-IsClean rooted out seg h)

clean_step-push :
    (rooted : Bool) (out : List Bytes) (seg : Bytes)
    → IsClean rooted (seg ∷ out)
    → clean_step rooted out seg ≡ seg ∷ out
unfolding clean_step parent beq
clean_step-push true out seg h = rw (h.0.not_dot, h.0.not_dotdot)
clean_step-push false [] seg h = elim (Bool-cases (beq seg dotdot)) [
  | inl d ↦ rw (h.0, d) (ap (λ w. w ∷ []) (sym (beq→eq seg dotdot d)))
  | inr d ↦ rw (h.0, d)
]
clean_step-push false (top ∷ out) seg h = elim (Bool-cases (beq seg dotdot)) [
  | inl d ↦ rw (h.0, d, (h.1 d).0) (ap (λ w. w ∷ dotdot ∷ out) (sym (beq→eq seg dotdot d)))
  | inr d ↦ rw (h.0, d)
]

IsClean-tail :
    (rooted : Bool) (top : Bytes) (out : List Bytes)
    → IsClean rooted (top ∷ out)
    → IsClean rooted out
IsClean-tail true top out h = h.1
IsClean-tail false top out h = h.2

reverse-cons : (w : Bytes) (ws : List Bytes) → reverse (w ∷ ws) ≡ reverse ws ++ (w ∷ [])
reverse-cons w ws = reverse-append (w ∷ []) ws

-- A clean list of segments goes through the loop as it is.
pub clean_from-reverse :
    (rooted : Bool) (out : List Bytes)
    → IsClean rooted out
    → clean_from rooted [] (reverse out) ≡ out
clean_from-reverse rooted [] h = unfold clean_from in refl
clean_from-reverse rooted (top ∷ out) h =
    rw
      (
        reverse-cons top out,
        clean_from-append rooted [] (reverse out) (top ∷ []),
        clean_from-reverse rooted out (IsClean-tail rooted top out h),
      )
      (unfold clean_from in clean_step-push rooted out top h)

-- Cleaning what has been cleaned, with more segments behind it.
pub clean_from-clean_segments :
    (rooted : Bool) (xs ys : List Bytes)
    → clean_from rooted [] (clean_segments rooted xs ++ ys) ≡ clean_from rooted [] (xs ++ ys)
unfolding clean_segments
clean_from-clean_segments rooted xs ys = rw (
  clean_from-append rooted [] (reverse (clean_from rooted [] xs)) ys,
  clean_from-reverse rooted (clean_from rooted [] xs) (clean_from-IsClean rooted [] xs tt),
  clean_from-append rooted [] xs ys,
)

pub clean_segments_idem :
    (rooted : Bool) (xs : List Bytes)
    → clean_segments rooted (clean_segments rooted xs) ≡ clean_segments rooted xs
unfolding clean_segments
clean_segments_idem rooted xs =
    ap reverse
      (clean_from-reverse rooted (clean_from rooted [] xs) (clean_from-IsClean rooted [] xs tt))

-- Where the path is rooted, everything kept is a name.
IsClean→All : (out : List Bytes) → IsClean true out → All IsName out
IsClean→All [] h = tt
IsClean→All (top ∷ out) h = (h.0, IsClean→All out h.1)

pub All-append {ℓ} :
    (P : Bytes → Type ℓ) (xs ys : List Bytes) → All P xs → All P ys → All P (xs ++ ys)
All-append P [] ys h k = k
All-append P (x ∷ xs) ys h k = (h.0, All-append P xs ys h.1 k)

pub All-reverse {ℓ} : (P : Bytes → Type ℓ) (xs : List Bytes) → All P xs → All P (reverse xs)
All-reverse P [] h = tt
All-reverse P (x ∷ xs) h =
    rw (reverse-cons x xs) (All-append P (reverse xs) (x ∷ []) (All-reverse P xs h.1) (h.0, tt))

pub clean_segments-All-IsName : (xs : List Bytes) → All IsName (clean_segments true xs)
unfolding clean_segments
clean_segments-All-IsName xs =
    All-reverse IsName (clean_from true [] xs)
      (IsClean→All (clean_from true [] xs) (clean_from-IsClean true [] xs tt))

-- Names go through the loop as they are.
pub clean_from-names :
    (out ws : List Bytes) → All IsName ws → clean_from true out ws ≡ reverse ws ++ out
unfolding clean_from clean_step
clean_from-names out [] h = refl
clean_from-names out (w ∷ ws) h =
    rw (h.0.not_dot, h.0.not_dotdot, clean_from-names (w ∷ out) ws h.1, reverse-cons w ws)
      (sym (append_assoc (reverse ws) (w ∷ []) out))

clean_step-dotdot :
    (top : Bytes) (out : List Bytes) → IsName top → clean_step true (top ∷ out) dotdot ≡ out
unfolding clean_step parent beq
clean_step-dotdot top out h = rw (h.not_dotdot)

-- As many ".." as there are names take the names away.
pub clean_from-dotdots :
    (st ds ys base : List Bytes)
    → length st ≡ length ds
    → All IsName st
    → clean_from true (st ++ base) (map (λ _. dotdot) ds ++ ys) ≡ clean_from true base ys
unfolding clean_from
clean_from-dotdots [] [] ys base e h = refl
clean_from-dotdots [] (d ∷ ds) ys base e h = absurd (omega arith)
clean_from-dotdots (s ∷ st) [] ys base e h = absurd (omega arith)
clean_from-dotdots (s ∷ st) (d ∷ ds) ys base e h =
    ap (λ out. clean_from true out (map (λ _. dotdot) ds ++ ys))
      (clean_step-dotdot s (st ++ base) h.0)
    ∙ clean_from-dotdots st ds ys base (omega arith) h.1

pub length-reverse : (xs : List Bytes) → length (reverse xs) ≡ length xs
length-reverse [] = refl
length-reverse (x ∷ xs) =
    rw (reverse-cons x xs) (omega (arith, length-append (reverse xs) (x ∷ []), length-reverse xs))

-- The loop makes no segment of its own but "..".
parent-All :
    (sep : ℕ) (rooted : Bool) (out : List Bytes)
    → IsSegment sep dotdot
    → All (IsSegment sep) out
    → All (IsSegment sep) (parent rooted out)
unfolding parent
parent-All sep true [] d h = tt
parent-All sep false [] d h = (d, tt)
parent-All sep rooted (top ∷ out) d h = elim (Bool-cases (beq top dotdot)) [
  | inl e ↦ rw e (keep rooted)
  | inr e ↦ rw e (h.1)
]
  where
    keep : (r : Bool) → All (IsSegment sep) (if r then top ∷ out else dotdot ∷ top ∷ out)
    keep true = h
    keep false = (d, h)

clean_step-All :
    (sep : ℕ) (rooted : Bool) (out : List Bytes) (seg : Bytes)
    → IsSegment sep dotdot
    → All (IsSegment sep) out
    → IsSegment sep seg
    → All (IsSegment sep) (clean_step rooted out seg)
unfolding clean_step
clean_step-All sep rooted out seg d h k = elim (Bool-cases (beq seg dot)) [
  | inl e ↦ rw e h
  | inr e ↦ elim (Bool-cases (beq seg dotdot)) [
    | inl t ↦ rw (e, t) (parent-All sep rooted out d h)
    | inr t ↦ rw (e, t) (k, h)
  ]
]

clean_from-All :
    (sep : ℕ) (rooted : Bool) (out segs : List Bytes)
    → IsSegment sep dotdot
    → All (IsSegment sep) out
    → All (IsSegment sep) segs
    → All (IsSegment sep) (clean_from rooted out segs)
unfolding clean_from
clean_from-All sep rooted out [] d h k = h
clean_from-All sep rooted out (s ∷ segs) d h k =
    clean_from-All sep rooted (clean_step rooted out s) segs d
      (clean_step-All sep rooted out s d h k.0) k.1

pub clean_segments-All :
    (sep : ℕ) (rooted : Bool) (segs : List Bytes)
    → IsSegment sep dotdot
    → All (IsSegment sep) segs
    → All (IsSegment sep) (clean_segments rooted segs)
unfolding clean_segments
clean_segments-All sep rooted segs d h =
    All-reverse (IsSegment sep) (clean_from rooted [] segs)
      (clean_from-All sep rooted [] segs d tt h)

-- ===== src/Path/Relative.antt =====
-- posixRelative undoes posixResolve.
use mathlib.Core.List.{reverse, reverse-reverse, reverse-append}
use mathlib.Core.Path.{ap₂}
use noderati.Prelude.{
  ℕ, zero, suc, ◌≡◌, refl, sym, ap, ◌∙◌, true, false, Option, List, [], ◌∷◌, ◌++◌, inl, inr,
  if◌then◌else◌, Bool-cases, All, arith, take, drop, map, take-append-drop,
}
use noderati.Prelude.Strings.{Bytes, beq, beq→eq, join, contains_byte, has_prefix, split_non_empty}
use noderati.Prelude.Strings.Split.{IsSegment, split_non_empty-join}
use noderati.Path.Segments.{
  dotdot, IsName, clean_from, clean_segments, clean_from-append, clean_from-names, All-append,
  clean_from-dotdots, clean_segments-All-IsName, length-reverse, All-reverse,
}
use noderati.Path.GoPath.{is_abs}
use noderati.Path.Posix.{cwd_of, posix_resolve, posix_relative, common_count, relative_segments}
use noderati.Path.Resolve.{
  segs, abs_of, walk, resolved_segs, resolved_segs-All, posix_resolve_lem, segs-abs_of,
  dotdot-IsSegment,
}

-- Up to the index where the loop stops the two lists agree.
common_count-take :
    (xs ys : List Bytes) → take (common_count beq xs ys) xs ≡ take (common_count beq xs ys) ys
unfolding common_count
common_count-take [] ys = refl
common_count-take (x ∷ xs) [] = refl
common_count-take (x ∷ xs) (y ∷ ys) = elim (Bool-cases (beq x y)) [
  | inl e ↦ rw e (rw (beq→eq x y e) (ap (λ l. y ∷ l) (common_count-take xs ys)))
  | inr e ↦ rw e
]

All-drop {ℓ} : (P : Bytes → Type ℓ) (n : ℕ) (xs : List Bytes) → All P xs → All P (drop n xs)
All-drop P zero xs h = h
All-drop P (suc n) [] h = h
All-drop P (suc n) (x ∷ xs) h = All-drop P n xs h.1

-- From a rooted list of names, the segments of the relative path lead to the other list.
clean_from-relative :
    (xs ys : List Bytes)
    → All IsName xs
    → All IsName ys
    → clean_from true (reverse xs) (relative_segments beq xs ys) ≡ reverse ys
unfolding relative_segments
clean_from-relative xs ys h k =
    let i = common_count beq xs ys in
    let same : reverse xs ≡ reverse (drop i xs) ++ reverse (take i xs) =
      ap reverse (sym (take-append-drop i xs)) ∙ reverse-append (take i xs) (drop i xs) in
    let whole : take i xs ++ drop i ys ≡ ys =
      ap (λ l. l ++ drop i ys) (common_count-take xs ys) ∙ take-append-drop i ys in
    ap (λ l. clean_from true l (map (λ _. dotdot) (drop i xs) ++ drop i ys)) same
    ∙ clean_from-dotdots (reverse (drop i xs)) (drop i xs) (drop i ys) (reverse (take i xs))
        (length-reverse (drop i xs)) (All-reverse IsName (drop i xs) (All-drop IsName i xs h))
    ∙ clean_from-names (reverse (take i xs)) (drop i ys) (All-drop IsName i ys k)
    ∙ sym (reverse-append (take i xs) (drop i ys))
    ∙ ap reverse whole

map-dotdot-All : (xs : List Bytes) → All (IsSegment b'/') (map (λ _. dotdot) xs)
map-dotdot-All [] = tt
map-dotdot-All (x ∷ xs) = (dotdot-IsSegment, map-dotdot-All xs)

relative_segments-All :
    (xs ys : List Bytes)
    → All (IsSegment b'/') ys
    → All (IsSegment b'/') (relative_segments beq xs ys)
unfolding relative_segments
relative_segments-All xs ys h =
    let i = common_count beq xs ys in
    All-append (IsSegment b'/') (map (λ _. dotdot) (drop i xs)) (drop i ys)
      (map-dotdot-All (drop i xs)) (All-drop (IsSegment b'/') i ys h)

is_abs-join : (ws : List Bytes) → All (IsSegment b'/') ws → is_abs (join b'/' ws) ≡ false
unfolding is_abs has_prefix join
is_abs-join [] h = refl
is_abs-join ([] ∷ ws) h = cc (h.0.filled)
is_abs-join ((c ∷ w) ∷ []) h = unfold contains_byte in ground (arith, h.0.lacks)
is_abs-join ((c ∷ w) ∷ v ∷ ws) h = unfold contains_byte in ground (arith, h.0.lacks)

-- A relative path behind one argument goes on from where that argument leads.
resolved_segs-relative :
    (getwd : Option Bytes) (from rel : Bytes)
    → is_abs rel ≡ false
    → resolved_segs getwd (from ∷ rel ∷ [])
      ≡ reverse (clean_from true (reverse (resolved_segs getwd (from ∷ []))) (segs rel))
unfolding resolved_segs clean_segments walk
resolved_segs-relative getwd from rel h =
    let walked = walk (segs (cwd_of getwd)) (from ∷ []) in
    ap (λ b. clean_segments true (if b then segs rel else walked ++ segs rel)) h
    ∙ ap reverse (
        clean_from-append true [] walked (segs rel)
        ∙ ap (λ l. clean_from true l (segs rel))
            (sym (reverse-reverse (clean_from true [] walked))))

is_abs-nil : is_abs [] ≡ false
unfolding is_abs has_prefix
is_abs-nil = refl

clean_from-nil : (xs : List Bytes) → reverse (clean_from true (reverse xs) (segs [])) ≡ xs
unfolding clean_from split_non_empty
clean_from-nil xs = reverse-reverse xs

abbrev relative_of : Bytes → Bytes → Bytes
relative_of a b = if beq a b then [] else join b'/' (relative_segments beq (segs a) (segs b))

posix_relative_lem :
    (getwd : Option Bytes) (from to : Bytes)
    → is_abs (cwd_of getwd) ≡ true
    → let from_segs = resolved_segs getwd (from ∷ []) in
      let to_segs = resolved_segs getwd (to ∷ []) in
      posix_relative getwd from to ≡ (
        if beq (abs_of from_segs) (abs_of to_segs)
        then []
        else join b'/' (relative_segments beq from_segs to_segs))
unfolding posix_relative
posix_relative_lem getwd from to h =
    let from_segs = resolved_segs getwd (from ∷ []) in
    let to_segs = resolved_segs getwd (to ∷ []) in
    ap₂ relative_of (posix_resolve_lem getwd (from ∷ []) h).0
      (posix_resolve_lem getwd (to ∷ []) h).0
    ∙ ap₂
        (λ xs ys.
          if beq (abs_of from_segs) (abs_of to_segs)
          then []
          else join b'/' (relative_segments beq xs ys))
        (segs-abs_of from_segs (resolved_segs-All getwd (from ∷ [])))
        (segs-abs_of to_segs (resolved_segs-All getwd (to ∷ [])))

clean_from-join :
    (xs ys : List Bytes)
    → All IsName xs
    → All IsName ys
    → All (IsSegment b'/') ys
    → reverse (clean_from true (reverse xs) (segs (join b'/' (relative_segments beq xs ys)))) ≡ ys
clean_from-join xs ys h k seg =
    ap (λ l. reverse (clean_from true (reverse xs) l))
      (split_non_empty-join b'/' (relative_segments beq xs ys) (relative_segments-All xs ys seg))
    ∙ ap reverse (clean_from-relative xs ys h k)
    ∙ reverse-reverse ys

-- `path.posix.relative(from, to)`, resolved from `from`, is where `to` resolves to, where the
-- working directory is absolute.
pub posix_resolve-relative :
    (getwd : Option Bytes) (from to : Bytes)
    → is_abs (cwd_of getwd) ≡ true
    → posix_resolve getwd (from ∷ posix_relative getwd from to ∷ []) ≡ posix_resolve getwd (to ∷ [])
posix_resolve-relative getwd from to h =
    let from_segs = resolved_segs getwd (from ∷ []) in
    let to_segs = resolved_segs getwd (to ∷ []) in
    let same = beq (abs_of from_segs) (abs_of to_segs) in
    let rel = join b'/' (relative_segments beq from_segs to_segs) in
    let all = resolved_segs-All getwd (to ∷ []) in
    let named : (parts : List Bytes) → All IsName (resolved_segs getwd parts) = λ parts.
      unfold resolved_segs in clean_segments-All-IsName (walk (segs (cwd_of getwd)) parts) in
    (posix_resolve_lem getwd (from ∷ posix_relative getwd from to ∷ []) h).0
    ∙ ap (λ r. abs_of (resolved_segs getwd (from ∷ r ∷ []))) (posix_relative_lem getwd from to h)
    ∙ (elim (Bool-cases same) [
      | inl e ↦ rw e (
          ap abs_of (resolved_segs-relative getwd from [] is_abs-nil ∙ clean_from-nil from_segs)
          ∙ beq→eq (abs_of from_segs) (abs_of to_segs) e)
      | inr e ↦ rw e (
          ap abs_of (
            resolved_segs-relative getwd from rel (
              is_abs-join (relative_segments beq from_segs to_segs)
                (relative_segments-All from_segs to_segs all))
            ∙ clean_from-join from_segs to_segs (named (from ∷ [])) (named (to ∷ [])) all))
    ])
    ∙ sym (posix_resolve_lem getwd (to ∷ []) h).0

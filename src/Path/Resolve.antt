-- ===== src/Path/Resolve.antt =====
-- posixResolve: what it computes, in terms of the arguments' segments.
use mathlib.Core.List.{reverse}
use noderati.Prelude.{
  ◌≡◌, refl, sym, ap, ◌∙◌, true, false, Option, List, [], ◌∷◌, ◌++◌, append-nil, append_assoc, inl,
  inr, if◌then◌else◌, Bool-cases, All,
}
use noderati.Prelude.Strings.{
  Bytes, is_empty, has_prefix, split_non_empty, join, drop_empty, contains_byte,
}
use noderati.Prelude.Strings.Split.{
  IsSegment, split_non_empty-All, split_non_empty-append, split_non_empty-cons_sep,
  split_non_empty-join,
}
use noderati.Path.Segments.{
  dotdot, clean_from, clean_segments, clean_from-clean_segments, clean_segments_idem,
  clean_segments-All, All-append,
}
use noderati.Path.GoPath.{is_abs, spell, clean, join_elems}
use noderati.Path.Posix.{cwd_of, resolve_loop, posix_resolve, path_resolve}

-- The segments of a path, and the rooted path with given segments.
abbrev pub segs : Bytes → List Bytes
segs p = split_non_empty p b'/'

abbrev pub abs_of : List Bytes → Bytes
abs_of ws = b'/' ∷ join b'/' ws

-- The segments that the arguments of a call leave, before "." and ".." are taken out: an absolute
-- argument discards what stood before it, and a relative one is appended.
unfoldable pub walk : List Bytes → List Bytes → List Bytes
walk acc [] = acc
walk acc (part ∷ parts) = walk (if is_abs part then segs part else acc ++ segs part) parts

pub dotdot-IsSegment : IsSegment b'/' dotdot
dotdot-IsSegment = record { filled = refl; lacks = unfold contains_byte in refl }

pub is_abs-cons : (p : Bytes) → is_abs p ≡ true → is_empty p ≡ false
unfolding is_abs has_prefix
is_abs-cons [] h = cc
is_abs-cons (c ∷ p) h = refl

-- `path.Clean` of a rooted path.
pub clean_abs : (p : Bytes) → is_abs p ≡ true → clean p ≡ abs_of (clean_segments true (segs p))
unfolding clean spell
clean_abs p h = rw (is_abs-cons p h, h)

pub segs-abs_of : (ws : List Bytes) → All (IsSegment b'/') ws → segs (abs_of ws) ≡ ws
segs-abs_of ws h = split_non_empty-cons_sep b'/' (join b'/' ws) ∙ split_non_empty-join b'/' ws h

pub is_abs-abs_of : (ws : List Bytes) → is_abs (abs_of ws) ≡ true
unfolding is_abs has_prefix
is_abs-abs_of ws = refl

pub clean_segs-All :
    (p : List Bytes) → All (IsSegment b'/') p → All (IsSegment b'/') (clean_segments true p)
clean_segs-All p h = clean_segments-All b'/' true p dotdot-IsSegment h

is_abs-append : (p q : Bytes) → is_abs p ≡ true → is_abs (p ++ q) ≡ true
unfolding is_abs has_prefix
is_abs-append [] q h = cc
is_abs-append (c ∷ p) q h = h

join_elems-two :
    (p q : Bytes)
    → is_empty p ≡ false
    → is_empty q ≡ false
    → join_elems (p ∷ q ∷ []) ≡ clean (p ++ (b'/' ∷ q))
unfolding join_elems drop_empty join
join_elems-two [] q h k = cc
join_elems-two (c ∷ p) [] h k = cc
join_elems-two (c ∷ p) (d ∷ q) h k = refl

-- `path.Join` of a rooted path and a part that is not empty.
join_elems-abs :
    (p q : Bytes)
    → is_abs p ≡ true
    → is_empty q ≡ false
    → join_elems (p ∷ q ∷ []) ≡ abs_of (clean_segments true (segs p ++ segs q))
join_elems-abs p q h k =
    rw (join_elems-two p q (is_abs-cons p h) k, ← split_non_empty-append b'/' p q)
      (clean_abs (p ++ (b'/' ∷ q)) (is_abs-append p (b'/' ∷ q) h))

-- Only what the segments clean to matters to the rest of the walk.
walk-clean :
    (xs ys parts : List Bytes)
    → ((zs : List Bytes) → clean_from true [] (xs ++ zs) ≡ clean_from true [] (ys ++ zs))
    → clean_segments true (walk xs parts) ≡ clean_segments true (walk ys parts)
unfolding walk clean_segments
walk-clean xs ys [] h =
    ap reverse (
      ap (clean_from true []) (sym (append-nil xs))
      ∙ h []
      ∙ ap (clean_from true []) (append-nil ys))
walk-clean xs ys (part ∷ parts) h = elim (Bool-cases (is_abs part)) [
  | inl e ↦ rw e
  | inr e ↦ rw e (
      walk-clean (xs ++ segs part) (ys ++ segs part) parts λ zs.
        rw (append_assoc xs (segs part) zs, append_assoc ys (segs part) zs) (h (segs part ++ zs)))
]

segs_pair-All : (p q : Bytes) → All (IsSegment b'/') (segs p ++ segs q)
segs_pair-All p q =
    All-append (IsSegment b'/') (segs p) (segs q) (split_non_empty-All b'/' p)
      (split_non_empty-All b'/' q)

-- The loop keeps `resolved` rooted, and it has the segments of the walk.
resolve_loop-walk :
    (r : Bytes) (parts : List Bytes)
    → is_abs r ≡ true
    → (is_abs (resolve_loop r parts) ≡ true)
      × (clean_segments true (segs (resolve_loop r parts))
          ≡ clean_segments true (walk (segs r) parts))
unfolding resolve_loop walk
resolve_loop-walk r [] h = (h, refl)
resolve_loop-walk r ([] ∷ parts) h =
    let (a, e) = resolve_loop-walk r parts h in
    (a, e ∙ ap (λ l. clean_segments true (walk l parts)) (sym (append-nil (segs r))))
resolve_loop-walk r ((c ∷ part) ∷ parts) h = elim (Bool-cases (is_abs (c ∷ part))) [
  | inl e ↦ rw e (resolve_loop-walk (c ∷ part) parts e)
  | inr e ↦
      rw (e, join_elems-abs r (c ∷ part) h refl)
        (let next = clean_segments true (segs r ++ segs (c ∷ part)) in
          let (a, q) = resolve_loop-walk (abs_of next) parts (is_abs-abs_of next) in
          let raw = segs r ++ segs (c ∷ part) in
          let all = clean_segs-All raw (segs_pair-All r (c ∷ part)) in
          (
            a,
            q
                ∙ ap (λ l. clean_segments true (walk l parts)) (segs-abs_of next all)
                ∙ walk-clean next raw parts (λ zs. clean_from-clean_segments true raw zs),
          ))
]

walk-All :
    (acc parts : List Bytes) → All (IsSegment b'/') acc → All (IsSegment b'/') (walk acc parts)
unfolding walk
walk-All acc [] h = h
walk-All acc (part ∷ parts) h = elim (Bool-cases (is_abs part)) [
  | inl e ↦ rw e (walk-All (segs part) parts (split_non_empty-All b'/' part))
  | inr e ↦ rw e (
      walk-All (acc ++ segs part) parts
        (All-append (IsSegment b'/') acc (segs part) h (split_non_empty-All b'/' part)))
]

-- The segments of the path that a call returns.
unfoldable pub resolved_segs : Option Bytes → List Bytes → List Bytes
unfolding walk
resolved_segs getwd parts = clean_segments true (walk (segs (cwd_of getwd)) parts)

pub resolved_segs-All :
    (getwd : Option Bytes) (parts : List Bytes) → All (IsSegment b'/') (resolved_segs getwd parts)
unfolding resolved_segs
resolved_segs-All getwd parts =
    clean_segs-All (walk (segs (cwd_of getwd)) parts)
      (walk-All (segs (cwd_of getwd)) parts (split_non_empty-All b'/' (cwd_of getwd)))

-- Both `path.posix.resolve` and `path.resolve` return the rooted path whose segments are those of
-- the walk over the arguments from the working directory, with "." and ".." taken out, where the
-- working directory is absolute.
pub posix_resolve_lem :
    (getwd : Option Bytes) (parts : List Bytes)
    → is_abs (cwd_of getwd) ≡ true
    → (posix_resolve getwd parts ≡ abs_of (resolved_segs getwd parts))
      × (path_resolve getwd parts ≡ abs_of (resolved_segs getwd parts))
unfolding posix_resolve path_resolve resolved_segs
posix_resolve_lem getwd parts h =
    let (a, e) = resolve_loop-walk (cwd_of getwd) parts h in
    let q = clean_abs (resolve_loop (cwd_of getwd) parts) a ∙ ap abs_of e in
    (rw (q, is_abs-abs_of (clean_segments true (walk (segs (cwd_of getwd)) parts))), q)

-- Where the working directory is absolute, the result of `resolve` is absolute, and `path.Clean`
-- leaves it as it is.
pub posix_resolve-clean :
    (getwd : Option Bytes) (parts : List Bytes)
    → is_abs (cwd_of getwd) ≡ true
    → (is_abs (posix_resolve getwd parts) ≡ true)
      × (clean (posix_resolve getwd parts) ≡ posix_resolve getwd parts)
posix_resolve-clean getwd parts h = rw ((posix_resolve_lem getwd parts h).0) (
  is_abs-abs_of (resolved_segs getwd parts),
  clean_abs (abs_of (resolved_segs getwd parts)) (is_abs-abs_of (resolved_segs getwd parts))
      ∙ ap (λ l. abs_of (clean_segments true l))
          (segs-abs_of (resolved_segs getwd parts) (resolved_segs-All getwd parts))
      ∙ ap abs_of
          (unfold resolved_segs in clean_segments_idem true (walk (segs (cwd_of getwd)) parts)),
)

walk-later_absolute :
    (acc acc' before : List Bytes) (part : Bytes) (after : List Bytes)
    → is_abs part ≡ true
    → walk acc (before ++ (part ∷ after)) ≡ walk acc' (part ∷ after)
unfolding walk
walk-later_absolute acc acc' [] part after h =
    ap (λ b. walk (if b then segs part else acc ++ segs part) after) h
    ∙ sym (ap (λ b. walk (if b then segs part else acc' ++ segs part) after) h)
walk-later_absolute acc acc' (b ∷ before) part after h =
    walk-later_absolute (if is_abs b then segs b else acc ++ segs b) acc' before part after h

-- A later absolute argument wins: where the working directory is absolute, the arguments before an
-- absolute one do not matter, to `path.posix.resolve` and to `path.resolve`.
pub resolve-later_absolute :
    (getwd : Option Bytes) (before : List Bytes) (part : Bytes) (after : List Bytes)
    → is_abs (cwd_of getwd) ≡ true
    → is_abs part ≡ true
    → (posix_resolve getwd (before ++ (part ∷ after)) ≡ posix_resolve getwd (part ∷ after))
      × (path_resolve getwd (before ++ (part ∷ after)) ≡ path_resolve getwd (part ∷ after))
resolve-later_absolute getwd before part after h k =
    let (p, q) = posix_resolve_lem getwd (before ++ (part ∷ after)) h in
    let (p', q') = posix_resolve_lem getwd (part ∷ after) h in
    let e : resolved_segs getwd (before ++ (part ∷ after)) ≡ resolved_segs getwd (part ∷ after) =
      unfold resolved_segs in
      ap (clean_segments true)
        (walk-later_absolute (segs (cwd_of getwd)) (segs (cwd_of getwd)) before part after k) in
    (p ∙ ap abs_of e ∙ sym p', q ∙ ap abs_of e ∙ sym q')

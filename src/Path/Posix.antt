-- ===== src/Path/Posix.antt =====
-- posixNormalize, posixResolve, posixRelative and the top-level `path.resolve` of
-- internal/host/path.go, on a Unix host. `os.Getwd` is an argument: `none` is its error.
use noderati.Prelude.{
  ℕ, suc, Bool, not, ◌&&◌, Option, none, some, List, [], ◌∷◌, ◌++◌, map, drop, if◌then◌else◌,
}
use noderati.Prelude.Strings.{Bytes, is_empty, beq, ends_with, split_non_empty, join, codes}
use noderati.Path.Segments.{dot, dotdot}
use noderati.Path.GoPath.{is_abs, clean, join_elems}

unfoldable pub posix_normalize : Bytes → Bytes
unfolding clean ends_with beq
posix_normalize p =
    if is_empty p
    then dot
    else let trailing_slash = ends_with b'/' p && not (beq p (codes "/")) in
      let cleaned = clean p in
      if trailing_slash && not (ends_with b'/' cleaned) then cleaned ++ codes "/" else cleaned

-- `cwd`, with the value it has when `os.Getwd` fails
abbrev pub cwd_of : Option Bytes → Bytes
cwd_of none = codes "/"
cwd_of (some wd) = wd

-- One round of the loop over the arguments.
pub resolve_step : Bytes → Bytes → Bytes
unfolding is_abs join_elems
resolve_step resolved part =
    if is_empty part
    then resolved
    else if is_abs part
    then part
    else join_elems (resolved ∷ part ∷ [])

unfoldable pub resolve_loop : Bytes → List Bytes → Bytes
unfolding resolve_step
resolve_loop resolved [] = resolved
resolve_loop resolved (part ∷ parts) = resolve_loop (resolve_step resolved part) parts

unfoldable pub posix_resolve : Option Bytes → List Bytes → Bytes
unfolding resolve_loop clean is_abs join_elems
posix_resolve getwd parts =
    let resolved = clean (resolve_loop (cwd_of getwd) parts) in
    if is_abs resolved then resolved else join_elems (cwd_of getwd ∷ resolved ∷ [])

-- The function that the module `path` exports as `resolve`.
unfoldable pub path_resolve : Option Bytes → List Bytes → Bytes
unfolding resolve_loop clean
path_resolve getwd parts = clean (resolve_loop (cwd_of getwd) parts)

-- The index `i` where the loop of posixRelative stops.
unfoldable pub common_count : (Bytes → Bytes → Bool) → List Bytes → List Bytes → ℕ
common_count eq [] ys = 0
common_count eq (x ∷ xs) [] = 0
common_count eq (x ∷ xs) (y ∷ ys) =
    let rest = common_count eq xs ys in if eq x y then suc rest else 0

-- The segments of the result: one ".." for each of `fromParts[i:]`, then `toParts[i:]`.
unfoldable pub relative_segments : (Bytes → Bytes → Bool) → List Bytes → List Bytes → List Bytes
unfolding common_count
relative_segments eq from_parts to_parts =
    let i = common_count eq from_parts to_parts in
    map (λ _. dotdot) (drop i from_parts) ++ drop i to_parts

unfoldable pub posix_relative : Option Bytes → Bytes → Bytes → Bytes
unfolding posix_resolve relative_segments beq split_non_empty join
posix_relative getwd from to =
    let from' = posix_resolve getwd (from ∷ []) in
    let to' = posix_resolve getwd (to ∷ []) in
    if beq from' to'
    then []
    else join b'/' (relative_segments beq (split_non_empty from' b'/') (split_non_empty to' b'/'))

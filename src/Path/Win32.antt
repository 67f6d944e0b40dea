-- ===== src/Path/Win32.antt =====
-- The win32 functions of internal/host/path.go. A path is a byte string, as in Go, so an index is
-- a byte's. `os.Getwd` is an argument, `none` its error; `strings.EqualFold`, which folds Unicode
-- case, is an argument too.
pub mod Names
pub mod Faults
use noderati.Prelude.{
  ℕ, zero, suc, ◌+◌, ◌≡◌, refl, Bool, true, false, not, ◌&&◌, ◌||◌, Option, none, some, List, [],
  ◌∷◌, ◌++◌, take, drop, length, if◌then◌else◌, leb, ltb, ◌==◌,
}
use noderati.Prelude.Strings.{
  Bytes, is_empty, beq, has_prefix, ends_with, split_non_empty, drop_empty, join, codes,
  replace_byte, last_index, trim_prefix,
}
use noderati.Path.Segments.{dot, clean_segments}
use noderati.Path.Posix.{relative_segments}

-- The byte `\`.
abbrev pub backslash : ℕ
backslash = 92

-- `strings.ReplaceAll(p, "/", "\")`
unfoldable pub to_backslashes : Bytes → Bytes
unfolding replace_byte
to_backslashes p = replace_byte b'/' backslash p

-- The result where `i` is the index of the last separator.
abbrev pub basename_at : Bytes → Option ℕ → Bytes
basename_at q none = q
basename_at q (some i) = drop (suc i) q

unfoldable pub win32_basename : Bytes → Bytes
unfolding to_backslashes last_index
win32_basename p = let q = to_backslashes p in basename_at q (last_index backslash q)

abbrev pub dirname_at : Bytes → Option ℕ → Bytes
dirname_at q none = dot
dirname_at q (some zero) = backslash ∷ []
dirname_at q (some (suc i)) = take (suc i) q

unfoldable pub win32_dirname : Bytes → Bytes
unfolding to_backslashes last_index
win32_dirname p = let q = to_backslashes p in dirname_at q (last_index backslash q)

-- The result where `i` is the index of the last dot.
abbrev pub extname_at : Bytes → Option ℕ → Bytes
extname_at base none = []
extname_at base (some zero) = []
extname_at base (some (suc i)) = drop (suc i) base

unfoldable pub win32_extname : Bytes → Bytes
unfolding win32_basename last_index
win32_extname p = let base = win32_basename p in extname_at base (last_index b'.' base)

unfoldable pub is_drive_letter : ℕ → Bool
is_drive_letter b = (leb b'a' b && leb b b'z') || (leb b'A' b && leb b b'Z')

is_separator : ℕ → Bool
is_separator b = b == backslash || b == b'/'

has_drive_root : Bytes → Bool
unfolding is_drive_letter is_separator
has_drive_root (a ∷ b ∷ c ∷ p) = is_drive_letter a && (b == b':' && is_separator c)
has_drive_root _ = false

unfoldable pub win32_is_absolute : Bytes → Bool
unfolding has_drive_root has_prefix
win32_is_absolute p =
    if has_drive_root p then true else has_prefix (backslash ∷ []) p || has_prefix (codes "/") p

-- `prefix` and `rest` of win32Normalize
unfoldable pub drive_split : Bytes → Bytes × Bytes
unfolding is_drive_letter
drive_split [] = ([], [])
drive_split (a ∷ []) = ([], a ∷ [])
drive_split (a ∷ b ∷ rest) =
    if is_drive_letter a && b == b':' then (a ∷ b ∷ [], rest) else ([], a ∷ b ∷ rest)

-- The end of win32Normalize: the separators before and behind the joined segments.
unfoldable pub with_separators : Bool → Bool → Bytes → Bytes
unfolding beq
with_separators leading trailing joined =
    let result = if leading then backslash ∷ joined else if is_empty joined then dot else joined in
    if trailing && not (beq result (backslash ∷ [])) then result ++ (backslash ∷ []) else result

unfoldable pub normalize_rest : Bytes → Bytes
unfolding with_separators clean_segments split_non_empty join has_prefix ends_with beq
normalize_rest rest =
    let leading = has_prefix (backslash ∷ []) rest in
    let trailing = ends_with backslash rest && not (beq rest (backslash ∷ [])) in
    with_separators leading trailing
      (join backslash (clean_segments leading (split_non_empty rest backslash)))

unfoldable pub win32_normalize : Bytes → Bytes
unfolding to_backslashes drive_split normalize_rest
win32_normalize p =
    let q = to_backslashes p in
    if is_empty q then dot else (drive_split q).0 ++ normalize_rest (drive_split q).1

-- The arguments of win32Join that are not empty, with their slashes replaced.
join_parts : List Bytes → List Bytes
unfolding to_backslashes
join_parts [] = []
join_parts ([] ∷ parts) = join_parts parts
join_parts ((c ∷ part) ∷ parts) = to_backslashes (c ∷ part) ∷ join_parts parts

unfoldable pub win32_join : List Bytes → Bytes
unfolding win32_normalize join_parts join
win32_join parts = joined (join_parts parts)
  where
    joined : List Bytes → Bytes
    joined [] = dot
    joined (w ∷ ws) = win32_normalize (join backslash (w ∷ ws))

abbrev pub win32_cwd_of : Option Bytes → Bytes
win32_cwd_of none = b'C' ∷ b':' ∷ backslash ∷ []
win32_cwd_of (some wd) = to_backslashes wd

unfoldable pub win32_resolve_loop : Bytes → List Bytes → Bytes
unfolding win32_is_absolute
win32_resolve_loop resolved [] = resolved
win32_resolve_loop resolved (part ∷ parts) =
    win32_resolve_loop
      (if is_empty part
        then resolved
        else if win32_is_absolute part
        then part
        else resolved ++ (backslash ∷ part))
      parts

unfoldable pub win32_resolve : Option Bytes → List Bytes → Bytes
unfolding win32_normalize win32_resolve_loop to_backslashes
win32_resolve getwd parts = win32_normalize (win32_resolve_loop (win32_cwd_of getwd) parts)

-- `none` is the panic of `from[:2]` or `to[:2]` on a string that is shorter.
unfoldable pub win32_relative : (Bytes → Bytes → Bool) → Option Bytes → Bytes → Bytes → Option Bytes
unfolding win32_resolve relative_segments split_non_empty join trim_prefix
win32_relative equal_fold getwd from to =
    let from' = win32_resolve getwd (from ∷ []) in
    let to' = win32_resolve getwd (to ∷ []) in
    if equal_fold from' to'
    then some []
    else if ltb (length from') 2 || ltb (length to') 2
    then none
    else some (
        join backslash (
          relative_segments equal_fold
            (split_non_empty (trim_prefix (take 2 from') from') backslash)
            (split_non_empty (trim_prefix (take 2 to') to') backslash)))

win32_normalize_runs : win32_normalize (codes "C:/a/./b/../c/") ≡ codes "C:\\a\\c\\"
unfolding win32_normalize
win32_normalize_runs = refl

win32_relative_runs :
    win32_relative beq none (codes "C:\\orandea\\test\\aaa") (codes "C:\\orandea\\impl\\bbb")
    ≡ some (codes "..\\..\\impl\\bbb")
unfolding win32_relative beq
win32_relative_runs = refl

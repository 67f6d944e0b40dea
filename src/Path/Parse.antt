-- ===== src/Path/Parse.antt =====
-- posixParse, win32Parse and formatPath of internal/host/path.go. A slice `p[a:b]` that is out of
-- range, which panics, is `none`.
pub mod Scan
pub mod Walked
pub mod Total
use noderati.Prelude.{
  ℕ, zero, suc, ◌+◌, ◌-◌, ◌≡◌, refl, Bool, true, false, not, ◌&&◌, ◌||◌, Option, none, some, [],
  ◌∷◌, ◌++◌, drop, length, if◌then◌else◌, ltb, ◌==◌,
}
use noderati.Prelude.Strings.{Bytes, is_empty, beq, codes}
use noderati.Path.Win32.{backslash, is_drive_letter}
use noderati.Path.Parse.Scan.{Walk, scan, scan_start, byte_at, slice, Element, element, ◌>>=◌}

-- The object that newPathParseResult builds.
pub record Parsed : Type 0 where
  pub root : Bytes
  pub dir : Bytes
  pub base : Bytes
  pub ext : Bytes
  pub name : Bytes

abbrev pub parsed : Bytes → Bytes → Element → Parsed
parsed root dir el = record { root = root; dir = dir; base = el.base; ext = el.ext; name = el.name }

abbrev pub is_slash : ℕ → Bool
is_slash c = c == b'/'

-- The part of posixParse behind the walk, `st` being its variables.
unfoldable pub posix_finish : Bytes → Bool → Walk → Option Parsed
unfolding slice element
posix_finish p is_absolute st = do
  el ← element p (if st.start_part == 0 && is_absolute then 1 else st.start_part) st
  dir ←
      (if ltb 0 st.start_part
        then slice p 0 (st.start_part - 1)
        else some (if is_absolute then codes "/" else []))
  some (parsed (if is_absolute then codes "/" else []) dir el)

unfoldable pub posix_parse : Bytes → Option Parsed
unfolding scan posix_finish
posix_parse [] = some (record { root = []; dir = []; base = []; ext = []; name = [] })
posix_parse (c ∷ p) =
    let is_absolute = c == b'/' in
    let start : ℕ = if is_absolute then 1 else 0 in
    posix_finish (c ∷ p) is_absolute
      (scan is_slash (c ∷ p) start (length (c ∷ p) - start) (scan_start 0))

abbrev pub is_sep : ℕ → Bool
is_sep b = b == backslash || b == b'/'

-- How far `for j < length && test(p[j]) { j++ }` goes.
unfoldable pub span : (ℕ → Bool) → Bytes → ℕ
span test [] = 0
span test (c ∷ p) = let rest = span test p in if test c then suc rest else 0

-- `rootEnd` of a path that begins with two separators
unfoldable pub unc_root_end : Bytes → ℕ
unfolding span
unc_root_end p =
    let len = length p in
    let j1 = 2 + span (λ b. not (is_sep b)) (drop 2 p) in
    let j2 = j1 + span is_sep (drop j1 p) in
    let j3 = j2 + span (λ b. not (is_sep b)) (drop j2 p) in
    if ltb j1 len && not (j1 == 2)
    then (if ltb j2 len && not (j2 == j1)
        then (if j3 == len then j3 else if not (j3 == j2) then j3 + 1 else 1)
        else 1)
    else 1

-- What the root detection of win32Parse finds: the whole path is a drive, or `rootEnd`.
pub data Root : Type 0 where
  whole : Root
  ends_at : ℕ → Root

-- For a path of two bytes at least.
unfoldable pub win32_root : ℕ → ℕ → Bytes → Root
unfolding unc_root_end is_drive_letter
win32_root c d rest =
    let len = length (c ∷ d ∷ rest) in
    if is_sep c
    then ends_at (if is_sep d then unc_root_end (c ∷ d ∷ rest) else 1)
    else if is_drive_letter c && d == b':'
    then (if ltb 2 len
        then (if is_sep (byte_at rest 0)
            then (if len == 3 then whole else ends_at 3)
            else ends_at 2)
        else whole)
    else ends_at 0

-- The part of win32Parse behind the root detection.
unfoldable pub win32_finish : Bytes → Root → Option Parsed
unfolding scan slice element
win32_finish p whole = some (record { root = p; dir = p; base = []; ext = []; name = [] })
win32_finish p (ends_at root_end) =
    let st = scan is_sep p root_end (length p - root_end) (scan_start root_end) in
    do
      root ← (if ltb 0 root_end then slice p 0 root_end else some [])
      el ← element p st.start_part st
      dir ←
          (if ltb 0 st.start_part && not (st.start_part == root_end)
            then slice p 0 (st.start_part - 1)
            else some root)
      some (parsed root dir el)

unfoldable pub win32_parse : Bytes → Option Parsed
unfolding win32_root win32_finish
win32_parse [] = some (record { root = []; dir = []; base = []; ext = []; name = [] })
win32_parse (c ∷ []) =
    if is_sep c
    then some (record { root = c ∷ []; dir = c ∷ []; base = []; ext = []; name = [] })
    else some (record { root = []; dir = []; base = c ∷ []; ext = []; name = c ∷ [] })
win32_parse (c ∷ d ∷ p) = win32_finish (c ∷ d ∷ p) (win32_root c d p)

-- The fields of `obj` that formatPath reads; a field that is missing or no string reads as "".
unfoldable pub format_path : Bytes → Parsed → Bytes
unfolding beq
format_path sep obj =
    let dir = if is_empty obj.dir then obj.root else obj.dir in
    let base = if is_empty obj.base then obj.name ++ obj.ext else obj.base in
    if is_empty dir then base else if beq dir obj.root then dir ++ base else dir ++ (sep ++ base)

posix_parse_runs :
    posix_parse (codes "/home/u/.x.tar.gz")
    ≡ some (record {
      root = codes "/";
      dir = codes "/home/u";
      base = codes ".x.tar.gz";
      ext = codes ".gz";
      name = codes ".x.tar";
    })
unfolding posix_parse
posix_parse_runs = refl

win32_parse_runs :
    win32_parse (codes "\\\\srv\\share\\a\\b.c")
    ≡ some (record {
      root = codes "\\\\srv\\share\\";
      dir = codes "\\\\srv\\share\\a";
      base = codes "b.c";
      ext = codes ".c";
      name = codes "b";
    })
unfolding win32_parse
win32_parse_runs = refl

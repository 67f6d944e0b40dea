-- ===== src/Glob/Compile.antt =====
-- globCompile of internal/host/fs_glob.go: a pattern without braces becomes segments.
use noderati.Prelude.{
  Bool, true, false, ◌&&◌, Option, none, some, List, [], ◌∷◌, ◌++◌, if◌then◌else◌, ◌==◌,
}
use noderati.Prelude.Strings.{Bytes, codes, beq, is_empty, has_prefix, split}
use noderati.Glob.Segment.{has_magic, segment_regexp}

-- `globSegment`, the regular expression by its text
pub record Segment : Type 0 where
  pub raw : Bytes
  pub globs : Bool
  pub re : Option Bytes

-- `strings.ReplaceAll(p, "\\", "")`
unfoldable pub unescape : Bytes → Bytes
unescape [] = []
unescape (c ∷ s) = let rest = unescape s in if c == b'\\' then rest else c ∷ rest

-- `strings.TrimLeft(pattern, "/")`
unfoldable pub trim_left : Bytes → Bytes
trim_left [] = []
trim_left (c ∷ s) = let rest = trim_left s in if c == b'/' then rest else c ∷ s

-- The last segment is `**`.
unfoldable pub last_globs : List Segment → Bool
last_globs [] = false
last_globs (s ∷ []) = s.globs
last_globs (s ∷ t ∷ segs) = last_globs (t ∷ segs)

abbrev pub any_segment : List Segment → Bool
any_segment [] = false
any_segment (s ∷ segs) = true

abbrev pub stars : Segment
stars = record { raw = codes "**"; globs = true; re = none }

-- The parts without a last empty one, and whether there was one behind others.
unfoldable pub dir_only : List Bytes → List Bytes × Bool
dir_only [] = ([], false)
dir_only (p ∷ []) = (p ∷ [], false)
dir_only (p ∷ q ∷ []) = if is_empty q then (p ∷ [], true) else (p ∷ q ∷ [], false)
dir_only (p ∷ q ∷ r ∷ parts) = let (kept, only) = dir_only (q ∷ r ∷ parts) in (p ∷ kept, only)

pub record Compiled : Type 0 where
  pub root : Bytes
  pub segs : List Segment
  pub is_dir_only : Bool

module _ (compiles : Bytes → Bool) where
  -- One round of the loop over the parts.
  unfoldable pub add_part : List Segment → Bytes → List Segment
  unfolding has_magic segment_regexp unescape last_globs
  add_part segs p =
      if is_empty p && any_segment segs
      then segs
      else if beq p (codes "**")
      then (if last_globs segs then segs else segs ++ (stars ∷ []))
      else if has_magic p
      then segs ++ (record { raw = p; globs = false; re = some (segment_regexp compiles p) } ∷ [])
      else segs ++ (record { raw = unescape p; globs = false; re = none } ∷ [])

  unfoldable pub add_parts : List Segment → List Bytes → List Segment
  unfolding add_part
  add_parts segs [] = segs
  add_parts segs (p ∷ parts) = add_parts (add_part segs p) parts

  -- The pattern behind its root.
  unfoldable pub compile_parts : Bytes → Bytes → Compiled
  unfolding add_parts dir_only split
  compile_parts root pattern =
      let parts = dir_only (split b'/' pattern) in
      record { root = root; segs = add_parts [] parts.0; is_dir_only = parts.1 }

  unfoldable pub glob_compile : Bytes → Compiled
  unfolding compile_parts trim_left
  glob_compile pattern =
      if has_prefix (codes "/") pattern
      then compile_parts (codes "/") (trim_left pattern)
      else compile_parts [] pattern

-- ===== src/Path/Tests.antt =====
-- Paths on which the theorems are applied.
use noderati.Prelude.{◌≡◌, refl, true, false, Option, none, some, List, [], ◌∷◌, ◌++◌}
use noderati.Prelude.Strings.{Bytes, beq, codes, contains_byte}
use noderati.Path.GoPath.{is_abs}
use noderati.Path.Posix.{posix_normalize, cwd_of, posix_resolve, posix_relative, path_resolve}
use noderati.Path.Resolve.{abs_of, resolved_segs, posix_resolve_lem, resolve-later_absolute}
use noderati.Path.Relative.{posix_resolve-relative}
use noderati.Path.Win32.{backslash, win32_relative, win32_basename, win32_extname}
use noderati.Path.Win32.Names.{IsShared, IsNamed, win32_dirname-basename, win32_extname-basename}
use noderati.Path.Win32.Faults.{win32_relative-root, win32_relative-drive}
use noderati.Path.Parse.{posix_parse, win32_parse}
use noderati.Path.Parse.Total.{ParsesWell, posix_parse_total, win32_parse_total}

abbrev home : Option Bytes
home = some (codes "/home/u")

home_absolute : is_abs (cwd_of home) ≡ true
unfolding is_abs
home_absolute = refl

abbrev args : List Bytes
args = codes "a/./b" ∷ codes "../c" ∷ []

posix_resolve_lem_example :
    (posix_resolve home args ≡ abs_of (resolved_segs home args))
    × (path_resolve home args ≡ abs_of (resolved_segs home args))
posix_resolve_lem_example = posix_resolve_lem home args home_absolute

resolve-later_absolute_example :
    (posix_resolve home (args ++ (codes "/etc" ∷ args)) ≡ posix_resolve home (codes "/etc" ∷ args))
    × (path_resolve home (args ++ (codes "/etc" ∷ args)) ≡ path_resolve home (codes "/etc" ∷ args))
unfolding is_abs
resolve-later_absolute_example =
    resolve-later_absolute home args (codes "/etc") args home_absolute refl

posix_resolve-relative_example :
    posix_resolve home (codes "src" ∷ posix_relative home (codes "src") (codes "../x/lib") ∷ [])
    ≡ posix_resolve home (codes "../x/lib" ∷ [])
posix_resolve-relative_example =
    posix_resolve-relative home (codes "src") (codes "../x/lib") home_absolute

win32_dirname-basename_example :
    let p = codes "C:/a/b.txt" in (contains_byte backslash (win32_basename p) ≡ false) × IsShared p
win32_dirname-basename_example = win32_dirname-basename (codes "C:/a/b.txt")

win32_extname-basename_example :
    let p = codes "C:/a/b.txt" in IsNamed (win32_basename p) (win32_extname p)
win32_extname-basename_example = win32_extname-basename (codes "C:/a/b.txt")

win32_relative-root_example : win32_relative beq none (codes "/") (codes "C:\\Users") ≡ none
unfolding win32_relative beq
win32_relative-root_example = win32_relative-root beq none (codes "C:\\Users") refl

-- C:\a is not what leads from C:\x to D:\a.
win32_relative-drive_example :
    win32_relative beq none (codes "C:\\x") (codes "C:\\a")
    ≡ win32_relative beq none (codes "C:\\x") (codes "D:\\a")
unfolding win32_relative beq
win32_relative-drive_example =
    win32_relative-drive beq none (codes "C:\\x") (codes "a") b'C' b'D' refl refl refl refl

posix_parse_total_example : ParsesWell (posix_parse (codes "/home/u/a.tar.gz//"))
posix_parse_total_example = posix_parse_total (codes "/home/u/a.tar.gz//")

win32_parse_total_example : ParsesWell (win32_parse (codes "\\\\srv\\share\\.x"))
win32_parse_total_example = win32_parse_total (codes "\\\\srv\\share\\.x")

posix_normalize_runs : posix_normalize (codes "./a//b/../c/") ≡ codes "a/c/"
unfolding posix_normalize
posix_normalize_runs = refl

posix_relative_runs :
    posix_relative (some (codes "/x")) (codes "/a/b/c") (codes "/a/d") ≡ codes "../../d"
unfolding posix_relative
posix_relative_runs = refl

-- ===== src/Packages/Specifier.antt =====
-- CanResolve and splitPackageSpecifier of internal/host/nodemodules.go, CanResolve of
-- packageimports.go.
use noderati.Prelude.{
  Bool, true, false, ◌||◌, Option, none, some, [], ◌∷◌, ◌++◌, if◌then◌else◌, ◌==◌,
}
use noderati.Prelude.Strings.{Bytes, is_empty, codes, has_prefix}

-- `strings.Contains(s, sub)`, the substring first
unfoldable pub contains : Bytes → Bytes → Bool
unfolding has_prefix
contains sub [] = has_prefix sub []
contains sub (c ∷ s) = has_prefix sub (c ∷ s) || contains sub s

unfoldable pub can_resolve : Bytes → Bool
unfolding has_prefix contains
can_resolve specifier =
    if is_empty specifier
    then false
    else if has_prefix (codes ".") specifier || has_prefix (codes "/") specifier
    then false
    else if has_prefix (codes "node:") specifier
    then false
    else if contains (codes "://") specifier
    then false
    else true

unfoldable pub can_resolve_import : Bytes → Bool
unfolding has_prefix
can_resolve_import specifier = has_prefix (codes "#") specifier

-- `strings.SplitN(s, "/", 2)`: the first part, and the second if there is a separator
unfoldable pub cut : Bytes → Bytes × Option Bytes
cut [] = ([], none)
cut (c ∷ s) = let r = cut s in if c == b'/' then ([], some s) else (c ∷ r.0, r.1)

-- The package name and the subpath, from the two parts of an unscoped specifier.
abbrev pub plain_parts : Bytes × Option Bytes → Bytes × Bytes
plain_parts (name, none) = (name, [])
plain_parts (name, some subpath) = (name, subpath)

-- From the part of a scoped specifier before its first separator, and the parts behind it.
abbrev pub scoped_parts : Bytes → Bytes × Option Bytes → Bytes × Bytes
scoped_parts scope (name, none) = (scope ++ (b'/' ∷ name), [])
scoped_parts scope (name, some subpath) = (scope ++ (b'/' ∷ name), subpath)

abbrev pub scoped : Bytes → Bytes × Option Bytes → Bytes × Bytes
scoped specifier (scope, none) = (specifier, [])
scoped specifier (scope, some rest) = scoped_parts scope (cut rest)

unfoldable pub split_package_specifier : Bytes → Bytes × Bytes
unfolding has_prefix cut
split_package_specifier specifier =
    if has_prefix (codes "@") specifier
    then scoped specifier (cut specifier)
    else plain_parts (cut specifier)

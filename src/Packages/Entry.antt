-- ===== src/Packages/Entry.antt =====
-- resolvePackageEntry of internal/host/nodemodules.go and what it calls, on a Unix host. The file
-- system is an argument; the errors' texts are left out, so an error is `none`.
use noderati.Prelude.{Bool, Option, none, some, List, [], ◌∷◌, ◌++◌, map, if◌then◌else◌}
use noderati.Prelude.Strings.{Bytes, is_empty, codes, trim_prefix}
use noderati.Path.GoPath.{is_abs, join_elems}
use noderati.Packages.Json.{Json, str}
use noderati.Packages.Exports.{Target, found, not_found, failed, entry_from_exports}

-- `packageJSON`; `none` is a field that is missing.
pub record PackageJson : Type 0 where
  pub main : Option Json
  pub exports : Option Json
  pub imports : Option Json

-- What readPackageJSON returns: `absent` is an error for which os.IsNotExist holds, `broken` any
-- other.
pub data PackageRead : Type 0 where
  absent broken : PackageRead
  present : PackageJson → PackageRead

-- What the resolver asks of the file system: whether os.Stat succeeds on a path and finds something
-- that is no directory, and what is read from a package's directory.
pub record FileSystem : Type 0 where
  pub is_file : Bytes → Bool
  pub package_json : Bytes → PackageRead

unfoldable pub string_field : Option Json → Bytes
string_field (some (str s)) = s
string_field _ = []

abbrev pub suffixes : List Bytes
suffixes = [] ∷ codes ".js" ∷ codes ".mjs" ∷ codes ".ts" ∷ codes ".json" ∷ []

abbrev pub index_files : List Bytes
index_files = codes "index.js" ∷ codes "index.mjs" ∷ codes "index.ts" ∷ codes "index.json" ∷ []

-- The list `candidates` of tryExistingFile.
unfoldable pub file_candidates : Bytes → List Bytes
unfolding join_elems
file_candidates subpath =
    map (λ s. subpath ++ s) suffixes ++ map (λ f. join_elems (subpath ∷ f ∷ [])) index_files

module _ (fs : FileSystem) where
  -- The first of the names that is a file in the directory.
  unfoldable pub first_file : Bytes → List Bytes → Option Bytes
  unfolding join_elems
  first_file dir [] = none
  first_file dir (name ∷ names) =
      let path = join_elems (dir ∷ name ∷ []) in
      let rest = first_file dir names in if fs.is_file path then some path else rest

  unfoldable pub try_existing_file : Bytes → Bytes → Option Bytes
  unfolding first_file file_candidates
  try_existing_file pkg_dir subpath = first_file pkg_dir (file_candidates subpath)

  unfoldable pub resolve_relative_entry : Bytes → Bytes → Option Bytes
  unfolding is_abs join_elems try_existing_file trim_prefix
  resolve_relative_entry pkg_dir entry =
      let path = join_elems (pkg_dir ∷ entry ∷ []) in
      if is_abs entry
      then some entry
      else if fs.is_file path
      then some path
      else try_existing_file pkg_dir (trim_prefix (codes "./") entry)

  unfoldable pub resolve_index_fallback : Bytes → Option Bytes
  unfolding first_file
  resolve_index_fallback pkg_dir =
      first_file pkg_dir (codes "index.js" ∷ codes "index.mjs" ∷ codes "index.ts" ∷ [])

  -- What a caller does with the result of entryFromExports; `other` is what follows if there is none.
  unfoldable pub of_target : Bytes → Target → Option Bytes → Option Bytes
  unfolding resolve_relative_entry
  of_target pkg_dir (found entry) other = resolve_relative_entry pkg_dir entry
  of_target pkg_dir not_found other = other
  of_target pkg_dir failed other = none

  module _ (is_active : Bytes → Bool) where
    unfoldable pub main_of : Bytes → PackageRead → Option Bytes
    unfolding of_target entry_from_exports string_field resolve_index_fallback
    main_of pkg_dir absent = resolve_index_fallback pkg_dir
    main_of pkg_dir broken = none
    main_of pkg_dir (present pkg) =
        of_target pkg_dir (entry_from_exports is_active pkg.exports (codes ".")) (
          let main = string_field pkg.main in
          if is_empty main
          then resolve_index_fallback pkg_dir
          else resolve_relative_entry pkg_dir main)

    unfoldable pub resolve_main_entry : Bytes → Option Bytes
    unfolding main_of
    resolve_main_entry pkg_dir = main_of pkg_dir (fs.package_json pkg_dir)

    unfoldable pub subpath_of : Bytes → Bytes → PackageRead → Option Bytes
    unfolding of_target entry_from_exports try_existing_file
    subpath_of pkg_dir subpath absent = try_existing_file pkg_dir subpath
    subpath_of pkg_dir subpath broken = none
    subpath_of pkg_dir subpath (present pkg) =
        of_target pkg_dir (entry_from_exports is_active pkg.exports (codes "./" ++ subpath))
          (try_existing_file pkg_dir subpath)

    unfoldable pub resolve_subpath_entry : Bytes → Bytes → Option Bytes
    unfolding subpath_of
    resolve_subpath_entry pkg_dir subpath = subpath_of pkg_dir subpath (fs.package_json pkg_dir)

    unfoldable pub resolve_package_entry : Bytes → Bytes → Option Bytes
    unfolding resolve_subpath_entry resolve_main_entry
    resolve_package_entry pkg_dir subpath =
        if is_empty subpath
        then resolve_main_entry pkg_dir
        else resolve_subpath_entry pkg_dir subpath

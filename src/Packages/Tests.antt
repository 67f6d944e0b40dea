-- ===== src/Packages/Tests.antt =====
-- Packages on which the theorems are applied.
use noderati.Prelude.{◌∷◌, ◌≡◌, refl, Bool, true, false, none, some, []}
use noderati.Prelude.Strings.{Bytes, beq, codes}
use noderati.Path.GoPath.{join_elems}
use noderati.Packages.Json.{
  Fields, null, bool, str, arr, obj, nil, cons, end, field, lookup, decode, entries,
}
use noderati.Packages.Exports.{require, active, found, resolve_target}
use noderati.Packages.Imports.{resolve_import_target}
use noderati.Packages.Conditions.{prune, resolve_target-prune}
use noderati.Packages.Entry.{
  PackageJson, present, FileSystem, file_candidates, try_existing_file, resolve_package_entry,
}
use noderati.Packages.Specifier.{split_package_specifier}
use noderati.Packages.Names.{IsPackageName, Rejoins, split_package_specifier-Rejoins}
use noderati.Packages.Sound.{
  IsThere, IsGiven, resolve_package_entry-IsThere, resolve_subpath_entry-null,
}
use noderati.Packages.Stripping.{strip}
use noderati.Packages.Order.{Decides, resolve_import_target-order}

-- {"import": {"default": "./esm.js"}, "require": [1, "./cjs.js"], "default": "./d.js"}
abbrev dual : Fields
dual = field (codes "import") (obj (field (codes "default") (str (codes "./esm.js")) end)) (
    field (codes "require") (arr (cons (bool false) (cons (str (codes "./cjs.js")) nil)))
      (field (codes "default") (str (codes "./d.js")) end))

abbrev for_require : Bytes → Bool
for_require = active [] require

require_takes_cjs : resolve_target for_require (obj dual) ≡ found (codes "./cjs.js")
unfolding resolve_target active beq
require_takes_cjs = refl

resolve_target-prune_example :
    resolve_target for_require (prune for_require (obj dual))
    ≡ resolve_target for_require (obj dual)
resolve_target-prune_example = resolve_target-prune for_require (obj dual)

resolve_import_target-order_example :
    Decides dual
      (codes "node" ∷ codes "import" ∷ codes "require" ∷ codes "default" ∷ [])
      (resolve_import_target (obj dual))
resolve_import_target-order_example = resolve_import_target-order dual

split_package_specifier-Rejoins_example :
    IsPackageName (codes "@scope/pkg/lib/x.js") (codes "@scope/pkg")
    × Rejoins (codes "@scope/pkg/lib/x.js") (codes "@scope/pkg") (codes "lib/x.js")
unfolding split_package_specifier
split_package_specifier-Rejoins_example =
    split_package_specifier-Rejoins (codes "@scope/pkg/lib/x.js")

-- {".": "./main.js", "./internal": null}
abbrev hiding : Fields
hiding = field (codes ".") (str (codes "./main.js")) (field (codes "./internal") null end)

abbrev hiding_package : PackageJson
hiding_package = record { main = none; exports = some (obj hiding); imports = none }

abbrev disk : FileSystem
disk = record {
  is_file = λ p. beq p (codes "/m/p/index.js");
  package_json = λ _. present hiding_package;
}

resolve_package_entry-IsThere_example :
    IsThere disk
      (IsGiven disk for_require (present hiding_package) (codes "./internal"))
      (resolve_package_entry disk for_require (codes "/m/p") (codes "internal"))
resolve_package_entry-IsThere_example =
    resolve_package_entry-IsThere disk for_require (codes "/m/p") (codes "internal")

resolve_subpath_entry-null_example :
    (path : Bytes) × ((resolve_package_entry disk for_require (codes "/m/p") (codes "internal")
        ≡ some path)
      × (disk.is_file path ≡ true))
unfolding lookup decode entries join_elems beq file_candidates
resolve_subpath_entry-null_example =
    resolve_subpath_entry-null disk for_require (codes "/m/p") (codes "internal") hiding_package
      hiding 5 (codes "index.js") refl refl refl refl refl refl refl

hidden_is_the_index : try_existing_file disk (codes "/m/p") [] ≡ some (codes "/m/p/index.js")
unfolding try_existing_file beq
hidden_is_the_index = refl

strip_runs : strip (codes "a('x//\\'', b /* 'c */)//d\ne") ≡ codes "a(, b )\ne"
unfolding strip
strip_runs = refl

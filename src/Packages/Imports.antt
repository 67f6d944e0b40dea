-- ===== src/Packages/Imports.antt =====
-- entryFromImports and resolveImportTarget of internal/host/packageimports.go.
use noderati.Prelude.{true, Option, none, some, List, [], ◌∷◌}
use noderati.Prelude.Strings.{Bytes, codes}
use noderati.Packages.Json.{
  Json, Fields, null, bool, num, str, arr, obj, end, field, decode, lookup, entries,
}
use noderati.Packages.Exports.{Target, found, not_found, failed, first_active}

abbrev pub candidates : List Bytes
candidates = codes "node" ∷ codes "import" ∷ codes "require" ∷ codes "default" ∷ []

abbrev pub try_candidate : Option Target → Target → Target
try_candidate none rest = rest
try_candidate (some t) rest = first_active true t rest

-- The loop over the candidates.
unfoldable pub select_in_order : List Bytes → List (Bytes × Target) → Target
unfolding first_active lookup
select_in_order [] m = not_found
select_in_order (c ∷ cs) m = try_candidate (lookup c m) (select_in_order cs m)

unfoldable mutual
  unfolding select_in_order decode

  pub resolve_import_target : Json → Target
  resolve_import_target null = found []
  resolve_import_target (bool b) = failed
  resolve_import_target (num n) = failed
  resolve_import_target (str s) = found s
  resolve_import_target (arr xs) = failed
  resolve_import_target (obj fs) = select_in_order candidates (decode (resolve_import_fields fs) [])

  pub resolve_import_fields : Fields → List (Bytes × Target)
  resolve_import_fields end = []
  resolve_import_fields (field k v fs) = (k, resolve_import_target v) ∷ resolve_import_fields fs

abbrev import_of_value : Option Json → Target
import_of_value none = not_found
import_of_value (some v) = resolve_import_target v

-- The map that `null` decodes to is empty.
unfoldable pub entry_from_imports : Option Json → Bytes → Target
unfolding resolve_import_target lookup decode entries
entry_from_imports none key = not_found
entry_from_imports (some null) key = not_found
entry_from_imports (some (bool b)) key = failed
entry_from_imports (some (num n)) key = failed
entry_from_imports (some (str s)) key = failed
entry_from_imports (some (arr xs)) key = failed
entry_from_imports (some (obj fs)) key = import_of_value (lookup key (decode (entries fs) []))

-- ===== src/Packages/Exports.antt =====
-- entryFromExports and resolveExportTarget of internal/host/nodemodules.go.
use noderati.Prelude.{
  Bool, true, false, not, ◌&&◌, ◌||◌, Option, none, some, List, [], ◌∷◌, if◌then◌else◌,
}
use noderati.Prelude.Strings.{Bytes, beq, has_prefix, is_empty, codes}
use noderati.Packages.Json.{
  Json, Items, Fields, null, bool, num, str, arr, obj, nil, cons, end, field, decode, lookup,
  entries,
}

-- `exportsCondition`
pub data Condition : Type 0 where
  require import : Condition

abbrev is_require : Condition → Bool
is_require require = true
is_require import = false

abbrev mem : Bytes → List Bytes → Bool
mem key [] = false
mem key (u ∷ us) = beq u key || mem key us

-- `exportsCondition.active`; `user` is `UserConditions`
unfoldable pub active : List Bytes → Condition → Bytes → Bool
active user c key =
    if beq key (codes "node") || beq key (codes "default")
    then true
    else if beq key (codes "require")
    then is_require c
    else if beq key (codes "import")
    then not (is_require c)
    else mem key user

-- `(string, bool, error)`: an entry, `false`, or an error
pub data Target : Type 0 where
  found : Bytes → Target
  not_found : Target
  failed : Target

-- The loop over an array: a candidate that fails is passed over.
unfoldable pub first_candidate : Target → Target → Target
first_candidate (found s) rest = if is_empty s then rest else found s
first_candidate not_found rest = rest
first_candidate failed rest = rest

-- One key of the loop over a conditions object: a target that fails ends the loop.
unfoldable pub first_active : Bool → Target → Target → Target
first_active false t rest = rest
first_active true (found s) rest = if is_empty s then rest else found s
first_active true not_found rest = rest
first_active true failed rest = failed

module _ (is_active : Bytes → Bool) where
  -- The loop over the conditions object, whose values have their targets with them.
  unfoldable pub select : List (Bytes × Target) → Target
  unfolding first_active
  select [] = not_found
  select ((k, t) ∷ m) = first_active (is_active k) t (select m)

  -- Go resolves a value when it comes to it; here every value has its target, and the loops choose.
  unfoldable mutual
    unfolding select first_candidate decode

    pub resolve_target : Json → Target
    resolve_target null = found []
    resolve_target (bool b) = failed
    resolve_target (num n) = failed
    resolve_target (str s) = found s
    resolve_target (arr xs) = resolve_items xs
    resolve_target (obj fs) = select (decode (resolve_fields fs) [])

    pub resolve_items : Items → Target
    resolve_items nil = not_found
    resolve_items (cons x xs) = first_candidate (resolve_target x) (resolve_items xs)

    pub resolve_fields : Fields → List (Bytes × Target)
    resolve_fields end = []
    resolve_fields (field k v fs) = (k, resolve_target v) ∷ resolve_fields fs

-- `hasSubpathKey`
unfoldable pub has_subpath_key : Fields → Bool
has_subpath_key end = false
has_subpath_key (field k v fs) = has_prefix (codes ".") k || has_subpath_key fs

abbrev pub of_value : (Json → Target) → Option Json → Target
of_value resolve none = not_found
of_value resolve (some v) = resolve v

-- `none` is a package.json without the field.
unfoldable pub entry_from_exports : (Bytes → Bool) → Option Json → Bytes → Target
unfolding resolve_target has_subpath_key lookup entries decode has_prefix beq
entry_from_exports is_active none key = not_found
entry_from_exports is_active (some null) key = if beq key (codes ".") then found [] else not_found
entry_from_exports is_active (some (str s)) key = if beq key (codes ".") then found s else not_found
entry_from_exports is_active (some (arr xs)) key =
    if beq key (codes ".") then resolve_target is_active (arr xs) else not_found
entry_from_exports is_active (some (bool b)) key = failed
entry_from_exports is_active (some (num n)) key = failed
entry_from_exports is_active (some (obj fs)) key =
    if beq key (codes ".") && not (has_subpath_key fs)
    then resolve_target is_active (obj fs)
    else of_value (resolve_target is_active) (lookup key (decode (entries fs) []))

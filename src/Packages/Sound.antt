-- ===== src/Packages/Sound.antt =====
-- What resolvePackageEntry returns is there.
use noderati.Prelude.{
  ℕ, Bool, true, false, Option, none, some, List, [], ◌∷◌, ◌++◌, if◌then◌else◌, ◌≡◌, refl, ap, ◌∙◌,
  ◌⊎◌, inl, inr, Bool-cases, get_elem?, zero, suc, sym,
}
use noderati.Prelude.Strings.{Bytes, is_empty, codes, trim_prefix}
use noderati.Path.GoPath.{is_abs, join_elems}
use noderati.Packages.Json.{Fields, null, obj, lookup, decode, entries}
use noderati.Packages.Exports.{
  Target, found, not_found, failed, entry_from_exports, resolve_target, of_value,
}
use noderati.Packages.Entry.{
  PackageJson, PackageRead, absent, broken, present, FileSystem, string_field, file_candidates,
  first_file, try_existing_file, resolve_relative_entry, resolve_index_fallback, of_target, main_of,
  subpath_of, resolve_package_entry,
}

entry_from_exports-null :
    (is_active : Bytes → Bool) (fields : Fields) (subpath : Bytes)
    → lookup (codes "./" ++ subpath) (decode (entries fields) []) ≡ some null
    → entry_from_exports is_active (some (obj fields)) (codes "./" ++ subpath) ≡ found []
unfolding entry_from_exports
entry_from_exports-null is_active fields subpath h = ap (of_value (resolve_target is_active)) h

module _ (fs : FileSystem) where
  -- Nothing, or a file, or what `P` says.
  abbrev pub IsThere : (Bytes → Type 0) → Option Bytes → Type 0
  IsThere P none = Unit
  IsThere P (some path) = (fs.is_file path ≡ true) ⊎ P path

  if-IsThere :
      (P : Bytes → Type 0) (b : Bool) (x y : Option Bytes)
      → (b ≡ true → IsThere P x)
      → IsThere P y
      → IsThere P (if b then x else y)
  if-IsThere P true x y h k = h refl
  if-IsThere P false x y h k = k

  first_file-IsThere :
      (P : Bytes → Type 0) (dir : Bytes) (names : List Bytes) → IsThere P (first_file fs dir names)
  unfolding first_file
  first_file-IsThere P dir [] = tt
  first_file-IsThere P dir (name ∷ names) =
      elim (Bool-cases (fs.is_file (join_elems (dir ∷ name ∷ [])))) [
        | inl e ↦ rw e (inl e)
        | inr e ↦ rw e (first_file-IsThere P dir names)
      ]

  try_existing_file-IsThere :
      (P : Bytes → Type 0) (dir subpath : Bytes) → IsThere P (try_existing_file fs dir subpath)
  unfolding try_existing_file
  try_existing_file-IsThere P dir subpath = first_file-IsThere P dir (file_candidates subpath)

  resolve_index_fallback-IsThere :
      (P : Bytes → Type 0) (dir : Bytes) → IsThere P (resolve_index_fallback fs dir)
  unfolding resolve_index_fallback
  resolve_index_fallback-IsThere P dir =
      first_file-IsThere P dir (codes "index.js" ∷ codes "index.mjs" ∷ codes "index.ts" ∷ [])

  resolve_relative_entry-IsThere :
      (P : Bytes → Type 0) (dir entry : Bytes)
      → (is_abs entry ≡ true → P entry)
      → IsThere P (resolve_relative_entry fs dir entry)
  unfolding resolve_relative_entry
  resolve_relative_entry-IsThere P dir entry given =
      let path = join_elems (dir ∷ entry ∷ []) in
      let rest = try_existing_file fs dir (trim_prefix (codes "./") entry) in
      if-IsThere P (is_abs entry) (some entry) (if fs.is_file path then some path else rest)
        (λ e. inr (given e))
        (if-IsThere P (fs.is_file path) (some path) rest inl
          (try_existing_file-IsThere P dir (trim_prefix (codes "./") entry)))

  of_target-IsThere :
      (P : Bytes → Type 0) (dir : Bytes) (t : Target) (other : Option Bytes)
      → ((entry : Bytes) → t ≡ found entry → is_abs entry ≡ true → P entry)
      → IsThere P other
      → IsThere P (of_target fs dir t other)
  unfolding of_target
  of_target-IsThere P dir (found entry) other given k =
      resolve_relative_entry-IsThere P dir entry (given entry refl)
  of_target-IsThere P dir not_found other given k = k
  of_target-IsThere P dir failed other given k = tt

  -- The file that is there is not the first one, which is none.
  is_there_later :
      (dir n : Bytes) (names : List Bytes) (i : ℕ) (name : Bytes)
      → get_elem? (n ∷ names) i ≡ some name
      → fs.is_file (join_elems (dir ∷ name ∷ [])) ≡ true
      → fs.is_file (join_elems (dir ∷ n ∷ [])) ≡ false
      → (j : ℕ) × (get_elem? names j ≡ some name)
  is_there_later dir n names zero name h k e =
      let same : n ≡ name = cc in
      let bad : true ≡ false =
        sym k ∙ ap (λ f. fs.is_file (join_elems (dir ∷ f ∷ []))) (sym same) ∙ e in
      cc
  is_there_later dir n names (suc i) name h k e = (i, h)

  -- If one of the names is a file, one is found.
  first_file-finds :
      (dir : Bytes) (names : List Bytes) (i : ℕ) (name : Bytes)
      → get_elem? names i ≡ some name
      → fs.is_file (join_elems (dir ∷ name ∷ [])) ≡ true
      → (path : Bytes) × ((first_file fs dir names ≡ some path) × (fs.is_file path ≡ true))
  unfolding first_file
  first_file-finds dir [] i name h k = cc
  first_file-finds dir (n ∷ names) i name h k =
      let here = join_elems (dir ∷ n ∷ []) in
      elim (Bool-cases (fs.is_file here)) [
        | inl e ↦ (here, (ap (λ b. if b then some here else first_file fs dir names) e, e))
        | inr e ↦
            let (j, later) = is_there_later dir n names i name h k e in
            let (path, (found_path, file)) = first_file-finds dir names j name later k in
            (
              path,
              (ap (λ b. if b then some here else first_file fs dir names) e ∙ found_path, file),
            )
      ]

  of_target-empty :
      (dir : Bytes) (other : Option Bytes)
      → fs.is_file (join_elems (dir ∷ [] ∷ [])) ≡ false
      → of_target fs dir (found []) other ≡ try_existing_file fs dir []
  unfolding of_target
  of_target-empty dir other h =
      ap (λ b. if b then some (join_elems (dir ∷ [] ∷ [])) else try_existing_file fs dir []) h

  -- The path is absolute and the package.json has it, as the target of the key or as "main".
  abbrev pub IsGiven : (Bytes → Bool) → PackageRead → Bytes → Bytes → Type 0
  IsGiven is_active absent key path = ⊥
  IsGiven is_active broken key path = ⊥
  IsGiven is_active (present pkg) key path =
      (is_abs path ≡ true)
      × ((entry_from_exports is_active pkg.exports key ≡ found path)
          ⊎ (string_field pkg.main ≡ path))

  module _ (is_active : Bytes → Bool) where
    main_of-IsThere :
        (dir : Bytes) (r : PackageRead)
        → IsThere (IsGiven is_active r (codes ".")) (main_of fs is_active dir r)
    unfolding main_of
    main_of-IsThere dir absent = resolve_index_fallback-IsThere (λ _. ⊥) dir
    main_of-IsThere dir broken = tt
    main_of-IsThere dir (present pkg) =
        let P = IsGiven is_active (present pkg) (codes ".") in
        let main = string_field pkg.main in
        of_target-IsThere P dir (entry_from_exports is_active pkg.exports (codes ".")) _
          (λ entry e a. (a, inl e))
          (if-IsThere P (is_empty main) (resolve_index_fallback fs dir)
            (resolve_relative_entry fs dir main) (λ _. resolve_index_fallback-IsThere P dir)
            (resolve_relative_entry-IsThere P dir main (λ a. (a, inr refl))))

    subpath_of-IsThere :
        (dir subpath : Bytes) (r : PackageRead)
        → IsThere
            (IsGiven is_active r (codes "./" ++ subpath))
            (subpath_of fs is_active dir subpath r)
    unfolding subpath_of
    subpath_of-IsThere dir subpath absent = try_existing_file-IsThere (λ _. ⊥) dir subpath
    subpath_of-IsThere dir subpath broken = tt
    subpath_of-IsThere dir subpath (present pkg) =
        let P = IsGiven is_active (present pkg) (codes "./" ++ subpath) in
        of_target-IsThere P dir (entry_from_exports is_active pkg.exports (codes "./" ++ subpath)) _
          (λ entry e a. (a, inl e)) (try_existing_file-IsThere P dir subpath)

    -- What resolvePackageEntry returns is a file, or an absolute path that the package.json itself
    -- gives, as the target of the export or as "main".
    pub resolve_package_entry-IsThere :
        (dir subpath : Bytes)
        → let key = if is_empty subpath then codes "." else codes "./" ++ subpath in
          IsThere
            (IsGiven is_active (fs.package_json dir) key)
            (resolve_package_entry fs is_active dir subpath)
    unfolding resolve_package_entry
    resolve_package_entry-IsThere dir [] = main_of-IsThere dir (fs.package_json dir)
    resolve_package_entry-IsThere dir (c ∷ subpath) =
        subpath_of-IsThere dir (c ∷ subpath) (fs.package_json dir)

    resolve_package_entry-cons :
        (dir : Bytes) (c : ℕ) (s : Bytes)
        → resolve_package_entry fs is_active dir (c ∷ s)
          ≡ subpath_of fs is_active dir (c ∷ s) (fs.package_json dir)
    unfolding resolve_package_entry
    resolve_package_entry-cons dir c s = refl

    subpath_of-present :
        (dir subpath : Bytes) (pkg : PackageJson)
        → subpath_of fs is_active dir subpath (present pkg)
          ≡ of_target fs dir
              (entry_from_exports is_active pkg.exports (codes "./" ++ subpath))
              (try_existing_file fs dir subpath)
    unfolding subpath_of
    subpath_of-present dir subpath pkg = refl

    hidden_entry :
        (dir subpath : Bytes) (pkg : PackageJson) (fields : Fields)
        → fs.package_json dir ≡ present pkg
        → pkg.exports ≡ some (obj fields)
        → is_empty subpath ≡ false
        → lookup (codes "./" ++ subpath) (decode (entries fields) []) ≡ some null
        → fs.is_file (join_elems (dir ∷ [] ∷ [])) ≡ false
        → resolve_package_entry fs is_active dir subpath ≡ try_existing_file fs dir []
    hidden_entry dir [] pkg fields read exports filled hidden dir_is_dir = cc
    hidden_entry dir (c ∷ s) pkg fields read exports filled hidden dir_is_dir =
        let key = codes "./" ++ (c ∷ s) in
        resolve_package_entry-cons dir c s
        ∙ ap (subpath_of fs is_active dir (c ∷ s)) read
        ∙ subpath_of-present dir (c ∷ s) pkg
        ∙ ap
            (λ e.
              of_target fs dir (entry_from_exports is_active e key)
                (try_existing_file fs dir (c ∷ s)))
            exports
        ∙ ap (λ t. of_target fs dir t (try_existing_file fs dir (c ∷ s)))
            (entry_from_exports-null is_active fields (c ∷ s) hidden)
        ∙ of_target-empty dir (try_existing_file fs dir (c ∷ s)) dir_is_dir

    -- A target `null`, by which a package hides a subpath, does not hide it: where the key of the
    -- subpath has the target null, the package's directory is no file, and it has a file by one of
    -- the names that tryExistingFile tries for an empty entry, such as ".json" or "index.js", the
    -- subpath resolves to a file.
    pub resolve_subpath_entry-null :
        (dir subpath : Bytes) (pkg : PackageJson) (fields : Fields) (i : ℕ) (name : Bytes)
        → fs.package_json dir ≡ present pkg
        → pkg.exports ≡ some (obj fields)
        → is_empty subpath ≡ false
        → lookup (codes "./" ++ subpath) (decode (entries fields) []) ≡ some null
        → fs.is_file (join_elems (dir ∷ [] ∷ [])) ≡ false
        → get_elem? (file_candidates []) i ≡ some name
        → fs.is_file (join_elems (dir ∷ name ∷ [])) ≡ true
        → (path : Bytes) × ((resolve_package_entry fs is_active dir subpath ≡ some path)
            × (fs.is_file path ≡ true))
    unfolding try_existing_file
    resolve_subpath_entry-null dir subpath pkg fields i name read exports filled hidden is_dir at
          there =
        let (path, (first, file)) = first_file-finds dir (file_candidates []) i name at there in
        (
          path,
          (hidden_entry dir subpath pkg fields read exports filled hidden is_dir ∙ first, file),
        )

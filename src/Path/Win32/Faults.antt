-- ===== src/Path/Win32/Faults.antt =====
-- Where win32Relative of internal/host/path.go goes wrong: it cuts two bytes off each resolved
-- path, as if every one began with a drive.
use mathlib.Core.Path.{ap₂}
use noderati.Prelude.{
  ℕ, zero, suc, ◌≡◌, refl, sym, ap, ◌∙◌, Bool, true, false, ◌&&◌, ◌||◌, Option, none, some, [], ◌∷◌,
  ◌++◌, if◌then◌else◌, ltb, ◌==◌, length, drop, take, arith,
}
use noderati.Prelude.Strings.{Bytes, join, split_non_empty, trim_prefix, has_prefix, codes}
use noderati.Path.Posix.{relative_segments}
use noderati.Path.Win32.{
  backslash, to_backslashes, is_drive_letter, drive_split, normalize_rest, win32_normalize,
  win32_is_absolute, win32_cwd_of, win32_resolve, win32_relative,
}

has_prefix-take : (n : ℕ) (s : Bytes) → has_prefix (take n s) s ≡ true
unfolding has_prefix
has_prefix-take zero s = refl
has_prefix-take (suc n) [] = refl
has_prefix-take (suc n) (c ∷ s) = ground (arith, has_prefix-take n s)

trim_prefix-take : (n : ℕ) (s : Bytes) → trim_prefix (take n s) s ≡ drop n s
unfolding trim_prefix
trim_prefix-take zero s = refl
trim_prefix-take (suc n) [] = refl
trim_prefix-take (suc n) (c ∷ s) = ground (arith, has_prefix-take n s, trim_prefix-take n s)

drive_letter-ne_slash : (d : ℕ) → is_drive_letter d ≡ true → (d == b'/') ≡ false
unfolding is_drive_letter
drive_letter-ne_slash d h = ground arith

drive_letter-is_absolute :
    (d : ℕ) (r : Bytes)
    → is_drive_letter d ≡ true
    → win32_is_absolute (d ∷ b':' ∷ backslash ∷ r) ≡ true
unfolding win32_is_absolute
drive_letter-is_absolute d r h =
    ap
      (λ b.
        if b && true
        then true
        else has_prefix (backslash ∷ []) (d ∷ b':' ∷ backslash ∷ r)
          || has_prefix (codes "/") (d ∷ b':' ∷ backslash ∷ r))
      h

-- The drive stays in front of the normalized rest.
win32_normalize-drive :
    (d : ℕ) (s : Bytes)
    → is_drive_letter d ≡ true
    → win32_normalize (d ∷ b':' ∷ s) ≡ d ∷ b':' ∷ normalize_rest (to_backslashes s)
unfolding win32_normalize
win32_normalize-drive d s h =
    let q = to_backslashes s in
    ap
      (λ b.
        let e = if b then backslash else d in
        (drive_split (e ∷ b':' ∷ q)).0 ++ normalize_rest (drive_split (e ∷ b':' ∷ q)).1)
      (drive_letter-ne_slash d h)
    ∙ ap
        (λ b.
          let r : Bytes × Bytes = if b && true then (d ∷ b':' ∷ [], q) else ([], d ∷ b':' ∷ q) in
          r.0 ++ normalize_rest r.1)
        h

-- What win32Relative computes from the two resolved paths.
abbrev relative_of : (Bytes → Bytes → Bool) → Bytes → Bytes → Option Bytes
relative_of equal_fold a b =
    if equal_fold a b
    then some []
    else if ltb (length a) 2 || ltb (length b) 2
    then none
    else some (
        join backslash (
          relative_segments equal_fold (split_non_empty (drop 2 a) backslash)
            (split_non_empty (drop 2 b) backslash)))

-- The branch in which the paths differ, where `to` is a drive and `rest`.
abbrev cut : (Bytes → Bytes → Bool) → Bytes → Bytes → Option Bytes
cut equal_fold a rest =
    if ltb (length a) 2 || false
    then none
    else some (
        join backslash (
          relative_segments equal_fold (split_non_empty (drop 2 a) backslash)
            (split_non_empty rest backslash)))

module _ (equal_fold : Bytes → Bytes → Bool) (getwd : Option Bytes) where
  relative_of-drive :
      (a rest : Bytes) (c : ℕ)
      → equal_fold a (c ∷ b':' ∷ rest) ≡ false
      → relative_of equal_fold a (c ∷ b':' ∷ rest) ≡ cut equal_fold a rest
  relative_of-drive a rest c f =
      let short : ltb (length (c ∷ b':' ∷ rest)) 2 ≡ false = ground arith in
      let parts = join backslash (
        relative_segments equal_fold (split_non_empty (drop 2 a) backslash)
          (split_non_empty rest backslash)) in
      ap₂ (λ t l. if t then some [] else if ltb (length a) 2 || l then none else some parts) f short

  win32_relative_lem :
      (from to : Bytes)
      → win32_relative equal_fold getwd from to
        ≡ relative_of equal_fold (win32_resolve getwd (from ∷ [])) (win32_resolve getwd (to ∷ []))
  unfolding win32_relative
  win32_relative_lem from to =
      let a = win32_resolve getwd (from ∷ []) in
      let b = win32_resolve getwd (to ∷ []) in
      ap₂
        (λ s t.
          if equal_fold a b
          then some []
          else if ltb (length a) 2 || ltb (length b) 2
          then none
          else some (
              join backslash (
                relative_segments equal_fold (split_non_empty s backslash)
                  (split_non_empty t backslash))))
        (trim_prefix-take 2 a) (trim_prefix-take 2 b)

  win32_resolve-root : win32_resolve getwd (codes "/" ∷ []) ≡ backslash ∷ []
  unfolding win32_resolve
  win32_resolve-root = refl

  -- `path.win32.relative` panics on the root without a drive: whatever `to` is, unless it resolves
  -- to that root itself up to case, the slice `from[:2]` is out of range.
  pub win32_relative-root :
      (to : Bytes)
      → equal_fold (backslash ∷ []) (win32_resolve getwd (to ∷ [])) ≡ false
      → win32_relative equal_fold getwd (codes "/") to ≡ none
  win32_relative-root to h =
      win32_relative_lem (codes "/") to
      ∙ ap (λ r. relative_of equal_fold r (win32_resolve getwd (to ∷ []))) win32_resolve-root
      ∙ ap (λ t. if t then some [] else none) h

  -- A path with a drive resolves to itself, normalized.
  win32_resolve-drive :
      (d : ℕ) (r : Bytes)
      → is_drive_letter d ≡ true
      → win32_resolve getwd ((d ∷ b':' ∷ backslash ∷ r) ∷ [])
        ≡ d ∷ b':' ∷ normalize_rest (backslash ∷ to_backslashes r)
  unfolding win32_resolve
  win32_resolve-drive d r h =
      let part = d ∷ b':' ∷ backslash ∷ r in
      ap (λ b. win32_normalize (if b then part else win32_cwd_of getwd ++ (backslash ∷ part)))
        (drive_letter-is_absolute d r h)
      ∙ win32_normalize-drive d (backslash ∷ r) h

  -- `path.win32.relative` forgets the drive of `to`: two paths from roots of different drives, the
  -- same but for the drive, have one and the same result, where neither is `from` up to case. So
  -- the result cannot lead from `from` to both.
  pub win32_relative-drive :
      (from r : Bytes) (d e : ℕ)
      → is_drive_letter d ≡ true
      → is_drive_letter e ≡ true
      → equal_fold
          (win32_resolve getwd (from ∷ []))
          (win32_resolve getwd ((d ∷ b':' ∷ backslash ∷ r) ∷ []))
        ≡ false
      → equal_fold
          (win32_resolve getwd (from ∷ []))
          (win32_resolve getwd ((e ∷ b':' ∷ backslash ∷ r) ∷ []))
        ≡ false
      → win32_relative equal_fold getwd from (d ∷ b':' ∷ backslash ∷ r)
        ≡ win32_relative equal_fold getwd from (e ∷ b':' ∷ backslash ∷ r)
  win32_relative-drive from r d e hd he fd fe =
      let a = win32_resolve getwd (from ∷ []) in
      let rest = normalize_rest (backslash ∷ to_backslashes r) in
      let to_drive : (c : ℕ)
          → is_drive_letter c ≡ true
          → equal_fold a (win32_resolve getwd ((c ∷ b':' ∷ backslash ∷ r) ∷ [])) ≡ false
          → win32_relative equal_fold getwd from (c ∷ b':' ∷ backslash ∷ r)
            ≡ cut equal_fold a rest =
        λ c h f.
          win32_relative_lem from (c ∷ b':' ∷ backslash ∷ r)
          ∙ ap (relative_of equal_fold a) (win32_resolve-drive c r h)
          ∙ relative_of-drive a rest c (ap (equal_fold a) (sym (win32_resolve-drive c r h)) ∙ f) in
      to_drive d hd fd ∙ sym (to_drive e he fe)

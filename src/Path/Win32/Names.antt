-- ===== src/Path/Win32/Names.antt =====
-- win32Dirname, win32Basename and win32Extname take a path apart.
use noderati.Prelude.{
  ℕ, zero, suc, ◌≡◌, refl, sym, ap, ◌∙◌, false, Option, none, some, [], ◌∷◌, ◌++◌, take, drop,
  arith,
}
use noderati.Prelude.Strings.{Bytes, is_empty, contains_byte, last_index}
use noderati.Prelude.Strings.Index.{last_index-none, last_index-some}
use noderati.Path.Segments.{dot}
use noderati.Path.Win32.{
  backslash, to_backslashes, win32_basename, win32_dirname, win32_extname, basename_at, dirname_at,
  extname_at,
}

basename_eq :
    (p : Bytes) (o : Option ℕ)
    → last_index backslash (to_backslashes p) ≡ o
    → win32_basename p ≡ basename_at (to_backslashes p) o
unfolding win32_basename
basename_eq p o e = ap (basename_at (to_backslashes p)) e

dirname_eq :
    (p : Bytes) (o : Option ℕ)
    → last_index backslash (to_backslashes p) ≡ o
    → win32_dirname p ≡ dirname_at (to_backslashes p) o
unfolding win32_dirname
dirname_eq p o e = ap (dirname_at (to_backslashes p)) e

extname_eq :
    (p : Bytes) (o : Option ℕ)
    → last_index b'.' (win32_basename p) ≡ o
    → win32_extname p ≡ extname_at (win32_basename p) o
unfolding win32_extname
extname_eq p o e = ap (extname_at (win32_basename p)) e

contains_byte-tail :
    (b : ℕ) (s : Bytes) → contains_byte b s ≡ false → contains_byte b (drop 1 s) ≡ false
unfolding contains_byte
contains_byte-tail b [] h = refl
contains_byte-tail b (c ∷ s) h = ground arith

-- Where the byte stands behind a first part that is not empty.
drop_eq :
    (b i : ℕ) (s : Bytes)
    → s ≡ take (suc i) s ++ (b ∷ drop (suc (suc i)) s)
    → drop (suc i) s ≡ b ∷ drop (suc (suc i)) s
drop_eq b i [] h = cc
drop_eq b zero (c ∷ []) h = cc
drop_eq b zero (c ∷ d ∷ s) h = cc
drop_eq b (suc i) (c ∷ s) h = drop_eq b i s (cc)

filled :
    (b i : ℕ) (s : Bytes)
    → s ≡ take (suc i) s ++ (b ∷ drop (suc (suc i)) s)
    → is_empty (take (suc i) s) ≡ false
filled b i [] h = cc
filled b i (c ∷ s) h = refl

-- How `win32Dirname` and `win32Basename` share a path out.
pub data IsShared (p : Bytes) : Type 0 where
  bare : to_backslashes p ≡ win32_basename p → win32_dirname p ≡ dot → IsShared p
  at_root :
      to_backslashes p ≡ backslash ∷ win32_basename p
      → win32_dirname p ≡ backslash ∷ []
      → IsShared p
  below :
      is_empty (win32_dirname p) ≡ false
      → to_backslashes p ≡ win32_dirname p ++ (backslash ∷ win32_basename p)
      → IsShared p

-- The base name holds no separator, and with the directory name, which is not empty, and a separator
-- before it, it is the path with its slashes replaced, except that a path without separators has the
-- directory "." and one whose only separator is its first byte has the directory "\".
pub win32_dirname-basename :
    (p : Bytes) → (contains_byte backslash (win32_basename p) ≡ false) × IsShared p
win32_dirname-basename p = split_at (last_index backslash (to_backslashes p)) refl
  where
    split_at :
        (o : Option ℕ)
        → last_index backslash (to_backslashes p) ≡ o
        → (contains_byte backslash (win32_basename p) ≡ false) × IsShared p
    split_at none e =
        let base = basename_eq p none e in
        (
          ap (contains_byte backslash) base ∙ last_index-none backslash (to_backslashes p) e,
          bare (sym base) (dirname_eq p none e),
        )
    split_at (some zero) e =
        let base = basename_eq p (some 0) e in
        let (q, free) = last_index-some backslash (to_backslashes p) 0 e in
        (
          ap (contains_byte backslash) base ∙ free,
          at_root (q ∙ ap (λ w. backslash ∷ w) (sym base)) (dirname_eq p (some 0) e),
        )
    split_at (some (suc i)) e =
        let base = basename_eq p (some (suc i)) e in
        let (q, free) = last_index-some backslash (to_backslashes p) (suc i) e in
        (
          ap (contains_byte backslash) base ∙ free,
          below
              (ap is_empty (dirname_eq p (some (suc i)) e)
                ∙ filled backslash i (to_backslashes p) q)
              (q
                ∙ ap (λ w. take (suc i) (to_backslashes p) ++ (backslash ∷ w)) (sym base)
                ∙ ap (λ w. w ++ (backslash ∷ win32_basename p))
                    (sym (dirname_eq p (some (suc i)) e))),
        )

-- How `win32Extname` shares a base name out.
pub data IsNamed (base ext : Bytes) : Type 0 where
  without : ext ≡ [] → contains_byte b'.' (drop 1 base) ≡ false → IsNamed base ext
  with_ext :
      (stem rest : Bytes)
      → is_empty stem ≡ false
      → base ≡ stem ++ ext
      → ext ≡ b'.' ∷ rest
      → contains_byte b'.' rest ≡ false
      → IsNamed base ext

-- The extension is empty if the base name has no dot behind its first byte; otherwise the base name
-- is a stem that is not empty and the extension, which begins with the last dot.
pub win32_extname-basename : (p : Bytes) → IsNamed (win32_basename p) (win32_extname p)
win32_extname-basename p = split_at (last_index b'.' (win32_basename p)) refl
  where
    split_at :
        (o : Option ℕ)
        → last_index b'.' (win32_basename p) ≡ o
        → IsNamed (win32_basename p) (win32_extname p)
    split_at none e =
        without (extname_eq p none e)
          (contains_byte-tail b'.' (win32_basename p) (last_index-none b'.' (win32_basename p) e))
    split_at (some zero) e =
        without (extname_eq p (some 0) e) (last_index-some b'.' (win32_basename p) 0 e).1
    split_at (some (suc i)) e =
        let (q, free) = last_index-some b'.' (win32_basename p) (suc i) e in
        let ext = extname_eq p (some (suc i)) e in
        let rest = drop_eq b'.' i (win32_basename p) q in
        with_ext (take (suc i) (win32_basename p)) (drop (suc (suc i)) (win32_basename p))
          (filled b'.' i (win32_basename p) q)
          (q ∙ ap (λ w. take (suc i) (win32_basename p) ++ w) (sym (ext ∙ rest))) (ext ∙ rest) free

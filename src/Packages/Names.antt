-- ===== src/Packages/Names.antt =====
-- splitPackageSpecifier takes a specifier apart without loss.
use mathlib.Core.Path.{subst}
use noderati.Prelude.{
  true, false, Option, none, some, [], ◌∷◌, ◌++◌, if◌then◌else◌, ◌≡◌, refl, sym, ap, ◌∙◌, inl, inr,
  Bool-cases, append_assoc, arith, ◌==◌, ==_iff, ◌||◌,
}
use noderati.Prelude.Strings.{Bytes, codes, contains_byte, has_prefix}
use noderati.Packages.Specifier.{cut, plain_parts, scoped, scoped_parts, split_package_specifier}

-- The first part holds no separator, and the parts make up the whole.
abbrev IsCut : Bytes → Bytes × Option Bytes → Type 0
IsCut s (name, none) = (contains_byte b'/' name ≡ false) × (s ≡ name)
IsCut s (name, some rest) = (contains_byte b'/' name ≡ false) × (s ≡ name ++ (b'/' ∷ rest))

cut-IsCut : (s : Bytes) → IsCut s (cut s)
unfolding cut contains_byte
cut-IsCut [] = (refl, refl)
cut-IsCut (c ∷ s) = elim (Bool-cases (c == b'/')) [
  | inl e ↦ rw e (refl, ap (λ d. d ∷ s) ((==_iff c b'/').0 e))
  | inr e ↦ rw e (longer (cut s) e (cut-IsCut s))
]
  where
    longer :
        (r : Bytes × Option Bytes) → (c == b'/') ≡ false → IsCut s r → IsCut (c ∷ s) (c ∷ r.0, r.1)
    longer (name, none) e h = (ap (λ b. b || contains_byte b'/' name) e ∙ h.0, ap (λ d. c ∷ d) h.1)
    longer (name, some rest) e h =
        (ap (λ b. b || contains_byte b'/' name) e ∙ h.0, ap (λ d. c ∷ d) h.1)

-- What is the package's name of a specifier: one segment, if it has no scope; all of it, if it is a
-- scope alone; otherwise the scope and one segment.
pub data IsPackageName (s name : Bytes) : Type 0 where
  plain : has_prefix (codes "@") s ≡ false → contains_byte b'/' name ≡ false → IsPackageName s name
  alone : contains_byte b'/' s ≡ false → name ≡ s → IsPackageName s name
  within :
      (scope own : Bytes)
      → contains_byte b'/' scope ≡ false
      → contains_byte b'/' own ≡ false
      → name ≡ scope ++ (b'/' ∷ own)
      → has_prefix (codes "@") name ≡ true
      → IsPackageName s name

-- The specifier is the name, or the name, a separator and the subpath.
pub data Rejoins (s name subpath : Bytes) : Type 0 where
  whole : s ≡ name → subpath ≡ [] → Rejoins s name subpath
  parts : s ≡ name ++ (b'/' ∷ subpath) → Rejoins s name subpath

plain_parts-Rejoins :
    (s : Bytes) (r : Bytes × Option Bytes)
    → has_prefix (codes "@") s ≡ false
    → IsCut s r
    → IsPackageName s (plain_parts r).0 × Rejoins s (plain_parts r).0 (plain_parts r).1
plain_parts-Rejoins s (name, none) at h = (plain at h.0, whole h.1 refl)
plain_parts-Rejoins s (name, some rest) at h = (plain at h.0, parts h.1)

-- Where the whole begins with "@", so does its first part with a separator behind it.
at_scope :
    (s scope rest own : Bytes)
    → has_prefix (codes "@") s ≡ true
    → s ≡ scope ++ (b'/' ∷ rest)
    → has_prefix (codes "@") (scope ++ (b'/' ∷ own)) ≡ true
unfolding has_prefix
at_scope [] scope rest own h e = cc
at_scope (c ∷ s) [] rest own h e = ground arith
at_scope (c ∷ s) (d ∷ scope) rest own h e = ground arith

abbrev Good : Bytes → Bytes × Bytes → Type 0
Good s r = IsPackageName s r.0 × Rejoins s r.0 r.1

scoped_parts-Rejoins :
    (s scope rest : Bytes) (r : Bytes × Option Bytes)
    → has_prefix (codes "@") s ≡ true
    → contains_byte b'/' scope ≡ false
    → s ≡ scope ++ (b'/' ∷ rest)
    → IsCut rest r
    → IsPackageName s (scoped_parts scope r).0
      × Rejoins s (scoped_parts scope r).0 (scoped_parts scope r).1
scoped_parts-Rejoins s scope rest (own, none) at l e h = (
  within scope own l h.0 refl (at_scope s scope rest own at e),
  whole (e ∙ ap (λ t. scope ++ (b'/' ∷ t)) h.1) refl,
)
scoped_parts-Rejoins s scope rest (own, some sub) at l e h = (
  within scope own l h.0 refl (at_scope s scope rest own at e),
  parts
      (e ∙ ap (λ t. scope ++ (b'/' ∷ t)) h.1 ∙ sym (append_assoc scope (b'/' ∷ own) (b'/' ∷ sub))),
)

scoped-Rejoins :
    (s : Bytes) (r : Bytes × Option Bytes)
    → has_prefix (codes "@") s ≡ true
    → IsCut s r
    → IsPackageName s (scoped s r).0 × Rejoins s (scoped s r).0 (scoped s r).1
scoped-Rejoins s (scope, none) at h =
    (alone (ap (contains_byte b'/') h.1 ∙ h.0) refl, whole refl refl)
scoped-Rejoins s (scope, some rest) at h =
    scoped_parts-Rejoins s scope rest (cut rest) at h.0 h.1 (cut-IsCut rest)

-- splitPackageSpecifier loses nothing: the specifier is the name alone, or the name, a separator and
-- the subpath. If the specifier begins with "@" and has a separator, the name is a scope, a separator
-- and one segment; otherwise it is one segment, all of it if it begins with "@".
pub split_package_specifier-Rejoins :
    (s : Bytes)
    → let (name, subpath) = split_package_specifier s in
      IsPackageName s name × Rejoins s name subpath
unfolding split_package_specifier
split_package_specifier-Rejoins s = elim (Bool-cases (has_prefix (codes "@") s)) [
  | inl e ↦
      subst (λ b. Good s (if b then scoped s (cut s) else plain_parts (cut s))) (sym e)
        (scoped-Rejoins s (cut s) e (cut-IsCut s))
  | inr e ↦
      subst (λ b. Good s (if b then scoped s (cut s) else plain_parts (cut s))) (sym e)
        (plain_parts-Rejoins s (cut s) e (cut-IsCut s))
]

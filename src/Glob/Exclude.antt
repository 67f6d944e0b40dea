-- ===== src/Glob/Exclude.antt =====
-- globExcludeMatcher of internal/host/fs_glob.go: which paths a list of patterns excludes.
use noderati.Prelude.{
  Bool, true, false, ◌||◌, List, [], ◌∷◌, ◌≡◌, refl, sym, ap, ◌∙◌, ◌⊎◌, inl, inr, ◌↔◌, Bool-cases,
}
use noderati.Prelude.Strings.{Bytes, split}
use noderati.Glob.Braces.{glob_expand_braces}
use noderati.Glob.Compile.{glob_compile}
use noderati.Glob.Match.{match_parts, Matches, match_parts-Matches}

unfoldable pub any : (Bytes → Bool) → List Bytes → Bool
any f [] = false
any f (x ∷ xs) = f x || any f xs

-- Some item of the list.
abbrev pub Any : (Bytes → Type 0) → List Bytes → Type 0
Any P [] = ⊥
Any P (x ∷ xs) = P x ⊎ Any P xs

any_sound :
    (f : Bytes → Bool) (P : Bytes → Type 0)
    → ((x : Bytes) → f x ≡ true → P x)
    → (xs : List Bytes) → any f xs ≡ true
    → Any P xs
unfolding any
any_sound f P k [] h = cc
any_sound f P k (x ∷ xs) h = elim (Bool-cases (f x)) [
  | inl e ↦ inl (k x e)
  | inr e ↦ inr (any_sound f P k xs (ap (λ b. b || any f xs) (sym e) ∙ h))
]

or-right : (b c : Bool) → c ≡ true → (b || c) ≡ true
or-right true c h = refl
or-right false c h = h

any_complete :
    (f : Bytes → Bool) (P : Bytes → Type 0)
    → ((x : Bytes) → P x → f x ≡ true)
    → (xs : List Bytes) → Any P xs
    → any f xs ≡ true
unfolding any
any_complete f P k [] h = elim h [ ]
any_complete f P k (x ∷ xs) (inl h) = ap (λ b. b || any f xs) (k x h)
any_complete f P k (x ∷ xs) (inr h) = or-right (f x) (any f xs) (any_complete f P k xs h)

module _ (compiles : Bytes → Bool) (match_string : Bytes → Bytes → Bool) where
  abbrev pub excluded_by : List Bytes → Bytes → Bool
  excluded_by parts pattern = match_parts match_string (glob_compile compiles pattern).segs parts

  -- The predicate that globExcludeMatcher returns, on a path.
  unfoldable pub exclude_matcher : List Bytes → Bytes → Bool
  unfolding any glob_expand_braces glob_compile match_parts split
  exclude_matcher patterns rel =
      any (λ p. any (excluded_by (split b'/' rel)) (glob_expand_braces p)) patterns

  abbrev pub Stands : List Bytes → Bytes → Type 0
  Stands parts pattern = Matches match_string (glob_compile compiles pattern).segs parts

  any_pattern-Stands :
      (parts patterns : List Bytes)
      → (any (λ p. any (excluded_by parts) (glob_expand_braces p)) patterns ≡ true)
        ↔ Any (λ p. Any (Stands parts) (glob_expand_braces p)) patterns
  any_pattern-Stands parts patterns = (
    any_sound _ _
        (λ p.
          any_sound (excluded_by parts) (Stands parts)
            (λ e. (match_parts-Matches match_string (glob_compile compiles e).segs parts).0)
            (glob_expand_braces p))
        patterns,
    any_complete _ _
        (λ p.
          any_complete (excluded_by parts) (Stands parts)
            (λ e. (match_parts-Matches match_string (glob_compile compiles e).segs parts).1)
            (glob_expand_braces p))
        patterns,
  )

  -- A path is excluded exactly if its parts are what the segments of some expansion of some pattern
  -- stand for.
  pub exclude_matcher-Stands :
      (patterns : List Bytes) (rel : Bytes)
      → (exclude_matcher patterns rel ≡ true)
        ↔ Any (λ p. Any (Stands (split b'/' rel)) (glob_expand_braces p)) patterns
  unfolding exclude_matcher
  exclude_matcher-Stands patterns rel = any_pattern-Stands (split b'/' rel) patterns

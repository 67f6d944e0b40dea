-- ===== src/Glob/Match.antt =====
-- globMatchParts and globExcludeMatcher of internal/host/fs_glob.go, and what a pattern matches.
use noderati.Prelude.{
  ◌≢◌, Bool, true, false, ◌||◌, none, some, List, [], ◌∷◌, if◌then◌else◌, ◌≡◌, refl, sym, ap, ◌∙◌,
  inl, inr, Bool-cases, arith, ◌↔◌,
}
use noderati.Prelude.Strings.{Bytes, beq}
use noderati.Glob.Compile.{Segment}

abbrev is_nil : List Bytes → Bool
is_nil [] = true
is_nil (p ∷ parts) = false

-- The loop over what is left behind each number of parts.
unfoldable pub any_suffix : (List Bytes → Bool) → List Bytes → Bool
any_suffix f [] = f []
any_suffix f (p ∷ parts) = f (p ∷ parts) || any_suffix f parts

true≢false : true ≢ false
true≢false h = cc

-- `MatchString` of the regular expression with a given text.
module _ (match_string : Bytes → Bytes → Bool) where
  abbrev pub fits : Segment → Bytes → Bool
  fits s p = elim s.re [ none ↦ beq s.raw p | some re ↦ match_string re p ]

  abbrev pub match_one : Segment → (List Bytes → Bool) → List Bytes → Bool
  match_one s f [] = false
  match_one s f (p ∷ parts) = if fits s p then f parts else false

  unfoldable pub match_parts : List Segment → List Bytes → Bool
  unfolding any_suffix
  match_parts [] parts = is_nil parts
  match_parts (s ∷ segs) parts =
      let rest = match_parts segs in
      if s.globs then any_suffix rest parts else match_one s rest parts

  -- Each segment but `**` stands for one part that fits it, and `**` for any number of parts.
  pub data Matches : List Segment → List Bytes → Type 0 where
    done : Matches [] []
    one :
        {s : Segment} {segs : List Segment} {p : Bytes} {parts : List Bytes}
        → s.globs ≡ false
        → fits s p ≡ true
        → Matches segs parts
        → Matches (s ∷ segs) (p ∷ parts)
    none_left :
        {s : Segment} {segs : List Segment} {parts : List Bytes}
        → s.globs ≡ true
        → Matches segs parts
        → Matches (s ∷ segs) parts
    one_more :
        {s : Segment} {segs : List Segment} {p : Bytes} {parts : List Bytes}
        → s.globs ≡ true
        → Matches (s ∷ segs) parts
        → Matches (s ∷ segs) (p ∷ parts)

  any_suffix_sound :
      (s : Segment) (segs : List Segment) (f : List Bytes → Bool)
      → s.globs ≡ true
      → ((parts : List Bytes) → f parts ≡ true → Matches segs parts)
      → (parts : List Bytes) → any_suffix f parts ≡ true
      → Matches (s ∷ segs) parts
  unfolding any_suffix
  any_suffix_sound s segs f g ih [] h = none_left g (ih [] h)
  any_suffix_sound s segs f g ih (p ∷ parts) h = elim (Bool-cases (f (p ∷ parts))) [
    | inl e ↦ none_left g (ih (p ∷ parts) e)
    | inr e ↦
        one_more g
          (any_suffix_sound s segs f g ih parts (ap (λ b. b || any_suffix f parts) (sym e) ∙ h))
  ]

  match_one_sound :
      (s : Segment) (segs : List Segment) (f : List Bytes → Bool)
      → s.globs ≡ false
      → ((parts : List Bytes) → f parts ≡ true → Matches segs parts)
      → (parts : List Bytes) → match_one s f parts ≡ true
      → Matches (s ∷ segs) parts
  match_one_sound s segs f g ih [] h = cc
  match_one_sound s segs f g ih (p ∷ parts) h = elim (Bool-cases (fits s p)) [
    | inl e ↦ one g e (ih parts (ap (λ b. if b then f parts else false) (sym e) ∙ h))
    | inr e ↦ let bad : false ≡ true = ap (λ b. if b then f parts else false) (sym e) ∙ h in cc
  ]

  match_parts_sound :
      (segs : List Segment) (parts : List Bytes)
      → match_parts segs parts ≡ true
      → Matches segs parts
  unfolding match_parts
  match_parts_sound [] [] h = done
  match_parts_sound [] (p ∷ parts) h = cc
  match_parts_sound (s ∷ segs) parts h = elim (Bool-cases s.globs) [
    | inl g ↦ any_suffix_sound s segs (match_parts segs) g (match_parts_sound segs) parts (
        ap
          (λ b.
            if b then any_suffix (match_parts segs) parts else match_one s (match_parts segs) parts)
          (sym g)
        ∙ h)
    | inr g ↦ match_one_sound s segs (match_parts segs) g (match_parts_sound segs) parts (
        ap
          (λ b.
            if b then any_suffix (match_parts segs) parts else match_one s (match_parts segs) parts)
          (sym g)
        ∙ h)
  ]

  any_suffix-here :
      (f : List Bytes → Bool) (parts : List Bytes) → f parts ≡ true → any_suffix f parts ≡ true
  unfolding any_suffix
  any_suffix-here f [] h = h
  any_suffix-here f (p ∷ parts) h = ap (λ b. b || any_suffix f parts) h

  any_suffix-later :
      (f : List Bytes → Bool) (p : Bytes) (parts : List Bytes)
      → any_suffix f parts ≡ true
      → any_suffix f (p ∷ parts) ≡ true
  unfolding any_suffix
  any_suffix-later f p parts h = ground arith

  match_parts-globs :
      (s : Segment) (segs : List Segment) (parts : List Bytes)
      → s.globs ≡ true
      → match_parts (s ∷ segs) parts ≡ any_suffix (match_parts segs) parts
  unfolding match_parts
  match_parts-globs s segs parts g =
      ap
        (λ b.
          if b then any_suffix (match_parts segs) parts else match_one s (match_parts segs) parts)
        g

  match_parts-one :
      (s : Segment) (segs : List Segment) (p : Bytes) (parts : List Bytes)
      → s.globs ≡ false
      → fits s p ≡ true
      → match_parts (s ∷ segs) (p ∷ parts) ≡ match_parts segs parts
  unfolding match_parts
  match_parts-one s segs p parts g e =
      ap
        (λ b.
          if b
          then any_suffix (match_parts segs) (p ∷ parts)
          else match_one s (match_parts segs) (p ∷ parts))
        g
      ∙ ap (λ b. if b then match_parts segs parts else false) e

  match_parts-nil : match_parts [] [] ≡ true
  unfolding match_parts
  match_parts-nil = refl

  match_parts_complete :
      {segs : List Segment} {parts : List Bytes}
      → Matches segs parts
      → match_parts segs parts ≡ true
  match_parts_complete done = match_parts-nil
  match_parts_complete (one {s = s} {segs = segs} {p = p} {parts = parts} g e h) =
      match_parts-one s segs p parts g e ∙ match_parts_complete h
  match_parts_complete (none_left {s = s} {segs = segs} {parts = parts} g h) =
      match_parts-globs s segs parts g
      ∙ any_suffix-here (match_parts segs) parts (match_parts_complete h)
  match_parts_complete (one_more {s = s} {segs = segs} {p = p} {parts = parts} g h) =
      match_parts-globs s segs (p ∷ parts) g
      ∙ any_suffix-later (match_parts segs) p parts
          (sym (match_parts-globs s segs parts g) ∙ match_parts_complete h)

  -- globMatchParts says yes to exactly the paths whose parts the segments stand for: each segment but
  -- `**` for one part that is the text or that the regular expression matches, and `**` for any
  -- number of parts.
  pub match_parts-Matches :
      (segs : List Segment) (parts : List Bytes)
      → (match_parts segs parts ≡ true) ↔ Matches segs parts
  match_parts-Matches segs parts = (match_parts_sound segs parts, match_parts_complete)

  Matches-collapse :
      {s t : Segment} {segs : List Segment} {parts : List Bytes}
      → t.globs ≡ true
      → Matches (s ∷ t ∷ segs) parts
      → s.globs ≡ true
      → Matches (t ∷ segs) parts
  Matches-collapse g (one e f h) k = absurd (true≢false (sym k ∙ e))
  Matches-collapse g (none_left e h) k = h
  Matches-collapse g (one_more e h) k = one_more g (Matches-collapse g h k)

  -- A second `**` behind a first changes nothing, so that globCompile may leave it out.
  pub match_parts-collapse :
      (s t : Segment) (segs : List Segment) (parts : List Bytes)
      → s.globs ≡ true
      → t.globs ≡ true
      → match_parts (s ∷ t ∷ segs) parts ≡ match_parts (t ∷ segs) parts
  match_parts-collapse s t segs parts g k =
      same (match_parts (s ∷ t ∷ segs) parts) (match_parts (t ∷ segs) parts)
        (λ h.
          match_parts_complete (Matches-collapse k (match_parts_sound (s ∷ t ∷ segs) parts h) g))
        (λ h. match_parts_complete (none_left g (match_parts_sound (t ∷ segs) parts h)))
    where
      same : (b c : Bool) → (b ≡ true → c ≡ true) → (c ≡ true → b ≡ true) → b ≡ c
      same true true f h = refl
      same true false f h = sym (f refl)
      same false true f h = h refl
      same false false f h = refl

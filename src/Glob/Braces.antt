-- ===== src/Glob/Braces.antt =====
-- globExpandBraces of internal/host/fs_glob.go.
use noderati.Prelude.{
  ℕ, zero, suc, ◌+◌, ◌-◌, ◌&&◌, Option, none, some, List, [], ◌∷◌, ◌++◌, length, take, drop,
  if◌then◌else◌, ltb, ◌==◌, ◌≡◌, refl,
}
use noderati.Prelude.Strings.{Bytes, codes}

-- The loop over `body`: `skip` bytes are done with, `d` is the depth and `current` is
-- `body[last:j]`. In a body the braces are balanced, so `d` does not pass below 0.
pub record AltState : Type 0 where
  pub skip : ℕ
  pub d : ℕ

unfoldable pub alt_state : ℕ → ℕ → AltState
alt_state c d =
    if c == b'\\'
    then record { skip = 1; d = d }
    else if c == b'{'
    then record { skip = 0; d = d + 1 }
    else record { skip = 0; d = if c == b'}' then d - 1 else d }

unfoldable pub alternatives : ℕ → ℕ → Bytes → Bytes → List Bytes
unfolding alt_state
alternatives skip d current [] = current ∷ []
alternatives (suc skip) d current (c ∷ s) = alternatives skip d (current ++ (c ∷ [])) s
alternatives zero d current (c ∷ s) =
    let ends = c == b',' && d == 0 in
    let next = alt_state c d in
    let rest = alternatives next.skip next.d (if ends then [] else current ++ (c ∷ [])) s in
    if ends then current ∷ rest else rest

-- A group with two alternatives or more, and where it stands.
pub record Group : Type 0 where
  pub start : ℕ
  pub close : ℕ
  pub alts : List Bytes

-- The state of the loop over the pattern behind a byte: `skip`, `depth` and `start`.
pub record Scan : Type 0 where
  pub skip : ℕ
  pub depth : ℕ
  pub start : ℕ

unfoldable pub scan_state : ℕ → ℕ → Scan → Scan
scan_state c i st =
    if c == b'\\'
    then record st { skip = 1 }
    else if c == b'{'
    then record { skip = 0; depth = st.depth + 1; start = if st.depth == 0 then i else st.start }
    else record st { skip = 0; depth = if c == b'}' then st.depth - 1 else st.depth }

-- `p[start+1 : i]`
abbrev pub body_of : Bytes → ℕ → ℕ → Bytes
body_of p start i = take (i - (start + 1)) (drop (start + 1) p)

-- A group of fewer than two alternatives is passed over.
abbrev pub group_of : ℕ → ℕ → List Bytes → Option Group
group_of start i alts =
    if ltb (length alts) 2 then none else some (record { start = start; close = i; alts = alts })

-- The group that a byte ends.
unfoldable pub ended : Bytes → ℕ → ℕ → Scan → Option Group
unfolding alternatives
ended p c i st =
    if c == b'}' && st.depth == 1
    then group_of st.start i (alternatives 0 0 [] (body_of p st.start i))
    else none

abbrev pub or_else : Option Group → Option Group → Option Group
or_else none rest = rest
or_else (some g) rest = some g

-- The loop over the pattern `p`, from the index `i` on.
unfoldable pub find_group : Bytes → ℕ → Scan → Bytes → Option Group
unfolding scan_state ended
find_group p i st [] = none
find_group p i st (c ∷ s) =
    let skipping = ltb 0 st.skip in
    let next = if skipping then record st { skip = st.skip - 1 } else scan_state c i st in
    or_else (if skipping then none else ended p c i st) (find_group p (i + 1) next s)

unfoldable pub first_group : Bytes → Option Group
unfolding find_group
first_group p = find_group p 0 (record { skip = 0; depth = 0; start = 0 }) p

-- `p[:start] + a + p[i+1:]`
abbrev pub replaced : Bytes → Group → Bytes → Bytes
replaced p g a = take g.start p ++ (a ++ drop (g.close + 1) p)

unfoldable pub concat_map : (Bytes → List Bytes) → List Bytes → List Bytes
concat_map f [] = []
concat_map f (a ∷ alts) = f a ++ concat_map f alts

abbrev pub expand_at : (Bytes → List Bytes) → Bytes → Option Group → List Bytes
expand_at expand p none = p ∷ []
expand_at expand p (some g) = concat_map (λ a. expand (replaced p g a)) g.alts

-- On fuel; without fuel there is no result at all.
unfoldable pub expand_braces : ℕ → Bytes → List Bytes
unfolding first_group concat_map
expand_braces zero p = []
expand_braces (suc fuel) p = expand_at (expand_braces fuel) p (first_group p)

-- With as much fuel as it needs.
unfoldable pub glob_expand_braces : Bytes → List Bytes
unfolding expand_braces
glob_expand_braces p = expand_braces (suc (length p)) p

expand_braces_runs :
    expand_braces 20 (codes "a{b,{c,d}}e{f}")
    ≡ codes "abe{f}" ∷ codes "ace{f}" ∷ codes "ade{f}" ∷ []
unfolding expand_braces
expand_braces_runs = refl

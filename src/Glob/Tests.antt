-- ===== src/Glob/Tests.antt =====
-- Patterns on which the theorems are applied, with regular expressions that match their own text.
use noderati.Prelude.{List, arith, Bool, true, false, none, [], ◌∷◌, ◌++◌, ◌≡◌, refl, ◌↔◌}
use noderati.Prelude.Strings.{Bytes, codes, beq, split}
use noderati.Glob.Braces.{expand_at, first_group, glob_expand_braces}
use noderati.Glob.Expansion.{glob_expand_braces_lem}
use noderati.Glob.Compile.{Segment, stars, glob_compile}
use noderati.Glob.Segment.{translate}
use noderati.Glob.NonAscii.{doubled, AllHigh, translate-doubled}
use noderati.Glob.Match.{match_parts, Matches, match_parts-Matches}
use noderati.Glob.Emit.{Emitted, emit_all, IsOnce, AllDiffer, emit_all-IsOnce}
use noderati.Glob.Exclude.{exclude_matcher, Any, Stands, exclude_matcher-Stands}

abbrev accepts_all : Bytes → Bool
accepts_all text = true

abbrev named : Bytes → Segment
named name = record { raw = name; globs = false; re = none }

glob_compile_runs : glob_compile accepts_all (codes "//a/**/**//\\b/") ≡ record {
  root = codes "/";
  segs = named (codes "a") ∷ stars ∷ named (codes "b") ∷ [];
  is_dir_only = true;
}
unfolding glob_compile beq
glob_compile_runs = refl

exclude_runs :
    exclude_matcher accepts_all beq (codes "src" ∷ codes "a/**/{b,c}" ∷ []) (codes "a/x/y/c") ≡ true
unfolding exclude_matcher beq
exclude_runs = refl

glob_expand_braces_lem_example :
    glob_expand_braces (codes "a{b,{c,d}}e")
    ≡ expand_at glob_expand_braces (codes "a{b,{c,d}}e") (first_group (codes "a{b,{c,d}}e"))
glob_expand_braces_lem_example = glob_expand_braces_lem (codes "a{b,{c,d}}e")

match_parts-Matches_example :
    (match_parts beq (stars ∷ named (codes "b") ∷ []) (codes "a" ∷ codes "b" ∷ []) ≡ true)
    ↔ Matches beq (stars ∷ named (codes "b") ∷ []) (codes "a" ∷ codes "b" ∷ [])
match_parts-Matches_example =
    match_parts-Matches beq (stars ∷ named (codes "b") ∷ []) (codes "a" ∷ codes "b" ∷ [])

exclude_matcher-Stands_example :
    (exclude_matcher accepts_all beq (codes "a/**/{b,c}" ∷ []) (codes "a/x/c") ≡ true)
    ↔ Any
        (λ p. Any (Stands accepts_all beq (split b'/' (codes "a/x/c"))) (glob_expand_braces p))
        (codes "a/**/{b,c}" ∷ [])
exclude_matcher-Stands_example =
    exclude_matcher-Stands accepts_all beq (codes "a/**/{b,c}" ∷ []) (codes "a/x/c")

-- "é" in UTF-8
abbrev e_acute : Bytes
e_acute = 195 ∷ 169 ∷ []

translate-doubled_example :
    translate 0 [] (e_acute ++ codes "*") ≡ doubled e_acute ++ translate 0 [] (codes "*")
unfolding AllHigh
translate-doubled_example =
    translate-doubled e_acute (codes "*") [] (omega arith, (omega arith, tt))

abbrev nothing : Emitted
nothing = record { seen = []; out = [] }

abbrev found_paths : List (Bool × (Bytes × Bool))
found_paths =
    (false, (codes "./a", false))
    ∷ (false, (codes "b/../a", false))
    ∷ (true, (codes "c", false))
    ∷ []

emit_all_runs : (emit_all (codes "/w") found_paths nothing).seen ≡ codes "a" ∷ []
unfolding emit_all
emit_all_runs = refl

emit_all-IsOnce_example : IsOnce (emit_all (codes "/w") found_paths nothing)
unfolding AllDiffer
emit_all-IsOnce_example =
    emit_all-IsOnce (codes "/w") found_paths nothing (record { marked = refl; distinct = tt })

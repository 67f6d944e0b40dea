-- ===== src/Glob/Emit.antt =====
-- What the walker of internal/host/fs_glob.go does with a path that it has found.
use mathlib.Core.Path.{subst}
use noderati.Prelude.{
  ◌≢◌, Bool, true, false, not, ◌&&◌, ◌||◌, Option, none, some, List, [], ◌∷◌, ◌++◌, if◌then◌else◌,
  ◌≡◌, refl, sym, ap, ◌∙◌, Bool-cases, inl, inr,
}
use noderati.Prelude.Strings.{Bytes, codes, beq, beq→eq, beq_refl, is_empty, ends_with}
use noderati.Path.GoPath.{is_abs, clean, join_elems}

pub record GlobMatch : Type 0 where
  pub rel : Bytes
  pub abs : Bytes
  pub is_dir : Bool

-- The parts of `globWalker` that emitting changes; the keys of the map `seen` are a list.
pub record Emitted : Type 0 where
  pub seen : List Bytes
  pub out : List GlobMatch

unfoldable pub result : Bytes → Bytes
unfolding clean
result rel = if is_empty rel then codes "." else clean rel

unfoldable pub join_rel : Bytes → Bytes → Bytes
unfolding ends_with
join_rel rel name =
    if is_empty rel then name else if ends_with b'/' rel then rel ++ name else rel ++ (b'/' ∷ name)

unfoldable pub is_seen : Bytes → List Bytes → Bool
unfolding beq
is_seen r [] = false
is_seen r (x ∷ xs) = beq x r || is_seen r xs

module _ (cwd : Bytes) where
  unfoldable pub abs_path : Bytes → Bytes
  unfolding is_abs join_elems
  abs_path rel = if is_abs rel then rel else join_elems (cwd ∷ rel ∷ [])

  -- `excluded`; `none` is a walker without the option.
  unfoldable pub is_excluded : Option (Bytes → Bytes → Bool → Bool) → Bytes → Bool → Bool
  unfolding result abs_path
  is_excluded none rel is_dir = false
  is_excluded (some exclude) rel is_dir = let r = result rel in exclude r (abs_path r) is_dir

  -- A result that was not there before.
  unfoldable pub emit_new : Bytes → Bool → Emitted → Emitted
  unfolding abs_path is_seen
  emit_new r is_dir g = if is_seen r g.seen then g else record {
    seen = g.seen ++ (r ∷ []);
    out = g.out ++ (record { rel = r; abs = abs_path r; is_dir = is_dir } ∷ []);
  }

  unfoldable pub emit : Bool → Bytes → Bool → Emitted → Emitted
  unfolding emit_new result
  emit dir_only rel is_dir g = if dir_only && not is_dir then g else emit_new (result rel) is_dir g

  -- Calls of `emit`, each with the flag of its pattern; `seen` is shared by the patterns.
  unfoldable pub emit_all : List (Bool × (Bytes × Bool)) → Emitted → Emitted
  unfolding emit
  emit_all [] g = g
  emit_all ((dir_only, (rel, is_dir)) ∷ calls) g = emit_all calls (emit dir_only rel is_dir g)

abbrev pub rels : List GlobMatch → List Bytes
rels [] = []
rels (m ∷ ms) = m.rel ∷ rels ms

rels-append :
    (ms : List GlobMatch) (m : GlobMatch) → rels (ms ++ (m ∷ [])) ≡ rels ms ++ (m.rel ∷ [])
rels-append [] m = refl
rels-append (n ∷ ms) m = ap (λ l. n.rel ∷ l) (rels-append ms m)

-- No path twice.
unfoldable pub AllDiffer : List Bytes → Type 0
AllDiffer [] = Unit
AllDiffer (r ∷ rs) = (is_seen r rs ≡ false) × AllDiffer rs

true≢false : true ≢ false
true≢false h = cc

or_assoc : (a b c : Bool) → (a || (b || c)) ≡ ((a || b) || c)
or_assoc true b c = refl
or_assoc false b c = refl

or-false : (b c : Bool) → (b || c) ≡ false → (b ≡ false) × (c ≡ false)
or-false true c h = cc
or-false false c h = (refl, h)

both-false : (b c : Bool) → b ≡ false → c ≡ false → (b || (c || false)) ≡ false
both-false true c h k = h
both-false false true h k = k
both-false false false h k = refl

beq-swap : (r x : Bytes) → beq x r ≡ false → beq r x ≡ false
beq-swap r x h = elim (Bool-cases (beq r x)) [
  | inl e ↦ absurd (true≢false (sym (beq_refl r) ∙ ap (λ y. beq y r) (beq→eq r x e) ∙ h))
  | inr e ↦ e
]

is_seen-append :
    (x r : Bytes) (rs : List Bytes)
    → is_seen x (rs ++ (r ∷ [])) ≡ (is_seen x rs || (beq r x || false))
unfolding is_seen
is_seen-append x r [] = refl
is_seen-append x r (y ∷ rs) =
    ap (λ b. beq y x || b) (is_seen-append x r rs) ∙ or_assoc (beq y x) (is_seen x rs) _

AllDiffer-append :
    (r : Bytes) (rs : List Bytes) → is_seen r rs ≡ false → AllDiffer rs → AllDiffer (rs ++ (r ∷ []))
unfolding AllDiffer is_seen
AllDiffer-append r [] h k = (refl, tt)
AllDiffer-append r (x ∷ rs) h k =
    let apart = or-false (beq x r) (is_seen r rs) h in
    (
      is_seen-append x r rs ∙ both-false (is_seen x rs) (beq r x) k.0 (beq-swap r x apart.0),
      AllDiffer-append r rs apart.1 k.1,
    )

-- The results are the paths that are marked as seen, each once.
pub record IsOnce (g : Emitted) : Type 0 where
  pub marked : g.seen ≡ rels g.out
  pub distinct : AllDiffer g.seen

module _ (cwd : Bytes) where
  emit_new-IsOnce :
      (r : Bytes) (is_dir : Bool) (g : Emitted) → IsOnce g → IsOnce (emit_new cwd r is_dir g)
  unfolding emit_new
  emit_new-IsOnce r is_dir g h = elim (Bool-cases (is_seen r g.seen)) [
    | inl e ↦ subst (λ b. IsOnce (if b then g else added)) (sym e) h
    | inr e ↦
        subst (λ b. IsOnce (if b then g else added)) (sym e)
          (record {
            marked = ap (λ l. l ++ (r ∷ [])) h.marked ∙ sym (rels-append g.out found);
            distinct = AllDiffer-append r g.seen e h.distinct;
          })
  ]
    where
      found : GlobMatch
      found = record { rel = r; abs = abs_path cwd r; is_dir = is_dir }

      added : Emitted
      added = record { seen = g.seen ++ (r ∷ []); out = g.out ++ (found ∷ []) }

  emit-IsOnce :
      (dir_only : Bool) (rel : Bytes) (is_dir : Bool) (g : Emitted)
      → IsOnce g
      → IsOnce (emit cwd dir_only rel is_dir g)
  unfolding emit
  emit-IsOnce true rel true g h = emit_new-IsOnce (result rel) true g h
  emit-IsOnce true rel false g h = h
  emit-IsOnce false rel is_dir g h = emit_new-IsOnce (result rel) is_dir g h

  -- The results of a glob are the paths that are marked as seen, and none is there twice, whatever
  -- paths are emitted and whichever patterns have found them.
  pub emit_all-IsOnce :
      (calls : List (Bool × (Bytes × Bool))) (g : Emitted)
      → IsOnce g
      → IsOnce (emit_all cwd calls g)
  unfolding emit_all
  emit_all-IsOnce [] g h = h
  emit_all-IsOnce ((dir_only, (rel, is_dir)) ∷ calls) g h =
      emit_all-IsOnce calls (emit cwd dir_only rel is_dir g) (emit-IsOnce dir_only rel is_dir g h)

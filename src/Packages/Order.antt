-- ===== src/Packages/Order.antt =====
-- The order in which the conditions of an "imports" target are tried.
use mathlib.Core.Path.{subst}
use noderati.Prelude.{
  ℕ, sym, ◌⊎◌, Option, none, some, List, [], ◌∷◌, ◌≡◌, refl, ap, ◌∙◌, inl, inr, true, Bool-cases,
}
use noderati.Prelude.Strings.{Bytes, beq, codes}
use noderati.Packages.Json.{Json, Fields, obj, end, field, put, decode, lookup, entries}
use noderati.Packages.Exports.{Target, found, not_found, failed, first_active}
use noderati.Packages.Imports.{
  candidates, select_in_order, try_candidate, resolve_import_target, resolve_import_fields,
}

map_values : (Json → Target) → List (Bytes × Json) → List (Bytes × Target)
map_values f [] = []
map_values f ((k, v) ∷ m) = (k, f v) ∷ map_values f m

abbrev pub map_option : (Json → Target) → Option Json → Option Target
map_option f none = none
map_option f (some v) = some (f v)

put-map_values :
    (f : Json → Target) (k : Bytes) (v : Json) (m : List (Bytes × Json))
    → put k (f v) (map_values f m) ≡ map_values f (put k v m)
unfolding put map_values
put-map_values f k v [] = refl
put-map_values f k v ((j, w) ∷ m) = elim (Bool-cases (beq j k)) [
  | inl e ↦ simp e
  | inr e ↦ simp e (ap (λ l. (j, f w) ∷ l) (put-map_values f k v m))
]

decode-map_values :
    (f : Json → Target) (fields m : List (Bytes × Json))
    → decode (map_values f fields) (map_values f m) ≡ map_values f (decode fields m)
unfolding decode map_values
decode-map_values f [] m = refl
decode-map_values f ((k, v) ∷ fields) m =
    ap (decode (map_values f fields)) (put-map_values f k v m)
    ∙ decode-map_values f fields (put k v m)

decode_nil-map_values :
    (fields : List (Bytes × Json))
    → decode (map_values resolve_import_target fields) []
      ≡ map_values resolve_import_target (decode fields [])
unfolding map_values
decode_nil-map_values fields = decode-map_values resolve_import_target fields []

lookup-map_values :
    (f : Json → Target) (k : Bytes) (m : List (Bytes × Json))
    → lookup k (map_values f m) ≡ map_option f (lookup k m)
unfolding lookup map_values
lookup-map_values f k [] = refl
lookup-map_values f k ((j, v) ∷ m) = elim (Bool-cases (beq j k)) [
  | inl e ↦ simp e
  | inr e ↦ simp e (lookup-map_values f k m)
]

resolve_import_fields-map :
    (fs : Fields) → resolve_import_fields fs ≡ map_values resolve_import_target (entries fs)
unfolding resolve_import_target entries map_values
resolve_import_fields-map end = refl
resolve_import_fields-map (field k v fs) =
    ap (λ l. (k, resolve_import_target v) ∷ l) (resolve_import_fields-map fs)

-- The target of a condition in a conditions object.
abbrev pub value_of : Bytes → Fields → Option Json
value_of k fs = lookup k (decode (entries fs) [])

lookup-resolved :
    (k : Bytes) (fs : Fields)
    → lookup k (decode (resolve_import_fields fs) [])
      ≡ map_option resolve_import_target (value_of k fs)
lookup-resolved k fs =
    ap (λ l. lookup k (decode l [])) (resolve_import_fields-map fs)
    ∙ ap (lookup k) (decode_nil-map_values (entries fs))
    ∙ lookup-map_values resolve_import_target k (decode (entries fs) [])

-- A target that leaves the choice to the next candidate, and one that ends it.
abbrev pub PassesOn : Target → Type 0
PassesOn t = (t ≡ not_found) ⊎ (t ≡ found [])

abbrev pub Ends : Target → Type 0
Ends t = (t ≡ failed) ⊎ ((c : ℕ) × ((s : Bytes) × (t ≡ found (c ∷ s))))

-- The choice among conditions in this order: the first ends it whose key is there and whose target
-- does not pass it on.
pub data Decides (fs : Fields) : List Bytes → Target → Type 0 where
  none_left : Decides fs [] not_found
  missing :
      {c : Bytes} {cs : List Bytes} {t : Target}
      → value_of c fs ≡ none
      → Decides fs cs t
      → Decides fs (c ∷ cs) t
  passed :
      {c : Bytes} {cs : List Bytes} {t : Target} (v : Json)
      → value_of c fs ≡ some v
      → PassesOn (resolve_import_target v)
      → Decides fs cs t
      → Decides fs (c ∷ cs) t
  taken :
      {c : Bytes} {cs : List Bytes} {t : Target} (v : Json)
      → value_of c fs ≡ some v
      → resolve_import_target v ≡ t
      → Ends t
      → Decides fs (c ∷ cs) t

-- One target, as the loop treats it.
target_cases :
    (t rest : Target)
    → (PassesOn t × (first_active true t rest ≡ rest)) ⊎ (Ends t × (first_active true t rest ≡ t))
unfolding first_active
target_cases (found []) rest = inl (inr refl, refl)
target_cases (found (c ∷ s)) rest = inr (inr (c, (s, refl)), refl)
target_cases not_found rest = inl (inl refl, refl)
target_cases failed rest = inr (inl refl, refl)

candidate-Decides :
    (fs : Fields) (c : Bytes) (cs : List Bytes) (o : Option Json) (rest : Target)
    → value_of c fs ≡ o
    → Decides fs cs rest
    → Decides fs (c ∷ cs) (try_candidate (map_option resolve_import_target o) rest)
candidate-Decides fs c cs none rest e h = missing e h
candidate-Decides fs c cs (some v) rest e h = elim (target_cases (resolve_import_target v) rest) [
  | inl (p, same) ↦ subst (Decides fs (c ∷ cs)) (sym same) (passed v e p h)
  | inr (p, same) ↦ subst (Decides fs (c ∷ cs)) (sym same) (taken v e refl p)
]

select_in_order-Decides :
    (fs : Fields) (cs : List Bytes)
    → Decides fs cs (select_in_order cs (decode (resolve_import_fields fs) []))
unfolding select_in_order
select_in_order-Decides fs [] = none_left
select_in_order-Decides fs (c ∷ cs) =
    let rest = select_in_order cs (decode (resolve_import_fields fs) []) in
    subst (λ o. Decides fs (c ∷ cs) (try_candidate o rest)) (sym (lookup-resolved c fs))
      (candidate-Decides fs c cs (value_of c fs) rest refl (select_in_order-Decides fs cs))

-- What resolveImportTarget makes of a conditions object: of "node", "import", "require" and
-- "default", in this order, the first decides whose key is there and whose target neither is empty
-- nor, as a conditions object, decides nothing; an error decides too. The order in which the object
-- has its keys, which is what Node follows, does not matter, nor which of `import` and `require` asks.
pub resolve_import_target-order :
    (fs : Fields)
    → Decides fs
        (codes "node" ∷ codes "import" ∷ codes "require" ∷ codes "default" ∷ [])
        (resolve_import_target (obj fs))
unfolding resolve_import_target
resolve_import_target-order fs = select_in_order-Decides fs candidates

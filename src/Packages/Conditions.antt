-- ===== src/Packages/Conditions.antt =====
-- Which parts of an "exports" target matter: what stands under a condition that is not active does
-- not.
use mathlib.Core.Path.{ap₂}
use noderati.Prelude.{
  Bool, true, false, List, [], ◌∷◌, if◌then◌else◌, ◌≡◌, refl, ap, ◌∙◌, inl, inr, Bool-cases,
}
use noderati.Prelude.Strings.{Bytes, beq, beq→eq}
use noderati.Packages.Json.{
  Json, Items, Fields, null, bool, num, str, arr, obj, nil, cons, end, field, put, decode,
}
use noderati.Packages.Exports.{
  Target, first_candidate, first_active, select, resolve_target, resolve_items, resolve_fields,
}

module _ (is_active : Bytes → Bool) where
  -- A target without what stands under the conditions that are not active, at every depth.
  unfoldable mutual
    pub prune : Json → Json
    prune null = null
    prune (bool b) = bool b
    prune (num n) = num n
    prune (str s) = str s
    prune (arr xs) = arr (prune_items xs)
    prune (obj fs) = obj (prune_fields fs)

    pub prune_items : Items → Items
    prune_items nil = nil
    prune_items (cons x xs) = cons (prune x) (prune_items xs)

    pub prune_fields : Fields → Fields
    prune_fields end = end
    prune_fields (field k v fs) =
        let rest = prune_fields fs in
        let kept = field k (prune v) rest in if is_active k then kept else rest

  keep : List (Bytes × Target) → List (Bytes × Target)
  keep [] = []
  keep ((k, t) ∷ m) = if is_active k then (k, t) ∷ keep m else keep m

  keep-put_active :
      (k : Bytes) (t : Target) (m : List (Bytes × Target))
      → is_active k ≡ true
      → put k t (keep m) ≡ keep (put k t m)
  unfolding keep put
  keep-put_active k t [] h = rw h
  keep-put_active k t ((j, u) ∷ m) h = elim (Bool-cases (beq j k)) [
    | inl e ↦ let a : is_active j ≡ true = ap is_active (beq→eq j k e) ∙ h in simp (e, a)
    | inr e ↦ elim (Bool-cases (is_active j)) [
      | inl a ↦ simp (e, a) (ap (λ l. (j, u) ∷ l) (keep-put_active k t m h))
      | inr a ↦ simp (e, a) (keep-put_active k t m h)
    ]
  ]

  keep-put_inactive :
      (k : Bytes) (t : Target) (m : List (Bytes × Target))
      → is_active k ≡ false
      → keep m ≡ keep (put k t m)
  unfolding keep put
  keep-put_inactive k t [] h = rw h
  keep-put_inactive k t ((j, u) ∷ m) h = elim (Bool-cases (beq j k)) [
    | inl e ↦ let a : is_active j ≡ false = ap is_active (beq→eq j k e) ∙ h in simp (e, a)
    | inr e ↦ elim (Bool-cases (is_active j)) [
      | inl a ↦ simp (e, a) (ap (λ l. (j, u) ∷ l) (keep-put_inactive k t m h))
      | inr a ↦ simp (e, a) (keep-put_inactive k t m h)
    ]
  ]

  keep-decode :
      (fields m : List (Bytes × Target)) → decode (keep fields) (keep m) ≡ keep (decode fields m)
  unfolding keep decode
  keep-decode [] m = refl
  keep-decode ((k, t) ∷ fields) m = elim (Bool-cases (is_active k)) [
    | inl a ↦
        simp a
          (ap (decode (keep fields)) (keep-put_active k t m a) ∙ keep-decode fields (put k t m))
    | inr a ↦
        simp a
          (ap (decode (keep fields)) (keep-put_inactive k t m a) ∙ keep-decode fields (put k t m))
  ]

  select-keep : (m : List (Bytes × Target)) → select is_active (keep m) ≡ select is_active m
  unfolding keep select first_active
  select-keep [] = refl
  select-keep ((k, t) ∷ m) = elim (Bool-cases (is_active k)) [
    | inl a ↦ simp a (ap (first_active true t) (select-keep m))
    | inr a ↦ simp a (select-keep m)
  ]

  mutual
    unfolding resolve_target prune keep

    resolve-prune : (j : Json) → resolve_target is_active (prune j) ≡ resolve_target is_active j
    resolve-prune null = refl
    resolve-prune (bool b) = refl
    resolve-prune (num n) = refl
    resolve-prune (str s) = refl
    resolve-prune (arr xs) = resolve_items-prune xs
    resolve-prune (obj fs) =
        ap (λ l. select is_active (decode l [])) (resolve_fields-prune fs)
        ∙ ap (select is_active) (keep-decode (resolve_fields is_active fs) [])
        ∙ select-keep (decode (resolve_fields is_active fs) [])

    resolve_items-prune :
        (xs : Items) → resolve_items is_active (prune_items xs) ≡ resolve_items is_active xs
    resolve_items-prune nil = refl
    resolve_items-prune (cons x xs) = ap₂ first_candidate (resolve-prune x) (resolve_items-prune xs)

    resolve_fields-prune :
        (fs : Fields)
        → resolve_fields is_active (prune_fields fs) ≡ keep (resolve_fields is_active fs)
    resolve_fields-prune end = refl
    resolve_fields-prune (field k v fs) = elim (Bool-cases (is_active k)) [
      | inl a ↦ simp a (ap₂ (λ t l. (k, t) ∷ l) (resolve-prune v) (resolve_fields-prune fs))
      | inr a ↦ simp a (resolve_fields-prune fs)
    ]

  -- What stands under a condition that is not active, at any depth, does not matter to
  -- resolveExportTarget, whether it is well formed or not.
  pub resolve_target-prune :
      (j : Json) → resolve_target is_active (prune j) ≡ resolve_target is_active j
  resolve_target-prune j = resolve-prune j

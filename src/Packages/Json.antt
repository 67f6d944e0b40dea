-- ===== src/Packages/Json.antt =====
-- JSON texts that package.json holds, as the decoder of Go's encoding/json sees them: what is valid,
-- an object's fields in the order of the source, a key perhaps more than once.
use noderati.Prelude.{ℕ, Bool, Option, none, some, List, [], ◌∷◌, if◌then◌else◌}
use noderati.Prelude.Strings.{Bytes, beq}

mutual
  pub data Json : Type 0 where
    null : Json
    bool : Bool → Json
    num : ℕ → Json
    str : Bytes → Json
    arr : Items → Json
    obj : Fields → Json

  pub data Items : Type 0 where
    nil : Items
    cons : Json → Items → Items

  pub data Fields : Type 0 where
    end : Fields
    field : Bytes → Json → Fields → Fields

module _ {ℓ} {V : Type ℓ} where
  -- A field of an object that is being decoded: a new key goes behind the others, a key that is
  -- there keeps its place and takes the new value.
  unfoldable pub put : Bytes → V → List (Bytes × V) → List (Bytes × V)
  put k v [] = (k, v) ∷ []
  put k v ((j, w) ∷ m) = if beq j k then (j, v) ∷ m else (j, w) ∷ put k v m

  -- The decoding of an object's fields, in order, from the fields decoded so far.
  unfoldable pub decode : List (Bytes × V) → List (Bytes × V) → List (Bytes × V)
  unfolding put
  decode [] m = m
  decode ((k, v) ∷ fields) m = decode fields (put k v m)

  -- `v, ok := m[k]`
  unfoldable pub lookup : Bytes → List (Bytes × V) → Option V
  lookup k [] = none
  lookup k ((j, v) ∷ m) = if beq j k then some v else lookup k m

-- The fields of an object as a list.
unfoldable pub entries : Fields → List (Bytes × Json)
entries end = []
entries (field k v fs) = (k, v) ∷ entries fs

-- ===== src/Path/Parse/Scan.antt =====
-- The backward walk over a path that posixParse and win32Parse of internal/host/path.go share.
use noderati.Prelude.{
  ℕ, zero, suc, ◌+◌, ◌-◌, Bool, true, false, ◌&&◌, ◌||◌, Option, none, some, [], ◌∷◌, take, drop,
  length, if◌then◌else◌, leb, ◌==◌,
}
use noderati.Prelude.Strings.{Bytes}

-- `preDotState`: 0, 1 and -1
pub data PreDot : Type 0 where
  unseen only_dots other_char : PreDot

-- The variables of the walk; `none` is -1.
pub record Walk : Type 0 where
  pub start_dot : Option ℕ
  pub start_part : ℕ
  pub end : Option ℕ
  pub matched_slash : Bool
  pub pre_dot_state : PreDot

abbrev pub scan_start : ℕ → Walk
scan_start part = record {
  start_dot = none;
  start_part = part;
  end = none;
  matched_slash = true;
  pre_dot_state = unseen;
}

abbrev pub is_none : Option ℕ → Bool
is_none none = true
is_none (some n) = false

-- `if end == -1 { … }`
unfoldable pub mark_end : ℕ → Walk → Walk
mark_end i st =
    if is_none st.end then record st { matched_slash = false; end = some (i + 1) } else st

-- `if c == '.' { … } else if startDot != -1 { … }`
unfoldable pub mark_dot : ℕ → ℕ → Walk → Walk
mark_dot i c st =
    if c == b'.'
    then (if is_none st.start_dot
        then record st { start_dot = some i }
        else record st { pre_dot_state = only_dots })
    else if is_none st.start_dot
    then st
    else record st { pre_dot_state = other_char }

-- `p[i]`, read only where `i` is in range
abbrev pub byte_at : Bytes → ℕ → ℕ
byte_at [] i = 0
byte_at (c ∷ p) zero = c
byte_at (c ∷ p) (suc i) = byte_at p i

-- The loop from `i = start + k - 1` down to `start`, with its `continue` and its `break`.
unfoldable pub scan : (ℕ → Bool) → Bytes → ℕ → ℕ → Walk → Walk
unfolding mark_end mark_dot
scan is_sep p start zero st = st
scan is_sep p start (suc k) st =
    let i = start + k in
    let skip = scan is_sep p start k st in
    let onward = scan is_sep p start k (mark_dot i (byte_at p i) (mark_end i st)) in
    if is_sep (byte_at p i)
    then (if st.matched_slash then skip else record st { start_part = i + 1 })
    else onward

-- `p[a:b]`
unfoldable pub slice : Bytes → ℕ → ℕ → Option Bytes
slice p a b = if leb a b && leb b (length p) then some (take (b - a) (drop a p)) else none

infixl 5 ◌>>=◌
abbrev pub ◌>>=◌ {ℓ κ} : {A : Type ℓ} {B : Type κ} → Option A → (A → Option B) → Option B
none >>= f = none
some a >>= f = f a

-- The three parts of the last element of the path: its base, its extension, its name.
pub record Element : Type 0 where
  pub base : Bytes
  pub ext : Bytes
  pub name : Bytes

abbrev pub is_unseen : PreDot → Bool
is_unseen unseen = true
is_unseen _ = false

abbrev pub is_only_dots : PreDot → Bool
is_only_dots only_dots = true
is_only_dots _ = false

-- `preDotState == 0 || (preDotState == 1 && startDot == end-1 && startDot == startPart+1)`, where
-- `startDot` and `end` are not -1 and so `end` is at least 1
unfoldable pub has_no_ext : ℕ → ℕ → ℕ → PreDot → Bool
has_no_ext dot end part pre =
    is_unseen pre || (is_only_dots pre && (dot + 1 == end && dot == part + 1))

-- `base = p[from:end]; name = p[from:end]`
unfoldable pub whole_element : Bytes → ℕ → ℕ → Option Element
unfolding slice
whole_element p from e = do w ← slice p from e; some (record { base = w; ext = []; name = w })

-- `name = p[from:startDot]; base = p[from:end]; ext = p[startDot:end]`
unfoldable pub parted_element : Bytes → ℕ → ℕ → ℕ → Option Element
unfolding slice
parted_element p from d e = do
  n ← slice p from d
  b ← slice p from e
  x ← slice p d e
  some (record { base = b; ext = x; name = n })

-- The branches behind the walk. `from` is where base and name begin.
unfoldable pub element_at : Bytes → ℕ → ℕ → PreDot → Option ℕ → Option ℕ → Option Element
unfolding whole_element parted_element has_no_ext
element_at p from part pre dot none = some (record { base = []; ext = []; name = [] })
element_at p from part pre none (some e) = whole_element p from e
element_at p from part pre (some d) (some e) =
    if has_no_ext d e part pre then whole_element p from e else parted_element p from d e

unfoldable pub element : Bytes → ℕ → Walk → Option Element
unfolding element_at
element p from st = element_at p from st.start_part st.pre_dot_state st.start_dot st.end

-- ===== src/Ipc/Stream.antt =====
-- What the loop of `onData` takes from a byte stream, against the format on the wire.
use noderati.Prelude.{
  if-false, if-none, ◌≢◌, ℕ, zero, suc, ◌+◌, ◌≤◌, ◌<◌, ◌≡◌, refl, sym, ap, ◌∙◌, true, false, Option,
  none, some, List, [], ◌∷◌, ◌++◌, length, take, drop, if◌then◌else◌, ltb, ◌==◌, ==_iff, ◌||◌, inl,
  inr, Bool-cases, arith, take-length, drop-length, drop-drop, take-append-drop, length-take,
  length-drop, length-append, append_assoc, ==_refl, Option-cases,
}
use noderati.Prelude.Strings.{Bytes, contains_byte}
use mathlib.Core.Path.{subst}
use noderati.Ipc.Frames.{
  one_later, continue, Mode, advanced, lines, uint32, index_byte, line_at, sized_at, next_frame,
  frames,
}

-- The stream begins with the frame of this text or payload, and `rest` follows it.
pub data IsNext : Mode → Bytes → Bytes → Bytes → Type 0 where
  sized :
      {s f rest : Bytes} (header : Bytes)
      → length header ≡ 4
      → uint32 header ≡ length f
      → s ≡ header ++ (f ++ rest)
      → IsNext advanced s f rest
  line :
      {s f rest : Bytes} → contains_byte 10 f ≡ false → s ≡ f ++ (10 ∷ rest) → IsNext lines s f rest

uint32-append : (h t : Bytes) → length h ≡ 4 → uint32 (h ++ t) ≡ uint32 h
unfolding uint32
uint32-append [] t e = omega (arith, e)
uint32-append (a ∷ []) t e = omega (arith, e)
uint32-append (a ∷ b ∷ []) t e = omega (arith, e)
uint32-append (a ∷ b ∷ c ∷ []) t e = omega (arith, e)
uint32-append (a ∷ b ∷ c ∷ d ∷ h) t e = refl

ltb-ge : (m n : ℕ) → n ≤ m → ltb m n ≡ false
ltb-ge m n h = ground arith

ge-ltb : (m n : ℕ) → ltb m n ≡ false → n ≤ m
ge-ltb m n h = ground arith

sized_at_complete :
    (n : ℕ) (h f rest : Bytes)
    → length h ≡ 4
    → n ≡ length f
    → sized_at n (h ++ (f ++ rest)) ≡ some (f, rest)
unfolding sized_at
sized_at_complete n h f rest e k =
    let s = h ++ (f ++ rest) in
    let size : length s ≡ 4 + (n + length rest) =
      omega (arith, e, k, length-append h (f ++ rest), length-append f rest) in
    let behind : drop 4 s ≡ f ++ rest = ap (λ m. drop m s) (sym e) ∙ drop-length h (f ++ rest) in
    let taken : take n (drop 4 s) ≡ f = (λ i. take (k i) (behind i)) ∙ take-length f rest in
    let left : drop (4 + n) s ≡ rest =
      ap (λ m. drop m s) (omega arith)
      ∙ sym (drop-drop 4 n s)
      ∙ (λ i. drop (k i) (behind i))
      ∙ drop-length f rest in
    if-false (ltb (length s) 4) _ _ _ (ltb-ge (length s) 4 (omega (arith, size))) (
      if-false (ltb (length s) (4 + n)) _ _ _ (ltb-ge (length s) (4 + n) (omega (arith, size)))
        (λ i. some (taken i, left i)))

index_byte_complete :
    (c : ℕ) (f rest : Bytes)
    → contains_byte c f ≡ false
    → index_byte c (f ++ (c ∷ rest)) ≡ some (length f)
unfolding index_byte contains_byte
index_byte_complete c [] rest h =
    ap (λ b. if b then some 0 else one_later (index_byte c rest)) (==_refl c)
index_byte_complete c (x ∷ f) rest h = elim (Bool-cases (x == c)) [
  | inl e ↦ let bad : true ≡ false = ap (λ b. b || contains_byte c f) (sym e) ∙ h in cc
  | inr e ↦
      let k : contains_byte c f ≡ false = ap (λ b. b || contains_byte c f) (sym e) ∙ h in
      if-false (x == c) (some 0) (one_later (index_byte c (f ++ (c ∷ rest))))
        (some (suc (length f))) e (ap one_later (index_byte_complete c f rest k))
]

-- The first byte `c` is at the index.
abbrev IsFirst : ℕ → Bytes → ℕ → Type 0
IsFirst c s i = (contains_byte c (take i s) ≡ false) × (s ≡ take i s ++ (c ∷ drop (suc i) s))

IsFirst-here : (c x : ℕ) (s : Bytes) (i : ℕ) → some 0 ≡ some i → x ≡ c → IsFirst c (x ∷ s) i
unfolding contains_byte
IsFirst-here c x s zero h e = (refl, ap (λ d. d ∷ s) e)
IsFirst-here c x s (suc i) h e = cc

IsFirst-later :
    (c x : ℕ) (s : Bytes) (o : Option ℕ)
    → ((j : ℕ) → o ≡ some j → IsFirst c s j)
    → (x == c) ≡ false
    → (i : ℕ) → one_later o ≡ some i
    → IsFirst c (x ∷ s) i
unfolding contains_byte
IsFirst-later c x s none ih e i h = cc
IsFirst-later c x s (some j) ih e zero h = cc
IsFirst-later c x s (some j) ih e (suc i) h =
    let same : some j ≡ some i = cc in
    let here = ih i same in
    (ap (λ b. b || contains_byte c (take i s)) e ∙ here.0, ap (λ t. x ∷ t) here.1)

index_byte_sound : (c : ℕ) (s : Bytes) (i : ℕ) → index_byte c s ≡ some i → IsFirst c s i
unfolding index_byte
index_byte_sound c [] i h = cc
index_byte_sound c (x ∷ s) i h = elim (Bool-cases (x == c)) [
  | inl e ↦
      IsFirst-here c x s i (ap (λ b. if b then some 0 else one_later (index_byte c s)) (sym e) ∙ h)
        ((==_iff x c).0 e)
  | inr e ↦
      IsFirst-later c x s (index_byte c s) (λ j n. index_byte_sound c s j n) e i
        (ap (λ b. if b then some 0 else one_later (index_byte c s)) (sym e) ∙ h)
]

sized_at_sound :
    (s f rest : Bytes) → sized_at (uint32 s) s ≡ some (f, rest) → IsNext advanced s f rest
unfolding sized_at
sized_at_sound s f rest h =
    let n = uint32 s in
    let (long, h1) = if-none (ltb (length s) 4) _ (f, rest) h in
    let (whole, h2) = if-none (ltb (length s) (4 + n)) _ (f, rest) h1 in
    let size : 4 + n ≤ length s = ge-ltb (length s) (4 + n) whole in
    let taken : take n (drop 4 s) ≡ f = cc in
    let left : drop (4 + n) s ≡ rest = cc in
    let header : length (take 4 s) ≡ 4 = omega (arith, size, length-take 4 s) in
    let body : length f ≡ n =
      ap length (sym taken) ∙ omega (arith, size, length-take n (drop 4 s), length-drop 4 s) in
    let apart : take 4 s ++ drop 4 s ≡ s = take-append-drop 4 s in
    let inner : drop 4 s ≡ f ++ rest =
      sym (take-append-drop n (drop 4 s))
      ∙ (λ i. taken i ++ (drop-drop 4 n s ∙ ap (λ m. drop m s) (omega arith) ∙ left) i) in
    sized (take 4 s) header
      (sym (uint32-append (take 4 s) (drop 4 s) header) ∙ ap uint32 apart ∙ sym body)
      (sym apart ∙ ap (λ t. take 4 s ++ t) inner)

line_at-some :
    (s : Bytes) (i : ℕ) (f rest : Bytes)
    → line_at s (some i) ≡ some (f, rest)
    → (take i s ≡ f) × (drop (suc i) s ≡ rest)
line_at-some s i f rest h = (cc, cc)

line_at-none : (s f rest : Bytes) → line_at s none ≢ some (f, rest)
line_at-none s f rest h = cc

line_at_sound :
    (s f rest : Bytes) → line_at s (index_byte 10 s) ≡ some (f, rest) → IsNext lines s f rest
line_at_sound s f rest h = elim (Option-cases (index_byte 10 s)) [
  | inl n ↦ absurd (line_at-none s f rest (ap (line_at s) (sym n) ∙ h))
  | inr (i, n) ↦
      let (taken, left) = line_at-some s i f rest (ap (line_at s) (sym n) ∙ h) in
      let found = index_byte_sound 10 s i n in
      line (ap (contains_byte 10) (sym taken) ∙ found.0) (found.1 ∙ (λ j. taken j ++ (10 ∷ left j)))
]

next_frame_sound :
    (mode : Mode) (s f rest : Bytes) → next_frame mode s ≡ some (f, rest) → IsNext mode s f rest
unfolding next_frame
next_frame_sound advanced s f rest h = sized_at_sound s f rest h
next_frame_sound lines s f rest h = line_at_sound s f rest h

next_frame_complete :
    {mode : Mode} {s f rest : Bytes} → IsNext mode s f rest → next_frame mode s ≡ some (f, rest)
unfolding next_frame
next_frame_complete {f = f} {rest = rest} (sized header h4 n e) =
    ap (λ t. sized_at (uint32 t) t) e
    ∙ sized_at_complete (uint32 (header ++ (f ++ rest))) header f rest h4
        (uint32-append header (f ++ rest) h4 ∙ n)
next_frame_complete {f = f} {rest = rest} (line clear e) =
    ap (λ t. line_at t (index_byte 10 t)) e
    ∙ ap (line_at (f ++ (10 ∷ rest))) (index_byte_complete 10 f rest clear)
    ∙ (λ i. some (take-length f (10 ∷ rest) i, dropped i))
  where
    one_more : suc (length f) ≡ 1 + length f
    one_more = omega arith

    dropped : drop (suc (length f)) (f ++ (10 ∷ rest)) ≡ rest
    dropped =
        ap (λ m. drop m (f ++ (10 ∷ rest))) one_more
        ∙ sym (drop-drop (length f) 1 (f ++ (10 ∷ rest)))
        ∙ ap (drop 1) (drop-length f (10 ∷ rest))

-- The frames are taken from the stream one behind the other, and `rest` begins with none.
pub data Frames (mode : Mode) : Bytes → List Bytes → Bytes → Type 0 where
  stop : {s : Bytes} → ((f r : Bytes) → ¬ IsNext mode s f r) → Frames mode s [] s
  more :
      {s f t rest : Bytes} {fs : List Bytes}
      → IsNext mode s f t
      → Frames mode t fs rest
      → Frames mode s (f ∷ fs) rest

pub IsNext-shorter :
    {mode : Mode} {s f rest : Bytes} → IsNext mode s f rest → length rest < length s
IsNext-shorter {f = f} {rest = rest} (sized header h4 n e) =
    omega (arith, ap length e, h4, length-append header (f ++ rest), length-append f rest)
IsNext-shorter {f = f} {rest = rest} (line clear e) =
    omega (arith, ap length e, length-append f (10 ∷ rest))

-- More bytes behind it do not change the first frame.
IsNext-append :
    {mode : Mode} {s f rest : Bytes} (t : Bytes)
    → IsNext mode s f rest
    → IsNext mode (s ++ t) f (rest ++ t)
IsNext-append {f = f} {rest = rest} t (sized header h4 n e) = sized header h4 n (
    ap (λ u. u ++ t) e
    ∙ append_assoc header (f ++ rest) t
    ∙ ap (λ u. header ++ u) (append_assoc f rest t))
IsNext-append {f = f} {rest = rest} t (line clear e) =
    line clear (ap (λ u. u ++ t) e ∙ append_assoc f (10 ∷ rest) t)

none≢some : {A : Type 0} (a : A) → none ≢ some a
none≢some a h = cc

-- Enough fuel is more than there are bytes.
pub frames-Frames :
    (n : ℕ) (mode : Mode) (s : Bytes)
    → length s < n
    → Frames mode s (frames n mode s).0 (frames n mode s).1
unfolding frames
frames-Frames zero mode s h = absurd (omega (arith, h))
frames-Frames (suc n) mode s h = elim (Option-cases (next_frame mode s)) [
  | inl e ↦
      subst (Loops s n) (sym e) (stop (λ f r k. none≢some (f, r) (sym e ∙ next_frame_complete k)))
  | inr ((f, t), e) ↦
      let k = next_frame_sound mode s f t e in
      subst (Loops s n) (sym e)
        (more k (frames-Frames n mode t (omega (arith, h, IsNext-shorter k))))
]
  where
    Loops : Bytes → ℕ → Option (Bytes × Bytes) → Type 0
    Loops s n o = Frames mode s (continue (frames n mode) s o).0 (continue (frames n mode) s o).1

some-injective : (a b : Bytes × Bytes) → some a ≡ some b → a ≡ b
some-injective a b h = cc

pub Frames-unique :
    {mode : Mode} {s : Bytes} {fs gs : List Bytes} {r q : Bytes}
    → Frames mode s fs r
    → Frames mode s gs q
    → (fs ≡ gs) × (r ≡ q)
Frames-unique (stop h) (stop k) = (refl, refl)
Frames-unique (stop h) (more k ks) = absurd (h _ _ k)
Frames-unique (more h hs) (stop k) = absurd (k _ _ h)
Frames-unique {mode = mode} {q = q} (more {f = f} {t = t} {fs = fs} h hs)
      (more {f = g} {t = u} {fs = gs} k ks) =
    let same = some-injective (f, t) (g, u) (sym (next_frame_complete h) ∙ next_frame_complete k) in
    let left : t ≡ u = λ i. (same i).1 in
    let rest = Frames-unique hs (subst (λ w. Frames mode w gs q) (sym left) ks) in
    ((λ i. (same i).0 ∷ rest.0 i), rest.1)

pub Frames-append :
    {mode : Mode} {s : Bytes} {fs gs : List Bytes} {r q : Bytes} (t : Bytes)
    → Frames mode s fs r
    → Frames mode (r ++ t) gs q
    → Frames mode (s ++ t) (fs ++ gs) q
Frames-append t (stop h) k = k
Frames-append t (more h hs) k = more (IsNext-append t h) (Frames-append t hs k)

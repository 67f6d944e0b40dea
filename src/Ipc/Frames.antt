-- ===== src/Ipc/Frames.antt =====
-- How a message is framed: `encode` and the loop of `onData` of internal/host/child_process_ipc.go.
use noderati.Prelude.{
  ℕ, zero, suc, ◌+◌, ◌*◌, ◌/◌, ◌%◌, ◌^◌, Option, none, some, List, [], ◌∷◌, ◌++◌, length, take,
  drop, if◌then◌else◌, ltb, ◌==◌,
}
use noderati.Prelude.Strings.{Bytes}

-- `mode`: "advanced" is a length of four bytes and a payload, any other is lines.
pub data Mode : Type 0 where
  advanced lines : Mode

-- `binary.BigEndian.PutUint32(out, uint32(n))`
unfoldable pub put_uint32 : ℕ → Bytes
put_uint32 n = n / 2 ^ 24 % 256 ∷ n / 2 ^ 16 % 256 ∷ n / 2 ^ 8 % 256 ∷ n % 256 ∷ []

-- `binary.BigEndian.Uint32(b)` of at least four bytes
unfoldable pub uint32 : Bytes → ℕ
uint32 (a ∷ b ∷ c ∷ d ∷ s) = a * 2 ^ 24 + b * 2 ^ 16 + c * 2 ^ 8 + d
uint32 _ = 0

-- `encode`, from the text or the payload that the serializer made
unfoldable pub encode : Mode → Bytes → Bytes
unfolding put_uint32
encode advanced payload = put_uint32 (length payload) ++ payload
encode lines text = text ++ (10 ∷ [])

abbrev pub one_later : Option ℕ → Option ℕ
one_later none = none
one_later (some i) = some (suc i)

-- `indexByte`; `none` is -1
unfoldable pub index_byte : ℕ → Bytes → Option ℕ
index_byte c [] = none
index_byte c (x ∷ b) = let rest = index_byte c b in if x == c then some 0 else one_later rest

-- The frame whose end is at the index, and the bytes behind it.
abbrev pub line_at : Bytes → Option ℕ → Option (Bytes × Bytes)
line_at s none = none
line_at s (some i) = some (take i s, drop (suc i) s)

-- The frame of a given size behind the first four bytes, and the bytes behind it.
unfoldable pub sized_at : ℕ → Bytes → Option (Bytes × Bytes)
sized_at size s =
    if ltb (length s) 4
    then none
    else if ltb (length s) (4 + size)
    then none
    else some (take size (drop 4 s), drop (4 + size) s)

-- One round of the loop: the next frame and what is left of `pending`, if a frame is complete.
unfoldable pub next_frame : Mode → Bytes → Option (Bytes × Bytes)
unfolding uint32 index_byte sized_at
next_frame advanced s = sized_at (uint32 s) s
next_frame lines s = line_at s (index_byte 10 s)

abbrev pub cons_frame : Bytes → List Bytes × Bytes → List Bytes × Bytes
cons_frame f (fs, rest) = (f ∷ fs, rest)

-- What follows a round: its frame and the rest of the loop, or the end of it.
abbrev pub continue :
    (Bytes → List Bytes × Bytes) → Bytes → Option (Bytes × Bytes) → List Bytes × Bytes
continue loop s none = ([], s)
continue loop s (some (f, rest)) = cons_frame f (loop rest)

-- The loop, on fuel: the frames in order, and `pending` at its end.
unfoldable pub frames : ℕ → Mode → Bytes → List Bytes × Bytes
unfolding next_frame
frames zero mode s = ([], s)
frames (suc fuel) mode s = continue (frames fuel mode) s (next_frame mode s)

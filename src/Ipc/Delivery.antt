-- ===== src/Ipc/Delivery.antt =====
-- What onData delivers: it does not depend on how the stream is cut into chunks, and it is what the
-- other end has sent.
use mathlib.Core.Path.{subst}
use noderati.Prelude.{
  concat, All, ℕ, suc, ◌^◌, ◌<◌, ◌≡◌, refl, sym, ap, ◌∙◌, true, false, Option, some, List, [], ◌∷◌,
  ◌++◌, length, map, if◌then◌else◌, inl, inr, Bool-cases, arith, append_assoc, append-nil,
}
use noderati.Prelude.Strings.{Bytes, contains_byte}
use noderati.Ipc.Frames.{Mode, advanced, lines, encode, put_uint32, uint32, frames}
use noderati.Ipc.Stream.{
  IsNext-shorter, IsNext, sized, line, Frames, stop, more, frames-Frames, Frames-unique,
  Frames-append,
}
use noderati.Ipc.Channel.{message, Channel, chunk, event, event_of, receive, on_data, step, run}

-- `frames` with the fuel that onData has.
abbrev pub loop : Mode → Bytes → List Bytes × Bytes
loop mode s = frames (suc (length s)) mode s

loop-Frames : (mode : Mode) (s : Bytes) → Frames mode s (loop mode s).0 (loop mode s).1
loop-Frames mode s = frames-Frames (suc (length s)) mode s (omega arith)

loop_lem :
    (mode : Mode) (s : Bytes) (fs : List Bytes) (r : Bytes)
    → Frames mode s fs r
    → ((loop mode s).0 ≡ fs) × ((loop mode s).1 ≡ r)
loop_lem mode s fs r h = Frames-unique (loop-Frames mode s) h

loop-append :
    (mode : Mode) (s t : Bytes)
    → let first = loop mode s in
      let second = loop mode (first.1 ++ t) in
      ((loop mode (s ++ t)).0 ≡ first.0 ++ second.0) × ((loop mode (s ++ t)).1 ≡ second.1)
loop-append mode s t =
    let first = loop mode s in
    let second = loop mode (first.1 ++ t) in
    loop_lem mode (s ++ t) (first.0 ++ second.0) second.1
      (Frames-append t (loop-Frames mode s) (loop-Frames mode (first.1 ++ t)))

module _ {A B : Type 0} where
  map-append : (f : A → B) (xs ys : List A) → map f (xs ++ ys) ≡ map f xs ++ map f ys
  map-append f [] ys = refl
  map-append f (x ∷ xs) ys = ap (λ l. f x ∷ l) (map-append f xs ys)

module _ {M : Type 0} (serialize : M → Option Bytes) (parse : Bytes → Option M) where
  receive_lem :
      (s : Bytes) (c : Channel M) (fs : List Bytes) (r : Bytes)
      → Frames c.mode (c.pending ++ s) fs r
      → receive serialize parse s c
        ≡ record c { events = c.events ++ map (event serialize parse) fs; pending = r }
  unfolding receive
  receive_lem s c fs r h =
      let p = loop_lem c.mode (c.pending ++ s) fs r h in
      λ i. record c { events = c.events ++ map (event serialize parse) (p.0 i); pending = p.1 i }

  receive-mode : (s : Bytes) (c : Channel M) → (receive serialize parse s c).connected ≡ c.connected
  unfolding receive
  receive-mode s c = refl

  receive-append :
      (s t : Bytes) (c : Channel M)
      → receive serialize parse t (receive serialize parse s c) ≡ receive serialize parse (s ++ t) c
  unfolding receive
  receive-append s t c =
      let u = c.pending ++ s in
      let f = event serialize parse in
      let p = loop-append c.mode u t in
      let q = append_assoc c.pending s t in
      let first = loop c.mode u in
      let second = loop c.mode (first.1 ++ t) in
      let events : (c.events ++ map f first.0) ++ map f second.0
          ≡ c.events ++ map f (loop c.mode (c.pending ++ (s ++ t))).0 =
        append_assoc c.events (map f first.0) (map f second.0)
        ∙ ap (λ l. c.events ++ l) (sym (map-append f first.0 second.0))
        ∙ ap (λ l. c.events ++ map f l) (sym p.0)
        ∙ ap (λ v. c.events ++ map f (loop c.mode v).0) q in
      let left : second.1 ≡ (loop c.mode (c.pending ++ (s ++ t))).1 =
        sym p.1 ∙ ap (λ v. (loop c.mode v).1) q in
      λ i. record c { events = events i; pending = left i }

  on_data-connected :
      (s : Bytes) (c : Channel M)
      → c.connected ≡ true
      → on_data serialize parse s c ≡ receive serialize parse s c
  unfolding on_data
  on_data-connected s c e = ap (λ b. if b then receive serialize parse s c else c) e

  on_data-disconnected :
      (s : Bytes) (c : Channel M) → c.connected ≡ false → on_data serialize parse s c ≡ c
  unfolding on_data
  on_data-disconnected s c e = ap (λ b. if b then receive serialize parse s c else c) e

  -- A chunk and another behind it do what the two do as one.
  on_data-append :
      (s t : Bytes) (c : Channel M)
      → on_data serialize parse t (on_data serialize parse s c) ≡ on_data serialize parse (s ++ t) c
  on_data-append s t c = elim (Bool-cases c.connected) [
    | inl e ↦
        ap (on_data serialize parse t) (on_data-connected s c e)
        ∙ on_data-connected t (receive serialize parse s c) (receive-mode s c ∙ e)
        ∙ receive-append s t c
        ∙ sym (on_data-connected (s ++ t) c e)
    | inr e ↦
        ap (on_data serialize parse t) (on_data-disconnected s c e)
        ∙ on_data-disconnected t c e
        ∙ sym (on_data-disconnected (s ++ t) c e)
  ]

  -- It does not matter how the bytes that arrive are cut into chunks: handling them chunk by chunk
  -- does to the channel what handling all the bytes at once does.
  pub run-chunks :
      (s : Bytes) (ss : List Bytes) (c : Channel M)
      → run serialize parse (map chunk (s ∷ ss)) c ≡ on_data serialize parse (s ++ concat ss) c
  unfolding run step
  run-chunks s [] c = ap (λ t. on_data serialize parse t c) (sym (append-nil s))
  run-chunks s (t ∷ ss) c =
      run-chunks t ss (on_data serialize parse s c) ∙ on_data-append s (t ++ concat ss) c

-- What the wire can carry: a length of four bytes, or a text without a newline.
abbrev pub Fits : Mode → Bytes → Type 0
Fits advanced s = length s < 2 ^ 32
Fits lines s = contains_byte 10 s ≡ false

uint32-put_uint32 : (n : ℕ) → n < 2 ^ 32 → uint32 (put_uint32 n) ≡ n
unfolding uint32 put_uint32
uint32-put_uint32 n h = omega (arith, h)

length-put_uint32 : (n : ℕ) → length (put_uint32 n) ≡ 4
unfolding put_uint32
length-put_uint32 n = omega arith

encode-IsNext :
    (mode : Mode) (s rest : Bytes) → Fits mode s → IsNext mode (encode mode s ++ rest) s rest
unfolding encode
encode-IsNext advanced s rest h =
    sized (put_uint32 (length s)) (length-put_uint32 (length s)) (uint32-put_uint32 (length s) h)
      (append_assoc (put_uint32 (length s)) s rest)
encode-IsNext lines s rest h = line h (append_assoc s (10 ∷ []) rest)

abbrev pub stream : Mode → List Bytes → Bytes
stream mode texts = concat (map (encode mode) texts)

nothing-IsNext : (mode : Mode) (f rest : Bytes) → ¬ IsNext mode [] f rest
nothing-IsNext mode f rest h = absurd (omega (arith, IsNext-shorter h))

stream-Frames :
    (mode : Mode) (texts : List Bytes)
    → All (Fits mode) texts
    → Frames mode (stream mode texts) texts []
stream-Frames mode [] h = stop (nothing-IsNext mode)
stream-Frames mode (s ∷ texts) (h, hs) =
    more (encode-IsNext mode s (stream mode texts) h) (stream-Frames mode texts hs)

module _ {M : Type 0} (serialize : M → Option Bytes) (parse : Bytes → Option M) where
  -- The texts of the messages, each of which the wire can carry and the other end can read.
  abbrev pub AreSent : Mode → List M → List Bytes → Type 0
  AreSent mode [] [] = Unit
  AreSent mode [] (s ∷ ss) = ⊥
  AreSent mode (m ∷ ms) [] = ⊥
  AreSent mode (m ∷ ms) (s ∷ ss) =
      ((serialize m ≡ some s) × (Fits mode s × (parse s ≡ some m))) × AreSent mode ms ss

  AreSent-Fits :
      (mode : Mode) (ms : List M) (ss : List Bytes) → AreSent mode ms ss → All (Fits mode) ss
  AreSent-Fits mode [] [] h = tt
  AreSent-Fits mode [] (s ∷ ss) h = elim h [ ]
  AreSent-Fits mode (m ∷ ms) [] h = elim h [ ]
  AreSent-Fits mode (m ∷ ms) (s ∷ ss) h = (h.0.1.0, AreSent-Fits mode ms ss h.1)

  event-parsed : (s : Bytes) (m : M) → parse s ≡ some m → event serialize parse s ≡ message m
  event-parsed s m h = ap (event_of s) h

  map-event :
      (mode : Mode) (ms : List M) (ss : List Bytes)
      → AreSent mode ms ss
      → map (event serialize parse) ss ≡ map message ms
  map-event mode [] [] h = refl
  map-event mode [] (s ∷ ss) h = elim h [ ]
  map-event mode (m ∷ ms) [] h = elim h [ ]
  map-event mode (m ∷ ms) (s ∷ ss) h = λ i. event-parsed s m h.0.1.1 i ∷ map-event mode ms ss h.1 i

  -- What one end sends, the other end's listeners get: where the channel is connected and waits for
  -- a new frame, and the bytes that arrive, in whatever chunks, are the encodings of messages that
  -- the wire can carry and the parser can read, the messages are emitted in order, and the channel
  -- waits for a new frame again.
  pub run-round_trip :
      (c : Channel M) (ms : List M) (texts : List Bytes) (first : Bytes) (others : List Bytes)
      → c.connected ≡ true
      → c.pending ≡ []
      → AreSent c.mode ms texts
      → first ++ concat others ≡ stream c.mode texts
      → run serialize parse (map chunk (first ∷ others)) c
        ≡ record c { events = c.events ++ map message ms; pending = [] }
  run-round_trip c ms texts first others connected waits sent arrived =
      let s = first ++ concat others in
      run-chunks serialize parse first others c
      ∙ on_data-connected serialize parse s c connected
      ∙ receive_lem serialize parse s c texts [] (
          subst (λ t. Frames c.mode t texts []) (sym (ap (λ p. p ++ s) waits ∙ arrived))
            (stream-Frames c.mode texts (AreSent-Fits c.mode ms texts sent)))
      ∙ (λ i. record c { events = c.events ++ map-event c.mode ms texts sent i; pending = [] })

-- ===== src/Ipc/Tests.antt =====
-- Channels of texts on which the theorems are applied.
use noderati.Prelude.{concat, ◌≡◌, refl, true, false, Option, none, some, List, [], ◌∷◌, ◌++◌, map}
use noderati.Prelude.Strings.{Bytes, codes, contains_byte}
use noderati.Ipc.Frames.{advanced, lines, encode, frames}
use noderati.Ipc.KeepAlive.{new_keep_alive}
use noderati.Ipc.Channel.{
  message, uncaught, Channel, setup, on_data, Action, chunk, eof, call_disconnect, call_send,
  writer, run,
}
use noderati.Ipc.Delivery.{run-chunks, run-round_trip}
use noderati.Ipc.Sending.{outgoing, accepted_of, run-outgoing}

-- The serializer of a channel that sends texts as they are; it refuses the empty text.
abbrev to_text : Bytes → Option Bytes
to_text [] = none
to_text (x ∷ s) = some (x ∷ s)

abbrev newline : Bytes
newline = 10 ∷ []

abbrev parent : Channel Bytes
parent = setup lines false

abbrev some_actions : List (Action to_text to_text)
some_actions =
    call_send (some (codes "go")) true
    ∷ chunk (codes "o")
    ∷ call_send (some []) false
    ∷ eof
    ∷ call_disconnect
    ∷ call_send (some (codes "late")) true
    ∷ chunk (codes "k" ++ newline)
    ∷ writer true
    ∷ []

frames_run :
    frames 20 advanced (encode advanced (1 ∷ 2 ∷ []) ++ (encode advanced [] ++ (0 ∷ 0 ∷ [])))
    ≡ ((1 ∷ 2 ∷ []) ∷ [] ∷ [], 0 ∷ 0 ∷ [])
unfolding frames encode
frames_run = refl

on_data_run :
    (on_data to_text to_text (codes "one" ++ (newline ++ (newline ++ codes "tw"))) parent).events
    ≡ message (codes "one") ∷ uncaught [] ∷ []
unfolding on_data setup new_keep_alive
on_data_run = refl

run-chunks_example :
    run to_text to_text (map chunk (codes "o" ∷ (codes "k" ++ newline) ∷ [])) parent
    ≡ on_data to_text to_text (codes "o" ++ concat ((codes "k" ++ newline) ∷ [])) parent
run-chunks_example = run-chunks to_text to_text (codes "o") ((codes "k" ++ newline) ∷ []) parent

run-round_trip_example :
    run to_text to_text
      (map chunk (codes "h" ∷ (codes "i" ++ (newline ++ codes "yo")) ∷ newline ∷ []))
      parent
    ≡ record parent {
      events = parent.events ++ map message (codes "hi" ∷ codes "yo" ∷ []);
      pending = [];
    }
unfolding encode contains_byte setup
run-round_trip_example =
    run-round_trip to_text to_text parent (codes "hi" ∷ codes "yo" ∷ [])
      (codes "hi" ∷ codes "yo" ∷ []) (codes "h")
      ((codes "i" ++ (newline ++ codes "yo")) ∷ newline ∷ []) refl refl
      ((refl, (refl, refl)), ((refl, (refl, refl)), tt)) refl

run-outgoing_example :
    outgoing (run to_text to_text some_actions parent)
    ≡ outgoing parent ++ accepted_of to_text to_text some_actions parent
run-outgoing_example =
    run-outgoing to_text to_text some_actions parent
      (tt, (tt, (tt, (tt, (tt, (tt, (tt, (tt, tt))))))))

-- ===== src/Events/Tests.antt =====
-- The theorems on signals at concrete calls and deliveries.
use noderati.Prelude.{ℕ, ◌≡◌, refl, true, false, some, List, [], ◌∷◌}
use noderati.Prelude.Strings.{codes}
use noderati.Buffers.Encoding.{encode_buffer_bytes, encoding_named, normalize_buffer_encoding}
use noderati.Events.Stream.{
  StreamAction, arrives, attaches, data_event, end_event, new_readable_stream, act_all, finish,
}
use noderati.Events.Heard.{arrived}
use noderati.Events.Texts.{EndsWith, finish-EndsWith}
use noderati.Events.Signals.{Op, add, Step, performs, delivers, started, run}

-- Each listener adds a listener for another signal.
abbrev adds_term : ℕ → List Op
adds_term f = add (codes "SIGTERM") (some 7) false false ∷ []

abbrev once_steps : List Step
once_steps = performs (add (codes "SIGINT") (some 1) true false) ∷ delivers (codes "SIGINT") ∷ []

-- A listener by `once` is gone behind the delivery, and its signal is no longer intercepted.
once_steps_lem : (run adds_term once_steps started).bridge.subscribed ≡ codes "SIGTERM" ∷ []
unfolding run
once_steps_lem = refl

-- A euro sign comes in two chunks, and the listener between them.
abbrev euro_acts : List StreamAction
euro_acts = arrives (226 ∷ 130 ∷ []) ∷ attaches ∷ arrives (172 ∷ []) ∷ []

euro_acts_lem :
    (finish (act_all euro_acts (new_readable_stream (some (codes "utf8"))))).emitted
    ≡ data_event (226 ∷ 130 ∷ 172 ∷ []) ∷ end_event ∷ []
unfolding finish act_all new_readable_stream
euro_acts_lem = refl

finish-EndsWith_example :
    EndsWith
      (encode_buffer_bytes
        (encoding_named (normalize_buffer_encoding (codes "utf8")))
        (arrived euro_acts))
      (finish (act_all euro_acts (new_readable_stream (some (codes "utf8"))))).emitted
unfolding act_all new_readable_stream
finish-EndsWith_example = finish-EndsWith (codes "utf8") euro_acts refl

-- ===== src/Events/Stream.antt =====
-- The readable streams of internal/host/emitter.go: chunks are kept until there is a consumer. A
-- chunk is its bytes. Emitting is written down; what listeners do happens behind the macrotask.
use noderati.Prelude.{
  ℕ, ◌+◌, ◌-◌, Bool, true, false, not, ◌&&◌, Option, none, some, List, [], ◌∷◌, ◌++◌, if◌then◌else◌,
  ◌==◌,
}
use noderati.Prelude.Strings.{Bytes, is_empty}
use noderati.Buffers.Decoder.{StringDecoder, new_string_decoder, write, end}

pub data StreamEvent : Type 0 where
  data_event : Bytes → StreamEvent
  end_event : StreamEvent

-- `pendingStreamData`, how many listeners of "data" there are, and what has been emitted.
pub record Stream : Type 0 where
  pub chunks : List Bytes
  pub ended : Bool
  pub decoder : Option StringDecoder
  pub resumed : Bool
  pub listeners : ℕ
  pub emitted : List StreamEvent

-- newReadableStream, and setEncoding if there is one
unfoldable pub new_readable_stream : Option Bytes → Stream
unfolding new_string_decoder
new_readable_stream encoding = record {
  chunks = [];
  ended = false;
  decoder = elim encoding [ none ↦ none | some e ↦ some (new_string_decoder (some e)) ];
  resumed = false;
  listeners = 0;
  emitted = [];
}

-- No event for an empty text.
unfoldable pub emit_text : Bytes → List StreamEvent → List StreamEvent
emit_text text es = if is_empty text then es else es ++ (data_event text ∷ [])

unfoldable pub deliver_to : Bytes → Stream → Option StringDecoder → Stream
unfolding write emit_text
deliver_to chunk s none = record s { emitted = s.emitted ++ (data_event chunk ∷ []) }
deliver_to chunk s (some d) =
    let r = write d chunk in record s { decoder = some r.0; emitted = emit_text r.1 s.emitted }

-- The loop over the chunks.
unfoldable pub deliver_chunks : List Bytes → Stream → Stream
unfolding deliver_to
deliver_chunks [] s = record s { chunks = [] }
deliver_chunks (c ∷ cs) s = deliver_chunks cs (deliver_to c s s.decoder)

unfoldable pub deliver_tail : Stream → Option StringDecoder → Stream
unfolding end emit_text
deliver_tail s none = s
deliver_tail s (some d) =
    let r = end d none in record s { decoder = some r.0; emitted = emit_text r.1 s.emitted }

unfoldable pub deliver_end : Stream → Stream
unfolding deliver_tail
deliver_end s =
    if s.ended
    then (let t = deliver_tail (record s { ended = false }) s.decoder in
        record t { emitted = t.emitted ++ (end_event ∷ []) })
    else s

unfoldable pub flush_pending : Stream → Stream
unfolding deliver_chunks deliver_end
flush_pending s =
    if s.listeners == 0 && not s.resumed then s else deliver_end (deliver_chunks s.chunks s)

-- What happens to a stream: the macrotask of a chunk, of the end, or of a new listener, a listener
-- of "data" that comes or goes, and the methods resume and pause.
pub data StreamAction : Type 0 where
  arrives : Bytes → StreamAction
  flushes : StreamAction
  attaches : StreamAction
  detaches : StreamAction
  resumes : StreamAction
  pauses : StreamAction

unfoldable pub act : StreamAction → Stream → Stream
unfolding flush_pending
act (arrives chunk) s = flush_pending (record s { chunks = s.chunks ++ (chunk ∷ []) })
act flushes s = flush_pending s
act attaches s = record s { listeners = s.listeners + 1 }
act detaches s = record s { listeners = s.listeners - 1 }
act resumes s = flush_pending (record s { resumed = true })
act pauses s = record s { resumed = false }

unfoldable pub act_all : List StreamAction → Stream → Stream
unfolding act
act_all [] s = s
act_all (a ∷ acts) s = act_all acts (act a s)

-- The macrotask of "end"
unfoldable pub finish : Stream → Stream
unfolding flush_pending
finish s = flush_pending (record s { ended = true })

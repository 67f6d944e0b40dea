-- ===== src/Events/Texts.antt =====
-- What the listeners of a stream get, all in all.
use mathlib.Core.Path.{subst}
use noderati.Prelude.{
  ℕ, ◌+◌, ◌-◌, ◌≡◌, refl, sym, ap, ◌∙◌, Bool, true, false, not, ◌&&◌, some, List, [], ◌∷◌, ◌++◌,
  if◌then◌else◌, ◌==◌, concat, append_assoc, append-nil, inl, inr, Bool-cases, if-false,
}
use noderati.Prelude.Strings.{Bytes}
use noderati.Buffers.Encoding.{
  Encoding, encode_buffer_bytes, normalize_buffer_encoding, encoding_named,
}
use noderati.Buffers.Decoder.{StringDecoder, new_string_decoder, write, process, end}
use noderati.Buffers.Chunks.{write-encode}
use noderati.Events.Stream.{
  StreamEvent, end_event, Stream, new_readable_stream, emit_text, deliver_to, deliver_chunks,
  deliver_tail, deliver_end, flush_pending, StreamAction, arrives, flushes, attaches, detaches,
  resumes, pauses, act, act_all, finish,
}
use noderati.Events.Heard.{text_of, end_count, arrived, text_of-emit_text, end_count-emit_text}

-- Of a stream with a decoder, with these chunks still to be delivered: what has been emitted, what
-- the decoder keeps and the chunks are together what has come. "end" has not been emitted.
record Told (e : Encoding) (over : Bool) (all : Bytes) (cs : List Bytes) (s : Stream) : Type 0 where
  d : StringDecoder
  decoder_is : s.decoder ≡ some d
  encoding_is : d.encoding ≡ e
  ended_is : s.ended ≡ over
  no_end : end_count s.emitted ≡ 0
  texts :
      (rest : Bytes)
      → text_of s.emitted ++ encode_buffer_bytes e (d.pending ++ (concat cs ++ rest))
        ≡ encode_buffer_bytes e (all ++ rest)

write-encode-as :
    (e : Encoding) (d : StringDecoder) (chunk rest : Bytes)
    → d.encoding ≡ e
    → (write d chunk).1 ++ encode_buffer_bytes e ((write d chunk).0.pending ++ rest)
      ≡ encode_buffer_bytes e (d.pending ++ (chunk ++ rest))
write-encode-as e d chunk rest h =
    subst
      (λ x.
        (write d chunk).1 ++ encode_buffer_bytes x ((write d chunk).0.pending ++ rest)
        ≡ encode_buffer_bytes x (d.pending ++ (chunk ++ rest)))
      h (write-encode d chunk rest)

deliver_to-Told :
    (e : Encoding) (over : Bool) (all c : Bytes) (cs : List Bytes) (s : Stream)
    → Told e over all (c ∷ cs) s
    → Told e over all cs (deliver_to c s s.decoder)
unfolding deliver_to
deliver_to-Told e over all c cs s t =
    subst (λ o. Told e over all cs (deliver_to c s o)) (sym t.decoder_is)
      (record {
        d = (write t.d c).0;
        decoder_is = refl;
        encoding_is = t.encoding_is;
        ended_is = t.ended_is;
        no_end = end_count-emit_text (write t.d c).1 s.emitted ∙ t.no_end;
        texts = λ rest.
            let later = encode_buffer_bytes e ((write t.d c).0.pending ++ (concat cs ++ rest)) in
            ap (λ r. r ++ later) (text_of-emit_text (write t.d c).1 s.emitted)
            ∙ append_assoc (text_of s.emitted) (write t.d c).1 later
            ∙ ap (λ r. text_of s.emitted ++ r)
                (write-encode-as e t.d c (concat cs ++ rest) t.encoding_is)
            ∙ ap (λ r. text_of s.emitted ++ encode_buffer_bytes e (t.d.pending ++ r))
                (sym (append_assoc c (concat cs) rest))
            ∙ t.texts rest;
      })

deliver_chunks-Told :
    (e : Encoding) (over : Bool) (all : Bytes) (cs : List Bytes) (s : Stream)
    → Told e over all cs s
    → Told e over all [] (deliver_chunks cs s)
unfolding deliver_chunks
deliver_chunks-Told e over all [] s t = record {
  d = t.d;
  decoder_is = t.decoder_is;
  encoding_is = t.encoding_is;
  ended_is = t.ended_is;
  no_end = t.no_end;
  texts = t.texts;
}
deliver_chunks-Told e over all (c ∷ cs) s t =
    deliver_chunks-Told e over all cs (deliver_to c s s.decoder)
      (deliver_to-Told e over all c cs s t)

deliver_chunks-chunks : (cs : List Bytes) (s : Stream) → (deliver_chunks cs s).chunks ≡ []
unfolding deliver_chunks
deliver_chunks-chunks [] s = refl
deliver_chunks-chunks (c ∷ cs) s = deliver_chunks-chunks cs (deliver_to c s s.decoder)

Telling : Encoding → Bytes → Stream → Type 0
Telling e all s = Told e false all s.chunks s

deliver_end_open : (s : Stream) → s.ended ≡ false → deliver_end s ≡ s
unfolding deliver_end
deliver_end_open s h = if-false s.ended _ s s h refl

flush-Telling :
    (e : Encoding) (all : Bytes) (s : Stream) → Telling e all s → Telling e all (flush_pending s)
unfolding flush_pending Telling
flush-Telling e all s t = elim (Bool-cases (s.listeners == 0 && not s.resumed)) [
  | inl h ↦
      subst (λ b. Telling e all (if b then s else deliver_end (deliver_chunks s.chunks s))) (sym h)
        t
  | inr h ↦
      let q = deliver_chunks s.chunks s in
      let u = deliver_chunks-Told e false all s.chunks s t in
      let same : deliver_end q ≡ q = deliver_end_open q u.ended_is in
      subst (λ b. Telling e all (if b then s else deliver_end q)) (sym h)
        (subst (Telling e all) (sym same)
          (subst (λ cs. Told e false all cs q) (sym (deliver_chunks-chunks s.chunks s)) u))
]

concat-last :
    (cs : List Bytes) (c rest : Bytes) → concat (cs ++ (c ∷ [])) ++ rest ≡ concat cs ++ (c ++ rest)
concat-last [] c rest = ap (λ r. r ++ rest) (append-nil c)
concat-last (b ∷ cs) c rest =
    append_assoc b (concat (cs ++ (c ∷ []))) rest
    ∙ ap (λ r. b ++ r) (concat-last cs c rest)
    ∙ sym (append_assoc b (concat cs) (c ++ rest))

arrive-Telling :
    (e : Encoding) (all c : Bytes) (s : Stream)
    → Telling e all s
    → Telling e (all ++ c) (record s { chunks = s.chunks ++ (c ∷ []) })
unfolding Telling
arrive-Telling e all c s t = record {
  d = t.d;
  decoder_is = t.decoder_is;
  encoding_is = t.encoding_is;
  ended_is = t.ended_is;
  no_end = t.no_end;
  texts = λ rest.
      ap (λ r. text_of s.emitted ++ encode_buffer_bytes e (t.d.pending ++ r))
        (concat-last s.chunks c rest)
      ∙ t.texts (c ++ rest)
      ∙ ap (encode_buffer_bytes e) (sym (append_assoc all c rest));
}

-- What is no part of the deliveries may change.
other_fields :
    (e : Encoding) (all : Bytes) (s : Stream) (n : ℕ) (b : Bool)
    → Telling e all s
    → Telling e all (record s { listeners = n; resumed = b })
unfolding Telling
other_fields e all s n b t = record {
  d = t.d;
  decoder_is = t.decoder_is;
  encoding_is = t.encoding_is;
  ended_is = t.ended_is;
  no_end = t.no_end;
  texts = t.texts;
}

act_all-Telling :
    (e : Encoding) (all : Bytes) (acts : List StreamAction) (s : Stream)
    → Telling e all s
    → Telling e (all ++ arrived acts) (act_all acts s)
unfolding act_all act arrived
act_all-Telling e all [] s t = subst (λ a. Telling e a s) (sym (append-nil all)) t
act_all-Telling e all (arrives c ∷ acts) s t =
    subst (λ a. Telling e a (act_all acts (act (arrives c) s))) (append_assoc all c (arrived acts))
      (act_all-Telling e (all ++ c) acts _
        (flush-Telling e (all ++ c) _ (arrive-Telling e all c s t)))
act_all-Telling e all (flushes ∷ acts) s t = act_all-Telling e all acts _ (flush-Telling e all s t)
act_all-Telling e all (attaches ∷ acts) s t =
    act_all-Telling e all acts _ (other_fields e all s (s.listeners + 1) s.resumed t)
act_all-Telling e all (detaches ∷ acts) s t =
    act_all-Telling e all acts _ (other_fields e all s (s.listeners - 1) s.resumed t)
act_all-Telling e all (resumes ∷ acts) s t =
    act_all-Telling e all acts _ (flush-Telling e all _ (other_fields e all s s.listeners true t))
act_all-Telling e all (pauses ∷ acts) s t =
    act_all-Telling e all acts _ (other_fields e all s s.listeners false t)

-- The events of a stream that has ended: a text in parts, and one "end" behind it.
abbrev pub EndsWith : Bytes → List StreamEvent → Type 0
EndsWith text es =
    (fs : List StreamEvent) × ((es ≡ fs ++ (end_event ∷ []))
      × ((text_of fs ≡ text) × (end_count fs ≡ 0)))

chosen : (b : Bool) (x y : Stream) → b ≡ true → (if b then x else y).emitted ≡ x.emitted
chosen true x y h = refl
chosen false x y h = cc

deliver_end-EndsWith :
    (e : Encoding) (all : Bytes) (s : Stream)
    → Told e true all [] s
    → EndsWith (encode_buffer_bytes e all) (deliver_end s).emitted
unfolding deliver_end deliver_tail end process
deliver_end-EndsWith e all s t =
    let tail = encode_buffer_bytes t.d.encoding (t.d.pending ++ []) in
    (
      emit_text tail s.emitted,
      (
        chosen s.ended _ s t.ended_is
            ∙ ap (λ o. (deliver_tail (record s { ended = false }) o).emitted ++ (end_event ∷ []))
                t.decoder_is,
        (
          text_of-emit_text tail s.emitted
              ∙ (λ i.
                  text_of s.emitted ++ encode_buffer_bytes (t.encoding_is i) (t.d.pending ++ []))
              ∙ t.texts []
              ∙ ap (encode_buffer_bytes e) (append-nil all),
          end_count-emit_text tail s.emitted ∙ t.no_end,
        ),
      ),
    )

begun-Telling :
    (name : Bytes)
    → Telling (encoding_named (normalize_buffer_encoding name)) [] (new_readable_stream (some name))
unfolding Telling new_readable_stream new_string_decoder text_of end_count
begun-Telling name = record {
  d = new_string_decoder (some name);
  decoder_is = refl;
  encoding_is = refl;
  ended_is = refl;
  no_end = refl;
  texts = λ rest. refl;
}

-- A stream with a decoder that has ended, and that is listened to or resumed by then: whatever has
-- happened to it in whatever order, the texts of the "data" events are the text of all the bytes that
-- arrived, and "end" comes once, behind them.
pub finish-EndsWith :
    (name : Bytes) (acts : List StreamAction)
    → ((act_all acts (new_readable_stream (some name))).listeners == 0
        && not (act_all acts (new_readable_stream (some name))).resumed)
      ≡ false
    → EndsWith
        (encode_buffer_bytes (encoding_named (normalize_buffer_encoding name)) (arrived acts))
        (finish (act_all acts (new_readable_stream (some name)))).emitted
unfolding finish flush_pending Telling
finish-EndsWith name acts h =
    let e = encoding_named (normalize_buffer_encoding name) in
    let s = act_all acts (new_readable_stream (some name)) in
    let t = act_all-Telling e [] acts (new_readable_stream (some name)) (begun-Telling name) in
    let over = record s { ended = true } in
    let u = deliver_chunks-Told e true (arrived acts) s.chunks over (record {
      d = t.d;
      decoder_is = t.decoder_is;
      encoding_is = t.encoding_is;
      ended_is = refl;
      no_end = t.no_end;
      texts = t.texts;
    }) in
    subst
      (λ b.
        EndsWith (encode_buffer_bytes e (arrived acts))
          (if b then over else deliver_end (deliver_chunks s.chunks over)).emitted)
      (sym h) (deliver_end-EndsWith e (arrived acts) (deliver_chunks s.chunks over) u)

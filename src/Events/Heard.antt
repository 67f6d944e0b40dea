-- ===== src/Events/Heard.antt =====
-- The texts and the ends among the events of a stream of internal/host/emitter.go.
use noderati.Prelude.{
  ℕ, suc, ◌+◌, ◌≡◌, refl, sym, ap, ◌∙◌, List, [], ◌∷◌, ◌++◌, append_assoc, append-nil, arith,
}
use noderati.Prelude.Strings.{Bytes}
use noderati.Events.Stream.{
  StreamEvent, data_event, end_event, emit_text, StreamAction, arrives, flushes, attaches, detaches,
  resumes, pauses,
}

-- The texts of the "data" events, one after the other.
unfoldable pub text_of : List StreamEvent → Bytes
text_of [] = []
text_of (data_event text ∷ es) = text ++ text_of es
text_of (end_event ∷ es) = text_of es

unfoldable pub end_count : List StreamEvent → ℕ
end_count [] = 0
end_count (data_event text ∷ es) = end_count es
end_count (end_event ∷ es) = suc (end_count es)

-- The bytes that have arrived.
unfoldable pub arrived : List StreamAction → Bytes
arrived [] = []
arrived (arrives chunk ∷ acts) = chunk ++ arrived acts
arrived (flushes ∷ acts) = arrived acts
arrived (attaches ∷ acts) = arrived acts
arrived (detaches ∷ acts) = arrived acts
arrived (resumes ∷ acts) = arrived acts
arrived (pauses ∷ acts) = arrived acts

text_of-append : (es fs : List StreamEvent) → text_of (es ++ fs) ≡ text_of es ++ text_of fs
unfolding text_of
text_of-append [] fs = refl
text_of-append (data_event text ∷ es) fs =
    ap (λ r. text ++ r) (text_of-append es fs) ∙ sym (append_assoc text (text_of es) (text_of fs))
text_of-append (end_event ∷ es) fs = text_of-append es fs

end_count-append : (es fs : List StreamEvent) → end_count (es ++ fs) ≡ end_count es + end_count fs
unfolding end_count
end_count-append [] fs = omega arith
end_count-append (data_event text ∷ es) fs = end_count-append es fs
end_count-append (end_event ∷ es) fs = omega (arith, end_count-append es fs)

pub text_of-emit_text :
    (text : Bytes) (es : List StreamEvent) → text_of (emit_text text es) ≡ text_of es ++ text
unfolding emit_text text_of
text_of-emit_text [] es = sym (append-nil (text_of es))
text_of-emit_text (c ∷ text) es =
    text_of-append es (data_event (c ∷ text) ∷ [])
    ∙ ap (λ r. text_of es ++ r) (append-nil (c ∷ text))

pub end_count-emit_text :
    (text : Bytes) (es : List StreamEvent) → end_count (emit_text text es) ≡ end_count es
unfolding emit_text end_count
end_count-emit_text [] es = refl
end_count-emit_text (c ∷ text) es = omega (arith, end_count-append es (data_event (c ∷ text) ∷ []))

-- ===== src/Ipc/Sending.antt =====
-- What goes out of a channel, and what its disconnection ends.
use noderati.Prelude.{
  zero, suc, Bool, true, false, Option, none, some, List, [], ◌∷◌, ◌++◌, if◌then◌else◌, ◌≡◌, refl,
  sym, ap, ◌∙◌, arith, append_assoc, append-nil,
}
use noderati.Prelude.Strings.{Bytes}
use noderati.Ipc.Frames.{encode}
use noderati.Ipc.Channel.{
  Write, Channel, shutdown, disconnect, start_reader, update_ref, control_ref, control_unref,
  write_head, send_text, send, receive, on_data, Action, chunk, eof, call_disconnect, call_ref,
  call_unref, call_send, listeners, writer, step, run, SendResult,
}

abbrev pub bytes_of : List Write → Bytes
bytes_of [] = []
bytes_of (w ∷ ws) = w.data_bytes ++ bytes_of ws

bytes_of-append :
    (ws : List Write) (w : Write) → bytes_of (ws ++ (w ∷ [])) ≡ bytes_of ws ++ w.data_bytes
bytes_of-append [] w = append-nil w.data_bytes
bytes_of-append (v ∷ ws) w =
    ap (λ s. v.data_bytes ++ s) (bytes_of-append ws w)
    ∙ sym (append_assoc v.data_bytes (bytes_of ws) w.data_bytes)

module _ {M : Type 0} where
  if-both :
      {X : Type 0} (f : Channel M → X) (b : Bool) (c d : Channel M) (x : X)
      → f c ≡ x
      → f d ≡ x
      → f (if b then c else d) ≡ x
  if-both f true c d x h k = h
  if-both f false c d x h k = k

  -- The bytes that the writer has written, and those that wait for it.
  abbrev pub outgoing : Channel M → Bytes
  outgoing c = c.sent ++ bytes_of c.writes

  write_head-outgoing :
      (c : Channel M) (ws : List Write)
      → c.writes ≡ ws
      → outgoing (write_head true ws c) ≡ c.sent ++ bytes_of ws
  write_head-outgoing c [] e = ap (λ ws. c.sent ++ bytes_of ws) e
  write_head-outgoing c (w ∷ ws) e =
      if-both outgoing w.has_done _ _ _ (append_assoc c.sent w.data_bytes (bytes_of ws))
        (append_assoc c.sent w.data_bytes (bytes_of ws))

  write_head-connected :
      (ok : Bool) (c : Channel M) (ws : List Write)
      → ((write_head ok ws c).connected ≡ c.connected) × ((write_head ok ws c).events ≡ c.events)
  write_head-connected ok c [] = (refl, refl)
  write_head-connected ok c (w ∷ ws) = (
    if-both (λ d. d.connected) w.has_done _ _ _ refl refl,
    if-both (λ d. d.events) w.has_done _ _ _ refl refl,
  )

  abbrev Unsent : Channel M → Channel M → Type 0
  Unsent c d = (d.sent ≡ c.sent) × (d.writes ≡ c.writes)

  Unsent-outgoing : (c d : Channel M) → Unsent c d → outgoing d ≡ outgoing c ++ []
  Unsent-outgoing c d h = (λ i. h.0 i ++ bytes_of (h.1 i)) ∙ sym (append-nil (outgoing c))

  if-outgoing :
      (c : Channel M) (b : Bool) (p q : Channel M × SendResult) (x : Bytes)
      → outgoing p.0 ≡ outgoing c ++ x
      → outgoing q.0 ≡ outgoing c
      → outgoing (if b then p else q).0 ≡ outgoing c ++ (if b then x else [])
  if-outgoing c true p q x h k = h
  if-outgoing c false p q x h k = k ∙ sym (append-nil (outgoing c))

  module _ (serialize : M → Option Bytes) (parse : Bytes → Option M) where
    step-disconnected :
        (a : Action serialize parse) (c : Channel M)
        → c.connected ≡ false
        → ((step serialize parse a c).connected ≡ false)
          × ((step serialize parse a c).events ≡ c.events)
    unfolding step on_data shutdown disconnect control_ref control_unref send update_ref
        start_reader
    step-disconnected (chunk s) c h = ground arith
    step-disconnected eof c h = ground arith
    step-disconnected call_disconnect c h = ground arith
    step-disconnected call_ref c h = ground arith
    step-disconnected call_unref c h = ground arith
    step-disconnected (call_send none cb) c h = (h, refl)
    step-disconnected (call_send (some m) cb) c h = ground arith
    step-disconnected (listeners zero) c h = ground arith
    step-disconnected (listeners (suc n)) c h = ground arith
    step-disconnected (writer ok) c h = let k = write_head-connected ok c c.writes in (k.0 ∙ h, k.1)

    -- A disconnected channel is never connected again and emits no message more, whatever arrives and
    -- whatever is called.
    pub run-disconnected :
        (actions : List (Action serialize parse)) (c : Channel M)
        → c.connected ≡ false
        → ((run serialize parse actions c).connected ≡ false)
          × ((run serialize parse actions c).events ≡ c.events)
    unfolding run
    run-disconnected [] c h = (h, refl)
    run-disconnected (a ∷ actions) c h =
        let k = step-disconnected a c h in
        let rest = run-disconnected actions (step serialize parse a c) k.0 in (rest.0, rest.1 ∙ k.1)

    abbrev encoded : Channel M → Option Bytes → Bytes
    encoded c none = []
    encoded c (some s) = encode c.mode s

    -- The encoding of the message that the action has accepted.
    abbrev pub accepted_bytes : Action serialize parse → Channel M → Bytes
    accepted_bytes (call_send (some m) cb) c = if c.connected then encoded c (serialize m) else []
    accepted_bytes _ c = []

    -- No write fails.
    abbrev pub Writes : Action serialize parse → Type 0
    Writes (writer false) = ⊥
    Writes _ = Unit

    send_text-outgoing :
        (cb : Bool) (c : Channel M) (o : Option Bytes)
        → outgoing (send_text serialize parse cb c o).0 ≡ outgoing c ++ encoded c o
    send_text-outgoing cb c none = sym (append-nil (outgoing c))
    send_text-outgoing cb c (some s) =
        ap (λ t. c.sent ++ t)
          (bytes_of-append c.writes (record { data_bytes = encode c.mode s; has_done = cb }))
        ∙ sym (append_assoc c.sent (bytes_of c.writes) (encode c.mode s))

    step-outgoing :
        (a : Action serialize parse) (c : Channel M)
        → Writes a
        → outgoing (step serialize parse a c) ≡ outgoing c ++ accepted_bytes a c
    unfolding step on_data receive shutdown disconnect control_ref control_unref send update_ref
        start_reader
    step-outgoing (chunk s) c h =
        Unsent-outgoing c (step serialize parse (chunk s) c) (ground arith)
    step-outgoing eof c h = Unsent-outgoing c (step serialize parse eof c) (ground arith)
    step-outgoing call_disconnect c h =
        Unsent-outgoing c (step serialize parse call_disconnect c) (ground arith)
    step-outgoing call_ref c h = Unsent-outgoing c (step serialize parse call_ref c) (ground arith)
    step-outgoing call_unref c h =
        Unsent-outgoing c (step serialize parse call_unref c) (refl, refl)
    step-outgoing (call_send none cb) c h = sym (append-nil (outgoing c))
    step-outgoing (call_send (some m) cb) c h =
        if-outgoing c c.connected _ _ _ (send_text-outgoing cb c (serialize m)) refl
    step-outgoing (listeners zero) c h =
        Unsent-outgoing c (step serialize parse (listeners zero) c) (ground arith)
    step-outgoing (listeners (suc n)) c h =
        Unsent-outgoing c (step serialize parse (listeners (suc n)) c) (ground arith)
    step-outgoing (writer true) c h =
        write_head-outgoing c c.writes refl ∙ sym (append-nil (outgoing c))
    step-outgoing (writer false) c h = elim h [ ]

    unfoldable pub accepted_of : List (Action serialize parse) → Channel M → Bytes
    unfolding step
    accepted_of [] c = []
    accepted_of (a ∷ actions) c =
        accepted_bytes a c ++ accepted_of actions (step serialize parse a c)

    abbrev pub AllWrites : List (Action serialize parse) → Type 0
    AllWrites [] = Unit
    AllWrites (a ∷ actions) = Writes a × AllWrites actions

    -- While no write fails, what the writer has written and what waits for it are, in this order, what
    -- they were with the encodings of the messages that `send` has accepted since behind them,
    -- whatever else happens in between: a disconnection loses none of them.
    pub run-outgoing :
        (actions : List (Action serialize parse)) (c : Channel M)
        → AllWrites actions
        → outgoing (run serialize parse actions c) ≡ outgoing c ++ accepted_of actions c
    unfolding run accepted_of
    run-outgoing [] c h = sym (append-nil (outgoing c))
    run-outgoing (a ∷ actions) c h =
        run-outgoing actions (step serialize parse a c) h.1
        ∙ ap (λ s. s ++ accepted_of actions (step serialize parse a c)) (step-outgoing a c h.0)
        ∙ append_assoc (outgoing c) (accepted_bytes a c)
            (accepted_of actions (step serialize parse a c))

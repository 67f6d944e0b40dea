-- ===== src/Ipc/Safety.antt =====
-- The life of a channel: what holds at every point of it, and what its disconnection ends.
use mathlib.Core.Path.{subst}
use noderati.Prelude.{
  Bool-cases, inl, inr, ℕ, zero, suc, ◌+◌, ◌-◌, Bool, true, false, not, ◌||◌, Option, none, some,
  List, [], ◌∷◌, ◌++◌, length, if◌then◌else◌, ◌≡◌, refl, sym, ap, ◌∙◌, arith, length-append,
}
use noderati.Prelude.Strings.{Bytes}
use noderati.Ipc.KeepAlive.{
  IsHold, new_keep_alive, ref, unref, release, new_keep_alive-IsHold, ref-IsHold, unref-IsHold,
  ref-closed, unref-closed,
}
use noderati.Ipc.Frames.{Mode, encode}
use noderati.Ipc.Channel.{
  Tick, written, closed_callback, closed_error, disconnected_error, disconnect_event, Write,
  Channel, setup, schedule, shutdown, disconnect, start_reader, update_ref, write_head, send_text,
  refused, enqueue, send, receive, on_data, Action, chunk, eof, call_disconnect, call_ref,
  call_unref, call_send, listeners, writer, step, run,
}

-- How often 'disconnect' is scheduled.
abbrev pub disconnects : List Tick → ℕ
disconnects [] = 0
disconnects (written ok ∷ ts) = disconnects ts
disconnects (closed_callback ∷ ts) = disconnects ts
disconnects (closed_error ∷ ts) = disconnects ts
disconnects (disconnected_error ∷ ts) = disconnects ts
disconnects (disconnect_event ∷ ts) = suc (disconnects ts)

disconnects-append : (ts us : List Tick) → disconnects (ts ++ us) ≡ disconnects ts + disconnects us
disconnects-append [] us = omega arith
disconnects-append (written ok ∷ ts) us = disconnects-append ts us
disconnects-append (closed_callback ∷ ts) us = disconnects-append ts us
disconnects-append (closed_error ∷ ts) us = disconnects-append ts us
disconnects-append (disconnected_error ∷ ts) us = disconnects-append ts us
disconnects-append (disconnect_event ∷ ts) us = omega (arith, disconnects-append ts us)

module _ {M : Type 0} where
  -- `writes` is closed exactly once the channel is disconnected and never used wrongly; the hold on
  -- the event loop is one operation or none, and released on disconnection; each write that waits
  -- has its operation; and 'disconnect' is scheduled once, on disconnection.
  pub record IsSafe (c : Channel M) : Type 0 where
    pub no_panic : c.panicked ≡ false
    pub open_writes : c.writes_closed ≡ not c.connected
    pub holds : IsHold c.hold
    pub hold_closed : c.hold.closed ≡ not c.connected
    pub write_ops : c.ops ≡ length c.writes
    pub one_disconnect : disconnects c.ticks ≡ (if c.connected then 0 else 1)

  pub setup-IsSafe : (mode : Mode) (is_child : Bool) → IsSafe (setup mode is_child)
  unfolding setup new_keep_alive
  setup-IsSafe mode is_child = record {
    no_panic = refl;
    open_writes = refl;
    holds = new_keep_alive-IsHold (not is_child);
    hold_closed = refl;
    write_ops = refl;
    one_disconnect = refl;
  }

  shutdown-IsSafe : (c : Channel M) → IsSafe c → IsSafe (shutdown c)
  unfolding shutdown release
  shutdown-IsSafe c h = ground (arith, disconnects-append c.ticks (disconnect_event ∷ []))

  start_reader-IsSafe : (c : Channel M) → IsSafe c → IsSafe (start_reader c)
  unfolding start_reader
  start_reader-IsSafe c h = ground arith

  ref-IsSafe : (c : Channel M) → IsSafe c → IsSafe (record c { hold = ref c.hold })
  ref-IsSafe c h = record {
    no_panic = h.no_panic;
    open_writes = h.open_writes;
    holds = ref-IsHold c.hold h.holds;
    hold_closed = ref-closed c.hold ∙ h.hold_closed;
    write_ops = h.write_ops;
    one_disconnect = h.one_disconnect;
  }

  schedule-IsSafe :
      (t : Tick) (c : Channel M) → disconnects (t ∷ []) ≡ 0 → IsSafe c → IsSafe (schedule t c)
  schedule-IsSafe t c e h = record {
    no_panic = h.no_panic;
    open_writes = h.open_writes;
    holds = h.holds;
    hold_closed = h.hold_closed;
    write_ops = h.write_ops;
    one_disconnect = disconnects-append c.ticks (t ∷ []) ∙ omega (arith, e) ∙ h.one_disconnect;
  }

  unref-IsSafe : (c : Channel M) → IsSafe c → IsSafe (record c { hold = unref c.hold })
  unref-IsSafe c h = record {
    no_panic = h.no_panic;
    open_writes = h.open_writes;
    holds = unref-IsHold c.hold h.holds;
    hold_closed = unref-closed c.hold ∙ h.hold_closed;
    write_ops = h.write_ops;
    one_disconnect = h.one_disconnect;
  }

  if-IsSafe : (b : Bool) (c d : Channel M) → IsSafe c → IsSafe d → IsSafe (if b then c else d)
  if-IsSafe true c d h k = h
  if-IsSafe false c d h k = k

  disconnect-IsSafe : (c : Channel M) → IsSafe c → IsSafe (disconnect c)
  unfolding disconnect
  disconnect-IsSafe c h =
      if-IsSafe c.connected (shutdown c) (schedule disconnected_error c) (shutdown-IsSafe c h)
        (schedule-IsSafe disconnected_error c refl h)

  explicit-IsSafe : (c : Channel M) → IsSafe c → IsSafe (record c { explicit = true })
  explicit-IsSafe c h = ground arith

  update_ref-IsSafe : (n : ℕ) (c : Channel M) → IsSafe c → IsSafe (update_ref n c)
  unfolding update_ref
  update_ref-IsSafe zero c h =
      if-IsSafe (c.explicit || not c.connected) c (record c { hold = unref c.hold }) h
        (unref-IsSafe c h)
  update_ref-IsSafe (suc n) c h =
      let d = record c { hold = ref c.hold } in
      if-IsSafe (c.explicit || not c.connected) c (start_reader d) h
        (start_reader-IsSafe d (ref-IsSafe c h))

  write_head-IsSafe :
      (ok : Bool) (c : Channel M) (ws : List Write)
      → c.writes ≡ ws
      → IsSafe c
      → IsSafe (write_head ok ws c)
  write_head-IsSafe ok c [] e h = h
  write_head-IsSafe ok c (w ∷ ws) e h =
      let d = record c {
        writes = ws;
        sent = if ok then c.sent ++ w.data_bytes else c.sent;
        ops = c.ops - 1;
      } in
      let k : IsSafe d = record {
        no_panic = h.no_panic;
        open_writes = h.open_writes;
        holds = h.holds;
        hold_closed = h.hold_closed;
        write_ops = omega (arith, h.write_ops, ap length e);
        one_disconnect = h.one_disconnect;
      } in
      if-IsSafe w.has_done (schedule (written ok) d) d (schedule-IsSafe (written ok) d refl k) k

  module _ (serialize : M → Option Bytes) (parse : Bytes → Option M) where
    receive-IsSafe : (s : Bytes) (c : Channel M) → IsSafe c → IsSafe (receive serialize parse s c)
    unfolding receive
    receive-IsSafe s c h = record {
      no_panic = h.no_panic;
      open_writes = h.open_writes;
      holds = h.holds;
      hold_closed = h.hold_closed;
      write_ops = h.write_ops;
      one_disconnect = h.one_disconnect;
    }

    enqueue-IsSafe :
        (w : Write) (c : Channel M)
        → c.connected ≡ true
        → IsSafe c
        → IsSafe (enqueue serialize parse w c)
    enqueue-IsSafe w c e h = ground (arith, length-append c.writes (w ∷ []))

    send_text-IsSafe :
        (cb : Bool) (c : Channel M) (o : Option Bytes)
        → c.connected ≡ true
        → IsSafe c
        → IsSafe (send_text serialize parse cb c o).0
    send_text-IsSafe cb c none e h = h
    send_text-IsSafe cb c (some s) e h =
        enqueue-IsSafe (record { data_bytes = encode c.mode s; has_done = cb }) c e h

    refused-IsSafe :
        (cb : Bool) (c : Channel M)
        → IsSafe c
        → IsSafe (schedule (if cb then closed_callback else closed_error) c)
    refused-IsSafe true c h = schedule-IsSafe closed_callback c refl h
    refused-IsSafe false c h = schedule-IsSafe closed_error c refl h

    send-IsSafe :
        (m : Option M) (cb : Bool) (c : Channel M)
        → IsSafe c
        → IsSafe (send serialize parse m cb c).0
    unfolding send
    send-IsSafe none cb c h = h
    send-IsSafe (some m) cb c h = elim (Bool-cases c.connected) [
      | inl e ↦
          subst
            (λ b.
              IsSafe
                (if b
                  then send_text serialize parse cb c (serialize m)
                  else (schedule (if cb then closed_callback else closed_error) c, refused)).0)
            (sym e) (send_text-IsSafe cb c (serialize m) e h)
      | inr e ↦
          subst
            (λ b.
              IsSafe
                (if b
                  then send_text serialize parse cb c (serialize m)
                  else (schedule (if cb then closed_callback else closed_error) c, refused)).0)
            (sym e) (refused-IsSafe cb c h)
    ]

    pub step-IsSafe :
        (a : Action serialize parse) (c : Channel M) → IsSafe c → IsSafe (step serialize parse a c)
    unfolding step on_data
    step-IsSafe (chunk s) c h =
        if-IsSafe c.connected (receive serialize parse s c) c (receive-IsSafe s c h) h
    step-IsSafe eof c h = shutdown-IsSafe c h
    step-IsSafe call_disconnect c h = disconnect-IsSafe c h
    step-IsSafe call_ref c h = start_reader-IsSafe _ (explicit-IsSafe _ (ref-IsSafe c h))
    step-IsSafe call_unref c h = explicit-IsSafe _ (unref-IsSafe c h)
    step-IsSafe (call_send m cb) c h = send-IsSafe m cb c h
    step-IsSafe (listeners n) c h = update_ref-IsSafe n c h
    step-IsSafe (writer ok) c h = write_head-IsSafe ok c c.writes refl h

    -- Whatever happens to a channel from its set-up on, in any order: the buffer of writes is closed
    -- exactly when the channel is disconnected, and neither closed again nor written to after
    -- that; its hold on the event loop is one external operation or none, and released on
    -- disconnection; each write that waits has its operation; and 'disconnect' is scheduled
    -- once, on disconnection.
    pub run-IsSafe :
        (actions : List (Action serialize parse)) (mode : Mode) (is_child : Bool)
        → IsSafe (run serialize parse actions (setup mode is_child))
    unfolding run
    run-IsSafe actions mode is_child =
        from actions (setup mode is_child) (setup-IsSafe mode is_child)
      where
        from :
            (actions : List (Action serialize parse)) (c : Channel M)
            → IsSafe c
            → IsSafe (run serialize parse actions c)
        from [] c h = h
        from (a ∷ actions) c h = from actions (step serialize parse a c) (step-IsSafe a c h)

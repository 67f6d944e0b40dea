-- ===== src/Ipc/Channel.antt =====
-- ipcChannel of internal/host/child_process_ipc.go: its state, and what each event does to it.
use noderati.Prelude.{
  ℕ, zero, suc, ◌+◌, ◌-◌, Bool, true, false, not, ◌||◌, Option, none, some, List, [], ◌∷◌, ◌++◌,
  length, map, if◌then◌else◌,
}
use noderati.Prelude.Strings.{Bytes}
use noderati.Ipc.Frames.{Mode, encode, frames}
use noderati.Ipc.KeepAlive.{KeepAlive, new_keep_alive, ref, unref, release}

-- What the target emits while a chunk is handled; `uncaught` is a frame that does not parse.
pub data Event (M : Type 0) : Type 0 where
  message : M → Event M
  uncaught : Bytes → Event M

-- What is left to the next tick: the callback of a write with its result, the error of a closed
-- channel for a callback or for 'error', the error of a second `disconnect`, and 'disconnect'.
pub data Tick : Type 0 where
  written : Bool → Tick
  closed_callback closed_error disconnected_error disconnect_event : Tick

pub record Write : Type 0 where
  pub data_bytes : Bytes
  pub has_done : Bool

-- What `send` returns or throws.
pub data SendResult : Type 0 where
  missing_args not_serialized refused accepted : SendResult

-- `writes` is the buffer between `send` and the writer, without its bound of 1024, at which a send
-- waits. `sent` is what the writer has written, `ops` counts the external operations of the writes,
-- and `panicked` says that `writes` was closed twice or written to behind its end.
pub record Channel (M : Type 0) : Type 0 where
  pub mode : Mode
  pub connected : Bool
  pub pending : Bytes
  pub explicit : Bool
  pub started : Bool
  pub hold : KeepAlive
  pub writes : List Write
  pub writes_closed : Bool
  pub sent : Bytes
  pub ops : ℕ
  pub panicked : Bool
  pub events : List (Event M)
  pub ticks : List Tick

module _ {M : Type 0} where
  -- `setupIPCChannel`
  unfoldable pub setup : Mode → Bool → Channel M
  setup mode is_child = record {
    mode = mode;
    connected = true;
    pending = [];
    explicit = false;
    started = not is_child;
    hold = new_keep_alive (not is_child);
    writes = [];
    writes_closed = false;
    sent = [];
    ops = 0;
    panicked = false;
    events = [];
    ticks = [];
  }

  abbrev pub schedule : Tick → Channel M → Channel M
  schedule t c = record c { ticks = c.ticks ++ (t ∷ []) }

  -- `close(c.writes)`
  abbrev pub close_writes : Channel M → Channel M
  close_writes c = record c { panicked = c.panicked || c.writes_closed; writes_closed = true }

  unfoldable pub shutdown : Channel M → Channel M
  shutdown c =
      if c.connected
      then (let d = close_writes (record c { connected = false }) in
          schedule disconnect_event (record d { hold = (release d.hold).0 }))
      else c

  -- The method `disconnect` of the target.
  unfoldable pub disconnect : Channel M → Channel M
  unfolding shutdown
  disconnect c = if c.connected then shutdown c else schedule disconnected_error c

  unfoldable pub start_reader : Channel M → Channel M
  start_reader c = if c.started then c else record c { started = true }

  -- `updateRef`, from the number of listeners for 'message' and 'disconnect'
  unfoldable pub update_ref : ℕ → Channel M → Channel M
  unfolding start_reader
  update_ref zero c = if c.explicit || not c.connected then c else record c { hold = unref c.hold }
  update_ref (suc n) c =
      if c.explicit || not c.connected then c else start_reader (record c { hold = ref c.hold })

  -- The methods of `channel`.
  unfoldable pub control_ref : Channel M → Channel M
  unfolding start_reader
  control_ref c = start_reader (record c { explicit = true; hold = ref c.hold })

  unfoldable pub control_unref : Channel M → Channel M
  control_unref c = record c { explicit = true; hold = unref c.hold }

  -- One round of the writer: the write is done or fails, its callback is scheduled, and the
  -- operation ends.
  abbrev pub write_head : Bool → List Write → Channel M → Channel M
  write_head ok [] c = c
  write_head ok (w ∷ ws) c =
      let d = record c {
        writes = ws;
        sent = if ok then c.sent ++ w.data_bytes else c.sent;
        ops = c.ops - 1;
      } in
      if w.has_done then schedule (written ok) d else d

  abbrev pub write_one : Bool → Channel M → Channel M
  write_one ok c = write_head ok c.writes c

  abbrev pub event_of : Bytes → Option M → Event M
  event_of f none = uncaught f
  event_of f (some m) = message m

  -- The serializer is `v8.serialize` or `JSON.stringify`, its inverse `v8.deserialize` or
  -- `JSON.parse`.
  module _ (serialize : M → Option Bytes) (parse : Bytes → Option M) where
    -- `c.writes <- w`
    abbrev pub enqueue : Write → Channel M → Channel M
    enqueue w c = record c {
      panicked = c.panicked || c.writes_closed;
      writes = c.writes ++ (w ∷ []);
      ops = c.ops + 1;
    }

    abbrev pub send_text : Bool → Channel M → Option Bytes → Channel M × SendResult
    send_text has_callback c none = (c, not_serialized)
    send_text has_callback c (some s) =
        (enqueue (record { data_bytes = encode c.mode s; has_done = has_callback }) c, accepted)

    -- The method `send` of the target; the message is `none` where it is missing or undefined.
    unfoldable pub send : Option M → Bool → Channel M → Channel M × SendResult
    unfolding encode
    send none has_callback c = (c, missing_args)
    send (some m) has_callback c =
        if c.connected
        then send_text has_callback c (serialize m)
        else (schedule (if has_callback then closed_callback else closed_error) c, refused)

    abbrev pub event : Bytes → Event M
    event f = event_of f (parse f)

    -- The loop of `onData`; it ends within as many rounds as there are bytes.
    unfoldable pub receive : Bytes → Channel M → Channel M
    unfolding frames
    receive chunk c =
        let s = c.pending ++ chunk in
        let r = frames (suc (length s)) c.mode s in
        record c { events = c.events ++ map event r.0; pending = r.1 }

    -- `onData`
    unfoldable pub on_data : Bytes → Channel M → Channel M
    unfolding receive
    on_data chunk c = if c.connected then receive chunk c else c

    pub data Action : Type 0 where
      chunk : Bytes → Action
      eof call_disconnect call_ref call_unref : Action
      call_send : Option M → Bool → Action
      listeners : ℕ → Action
      writer : Bool → Action

    -- What one callback, call or round of the writer does.
    unfoldable pub step : Action → Channel M → Channel M
    unfolding on_data shutdown disconnect control_ref control_unref send update_ref
    step (chunk s) c = on_data s c
    step eof c = shutdown c
    step call_disconnect c = disconnect c
    step call_ref c = control_ref c
    step call_unref c = control_unref c
    step (call_send m has_callback) c = (send m has_callback c).0
    step (listeners n) c = update_ref n c
    step (writer ok) c = write_one ok c

    unfoldable pub run : List Action → Channel M → Channel M
    unfolding step
    run [] c = c
    run (a ∷ actions) c = run actions (step a c)

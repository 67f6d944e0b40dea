-- ===== src/Events/Signals.antt =====
-- The bridge of internal/host/signals.go between the listeners of `process` and the signals of the
-- operating system. A signal is its name; what a listener does is a list of operations.
use noderati.Prelude.{
  ℕ, Bool, true, false, not, ◌&&◌, ◌||◌, Option, none, some, List, [], ◌∷◌, if◌then◌else◌, ◌==◌,
}
use noderati.Prelude.Strings.{Bytes, beq, codes}
use noderati.Events.Emitter.{
  Entry, plain, wrapper, Value, once_wrapper, Emitter, listeners_of, listener_count, add_listener,
  remove_listener, remove_all_listeners,
}

unfoldable pub is_in : Bytes → List Bytes → Bool
unfolding beq
is_in s [] = false
is_in s (t ∷ ts) = beq s t || is_in s ts

abbrev pub node_signals : List Bytes
node_signals =
    codes "SIGHUP"
    ∷ codes "SIGINT"
    ∷ codes "SIGQUIT"
    ∷ codes "SIGILL"
    ∷ codes "SIGTRAP"
    ∷ codes "SIGABRT"
    ∷ codes "SIGBUS"
    ∷ codes "SIGFPE"
    ∷ codes "SIGKILL"
    ∷ codes "SIGUSR1"
    ∷ codes "SIGSEGV"
    ∷ codes "SIGUSR2"
    ∷ codes "SIGPIPE"
    ∷ codes "SIGALRM"
    ∷ codes "SIGTERM"
    ∷ codes "SIGCHLD"
    ∷ codes "SIGCONT"
    ∷ codes "SIGSTOP"
    ∷ codes "SIGTSTP"
    ∷ codes "SIGTTIN"
    ∷ codes "SIGTTOU"
    ∷ codes "SIGURG"
    ∷ codes "SIGXCPU"
    ∷ codes "SIGXFSZ"
    ∷ codes "SIGWINCH"
    ∷ codes "SIGIO"
    ∷ codes "SIGSYS"
    ∷ []

unfoldable pub bridgeable_signal : Bytes → Bool
unfolding is_in beq
bridgeable_signal name =
    is_in name node_signals
    && (not (beq name (codes "SIGKILL")) && not (beq name (codes "SIGSTOP")))

-- The signals that have a listener by the bridge's account, and those the channel is notified of.
pub record SignalBridge : Type 0 where
  pub active : List Bytes
  pub subscribed : List Bytes

pub record Process : Type 0 where
  pub emitter : Emitter
  pub bridge : SignalBridge

-- The emitter and the bridge at the start
abbrev pub started : Process
started = record {
  emitter = record { events = []; next = 0 };
  bridge = record { active = []; subscribed = [] };
}

unfoldable pub resync : SignalBridge → SignalBridge
resync b = record b { subscribed = b.active }

unfoldable pub activate : Bytes → SignalBridge → SignalBridge
unfolding is_in resync
activate s b = if is_in s b.active then b else resync (record b { active = s ∷ b.active })

unfoldable pub without : Bytes → List Bytes → List Bytes
unfolding beq
without s [] = []
without s (t ∷ ts) = let rest = without s ts in if beq s t then rest else t ∷ rest

unfoldable pub deactivate : Bytes → SignalBridge → SignalBridge
unfolding is_in without resync
deactivate s b = if is_in s b.active then resync (record b { active = without s b.active }) else b

abbrev pub is_none : List Bytes → Bool
is_none [] = true
is_none (s ∷ ss) = false

unfoldable pub deactivate_all : SignalBridge → SignalBridge
unfolding resync
deactivate_all b = if is_none b.active then b else resync (record b { active = [] })

-- A call of a method of `process` with all its arguments: on, once and their like by what they pass
-- to addListener, off, and removeAllListeners.
pub data Op : Type 0 where
  add : Bytes → Option ℕ → Bool → Bool → Op
  remove : Bytes → Value → Op
  remove_all : Option Bytes → Op

unfoldable pub register_add : Bytes → Option ℕ → Bool → Bool → Process → Process
unfolding listener_count add_listener bridgeable_signal activate
register_add event f once prepend p = record {
  emitter = add_listener event f once prepend p.emitter;
  bridge =
      if listener_count p.emitter event == 0 && bridgeable_signal event
      then activate event p.bridge
      else p.bridge;
}

-- The bridge after a removal has left these listeners.
unfoldable pub settle : Bytes → Emitter → SignalBridge → SignalBridge
unfolding listener_count bridgeable_signal deactivate
settle event e b =
    if bridgeable_signal event && listener_count e event == 0 then deactivate event b else b

unfoldable pub register_remove : Bytes → Value → Process → Process
unfolding remove_listener settle
register_remove event v p =
    let e = remove_listener event v p.emitter in
    record { emitter = e; bridge = settle event e p.bridge }

unfoldable pub register_remove_all : Option Bytes → Process → Process
unfolding remove_all_listeners deactivate_all deactivate bridgeable_signal
register_remove_all none p = record {
  emitter = remove_all_listeners none p.emitter;
  bridge = deactivate_all p.bridge;
}
register_remove_all (some event) p = record {
  emitter = remove_all_listeners (some event) p.emitter;
  bridge = if bridgeable_signal event then deactivate event p.bridge else p.bridge;
}

unfoldable pub perform : Op → Process → Process
unfolding register_add register_remove register_remove_all
perform (add event f once prepend) = register_add event f once prepend
perform (remove event v) = register_remove event v
perform (remove_all event) = register_remove_all event

unfoldable pub perform_all : List Op → Process → Process
unfolding perform
perform_all [] p = p
perform_all (o ∷ os) p = perform_all os (perform o p)

module _ (body : ℕ → List Op) where
  -- A wrapper takes itself out of the listeners of its event, past the methods of `process`.
  unfoldable pub call : Bytes → Entry → Process → Process
  unfolding perform_all remove_listener
  call event (plain f) p = perform_all (body f) p
  call event (wrapper k f) p =
      perform_all (body f) (record p { emitter = remove_listener event (once_wrapper k) p.emitter })

  unfoldable pub call_all : Bytes → List Entry → Process → Process
  unfolding call
  call_all event [] p = p
  call_all event (a ∷ arr) p = call_all event arr (call event a p)

  -- The listeners that are called are those at the beginning.
  unfoldable pub emit_on_object : Bytes → Process → Process
  unfolding call_all listeners_of
  emit_on_object event p = call_all event (listeners_of p.emitter event) p

  -- The macrotask of a signal.
  unfoldable pub deliver : Bytes → Process → Process
  unfolding emit_on_object listener_count deactivate
  deliver name p =
      let q = emit_on_object name p in
      if listener_count q.emitter name == 0
      then record q { bridge = deactivate name q.bridge }
      else q

pub data Step : Type 0 where
  performs : Op → Step
  delivers : Bytes → Step

module _ (body : ℕ → List Op) where
  -- Only the signals that a process can catch are delivered.
  unfoldable pub step : Step → Process → Process
  unfolding perform deliver
  step (performs o) p = perform o p
  step (delivers name) p = if bridgeable_signal name then deliver body name p else p

  unfoldable pub run : List Step → Process → Process
  unfolding step
  run [] p = p
  run (s ∷ ss) p = run ss (step s p)

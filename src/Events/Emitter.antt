-- ===== src/Events/Emitter.antt =====
-- The listeners of an emitter: addListener, removeListener, removeAllListeners and listenerCount of
-- internal/host/emitter.go. A function is its identity.
use noderati.Prelude.{
  ℕ, ◌+◌, ◌≡◌, Bool, false, Option, none, some, List, [], ◌∷◌, ◌++◌, if◌then◌else◌, ◌==◌, length,
  arith,
}
use noderati.Prelude.Strings.{Bytes, beq, beq_refl, beq→eq}

-- What an array of listeners holds: a function, or the wrapper that `once` makes of one.
pub data Entry : Type 0 where
  plain : ℕ → Entry
  wrapper : ℕ → ℕ → Entry

-- What is given to `off`.
pub data Value : Type 0 where
  function : ℕ → Value
  once_wrapper : ℕ → Value
  not_callable : Value

abbrev pub Table : Type 0
Table = List (Bytes × List Entry)

-- The table `_events`, and the identity of the next wrapper.
pub record Emitter : Type 0 where
  pub events : Table
  pub next : ℕ

unfoldable pub get_own : Bytes → Table → Option (List Entry)
unfolding beq
get_own event [] = none
get_own event ((k, arr) ∷ t) = let rest = get_own event t in if beq event k then some arr else rest

unfoldable pub set_own : Bytes → List Entry → Table → Table
unfolding beq
set_own event arr [] = (event, arr) ∷ []
set_own event arr ((k, old) ∷ t) =
    let rest = set_own event arr t in if beq event k then (k, arr) ∷ t else (k, old) ∷ rest

abbrev pub or_empty : Option (List Entry) → List Entry
or_empty none = []
or_empty (some arr) = arr

-- The listeners of an event in their order.
unfoldable pub listeners_of : Emitter → Bytes → List Entry
unfolding get_own
listeners_of e event = or_empty (get_own event e.events)

unfoldable pub listener_count : Emitter → Bytes → ℕ
unfolding listeners_of
listener_count e event = length (listeners_of e event)

unfoldable pub entry_of : Emitter → ℕ → Bool → Entry
entry_of e f once = if once then wrapper e.next f else plain f

-- `none` is a listener that is not callable.
unfoldable pub add_listener : Bytes → Option ℕ → Bool → Bool → Emitter → Emitter
unfolding listeners_of set_own entry_of
add_listener event none once prepend e = e
add_listener event (some f) once prepend e =
    let arr = listeners_of e event in
    let fn = entry_of e f once in
    record {
      events = set_own event (if prepend then fn ∷ arr else arr ++ (fn ∷ [])) e.events;
      next = e.next + 1;
    }

-- `arr.Get(i) == listener`
abbrev pub is_entry : Value → Entry → Bool
is_entry (function f) (plain g) = f == g
is_entry (function f) (wrapper k g) = false
is_entry (once_wrapper j) (plain g) = false
is_entry (once_wrapper j) (wrapper k g) = j == k
is_entry not_callable a = false

unfoldable pub remove_first : Value → List Entry → List Entry
remove_first v [] = []
remove_first v (a ∷ arr) = let rest = remove_first v arr in if is_entry v a then arr else a ∷ rest

unfoldable pub remove_at : Bytes → Value → Emitter → Option (List Entry) → Emitter
unfolding set_own remove_first
remove_at event v e none = e
remove_at event v e (some arr) = record e { events = set_own event (remove_first v arr) e.events }

unfoldable pub remove_listener : Bytes → Value → Emitter → Emitter
unfolding remove_at get_own
remove_listener event v e = remove_at event v e (get_own event e.events)

unfoldable pub clear_at : Bytes → Emitter → Option (List Entry) → Emitter
unfolding set_own
clear_at event e none = e
clear_at event e (some arr) = record e { events = set_own event [] e.events }

-- Of one event, or of every event.
unfoldable pub remove_all_listeners : Option Bytes → Emitter → Emitter
unfolding clear_at get_own
remove_all_listeners none e = record e { events = [] }
remove_all_listeners (some event) e = clear_at event e (get_own event e.events)

pub get_own-set_own :
    (event other : Bytes) (arr : List Entry) (t : Table)
    → or_empty (get_own other (set_own event arr t))
      ≡ (if beq other event then arr else or_empty (get_own other t))
unfolding get_own set_own
get_own-set_own event other arr [] = ground arith
get_own-set_own event other arr ((k, old) ∷ t) = grind (
  arith,
  get_own-set_own event other arr t,
  beq→eq event k,
  beq→eq other k,
  beq→eq other event,
  beq_refl other,
  beq_refl event,
)

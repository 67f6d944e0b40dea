-- ===== src/Events/Delivered.antt =====
-- A signal's delivery leaves the bridge in agreement with the listeners.
use noderati.Prelude.{Bool, true, not}
use noderati.Prelude.Strings.{Bytes, beq}
use noderati.Events.Signals.{Step, performs, delivers}
use noderati.Events.Bridged.{Bridged, IsCallable}

abbrev always : Bytes → Bool
always s = true

-- While a signal is delivered, its own listeners may be gone and the signal still active.
abbrev but : Bytes → Bytes → Bool
but name s = not (beq s name)

abbrev pub CallableStep : Step → Type 0
CallableStep (performs o) = IsCallable o
CallableStep (delivers name) = Unit

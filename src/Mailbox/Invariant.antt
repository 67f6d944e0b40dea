-- ===== src/Mailbox/Invariant.antt =====
-- What holds of a mailbox whatever is done to it.
use noderati.Prelude.{ℕ, ◌≡◌, Bool, true, false, List, [], ◌∷◌, arith}
use noderati.Mailbox.{
  Mailbox, new, is_nil, want, Action, attaches, refs_up, refs_down, closes, wakes_up, begins,
  rounds, pushes, sets, step, run, update_hold_locked,
}

abbrev pub as_number : Bool → ℕ
as_number true = 1
as_number false = 0

-- `held` is what it ought to be, and is the one external operation that the mailbox has begun;
-- `scheduled` is the one macrotask that will drain it, and mail that can be delivered has one; a
-- closed mailbox has no mail waiting.
pub record IsValid (m : Mailbox) : Type 0 where
  pub hold_wanted : m.held ≡ want m
  pub op_held : m.ops ≡ as_number m.held
  pub drain_scheduled : m.drains ≡ as_number m.scheduled
  pub mail_scheduled : m.attached ≡ true → is_nil m.queue ≡ false → m.scheduled ≡ true
  pub closed_empty : m.closed ≡ true → m.queue ≡ []

-- All but what `schedule_locked` and `update_hold_locked` establish.
record IsSettled (m : Mailbox) : Type 0 where
  op_held : m.ops ≡ as_number m.held
  drain_scheduled : m.drains ≡ as_number m.scheduled
  mail_scheduled : m.attached ≡ true → is_nil m.queue ≡ false → m.scheduled ≡ true
  closed_empty : m.closed ≡ true → m.queue ≡ []

update_hold_locked-IsValid : (m : Mailbox) → IsSettled m → IsValid (update_hold_locked m)
unfolding update_hold_locked
update_hold_locked-IsValid m h = ground arith

-- A new mailbox is valid.
pub new-IsValid : (n : ℕ) → IsValid (new n)
new-IsValid n = ground arith

pub step-IsValid : (a : Action) (m : Mailbox) → IsValid m → IsValid (step a m)
unfolding step
step-IsValid attaches m v = ground arith
step-IsValid (pushes x) m v = ground arith
step-IsValid refs_up m v = ground arith
step-IsValid refs_down m v = ground arith
step-IsValid (sets n) m v = ground arith
step-IsValid closes m v = ground arith
step-IsValid wakes_up m v = ground arith
step-IsValid begins m v = ground arith
step-IsValid rounds m v = ground arith

run-keeps_IsValid : (acts : List Action) (m : Mailbox) → IsValid m → IsValid (run acts m)
unfolding run
run-keeps_IsValid [] m v = v
run-keeps_IsValid (a ∷ acts) m v = run-keeps_IsValid acts (step a m) (step-IsValid a m v)

-- Under every interleaving of calls and macrotasks, from a new mailbox: the mailbox holds the event
-- loop exactly while it is attached, referenced and open, by one external operation that it has
-- begun and not ended; a macrotask that drains it is pending exactly when `scheduled` is set, and
-- never two; while it is attached, waiting mail has such a macrotask; a closed one has no mail.
pub run-IsValid : (acts : List Action) (n : ℕ) → IsValid (run acts (new n))
run-IsValid acts n = run-keeps_IsValid acts (new n) (new-IsValid n)

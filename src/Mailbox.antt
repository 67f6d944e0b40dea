-- ===== src/Mailbox.antt =====
-- The mailbox of internal/host/worker_runtime.go: one receiving end, owned by one VM, into which any
-- goroutine pushes. A method runs under the mailbox's lock, so it is one step; `drain` gives the
-- lock back between two deliveries, so it is several.
pub mod Invariant
pub mod Delivery
pub mod Tests
use noderati.Prelude.{
  ℕ, zero, suc, ◌+◌, ◌-◌, Bool, true, false, not, ◌&&◌, ◌||◌, List, [], ◌∷◌, ◌++◌, if◌then◌else◌,
  ltb,
}
use noderati.Prelude.Strings.{Bytes, beq, codes}

pub record Mail : Type 0 where
  pub kind : Bytes
  pub from : ℕ
  pub payload : Bytes

-- The mailbox, its runtime and what its owner has received. `attached` says that `rt` and `deliver`
-- are set. `drains` counts the macrotasks of the runtime that will call `drain`, `wakes` those that
-- do nothing, and `ops` the external operations that the mailbox has begun and not ended.
-- `in_flight` is the rest of the local `q` of a running `drain`.
pub record Mailbox : Type 0 where
  pub attached : Bool
  pub queue : List Mail
  pub scheduled : Bool
  pub closed : Bool
  pub refs : ℕ
  pub held : Bool
  pub drains : ℕ
  pub wakes : ℕ
  pub ops : ℕ
  pub in_flight : List Mail
  pub delivered : List Mail

-- `&mailbox{refs: n}`
abbrev pub new : ℕ → Mailbox
new n = record {
  attached = false;
  queue = [];
  scheduled = false;
  closed = false;
  refs = n;
  held = false;
  drains = 0;
  wakes = 0;
  ops = 0;
  in_flight = [];
  delivered = [];
}

abbrev pub is_nil : List Mail → Bool
is_nil [] = true
is_nil (m ∷ ms) = false

pub schedule_locked : Mailbox → Mailbox
schedule_locked m =
    if not m.attached || (m.scheduled || (m.closed || is_nil m.queue))
    then m
    else record m { scheduled = true; drains = m.drains + 1 }

-- What `held` ought to be.
abbrev pub want : Mailbox → Bool
want m = m.attached && (ltb 0 m.refs && not m.closed)

pub update_hold_locked : Mailbox → Mailbox
update_hold_locked m =
    if want m && not m.held
    then record m { held = true; ops = m.ops + 1 }
    else if not (want m) && m.held
    then record m { held = false; ops = m.ops - 1 }
    else m

pub attach : Mailbox → Mailbox
unfolding schedule_locked update_hold_locked
attach m = update_hold_locked (schedule_locked (record m { attached = true }))

-- The mailbox and whether the mail was taken.
unfoldable pub push : Mail → Mailbox → Mailbox × Bool
unfolding schedule_locked
push x m =
    if m.closed
    then (m, false)
    else (schedule_locked (record m { queue = m.queue ++ (x ∷ []) }), true)

-- `drain` up to the loop: the macrotask has started.
unfoldable pub drain_begin : Mailbox → Mailbox
drain_begin m = record m {
  scheduled = false;
  in_flight = m.queue;
  queue = [];
  drains = m.drains - 1;
}

-- A mail that a closed mailbox still delivers.
abbrev pub is_exit : Mail → Bool
is_exit x = beq x.kind (codes "exit")

-- One round of the loop of `drain`, for the mail `x` with `rest` behind it.
unfoldable pub drain_round : Mail → List Mail → Mailbox → Mailbox
drain_round x rest m =
    if m.closed && not (is_exit x)
    then record m { in_flight = rest }
    else record m { in_flight = rest; delivered = m.delivered ++ (x ∷ []) }

unfoldable pub drain_next : List Mail → Mailbox → Mailbox
unfolding drain_round
drain_next [] m = m
drain_next (x ∷ rest) m = drain_round x rest m

unfoldable pub ref : Mailbox → Mailbox
unfolding update_hold_locked
ref m = update_hold_locked (record m { refs = m.refs + 1 })

-- `-` on ℕ stops at 0, which is the guard of the source.
unfoldable pub unref : Mailbox → Mailbox
unfolding update_hold_locked
unref m = update_hold_locked (record m { refs = m.refs - 1 })

unfoldable pub set_refs : ℕ → Mailbox → Mailbox
unfolding update_hold_locked
set_refs n m = update_hold_locked (record m { refs = n })

unfoldable pub close : Mailbox → Mailbox
unfolding update_hold_locked
close m = update_hold_locked (record m { closed = true; queue = [] })

unfoldable pub wake : Mailbox → Mailbox
wake m = if m.attached then record m { wakes = m.wakes + 1 } else m

-- What may happen next. A macrotask starts only where the runtime has one for this mailbox and no
-- other macrotask runs.
pub data Action : Type 0 where
  attaches refs_up refs_down closes wakes_up begins rounds : Action
  pushes : Mail → Action
  sets : ℕ → Action

unfoldable pub step : Action → Mailbox → Mailbox
unfolding attach push drain_begin drain_next ref unref set_refs close wake
step attaches m = attach m
step (pushes x) m = (push x m).0
step refs_up m = ref m
step refs_down m = unref m
step (sets n) m = set_refs n m
step closes m = close m
step wakes_up m = wake m
step begins m = if ltb 0 m.drains && is_nil m.in_flight then drain_begin m else m
step rounds m = drain_next m.in_flight m

-- Any interleaving, the first action first.
unfoldable pub run : List Action → Mailbox → Mailbox
run [] m = m
run (a ∷ acts) m = run acts (step a m)

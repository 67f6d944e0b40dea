-- ===== src/Mailbox/Delivery.antt =====
-- What is delivered: everything, once and in order, until the mailbox is closed, and then nothing
-- but exits.
use mathlib.Core.Path.{subst}
use noderati.Prelude.{
  ◌≡◌, refl, sym, ap, ◌∙◌, Bool, true, false, List, [], ◌∷◌, ◌++◌, append-nil, append_assoc,
  if◌then◌else◌, arith, All, length, replicate, inl, inr, Bool-cases, ltb, ◌&&◌,
}
use noderati.Mailbox.{
  Mail, Mailbox, is_nil, is_exit, Action, attaches, refs_up, refs_down, closes, wakes_up, begins,
  rounds, pushes, sets, step, run, push, drain_next, drain_begin,
}
use noderati.Mailbox.Invariant.{IsValid}

-- The mail that an action pushes.
abbrev pub pushed_by : Action → List Mail
pushed_by (pushes x) = x ∷ []
pushed_by _ = []

unfoldable pub pushed : List Action → List Mail
pushed [] = []
pushed (a ∷ acts) = pushed_by a ++ pushed acts

abbrev pub is_close : Action → Bool
is_close closes = true
is_close _ = false

-- All mail that a mailbox has seen and not dropped, the oldest first.
abbrev pub kept : Mailbox → List Mail
kept m = m.delivered ++ (m.in_flight ++ m.queue)

drain_next-kept :
    (l : List Mail) (m : Mailbox)
    → m.in_flight ≡ l
    → m.closed ≡ false
    → (kept (drain_next l m) ≡ kept m ++ []) × ((drain_next l m).closed ≡ false)
unfolding drain_next
drain_next-kept [] m e k = (sym (append-nil (kept m)), k)
drain_next-kept (x ∷ rest) m e k = (
  ground (arith, append-nil (kept m), append_assoc m.delivered (x ∷ []) (rest ++ m.queue)),
  ground arith,
)

step-kept :
    (a : Action) (m : Mailbox)
    → is_close a ≡ false
    → m.closed ≡ false
    → (kept (step a m) ≡ kept m ++ pushed_by a) × ((step a m).closed ≡ false)
unfolding step
step-kept attaches m h k = (ground (arith, append-nil (kept m)), ground arith)
step-kept (pushes x) m h k = (
  ground (
    arith,
    append_assoc m.delivered (m.in_flight ++ m.queue) (x ∷ []),
    append_assoc m.in_flight m.queue (x ∷ []),
  ),
  ground arith,
)
step-kept refs_up m h k = (ground (arith, append-nil (kept m)), ground arith)
step-kept refs_down m h k = (ground (arith, append-nil (kept m)), ground arith)
step-kept (sets n) m h k = (ground (arith, append-nil (kept m)), ground arith)
step-kept closes m h k = absurd (cc)
step-kept wakes_up m h k = (ground (arith, append-nil (kept m)), ground arith)
step-kept begins m h k = (ground (arith, append-nil (kept m), append-nil m.queue), ground arith)
step-kept rounds m h k = drain_next-kept m.in_flight m refl k

-- While the mailbox is not closed nothing is lost, doubled or reordered: what has been delivered,
-- what a running drain still holds and what waits are, in this order, what they were at first with
-- the mail pushed since behind it.
pub run-kept :
    (acts : List Action) (m : Mailbox)
    → All (λ a. is_close a ≡ false) acts
    → m.closed ≡ false
    → (kept (run acts m) ≡ kept m ++ pushed acts) × ((run acts m).closed ≡ false)
unfolding run pushed
run-kept [] m h k = (sym (append-nil (kept m)), k)
run-kept (a ∷ acts) m h k =
    let (e, k') = step-kept a m h.0 k in
    let (f, k'') = run-kept acts (step a m) h.1 k' in
    (f ∙ ap (λ l. l ++ pushed acts) e ∙ append_assoc (kept m) (pushed_by a) (pushed acts), k'')

-- The mail delivered by `m'` beyond what `m` had delivered is all exits.
abbrev pub OnlyExits : Mailbox → Mailbox → Type 0
OnlyExits m m' =
    (ms : List Mail) × (m'.delivered ≡ m.delivered ++ ms)
    × All (λ x. is_exit x ≡ true) ms
    × (m'.closed ≡ true)

drain_next-OnlyExits :
    (l : List Mail) (m : Mailbox) → m.closed ≡ true → OnlyExits m (drain_next l m)
unfolding drain_next
drain_next-OnlyExits [] m h = ([], sym (append-nil m.delivered), tt, h)
drain_next-OnlyExits (x ∷ rest) m h = elim (Bool-cases (is_exit x)) [
  | inl e ↦ (x ∷ [], ground arith, (e, tt), ground arith)
  | inr e ↦ ([], ground (arith, append-nil m.delivered), tt, ground arith)
]

step-OnlyExits : (a : Action) (m : Mailbox) → m.closed ≡ true → OnlyExits m (step a m)
unfolding step
step-OnlyExits rounds m h = drain_next-OnlyExits m.in_flight m h
step-OnlyExits a m h = ([], ground (arith, append-nil m.delivered), tt, ground arith)

All-append :
    (xs ys : List Mail)
    → All (λ x. is_exit x ≡ true) xs
    → All (λ x. is_exit x ≡ true) ys
    → All (λ x. is_exit x ≡ true) (xs ++ ys)
All-append [] ys h k = k
All-append (x ∷ xs) ys h k = (h.0, All-append xs ys h.1 k)

-- Once the mailbox is closed it stays closed, refuses each push, and whatever happens delivers only
-- mail of the kind "exit".
pub run-OnlyExits :
    (acts : List Action) (m : Mailbox)
    → m.closed ≡ true
    → OnlyExits m (run acts m) × ((x : Mail) → push x (run acts m) ≡ (run acts m, false))
unfolding run
run-OnlyExits [] m h = (([], sym (append-nil m.delivered), tt, h), λ x. refused x m h)
  where
    refused : (x : Mail) (m : Mailbox) → m.closed ≡ true → push x m ≡ (m, false)
    refused x m h = unfold push in ground arith
run-OnlyExits (a ∷ acts) m h =
    let (xs, e, all, h') = step-OnlyExits a m h in
    let ((ys, f, all', h''), no_push) = run-OnlyExits acts (step a m) h' in
    (
      (
        xs ++ ys,
        f ∙ ap (λ l. l ++ ys) e ∙ append_assoc m.delivered xs ys,
        All-append xs ys all all',
        h'',
      ),
      no_push,
    )

-- The rounds of a drain deliver all that it holds.
abbrev Delivers : List Mail → List Mail → List Mail → Mailbox → Type 0
Delivers before l waiting m' =
    (m'.delivered ≡ before ++ l) × (m'.in_flight ≡ []) × (m'.queue ≡ waiting)

drain_next-open :
    (x : Mail) (l : List Mail) (m : Mailbox)
    → m.closed ≡ false
    → drain_next (x ∷ l) m ≡ record m { in_flight = l; delivered = m.delivered ++ (x ∷ []) }
unfolding drain_next
drain_next-open x l m k = ground arith

rounds_deliver :
    (l : List Mail) (m : Mailbox)
    → m.in_flight ≡ l
    → m.closed ≡ false
    → Delivers m.delivered l m.queue (run (replicate (length l) rounds) m)
unfolding run step
rounds_deliver [] m e k = (sym (append-nil m.delivered), e, refl)
rounds_deliver (x ∷ l) m e k =
    let m' = record m { in_flight = l; delivered = m.delivered ++ (x ∷ []) } in
    let first : step rounds m ≡ m' = ap (λ i. drain_next i m) e ∙ drain_next-open x l m k in
    let (d, i, q) = rounds_deliver l m' refl k in
    subst (λ s. Delivers m.delivered (x ∷ l) m.queue (run (replicate (length l) rounds) s))
      (sym first) (d ∙ append_assoc m.delivered (x ∷ []) l, i, q)

-- Waiting mail is delivered: where no drain is running, the mailbox is attached and open and its
-- invariant holds, mail that waits has a macrotask pending, and the macrotask, uninterrupted,
-- delivers all of it in order.
pub drain-delivers :
    (m : Mailbox)
    → IsValid m
    → m.attached ≡ true
    → m.closed ≡ false
    → m.in_flight ≡ []
    → is_nil m.queue ≡ false
    → let m' = run (begins ∷ replicate (length m.queue) rounds) m in
      (m'.delivered ≡ m.delivered ++ m.queue) × (m'.in_flight ≡ []) × (m'.queue ≡ [])
unfolding run step drain_begin
drain-delivers m v a c f q =
    let starts : (ltb 0 m.drains && is_nil m.in_flight) ≡ true =
      ground (arith, v.mail_scheduled a q) in
    subst
      (λ t.
        Delivers m.delivered m.queue []
          (run (replicate (length m.queue) rounds) (if t then drain_begin m else m)))
      (sym starts) (rounds_deliver m.queue (drain_begin m) refl c)

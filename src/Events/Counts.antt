-- ===== src/Events/Counts.antt =====
-- What each operation does to the number of listeners of each event, and to the active signals.
use noderati.Prelude.{
  ℕ, suc, ◌+◌, ◌≤◌, ◌≡◌, refl, sym, ap, ◌∙◌, Bool, true, false, not, ◌&&◌, ◌||◌, Option, none, some,
  List, [], ◌∷◌, ◌++◌, if◌then◌else◌, length, length-append, arith, inl, inr, if-false, Bool-cases,
}
use noderati.Prelude.Strings.{Bytes, beq, beq_refl, beq→eq}
use noderati.Events.Emitter.{
  Entry, Value, Emitter, get_own, set_own, or_empty, listeners_of, listener_count, entry_of,
  add_listener, remove_first, remove_at, remove_listener, clear_at, remove_all_listeners,
  get_own-set_own,
}
use noderati.Events.Signals.{
  is_in, SignalBridge, resync, activate, without, deactivate, deactivate_all,
}

length-chosen :
    (b : Bool) (xs ys : List Entry)
    → length (if b then xs else ys) ≡ (if b then length xs else length ys)
length-chosen true xs ys = refl
length-chosen false xs ys = refl

-- The count of an event after its array, or that of another event, has been set.
count_set :
    (e : Emitter) (event s : Bytes) (arr : List Entry) (n : ℕ)
    → listener_count (record { events = set_own event arr e.events; next = n }) s
      ≡ (if beq s event then length arr else listener_count e s)
unfolding listener_count listeners_of
count_set e event s arr n =
    ap length (get_own-set_own event s arr e.events)
    ∙ length-chosen (beq s event) arr (or_empty (get_own s e.events))

length-placed :
    (prepend : Bool) (fn : Entry) (arr : List Entry)
    → length (if prepend then fn ∷ arr else arr ++ (fn ∷ [])) ≡ suc (length arr)
length-placed true fn arr = refl
length-placed false fn arr = omega (arith, length-append arr (fn ∷ []))

pub count-add_listener :
    (e : Emitter) (event s : Bytes) (f : ℕ) (once prepend : Bool)
    → listener_count (add_listener event (some f) once prepend e) s
      ≡ (if beq s event then suc (listener_count e event) else listener_count e s)
unfolding add_listener listener_count
count-add_listener e event s f once prepend =
    count_set e event s _ (e.next + 1)
    ∙ ap (λ n. if beq s event then n else listener_count e s)
        (length-placed prepend (entry_of e f once) (listeners_of e event))

length-remove_first : (v : Value) (arr : List Entry) → length (remove_first v arr) ≤ length arr
unfolding remove_first
length-remove_first v [] = omega arith
length-remove_first v (a ∷ arr) = ground (arith, length-remove_first v arr)

count-get_own :
    (e : Emitter) (event : Bytes) (arr : List Entry)
    → get_own event e.events ≡ some arr
    → listener_count e event ≡ length arr
unfolding listener_count listeners_of
count-get_own e event arr h = ap (λ o. length (or_empty o)) h

count_none :
    (e : Emitter) (event : Bytes) → get_own event e.events ≡ none → listener_count e event ≡ 0
unfolding listener_count listeners_of
count_none e event h = ap (λ o. length (or_empty o)) h

abbrev Removes : Emitter → Bytes → Bytes → Emitter → Type 0
Removes e event s f =
    (beq s event ≡ false → listener_count f s ≡ listener_count e s)
    × (listener_count f event ≤ listener_count e event)

removed_at :
    (e : Emitter) (event s : Bytes) (v : Value) (o : Option (List Entry))
    → get_own event e.events ≡ o
    → Removes e event s (remove_at event v e o)
unfolding remove_at
removed_at e event s v none h = (λ k. refl, omega arith)
removed_at e event s v (some arr) h =
    let before : listener_count e event ≡ length arr = count-get_own e event arr h in
    let fewer = length-remove_first v arr in
    let own = count_set e event event (remove_first v arr) e.next in
    (
      λ k.
          count_set e event s (remove_first v arr) e.next
          ∙ if-false (beq s event) (length (remove_first v arr)) (listener_count e s)
              (listener_count e s) k refl,
      ground (arith, before, fewer, own, beq_refl event),
    )

-- Removing a listener takes none away from the other events, and adds none to its own.
pub count-remove_listener :
    (e : Emitter) (event s : Bytes) (v : Value) → Removes e event s (remove_listener event v e)
unfolding remove_listener
count-remove_listener e event s v = removed_at e event s v (get_own event e.events) refl

cleared_at :
    (e : Emitter) (event s : Bytes) (o : Option (List Entry))
    → get_own event e.events ≡ o
    → listener_count (clear_at event e o) s ≡ (if beq s event then 0 else listener_count e s)
unfolding clear_at
cleared_at e event s none h = elim (Bool-cases (beq s event)) [
  | inl k ↦
      ap (listener_count e) (beq→eq s event k)
      ∙ count_none e event h
      ∙ ap (λ b. if b then 0 else listener_count e s) (sym k)
  | inr k ↦ ap (λ b. if b then 0 else listener_count e s) (sym k)
]
cleared_at e event s (some arr) h = count_set e event s [] e.next

pub count-remove_all_listeners :
    (e : Emitter) (event s : Bytes)
    → listener_count (remove_all_listeners (some event) e) s
      ≡ (if beq s event then 0 else listener_count e s)
unfolding remove_all_listeners
count-remove_all_listeners e event s = cleared_at e event s (get_own event e.events) refl

pub count-remove_everything :
    (e : Emitter) (s : Bytes) → listener_count (remove_all_listeners none e) s ≡ 0
unfolding remove_all_listeners listener_count listeners_of get_own
count-remove_everything e s = refl

is_in-without :
    (s t : Bytes) (ss : List Bytes) → is_in s (without t ss) ≡ (not (beq s t) && is_in s ss)
unfolding is_in without
is_in-without s t [] = ground arith
is_in-without s t (u ∷ us) =
    grind (arith, is_in-without s t us, beq→eq t u, beq→eq s u, beq→eq s t, beq_refl s, beq_refl t)

pub is_in-activate :
    (s t : Bytes) (b : SignalBridge) → is_in s (activate t b).active ≡ (beq s t || is_in s b.active)
unfolding activate resync is_in
is_in-activate s t b = grind (arith, beq→eq s t)

pub is_in-deactivate :
    (s t : Bytes) (b : SignalBridge)
    → is_in s (deactivate t b).active ≡ (not (beq s t) && is_in s b.active)
unfolding deactivate resync
is_in-deactivate s t b = grind (arith, beq→eq s t, is_in-without s t b.active)

emptied :
    (s : Bytes) (ss subscribed : List Bytes)
    → is_in s (deactivate_all (record { active = ss; subscribed = subscribed })).active ≡ false
unfolding deactivate_all resync is_in
emptied s [] subscribed = refl
emptied s (t ∷ ts) subscribed = refl

pub is_in-deactivate_all :
    (s : Bytes) (b : SignalBridge) → is_in s (deactivate_all b).active ≡ false
is_in-deactivate_all s b = emptied s b.active b.subscribed

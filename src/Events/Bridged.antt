-- ===== src/Events/Bridged.antt =====
-- The signals that the bridge intercepts are those that have a listener.
use mathlib.Core.Path.{subst}
use noderati.Prelude.{
  ℕ, suc, ◌≤◌, ◌<◌, ◌≡◌, refl, sym, Bool, true, false, ◌&&◌, Option, none, some, List, [], ◌∷◌,
  if◌then◌else◌, ◌==◌, arith, inl, inr, Bool-cases, All,
}
use noderati.Prelude.Strings.{Bytes, beq, beq_refl, beq→eq}
use noderati.Events.Emitter.{Value, listener_count, remove_listener}
use noderati.Events.Signals.{
  is_in, bridgeable_signal, SignalBridge, Process, resync, activate, deactivate, deactivate_all, Op,
  add, remove, remove_all, settle, register_add, register_remove, register_remove_all, perform,
  perform_all,
}
use noderati.Events.Counts.{
  count-add_listener, count-remove_listener, count-remove_all_listeners, count-remove_everything,
  is_in-activate, is_in-deactivate, is_in-deactivate_all,
}

-- Of one signal: it is active if it has a listener, and only if it can be bridged and, if `strict`,
-- has a listener.
abbrev pub Agree : Bool → Bool → ℕ → Bool → Type 0
Agree strict bridgeable n active =
    ((bridgeable ≡ true) → (0 < n) → active ≡ true)
    × (((active ≡ true) → bridgeable ≡ true) × ((strict ≡ true) → (active ≡ true) → 0 < n))

abbrev pub AgreeAt : (Bytes → Bool) → Bytes → Process → Type 0
AgreeAt strict s p =
    Agree (strict s) (bridgeable_signal s) (listener_count p.emitter s) (is_in s p.bridge.active)

-- Of every signal; the channel is notified of the active ones.
pub record Bridged (strict : Bytes → Bool) (p : Process) : Type 0 where
  pub agree : (s : Bytes) → AgreeAt strict s p
  pub synced : p.bridge.subscribed ≡ p.bridge.active

abbrev pub IsCallable : Op → Type 0
IsCallable (add event none once prepend) = true ≡ false
IsCallable (add event (some f) once prepend) = Unit
IsCallable (remove event v) = Unit
IsCallable (remove_all event) = Unit

synced-activate :
    (s : Bytes) (b : SignalBridge)
    → b.subscribed ≡ b.active
    → (activate s b).subscribed ≡ (activate s b).active
unfolding activate resync
synced-activate s b h = ground arith

pub synced-deactivate :
    (s : Bytes) (b : SignalBridge)
    → b.subscribed ≡ b.active
    → (deactivate s b).subscribed ≡ (deactivate s b).active
unfolding deactivate resync
synced-deactivate s b h = ground arith

synced-deactivate_all :
    (b : SignalBridge)
    → b.subscribed ≡ b.active
    → (deactivate_all b).subscribed ≡ (deactivate_all b).active
unfolding deactivate_all resync
synced-deactivate_all b h = ground arith

pub moved :
    (strict bridgeable : Bool) (n m : ℕ) (i j : Bool)
    → Agree strict bridgeable n i
    → m ≡ n
    → j ≡ i
    → Agree strict bridgeable m j
moved strict bridgeable n m i j h e f =
    subst (Agree strict bridgeable m) (sym f) (subst (λ k. Agree strict bridgeable k i) (sym e) h)

Agree-added :
    (strict bridgeable : Bool) (n : ℕ) (i : Bool)
    → Agree strict bridgeable n i
    → Agree strict bridgeable (suc n) (if n == 0 && bridgeable then true else i)
Agree-added strict bridgeable n i (a, (b, c)) = ground arith

Agree-fewer :
    (strict bridgeable : Bool) (n m : ℕ) (i : Bool)
    → Agree strict bridgeable n i
    → m ≤ n
    → Agree strict bridgeable m (if bridgeable && m == 0 then false else i)
Agree-fewer strict bridgeable n m i (a, (b, c)) h = ground arith

-- What the operations on one event leave as it is.
abbrev Elsewhere : Bytes → Process → Process → Type 0
Elsewhere event p q =
    (s : Bytes)
    → beq s event ≡ false
    → (listener_count q.emitter s ≡ listener_count p.emitter s)
      × (is_in s q.bridge.active ≡ is_in s p.bridge.active)

if-active :
    (t : Bool) (s : Bytes) (b c : SignalBridge)
    → is_in s (if t then b else c).active ≡ (if t then is_in s b.active else is_in s c.active)
if-active true s b c = refl
if-active false s b c = refl

if-synced :
    (t : Bool) (b c : SignalBridge)
    → b.subscribed ≡ b.active
    → c.subscribed ≡ c.active
    → (if t then b else c).subscribed ≡ (if t then b else c).active
if-synced true b c h k = h
if-synced false b c h k = k

module _ (strict : Bytes → Bool) where
  pub everywhere :
      (event : Bytes) (p q : Process)
      → Bridged strict p
      → AgreeAt strict event q
      → Elsewhere event p q
      → (s : Bytes) → AgreeAt strict s q
  everywhere event p q h here there s = elim (Bool-cases (beq s event)) [
    | inl e ↦ subst (λ t. AgreeAt strict t q) (sym (beq→eq s event e)) here
    | inr e ↦ moved (strict s) (bridgeable_signal s) _ _ _ _ (h.agree s) (there s e).0 (there s e).1
  ]

  register_add-Bridged :
      (event : Bytes) (f : ℕ) (once prepend : Bool) (p : Process)
      → Bridged strict p
      → Bridged strict (register_add event (some f) once prepend p)
  unfolding register_add
  register_add-Bridged event f once prepend p h =
      let first = listener_count p.emitter event == 0 && bridgeable_signal event in
      let count = λ (s : Bytes). count-add_listener p.emitter event s f once prepend in
      let now = λ (s : Bytes). if-active first s (activate event p.bridge) p.bridge in
      record {
        agree =
            everywhere event p (register_add event (some f) once prepend p) h
              (moved (strict event) (bridgeable_signal event) _ _ _ _
                (Agree-added (strict event) (bridgeable_signal event)
                  (listener_count p.emitter event) (is_in event p.bridge.active) (h.agree event))
                (ground (arith, count event, beq_refl event))
                (ground (arith, now event, is_in-activate event event p.bridge, beq_refl event)))
              (λ s e. (
                ground (arith, count s, e),
                ground (arith, now s, is_in-activate s event p.bridge, e),
              ));
        synced =
            if-synced first (activate event p.bridge) p.bridge
              (synced-activate event p.bridge h.synced) h.synced;
      }

  register_remove-Bridged :
      (event : Bytes) (v : Value) (p : Process)
      → Bridged strict p
      → Bridged strict (register_remove event v p)
  unfolding register_remove settle
  register_remove-Bridged event v p h =
      let left = remove_listener event v p.emitter in
      let last = bridgeable_signal event && listener_count left event == 0 in
      let now = λ (s : Bytes). if-active last s (deactivate event p.bridge) p.bridge in
      record {
        agree =
            everywhere event p (register_remove event v p) h
              (moved (strict event) (bridgeable_signal event) _ _ _ _
                (Agree-fewer (strict event) (bridgeable_signal event)
                  (listener_count p.emitter event) (listener_count left event)
                  (is_in event p.bridge.active) (h.agree event)
                  (count-remove_listener p.emitter event event v).1)
                refl
                (ground (arith, now event, is_in-deactivate event event p.bridge, beq_refl event)))
              (λ s e. (
                (count-remove_listener p.emitter event s v).0 e,
                ground (arith, now s, is_in-deactivate s event p.bridge, e),
              ));
        synced =
            if-synced last (deactivate event p.bridge) p.bridge
              (synced-deactivate event p.bridge h.synced) h.synced;
      }

  register_remove_all-Bridged :
      (o : Option Bytes) (p : Process) → Bridged strict p → Bridged strict (register_remove_all o p)
  unfolding register_remove_all
  register_remove_all-Bridged none p h = record {
    agree = λ s.
        moved (strict s) (bridgeable_signal s) 0 _ false _
          ((λ b k. absurd (omega (arith, k))), ((λ i. cc), (λ t i. cc)))
          (count-remove_everything p.emitter s) (is_in-deactivate_all s p.bridge);
    synced = synced-deactivate_all p.bridge h.synced;
  }
  register_remove_all-Bridged (some event) p h =
      let known = bridgeable_signal event in
      let count = λ (s : Bytes). count-remove_all_listeners p.emitter event s in
      let now = λ (s : Bytes). if-active known s (deactivate event p.bridge) p.bridge in
      record {
        agree =
            everywhere event p (register_remove_all (some event) p) h
              (moved (strict event) known 0 _ _ _
                (Agree-fewer (strict event) known (listener_count p.emitter event) 0
                  (is_in event p.bridge.active) (h.agree event) (omega arith))
                (ground (arith, count event, beq_refl event))
                (ground (arith, now event, is_in-deactivate event event p.bridge, beq_refl event)))
              (λ s e. (
                ground (arith, count s, e),
                ground (arith, now s, is_in-deactivate s event p.bridge, e),
              ));
        synced =
            if-synced known (deactivate event p.bridge) p.bridge
              (synced-deactivate event p.bridge h.synced) h.synced;
      }

  pub perform-Bridged :
      (o : Op) (p : Process) → IsCallable o → Bridged strict p → Bridged strict (perform o p)
  unfolding perform
  perform-Bridged (add event none once prepend) p k h = cc
  perform-Bridged (add event (some f) once prepend) p k h =
      register_add-Bridged event f once prepend p h
  perform-Bridged (remove event v) p k h = register_remove-Bridged event v p h
  perform-Bridged (remove_all o) p k h = register_remove_all-Bridged o p h

  pub perform_all-Bridged :
      (os : List Op) (p : Process)
      → All IsCallable os
      → Bridged strict p
      → Bridged strict (perform_all os p)
  unfolding perform_all
  perform_all-Bridged [] p k h = h
  perform_all-Bridged (o ∷ os) p k h =
      perform_all-Bridged os (perform o p) k.1 (perform-Bridged o p k.0 h)

-- ===== src/Mailbox/Tests.antt =====
-- A mailbox at work.
use noderati.Prelude.{◌≡◌, refl, false, [], ◌∷◌, List}
use noderati.Prelude.Strings.{codes, beq}
use noderati.Mailbox.{
  Mail, Mailbox, new, Action, attaches, refs_up, closes, begins, rounds, pushes, step, run, push,
}
use noderati.Mailbox.Invariant.{IsValid, run-IsValid}
use noderati.Mailbox.Delivery.{kept, pushed, run-kept, OnlyExits, run-OnlyExits, drain-delivers}

abbrev hello : Mail
hello = record { kind = codes "message"; from = 1; payload = codes "hello" }

abbrev goodbye : Mail
goodbye = record { kind = codes "exit"; from = 1; payload = codes "0" }

abbrev opening : List Action
opening = pushes hello ∷ attaches ∷ refs_up ∷ pushes goodbye ∷ []

run-IsValid_example : IsValid (run opening (new 0))
run-IsValid_example = run-IsValid opening 0

run-kept_example :
    (kept (run opening (new 0)) ≡ hello ∷ goodbye ∷ []) × ((run opening (new 0)).closed ≡ false)
unfolding pushed
run-kept_example = run-kept opening (new 0) (refl, (refl, (refl, (refl, tt)))) refl

-- The drain holds both mails when the mailbox is closed: only the exit is delivered.
abbrev closed_box : Mailbox
closed_box = run (closes ∷ []) (run (begins ∷ []) (run opening (new 0)))

run-OnlyExits_example :
    OnlyExits closed_box (run (rounds ∷ rounds ∷ []) closed_box)
    × ((x : Mail)
        → push x (run (rounds ∷ rounds ∷ []) closed_box)
          ≡ (run (rounds ∷ rounds ∷ []) closed_box, false))
unfolding run step
run-OnlyExits_example = run-OnlyExits (rounds ∷ rounds ∷ []) closed_box refl

exit_is_delivered : (run (rounds ∷ rounds ∷ []) closed_box).delivered ≡ goodbye ∷ []
unfolding run step beq
exit_is_delivered = refl

drain-delivers_example :
    let m' = run (begins ∷ rounds ∷ rounds ∷ []) (run opening (new 0)) in
    (m'.delivered ≡ hello ∷ goodbye ∷ []) × (m'.in_flight ≡ []) × (m'.queue ≡ [])
unfolding run step
drain-delivers_example =
    drain-delivers (run opening (new 0)) (run-IsValid opening 0) refl refl refl refl

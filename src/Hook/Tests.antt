-- ===== src/Hook/Tests.antt =====
-- Callbacks that are numbers: each registers another and adds itself to a list, and number 2 panics.
use Prim.Native.String.{String}
use agile_pool.Prelude.{
  ℕ, ◌≡◌, refl, arith, Option, none, some, List, [], ◌∷◌, ◌++◌, ◌==◌, if◌then◌else◌, length, take,
}
use agile_pool.Hook.{
  Event, task_started, task_completed, World, Call, started, new_hooks, add, dispatch,
}
use agile_pool.Hook.Order.{register, asked, callbacks, panic_lines, dispatch_lem}
use agile_pool.Hook.Dynamic
use agile_pool.Hook.Dynamic.{Memory, Loop, Run, Reach, load, next, invoke, added}
use agile_pool.Hook.Dynamic.Replay.{view, view-add, Run-callbacks}

abbrev Here : Type 0
Here = World ℕ String (List ℕ)

abbrev outcome : ℕ → Call ℕ String ℕ → Option String
outcome fn d = if fn == 2 then some "boom" else none

abbrev call : ℕ → Call ℕ String ℕ → Here → Here × Option String
call fn d w =
    (record w { hooks = add task_started 9 w.hooks; rest = w.rest ++ fn ∷ [] }, outcome fn d)

abbrev asked_for : List (Event × ℕ)
asked_for = (task_started, 1) ∷ (task_completed, 5) ∷ (task_started, 2) ∷ (task_started, 3) ∷ []

abbrev world : Here
world = record { hooks = register asked_for new_hooks; log = []; rest = [] }

started_callbacks : asked task_started asked_for ≡ 1 ∷ 2 ∷ 3 ∷ []
unfolding asked
started_callbacks = refl

dispatch_lem_example :
    ((dispatch call (started 7) world).rest ≡ [] ++ asked task_started asked_for)
    × ((dispatch call (started 7) world).log
        ≡ []
          ++ panic_lines "OnTaskStarted"
              (λ f. outcome f (started 7))
              (asked task_started asked_for))
dispatch_lem_example =
    dispatch_lem call (λ l. l) outcome (λ fn d w. refl) (λ fn d w. refl) (λ fn d w. refl) asked_for
      (started 7) world refl

abbrev two : (m : Memory ℕ) × Reach 0 m
two = (_, added task_started 2 (added task_started 1 Dynamic.new))

view-add_example : view (Dynamic.add 0 task_completed 5 two.0) ≡ add task_completed 5 (view two.0)
view-add_example = view-add 0 task_completed 5 two.1

-- Callback 3 is registered between the calls of the other two.
abbrev first_call : (m : Memory ℕ) × (l : Loop ℕ) × Run 0 task_started two.0 m l
unfolding Dynamic.snapshot Dynamic.publish Dynamic.new_hooks Dynamic.zero_hooks Dynamic.add
    Dynamic.append_callback
first_call = (_, _, next (invoke (omega arith)) load)

abbrev both_calls : (m : Memory ℕ) × (l : Loop ℕ) × Run 0 task_started two.0 m l
unfolding Dynamic.snapshot Dynamic.publish Dynamic.new_hooks Dynamic.zero_hooks Dynamic.add
    Dynamic.append_callback Dynamic.contents Dynamic.copy first_call
both_calls =
    (_, _, next (invoke (omega arith)) (next (Dynamic.register task_started 3) first_call.2))

Run-callbacks_example :
    (1 ∷ 2 ∷ [] ≡ take 2 (callbacks task_started (view two.0)))
    × (◌≡◌ {A = ℕ} 2 (length (callbacks task_started (view two.0))))
unfolding Dynamic.snapshot Dynamic.publish Dynamic.new_hooks Dynamic.zero_hooks Dynamic.add
    Dynamic.append_callback Dynamic.contents Dynamic.copy both_calls first_call
Run-callbacks_example = Run-callbacks 0 two.1 both_calls.2

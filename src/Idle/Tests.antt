-- ===== src/Idle/Tests.antt =====
-- The queues at concrete calls: an element is its own date.
use agile_pool.Prelude.{ℕ, ◌*◌, ◌%◌, ◌≡◌, refl, arith, false, none, some, List, [], ◌∷◌}
use agile_pool.Idle.Queue
use agile_pool.Idle.Queue.{
  Op, at_end, by_date, add, pop, remove_expired, len, added, popped, removed, counted, run_calls,
}
use agile_pool.Idle.LinkedList.{linked_list}
use agile_pool.Idle.Replies.{run-linked_list}

abbrev date : ℕ → ℕ
date n = n

abbrev calls : List (Op ℕ)
calls = add 9 ∷ add 2 ∷ add 8 ∷ add 3 ∷ remove_expired 10 5 ∷ len ∷ pop ∷ pop ∷ pop ∷ []

list_replies :
    (Queue.run date at_end calls []).0
    ≡ added
      ∷ added
      ∷ added
      ∷ added
      ∷ removed 2
      ∷ counted 2
      ∷ popped (some 9)
      ∷ popped (some 8)
      ∷ popped none
      ∷ []
unfolding Queue.run
list_replies = refl

abbrev rand : ℕ → ℕ
rand k = k * 7 % 5

sorted_replies :
    (Queue.run date (by_date date) calls []).0
    ≡ added
      ∷ added
      ∷ added
      ∷ added
      ∷ removed 2
      ∷ counted 2
      ∷ popped (some 8)
      ∷ popped (some 9)
      ∷ popped none
      ∷ []
unfolding Queue.run
sorted_replies = refl

run-linked_list_example :
    ((run_calls (linked_list date) calls (linked_list date).new).0
      ≡ (Queue.run date at_end calls []).0)
    × ((run_calls (linked_list date) calls (linked_list date).new).1.faulted ≡ false)
run-linked_list_example =
    run-linked_list date calls (tt, (tt, (tt, (tt, (omega arith, (tt, (tt, (tt, (tt, tt)))))))))

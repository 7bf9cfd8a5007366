-- ===== src/Idle/Replies.antt =====
-- What a client of the containers sees.
use agile_pool.Prelude.{ℕ, ◌≡◌, false, List, [], map}
use agile_pool.Idle.Queue.{Op, AllTimely, at_end, by_date, run, run_calls, run_calls-new}
use agile_pool.Idle.Slice.{slice, slice-IsQueue}
use agile_pool.Idle.RingQueue.{ring_queue}
use agile_pool.Idle.RingQueue.Order.{ring_queue-IsQueue}
use agile_pool.Idle.LinkedList.{linked_list}
use agile_pool.Idle.LinkedList.Order.{linked_list-IsQueue, run_calls-faulted}
use agile_pool.Idle.MinHeap.{min_heap}
use agile_pool.Idle.MinHeap.Dates.{itself}
use agile_pool.Idle.MinHeap.Replay.{date_op, date_reply, run_calls-dates}
use agile_pool.Idle.Treap.{treap}
use agile_pool.Idle.Treap.Order.{treap-IsQueue}

module _ {ℓ} {A : Type ℓ} (date : A → ℕ) where
  -- A new slice replies to every sequence of calls, with clocks past the expiry time, as the
  -- first-in first-out list does: `RemoveExpired` removes exactly the elements whose date and
  -- expiry time do not add up to more than the clock, and keeps the others in order.
  pub run-slice :
      (os : List (Op A))
      → AllTimely os
      → (run_calls (slice date) os (slice date).new).0 ≡ (run date at_end os []).0
  run-slice os t = (run_calls-new (slice-IsQueue date) os t).0

  -- So does a new ring queue, which wraps around and grows.
  pub run-ring_queue :
      (os : List (Op A))
      → AllTimely os
      → (run_calls (ring_queue date) os (ring_queue date).new).0 ≡ (run date at_end os []).0
  run-ring_queue os t = (run_calls-new (ring_queue-IsQueue date) os t).0

  -- A new treap, whatever priorities `rand` draws, replies as the list that keeps its elements by
  -- date, those of one date in their order of arrival: `Pop` gives the earliest, and
  -- `RemoveExpired` removes exactly the expired elements.
  pub run-treap :
      (rand : ℕ → ℕ) (os : List (Op A))
      → AllTimely os
      → (run_calls (treap date rand) os (treap date rand).new).0 ≡ (run date (by_date date) os []).0
  run-treap rand os t = (run_calls-new (treap-IsQueue date rand) os t).0

  -- A new linked list replies as the first-in first-out list does, and goes through no nil pointer.
  pub run-linked_list :
      (os : List (Op A))
      → AllTimely os
      → ((run_calls (linked_list date) os (linked_list date).new).0 ≡ (run date at_end os []).0)
        × ((run_calls (linked_list date) os (linked_list date).new).1.faulted ≡ false)
  run-linked_list os t =
      ((run_calls-new (linked_list-IsQueue date) os t).0, run_calls-faulted date os t)

  -- A new heap replies to every sequence of calls as the list that keeps its elements by date, when
  -- an element counts as its date: `Pop` gives an element of the earliest date, and `RemoveExpired`
  -- removes as many elements as are expired.
  pub run-min_heap :
      (zero_value : A) (os : List (Op A))
      → map
          (date_reply date)
          (run_calls (min_heap date zero_value) os (min_heap date zero_value).new).0
        ≡ (run itself (by_date itself) (map (date_op date) os) []).0
  run-min_heap zero_value os = run_calls-dates date zero_value os

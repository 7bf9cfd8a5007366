-- ===== src/Construction/Container.antt =====
-- Whichever container the configuration names, it keeps its promise.
use agile_pool.Prelude.{ℕ, ◌≡◌, List, [], map}
use agile_pool.Config.{
  IdleContainerType, linked_list_type, min_heap_type, slice_type, ring_queue_type, treap_type,
  other_type,
}
use agile_pool.Construction.{choose}
use agile_pool.Idle.Queue.{Op, Reply, AllTimely, at_end, by_date, run, run_calls}
use agile_pool.Idle.MinHeap.Dates.{itself}
use agile_pool.Idle.MinHeap.Replay.{date_op, date_reply}
use agile_pool.Idle.Replies.{run-slice, run-ring_queue, run-treap, run-linked_list, run-min_heap}

module _ {A : Type 0} (date : A → ℕ) where
  -- A treap is a list by date, and a heap is one if an element counts as its date; the others give
  -- the elements in the order of their arrival.
  abbrev pub Promise : IdleContainerType → List (Op A) → List (Reply A) → Type 0
  Promise treap_type os replies = replies ≡ (run date (by_date date) os []).0
  Promise min_heap_type os replies =
      map (date_reply date) replies ≡ (run itself (by_date itself) (map (date_op date) os) []).0
  Promise linked_list_type os replies = replies ≡ (run date at_end os []).0
  Promise (other_type n) os replies = replies ≡ (run date at_end os []).0
  Promise slice_type os replies = replies ≡ (run date at_end os []).0
  Promise ring_queue_type os replies = replies ≡ (run date at_end os []).0

  -- Whichever container NewPool chooses replies to every sequence of calls, with clocks past the
  -- expiry time, as its promise says: by arrival, or by date.
  pub run-choose :
      (zero_value : A) (rand : ℕ → ℕ) (kind : IdleContainerType) (os : List (Op A))
      → AllTimely os
      → Promise kind os
          (run_calls (choose date zero_value rand kind) os (choose date zero_value rand kind).new).0
  run-choose zero_value rand treap_type os t = run-treap date rand os t
  run-choose zero_value rand min_heap_type os t = run-min_heap date zero_value os
  run-choose zero_value rand linked_list_type os t = (run-linked_list date os t).0
  run-choose zero_value rand (other_type n) os t = (run-linked_list date os t).0
  run-choose zero_value rand slice_type os t = run-slice date os t
  run-choose zero_value rand ring_queue_type os t = run-ring_queue date os t

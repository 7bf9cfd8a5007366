-- ===== src/Idle/MinHeap/Replay.antt =====
-- The heap replies, by dates, as the list that is sorted by date.
use agile_pool.Prelude.{ℕ, ◌≡◌, refl, ap, ap₂, List, [], ◌∷◌, map}
use agile_pool.Idle.Queue
use agile_pool.Idle.Queue.{Op, Reply, Timely, AllTimely, by_date, first, step, call, run, run_calls}
use agile_pool.Idle.MinHeap.{MinHeap, new_min_heap, min_heap}
use agile_pool.Idle.MinHeap.Dates.{itself, some_date}
use agile_pool.Idle.MinHeap.Order.{Holds, add-Holds, pop-Holds, remove_expired-Holds, new-Holds}

module _ {ℓ} {A : Type ℓ} (date : A → ℕ) where
  abbrev pub date_op : Op A → Op ℕ
  date_op (Queue.add x) = Queue.add (date x)
  date_op Queue.pop = Queue.pop
  date_op (Queue.remove_expired now expiry) = Queue.remove_expired now expiry
  date_op Queue.len = Queue.len

  abbrev pub date_reply : Reply A → Reply ℕ
  date_reply Queue.added = Queue.added
  date_reply (Queue.popped x) = Queue.popped (some_date date x)
  date_reply (Queue.removed n) = Queue.removed n
  date_reply (Queue.counted n) = Queue.counted n

module _ {ℓ} {A : Type ℓ} (date : A → ℕ) (zero_value : A) where
  abbrev spec : Op ℕ → List ℕ → Reply ℕ × List ℕ
  spec = step itself (by_date itself)

  call-Holds :
      (o : Op A) (h : MinHeap A) (ds : List ℕ)
      → Holds date zero_value h ds
      → (date_reply date (call (min_heap date zero_value) o h).0 ≡ (spec (date_op date o) ds).0)
        × Holds date zero_value (call (min_heap date zero_value) o h).1 (spec (date_op date o) ds).1
  unfolding call step
  call-Holds (Queue.add x) h ds v = (refl, add-Holds date zero_value x h ds v)
  call-Holds Queue.pop h ds v =
      let p = pop-Holds date zero_value h ds v in (ap Queue.popped p.0, p.1)
  call-Holds (Queue.remove_expired now expiry) h ds v =
      let p = remove_expired-Holds date zero_value now expiry h ds v in (ap Queue.removed p.0, p.1)
  call-Holds Queue.len h ds v = (ap Queue.counted v.sized, v)

  run-Holds :
      (os : List (Op A)) (h : MinHeap A) (ds : List ℕ)
      → Holds date zero_value h ds
      → map (date_reply date) (run_calls (min_heap date zero_value) os h).0
        ≡ (run itself (by_date itself) (map (date_op date) os) ds).0
  unfolding run_calls run
  run-Holds [] h ds v = refl
  run-Holds (o ∷ os) h ds v =
      let p = call-Holds o h ds v in
      ap₂ ◌∷◌ p.0
        (run-Holds os (call (min_heap date zero_value) o h).1 (spec (date_op date o) ds).1 p.1)

  pub run_calls-dates :
      (os : List (Op A))
      → map
          (date_reply date)
          (run_calls (min_heap date zero_value) os (min_heap date zero_value).new).0
        ≡ (run itself (by_date itself) (map (date_op date) os) []).0
  run_calls-dates os = run-Holds os (new_min_heap date zero_value) [] (new-Holds date zero_value)

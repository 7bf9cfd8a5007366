-- ===== src/Lib.antt =====
-- agilePool is a goroutine pool for Go: callers submit tasks, a scaler starts workers, and idle
-- workers are kept for reuse. This library models its core and proves what it relies on.
--
-- How the parts work together. `Submit` and its relatives register a task as pending, put it in a
-- shard of the handoff queue or, when that is full, in the overflow buffer, from which the oldest
-- task goes on to the queue. Workers take tasks from the shards and then from the buffer, and park in
-- the idle container when both are empty. The scaler reads the medians of recent rates, decides how
-- many workers to start, and starts them, reusing idle ones, until the pool is closed and nothing is
-- pending. `Wait` blocks until nothing is pending. The idle container is guarded by a mutex or a
-- spin lock, as the configuration says.
--
-- Files and code:
--   Prelude        Boolean tests, lists and integers over the native numbers, sums over goroutines.
--   TaskBuffer     task_buffer.go. `Buffer` is chunkedTaskBuffer over a memory of chunks, with one
--                  function for each method: new, len, close, push_and_forward, peek_head,
--                  pop_batch, push_tail, pop_head. TaskBuffer/Queue is the queue it implements.
--   Drain          pool.go: addPending, done and Wait, as a step relation.
--   Pool           pool.go and worker.go: submit, nextShard, startWorker, the spawning part of
--                  scaleIfNeeded, scaler, Close, worker.run, nextShardTask and runTask.
--                  Pool/State has the shared state and the control points, Pool/Channels the
--                  shards, Pool/Moves the steps, Pool/Getters the methods that say how it stands,
--                  Pool/Watching a call of queuedTasks while the goroutines go on.
--   Histogram      histogram.go: newHistogram, add, median, bucketIndex and the tables of buckets.
--   Rates          pool.go: statsSampler with sampleRates, and getMedianRates, as a step relation over
--                  the counters and the histograms.
--   Scaler         pool.go: the decision of scaleIfNeeded, from its readings to toSpawn.
--   Shards         pool.go: resolveTaskQueueShards and the capacity of a shard in NewPool.
--   Config         config.go: Config, NewConfig and the With functions.
--   Construction   pool.go: NewPool, which puts the configuration, the shards, the buffer, the idle
--                  container and the histograms together, and the tickers of its goroutines.
--   DefaultPool    pool.go: the pointer defaultPool, as NewPool, Close and GetDefaultPool use it.
--   Idle           internal/idle: the interface (idle.go), Idle/Slice (slice.go), Idle/RingQueue
--                  (ring_queue.go), Idle/LinkedList (linkedlist.go, on a memory of nodes),
--                  Idle/MinHeap (heap.go, with what it uses of container/heap) and Idle/Treap
--                  (treap.go). Idle/Queue is the list that they implement, by arrival or by date.
--                  Idle/Compact is the loop that the slice and the ring use to drop expired
--                  elements in place, Idle/Survivors what it leaves.
--   Context        internal/context/context.go: labels, Value and PoolContextFrom over the chain of
--                  contexts. Context/Reuse has NewContext and Release, Context/Trace TraceID,
--                  Context/TraceId newTraceID (internal/context/utils.go), Context/Timing the latencies.
--   Hook           hook/hook.go: the Add and Dispatch methods. Hook/Dynamic is hook/dynamic/dynamic.go,
--                  on a memory of arrays and snapshots.
--   Task           task.go, pool.go and worker.go: the kinds of tasks with `process`, isNilTask,
--                  Submit, TrySubmit, SubmitCtx and SubmitBefore over `submit`, and runTask with
--                  dispatchHook and handlePanic. Task/Admission is `submit` with the hooks that it
--                  dispatches, one after the other, Task/Session any sequence of these calls.
--   Retry          task.go: TaskWithRetry, as the calls and sleeps that it makes.
--   SpinLock       spinlock.go: Lock and Unlock, as a step relation.
--   StackTrace     stack_trace.go: Stack, function and readNthLine.
--
-- Conventions and bounds. Counters of tasks and workers are natural numbers: they would need 2^63
-- goroutines or tasks to wrap. The cursors sendSeq and workerSeq wrap at 2^64, and the ints of Shards
-- at 64 bits. The loops of Shards run on fuel, and 63 rounds are enough wherever they end; the loop of
-- the linked list has as many rounds as nodes were allocated, which is enough, and those of the heap
-- as many as elements; the other loops are structural recursion or sequences of steps. Atomic
-- operations are sequentially consistent, a mutex that guards a whole method makes it one step, and
-- `drainMu`, whose critical section meets lock-free accesses, is taken and given back in steps of its
-- own. What `sync.Pool.Get` returns, when tickers fire, when a context is cancelled, whether an idle
-- worker expires and which goroutine runs next are left open. Floating-point operations are parameters
-- of Scaler and Config; in Pool the number of workers that the scaler wants is any that the code's
-- bounds allow. Times are nanoseconds, and clocks show more than the time that an element may stay
-- idle.
--
-- What a function of the user does is a parameter of Hook and Task: it changes a state and returns or
-- panics, and a panic of a logger is left out. In Context the bytes that rand.Read fills are
-- parameters, a method that holds `mu` throughout is one step, and a context is used between its
-- NewContext and its Release.
--
-- Not modelled: SetLogger and SetHook, which store a pointer, the Printf calls of loggers, the stress harness, the examples and benchmarks.
pub mod Prelude
pub mod TaskBuffer
pub mod Drain
pub mod Pool
pub mod Rates
pub mod Histogram
pub mod Idle
pub mod Shards
pub mod Config
pub mod Construction
pub mod DefaultPool
pub mod Context
pub mod Hook
pub mod Task
pub mod Scaler
pub mod SpinLock
pub mod StackTrace
pub mod Retry

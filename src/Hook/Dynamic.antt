-- ===== src/Hook/Dynamic.antt =====
-- hook/dynamic/dynamic.go: registration publishes a new snapshot of the callbacks, and a dispatch goes
-- through the one that it loaded. Slices stand on arrays in a memory; `nil_fn` is the zero value of a
-- callback.
pub mod Snapshots
pub mod Replay
use Prim.Native.String.{String}
use agile_pool.Prelude.{
  ℕ, suc, ◌<◌, ◌≡◌, Option, none, some, List, [], ◌∷◌, ◌++◌, length, get_or, set, take, drop,
  replicate,
}
use agile_pool.Prelude.Update.{update}
use agile_pool.Hook
use agile_pool.Hook.{Event, Hooks}

-- A slice that starts at the front of an array. A nil slice has length 0.
pub record Slice : Type 0 where
  pub array : ℕ
  pub len : ℕ

abbrev pub nil_slice : Slice
nil_slice = record { array = 0; len = 0 }

pub record CallbackSnapshot : Type 0 where
  pub task_submitted : Slice
  pub task_enqueued : Slice
  pub task_started : Slice
  pub task_completed : Slice
  pub pool_closed : Slice

abbrev pub empty_snapshot : CallbackSnapshot
empty_snapshot = record {
  task_submitted = nil_slice;
  task_enqueued = nil_slice;
  task_started = nil_slice;
  task_completed = nil_slice;
  pool_closed = nil_slice;
}

-- The memory: the arrays below `next_array` are allocated, and so are the snapshots below
-- `next_snapshot`.
pub record Memory {ℓ} (F : Type ℓ) : Type ℓ where
  pub arrays : ℕ → List F
  pub next_array : ℕ
  pub snapshots : ℕ → CallbackSnapshot
  pub next_snapshot : ℕ
  -- What `atomic.Pointer` holds.
  pub published : Option ℕ

module _ {ℓ} {F : Type ℓ} where
  -- What a slice reads.
  unfoldable pub contents : Memory F → Slice → List F
  contents m s = take s.len (m.arrays s.array)

  unfoldable pub zero_hooks : Memory F
  zero_hooks = record {
    arrays = λ _. [];
    next_array = 0;
    snapshots = λ _. empty_snapshot;
    next_snapshot = 0;
    published = none;
  }

  unfoldable pub snapshot : Memory F → CallbackSnapshot
  snapshot m = elim m.published [ some p ↦ m.snapshots p | none ↦ empty_snapshot ]

  unfoldable pub publish : CallbackSnapshot → Memory F → Memory F
  publish next m = record m {
    snapshots = update m.snapshots m.next_snapshot next;
    next_snapshot = suc m.next_snapshot;
    published = some m.next_snapshot;
  }

  unfoldable pub new_hooks : Memory F
  new_hooks = publish empty_snapshot zero_hooks

  -- `copy(dst, src)`, with `dst` at least as long.
  unfoldable pub copy : List F → List F → List F
  copy dst src = src ++ drop (length src) dst

  module _ (nil_fn : F) where
    unfoldable pub append_callback : Slice → F → Memory F → Slice × Memory F
    append_callback callbacks callback m =
        let made = replicate (suc callbacks.len) nil_fn in
        let next = set (copy made (contents m callbacks)) callbacks.len callback in
        (
          record { array = m.next_array; len = suc callbacks.len },
          record m { arrays = update m.arrays m.next_array next; next_array = suc m.next_array },
        )

    -- The five Add methods. `mu` is held throughout, and what is allocated is reached by others only
    -- from the snapshot that is stored last, so each is one step.
    unfoldable pub add : Event → F → Memory F → Memory F
    add Hook.task_submitted fn m =
        let current = snapshot m in
        let (fns, m') = append_callback current.task_submitted fn m in
        publish (record current { task_submitted = fns }) m'
    add Hook.task_enqueued fn m =
        let current = snapshot m in
        let (fns, m') = append_callback current.task_enqueued fn m in
        publish (record current { task_enqueued = fns }) m'
    add Hook.task_started fn m =
        let current = snapshot m in
        let (fns, m') = append_callback current.task_started fn m in
        publish (record current { task_started = fns }) m'
    add Hook.task_completed fn m =
        let current = snapshot m in
        let (fns, m') = append_callback current.task_completed fn m in
        publish (record current { task_completed = fns }) m'
    add Hook.pool_closed fn m =
        let current = snapshot m in
        let (fns, m') = append_callback current.pool_closed fn m in
        publish (record current { pool_closed = fns }) m'

-- The slice of an event.
abbrev pub slice_of : Event → CallbackSnapshot → Slice
slice_of Hook.task_submitted s = s.task_submitted
slice_of Hook.task_enqueued s = s.task_enqueued
slice_of Hook.task_started s = s.task_started
slice_of Hook.task_completed s = s.task_completed
slice_of Hook.pool_closed s = s.pool_closed

-- A Dispatch method, between its calls, which a panic does not stop: the slice that it loaded, the index of the next
-- callback, and those that it has called.
pub data Loop {ℓ} (F : Type ℓ) : Type ℓ where
  called : (fns : Slice) (i : ℕ) (done : List F) → Loop F

-- The dispatch goes on, or another goroutine or the callback itself registers a callback.
pub data Step {ℓ} {F : Type ℓ} (nil_fn : F) (m : Memory F)
    : Loop F → Memory F → Loop F → Type ℓ where
  invoke :
      {fns : Slice} {i : ℕ} {done : List F}
      → i < fns.len
      → Step nil_fn m
          (called fns i done)
          m
          (called fns (suc i) (done ++ get_or (m.arrays fns.array) i nil_fn ∷ []))
  register : (e : Event) (fn : F) {l : Loop F} → Step nil_fn m l (add nil_fn e fn m) l

-- From the load of the snapshot.
pub data Run {ℓ} {F : Type ℓ} (nil_fn : F) (event : Event) (start : Memory F)
    : Memory F → Loop F → Type ℓ where
  load : Run nil_fn event start start (called (slice_of event (snapshot start)) 0 [])
  next :
      {m m' : Memory F} {l l' : Loop F}
      → Step nil_fn m l m' l'
      → Run nil_fn event start m l
      → Run nil_fn event start m' l'

-- Registrations before the dispatch.
pub data Reach {ℓ} {F : Type ℓ} (nil_fn : F) : Memory F → Type ℓ where
  new : Reach nil_fn new_hooks
  added : {m : Memory F} (e : Event) (fn : F) → Reach nil_fn m → Reach nil_fn (add nil_fn e fn m)

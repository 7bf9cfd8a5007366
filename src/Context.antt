-- ===== src/Context.antt =====
-- internal/context/context.go: labels, the chain of contexts that `Value` climbs, and the operations
-- of `Context`. A method runs under `mu`, so it is one function on the labels.
pub mod Labels
pub mod Reuse
pub mod TraceId
pub mod Trace
pub mod Timing
mod Tests
use Prim.Native.String.{String}
use text.Mathlib.Text.{◌==◌ as str_eq}
use agile_pool.Prelude.{
  ℕ, zero, suc, Bool, true, false, Option, none, some, List, [], ◌∷◌, ◌==◌, if◌then◌else◌,
}
use agile_pool.Prelude.Update.{update}

-- What an `any` holds here: `nil`, a string, a `time.Time` (the zero time is 0), an `Empty{}`, a
-- `*Context`, or another value.
pub data Value : Type 0 where
  nil : Value
  str : String → Value
  time : ℕ → Value
  empty : Value
  context : ℕ → Value
  other : ℕ → Value

abbrev pub Labels : Type 0
Labels = List (String × Value)

abbrev pub label_trace_id : String
label_trace_id = "trace_id"

abbrev pub label_timing : String
label_timing = "_timing"

abbrev pub label_timing_submitted : String
label_timing_submitted = "_timing_submitted"

abbrev pub label_timing_enqueued : String
label_timing_enqueued = "_timing_enqueued"

abbrev pub label_timing_started : String
label_timing_started = "_timing_started"

abbrev pub label_timing_completed : String
label_timing_completed = "_timing_completed"

pub get : String → Labels → Option Value
get k [] = none
get k ((j, v) ∷ m) = if str_eq j k then some v else get k m

pub store : String → Value → Labels → Labels
store k v [] = (k, v) ∷ []
store k v ((j, w) ∷ m) = if str_eq j k then (k, v) ∷ m else (j, w) ∷ store k v m

pub delete : String → Labels → Labels
delete k [] = []
delete k ((j, v) ∷ m) = if str_eq j k then delete k m else (j, v) ∷ delete k m

pub keys : Labels → List String
keys [] = []
keys ((k, v) ∷ m) = k ∷ keys m

pub delete_all : List String → Labels → Labels
delete_all [] m = m
delete_all (k ∷ ks) m = delete_all ks (delete k m)

pub reset : Labels → Labels
reset m = delete_all (keys m) m

pub get_string : String → Labels → String
get_string k m = elim (get k m) [ some (str s) ↦ s | _ ↦ "" ]

pub get_time : String → Labels → ℕ
get_time k m = elim (get k m) [ some (time t) ↦ t | _ ↦ 0 ]

pub set_trace_id : String → Labels → Labels
set_trace_id id m = store label_trace_id (str id) m

pub enable_timing : Labels → Labels
enable_timing m = store label_timing empty m

pub is_timing_enabled : Labels → Bool
is_timing_enabled m = elim (get label_timing m) [ some v ↦ true | none ↦ false ]

-- A key that is a string, the unexported `poolContextKey`, or another.
pub data Key : Type 0 where
  label : String → Key
  pool_context_key : Key
  foreign : ℕ → Key

pub key_eq : Key → Key → Bool
key_eq (label j) (label k) = str_eq j k
key_eq pool_context_key pool_context_key = true
key_eq (foreign i) (foreign k) = i == k
key_eq j k = false

-- A `context.Context`: those of the standard library, where one with a deadline or a cancel function
-- passes `Value` on to its parent, and the `*Context` at an address.
pub data Chain : Type 0 where
  background : Chain
  with_value : (parent : Chain) (key : Key) (value : Value) → Chain
  with_cancel : (parent : Chain) → Chain
  at : ℕ → Chain

-- A released context has no parent.
pub record Context : Type 0 where
  pub parent : Option Chain
  pub labels : Labels

abbrev pub Heap : Type 0
Heap = ℕ → Context

-- What `contextPool` makes.
abbrev pub blank : Context
blank = record { parent = none; labels = [] }

-- A call of `Value` on a released context fails when the labels do not have the key.
pub data Answer : Type 0 where
  got : Value → Answer
  nil_dereference : Answer

pub own : Key → Labels → Option Value
own (label k) m = get k m
own k m = none

-- The fuel counts the steps from a `*Context` to its parent; `none` means that it ran out.
pub value : ℕ → Heap → Chain → Key → Option Answer
value f h background k = some (got nil)
value f h (with_cancel p) k = value f h p k
value f h (with_value p j v) k = let up = value f h p k in if key_eq j k then some (got v) else up
value zero h (at c) k = none
value (suc f) h (at c) k = elim (own k (h c).labels) [
  | some v ↦ some (got v)
  | none ↦ elim (h c).parent [ none ↦ some nil_dereference | some p ↦ value f h p k ]
]

-- The type assertion to `*Context`.
pub as_context : Option Answer → Option Answer
as_context (some (got (context c))) = some (got (context c))
as_context (some (got v)) = some (got nil)
as_context a = a

pub pool_context_from : ℕ → Heap → Chain → Option Answer
pool_context_from f h (at c) = some (got (context c))
pool_context_from f h ch = as_context (value f h ch pool_context_key)

pub or_background : Option Chain → Chain
or_background none = background
or_background (some p) = p

-- `NewContext(parent)` on what `contextPool.Get` returned, which lies at `c`.
pub new_context : Option Chain → ℕ → Context → Context
new_context parent c x = record x {
  parent = some (with_value (or_background parent) pool_context_key (context c));
}

pub release : Context → Context
release x = record { parent = none; labels = reset x.labels }

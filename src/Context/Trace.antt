-- ===== src/Context/Trace.antt =====
-- internal/context/context.go: `TraceID`, alone and as interleaved calls. What `newTraceID` returns is
-- an argument of the first, an id or `none` for its error.
use Prim.Native.String.{String, count}
use text.Mathlib.Text.{◌==◌ as str_eq}
use text.Mathlib.TextEquality.{eq_iff}
use agile_pool.Prelude.{
  ℕ, ◌≡◌, ◌≢◌, refl, List, subst, false, Option, none, some, arith, ◌==◌, if◌then◌else◌, Bool-cases,
  inl, inr,
}
use agile_pool.Prelude.Update.{update}
use agile_pool.Context.{Value, str, Labels, get, store, label_trace_id, set_trace_id}
use agile_pool.Context.TraceId.{
  new_trace_id, encode_to_string, bytes_of, IsBlock, new_trace_id-ne_empty, bytes_of-encode,
  count-encode,
}
use agile_pool.Context.Labels.{get-store, get-store_same}

-- `id, ok := c.labels[LabelTraceID].(string); ok && id != ""`
unfoldable pub trace_id_of : Option Value → Option String
trace_id_of (some (str id)) = if str_eq id "" then none else some id
trace_id_of v = none

unfoldable pub current : Labels → Option String
current m = trace_id_of (get label_trace_id m)

-- The second look at the label, and the write when it is still empty.
unfoldable pub settle : String → Labels → String × Labels
settle id m = elim (current m) [ some existing ↦ (existing, m) | none ↦ (id, set_trace_id id m) ]

unfoldable pub generated : Option String → Labels → Option String × Labels
generated none m = (none, m)
generated (some id) m = let (id', m') = settle id m in (some id', m')

unfoldable pub trace_id : Option String → Labels → Option String × Labels
trace_id new m = elim (current m) [ some id ↦ (some id, m) | none ↦ generated new m ]

-- An error of `TraceID` means that there was no id and that `newTraceID` failed, and leaves the
-- labels as they were.
pub trace_id-error :
    (new : Option String) (m : Labels)
    → (trace_id new m).0 ≡ none
    → (current m ≡ none) × (new ≡ none) × ((trace_id new m).1 ≡ m)
unfolding trace_id generated settle
trace_id-error none m h = ground arith
trace_id-error (some id) m h = ground arith

pub data Caller : Type 0 where
  outside : Caller
  generating : Caller
  checking : (id : String) → Caller
  returned : (id : String) → Caller
  failed : Caller

pub record Shared : Type 0 where
  pub labels : Labels
  pub caller : ℕ → Caller

-- Caller `i` steps, or the label of another key is written.
pub data Step (s : Shared) : Shared → Type 0 where
  found :
      (i : ℕ) (id : String)
      → s.caller i ≡ outside
      → current s.labels ≡ some id
      → Step s (record s { caller = update s.caller i (returned id) })
  missing :
      (i : ℕ)
      → s.caller i ≡ outside
      → current s.labels ≡ none
      → Step s (record s { caller = update s.caller i generating })
  made :
      (i : ℕ) (b : List ℕ) (id : String)
      → s.caller i ≡ generating
      → IsBlock b
      → new_trace_id (some b) ≡ some id
      → Step s (record s { caller = update s.caller i (checking id) })
  fail : (i : ℕ) → s.caller i ≡ generating → Step s (record s { caller = update s.caller i failed })
  check :
      (i : ℕ) (id : String)
      → s.caller i ≡ checking id
      → Step s (record {
        labels = (settle id s.labels).1;
        caller = update s.caller i (returned (settle id s.labels).0);
      })
  store_other :
      (k : String) (v : Value)
      → str_eq k label_trace_id ≡ false
      → Step s (record s { labels = store k v s.labels })

pub data Run (m : Labels) : Shared → Type 0 where
  begin : Run m (record { labels = m; caller = λ _. outside })
  next : {s t : Shared} → Step s t → Run m s → Run m t

-- What holds of a caller over the labels.
abbrev Sound : Labels → Caller → Type 0
Sound m (checking id) = id ≢ ""
Sound m (returned id) = current m ≡ some id
Sound m c = Unit

-- Labels with the same id, if there was one, keep a caller sound.
Sound-keeps :
    (m m' : Labels) (c : Caller)
    → ((id : String) → current m ≡ some id → current m' ≡ some id)
    → Sound m c
    → Sound m' c
Sound-keeps m m' outside f s = tt
Sound-keeps m m' generating f s = tt
Sound-keeps m m' (checking id) f s = s
Sound-keeps m m' (returned id) f s = f id s
Sound-keeps m m' failed f s = tt

Sound-update :
    (m : Labels) (f : ℕ → Caller) (i : ℕ) (c : Caller)
    → ((j : ℕ) → Sound m (f j))
    → Sound m c
    → (j : ℕ) → Sound m (update f i c j)
Sound-update m f i c all here j = elim (Bool-cases (i == j)) [
  | inl e ↦ rw e here
  | inr e ↦ rw e (all j)
]

current-set_trace_id : (id : String) (m : Labels) → id ≢ "" → current (set_trace_id id m) ≡ some id
unfolding current trace_id_of set_trace_id
current-set_trace_id id m ne =
    ground (arith, get-store_same label_trace_id (str id) m, eq_iff id "")

settle-current :
    (id : String) (m : Labels) → id ≢ "" → current (settle id m).1 ≡ some (settle id m).0
unfolding settle
settle-current id m ne = ground (arith, current-set_trace_id id m ne)

settle-keeps :
    (id : String) (m : Labels) (id' : String)
    → current m ≡ some id'
    → current (settle id m).1 ≡ some id'
unfolding settle
settle-keeps id m id' e = ground (arith, e)

store-keeps :
    (k : String) (v : Value) (m : Labels) (id : String)
    → str_eq k label_trace_id ≡ false
    → current m ≡ some id
    → current (store k v m) ≡ some id
unfolding current
store-keeps k v m id ne e = rw (get-store k label_trace_id v m) (rw ne e)

Step-Sound :
    {s t : Shared}
    → Step s t
    → ((i : ℕ) → Sound s.labels (s.caller i))
    → (i : ℕ) → Sound t.labels (t.caller i)
Step-Sound {s} (found i id at now) all = Sound-update s.labels s.caller i (returned id) all now
Step-Sound {s} (missing i at now) all = Sound-update s.labels s.caller i generating all tt
Step-Sound {s} (made i b id at block e) all =
    Sound-update s.labels s.caller i (checking id) all (new_trace_id-ne_empty b id block.0 e)
Step-Sound {s} (fail i at) all = Sound-update s.labels s.caller i failed all tt
Step-Sound {s} (check i id at) all =
    let ne : id ≢ "" = subst (Sound s.labels) at (all i) in
    Sound-update (settle id s.labels).1 s.caller i (returned (settle id s.labels).0)
      (λ j. Sound-keeps s.labels _ (s.caller j) (settle-keeps id s.labels) (all j))
      (settle-current id s.labels ne)
Step-Sound {s} (store_other k v ne) all =
    λ j. Sound-keeps s.labels _ (s.caller j) (λ id. store-keeps k v s.labels id ne) (all j)

Run-Sound : {m : Labels} {s : Shared} → Run m s → (i : ℕ) → Sound s.labels (s.caller i)
Run-Sound begin = λ i. tt
Run-Sound (next st r) = Step-Sound st (Run-Sound r)

-- However calls of `TraceID` on one context interleave, with writes of other labels between them,
-- two that return without an error return the same id, and it is the one in the label.
pub trace_ids_agree :
    {m : Labels} {s : Shared}
    → Run m s
    → (i j : ℕ) (a b : String) → s.caller i ≡ returned a
    → s.caller j ≡ returned b
    → (a ≡ b) × (current s.labels ≡ some a)
trace_ids_agree {m} {s} r i j a b at_i at_j =
    let one : current s.labels ≡ some a = subst (Sound s.labels) at_i (Run-Sound r i) in
    let two : current s.labels ≡ some b = subst (Sound s.labels) at_j (Run-Sound r j) in (cc, one)

trace_id-first :
    (id : String) (m : Labels)
    → current m ≡ none
    → trace_id (some id) m ≡ (some id, set_trace_id id m)
unfolding trace_id generated settle
trace_id-first id m none_yet = ground (arith, none_yet)

trace_id-again :
    (new : Option String) (id : String) (m : Labels)
    → current m ≡ some id
    → trace_id new m ≡ (some id, m)
unfolding trace_id
trace_id-again new id m there = ground (arith, there)

-- From labels without an id and a block of random bytes, `TraceID` makes an id of 32 characters from
-- which the bytes can be read off, and whatever `newTraceID` returns later, the next `TraceID` gives
-- the same id and leaves the labels as they are.
pub trace_id-block :
    (b : List ℕ) (m : Labels) (later : Option String)
    → IsBlock b
    → current m ≡ none
    → let made_id = trace_id (new_trace_id (some b)) m in
      (made_id.0 ≡ some (encode_to_string b))
      × (count (encode_to_string b) ≡ 32)
      × (bytes_of (encode_to_string b) ≡ b)
      × (trace_id later made_id.1 ≡ made_id)
unfolding new_trace_id
trace_id-block b m later block none_yet =
    let id = encode_to_string b in
    let ne = new_trace_id-ne_empty b id block.0 refl in
    rw (trace_id-first id m none_yet) (
      refl,
      omega (arith, count-encode b, block.0),
      bytes_of-encode b block.1,
      trace_id-again later id (set_trace_id id m) (current-set_trace_id id m ne),
    )

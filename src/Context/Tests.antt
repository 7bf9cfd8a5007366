-- ===== src/Context/Tests.antt =====
-- Contexts at concrete calls.
use Prim.Native.String.{String, count}
use agile_pool.Prelude.{ℕ, List, replicate, arith, ◌≡◌, ◌≢◌, refl, none, some, [], ◌∷◌}
use agile_pool.Context.{
  str, time, context, other, Labels, get, store, set_trace_id, label, key_eq, Chain, background,
  with_value, with_cancel, at, got, pool_context_from, label_timing_submitted,
  label_timing_enqueued, label_timing_started, label_timing_completed,
}
use agile_pool.Context.Reuse
use agile_pool.Context.Reuse.{
  Status, unused, pooled, live, World, obtain, start, change, stop, Wraps, itself, valued,
  cancelled, obtain-no_labels, pool_context_from-Wraps, value-store,
}
use agile_pool.Context.Trace
use agile_pool.Context.Trace.{
  current, settle, trace_id, trace_id_of, generated, Shared, found, missing, made, check,
  trace_id-error, trace_ids_agree, trace_id-block,
}
use agile_pool.Context.TraceId.{new_trace_id, encode_to_string, bytes_of, digit, IsBlock}

abbrev user : Labels
user = store "user" (str "ann") []

-- The context at 0 is taken and filled, and given back, and taken by the next task.
unused_free : ◌≢◌ {A = Status} unused live
unused_free = cc

pooled_free : ◌≢◌ {A = Status} pooled live
pooled_free = cc

abbrev filled : (w : World) × Reuse.Run w
filled = (_, Reuse.next (change 0 user refl) (Reuse.next (start 0 none unused_free) Reuse.begin))

abbrev one_task : (w : World) × Reuse.Run w
one_task = (_, Reuse.next (stop 0 refl) filled.1)

abbrev second_task : (w : World) × Reuse.Run w
second_task = (_, Reuse.next (start 0 (some (with_cancel background)) pooled_free) one_task.1)

-- `WithTimeout` and `WithValue` round the context.
abbrev wrapped : Chain
wrapped = with_value (with_cancel (at 0)) (label "step") (other 7)

obtain-no_labels_example : (obtain pooled (one_task.0.heap 0)).labels ≡ []
obtain-no_labels_example = obtain-no_labels one_task.1 0 pooled_free

pool_context_from-Wraps_example :
    pool_context_from 1 second_task.0.heap wrapped ≡ some (got (context 0))
unfolding key_eq
pool_context_from-Wraps_example =
    pool_context_from-Wraps second_task.1 0 wrapped refl
      (valued (label "step") (other 7) refl (cancelled itself))

no_user : current user ≡ none
unfolding current trace_id_of get store
no_user = refl

abbrev block_a : List ℕ
block_a = 1 ∷ 35 ∷ 69 ∷ 103 ∷ 137 ∷ 171 ∷ 205 ∷ 239 ∷ 0 ∷ 16 ∷ 32 ∷ 48 ∷ 64 ∷ 80 ∷ 96 ∷ 255 ∷ []

abbrev block_b : List ℕ
block_b = replicate 16 172

block_a-IsBlock : IsBlock block_a
block_a-IsBlock = ground arith

block_b-IsBlock : IsBlock block_b
block_b-IsBlock = ground arith

abbrev id_a : String
id_a = "0123456789abcdef00102030405060ff"

abbrev id_b : String
id_b = "acacacacacacacacacacacacacacacac"

new-id_a : new_trace_id (some block_a) ≡ some id_a
unfolding new_trace_id encode_to_string digit
new-id_a = refl

new-id_b : new_trace_id (some block_b) ≡ some id_b
unfolding new_trace_id encode_to_string digit
new-id_b = refl

-- Callers 0 and 1 find no id and make one each; the second to look again takes that of the first.
abbrev racing : (s : Shared) × Trace.Run user s
unfolding settle current trace_id_of get store
racing = (
  _,
  Trace.next (check 0 id_a refl) (
      Trace.next (check 1 id_b refl) (
        Trace.next (made 1 block_b id_b refl block_b-IsBlock new-id_b) (
          Trace.next (made 0 block_a id_a refl block_a-IsBlock new-id_a) (
            Trace.next (missing 1 refl no_user)
              (Trace.next (missing 0 refl no_user) Trace.begin))))),
)

trace_ids_agree_example : (◌≡◌ {A = String} id_b id_b) × (current racing.0.labels ≡ some id_b)
unfolding racing settle current trace_id_of set_trace_id get store
trace_ids_agree_example = trace_ids_agree racing.1 0 1 id_b id_b refl refl

trace_id-block_example :
    ((trace_id (new_trace_id (some block_a)) user).0 ≡ some (encode_to_string block_a))
    × (count (encode_to_string block_a) ≡ 32)
    × (bytes_of (encode_to_string block_a) ≡ block_a)
    × (trace_id none (trace_id (new_trace_id (some block_a)) user).1
        ≡ trace_id (new_trace_id (some block_a)) user)
trace_id-block_example = trace_id-block block_a user none block_a-IsBlock no_user

abbrev stamped : Labels
stamped =
    (label_timing_submitted, time 10)
    ∷ (label_timing_enqueued, time 12)
    ∷ (label_timing_started, time 15)
    ∷ (label_timing_completed, time 21)
    ∷ []

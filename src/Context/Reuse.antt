-- ===== src/Context/Reuse.antt =====
-- The reuse of contexts: `contextPool` between `NewContext` and `Release`.
use Prim.Native.String.{String}
use agile_pool.Prelude.{
  ℕ, ◌≡◌, ◌≢◌, refl, ap, ◌∙◌, subst, false, Option, some, [], arith, ◌==◌, Bool-cases, inl, inr,
}
use agile_pool.Prelude.Update.{update}
use agile_pool.Context.{
  Value, context, Labels, store, Key, label, pool_context_key, key_eq, Chain, with_value,
  with_cancel, at, Context, Heap, blank, got, own, value, as_context, pool_context_from,
  or_background, new_context, release,
}
use agile_pool.Context.Labels.{get-store_same, reset-nil}

-- An address that nothing stands at yet, a context in `contextPool`, one that was handed out.
pub data Status : Type 0 where
  unused : Status
  pooled : Status
  live : Status

pub record World : Type 0 where
  pub heap : Heap
  pub status : ℕ → Status

-- `contextPool.Get` returns any context of the pool, or a new one.
pub obtain : Status → Context → Context
obtain pooled x = x
obtain s x = blank

-- A method that changes the labels is called on a context that was not released yet.
pub data Step (w : World) : World → Type 0 where
  start :
      (c : ℕ) (parent : Option Chain)
      → w.status c ≢ live
      → Step w (record {
        heap = update w.heap c (new_context parent c (obtain (w.status c) (w.heap c)));
        status = update w.status c live;
      })
  change :
      (c : ℕ) (labels : Labels)
      → w.status c ≡ live
      → Step w (record {
        heap = update w.heap c (record (w.heap c) { labels = labels });
        status = w.status;
      })
  stop :
      (c : ℕ)
      → w.status c ≡ live
      → Step w (record {
        heap = update w.heap c (release (w.heap c));
        status = update w.status c pooled;
      })

abbrev pub nobody : World
nobody = record { heap = λ _. blank; status = λ _. unused }

pub data Run : World → Type 0 where
  begin : Run nobody
  next : {v w : World} → Step v w → Run v → Run w

-- `ch` comes from the context at `c` by `WithValue` with other keys than `k`, `WithCancel`,
-- `WithTimeout` and `WithDeadline`.
pub data Wraps (k : Key) (c : ℕ) : Chain → Type 0 where
  itself : Wraps k c (at c)
  valued :
      {inner : Chain} (j : Key) (v : Value)
      → key_eq j k ≡ false
      → Wraps k c inner
      → Wraps k c (with_value inner j v)
  cancelled : {inner : Chain} → Wraps k c inner → Wraps k c (with_cancel inner)

value-Wraps :
    (k : Key) (c : ℕ) (h : Heap) (ch : Chain) → Wraps k c ch → value 1 h ch k ≡ value 1 h (at c) k
unfolding value
value-Wraps k c h ch itself = refl
value-Wraps k c h ch (valued {inner} j v other w) = rw other (value-Wraps k c h inner w)
value-Wraps k c h ch (cancelled {inner} w) = value-Wraps k c h inner w

-- What holds of the context at `c`.
abbrev Kept : ℕ → Status → Context → Type 0
Kept c unused x = Unit
Kept c pooled x = x.labels ≡ []
Kept c live x = (p : Chain) × (x.parent ≡ some (with_value p pool_context_key (context c)))

obtain-nil : (c : ℕ) (s : Status) (x : Context) → s ≢ live → Kept c s x → (obtain s x).labels ≡ []
unfolding obtain
obtain-nil c unused x ne k = refl
obtain-nil c pooled x ne k = k
obtain-nil c live x ne k = absurd (ne refl)

Kept-update :
    (w : World) (c : ℕ) (s : Status) (x : Context)
    → ((i : ℕ) → Kept i (w.status i) (w.heap i))
    → Kept c s x
    → (i : ℕ) → Kept i (update w.status c s i) (update w.heap c x i)
Kept-update w c s x all here i = elim (Bool-cases (c == i)) [
  | inl e ↦ let same : c ≡ i = ground (arith, e) in rw e (subst (λ j. Kept j s x) same here)
  | inr e ↦ rw e (all i)
]

Kept-heap :
    (w : World) (c : ℕ) (x : Context)
    → ((i : ℕ) → Kept i (w.status i) (w.heap i))
    → Kept c (w.status c) x
    → (i : ℕ) → Kept i (w.status i) (update w.heap c x i)
Kept-heap w c x all here i = elim (Bool-cases (c == i)) [
  | inl e ↦
      let same : c ≡ i = ground (arith, e) in rw e (subst (λ j. Kept j (w.status j) x) same here)
  | inr e ↦ rw e (all i)
]

Kept-labels :
    (c : ℕ) (s : Status) (x : Context) (m : Labels)
    → s ≡ live
    → Kept c s x
    → Kept c s (record x { labels = m })
Kept-labels c unused x m e k = tt
Kept-labels c pooled x m e k = absurd (cc)
Kept-labels c live x m e k = k

Run-Kept : {w : World} → Run w → (i : ℕ) → Kept i (w.status i) (w.heap i)
unfolding new_context release
Run-Kept begin i = tt
Run-Kept (next {v} (start c parent free) r) i =
    Kept-update v c live _ (Run-Kept r) (or_background parent, refl) i
Run-Kept (next {v} (change c m owner) r) i =
    Kept-heap v c _ (Run-Kept r) (Kept-labels c (v.status c) (v.heap c) m owner (Run-Kept r c)) i
Run-Kept (next {v} (stop c owner) r) i = Kept-update v c pooled _ (Run-Kept r) (reset-nil _) i

-- A context that `NewContext` hands out has no label of the task that used it before.
pub obtain-no_labels :
    {w : World} → Run w → (c : ℕ) → w.status c ≢ live → (obtain (w.status c) (w.heap c)).labels ≡ []
obtain-no_labels {w} r c ne = obtain-nil c (w.status c) (w.heap c) ne (Run-Kept r c)

Kept-live : (c : ℕ) (s : Status) (x : Context) → s ≡ live → Kept c s x → Kept c live x
Kept-live c s x e k = subst (λ s. Kept c s x) e k

pool_context_from-value :
    (c : ℕ) (h : Heap) (ch : Chain)
    → Wraps pool_context_key c ch
    → value 1 h (at c) pool_context_key ≡ some (got (context c))
    → pool_context_from 1 h ch ≡ some (got (context c))
unfolding pool_context_from as_context
pool_context_from-value c h ch itself e = refl
pool_context_from-value c h ch (valued j v other w) e =
    ap as_context (value-Wraps pool_context_key c h ch (valued j v other w) ∙ e)
pool_context_from-value c h ch (cancelled w) e =
    ap as_context (value-Wraps pool_context_key c h ch (cancelled w) ∙ e)

value_self :
    (c : ℕ) (h : Heap) (p : Chain)
    → (h c).parent ≡ some (with_value p pool_context_key (context c))
    → value 1 h (at c) pool_context_key ≡ some (got (context c))
unfolding value own key_eq
value_self c h p e = ground (arith, e)

-- `PoolContextFrom` finds a context that was not released from everything that wraps it, whatever
-- was done to its labels and to other contexts since `NewContext`.
pub pool_context_from-Wraps :
    {w : World}
    → Run w
    → (c : ℕ) (ch : Chain) → w.status c ≡ live
    → Wraps pool_context_key c ch
    → pool_context_from 1 w.heap ch ≡ some (got (context c))
pool_context_from-Wraps {w} r c ch owner wraps =
    let (p, e) = Kept-live c (w.status c) (w.heap c) owner (Run-Kept r c) in
    pool_context_from-value c w.heap ch wraps (value_self c w.heap p e)

-- A value that is stored in a context is what `Value` gives for its key, on the context and on
-- everything that wraps it without another value for that key.
pub value-store :
    (h : Heap) (c : ℕ) (k : String) (v : Value) (ch : Chain)
    → Wraps (label k) c ch
    → value 1 (update h c (record (h c) { labels = store k v (h c).labels })) ch (label k)
      ≡ some (got v)
unfolding value own
value-store h c k v ch w =
    let stored = update h c (record (h c) { labels = store k v (h c).labels }) in
    value-Wraps (label k) c stored ch w ∙ ground (arith, get-store_same k v (h c).labels)

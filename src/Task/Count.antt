-- ===== src/Task/Count.antt =====
-- How often the marks that matter for the pending count and the hooks stand in a journal.
use agile_pool.Prelude.{
  ℕ, ◌+◌, ◌≡◌, refl, sym, ap, ◌∙◌, Option, none, some, List, [], ◌∷◌, ◌++◌, arith, ◌==◌,
  if◌then◌else◌,
}
use agile_pool.Hook.{Call, submitted, enqueued, started, completed, closed}
use agile_pool.Task.{
  Ctx, Mark, pending_added, submit_counted, worker_started, queued, buffered, consumed,
  hooks_called, hooks_panicked, ran, cancelled, panic_logged, handler_called, handler_panicked,
  done,
}

-- The marks that are counted.
pub data Kind : Type 0 where
  pendings counts handovers runs dones : Kind
  submitted_calls enqueued_calls started_calls completed_calls : Kind

abbrev pub number : Kind → ℕ
number Kind.pendings = 0
number Kind.counts = 1
number Kind.handovers = 2
number Kind.runs = 3
number Kind.dones = 4
number Kind.submitted_calls = 5
number Kind.enqueued_calls = 6
number Kind.started_calls = 7
number Kind.completed_calls = 8

abbrev pub is_kind : Option Kind → Kind → ℕ
is_kind none k = 0
is_kind (some j) k = if number j == number k then 1 else 0

-- `n` calls of the hooks, if there are any.
abbrev pub hooked {κ} : {H : Type κ} → Option H → ℕ → ℕ
hooked none n = 0
hooked (some h) n = n

pub hooked-zero {κ} : {H : Type κ} (hooks : Option H) → hooked hooks 0 ≡ 0
hooked-zero none = refl
hooked-zero (some h) = refl

hooked-add {κ} :
    {H : Type κ} (hooks : Option H) (m n : ℕ)
    → hooked hooks m + hooked hooks n ≡ hooked hooks (m + n)
hooked-add none m n = refl
hooked-add (some x) m n = refl

module _ {P : Type 0} where
  abbrev pub call_kind : Call Ctx P (Unit {0}) → Option Kind
  call_kind (submitted ctx) = some Kind.submitted_calls
  call_kind (enqueued ctx) = some Kind.enqueued_calls
  call_kind (started ctx) = some Kind.started_calls
  call_kind (completed ctx r) = some Kind.completed_calls
  call_kind (closed pool) = none

  abbrev pub mark_kind : Mark P → Option Kind
  mark_kind pending_added = some Kind.pendings
  mark_kind submit_counted = some Kind.counts
  mark_kind queued = some Kind.handovers
  mark_kind buffered = some Kind.handovers
  mark_kind consumed = some Kind.runs
  mark_kind done = some Kind.dones
  mark_kind (hooks_called d) = call_kind d
  mark_kind worker_started = none
  mark_kind (hooks_panicked p) = none
  mark_kind (ran t p) = none
  mark_kind (cancelled c) = none
  mark_kind (panic_logged p) = none
  mark_kind (handler_called t p) = none
  mark_kind (handler_panicked p) = none

  abbrev pub count : Kind → List (Mark P) → ℕ
  count k [] = 0
  count k (m ∷ ms) = is_kind (mark_kind m) k + count k ms

  pub count-append :
      (k : Kind) (xs ys : List (Mark P)) → count k (xs ++ ys) ≡ count k xs + count k ys
  count-append k [] ys = omega arith
  count-append k (m ∷ xs) ys = omega (arith, count-append k xs ys)

  -- Every task that was added to the pending ones was handed over, or was refused with one `done`,
  -- and every run of a task ends with one `done`; the hooks were called once for each task that was
  -- counted, handed over or run.
  abbrev pub Balanced {κ} : {H : Type κ} → Option H → List (Mark P) → Type 0
  Balanced hooks js =
      (count Kind.pendings js + count Kind.runs js ≡ count Kind.handovers js + count Kind.dones js)
      × (count Kind.submitted_calls js ≡ hooked hooks (count Kind.counts js))
      × (count Kind.enqueued_calls js ≡ hooked hooks (count Kind.handovers js))
      × (count Kind.started_calls js ≡ hooked hooks (count Kind.runs js))
      × (count Kind.completed_calls js ≡ hooked hooks (count Kind.runs js))

  -- How often each kind of mark stands in a piece of the journal.
  pub record Tally {κ} {H : Type κ} (hooks : Option H) (ms : List (Mark P)) (a c h r d : ℕ)
      : Type 0 where
    pub pendings : count Kind.pendings ms ≡ a
    pub counts : count Kind.counts ms ≡ c
    pub handovers : count Kind.handovers ms ≡ h
    pub runs : count Kind.runs ms ≡ r
    pub dones : count Kind.dones ms ≡ d
    pub submits : count Kind.submitted_calls ms ≡ hooked hooks c
    pub enqueues : count Kind.enqueued_calls ms ≡ hooked hooks h
    pub starts : count Kind.started_calls ms ≡ hooked hooks r
    pub completes : count Kind.completed_calls ms ≡ hooked hooks r

  pub Tally-append {κ} :
      {H : Type κ} (hooks : Option H) (xs ys : List (Mark P)) {a c h r d a' c' h' r' d' : ℕ}
      → Tally hooks xs a c h r d
      → Tally hooks ys a' c' h' r' d'
      → Tally hooks (xs ++ ys) (a + a') (c + c') (h + h') (r + r') (d + d')
  Tally-append hooks xs ys {a} {c} {h} {r} {d} {a'} {c'} {h'} {r'} {d'} s t = record {
    pendings = omega (arith, count-append Kind.pendings xs ys, s.pendings, t.pendings);
    counts = omega (arith, count-append Kind.counts xs ys, s.counts, t.counts);
    handovers = omega (arith, count-append Kind.handovers xs ys, s.handovers, t.handovers);
    runs = omega (arith, count-append Kind.runs xs ys, s.runs, t.runs);
    dones = omega (arith, count-append Kind.dones xs ys, s.dones, t.dones);
    submits = omega (
      arith,
      count-append Kind.submitted_calls xs ys,
      hooked-add hooks c c',
      s.submits,
      t.submits,
    );
    enqueues = omega (
      arith,
      count-append Kind.enqueued_calls xs ys,
      hooked-add hooks h h',
      s.enqueues,
      t.enqueues,
    );
    starts =
        omega
          (arith, count-append Kind.started_calls xs ys, hooked-add hooks r r', s.starts, t.starts);
    completes = omega (
      arith,
      count-append Kind.completed_calls xs ys,
      hooked-add hooks r r',
      s.completes,
      t.completes,
    );
  }

  pub Tally-Balanced {κ} :
      {H : Type κ} (hooks : Option H) (ms : List (Mark P)) {a c h r d : ℕ}
      → Tally hooks ms a c h r d
      → a + r ≡ h + d
      → Balanced hooks ms
  Tally-Balanced hooks ms t e = (
    omega (arith, t.pendings, t.runs, t.handovers, t.dones),
    t.submits ∙ ap (hooked hooks) (sym t.counts),
    t.enqueues ∙ ap (hooked hooks) (sym t.handovers),
    t.starts ∙ ap (hooked hooks) (sym t.runs),
    t.completes ∙ ap (hooked hooks) (sym t.runs),
  )

  Balanced-Tally {κ} :
      {H : Type κ} (hooks : Option H) (ms : List (Mark P))
      → Balanced hooks ms
      → Tally hooks ms
          (count Kind.pendings ms)
          (count Kind.counts ms)
          (count Kind.handovers ms)
          (count Kind.runs ms)
          (count Kind.dones ms)
  Balanced-Tally hooks ms (_, s, e, b, c) = record {
    pendings = refl;
    counts = refl;
    handovers = refl;
    runs = refl;
    dones = refl;
    submits = s;
    enqueues = e;
    starts = b;
    completes = c;
  }

  pub Balanced-append {κ} :
      {H : Type κ} (hooks : Option H) (xs ys : List (Mark P))
      → Balanced hooks xs
      → Balanced hooks ys
      → Balanced hooks (xs ++ ys)
  Balanced-append hooks xs ys s t =
      Tally-Balanced hooks (xs ++ ys)
        (Tally-append hooks xs ys (Balanced-Tally hooks xs s) (Balanced-Tally hooks ys t))
        (omega (arith, s.0, t.0))

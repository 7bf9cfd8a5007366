-- ===== src/Hook/Order.antt =====
-- A dispatch calls every registered callback once, in the order of registration.
use Prim.Native.String.{String}
use agile_pool.Prelude.{
  ◌≡◌, refl, sym, ap, ◌∙◌, subst, Bool, true, false, Option, none, some, List, [], ◌∷◌, ◌++◌,
  append_assoc, append-nil, if◌then◌else◌, Bool-cases, inl, inr,
}
use agile_pool.Hook.{
  Event, task_submitted, task_enqueued, task_started, task_completed, pool_closed, Hooks, Line,
  hook_panicked, received_nil_pointer, World, Call, submitted, enqueued, started, completed, closed,
  new_hooks, recover, add, invoke, invoke_all, dispatch,
}

abbrev pub same : Event → Event → Bool
same task_submitted task_submitted = true
same task_enqueued task_enqueued = true
same task_started task_started = true
same task_completed task_completed = true
same pool_closed pool_closed = true
same e e' = false

module _ {ℓ} {F : Type ℓ} where
  -- The callbacks of an event.
  abbrev pub callbacks : Event → Hooks F → List F
  callbacks task_submitted h = h.task_submitted
  callbacks task_enqueued h = h.task_enqueued
  callbacks task_started h = h.task_started
  callbacks task_completed h = h.task_completed
  callbacks pool_closed h = h.pool_closed

  pub callbacks-add :
      (e e' : Event) (fn : F) (h : Hooks F)
      → callbacks e (add e' fn h) ≡ (if same e e' then callbacks e h ++ fn ∷ [] else callbacks e h)
  unfolding add
  callbacks-add task_submitted task_submitted fn h = refl
  callbacks-add task_enqueued task_enqueued fn h = refl
  callbacks-add task_started task_started fn h = refl
  callbacks-add task_completed task_completed fn h = refl
  callbacks-add pool_closed pool_closed fn h = refl
  callbacks-add e e' fn h = refl

  -- Registrations, one after the other.
  pub register : List (Event × F) → Hooks F → Hooks F
  register [] h = h
  register ((e, fn) ∷ rs) h = register rs (add e fn h)

  -- The callbacks that are registered for an event, in order.
  unfoldable pub asked : Event → List (Event × F) → List F
  asked e [] = []
  asked e ((e', fn) ∷ rs) = if same e e' then fn ∷ asked e rs else asked e rs

  pub callbacks-register :
      (e : Event) (rs : List (Event × F)) (h : Hooks F)
      → callbacks e (register rs h) ≡ callbacks e h ++ asked e rs
  unfolding register asked
  callbacks-register e [] h = sym (append-nil _)
  callbacks-register e ((e', fn) ∷ rs) h =
      callbacks-register e rs (add e' fn h) ∙ elim (Bool-cases (same e e')) [
        | inl yes_ ↦
            rw (callbacks-add e e' fn h)
              (rw yes_ (append_assoc (callbacks e h) (fn ∷ []) (asked e rs)))
        | inr no_ ↦ rw (callbacks-add e e' fn h) (rw no_ refl)
      ]

  callbacks-register_new :
      (e : Event) (rs : List (Event × F)) → callbacks e (register rs new_hooks) ≡ asked e rs
  unfolding new_hooks
  callbacks-register_new task_submitted rs = callbacks-register task_submitted rs new_hooks
  callbacks-register_new task_enqueued rs = callbacks-register task_enqueued rs new_hooks
  callbacks-register_new task_started rs = callbacks-register task_started rs new_hooks
  callbacks-register_new task_completed rs = callbacks-register task_completed rs new_hooks
  callbacks-register_new pool_closed rs = callbacks-register pool_closed rs new_hooks

-- The callbacks that a call of a Dispatch method is for, among the registrations `rs`.
module _ {ℓ} {F : Type ℓ} {C P Q : Type 0} where
  abbrev pub called : Call C P Q → (Event → List F) → List F
  called (submitted ctx) fns = fns task_submitted
  called (enqueued ctx) fns = fns task_enqueued
  called (started ctx) fns = fns task_started
  called (completed ctx recovered) fns = fns task_completed
  called (closed none) fns = []
  called (closed (some pool)) fns = fns pool_closed

abbrev pub name_of : {C P Q : Type 0} → Call C P Q → String
name_of (submitted ctx) = "OnTaskSubmitted"
name_of (enqueued ctx) = "OnTaskEnqueued"
name_of (started ctx) = "OnTaskStarted"
name_of (completed ctx recovered) = "OnTaskCompleted"
name_of (closed pool) = "OnPoolClosed"

-- What is logged of a callback, and of all.
abbrev pub panic_line : {P : Type 0} → String → Option P → List (Line P)
panic_line name none = []
panic_line name (some p) = hook_panicked name p ∷ []

abbrev pub panic_lines {ℓ} :
    {F : Type ℓ} {P : Type 0} → String → (F → Option P) → List F → List (Line P)
panic_lines name outcome [] = []
panic_lines name outcome (fn ∷ fns) = panic_line name (outcome fn) ++ panic_lines name outcome fns

abbrev pub lines {ℓ} :
    {F : Type ℓ} {C P Q : Type 0}
    → Call C P Q
    → (F → Call C P Q → Option P)
    → List F
    → List (Line P)
lines (closed none) outcome fns = received_nil_pointer ∷ []
lines d outcome fns = panic_lines (name_of d) (λ fn. outcome fn d) fns

recover_lem {ℓ κ} :
    {F : Type ℓ} {P : Type 0} {S : Type κ} (name : String) (o : Option P) (w : World F P S)
    → ((recover name o w).rest ≡ w.rest) × ((recover name o w).log ≡ w.log ++ panic_line name o)
unfolding recover
recover_lem name none w = (refl, sym (append-nil _))
recover_lem name (some p) w = (refl, refl)

-- A callback adds itself to a journal, ends as `outcome` says, and does not write to the log; what
-- else it does is open.
module _ {ℓ κ} {F : Type ℓ} {C P Q : Type 0} {S : Type κ}
    (call : F → Call C P Q → World F P S → World F P S × Option P) (journal : S → List F)
    (outcome : F → Call C P Q → Option P)
    (notes : (fn : F) (d : Call C P Q) (w : World F P S)
      → journal (call fn d w).0.rest ≡ journal w.rest ++ fn ∷ [])
    (ends : (fn : F) (d : Call C P Q) (w : World F P S) → (call fn d w).1 ≡ outcome fn d)
    (quiet : (fn : F) (d : Call C P Q) (w : World F P S) → (call fn d w).0.log ≡ w.log) where
  invoke_lem :
      (fn : F) (d : Call C P Q) (name : String) (w : World F P S)
      → (journal (invoke call fn d name w).rest ≡ journal w.rest ++ fn ∷ [])
        × ((invoke call fn d name w).log ≡ w.log ++ panic_line name (outcome fn d))
  unfolding invoke
  invoke_lem fn d name w = rw (ends fn d w) (
      let (rest, log) = recover_lem name (outcome fn d) (call fn d w).0 in
      (
        ap journal rest ∙ notes fn d w,
        log ∙ ap (◌++ panic_line name (outcome fn d)) (quiet fn d w),
      ))

  invoke_all_lem :
      (fns : List F) (d : Call C P Q) (name : String) (w : World F P S)
      → (journal (invoke_all call fns d name w).rest ≡ journal w.rest ++ fns)
        × ((invoke_all call fns d name w).log ≡ w.log ++ panic_lines name (λ f. outcome f d) fns)
  unfolding invoke_all
  invoke_all_lem [] d name w = (sym (append-nil _), sym (append-nil _))
  invoke_all_lem (fn ∷ fns) d name w =
      let (one_j, one_l) = invoke_lem fn d name w in
      let (all_j, all_l) = invoke_all_lem fns d name (invoke call fn d name w) in
      let out = panic_lines name (λ f. outcome f d) fns in
      (
        all_j ∙ (ap (◌++ fns) one_j ∙ append_assoc (journal w.rest) (fn ∷ []) fns),
        all_l ∙ (ap (◌++ out) one_l ∙ append_assoc w.log (panic_line name (outcome fn d)) out),
      )

  loop_lem :
      (e : Event) (rs : List (Event × F)) (d : Call C P Q) (name : String) (w : World F P S)
      → w.hooks ≡ register rs new_hooks
      → (journal (invoke_all call (callbacks e w.hooks) d name w).rest
          ≡ journal w.rest ++ asked e rs)
        × ((invoke_all call (callbacks e w.hooks) d name w).log
            ≡ w.log ++ panic_lines name (λ f. outcome f d) (asked e rs))
  loop_lem e rs d name w h =
      subst
        (λ l.
          (journal (invoke_all call (callbacks e w.hooks) d name w).rest ≡ journal w.rest ++ l)
          × ((invoke_all call (callbacks e w.hooks) d name w).log
              ≡ w.log ++ panic_lines name (λ f. outcome f d) l))
        (ap (callbacks e) h ∙ callbacks-register_new e rs)
        (invoke_all_lem (callbacks e w.hooks) d name w)

  -- Callbacks that were registered on new hooks are called by every Dispatch method in the order of
  -- their registration for its event, each once, also after one that panics; every panic is logged,
  -- and nothing else but a nil pool.
  pub dispatch_lem :
      (rs : List (Event × F)) (d : Call C P Q) (w : World F P S)
      → w.hooks ≡ register rs new_hooks
      → let fns = called d (λ e. asked e rs) in
        (journal (dispatch call d w).rest ≡ journal w.rest ++ fns)
        × ((dispatch call d w).log ≡ w.log ++ lines d outcome fns)
  unfolding dispatch
  dispatch_lem rs (submitted ctx) w h = loop_lem task_submitted rs _ _ w h
  dispatch_lem rs (enqueued ctx) w h = loop_lem task_enqueued rs _ _ w h
  dispatch_lem rs (started ctx) w h = loop_lem task_started rs _ _ w h
  dispatch_lem rs (completed ctx recovered) w h = loop_lem task_completed rs _ _ w h
  dispatch_lem rs (closed none) w h = (sym (append-nil _), refl)
  dispatch_lem rs (closed (some pool)) w h = loop_lem pool_closed rs _ _ w h

-- ===== src/Hook/Dynamic/Replay.antt =====
-- What registrations and dispatches of dynamic hooks amount to.
use agile_pool.Prelude.{
  ℕ, zero, suc, ◌≤◌, ◌<◌, ◌≡◌, refl, sym, ap, ap₂, ◌∙◌, List, [], ◌∷◌, ◌++◌, arith, if◌then◌else◌,
  length, get_or, take,
}
use agile_pool.Prelude.Slices.{length-take}
use agile_pool.Hook
use agile_pool.Hook.{
  Event, task_submitted, task_enqueued, task_started, task_completed, pool_closed, Hooks,
}
use agile_pool.Hook.Order.{same, callbacks, callbacks-add}
use agile_pool.Hook.Dynamic.{
  Slice, Memory, contents, snapshot, add, slice_of, Loop, called, Step, invoke, register, Run, load,
  next, Reach, new, added,
}
use agile_pool.Hook.Dynamic.Snapshots.{
  Reads, Keeps, Valid, grown_callbacks, add-Grows, new_hooks-Valid,
}

module _ {ℓ} {F : Type ℓ} where
  -- The callbacks that the published snapshot has.
  abbrev pub view : Memory F → Hooks F
  view m = record {
    task_submitted = contents m (snapshot m).task_submitted;
    task_enqueued = contents m (snapshot m).task_enqueued;
    task_started = contents m (snapshot m).task_started;
    task_completed = contents m (snapshot m).task_completed;
    pool_closed = contents m (snapshot m).pool_closed;
  }

  callbacks-view :
      (e : Event) (m : Memory F) → callbacks e (view m) ≡ contents m (slice_of e (snapshot m))
  callbacks-view task_submitted m = refl
  callbacks-view e m = refl

  hooks_eq : (h k : Hooks F) → ((e : Event) → callbacks e h ≡ callbacks e k) → h ≡ k
  hooks_eq h k eq = λ i. record {
    task_submitted = eq task_submitted i;
    task_enqueued = eq task_enqueued i;
    task_started = eq task_started i;
    task_completed = eq task_completed i;
    pool_closed = eq pool_closed i;
  }

  get_or-take : (n i : ℕ) (xs : List F) (d : F) → i < n → get_or (take n xs) i d ≡ get_or xs i d
  get_or-take zero i xs d h = absurd (omega arith)
  get_or-take (suc n) i [] d h = refl
  get_or-take (suc n) zero (x ∷ xs) d h = refl
  get_or-take (suc n) (suc i) (x ∷ xs) d h = get_or-take n i xs d (omega arith)

  take-suc :
      (i : ℕ) (xs : List F) (d : F)
      → i < length xs
      → take (suc i) xs ≡ take i xs ++ get_or xs i d ∷ []
  take-suc i [] d h = absurd (omega arith)
  take-suc zero (x ∷ xs) d h = refl
  take-suc (suc i) (x ∷ xs) d h = ap (x ∷◌) (take-suc i xs d (omega arith))

  module _ (nil_fn : F) where
    grown_callbacks-view :
        (e e' : Event) (fn : F) (m : Memory F)
        → grown_callbacks nil_fn e fn m e'
          ≡ (if same e' e then callbacks e' (view m) ++ fn ∷ [] else callbacks e' (view m))
    grown_callbacks-view task_submitted task_submitted fn m = refl
    grown_callbacks-view task_enqueued task_enqueued fn m = refl
    grown_callbacks-view task_started task_started fn m = refl
    grown_callbacks-view task_completed task_completed fn m = refl
    grown_callbacks-view pool_closed pool_closed fn m = refl
    grown_callbacks-view e e' fn m = refl

    Reach-Valid : {m : Memory F} → Reach nil_fn m → Valid nil_fn m
    Reach-Valid new e = new_hooks-Valid nil_fn e
    Reach-Valid (added {m} e fn r) e' = ((add-Grows nil_fn e fn m (Reach-Valid r)).1 e').0

    -- A registration does to the published callbacks what the same method of hook.Hooks does to its
    -- lists, whatever was registered before.
    pub view-add :
        {m : Memory F} (e : Event) (fn : F)
        → Reach nil_fn m
        → view (add nil_fn e fn m) ≡ Hook.add e fn (view m)
    view-add {m} e fn r = hooks_eq (view (add nil_fn e fn m)) (Hook.add e fn (view m)) (λ e'.
        callbacks-view e' (add nil_fn e fn m)
        ∙ (((add-Grows nil_fn e fn m (Reach-Valid r)).1 e').1
            ∙ (grown_callbacks-view e e' fn m ∙ sym (callbacks-add e' e fn (view m)))))

    -- What holds of a dispatch that runs over the callbacks `xs`.
    abbrev Replays : List F → Memory F → Loop F → Type ℓ
    Replays xs m (called fns i done) =
        Reads m fns xs × (fns.len ≡ length xs) × (i ≤ fns.len) × (done ≡ take i xs)

    take-called :
        (m : Memory F) (fns : Slice) (i : ℕ) (xs done : List F)
        → i < fns.len
        → contents m fns ≡ xs
        → fns.len ≡ length xs
        → done ≡ take i xs
        → done ++ get_or (m.arrays fns.array) i nil_fn ∷ [] ≡ take (suc i) xs
    unfolding contents
    take-called m fns i xs done lt reads size e =
        ap₂ (λ front x. front ++ x ∷ []) e
          (sym (get_or-take fns.len i (m.arrays fns.array) nil_fn lt)
            ∙ ap (λ l. get_or l i nil_fn) reads)
        ∙ sym (take-suc i xs nil_fn (omega (arith, lt, size)))

    Keeps-Replays :
        (xs : List F) (m m' : Memory F) (l : Loop F) → Keeps m m' → Replays xs m l → Replays xs m' l
    Keeps-Replays xs m m' (called fns i done) keeps ((fits, reads), size, le, so_far) =
        let (fits', same_) = keeps fns fits in ((fits', same_ ∙ reads), size, le, so_far)

    Step-Replays :
        (xs : List F) {m m' : Memory F} {l l' : Loop F}
        → Step nil_fn m l m' l'
        → Valid nil_fn m
        → Replays xs m l
        → Valid nil_fn m' × Replays xs m' l'
    Step-Replays xs {m} (invoke {fns} {i} {done} lt) v (reads, size, le, so_far) =
        (v, (reads, size, omega (arith, lt), take-called m fns i xs done lt reads.1 size so_far))
    Step-Replays xs {m} (register e fn {l}) v h =
        let (keeps, after) = add-Grows nil_fn e fn m v in
        (λ e'. (after e').0, Keeps-Replays xs m _ l keeps h)

    Run-Replays :
        {event : Event} {start m : Memory F} {l : Loop F}
        → Reach nil_fn start
        → Run nil_fn event start m l
        → Valid nil_fn m × Replays (contents start (slice_of event (snapshot start))) m l
    unfolding contents
    Run-Replays {event} {start} r load =
        let v = Reach-Valid r in
        (v, ((v event, refl), sym (length-take _ _ (v event).0), omega arith, refl))
    Run-Replays {event} {start} r (next st run) =
        let (v, h) = Run-Replays r run in
        Step-Replays (contents start (slice_of event (snapshot start))) st v h

    -- A dispatch calls the callbacks that were published when it loaded its snapshot, in order: those
    -- that register during it change nothing, and it ends after the last of them.
    pub Run-callbacks :
        {event : Event} {start m : Memory F} {fns : Slice} {i : ℕ} {done : List F}
        → Reach nil_fn start
        → Run nil_fn event start m (called fns i done)
        → (done ≡ take i (callbacks event (view start)))
          × (fns.len ≡ length (callbacks event (view start)))
    Run-callbacks {event} {start} r run =
        let h = (Run-Replays r run).1 in rw (callbacks-view event start) (h.3, h.1)

-- ===== src/Hook/Dynamic/Snapshots.antt =====
-- Published callbacks never change, so a dispatch calls those that were there when it loaded them.
use agile_pool.Prelude.{
  ℕ, zero, suc, ◌≤◌, ◌<◌, ◌≡◌, refl, sym, ap, subst, ◌∙◌, ◌⊎◌, inl, inr, Bool, true, false, List,
  [], ◌∷◌, ◌++◌, arith, ◌==◌, if◌then◌else◌, length, set, take, drop, replicate, length-append,
}
use agile_pool.Prelude.Slices.{take-all, length-take}
use agile_pool.Hook.{
  Event, task_submitted, task_enqueued, task_started, task_completed, pool_closed,
}
use agile_pool.Hook.Order.{same}
use agile_pool.Hook.Dynamic.{
  Slice, CallbackSnapshot, Memory, contents, snapshot, empty_snapshot, zero_hooks, publish,
  new_hooks, copy, append_callback, add, slice_of,
}

abbrev with_slice : Event → Slice → CallbackSnapshot → CallbackSnapshot
with_slice task_submitted fns s = record s { task_submitted = fns }
with_slice task_enqueued fns s = record s { task_enqueued = fns }
with_slice task_started fns s = record s { task_started = fns }
with_slice task_completed fns s = record s { task_completed = fns }
with_slice pool_closed fns s = record s { pool_closed = fns }

slice_of-with_slice :
    (e e' : Event) (fns : Slice) (s : CallbackSnapshot)
    → slice_of e' (with_slice e fns s) ≡ (if same e' e then fns else slice_of e' s)
slice_of-with_slice task_submitted task_submitted fns s = refl
slice_of-with_slice task_enqueued task_enqueued fns s = refl
slice_of-with_slice task_started task_started fns s = refl
slice_of-with_slice task_completed task_completed fns s = refl
slice_of-with_slice pool_closed pool_closed fns s = refl
slice_of-with_slice e e' fns s = refl

module _ {ℓ} {F : Type ℓ} where
  drop-replicate : (n : ℕ) (d : F) → drop n (replicate (suc n) d) ≡ d ∷ []
  drop-replicate zero d = refl
  drop-replicate (suc n) d = drop-replicate n d

  set-end : (xs : List F) (d fn : F) → set (xs ++ d ∷ []) (length xs) fn ≡ xs ++ fn ∷ []
  set-end [] d fn = refl
  set-end (x ∷ xs) d fn = ap (x ∷◌) (set-end xs d fn)

  set-copy :
      (xs : List F) (n : ℕ) (d fn : F)
      → length xs ≡ n
      → set (copy (replicate (suc n) d) xs) n fn ≡ xs ++ fn ∷ []
  unfolding copy
  set-copy xs n d fn e =
      subst (λ n. set (copy (replicate (suc n) d) xs) n fn ≡ xs ++ fn ∷ []) e
        (rw (drop-replicate (length xs) d) (set-end xs d fn))

  take-none : (n : ℕ) (xs ys : List F) → n ≡ 0 → take n xs ≡ take n ys
  take-none zero xs ys e = refl
  take-none (suc n) xs ys e = absurd (omega arith)

  -- The array of a slice was allocated, and has room for it.
  abbrev pub Fits : Memory F → Slice → Type 0
  Fits m s = (s.len ≤ length (m.arrays s.array)) × ((s.array < m.next_array) ⊎ (s.len ≡ 0))

  -- A slice that stands in the memory, and what it reads.
  abbrev pub Reads : Memory F → Slice → List F → Type ℓ
  Reads m s xs = Fits m s × (contents m s ≡ xs)

  -- What an allocation leaves as it was.
  abbrev pub Keeps : Memory F → Memory F → Type ℓ
  Keeps m m' = (s : Slice) → Fits m s → Reads m' s (contents m s)

  snapshot-publish : (s : CallbackSnapshot) (m : Memory F) → snapshot (publish s m) ≡ s
  unfolding snapshot publish
  snapshot-publish s m = ground arith

  Reads-if :
      (b : Bool) (m : Memory F) (s t : Slice) (xs ys : List F)
      → Reads m s xs
      → Reads m t ys
      → Reads m (if b then s else t) (if b then xs else ys)
  Reads-if true m s t xs ys h k = h
  Reads-if false m s t xs ys h k = k

  publish-contents :
      (c : CallbackSnapshot) (m : Memory F) (s : Slice) {xs : List F}
      → Reads m s xs
      → Reads (publish c m) s xs
  unfolding publish contents
  publish-contents c m s r = r

  module _ (nil_fn : F) where
    append_callback-Keeps :
        (s : Slice) (fn : F) (m : Memory F) → Keeps m (append_callback nil_fn s fn m).1
    unfolding append_callback contents
    append_callback-Keeps s fn m t (room, inl below) =
        let fresh : (m.next_array == t.array) ≡ false = ground arith in
        rw fresh ((room, inl (omega arith)), refl)
    append_callback-Keeps s fn m t (room, inr none_) =
        ((omega arith, inr none_), take-none t.len _ _ none_)

    append_callback-contents :
        (s : Slice) (fn : F) (m : Memory F)
        → Fits m s
        → let (s', m') = append_callback nil_fn s fn m in
          Fits m' s' × (contents m' s' ≡ contents m s ++ fn ∷ [])
    unfolding append_callback contents
    append_callback-contents s fn m (room, _) =
        let made = set-copy (contents m s) s.len nil_fn fn (length-take s.len _ room) in
        let size : length (contents m s ++ fn ∷ []) ≡ suc s.len =
          omega (arith, length-append (contents m s) (fn ∷ []), length-take s.len _ room) in
        let self : (m.next_array == m.next_array) ≡ true = ground arith in
        rw self (
          rw made (
            (omega (arith, size), inl (omega arith)),
            take-all (suc s.len) _ (omega (arith, size)),
          ))

    -- The slice of every event in the snapshot stands in the memory.
    abbrev pub Valid : Memory F → Type 0
    Valid m = (e : Event) → Fits m (slice_of e (snapshot m))

    abbrev pub grown_callbacks : Event → F → Memory F → Event → List F
    grown_callbacks e fn m e' =
        if same e' e
        then contents m (slice_of e (snapshot m)) ++ fn ∷ []
        else contents m (slice_of e' (snapshot m))

    empty_snapshot-Fits :
        (e : Event) → Fits (publish empty_snapshot zero_hooks) (slice_of e empty_snapshot)
    empty_snapshot-Fits task_submitted = (omega arith, inr refl)
    empty_snapshot-Fits e = (omega arith, inr refl)

    -- `m'` is `m` with `fn` behind the callbacks of `e`.
    abbrev pub Grows : Event → F → Memory F → Memory F → Type ℓ
    Grows e fn m m' =
        Keeps m m'
        × ((e' : Event) → Reads m' (slice_of e' (snapshot m')) (grown_callbacks e fn m e'))

    add-eq :
        (e : Event) (fn : F) (m : Memory F)
        → let (s', m') = append_callback nil_fn (slice_of e (snapshot m)) fn m in
          add nil_fn e fn m ≡ publish (with_slice e s' (snapshot m)) m'
    unfolding add
    add-eq task_submitted fn m = refl
    add-eq task_enqueued fn m = refl
    add-eq task_started fn m = refl
    add-eq task_completed fn m = refl
    add-eq pool_closed fn m = refl

    publish-Grows :
        (e : Event) (fn : F) (m : Memory F)
        → Valid m
        → let (s', m') = append_callback nil_fn (slice_of e (snapshot m)) fn m in
          Grows e fn m (publish (with_slice e s' (snapshot m)) m')
    publish-Grows e fn m v =
        let grown = append_callback nil_fn (slice_of e (snapshot m)) fn m in
        let s' = grown.0 in
        let m' = grown.1 in
        let c = with_slice e s' (snapshot m) in
        let keeps : Keeps m m' = append_callback-Keeps (slice_of e (snapshot m)) fn m in
        (
          λ s fits. publish-contents c m' s (keeps s fits),
          λ e'.
              subst (λ s. Reads (publish c m') s (grown_callbacks e fn m e'))
                (sym (
                  ap (slice_of e') (snapshot-publish c m')
                  ∙ slice_of-with_slice e e' s' (snapshot m)))
                (Reads-if (same e' e) (publish c m') s' (slice_of e' (snapshot m)) _ _
                  (publish-contents c m' s'
                    (append_callback-contents (slice_of e (snapshot m)) fn m (v e)))
                  (publish-contents c m' _ (keeps (slice_of e' (snapshot m)) (v e')))),
        )

    pub add-Grows : (e : Event) (fn : F) (m : Memory F) → Valid m → Grows e fn m (add nil_fn e fn m)
    add-Grows e fn m v = subst (Grows e fn m) (sym (add-eq e fn m)) (publish-Grows e fn m v)

    pub new_hooks-Valid : Valid new_hooks
    unfolding new_hooks
    new_hooks-Valid e =
        subst (λ s. Fits new_hooks (slice_of e s))
          (sym (snapshot-publish empty_snapshot zero_hooks)) (empty_snapshot-Fits e)

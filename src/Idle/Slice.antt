-- ===== src/Idle/Slice.antt =====
-- internal/idle/slice.go: a slice over a backing array. `workers` is its `size` elements from
-- `start` on; an append that makes a new array keeps them, so the array is unbounded here.
use agile_pool.Prelude.{
  ℕ, suc, ◌+◌, ◌-◌, ◌≤◌, ◌≡◌, refl, sym, ap, subst, ◌∙◌, true, false, inl, inr, Option, none, some,
  List, [], ◌∷◌, ◌++◌, arith, ltb, ◌==◌, if◌then◌else◌, Bool-cases, length, keep, length-append,
  length-keep-le,
}
use agile_pool.Prelude.Update.{update}
use agile_pool.Idle.{IdleContainer, stays}
use agile_pool.Idle.Queue.{IsQueue, at_end, first}
use agile_pool.Idle.Compact.{
  compact, clear, Stored, Apart, Stored-write, clear-Stored, update_other,
}
use agile_pool.Idle.Survivors.{compact-stays}

pub record Slice {ℓ} (A : Type ℓ) : Type ℓ where
  pub array : ℕ → Option A
  pub start : ℕ
  pub size : ℕ
  pub count : ℕ  -- the field `length`

module _ {ℓ} {A : Type ℓ} where
  abbrev pub slot : Slice A → ℕ → ℕ
  slot s i = s.start + i

  abbrev pub new_slice : Slice A
  new_slice = record { array = λ _. none; start = 0; size = 0; count = 0 }

  pub add : A → Slice A → Slice A
  add a s = record s {
    array = update s.array (slot s s.size) (some a);
    size = suc s.size;
    count = suc s.count;
  }

  abbrev take_first : Slice A → Option A × Slice A
  take_first s = (
    s.array (slot s 0),
    record s {
      array = update s.array (slot s 0) none;
      start = suc s.start;
      size = s.size - 1;
      count = s.count - 1;
    },
  )

  pub pop : Slice A → Option A × Slice A
  pop s = if s.count == 0 then (none, s) else take_first s

  module _ (date : A → ℕ) where
    -- The loop over `workers`: the number of survivors, and the array.
    abbrev survivors : (now expiry : ℕ) → Slice A → ℕ × (ℕ → Option A)
    survivors now expiry s =
        compact (λ a. ltb (now - expiry) (date a)) false (slot s) s.size 0 0 s.array

    -- `removed` and the slice after the loop.
    abbrev cut_off : Slice A → ℕ → (ℕ → Option A) → ℕ × Slice A
    cut_off s w array =
        let removed = s.size - w in
        (
          removed,
          if ltb 0 removed
              then record s {
                array = clear (slot s) removed w array;
                size = w;
                count = s.count - removed;
              }
              else record s { array = array },
        )

    pub remove_expired : (now expiry : ℕ) → Slice A → ℕ × Slice A
    remove_expired now expiry s =
        let (w, array) = survivors now expiry s in
        if s.count == 0 then (0, s) else cut_off s w array

    pub slice : IdleContainer A
    slice = record {
      State = Slice A;
      new = new_slice;
      add = add;
      pop = pop;
      remove_expired = remove_expired;
      len = λ s. s.count;
    }

  pub record Holds (s : Slice A) (xs : List A) : Type ℓ where
    pub sized : s.size ≡ length xs
    pub counted : s.count ≡ length xs
    pub stored : Stored (slot s) s.array 0 xs

  slot-Apart : (s : Slice A) (n : ℕ) → Apart (slot s) n
  slot-Apart s n i j hi hj e = omega (arith, e)

  add-Holds : (a : A) (s : Slice A) (xs : List A) → Holds s xs → Holds (add a s) (xs ++ a ∷ [])
  unfolding add
  add-Holds a s xs h = record {
    sized = omega (arith, h.sized, length-append xs (a ∷ []));
    counted = omega (arith, h.counted, length-append xs (a ∷ []));
    stored =
        subst (λ k. Stored (slot s) (update s.array (slot s k) (some a)) 0 (xs ++ a ∷ []))
          (sym h.sized)
          (Stored-write (slot s) (suc (length xs)) s.array xs a (slot-Apart s _) (omega arith)
            h.stored);
  }

  -- A result agrees with what the queue gives.
  abbrev Popped : Option A × Slice A → List A → Type ℓ
  Popped r xs = (r.0 ≡ (first xs).0) × Holds r.1 (first xs).1

  take_first-Holds :
      (s : Slice A) (x : A) (xs : List A) → Holds s (x ∷ xs) → Popped (take_first s) (x ∷ xs)
  take_first-Holds s x xs h = (
    h.stored 0 (omega arith),
    record {
      sized = omega (arith, h.sized);
      counted = omega (arith, h.counted);
      stored = λ j lj.
          update_other s.array (slot s 0) (suc s.start + (0 + j)) none (omega arith)
          ∙ ap s.array (omega arith)
          ∙ h.stored (suc j) (omega (arith, lj));
    },
  )

  pop-Holds : (s : Slice A) (xs : List A) → Holds s xs → Popped (pop s) xs
  unfolding pop
  pop-Holds s [] h =
      let none_left : (s.count == 0) ≡ true = ground (arith, h.counted) in
      subst (λ b. Popped (if b then (none, s) else take_first s) []) (sym none_left) (refl, h)
  pop-Holds s (x ∷ xs) h =
      let some_left : (s.count == 0) ≡ false = ground (arith, h.counted) in
      subst (λ b. Popped (if b then (none, s) else take_first s) (x ∷ xs)) (sym some_left)
        (take_first-Holds s x xs h)

  module _ (date : A → ℕ) where
    abbrev Removed : (now expiry : ℕ) → ℕ × Slice A → List A → Type ℓ
    Removed now expiry r xs =
        let rest = keep (stays date now expiry) xs in
        (r.0 ≡ length xs - length rest) × Holds r.1 rest

    cut_off-Holds :
        (s : Slice A) (xs rest : List A) (w : ℕ) (array : ℕ → Option A)
        → Holds s xs
        → length rest ≤ length xs
        → w ≡ length rest
        → Stored (slot s) array 0 rest
        → let r = cut_off date s w array in (r.0 ≡ length xs - length rest) × Holds r.1 rest
    cut_off-Holds s xs rest w array h le e kept = elim (Bool-cases (ltb 0 (s.size - w))) [
      | inl some_removed ↦ (
        omega (arith, h.sized, e),
        rw some_removed record {
          sized = e;
          counted = omega (arith, h.sized, h.counted, e, le);
          stored =
              clear-Stored (slot s) (length xs) (s.size - w) w array rest (slot-Apart s _)
                (omega (arith, e)) (omega (arith, e, le, h.sized)) kept;
        },
      )
      | inr none_removed ↦ (
        omega (arith, h.sized, e),
        rw none_removed record {
          sized = ground (arith, e, h.sized);
          counted = ground (arith, e, h.counted, h.sized);
          stored = kept;
        },
      )
    ]

    remove_expired-Holds :
        (now expiry : ℕ) (s : Slice A) (xs : List A)
        → expiry ≤ now
        → Holds s xs
        → Removed now expiry (remove_expired date now expiry s) xs
    unfolding remove_expired
    remove_expired-Holds now expiry s [] le h =
        let none_left : (s.count == 0) ≡ true = ground (arith, h.counted) in
        let (w, array) = survivors date now expiry s in
        subst (λ b. Removed now expiry (if b then (0, s) else cut_off date s w array) [])
          (sym none_left) (omega arith, h)
    remove_expired-Holds now expiry s (x ∷ xs) le h =
        let some_left : (s.count == 0) ≡ false = ground (arith, h.counted) in
        let (w, array) = survivors date now expiry s in
        let c =
          compact-stays date now expiry le false (slot s) s.size s.array (x ∷ xs) (slot-Apart s _)
            h.sized h.stored in
        subst (λ b. Removed now expiry (if b then (0, s) else cut_off date s w array) (x ∷ xs))
          (sym some_left)
          (cut_off-Holds s (x ∷ xs) (keep (stays date now expiry) (x ∷ xs)) w array h
            (length-keep-le (stays date now expiry) (x ∷ xs)) c.0 c.1)

    -- The slice is a first-in first-out queue.
    pub slice-IsQueue : IsQueue date at_end (slice date)
    unfolding slice
    slice-IsQueue = record {
      Holds = Holds;
      new_law = record {
        sized = refl;
        counted = refl;
        stored = λ j lj. absurd (omega (arith, lj));
      };
      add_law = add-Holds;
      pop_law = pop-Holds;
      remove_law = remove_expired-Holds;
      len_law = λ s xs h. h.counted;
    }

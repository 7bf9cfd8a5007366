-- ===== src/Idle/RingQueue/Order.antt =====
-- The ring queue is a first-in first-out queue.
use agile_pool.Prelude.{
  ℕ, zero, suc, ◌+◌, ◌-◌, ◌*◌, ◌%◌, ◌≤◌, ◌<◌, ◌≡◌, refl, sym, ap, subst, ◌∙◌, true, false, ◌⊎◌, inl,
  inr, Option, none, some, List, [], ◌∷◌, ◌++◌, arith, ltb, ◌==◌, if◌then◌else◌, Bool-cases, ==_iff,
  length, keep, length-append, length-keep-le,
}
use native.Mathlib.Nat.{mod-lt, mod-eq_of_lt, mod-add-mod, mod-eq-sub-mod}
use agile_pool.Prelude.Update.{update}
use agile_pool.Idle.{stays}
use agile_pool.Idle.Queue.{IsQueue, at_end, first}
use agile_pool.Idle.Compact.{
  Stored, Apart, Stored-write, Stored-update, Stored-tail, clear-Stored, update_other, update_same,
}
use agile_pool.Idle.Survivors.{compact-stays}
use agile_pool.Idle.RingQueue.{
  RingQueue, place, copy, grow, append_last, add, take_first, pop, survivors, cut_off,
  remove_expired, ring_queue, Holds,
}

wrap : (m a : ℕ) → 0 < m → a < m + m → (a < m × (a % m ≡ a)) ⊎ ((m ≤ a) × (a % m ≡ a - m))
wrap m a h lt = elim (Bool-cases (ltb a m)) [
  | inl below ↦ inl (ground arith, mod-eq_of_lt (ground arith))
  | inr above ↦ inr (ground arith, mod-eq-sub-mod (ground arith) ∙ mod-eq_of_lt (omega arith))
]

wrap_injective : (m h i j : ℕ) → h < m → i < m → j < m → (h + i) % m ≡ (h + j) % m → i ≡ j
wrap_injective m h i j lh li lj e =
    ground (
      arith,
      wrap m (h + i) (omega arith) (omega arith),
      wrap m (h + j) (omega arith) (omega arith),
    )

module _ {ℓ} {A : Type ℓ} where
  place-Apart : (q : RingQueue A) (n : ℕ) → q.head < q.cap → n ≤ q.cap → Apart (place q) n
  place-Apart q n h le i j li lj e =
      wrap_injective q.cap q.head i j h (omega (arith, li, le)) (omega (arith, lj, le)) e

  append_last-Holds :
      (a : A) (q : RingQueue A) (xs : List A)
      → q.count < q.cap
      → Holds q xs
      → Holds (append_last a q) (xs ++ a ∷ [])
  append_last-Holds a q xs lt h = record {
    room = (h.room.0, lt);
    at_head = h.at_head;
    at_tail =
        ap (λ t. (t + 1) % q.cap) h.at_tail
        ∙ mod-add-mod (q.head + q.count) q.cap 1
        ∙ ap (◌% q.cap) (omega arith);
    counted = omega (arith, h.counted, length-append xs (a ∷ []));
    stored =
        subst (λ k. Stored (place q) (update q.buf k (some a)) 0 (xs ++ a ∷ []))
          (ap (place q) (sym h.counted) ∙ sym h.at_tail)
          (Stored-write (place q) q.cap q.buf xs a (place-Apart q q.cap h.at_head (omega arith))
            (omega (arith, h.counted, lt)) h.stored);
  }

  -- The copy has the elements from position 0 on.
  copy-eq :
      (q : RingQueue A) (r i j : ℕ) (buf : ℕ → Option A)
      → j < i + r
      → (j < i → buf j ≡ q.buf (place q j))
      → copy q r i buf j ≡ q.buf (place q j)
  unfolding copy
  copy-eq q zero i j buf lt h = h (omega (arith, lt))
  copy-eq q (suc r) i j buf lt h =
      copy-eq q r (suc i) j (update buf i (q.buf (place q i))) (omega (arith, lt)) λ le.
        elim (Bool-cases (i == j)) [
          | inl here ↦
              let e : i ≡ j = (==_iff i j).0 here in
              update_same buf i j (q.buf (place q i)) e ∙ ap (λ k. q.buf (place q k)) e
          | inr other ↦
              update_other buf i j (q.buf (place q i)) (λ e. ground (arith, e))
              ∙ h (ground (arith, le))
        ]

  grow-Holds :
      (q : RingQueue A) (xs : List A)
      → Holds q xs
      → Holds (grow q) xs × ((grow q).count < (grow q).cap)
  unfolding grow
  grow-Holds q xs h = (
    record {
      room = (omega (arith, h.room), omega (arith, h.room));
      at_head = omega (arith, h.room);
      at_tail = sym (mod-eq_of_lt (omega (arith, h.room))) ∙ ap (◌% (q.cap * 2)) (omega arith);
      counted = h.counted;
      stored = λ j lj.
          ap (copy q q.count 0 (λ _. none)) (
            ap (◌% (q.cap * 2)) (omega arith) ∙ mod-eq_of_lt (omega (arith, h.room, h.counted, lj)))
          ∙ copy-eq q q.count 0 j (λ _. none) (omega (arith, h.counted, lj))
              (λ le. absurd (omega (arith, le)))
          ∙ ap (λ k. q.buf (place q k)) (omega arith)
          ∙ h.stored j lj;
    },
    omega (arith, h.room),
  )

  add-Holds : (a : A) (q : RingQueue A) (xs : List A) → Holds q xs → Holds (add a q) (xs ++ a ∷ [])
  unfolding add
  add-Holds a q xs h = elim (Bool-cases (q.cap == q.count)) [
    | inl full ↦
        let g = grow-Holds q xs h in
        subst (λ b. Holds (append_last a (if b then grow q else q)) (xs ++ a ∷ [])) (sym full)
          (append_last-Holds a (grow q) xs g.1 g.0)
    | inr free ↦
        subst (λ b. Holds (append_last a (if b then grow q else q)) (xs ++ a ∷ [])) (sym free)
          (append_last-Holds a q xs (ground (arith, h.room)) h)
  ]

  abbrev Popped : Option A × RingQueue A → List A → Type ℓ
  Popped r xs = (r.0 ≡ (first xs).0) × Holds r.1 (first xs).1

  take_first-Holds :
      (q : RingQueue A) (x : A) (xs : List A) → Holds q (x ∷ xs) → Popped (take_first q) (x ∷ xs)
  take_first-Holds q x xs h =
      let at_zero : place q 0 ≡ q.head = ap (◌% q.cap) (omega arith) ∙ mod-eq_of_lt h.at_head in
      let (here, behind) = Stored-tail (place q) q.buf 0 x xs h.stored in
      let fit : 1 + length xs ≤ q.cap = omega (arith, h.room, h.counted) in
      let kept =
        Stored-update (place q) q.cap q.buf 1 xs 0 none
          (place-Apart q q.cap h.at_head (omega arith)) fit (omega (arith, fit)) (inl (omega arith))
          behind in
      let on : (j : ℕ) → ((q.head + 1) % q.cap + j) % q.cap ≡ place q (1 + j) =
        λ j. mod-add-mod (q.head + 1) q.cap j ∙ ap (◌% q.cap) (omega arith) in
      (
        ap q.buf (sym at_zero) ∙ here,
        record {
          room = (h.room.0, omega (arith, h.room));
          at_head = mod-lt (q.head + 1) h.room.0;
          at_tail = h.at_tail ∙ ap (place q) (omega (arith, h.counted)) ∙ sym (on (q.count - 1));
          counted = omega (arith, h.counted);
          stored = λ j lj.
              ap (update q.buf q.head none) (on (0 + j) ∙ ap (place q) (omega arith))
              ∙ ap (λ k. update q.buf k none (place q (1 + j))) (sym at_zero)
              ∙ kept j lj;
        },
      )

  pop-Holds : (q : RingQueue A) (xs : List A) → Holds q xs → Popped (pop q) xs
  unfolding pop
  pop-Holds q [] h =
      let none_left : (q.count == 0) ≡ true = ground (arith, h.counted) in
      subst (λ b. Popped (if b then (none, q) else take_first q) []) (sym none_left) (refl, h)
  pop-Holds q (x ∷ xs) h =
      let some_left : (q.count == 0) ≡ false = ground (arith, h.counted) in
      subst (λ b. Popped (if b then (none, q) else take_first q) (x ∷ xs)) (sym some_left)
        (take_first-Holds q x xs h)

  module _ (date : A → ℕ) where
    abbrev Removed : (now expiry : ℕ) → ℕ × RingQueue A → List A → Type ℓ
    Removed now expiry r xs =
        let rest = keep (stays date now expiry) xs in
        (r.0 ≡ length xs - length rest) × Holds r.1 rest

    cut_off-Holds :
        (q : RingQueue A) (xs rest : List A) (w : ℕ) (buf : ℕ → Option A)
        → Holds q xs
        → length rest ≤ length xs
        → w ≡ length rest
        → Stored (place q) buf 0 rest
        → let r = cut_off date q w buf in (r.0 ≡ length xs - length rest) × Holds r.1 rest
    cut_off-Holds q xs rest w buf h le e kept =
        let left : q.count - (q.count - w) ≡ w = omega (arith, h.counted, e, le) in
        (
          omega (arith, h.counted, e),
          record {
            room = (h.room.0, omega (arith, h.room));
            at_head = h.at_head;
            at_tail = ap (place q) (sym left);
            counted = left ∙ e;
            stored =
                clear-Stored (place q) q.cap (q.count - w) w buf rest
                  (place-Apart q q.cap h.at_head (omega arith)) (omega (arith, e))
                  (omega (arith, e, le, h.counted, h.room)) kept;
          },
        )

    remove_expired-Holds :
        (now expiry : ℕ) (q : RingQueue A) (xs : List A)
        → expiry ≤ now
        → Holds q xs
        → Removed now expiry (remove_expired date now expiry q) xs
    unfolding remove_expired
    remove_expired-Holds now expiry q [] le h =
        let none_left : (q.count == 0) ≡ true = ground (arith, h.counted) in
        let (w, buf) = survivors date now expiry q in
        subst (λ b. Removed now expiry (if b then (0, q) else cut_off date q w buf) [])
          (sym none_left) (omega arith, h)
    remove_expired-Holds now expiry q (x ∷ xs) le h =
        let some_left : (q.count == 0) ≡ false = ground (arith, h.counted) in
        let (w, buf) = survivors date now expiry q in
        let c =
          compact-stays date now expiry le true (place q) q.count q.buf (x ∷ xs)
            (place-Apart q _ h.at_head (omega (arith, h.room, h.counted))) h.counted h.stored in
        subst (λ b. Removed now expiry (if b then (0, q) else cut_off date q w buf) (x ∷ xs))
          (sym some_left)
          (cut_off-Holds q (x ∷ xs) (keep (stays date now expiry) (x ∷ xs)) w buf h
            (length-keep-le (stays date now expiry) (x ∷ xs)) c.0 c.1)

    -- The ring queue is a first-in first-out queue.
    pub ring_queue-IsQueue : IsQueue date at_end (ring_queue date)
    unfolding ring_queue
    ring_queue-IsQueue = record {
      Holds = Holds;
      new_law = record {
        room = (omega arith, omega arith);
        at_head = omega arith;
        at_tail = refl;
        counted = refl;
        stored = λ j lj. absurd (omega (arith, lj));
      };
      add_law = add-Holds;
      pop_law = pop-Holds;
      remove_law = remove_expired-Holds;
      len_law = λ q xs h. h.counted;
    }

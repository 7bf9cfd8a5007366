-- ===== src/Idle/Compact.antt =====
-- The loops of `RemoveExpired` in slice.go and ring_queue.go, which keep survivors in place.
use agile_pool.Prelude.{
  ℕ, zero, suc, ◌+◌, ◌≤◌, ◌<◌, ◌≡◌, ◌≢◌, refl, sym, ap, ◌∙◌, Bool, true, false, not, ◌&&◌, ◌⊎◌,
  Option, none, some, List, [], ◌∷◌, ◌++◌, arith, ◌==◌, if◌then◌else◌, Bool-cases, ==_iff, inl, inr,
  length, get_elem?, length-append,
}
use agile_pool.Prelude.Update.{update}

-- Positions below `n` have slots of their own.
abbrev pub Apart : (ℕ → ℕ) → ℕ → Type 0
Apart place n = (i j : ℕ) → i < n → j < n → place i ≡ place j → i ≡ j

module _ {ℓ} {A : Type ℓ} where
  -- A nil element has no date: reading it would panic.
  abbrev pub fresh_slot : (A → Bool) → Option A → Bool
  fresh_slot fresh none = false
  fresh_slot fresh (some a) = fresh a

  module _ (fresh : A → Bool) (skip : Bool) (place : ℕ → ℕ) where
    -- `place i` is the slot of position `i`; `skip` says that a survivor that need not move is not
    -- written. From position `i` on, with `w` survivors so far.
    unfoldable pub compact : (remaining i w : ℕ) → (ℕ → Option A) → ℕ × (ℕ → Option A)
    compact zero i w buf = (w, buf)
    compact (suc r) i w buf =
        let x = buf (place i) in
        let stays = fresh_slot fresh x in
        let moves = stays && not (skip && (w == i)) in
        compact r (suc i) (if stays then suc w else w)
          (if moves then update buf (place w) x else buf)

  -- The slots of `remaining` positions from `i` on become nil.
  unfoldable pub clear : (ℕ → ℕ) → (remaining i : ℕ) → (ℕ → Option A) → ℕ → Option A
  clear place zero i buf = buf
  clear place (suc r) i buf = clear place r (suc i) (update buf (place i) none)

  -- The positions from `i` on hold `xs`.
  abbrev pub Stored : (ℕ → ℕ) → (ℕ → Option A) → ℕ → List A → Type ℓ
  Stored place buf i xs = (j : ℕ) → j < length xs → buf (place (i + j)) ≡ get_elem? xs j

  pub get_elem?-append_left :
      (xs ys : List A) (i : ℕ) → i < length xs → get_elem? (xs ++ ys) i ≡ get_elem? xs i
  get_elem?-append_left [] ys i h = absurd (omega arith)
  get_elem?-append_left (x ∷ xs) ys zero h = refl
  get_elem?-append_left (x ∷ xs) ys (suc i) h = get_elem?-append_left xs ys i (omega arith)

  pub get_elem?-append_last :
      (xs : List A) (x : A) (i : ℕ) → i ≡ length xs → get_elem? (xs ++ x ∷ []) i ≡ some x
  get_elem?-append_last [] x zero h = refl
  get_elem?-append_last [] x (suc i) h = absurd (omega (arith, h))
  get_elem?-append_last (y ∷ xs) x zero h = absurd (omega (arith, h))
  get_elem?-append_last (y ∷ xs) x (suc i) h = get_elem?-append_last xs x i (omega (arith, h))

  pub update_same : (buf : ℕ → Option A) (i j : ℕ) (v : Option A) → i ≡ j → update buf i v j ≡ v
  update_same buf i j v e = let hit : (i == j) ≡ true = (==_iff i j).1 e in rw hit refl

  pub update_other :
      (buf : ℕ → Option A) (i j : ℕ) (v : Option A) → i ≢ j → update buf i v j ≡ buf j
  update_other buf i j v ne = elim (Bool-cases (i == j)) [
    | inl same ↦ absurd (ne ((==_iff i j).0 same))
    | inr other ↦ rw other refl
  ]

  pub Stored-append :
      (place : ℕ → ℕ) (buf : ℕ → Option A) (xs : List A) (x : A)
      → Stored place buf 0 xs
      → buf (place (length xs)) ≡ some x
      → Stored place buf 0 (xs ++ x ∷ [])
  Stored-append place buf xs x h e j lj = elim (Bool-cases (j == length xs)) [
    | inl last ↦
        let same : j ≡ length xs = (==_iff j (length xs)).0 last in
        ap (λ k. buf (place k)) (omega (arith, same)) ∙ e ∙ sym (get_elem?-append_last xs x j same)
    | inr before ↦
        let below : j < length xs = ground (arith, length-append xs (x ∷ [])) in
        h j below ∙ sym (get_elem?-append_left xs (x ∷ []) j below)
  ]

  -- A write at another position.
  pub Stored-update :
      (place : ℕ → ℕ) (n : ℕ) (buf : ℕ → Option A) (i : ℕ) (xs : List A) (k : ℕ) (v : Option A)
      → Apart place n
      → i + length xs ≤ n
      → k < n
      → (k < i) ⊎ (i + length xs ≤ k)
      → Stored place buf i xs
      → Stored place (update buf (place k) v) i xs
  Stored-update place n buf i xs k v apart le lt away h j lj =
      update_other buf (place k) (place (i + j)) v
        (λ clash. ground (arith, apart k (i + j) lt (omega (arith, le, lj)) clash))
      ∙ h j lj

  pub Stored-write :
      (place : ℕ → ℕ) (n : ℕ) (buf : ℕ → Option A) (xs : List A) (x : A)
      → Apart place n
      → length xs < n
      → Stored place buf 0 xs
      → Stored place (update buf (place (length xs)) (some x)) 0 (xs ++ x ∷ [])
  Stored-write place n buf xs x apart lt h =
      Stored-append place (update buf (place (length xs)) (some x)) xs x
        (Stored-update place n buf 0 xs (length xs) (some x) apart (omega (arith, lt)) lt
          (inr (omega arith)) h)
        (update_same buf (place (length xs)) (place (length xs)) (some x) refl)

  pub clear-Stored :
      (place : ℕ → ℕ) (n r i : ℕ) (buf : ℕ → Option A) (xs : List A)
      → Apart place n
      → length xs ≤ i
      → i + r ≤ n
      → Stored place buf 0 xs
      → Stored place (clear place r i buf) 0 xs
  unfolding clear
  clear-Stored place n zero i buf xs apart le room h = h
  clear-Stored place n (suc r) i buf xs apart le room h =
      clear-Stored place n r (suc i) (update buf (place i) none) xs apart (omega (arith, le))
        (omega (arith, room))
        (Stored-update place n buf 0 xs i none apart (omega (arith, le, room)) (omega (arith, room))
          (inr (omega (arith, le))) h)

  pub Stored-tail :
      (place : ℕ → ℕ) (buf : ℕ → Option A) (i : ℕ) (x : A) (xs : List A)
      → Stored place buf i (x ∷ xs)
      → (buf (place i) ≡ some x) × Stored place buf (suc i) xs
  Stored-tail place buf i x xs h = (
    ap (λ k. buf (place k)) (omega arith) ∙ h 0 (omega arith),
    λ j lj. ap (λ k. buf (place k)) (omega arith) ∙ h (suc j) (omega (arith, lj)),
  )

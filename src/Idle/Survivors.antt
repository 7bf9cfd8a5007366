-- ===== src/Idle/Survivors.antt =====
-- The loop of `RemoveExpired` leaves the survivors in front, in their order.
use agile_pool.Prelude.{
  ℕ, suc, ltb, leb, ◌+◌, ◌-◌, ◌≤◌, ◌≡◌, refl, sym, ap, ◌∙◌, Bool, true, false, not, ◌&&◌, Option,
  some, List, [], ◌∷◌, ◌++◌, arith, ◌==◌, if◌then◌else◌, Bool-cases, inl, inr, length, keep,
  length-append, append-nil, subst, append_assoc,
}
use agile_pool.Prelude.Update.{update}
use agile_pool.Idle.{stays}
use agile_pool.Idle.Compact.{
  compact, Apart, Stored, fresh_slot, Stored-append, Stored-update, Stored-write, Stored-tail,
}

at_home : (skip : Bool) (w i : ℕ) → (skip && (w == i)) ≡ true → w ≡ i
at_home skip w i h = ground arith

module _ {ℓ} {A : Type ℓ} where
  module _ (fresh : A → Bool) (skip : Bool) (place : ℕ → ℕ) where
    abbrev carry_on :
        (r i w : ℕ) → (ℕ → Option A) → Option A → (stays home : Bool) → ℕ × (ℕ → Option A)
    carry_on r i w buf x stays home =
        compact fresh skip place r (suc i) (if stays then suc w else w)
          (if stays && not home then update buf (place w) x else buf)

    compact-carry_on :
        (r i w : ℕ) (buf : ℕ → Option A) (x : A) (stays home : Bool)
        → buf (place i) ≡ some x
        → fresh x ≡ stays
        → (skip && (w == i)) ≡ home
        → compact fresh skip place (suc r) i w buf ≡ carry_on r i w buf (some x) stays home
    unfolding compact
    compact-carry_on r i w buf x stays home e s m =
        ap (λ y. carry_on r i w buf y (fresh_slot fresh y) (skip && (w == i))) e
        ∙ ap (λ b. carry_on r i w buf (some x) b (skip && (w == i))) s
        ∙ ap (carry_on r i w buf (some x) stays) m

    abbrev Compacted : ℕ × (ℕ → Option A) → List A → List A → Type ℓ
    Compacted c ys kept = (c.0 ≡ length ys + length kept) × Stored place c.1 0 (ys ++ kept)

    Compacted-suc :
        (c : ℕ × (ℕ → Option A)) (ys : List A) (x : A) (kept : List A)
        → Compacted c (ys ++ x ∷ []) kept
        → Compacted c ys (x ∷ kept)
    Compacted-suc c ys x kept h = (
      omega (arith, h.0, length-append ys (x ∷ [])),
      subst (Stored place c.1 0) (append_assoc ys (x ∷ []) kept) h.1,
    )

  module _ (fresh : A → Bool) (skip : Bool) (place : ℕ → ℕ) (n : ℕ) (apart : Apart place n) where
    -- The survivors end up in front, in their order.
    pub compact-Stored :
        (rest : List A) (i : ℕ) (buf : ℕ → Option A) (ys : List A) (w : ℕ)
        → w ≡ length ys
        → w ≤ i
        → i + length rest ≤ n
        → Stored place buf 0 ys
        → Stored place buf i rest
        → let c = compact fresh skip place (length rest) i w buf in
          (c.0 ≡ length ys + length (keep fresh rest)) × Stored place c.1 0 (ys ++ keep fresh rest)
    unfolding compact
    compact-Stored [] i buf ys w e le room front back =
        (omega (arith, e), subst (Stored place buf 0) (sym (append-nil ys)) front)
    compact-Stored (x ∷ rest) i buf ys w e le room front back =
        let (here, behind) = Stored-tail place buf i x rest back in
        let step = compact-carry_on fresh skip place (length rest) i w buf x in
        elim (Bool-cases (fresh x)) [
          | inl stays ↦
              let longer : suc w ≡ length (ys ++ x ∷ []) =
                omega (arith, e, length-append ys (x ∷ [])) in
              elim (Bool-cases (skip && (w == i))) [
                | inl home ↦
                    let r =
                      compact-Stored rest (suc i) buf (ys ++ x ∷ []) (suc w) longer
                        (omega (arith, le)) (omega (arith, room))
                        (Stored-append place buf ys x front
                          (ap (λ k. buf (place k)) (sym e ∙ at_home skip w i home) ∙ here))
                        behind in
                    rw stays (
                      subst (λ c. Compacted fresh skip place c ys (x ∷ keep fresh rest))
                        (sym (step true true here stays home))
                        (Compacted-suc fresh skip place
                          (compact fresh skip place (length rest) (suc i) (suc w) buf) ys x
                          (keep fresh rest) r))
                | inr away ↦
                    let r =
                      compact-Stored rest (suc i) (update buf (place w) (some x)) (ys ++ x ∷ [])
                        (suc w) longer (omega (arith, le)) (omega (arith, room))
                        (subst (λ k. Stored place (update buf (place k) (some x)) 0 (ys ++ x ∷ []))
                          (sym e)
                          (Stored-write place n buf ys x apart (omega (arith, e, le, room)) front))
                        (Stored-update place n buf (suc i) rest w (some x) apart
                          (omega (arith, room)) (omega (arith, le, room)) (inl (omega (arith, le)))
                          behind) in
                    rw stays (
                      subst (λ c. Compacted fresh skip place c ys (x ∷ keep fresh rest))
                        (sym (step true false here stays away))
                        (Compacted-suc fresh skip place
                          (compact fresh skip place (length rest) (suc i) (suc w)
                            (update buf (place w) (some x)))
                          ys x (keep fresh rest) r))
              ]
          | inr goes ↦
              let r =
                compact-Stored rest (suc i) buf ys w e (omega (arith, le)) (omega (arith, room))
                  front behind in
              rw goes (
                subst (λ c. Compacted fresh skip place c ys (keep fresh rest))
                  (sym (step false (skip && (w == i)) here goes refl)) r)
        ]

after_cutoff : (d now expiry : ℕ) → expiry ≤ now → ltb (now - expiry) d ≡ not (leb (d + expiry) now)
after_cutoff d now expiry h = ground arith

module _ {ℓ} {A : Type ℓ} (date : A → ℕ) (now expiry : ℕ) (timely : expiry ≤ now) where
  keep-stays :
      (xs : List A) → keep (λ a. ltb (now - expiry) (date a)) xs ≡ keep (stays date now expiry) xs
  keep-stays [] = refl
  keep-stays (x ∷ xs) =
      ap
        (λ b.
          if b
          then x ∷ keep (λ a. ltb (now - expiry) (date a)) xs
          else keep (λ a. ltb (now - expiry) (date a)) xs)
        (after_cutoff (date x) now expiry timely)
      ∙ ap (λ l. if stays date now expiry x then x ∷ l else l) (keep-stays xs)

  -- The loop of `RemoveExpired` from the first position on keeps what has not expired.
  pub compact-stays :
      (skip : Bool) (place : ℕ → ℕ) (n : ℕ) (buf : ℕ → Option A) (xs : List A)
      → Apart place (length xs)
      → n ≡ length xs
      → Stored place buf 0 xs
      → let c = compact (λ a. ltb (now - expiry) (date a)) skip place n 0 0 buf in
        (c.0 ≡ length (keep (stays date now expiry) xs))
        × Stored place c.1 0 (keep (stays date now expiry) xs)
  compact-stays skip place n buf xs apart e h =
      let loop = compact (λ a. ltb (now - expiry) (date a)) skip place in
      let r =
        compact-Stored (λ a. ltb (now - expiry) (date a)) skip place (length xs) apart xs 0 buf [] 0
          refl (omega arith) (omega arith) (λ j lj. absurd (omega (arith, lj))) h in
      subst
        (λ m.
          ((loop m 0 0 buf).0 ≡ length (keep (stays date now expiry) xs))
          × Stored place (loop m 0 0 buf).1 0 (keep (stays date now expiry) xs))
        (sym e)
        (subst
          (λ l.
            ((loop (length xs) 0 0 buf).0 ≡ length l)
            × Stored place (loop (length xs) 0 0 buf).1 0 l)
          (keep-stays xs) (omega (arith, r.0), r.1))

-- ===== src/Idle/LinkedList/Segment.antt =====
-- Chains of nodes in the memory, and what writes leave of them.
use agile_pool.Prelude.{
  ℕ, ◌≡◌, refl, sym, ap, ◌∙◌, true, false, Option, some, List, [], ◌∷◌, ◌++◌, arith, ◌==◌,
}
use agile_pool.Prelude.Update.{update}
use agile_pool.Prelude.All.{All}
use agile_pool.Idle.LinkedList.{Node, Nodes, with_next, with_prev, set_next, set_prev}

-- Addresses with their values.
abbrev pub Cells {ℓ} : Type ℓ → Type ℓ
Cells A = List (ℕ × A)

pub ==_sym : (a b : ℕ) → (a == b) ≡ false → (b == a) ≡ false
==_sym a b h = ground arith

module _ {ℓ} {A : Type ℓ} where
  -- The first address of the cells, or else `stop`; the last one, or else `start`.
  abbrev pub front : Cells A → Option ℕ → Option ℕ
  front [] stop = stop
  front ((p, v) ∷ cs) stop = some p

  abbrev pub back : Option ℕ → Cells A → Option ℕ
  back start [] = start
  back start ((p, v) ∷ cs) = back (some p) cs

  -- The cells are linked to each other, behind `start` and before `stop`.
  abbrev pub Seg : Nodes A → Option ℕ → Cells A → Option ℕ → Type ℓ
  Seg m start [] stop = Unit
  Seg m start ((p, v) ∷ cs) stop =
      (m p ≡ some (record { val = v; next = front cs stop; prev = start })) × Seg m (some p) cs stop

  abbrev pub Off : ℕ → Cells A → Type 0
  Off p cs = All (λ (c : ℕ × A). (p == c.0) ≡ false) cs

  abbrev pub Distinct : Cells A → Type 0
  Distinct [] = Unit
  Distinct ((p, v) ∷ cs) = Off p cs × Distinct cs

  pub front-append :
      (xs ys : Cells A) (stop : Option ℕ) → front (xs ++ ys) stop ≡ front xs (front ys stop)
  front-append [] ys stop = refl
  front-append (c ∷ xs) ys stop = refl

  pub back-append :
      (start : Option ℕ) (xs ys : Cells A) → back start (xs ++ ys) ≡ back (back start xs) ys
  back-append start [] ys = refl
  back-append start ((p, v) ∷ xs) ys = back-append (some p) xs ys

  pub Seg-left :
      (m : Nodes A) (start : Option ℕ) (xs ys : Cells A) (stop : Option ℕ)
      → Seg m start (xs ++ ys) stop
      → Seg m start xs (front ys stop)
  Seg-left m start [] ys stop s = tt
  Seg-left m start ((p, v) ∷ xs) ys stop s = (
    s.0 ∙ ap (λ q. some (record { val = v; next = q; prev = start })) (front-append xs ys stop),
    Seg-left m (some p) xs ys stop s.1,
  )

  pub Seg-right :
      (m : Nodes A) (start : Option ℕ) (xs ys : Cells A) (stop : Option ℕ)
      → Seg m start (xs ++ ys) stop
      → Seg m (back start xs) ys stop
  Seg-right m start [] ys stop s = s
  Seg-right m start ((p, v) ∷ xs) ys stop s = Seg-right m (some p) xs ys stop s.1

  pub Seg-append :
      (m : Nodes A) (start : Option ℕ) (xs ys : Cells A) (stop : Option ℕ)
      → Seg m start xs (front ys stop)
      → Seg m (back start xs) ys stop
      → Seg m start (xs ++ ys) stop
  Seg-append m start [] ys stop s t = t
  Seg-append m start ((p, v) ∷ xs) ys stop s t = (
    s.0
        ∙ ap (λ q. some (record { val = v; next = q; prev = start }))
            (sym (front-append xs ys stop)),
    Seg-append m (some p) xs ys stop s.1 t,
  )

  -- A write elsewhere leaves the chain.
  pub Seg-update :
      (m : Nodes A) (start : Option ℕ) (cs : Cells A) (stop : Option ℕ) (q : ℕ)
      (n : Option (Node A))
      → Off q cs
      → Seg m start cs stop
      → Seg (update m q n) start cs stop
  Seg-update m start [] stop q n off s = tt
  Seg-update m start ((p, v) ∷ cs) stop q n off s =
      (rw off.0 s.0, Seg-update m (some p) cs stop q n off.1 s.1)

  abbrev pub Apart : Cells A → Cells A → Type 0
  Apart xs ys = All (λ (c : ℕ × A). Off c.0 ys) xs

  unfoldable pub last : ℕ → Cells A → ℕ
  last p [] = p
  last p ((q, v) ∷ cs) = last q cs

  pub back-last :
      (start : Option ℕ) (p : ℕ) (v : A) (cs : Cells A)
      → back start ((p, v) ∷ cs) ≡ some (last p cs)
  unfolding last
  back-last start p v [] = refl
  back-last start p v ((q, w) ∷ cs) = back-last (some p) q w cs

  -- The writes that join two chains: of the last cell's `next`, and of the first one's `prev`.
  unfoldable pub relink_next : Cells A → Option ℕ → Nodes A → Nodes A
  relink_next [] q m = m
  relink_next ((p, v) ∷ cs) q m = set_next (last p cs) q m

  unfoldable pub relink_prev : Cells A → Option ℕ → Nodes A → Nodes A
  relink_prev [] q m = m
  relink_prev ((p, v) ∷ cs) q m = set_prev p q m

  pub Off-last : (a p : ℕ) (cs : Cells A) → (a == p) ≡ false → Off a cs → (a == last p cs) ≡ false
  unfolding last
  Off-last a p [] h off = h
  Off-last a p ((q, v) ∷ cs) h off = Off-last a q cs off.0 off.1

  -- A cell that is off all of `cs` is off the last of them.
  Apart-last : (p : ℕ) (v : A) (cs ds : Cells A) → Apart ((p, v) ∷ cs) ds → Off (last p cs) ds
  unfolding last
  Apart-last p v [] ds h = h.0
  Apart-last p v ((q, w) ∷ cs) ds h = Apart-last q w cs ds h.1

  pub Seg-relink_next :
      (m : Nodes A) (start : Option ℕ) (cs : Cells A) (stop q : Option ℕ)
      → Distinct cs
      → Seg m start cs stop
      → Seg (relink_next cs q m) start cs q
  unfolding relink_next set_next with_next last
  Seg-relink_next m start [] stop q d s = tt
  Seg-relink_next m start ((p, v) ∷ []) stop q d s =
      let self : (p == p) ≡ true = ground arith in (rw self (ap (with_next q) s.0), tt)
  Seg-relink_next m start ((p, v) ∷ (r, w) ∷ cs) stop q d s =
      let other : (last r cs == p) ≡ false = ==_sym p (last r cs) (Off-last p r cs d.0.0 d.0.1) in
      (rw other s.0, Seg-relink_next m (some p) ((r, w) ∷ cs) stop q d.1 s.1)

  pub Seg-relink_prev :
      (m : Nodes A) (start : Option ℕ) (cs : Cells A) (stop q : Option ℕ)
      → Distinct cs
      → Seg m start cs stop
      → Seg (relink_prev cs q m) q cs stop
  unfolding relink_prev set_prev with_prev
  Seg-relink_prev m start [] stop q d s = tt
  Seg-relink_prev m start ((p, v) ∷ cs) stop q d s =
      let self : (p == p) ≡ true = ground arith in
      (rw self (ap (with_prev q) s.0), Seg-update m (some p) cs stop p _ d.0 s.1)

  pub Seg-relink_next_off :
      (m : Nodes A) (start : Option ℕ) (cs ds : Cells A) (stop q : Option ℕ)
      → Apart ds cs
      → Seg m start cs stop
      → Seg (relink_next ds q m) start cs stop
  unfolding relink_next set_next
  Seg-relink_next_off m start cs [] stop q a s = s
  Seg-relink_next_off m start cs ((p, v) ∷ ds) stop q a s =
      Seg-update m start cs stop (last p ds) _ (Apart-last p v ds cs a) s

  pub Seg-relink_prev_off :
      (m : Nodes A) (start : Option ℕ) (cs ds : Cells A) (stop q : Option ℕ)
      → Apart ds cs
      → Seg m start cs stop
      → Seg (relink_prev ds q m) start cs stop
  unfolding relink_prev set_prev
  Seg-relink_prev_off m start cs [] stop q a s = s
  Seg-relink_prev_off m start cs ((p, v) ∷ ds) stop q a s = Seg-update m start cs stop p _ a.0 s

  -- What is off the cells keeps its node.
  pub relink_next-Off :
      (m : Nodes A) (cs : Cells A) (q : Option ℕ) (p : ℕ) → Off p cs → relink_next cs q m p ≡ m p
  unfolding relink_next set_next
  relink_next-Off m [] q p off = refl
  relink_next-Off m ((r, v) ∷ cs) q p off =
      let other : (last r cs == p) ≡ false = ==_sym p (last r cs) (Off-last p r cs off.0 off.1) in
      rw other refl

-- ===== src/Idle/LinkedList/Ends.antt =====
-- `Add` at the tail and `Pop` at the head.
use agile_pool.Prelude.{
  ℕ, suc, ◌≡◌, refl, sym, ap, ◌∙◌, subst, true, false, Option, none, some, List, [], ◌∷◌, ◌++◌,
  arith, ◌==◌, length, length-append,
}
use agile_pool.Prelude.Update.{update}
use agile_pool.Prelude.All.{All-append, All-imp}
use agile_pool.Idle.Queue.{first, at_end}
use agile_pool.Idle.LinkedList.{
  Node, Nodes, LinkedList, with_next, with_prev, next_in, link_back, set_next, set_prev, write_next,
  write_prev, next_of, new_ll_node, append, add, advance, behead, same_pointer, pop,
}
use agile_pool.Idle.LinkedList.Segment.{
  Cells, back, Seg, last, back-last, Off-last, relink_next, relink_prev, back-append, Seg-append,
  Seg-update, Seg-relink_next, Seg-relink_prev, Seg-relink_next_off,
}
use agile_pool.Idle.LinkedList.Cells.{
  vals, of_cells, Good, Holds, vals-append, Off-below, Apart-Off, Distinct-append,
}

module _ {ℓ} {A : Type ℓ} where
  abbrev with_node : Nodes A → ℕ → A → Nodes A
  with_node m n w = update m n (some (record { val = w; next = none; prev = none }))

  -- The memory after `Add` on a list that is not empty.
  abbrev joined : Nodes A → ℕ → A → Cells A → Nodes A
  joined m n w cs =
      relink_prev ((n, w) ∷ []) (back none cs) (relink_next cs (some n) (with_node m n w))

  joined-Good :
      (m : Nodes A) (n : ℕ) (w : A) (cs : Cells A)
      → Good m n cs
      → Good (joined m n w cs) (suc n) (cs ++ (n, w) ∷ [])
  unfolding relink_prev set_prev
  joined-Good m n w cs g =
      let off = Off-below n n cs (omega arith) g.below in
      let self : (n == n) ≡ true = ground arith in
      let made : Option (Node A) = some (record { val = w; next = none; prev = none }) in
      let linked = relink_next cs (some n) (with_node m n w) in
      let one : Seg (with_node m n w) none ((n, w) ∷ []) none = (rw self refl, tt) in
      record {
        linked =
            Seg-append (joined m n w cs) none cs ((n, w) ∷ []) none
              (Seg-update linked none cs (some n) n (with_prev (back none cs) (linked n)) off (
                Seg-relink_next (with_node m n w) none cs none (some n) g.distinct
                  (Seg-update m none cs none n made off g.linked)))
              (Seg-relink_prev linked none ((n, w) ∷ []) none (back none cs) (tt, tt)
                (Seg-relink_next_off (with_node m n w) none ((n, w) ∷ []) cs none (some n)
                  (Apart-Off cs n w off) one));
        distinct = Distinct-append cs ((n, w) ∷ []) g.distinct (tt, tt) (Apart-Off cs n w off);
        below =
            All-append _ cs ((n, w) ∷ []) (All-imp _ _ cs (λ c h. omega (arith, h)) g.below)
              (omega arith, tt);
        enough = omega (arith, length-append cs ((n, w) ∷ []), g.enough);
      }

  next_of-set_next :
      (m : Nodes A) (p : ℕ) (q : Option ℕ) (n : Node A)
      → m p ≡ some n
      → next_of (set_next p q m) (some p) ≡ q
  unfolding next_of set_next with_next next_in
  next_of-set_next m p q n e =
      let self : (p == p) ≡ true = ground arith in rw self (ap (λ o. next_in (with_next q o)) e)

  -- The last cell is in the memory.
  last-known :
      (m : Nodes A) (start : Option ℕ) (p : ℕ) (v : A) (cs : Cells A) (stop : Option ℕ)
      → Seg m start ((p, v) ∷ cs) stop
      → (n : Node A) × (m (last p cs) ≡ some n)
  unfolding last
  last-known m start p v [] stop s = (_, s.0)
  last-known m start p v ((q, w) ∷ cs) stop s = last-known m (some p) q w cs stop s.1

  append-eq :
      (m : Nodes A) (n : ℕ) (w : A) (p : ℕ) (v : A) (cs : Cells A)
      → Good m n ((p, v) ∷ cs)
      → add w (of_cells m n ((p, v) ∷ cs))
        ≡ of_cells (joined m n w ((p, v) ∷ cs)) (suc n) (((p, v) ∷ cs) ++ (n, w) ∷ [])
  unfolding add new_ll_node append link_back write_next write_prev relink_next relink_prev
  append-eq m n w p v cs g =
      let m' = with_node m n w in
      let cells : Cells A = (p, v) ∷ cs in
      let off = Off-below n n cells (omega arith) g.below in
      let (node, known) =
        last-known m' none p v cs none (Seg-update m none cells none n _ off g.linked) in
      let at_last = set_next (last p cs) (some n) m' in
      let list : Option ℕ → Option ℕ → ℕ → LinkedList A = λ prev tail length. record {
        nodes = set_prev n prev at_last;
        allocated = suc n;
        head = some p;
        tail = tail;
        length = length;
        faulted = false;
      } in
      ap (λ tail. append (some n) (record (of_cells m' (suc n) cells) { tail = tail }))
        (back-last none p v cs)
      ∙ (ap
            (λ tail.
              link_back (some (last p cs))
                (record (of_cells at_last (suc n) cells) { tail = tail }))
            (next_of-set_next m' (last p cs) (some n) node known)
          ∙ (ap (λ prev. list prev (some n) (suc (length cells))) (sym (back-last none p v cs))
              ∙ (ap (λ tail. list (back none cells) tail (suc (length cells)))
                    (sym (back-append none cells ((n, w) ∷ [])))
                  ∙ ap (λ k. list (back none cells) (back none (cells ++ (n, w) ∷ [])) k)
                      (omega (arith, length-append cells ((n, w) ∷ []))))))

  add_cells-Holds :
      (m : Nodes A) (n : ℕ) (w : A) (cs : Cells A)
      → Good m n cs
      → Holds (add w (of_cells m n cs)) (vals cs ++ w ∷ [])
  unfolding add new_ll_node
  add_cells-Holds m n w [] g =
      let self : (n == n) ≡ true = ground arith in
      record {
        nodes = with_node m n w;
        allocated = suc n;
        cells = (n, w) ∷ [];
        shape = refl;
        good = record {
          linked = (rw self refl, tt);
          distinct = (tt, tt);
          below = (omega arith, tt);
          enough = omega arith;
        };
        values = refl;
      }
  add_cells-Holds m n w ((p, v) ∷ cs) g = record {
    nodes = joined m n w ((p, v) ∷ cs);
    allocated = suc n;
    cells = ((p, v) ∷ cs) ++ (n, w) ∷ [];
    shape = append-eq m n w p v cs g;
    good = joined-Good m n w ((p, v) ∷ cs) g;
    values = vals-append ((p, v) ∷ cs) ((n, w) ∷ []);
  }

  pub add-Holds :
      (w : A) (l : LinkedList A) (xs : List A) → Holds l xs → Holds (add w l) (at_end w xs)
  add-Holds w l xs h = rw h.shape (
      subst (λ xs. Holds (add w (of_cells h.nodes h.allocated h.cells)) (xs ++ w ∷ [])) h.values
        (add_cells-Holds h.nodes h.allocated w h.cells h.good))

  behead-Holds :
      (m : Nodes A) (n p : ℕ) (v : A) (cs : Cells A)
      → Good m n ((p, v) ∷ cs)
      → Holds (behead (of_cells m n ((p, v) ∷ cs))) (vals cs)
  unfolding behead advance next_of next_in write_prev relink_prev
  behead-Holds m n p v [] g =
      let self : (p == p) ≡ true = ground arith in
      rw self (record {
        nodes = m;
        allocated = n;
        cells = [];
        shape = ap (λ k. record (of_cells m n []) { length = k }) (omega arith);
        good = record { linked = tt; distinct = tt; below = tt; enough = omega arith };
        values = refl;
      })
  behead-Holds m n p v ((q, w) ∷ ds) g =
      let cells : Cells A = (q, w) ∷ ds in
      let list = record (of_cells m n ((p, v) ∷ cells)) { head = some q } in
      let differ : same_pointer (some p) (back (some q) ds) ≡ false =
        ap (same_pointer (some p)) (back-last (some p) q w ds)
        ∙ Off-last p q ds g.distinct.0.0 g.distinct.0.1 in
      rw differ (record {
        nodes = relink_prev cells none m;
        allocated = n;
        cells = cells;
        shape =
            ap (λ next. advance next (of_cells m n ((p, v) ∷ cells))) (ap next_in g.linked.0)
            ∙ ap (λ k. record (of_cells (relink_prev cells none m) n cells) { length = k })
                (omega arith);
        good = record {
          linked = Seg-relink_prev m (some p) cells none none g.distinct.1 g.linked.1;
          distinct = g.distinct.1;
          below = g.below.1;
          enough = omega (arith, g.enough);
        };
        values = refl;
      })

  pop_cells-Holds :
      (m : Nodes A) (n : ℕ) (cs : Cells A)
      → Good m n cs
      → ((pop (of_cells m n cs)).0 ≡ (first (vals cs)).0)
        × Holds (pop (of_cells m n cs)).1 (first (vals cs)).1
  unfolding pop
  pop_cells-Holds m n [] g =
      (refl, record { nodes = m; allocated = n; cells = []; shape = refl; good = g; values = refl })
  pop_cells-Holds m n ((p, v) ∷ cs) g = rw (g.linked.0) (refl, behead-Holds m n p v cs g)

  pub pop-Holds :
      (l : LinkedList A) (xs : List A)
      → Holds l xs
      → ((pop l).0 ≡ (first xs).0) × Holds (pop l).1 (first xs).1
  pop-Holds l xs h = rw h.shape (
      subst
        (λ xs.
          ((pop (of_cells h.nodes h.allocated h.cells)).0 ≡ (first xs).0)
          × Holds (pop (of_cells h.nodes h.allocated h.cells)).1 (first xs).1)
        h.values (pop_cells-Holds h.nodes h.allocated h.cells h.good))

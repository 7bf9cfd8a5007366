-- ===== src/Idle/LinkedList/Order.antt =====
-- The linked list is a queue in the order of arrival.
use agile_pool.Prelude.{
  ℕ, zero, suc, ◌+◌, ◌-◌, ◌≤◌, ◌≡◌, refl, sym, ap, ◌∙◌, subst, false, Option, none, some, List, [],
  ◌∷◌, ◌++◌, arith, length, append_assoc, keep, length-keep-le, Bool-cases, inl, inr,
}
use agile_pool.Idle.{stays}
use agile_pool.Idle.Queue.{IsQueue, Op, AllTimely, at_end, run_calls, run_calls-new}
use agile_pool.Idle.LinkedList.{
  Nodes, LinkedList, new_linked_list, remove_loop, or_fault, remove_expired, linked_list,
}
use agile_pool.Idle.LinkedList.Segment.{Cells, front, Seg-right}
use agile_pool.Idle.LinkedList.Cells.{vals, of_cells, Good, Holds, vals-append, length-vals}
use agile_pool.Idle.LinkedList.Ends.{add-Holds, pop-Holds}
use agile_pool.Idle.LinkedList.Removal.{removed_nodes, removed-Good, remove_node-eq}

module _ {ℓ} {A : Type ℓ} (date : A → ℕ) where
  -- A loop that has enough fuel, and what it gives.
  record Removed (r : Option (ℕ × LinkedList A)) (removed : ℕ) (xs : List A) : Type ℓ where
    list : LinkedList A
    ends : r ≡ some (removed, list)
    holds : Holds list xs

  module _ (now expiry : ℕ) where
    abbrev kept : List A → List A
    kept xs = keep (stays date now expiry) xs

    remove_loop-Removed :
        (fuel : ℕ) (m : Nodes A) (n : ℕ) (ks rest : Cells A) (removed : ℕ)
        → length rest ≤ fuel
        → Good m n (ks ++ rest)
        → Removed
            (remove_loop date fuel now expiry (front rest none) removed (of_cells m n (ks ++ rest)))
            (removed + (length (vals rest) - length (kept (vals rest))))
            (vals ks ++ kept (vals rest))
    unfolding remove_loop
    remove_loop-Removed fuel m n ks [] removed le g = record {
      list = of_cells m n (ks ++ []);
      ends = ap (λ k. some (k, of_cells m n (ks ++ []))) (omega arith);
      holds = record {
        nodes = m;
        allocated = n;
        cells = ks ++ [];
        shape = refl;
        good = g;
        values = vals-append ks [];
      };
    }
    remove_loop-Removed zero m n ks ((p, v) ∷ rest) removed le g = absurd (omega (arith, le))
    remove_loop-Removed (suc fuel) m n ks ((p, v) ∷ rest) removed le g =
        let here = (Seg-right m none ks ((p, v) ∷ rest) none g.linked).0 in
        rw (here, remove_loop)
          (elim (Bool-cases (stays date now expiry v)) [
            | inl stay ↦
                let again : Cells A = ks ++ (p, v) ∷ [] in
                let assoc = append_assoc ks ((p, v) ∷ []) rest in
                let ih =
                  remove_loop-Removed fuel m n again rest removed (omega (arith, le))
                    (subst (Good m n) (sym assoc) g) in
                rw stay (record {
                  list = ih.list;
                  ends =
                      ap
                        (λ cs.
                          remove_loop date fuel now expiry (front rest none) removed
                            (of_cells m n cs))
                        (sym assoc)
                      ∙ (ih.ends ∙ ap (λ k. some (k, ih.list)) (omega arith));
                  holds =
                      subst (Holds ih.list)
                        (ap (◌++ kept (vals rest)) (vals-append ks ((p, v) ∷ []))
                          ∙ append_assoc (vals ks) (v ∷ []) (kept (vals rest)))
                        ih.holds;
                })
            | inr gone ↦
                let ih =
                  remove_loop-Removed fuel (removed_nodes m p ks rest) n ks rest (suc removed)
                    (omega (arith, le)) (removed-Good m n ks p v rest g) in
                let fewer = length-keep-le (stays date now expiry) (vals rest) in
                rw gone (record {
                  list = ih.list;
                  ends =
                      ap (remove_loop date fuel now expiry (front rest none) (suc removed))
                        (remove_node-eq m n ks p v rest g)
                      ∙ (ih.ends ∙ ap (λ k. some (k, ih.list)) (omega (arith, fewer)));
                  holds = ih.holds;
                })
          ])

  abbrev Cleaned : (now expiry : ℕ) → LinkedList A → List A → Type ℓ
  Cleaned now expiry l xs =
      let rest = keep (stays date now expiry) xs in
      ((remove_expired date now expiry l).0 ≡ length xs - length rest)
      × Holds (remove_expired date now expiry l).1 rest

  remove_cells-Cleaned :
      (now expiry : ℕ) (m : Nodes A) (n : ℕ) (cs : Cells A)
      → Good m n cs
      → Cleaned now expiry (of_cells m n cs) (vals cs)
  unfolding remove_expired or_fault
  remove_cells-Cleaned now expiry m n cs g =
      let r = remove_loop-Removed now expiry n m n [] cs 0 g.enough g in
      let l = of_cells m n cs in
      let rest = keep (stays date now expiry) (vals cs) in
      subst (λ o. ((or_fault l o).0 ≡ length (vals cs) - length rest) × Holds (or_fault l o).1 rest)
        (sym r.ends) (omega arith, r.holds)

  remove_expired-Cleaned :
      (now expiry : ℕ) (l : LinkedList A) (xs : List A)
      → expiry ≤ now
      → Holds l xs
      → Cleaned now expiry l xs
  remove_expired-Cleaned now expiry l xs le h = rw h.shape (
      subst (Cleaned now expiry (of_cells h.nodes h.allocated h.cells)) h.values
        (remove_cells-Cleaned now expiry h.nodes h.allocated h.cells h.good))

  pub linked_list-IsQueue : IsQueue date at_end (linked_list date)
  unfolding new_linked_list
  linked_list-IsQueue = record {
    Holds = Holds;
    new_law = record {
      nodes = λ _. none;
      allocated = 0;
      cells = [];
      shape = refl;
      good = record { linked = tt; distinct = tt; below = tt; enough = omega arith };
      values = refl;
    };
    add_law = add-Holds;
    pop_law = pop-Holds;
    remove_law = remove_expired-Cleaned;
    len_law =
        λ l xs h. ap (λ k. k.length) h.shape ∙ (sym (length-vals h.cells) ∙ ap length h.values);
  }

  -- Whatever is called, the code goes through no nil pointer.
  pub run_calls-faulted :
      (os : List (Op A))
      → AllTimely os
      → (run_calls (linked_list date) os new_linked_list).1.faulted ≡ false
  unfolding linked_list-IsQueue
  run_calls-faulted os t = ap (λ l. l.faulted) (run_calls-new linked_list-IsQueue os t).1.shape

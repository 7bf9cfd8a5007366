-- ===== src/Idle/LinkedList/Removal.antt =====
-- `removeNode` in the middle of a list.
use agile_pool.Prelude.{
  ℕ, ◌≡◌, refl, sym, ap, ap₂, ◌∙◌, Option, none, some, [], ◌∷◌, ◌++◌, arith, length, length-append,
  append-nil,
}
use agile_pool.Prelude.All.{All-append, All-left, All-right, All-imp}
use agile_pool.Idle.LinkedList.{
  Nodes, LinkedList, set_next, set_prev, write_next, write_prev, next_of, prev_of, next_in, prev_in,
  link_prev, link_next, detach, remove_node,
}
use agile_pool.Idle.LinkedList.Segment.{
  Cells, front, back, Seg, Off, Apart, back-last, relink_next, relink_prev, back-append, Seg-left,
  Seg-right, Seg-append, Seg-update, Seg-relink_next, Seg-relink_prev, Seg-relink_next_off,
  Seg-relink_prev_off, relink_next-Off,
}
use agile_pool.Idle.LinkedList.Cells.{
  of_cells, Good, Distinct-left, Distinct-right, Distinct-append, Apart-append, Apart-sym_one,
  Apart-swap,
}

module _ {ℓ} {A : Type ℓ} where
  -- The memory when `ks` is joined to `ys`, and when the links of `p` are gone.
  abbrev bridged : Nodes A → Cells A → Cells A → Nodes A
  bridged m ks ys = relink_prev ys (back none ks) (relink_next ks (front ys none) m)

  abbrev pub removed_nodes : Nodes A → ℕ → Cells A → Cells A → Nodes A
  removed_nodes m p ks ys = set_next p none (set_prev p none (bridged m ks ys))

  -- The list after `link_prev`, and after `link_next`.
  abbrev half : Nodes A → ℕ → Cells A → ℕ → A → Cells A → LinkedList A
  half m n ks p v ys = record (of_cells m n (ks ++ (p, v) ∷ ys)) {
    nodes = relink_next ks (front ys none) m;
    head = front (ks ++ ys) none;
  }

  abbrev joined : Nodes A → ℕ → Cells A → ℕ → A → Cells A → LinkedList A
  joined m n ks p v ys = record (of_cells (bridged m ks ys) n (ks ++ ys)) {
    length = length (ks ++ (p, v) ∷ ys);
  }

  link_prev-half :
      (m : Nodes A) (n : ℕ) (ks : Cells A) (p : ℕ) (v : A) (ys : Cells A)
      → link_prev (back none ks) (front ys none) (of_cells m n (ks ++ (p, v) ∷ ys))
        ≡ half m n ks p v ys
  unfolding link_prev write_next relink_next
  link_prev-half m n [] p v ys = refl
  link_prev-half m n ((q, w) ∷ ks) p v ys =
      ap (λ prev. link_prev prev (front ys none) (of_cells m n (((q, w) ∷ ks) ++ (p, v) ∷ ys)))
        (back-last none q w ks)

  link_next-joined :
      (m : Nodes A) (n : ℕ) (ks : Cells A) (p : ℕ) (v : A) (ys : Cells A)
      → link_next (front ys none) (back none ks) (half m n ks p v ys) ≡ joined m n ks p v ys
  unfolding link_next write_prev relink_prev
  link_next-joined m n ks p v [] =
      ap (λ tail. record (half m n ks p v []) { tail = tail })
        (ap (back none) (sym (append-nil ks)))
  link_next-joined m n ks p v ((r, u) ∷ zs) =
      ap (λ tail. record (joined m n ks p v ((r, u) ∷ zs)) { tail = tail })
        (back-append none ks ((p, v) ∷ (r, u) ∷ zs) ∙ sym (back-append none ks ((r, u) ∷ zs)))

  pub remove_node-eq :
      (m : Nodes A) (n : ℕ) (ks : Cells A) (p : ℕ) (v : A) (ys : Cells A)
      → Good m n (ks ++ (p, v) ∷ ys)
      → remove_node p (of_cells m n (ks ++ (p, v) ∷ ys))
        ≡ of_cells (removed_nodes m p ks ys) n (ks ++ ys)
  unfolding remove_node detach next_of prev_of next_in prev_in write_next write_prev
  remove_node-eq m n ks p v ys g =
      let l = of_cells m n (ks ++ (p, v) ∷ ys) in
      let here = (Seg-right m none ks ((p, v) ∷ ys) none g.linked).0 in
      let m1 = relink_next ks (front ys none) m in
      let off : Off p ks = Apart-sym_one p v ys ks (Apart-append ks ((p, v) ∷ ys) g.distinct) in
      let still = relink_next-Off m ks (front ys none) p off ∙ here in
      ap (detach p) (
        ap (λ l1. link_next (next_of l1.nodes (some p)) (prev_of l1.nodes (some p)) l1)
          (ap₂ (λ prev next. link_prev prev next l) (ap prev_in here) (ap next_in here)
            ∙ link_prev-half m n ks p v ys)
        ∙ (ap₂ (λ next prev. link_next next prev (half m n ks p v ys)) (ap next_in still)
              (ap prev_in still)
            ∙ link_next-joined m n ks p v ys))
      ∙ ap (λ k. record (of_cells (removed_nodes m p ks ys) n (ks ++ ys)) { length = k })
          (omega (arith, length-append ks ((p, v) ∷ ys), length-append ks ys))

  Seg-set_next :
      (p : ℕ) (q : Option ℕ) (m : Nodes A) (cs : Cells A)
      → Off p cs
      → Seg m none cs none
      → Seg (set_next p q m) none cs none
  unfolding set_next
  Seg-set_next p q m cs off s = Seg-update m none cs none p _ off s

  Seg-set_prev :
      (p : ℕ) (q : Option ℕ) (m : Nodes A) (cs : Cells A)
      → Off p cs
      → Seg m none cs none
      → Seg (set_prev p q m) none cs none
  unfolding set_prev
  Seg-set_prev p q m cs off s = Seg-update m none cs none p _ off s

  pub removed-Good :
      (m : Nodes A) (n : ℕ) (ks : Cells A) (p : ℕ) (v : A) (ys : Cells A)
      → Good m n (ks ++ (p, v) ∷ ys)
      → Good (removed_nodes m p ks ys) n (ks ++ ys)
  removed-Good m n ks p v ys g =
      let next = front ys none in
      let prev = back none ks in
      let m1 = relink_next ks next m in
      let m2 = bridged m ks ys in
      let (off_ys, distinct_ys) = Distinct-right ks ((p, v) ∷ ys) g.distinct in
      let apart_all = Apart-append ks ((p, v) ∷ ys) g.distinct in
      let apart : Apart ks ys = All-imp _ _ ks (λ c h. h.1) apart_all in
      let off = All-append _ ks ys (Apart-sym_one p v ys ks apart_all) off_ys in
      let distinct_ks = Distinct-left ks ((p, v) ∷ ys) g.distinct in
      let left = Seg-left m none ks ((p, v) ∷ ys) none g.linked in
      let right = (Seg-right m none ks ((p, v) ∷ ys) none g.linked).1 in
      let bridge : Seg m2 none (ks ++ ys) none =
        Seg-append m2 none ks ys none
          (Seg-relink_prev_off m1 none ks ys next prev (Apart-swap ks ys apart)
            (Seg-relink_next m none ks (some p) next distinct_ks left))
          (Seg-relink_prev m1 (some p) ys none prev distinct_ys
            (Seg-relink_next_off m (some p) ys ks none next apart right)) in
      record {
        linked =
            Seg-set_next p none (set_prev p none m2) (ks ++ ys) off
              (Seg-set_prev p none m2 (ks ++ ys) off bridge);
        distinct = Distinct-append ks ys distinct_ks distinct_ys apart;
        below =
            All-append _ ks ys (All-left _ ks ((p, v) ∷ ys) g.below)
              (All-right _ ks ((p, v) ∷ ys) g.below).1;
        enough = omega (arith, length-append ks ((p, v) ∷ ys), length-append ks ys, g.enough);
      }

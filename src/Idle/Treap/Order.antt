-- ===== src/Idle/Treap/Order.antt =====
-- The treap is a queue in the order of the dates.
use agile_pool.Prelude.{
  ℕ, ◌-◌, ◌≤◌, ◌≡◌, refl, sym, ap, subst, ◌∙◌, Option, none, some, List, ◌∷◌, ◌++◌, arith, length,
  length-append, keep,
}
use agile_pool.Idle.{stays}
use agile_pool.Idle.Queue.{IsQueue, by_date, first}
use agile_pool.Idle.Sorted.{Sorted, Sorted-right, Sorted-between, by_date-between, keep-stays}
use agile_pool.Idle.Treap.{
  Tree, leaf, node, Treap, merge, take_least, split, inorder, add, pop, remove_expired, treap,
}
use agile_pool.Idle.Treap.Split.{
  inorder-merge, remove_tree-length, take_least-inorder, split-inorder, split-dates,
}

module _ {ℓ} {A : Type ℓ} (date : A → ℕ) where
  pub record Holds (t : Treap A) (xs : List A) : Type ℓ where
    pub listed : inorder t.root ≡ xs
    pub sorted : Sorted date xs
    pub counted : t.size ≡ length xs

  add-Holds :
      (rand : ℕ → ℕ) (a : A) (t : Treap A) (xs : List A)
      → Holds t xs
      → Holds (add date rand a t) (by_date date a xs)
  unfolding add inorder
  add-Holds rand a t xs h =
      let (l, r) = split date t.root (date a) in
      let one = node leaf a (rand t.drawn) leaf in
      let parts : xs ≡ inorder l ++ inorder r = sym h.listed ∙ split-inorder date t.root (date a) in
      let (u, p) = split-dates date t.root (date a) (subst (Sorted date) (sym h.listed) h.sorted) in
      let placed : by_date date a xs ≡ inorder l ++ a ∷ inorder r =
        ap (by_date date a) parts ∙ by_date-between date a (inorder l) (inorder r) u p in
      record {
        listed =
            inorder-merge l (merge one r) ∙ ap (inorder l ++◌) (inorder-merge one r) ∙ sym placed;
        sorted = subst (Sorted date) (sym placed) (
            Sorted-between date a (inorder l) (inorder r) u p (subst (Sorted date) parts h.sorted));
        counted = omega (
          arith,
          h.counted,
          ap length placed,
          ap length parts,
          length-append (inorder l) (inorder r),
          length-append (inorder l) (a ∷ inorder r),
        );
      }

  pop_root-Holds :
      (root : Tree A) (size drawn : ℕ) (xs : List A)
      → inorder root ≡ xs
      → Sorted date xs
      → size ≡ length xs
      → let t : Treap A = record { root = root; size = size; drawn = drawn } in
        ((pop t).0 ≡ (first xs).0) × Holds (pop t).1 (first xs).1
  unfolding pop inorder
  pop_root-Holds leaf size drawn xs e s n =
      subst
        (λ xs.
          (◌≡◌ {A = Option A} none (first xs).0)
          × Holds (record { root = leaf; size = size; drawn = drawn }) (first xs).1)
        e (refl, record { listed = refl; sorted = tt; counted = omega (arith, n, ap length e) })
  pop_root-Holds (node l v p r) size drawn xs e s n =
      let front = take_least l v p r in
      let order : xs ≡ front.0 ∷ inorder front.1 = sym e ∙ take_least-inorder l v p r in
      subst
        (λ xs.
          (some front.0 ≡ (first xs).0)
          × Holds (record { root = front.1; size = size - 1; drawn = drawn }) (first xs).1)
        (sym order)
        (
          refl,
          record {
            listed = refl;
            sorted = (subst (Sorted date) order s).1;
            counted = omega (arith, n, ap length order);
          },
        )

  pop-Holds :
      (t : Treap A) (xs : List A)
      → Holds t xs
      → ((pop t).0 ≡ (first xs).0) × Holds (pop t).1 (first xs).1
  pop-Holds t xs h = pop_root-Holds t.root t.size t.drawn xs h.listed h.sorted h.counted

  remove_expired-Holds :
      (now expiry : ℕ) (t : Treap A) (xs : List A)
      → expiry ≤ now
      → Holds t xs
      → let rest = keep (stays date now expiry) xs in
        ((remove_expired date now expiry t).0 ≡ length xs - length rest)
        × Holds (remove_expired date now expiry t).1 rest
  unfolding remove_expired
  remove_expired-Holds now expiry t xs le h =
      let (l, r) = split date t.root (now - expiry) in
      let parts : xs ≡ inorder l ++ inorder r =
        sym h.listed ∙ split-inorder date t.root (now - expiry) in
      let (u, p) =
        split-dates date t.root (now - expiry) (subst (Sorted date) (sym h.listed) h.sorted) in
      let left : keep (stays date now expiry) xs ≡ inorder r =
        ap (keep (stays date now expiry)) parts
        ∙ keep-stays date now expiry (inorder l) (inorder r) le u p in
      (
        omega (
          arith,
          h.counted,
          ap length parts,
          ap length left,
          length-append (inorder l) (inorder r),
          remove_tree-length l,
        ),
        record {
          listed = sym left;
          sorted =
              subst (Sorted date) (sym left)
                (Sorted-right date (inorder l) (inorder r) (subst (Sorted date) parts h.sorted));
          counted = omega (
            arith,
            h.counted,
            ap length parts,
            ap length left,
            length-append (inorder l) (inorder r),
            remove_tree-length l,
          );
        },
      )

  pub treap-IsQueue : (rand : ℕ → ℕ) → IsQueue date (by_date date) (treap date rand)
  unfolding treap inorder
  treap-IsQueue rand = record {
    Holds = Holds;
    new_law = record { listed = refl; sorted = tt; counted = refl };
    add_law = add-Holds rand;
    pop_law = pop-Holds;
    remove_law = remove_expired-Holds;
    len_law = λ t xs h. h.counted;
  }

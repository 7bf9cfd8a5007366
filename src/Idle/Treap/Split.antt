-- ===== src/Idle/Treap/Split.antt =====
-- The elements of a tree, in order, through `split`, `merge` and the other functions on trees.
use agile_pool.Prelude.{
  ℕ, ◌≡◌, refl, sym, ap, subst, ◌∙◌, true, false, List, ◌∷◌, ◌++◌, append-nil, append_assoc, arith,
  ltb, ltb→lt, ltb→le, Bool-cases, inl, inr, length, length-append,
}
use agile_pool.Prelude.All.{All-append, All-imp}
use agile_pool.Idle.Sorted.{Upto, Past, Sorted, Sorted-left, Sorted-right, Upto-middle, From-middle}
use agile_pool.Idle.Treap.{Tree, leaf, node, merge, remove_tree, take_least, split, inorder}

module _ {ℓ} {A : Type ℓ} where
  merge-left :
      (ll : Tree A) (lv : A) (lp : ℕ) (lr rl : Tree A) (rv : A) (rp : ℕ) (rr : Tree A)
      → ltb lp rp ≡ true
      → merge (node ll lv lp lr) (node rl rv rp rr) ≡ node ll lv lp (merge lr (node rl rv rp rr))
  unfolding merge
  merge-left ll lv lp lr rl rv rp rr e = rw (e, merge) refl

  merge-right :
      (ll : Tree A) (lv : A) (lp : ℕ) (lr rl : Tree A) (rv : A) (rp : ℕ) (rr : Tree A)
      → ltb lp rp ≡ false
      → merge (node ll lv lp lr) (node rl rv rp rr) ≡ node (merge (node ll lv lp lr) rl) rv rp rr
  unfolding merge
  merge-right ll lv lp lr rl rv rp rr e = rw (e, merge) refl

  pub inorder-merge : (l r : Tree A) → inorder (merge l r) ≡ inorder l ++ inorder r
  unfolding merge inorder
  inorder-merge leaf r = refl
  inorder-merge (node ll lv lp lr) leaf = sym (append-nil _)
  inorder-merge (node ll lv lp lr) (node rl rv rp rr) = elim (Bool-cases (ltb lp rp)) [
    | inl left_up ↦
        ap inorder (merge-left ll lv lp lr rl rv rp rr left_up)
        ∙ (ap (λ l. inorder ll ++ lv ∷ l) (inorder-merge lr (node rl rv rp rr))
            ∙ sym (append_assoc (inorder ll) (lv ∷ inorder lr) (inorder rl ++ rv ∷ inorder rr)))
    | inr right_up ↦
        ap inorder (merge-right ll lv lp lr rl rv rp rr right_up)
        ∙ (ap (◌++ rv ∷ inorder rr) (inorder-merge (node ll lv lp lr) rl)
            ∙ append_assoc (inorder ll ++ lv ∷ inorder lr) (inorder rl) (rv ∷ inorder rr))
  ]

  pub remove_tree-length : (t : Tree A) → remove_tree t ≡ length (inorder t)
  unfolding remove_tree inorder
  remove_tree-length leaf = refl
  remove_tree-length (node l v p r) =
      omega (
        arith,
        length-append (inorder l) (v ∷ inorder r),
        remove_tree-length l,
        remove_tree-length r,
      )

  pub take_least-inorder :
      (l : Tree A) (v : A) (p : ℕ) (r : Tree A)
      → inorder l ++ v ∷ inorder r ≡ (take_least l v p r).0 ∷ inorder (take_least l v p r).1
  unfolding take_least inorder
  take_least-inorder leaf v p r = refl
  take_least-inorder (node ll lv lp lr) v p r =
      ap (◌++ v ∷ inorder r) (take_least-inorder ll lv lp lr)

  module _ (date : A → ℕ) where
    split-later :
        (l : Tree A) (v : A) (p : ℕ) (r : Tree A) (k : ℕ)
        → ltb k (date v) ≡ true
        → split date (node l v p r) k ≡ ((split date l k).0, node (split date l k).1 v p r)
    unfolding split
    split-later l v p r k e = rw (e, split) refl

    split-before :
        (l : Tree A) (v : A) (p : ℕ) (r : Tree A) (k : ℕ)
        → ltb k (date v) ≡ false
        → split date (node l v p r) k ≡ (node l v p (split date r k).0, (split date r k).1)
    unfolding split
    split-before l v p r k e = rw (e, split) refl

    abbrev joined : Tree A × Tree A → List A
    joined s = inorder s.0 ++ inorder s.1

    abbrev Parted : ℕ → Tree A × Tree A → Type 0
    Parted k s = Upto date k (inorder s.0) × Past date k (inorder s.1)

    pub split-inorder :
        (t : Tree A) (k : ℕ) → inorder t ≡ inorder (split date t k).0 ++ inorder (split date t k).1
    unfolding split inorder
    split-inorder leaf k = refl
    split-inorder (node l v p r) k = elim (Bool-cases (ltb k (date v))) [
      | inl later ↦
          (ap (◌++ v ∷ inorder r) (split-inorder l k)
            ∙ append_assoc (inorder (split date l k).0) (inorder (split date l k).1)
                (v ∷ inorder r))
          ∙ ap joined (sym (split-later l v p r k later))
      | inr before ↦
          (ap (λ x. inorder l ++ v ∷ x) (split-inorder r k)
            ∙ sym (
                append_assoc (inorder l) (v ∷ inorder (split date r k).0)
                  (inorder (split date r k).1)))
          ∙ ap joined (sym (split-before l v p r k before))
    ]

    pub split-dates :
        (t : Tree A) (k : ℕ)
        → Sorted date (inorder t)
        → Upto date k (inorder (split date t k).0) × Past date k (inorder (split date t k).1)
    unfolding split inorder
    split-dates leaf k s = (tt, tt)
    split-dates (node l v p r) k s = elim (Bool-cases (ltb k (date v))) [
      | inl later ↦
          let (u, q) = split-dates l k (Sorted-left date (inorder l) (v ∷ inorder r) s) in
          let lt = ltb→lt k (date v) later in
          let f =
            All-imp _ _ (inorder r) (λ y h. omega (arith, h, lt))
              (From-middle date (inorder l) v (inorder r) s) in
          subst (Parted k) (sym (split-later l v p r k later))
            (u, All-append _ (inorder (split date l k).1) (v ∷ inorder r) q (lt, f))
      | inr before ↦
          let (u, q) = split-dates r k (Sorted-right date (inorder l) (v ∷ inorder r) s).1 in
          let le = ltb→le k (date v) before in
          let f =
            All-imp _ _ (inorder l) (λ y h. omega (arith, h, le))
              (Upto-middle date (inorder l) v (inorder r) s) in
          subst (Parted k) (sym (split-before l v p r k before))
            (All-append _ (inorder l) (v ∷ inorder (split date r k).0) f (le, u), q)
    ]
